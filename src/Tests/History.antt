-- ===== src/Tests/History.antt =====
-- Sequences of RPCs of src/service.rs at concrete requests.
use task_db.Prelude.{codes, some, none, List, [], ◌∷◌, ◌≡◌, refl}
use task_db.Status.{ok}
use task_db.Proto.{UpdateTaskRequest, DeleteTaskRequest, Outcome}
use task_db.Engine.{WriteRow, Db}
use task_db.Txn.{Weather, call, execute, acquire, acquired, begin, commit}
use task_db.Sql.{scope_of, reach_of, subtree, within, visible, predicate}
use task_db.Sql.Where.{eval}
use task_db.Tables.{find_claim, selects, select_rows, update_rows, insert_claim, update_claim}
use task_db.Idem.{claim, caller_fingerprint, present, record_outcome}
use task_db.Write.{assigned_by_the_module}
use task_db.Write.Create.{create}
use task_db.Write.Delete.{delete, delete_claimed}
use task_db.Write.Update.{update, update_claimed, previous_status}
use task_db.Write.Mask.{fields_of}
use task_db.Lookup.{lookup}
use task_db.Service.{Request, create_task, get_task, delete_task}
use task_db.History.{run}
use task_db.History.Valid.{IsValid, run-IsValid}
use task_db.History.Growth.{Grows, run-Grows}
use task_db.History.Retries.{create_retried, update_retried, delete_retried}
use task_db.History.Lookups.{asking_update, asking_delete, lookup-update, lookup-delete}
use task_db.Idem
use task_db.Idem.Taking.{claim_row}
use task_db.History.Durable.{find_claim-run}
use task_db.History.Asked.{asking_create, lookup-create}
use task_db.Tests.Fixtures.{binary, plain, alice, calm, empty_db, padded}
use task_db.Tests.Writes.{create_req, update_req, delete_req, get_req, storm, one_task}
use task_db.Tests.Outcomes.{
  own_task, created_response, updated_response, deleted_response, creates, updates, deletes,
  connects, keyed,
}

-- A create, a read, a delete whose statements fail, and another create.
abbrev calls : List (Request × Weather)
calls =
    (create_task (codes "5") create_req, calm)
    ∷ (get_task get_req, calm)
    ∷ (delete_task 8 delete_req, storm)
    ∷ (create_task (codes "6") (record create_req { idempotency = none }), calm)
    ∷ []

empty_db-IsValid : IsValid binary empty_db
empty_db-IsValid = record { task_keys = tt; counter_keys = tt; claim_keys = tt; rows = tt }

run-IsValid_example : IsValid binary (run binary plain calls empty_db)
run-IsValid_example = run-IsValid binary plain calls empty_db empty_db-IsValid

run-Grows_example : Grows binary one_task (run binary plain calls one_task)
run-Grows_example = run-Grows binary plain calls one_task

abbrev after_update : Db
after_update = run binary plain calls (call (update binary plain update_req) calm own_task).1

update_retried_example :
    call (update binary plain update_req) calm after_update ≡ (ok updated_response, after_update)
update_retried_example =
    update_retried binary plain calls calm calm own_task update_req updates keyed refl connects

abbrev after_create : Db
after_create =
    run binary plain calls (call (create binary plain (codes "7") create_req) calm empty_db).1

create_retried_example :
    call (create binary plain (codes "8") create_req) calm after_create
    ≡ (ok created_response, after_create)
create_retried_example =
    create_retried binary plain calls calm calm empty_db (codes "7") (codes "8") create_req creates
      keyed refl connects

abbrev after_delete : Db
after_delete = run binary plain calls (call (delete binary plain 7 delete_req) calm one_task).1

delete_retried_example :
    call (delete binary plain 9 delete_req) calm after_delete ≡ (ok deleted_response, after_delete)
delete_retried_example =
    delete_retried binary plain calls calm calm one_task 7 9 delete_req deletes keyed refl connects

abbrev signed_update : UpdateTaskRequest
signed_update = record update_req { caller_fingerprint = padded 32 (1 ∷ []) }

signed_updates : (call (update binary plain signed_update) calm own_task).0 ≡ ok updated_response
unfolding call update update_claimed previous_status claim insert_claim execute acquire acquired
    begin commit record_outcome update_claim select_rows update_rows selects eval within visible
    predicate reach_of subtree scope_of caller_fingerprint present assigned_by_the_module fields_of
signed_updates = refl

abbrev after_signed_update : Db
after_signed_update =
    run binary plain calls (call (update binary plain signed_update) calm own_task).1

lookup-update_example :
    call (lookup plain binary (asking_update signed_update)) calm after_signed_update
    ≡ (ok (record { outcome = some (Outcome.update updated_response) }), after_signed_update)
lookup-update_example =
    lookup-update binary plain calls calm calm own_task refl connects signed_update signed_updates
      keyed refl

abbrev signed_delete : DeleteTaskRequest
signed_delete = record delete_req { caller_fingerprint = padded 32 (1 ∷ []) }

signed_deletes : (call (delete binary plain 7 signed_delete) calm one_task).0 ≡ ok deleted_response
unfolding call delete delete_claimed claim insert_claim execute acquire acquired begin commit
    record_outcome update_claim update_rows selects eval within reach_of subtree scope_of
    caller_fingerprint present
signed_deletes = refl

abbrev after_signed_delete : Db
after_signed_delete =
    run binary plain calls (call (delete binary plain 7 signed_delete) calm one_task).1

lookup-delete_example :
    call (lookup plain binary (asking_delete signed_delete)) calm after_signed_delete
    ≡ (ok (record { outcome = some (Outcome.delete deleted_response) }), after_signed_delete)
lookup-delete_example =
    lookup-delete binary plain calls calm calm one_task refl connects 7 signed_delete signed_deletes
      keyed refl

fingerprinted : caller_fingerprint (padded 32 (1 ∷ [])) ≡ ok (some (padded 32 (1 ∷ [])))
unfolding caller_fingerprint
fingerprinted = refl

alice_scope : scope_of create_req.scope ≡ ok alice
unfolding scope_of
alice_scope = refl

lookup-create_example :
    call (lookup plain binary (asking_create create_req (padded 32 (1 ∷ [])))) calm after_create
    ≡ (ok (record { outcome = some (Outcome.create created_response) }), after_create)
lookup-create_example =
    lookup-create binary plain calls calm calm empty_db (codes "7") create_req (padded 32 (1 ∷ []))
      (padded 32 (1 ∷ [])) refl connects creates keyed alice_scope refl fingerprinted

abbrev held_claim : WriteRow
held_claim = claim_row alice Idem.delete_task (codes "k1") (1 ∷ []) none

abbrev held_db : Db
held_db = record one_task { writes = held_claim ∷ [] }

find_claim-run_example :
    find_claim binary alice (codes "k1") (run binary plain calls held_db) ≡ some held_claim
find_claim-run_example =
    find_claim-run binary plain alice (codes "k1") held_claim calls held_db refl
