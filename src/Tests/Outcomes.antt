-- ===== src/Tests/Outcomes.antt =====
-- Writes of src/write.rs that answer, and their retries, at concrete requests.
use task_db.Prelude.{codes, some, none, [], ◌∷◌, pos, ◌≡◌, ◌≢◌, ◌+◌, exists, if◌then◌else◌, refl}
use task_db.Status.{ok}
use task_db.Proto.{
  UpdateTaskRequest, default_meta, CreateTaskResponse, UpdateTaskResponse, DeleteTaskResponse,
}
use task_db.Engine.{Db}
use task_db.Txn.{call, execute, acquire, acquired, begin, commit}
use task_db.Sql.{scope_of, reach_of, subtree, within, visible, predicate}
use task_db.Sql.Where.{eval}
use task_db.Tables.{
  selects, select_rows, update_rows, insert_task, bump_counter, read_counter, insert_claim,
  update_claim,
}
use task_db.Idem.{claim, caller_fingerprint, present, record_outcome}
use task_db.Write.{assigned_by_the_module}
use task_db.Write.Create.{create, create_claimed, allocate_number}
use task_db.Write.Delete.{delete, delete_claimed}
use task_db.Write.Update.{update, update_claimed, previous_status, updated_row}
use task_db.Write.Mask.{Field, body, fields_of}
use task_db.Write.Created.{Creates, create-outcome}
use task_db.Write.Updated.{Updates, update-outcome}
use task_db.Write.Deleted.{Deletes, delete-outcome}
use task_db.Write.Stale.{no_lost_update}
use task_db.Write.Columns.{held-updated_row, held, sent, same_field, SameRecord}
use task_db.Tests.Fixtures.{binary, plain, calm, empty_db, alice, row}
use task_db.Tests.Writes.{task, create_req, update_req, delete_req, one_task}

-- A private task of the caller's.
abbrev pub own_task : Db
own_task = record empty_db { tasks = record row { visibility = pos 1 } ∷ [] }

abbrev pub created_response : CreateTaskResponse
created_response = record {
  meta = some (record default_meta {
    id = codes "yadgar:task:7";
    version = 1;
    project_id = alice.project_id;
    owner_user_id = alice.user_id;
  });
  number = 1;
}

abbrev pub updated_response : UpdateTaskResponse
updated_response = record {
  meta = some (record default_meta { id = row.id; version = 2; project_id = alice.project_id });
  previous_status = pos 1;
}

abbrev pub deleted_response : DeleteTaskResponse
deleted_response = record {}

pub deletes : (call (delete binary plain 7 delete_req) calm one_task).0 ≡ ok deleted_response
unfolding call delete delete_claimed claim insert_claim execute acquire acquired begin commit
    record_outcome update_claim update_rows selects eval within reach_of subtree scope_of
    caller_fingerprint present
deletes = refl

pub updates : (call (update binary plain update_req) calm own_task).0 ≡ ok updated_response
unfolding call update update_claimed previous_status claim insert_claim execute acquire acquired
    begin commit record_outcome update_claim select_rows update_rows selects eval within visible
    predicate reach_of subtree scope_of caller_fingerprint present assigned_by_the_module fields_of
updates = refl

pub creates :
    (call (create binary plain (codes "7") create_req) calm empty_db).0 ≡ ok created_response
unfolding call create create_claimed allocate_number claim insert_claim execute acquire acquired
    begin commit record_outcome update_claim insert_task bump_counter read_counter scope_of present
    assigned_by_the_module
creates = refl

delete-outcome_example :
    Deletes binary plain 7 delete_req one_task deleted_response
      (call (delete binary plain 7 delete_req) calm one_task).1
delete-outcome_example = delete-outcome binary plain 7 delete_req calm one_task deletes

update-outcome_example :
    Updates binary plain update_req own_task updated_response
      (call (update binary plain update_req) calm own_task).1
update-outcome_example = update-outcome binary plain update_req calm own_task updates

create-outcome_example :
    Creates binary plain
      (codes "7")
      create_req
      empty_db
      created_response
      (call (create binary plain (codes "7") create_req) calm empty_db).1
create-outcome_example = create-outcome binary plain (codes "7") create_req calm empty_db creates

pub connects : acquired calm.pool ≡ ok tt
unfolding acquired
connects = refl

pub keyed : present delete_req.idempotency ≡ some (codes "k1")
unfolding present
keyed = refl

-- The caller's own task, updated without a key.
abbrev unkeyed : UpdateTaskRequest
unkeyed = record update_req { idempotency = none }

unkeyed_updates : (call (update binary plain unkeyed) calm own_task).0 ≡ ok updated_response
unfolding call update update_claimed previous_status claim insert_claim execute acquire acquired
    begin commit record_outcome update_claim select_rows update_rows selects eval within visible
    predicate reach_of subtree scope_of caller_fingerprint present assigned_by_the_module fields_of
unkeyed_updates = refl

no_lost_update_example :
    (call (update binary plain unkeyed) calm (call (update binary plain unkeyed) calm own_task).1).0
    ≢ ok updated_response
no_lost_update_example =
    no_lost_update binary plain unkeyed unkeyed calm calm own_task refl refl refl refl refl
      unkeyed_updates

held-updated_row_example :
    ((f : Field)
      → held f (updated_row binary plain task (body ∷ []) (codes "bob") row)
        ≡ (if exists (same_field f) (body ∷ []) then sent f task else held f row))
    × SameRecord binary plain task row (updated_row binary plain task (body ∷ []) (codes "bob") row)
    × ((updated_row binary plain task (body ∷ []) (codes "bob") row).version ≡ row.version + 1)
    × ((updated_row binary plain task (body ∷ []) (codes "bob") row).updated_by ≡ codes "bob")
held-updated_row_example = held-updated_row binary plain task (body ∷ []) (codes "bob") row
