-- ===== src/Write/Update.antt =====
-- src/write.rs: UpdateTask, the compare-and-set of a row under its version.
use task_db.Prelude.{◌+◌, ◌==◌, ℤ, as_i8, Text, Option, none, some, List, [], ◌∷◌, if◌then◌else◌}
use task_db.Status.{refuse, task_is_required, ok_or}
use task_db.Proto.{Scope, default_meta, Task, UpdateTaskRequest, UpdateTaskResponse}
use task_db.Engine.{Engine, TaskRow, Db, Value, text, unsigned}
use task_db.Wire.{Wire}
use task_db.Sql.{Reach, reach_of, scope_of, predicate, bind}
use task_db.Sql.Where.{Clause}
use task_db.Txn.{
  SqlResult, done, failed, Rpc, pure, lift, map_err, execute, acquire, begin, commit, ◌>>=◌, ◌>>◌,
}
use task_db.Tables.{select_rows}
use task_db.Idem
use task_db.Idem.{claim, record_outcome, caller_fingerprint, Claimed, proceed, replay}
use task_db.Write.Mask.{Field, title, body, status, tags, links, fields_of}
use task_db.Write.Payload.{update_payload}
use task_db.Write.{
  assigned_by_the_module, answer_replay, refuse_write, update_refusal, at_version, bounded,
  run_update,
}

module _ (e : Engine) (w : Wire) where
  abbrev pub first_status : List TaskRow → Option ℤ
  first_status [] = none
  first_status (r ∷ rs) = some r.status

  abbrev pub read_status : Clause → List Value → Db → SqlResult (Option ℤ × Db)
  read_status clause params db = elim (select_rows e clause params db.tasks) [
    | done rows ↦ done (first_status rows, db)
    | failed x ↦ failed x
  ]

  unfoldable pub previous_status : Reach → UpdateTaskRequest → Rpc (Option ℤ)
  previous_status reach req = map_err (
      execute (
        read_status (at_version e w (predicate reach))
          (bind reach (text req.id ∷ unsigned req.expect_version ∷ []))))

  -- `SET column = ?` with the value that `Field::bind` binds.
  abbrev pub assign : Task → Field → TaskRow → TaskRow
  assign task title r = record r { title = task.title }
  assign task body r = record r { body = task.body }
  assign task status r = record r { status = as_i8 task.status }
  assign task tags r = record r { tags = some task.tags }
  assign task links r = record r { links = some task.links }

  abbrev pub assign_all : Task → List Field → TaskRow → TaskRow
  assign_all task [] r = r
  assign_all task (f ∷ fs) r = assign_all task fs (assign task f r)

  abbrev pub updated_row : Task → List Field → Text → TaskRow → TaskRow
  updated_row task fields user r = record (assign_all task fields r) {
    version = (assign_all task fields r).version + 1;
    updated_by = user;
  }

  abbrev pub updated : UpdateTaskRequest → Scope → ℤ → UpdateTaskResponse
  updated req scope previous = record {
    meta = some (record default_meta {
      id = req.id;
      version = req.expect_version + 1;
      project_id = scope.project_id;
    });
    previous_status = previous;
  }

  -- The compare-and-set, and the recording of what it displaced.
  abbrev pub set_row : UpdateTaskRequest → Scope → Task → List Field → ℤ → Rpc UpdateTaskResponse
  set_row req scope task fields previous = do
    affected ← map_err (
        execute (
          run_update e w (at_version e w (predicate (reach_of scope)))
            (bind (reach_of scope) (text req.id ∷ unsigned req.expect_version ∷ []))
            (λ r. bounded e w (updated_row task fields scope.user_id r))))
    if affected == 0 then refuse_write update_refusal else do
      record_outcome e w.update_response scope req.idempotency (updated req scope previous)
      commit
      pure (updated req scope previous)

  abbrev pub update_found :
      UpdateTaskRequest → Scope → Task → List Field → Option ℤ → Rpc UpdateTaskResponse
  update_found req scope task fields none = refuse_write update_refusal
  update_found req scope task fields (some previous) = set_row req scope task fields previous

  unfoldable pub update_claimed :
      UpdateTaskRequest → Scope → Task → List Field → Rpc UpdateTaskResponse
  update_claimed req scope task fields = do
    previous ← previous_status (reach_of scope) req
    update_found req scope task fields previous

  abbrev pub update_or_replay :
      UpdateTaskRequest
      → Scope
      → Task
      → List Field
      → Claimed UpdateTaskResponse
      → Rpc UpdateTaskResponse
  update_or_replay req scope task fields (replay original) = answer_replay original
  update_or_replay req scope task fields proceed = update_claimed req scope task fields

  unfoldable pub update : UpdateTaskRequest → Rpc UpdateTaskResponse
  update req = do
    scope ← lift (scope_of req.scope)
    task ← lift (ok_or req.task (refuse task_is_required))
    lift (assigned_by_the_module task.meta)
    fields ← lift (fields_of req.update_mask)
    caller ← lift (caller_fingerprint req.caller_fingerprint)
    acquire
    begin
    claimed ←
        claim e w.update_response scope w Idem.update_task req.idempotency caller
          (update_payload w req)
    update_or_replay req scope task fields claimed
