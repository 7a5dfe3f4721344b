-- ===== src/Write/Retry/Update.antt =====
-- UpdateTask of src/write.rs, sent again under its key.
use task_db.Prelude.{ℕ, Text, Option, some, List, [], ◌≡◌, refl, ap, inl, inr}
use task_db.Status.{ok, ok_or, refuse, task_is_required}
use task_db.Proto.{Scope, Task, UpdateTaskRequest, UpdateTaskResponse}
use task_db.Engine.{Engine, Db}
use task_db.Wire.{Wire}
use task_db.Sql.{scope_of}
use task_db.Txn.{Weather, call, acquired, acquire, begin, rollback}
use task_db.Idem
use task_db.Idem.{
  decide, differs, present, fingerprint, claim, Claimed, proceed, replay, caller_fingerprint,
}
use task_db.Idem.Taking.{Replays}
use task_db.Idem.Replaying.{claim-Replays}
use task_db.Write.{assigned_by_the_module}
use task_db.Write.Update.{update}
use task_db.Write.Mask.{Field, fields_of}
use task_db.Write.Payload.{update_payload}
use task_db.Write.Updated.{Updates}
use task_db.Write.Retry.{logged-Replays}

module _ (e : Engine) (w : Wire) where
  pub update-Replays :
      (req : UpdateTaskRequest) (weather : Weather) (db : Db) (scope : Scope) (task : Task)
      (fields : List Field) (caller : Option (List ℕ)) (x : UpdateTaskResponse)
      → weather.script ≡ []
      → acquired weather.pool ≡ ok tt
      → scope_of req.scope ≡ ok scope
      → ok_or req.task (refuse task_is_required) ≡ ok task
      → assigned_by_the_module task.meta ≡ ok tt
      → fields_of req.update_mask ≡ ok fields
      → caller_fingerprint req.caller_fingerprint ≡ ok caller
      → Replays e w.update_response scope w Idem.update_task caller
          (update_payload w req)
          (present req.idempotency)
          db
          x
      → call (update e w req) weather db ≡ (ok x, db)
  unfolding update call acquire begin rollback
  update-Replays req weather db scope task fields caller x quiet got scoped tasked metad masked
        called found =
      rw scoped (
        rw tasked (
          rw metad (
            rw masked (
              rw called (
                rw got (
                  rw quiet (
                    rw
                      (claim-Replays e w.update_response scope w Idem.update_task caller
                        (update_payload w req) req.idempotency db db weather.pool x found)
                      refl)))))))

  -- The tables after a update that answered answer its retry.
  pub answered-update :
      (req : UpdateTaskRequest) (db : Db) (resp : UpdateTaskResponse) (db' : Db) {key : Text}
      → present req.idempotency ≡ some key
      → Updates e w req db resp db'
      → (scope : Scope) × (task : Task) × (fields : List Field) × (caller : Option (List ℕ))
        × (scope_of req.scope ≡ ok scope)
        × (req.task ≡ some task)
        × (assigned_by_the_module task.meta ≡ ok tt)
        × (fields_of req.update_mask ≡ ok fields)
        × (caller_fingerprint req.caller_fingerprint ≡ ok caller)
        × Replays e w.update_response scope w Idem.update_task caller
            (update_payload w req)
            (present req.idempotency)
            db'
            resp
  answered-update req db resp db' keyed
        (scope, task, fields, caller, scoped, tasked, metad, masked, called, inl (found, same)) =
      (scope, task, fields, caller, scoped, tasked, metad, masked, called, rw same found)
  answered-update req db resp db' keyed
        (
          scope,
          task,
          fields,
          caller,
          scoped,
          tasked,
          metad,
          masked,
          called,
          inr (free, row, at_row, resp_is, made),
        ) =
      (
        scope,
        task,
        fields,
        caller,
        scoped,
        tasked,
        metad,
        masked,
        called,
        logged-Replays e w.update_response scope w Idem.update_task caller (update_payload w req)
            (present req.idempotency) resp db.writes db' keyed free (ap (λ x. x.writes) made),
      )
