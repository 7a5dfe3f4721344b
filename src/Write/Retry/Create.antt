-- ===== src/Write/Retry/Create.antt =====
-- CreateTask of src/write.rs, sent again under its key.
use task_db.Prelude.{Text, none, some, [], ◌≡◌, refl, ap, inl, inr}
use task_db.Status.{ok, ok_or, refuse, task_is_required}
use task_db.Proto.{Scope, Task, CreateTaskRequest, CreateTaskResponse}
use task_db.Engine.{Engine, Db}
use task_db.Wire.{Wire}
use task_db.Sql.{scope_of}
use task_db.Txn.{Weather, call, acquired, acquire, begin, rollback}
use task_db.Idem
use task_db.Idem.{
  decide, differs, present, fingerprint, claim, Claimed, proceed, replay, caller_fingerprint,
}
use task_db.Idem.Taking.{Replays}
use task_db.Idem.Replaying.{claim-Replays}
use task_db.Write.{assigned_by_the_module}
use task_db.Write.Create.{create}
use task_db.Write.Payload.{create_payload}
use task_db.Write.Created.{Creates}
use task_db.Write.Retry.{logged-Replays}

module _ (e : Engine) (w : Wire) where
  pub create-Replays :
      (uuid : Text) (req : CreateTaskRequest) (weather : Weather) (db : Db) (scope : Scope)
      (task : Task) (x : CreateTaskResponse)
      → weather.script ≡ []
      → acquired weather.pool ≡ ok tt
      → scope_of req.scope ≡ ok scope
      → ok_or req.task (refuse task_is_required) ≡ ok task
      → assigned_by_the_module task.meta ≡ ok tt
      → Replays e w.create_response scope w Idem.create_task none
          (create_payload w req)
          (present req.idempotency)
          db
          x
      → call (create e w uuid req) weather db ≡ (ok x, db)
  unfolding create call acquire begin rollback
  create-Replays uuid req weather db scope task x quiet got scoped tasked metad found = rw scoped (
      rw tasked (
        rw metad (
          rw got (
            rw quiet (
              rw
                (claim-Replays e w.create_response scope w Idem.create_task none
                  (create_payload w req) req.idempotency db db weather.pool x found)
                refl)))))

  -- The tables after a create that answered answer its retry.
  pub answered-create :
      (uuid : Text) (req : CreateTaskRequest) (db : Db) (resp : CreateTaskResponse) (db' : Db)
      {key : Text}
      → present req.idempotency ≡ some key
      → Creates e w uuid req db resp db'
      → (scope : Scope) × (task : Task) × (scope_of req.scope ≡ ok scope)
        × (req.task ≡ some task)
        × (assigned_by_the_module task.meta ≡ ok tt)
        × Replays e w.create_response scope w Idem.create_task none
            (create_payload w req)
            (present req.idempotency)
            db'
            resp
  answered-create uuid req db resp db' keyed
        (scope, task, scoped, tasked, metad, inl (found, same)) =
      (scope, task, scoped, tasked, metad, rw same found)
  answered-create uuid req db resp db' keyed
        (
          scope,
          task,
          scoped,
          tasked,
          metad,
          inr (free, number, counters, number_is, moved, fits, fresh, resp_is, made),
        ) =
      (
        scope,
        task,
        scoped,
        tasked,
        metad,
        logged-Replays e w.create_response scope w Idem.create_task none (create_payload w req)
            (present req.idempotency) resp db.writes db' keyed free (ap (λ x. x.writes) made),
      )
