-- ===== src/Write/Retry/Delete.antt =====
-- DeleteTask of src/write.rs, sent again under its key.
use task_db.Prelude.{ℕ, Text, Option, some, List, [], ◌≡◌, refl, ap, inl, inr}
use task_db.Status.{ok}
use task_db.Proto.{Scope, DeleteTaskRequest, DeleteTaskResponse}
use task_db.Engine.{Engine, Db}
use task_db.Wire.{Wire}
use task_db.Sql.{scope_of}
use task_db.Txn.{Weather, call, acquired, acquire, begin, rollback}
use task_db.Idem
use task_db.Idem.{
  decide, differs, present, fingerprint, claim, Claimed, proceed, replay, caller_fingerprint,
}
use task_db.Idem.Taking.{Replays}
use task_db.Idem.Replaying.{claim-Replays}
use task_db.Write.Delete.{delete}
use task_db.Write.Payload.{delete_payload}
use task_db.Write.Deleted.{Deletes}
use task_db.Write.Retry.{logged-Replays}

module _ (e : Engine) (w : Wire) where
  pub delete-Replays :
      (now : ℕ) (req : DeleteTaskRequest) (weather : Weather) (db : Db) (scope : Scope)
      (caller : Option (List ℕ)) (x : DeleteTaskResponse)
      → weather.script ≡ []
      → acquired weather.pool ≡ ok tt
      → scope_of req.scope ≡ ok scope
      → caller_fingerprint req.caller_fingerprint ≡ ok caller
      → Replays e w.delete_response scope w Idem.delete_task caller
          (delete_payload w req)
          (present req.idempotency)
          db
          x
      → call (delete e w now req) weather db ≡ (ok x, db)
  unfolding delete call acquire begin rollback
  delete-Replays now req weather db scope caller x quiet got scoped called found = rw scoped (
      rw called (
        rw got (
          rw quiet (
            rw
              (claim-Replays e w.delete_response scope w Idem.delete_task caller
                (delete_payload w req) req.idempotency db db weather.pool x found)
              refl))))

  -- The tables after a delete that answered answer its retry.
  pub answered-delete :
      (now : ℕ) (req : DeleteTaskRequest) (db : Db) (resp : DeleteTaskResponse) (db' : Db)
      {key : Text}
      → present req.idempotency ≡ some key
      → Deletes e w now req db resp db'
      → (scope : Scope) × (caller : Option (List ℕ)) × (scope_of req.scope ≡ ok scope)
        × (caller_fingerprint req.caller_fingerprint ≡ ok caller)
        × Replays e w.delete_response scope w Idem.delete_task caller
            (delete_payload w req)
            (present req.idempotency)
            db'
            resp
  answered-delete now req db resp db' keyed (scope, caller, scoped, called, inl (found, same)) =
      (scope, caller, scoped, called, rw same found)
  answered-delete now req db resp db' keyed (scope, caller, scoped, called, inr (free, row, made)) =
      (
        scope,
        caller,
        scoped,
        called,
        logged-Replays e w.delete_response scope w Idem.delete_task caller (delete_payload w req)
            (present req.idempotency) resp db.writes db' keyed free (ap (λ x. x.writes) made),
      )
