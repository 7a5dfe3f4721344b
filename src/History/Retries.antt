-- ===== src/History/Retries.antt =====
-- The writes of src/write.rs, sent again under their keys after any other RPCs (D9).
use task_db.Prelude.{ℕ, Text, none, some, List, [], ◌≡◌, ap}
use task_db.Status.{ok, ok_or, refuse, task_is_required}
use task_db.Proto.{
  CreateTaskRequest, CreateTaskResponse, UpdateTaskRequest, UpdateTaskResponse, DeleteTaskRequest,
  DeleteTaskResponse,
}
use task_db.Engine.{Engine, Db}
use task_db.Wire.{Wire}
use task_db.Txn.{Weather, call, acquired}
use task_db.Idem
use task_db.Idem.{present}
use task_db.Write.Create.{create}
use task_db.Write.Delete.{delete}
use task_db.Write.Update.{update}
use task_db.Write.Payload.{create_payload, update_payload, delete_payload}
use task_db.Write.Created.{create-outcome}
use task_db.Write.Updated.{update-outcome}
use task_db.Write.Deleted.{delete-outcome}
use task_db.Write.Retry.Create.{create-Replays, answered-create}
use task_db.Write.Retry.Update.{update-Replays, answered-update}
use task_db.Write.Retry.Delete.{delete-Replays, answered-delete}
use task_db.Service.{Request}
use task_db.History.{run}
use task_db.History.Durable.{Replays-run}

module _ (e : Engine) (w : Wire) (calls : List (Request × Weather)) (weather weather' : Weather)
    (db : Db) {key : Text} where
  -- An UpdateTask that has a key and was answered well, sent again after any RPCs whatever the pool
  -- and the engine answered them, where the pool gives a connection and every statement is
  -- answered, is answered the same and changes nothing.
  pub update_retried :
      (req : UpdateTaskRequest) {resp : UpdateTaskResponse}
      → (call (update e w req) weather db).0 ≡ ok resp
      → present req.idempotency ≡ some key
      → weather'.script ≡ []
      → acquired weather'.pool ≡ ok tt
      → let later = run e w calls (call (update e w req) weather db).1 in
        call (update e w req) weather' later ≡ (ok resp, later)
  update_retried req {resp} h keyed quiet got =
      let db' = (call (update e w req) weather db).1 in
      let (scope, task, fields, caller, scoped, tasked, metad, masked, called, found) =
        answered-update e w req db resp db' keyed (update-outcome e w req weather db h) in
      update-Replays e w req weather' (run e w calls db') scope task fields caller resp quiet got
        scoped (ap (λ o. ok_or o (refuse task_is_required)) tasked) metad masked called
        (Replays-run e w.update_response scope w Idem.update_task caller (update_payload w req)
          (present req.idempotency) calls db' resp found)

  -- A CreateTask that has a key and was answered well, sent again after any RPCs whatever the pool
  -- and the engine answered them, where the pool gives a connection and every statement is
  -- answered, is answered the same and changes nothing, whatever id is drawn for it.
  pub create_retried :
      (uuid again : Text) (req : CreateTaskRequest) {resp : CreateTaskResponse}
      → (call (create e w uuid req) weather db).0 ≡ ok resp
      → present req.idempotency ≡ some key
      → weather'.script ≡ []
      → acquired weather'.pool ≡ ok tt
      → let later = run e w calls (call (create e w uuid req) weather db).1 in
        call (create e w again req) weather' later ≡ (ok resp, later)
  create_retried uuid again req {resp} h keyed quiet got =
      let db' = (call (create e w uuid req) weather db).1 in
      let (scope, task, scoped, tasked, metad, found) =
        answered-create e w uuid req db resp db' keyed (create-outcome e w uuid req weather db h) in
      create-Replays e w again req weather' (run e w calls db') scope task resp quiet got scoped
        (ap (λ o. ok_or o (refuse task_is_required)) tasked) metad
        (Replays-run e w.create_response scope w Idem.create_task none (create_payload w req)
          (present req.idempotency) calls db' resp found)

  -- A DeleteTask that has a key and was answered well, sent again after any RPCs whatever the pool
  -- and the engine answered them, where the pool gives a connection and every statement is
  -- answered, is answered the same and changes nothing, at whatever time.
  pub delete_retried :
      (now again : ℕ) (req : DeleteTaskRequest) {resp : DeleteTaskResponse}
      → (call (delete e w now req) weather db).0 ≡ ok resp
      → present req.idempotency ≡ some key
      → weather'.script ≡ []
      → acquired weather'.pool ≡ ok tt
      → let later = run e w calls (call (delete e w now req) weather db).1 in
        call (delete e w again req) weather' later ≡ (ok resp, later)
  delete_retried now again req {resp} h keyed quiet got =
      let db' = (call (delete e w now req) weather db).1 in
      let (scope, caller, scoped, called, found) =
        answered-delete e w now req db resp db' keyed (delete-outcome e w now req weather db h) in
      delete-Replays e w again req weather' (run e w calls db') scope caller resp quiet got scoped
        called
        (Replays-run e w.delete_response scope w Idem.delete_task caller (delete_payload w req)
          (present req.idempotency) calls db' resp found)
