-- ===== src/History/Runs.antt =====
-- One RPC of src/service.rs, and any number of them, keep what every statement keeps.
use task_db.Prelude.{Text, List, [], ◌∷◌, refl}
use task_db.Proto.{Scope}
use task_db.Engine.{Engine, Db}
use task_db.Wire.{Wire}
use task_db.Txn.{Rpc, Weather}
use task_db.Txn.Triple.{Keeps, Any, Triple-pure, Triple-bind, call-Keeps}
use task_db.Write.Create.{create}
use task_db.Write.Delete.{delete}
use task_db.Write.Update.{update}
use task_db.Service.{
  Request, create_task, get_task, list_tasks, update_task, delete_task, lookup_write, Response,
  created, updated, deleted, answering, handle, serve, call_of,
}
use task_db.Service.Atomicity.{reads_write_nothing}
use task_db.History.{Statements, run}
use task_db.History.Serving.{create-Keeps, update-Keeps, delete-Keeps}

module _ (e : Engine) (w : Wire) (P : Db → Type 0) (Own : Scope → Text → Type 0)
    (laws : Statements e w P Own) where
  Keeps-answering :
      {A : Type 0} (f : A → Response) (m : Rpc A) → Keeps P m → Keeps P (answering f m)
  Keeps-answering f m h =
      Triple-bind P Any m _ (λ a. Any) (λ a. Any) h
        λ a. Triple-pure P Any (f a) (λ a. Any) (λ db r. tt)

  pub serve-Keeps :
      (req : Request) (weather : Weather) (db : Db) → P db → P (serve e w req weather db).1
  unfolding handle call_of
  serve-Keeps (create_task uuid req) weather db h =
      call-Keeps P _ weather db
        (Keeps-answering created (create e w uuid req) (create-Keeps e w P Own laws uuid req)) h
  serve-Keeps (get_task req) weather db h =
      rw (reads_write_nothing e w (get_task req) weather db refl) h
  serve-Keeps (list_tasks req) weather db h =
      rw (reads_write_nothing e w (list_tasks req) weather db refl) h
  serve-Keeps (update_task req) weather db h =
      call-Keeps P _ weather db
        (Keeps-answering updated (update e w req) (update-Keeps e w P Own laws req)) h
  serve-Keeps (delete_task now req) weather db h =
      call-Keeps P _ weather db
        (Keeps-answering deleted (delete e w now req) (delete-Keeps e w P Own laws now req)) h
  serve-Keeps (lookup_write req) weather db h =
      rw (reads_write_nothing e w (lookup_write req) weather db refl) h

  pub run-Keeps : (calls : List (Request × Weather)) (db : Db) → P db → P (run e w calls db)
  unfolding run
  run-Keeps [] db h = h
  run-Keeps ((req, weather) ∷ rest) db h =
      run-Keeps rest (serve e w req weather db).1 (serve-Keeps req weather db h)
