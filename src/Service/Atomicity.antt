-- ===== src/Service/Atomicity.antt =====
-- D5 and D9 at the boundary: what an error, and what a read, leave in the tables.
use task_db.Prelude.{ℕ, Text, List, arith, Option, none, some, take, ◌≡◌}
use task_db.Status.{Status, Result, ok, err, ok_or}
use task_db.Proto.{Scope, GetTaskRequest, ListTasksRequest, LookupWriteRequest, Key, write_rpc_of}
use task_db.Engine.{Engine, Db, Value}
use task_db.Sql.Where.{Clause}
use task_db.Tables.{find_claim}
use task_db.Wire.{Wire}
use task_db.Sql.{Reach, reach_of, scope_of, readable, read_predicate}
use task_db.Txn.{Session, done, Rpc, pure, lift, acquire, continue, Weather, call}
use task_db.Txn.Atomic.{
  ReadsOnly, Quiet, Atomic, Quiet-pure, Quiet-lift, Quiet-raise, Quiet-acquire, Quiet-autocommit,
  Quiet-bind, Atomic-of_Quiet, Heard, Kept, call-Atomic,
}
use task_db.Read.{
  fetch_optional, fetch_page, get, list, find_row, not_found_here, row_to_task, rows_to_tasks,
  statuses, page_size,
}
use task_db.Write.Create.{create}
use task_db.Write.Delete.{delete}
use task_db.Write.Update.{update}
use task_db.Idem.{caller_fingerprint}
use mathlib.Core.Path.{subst}
use task_db.Lookup.{lookup, recorded_rpc, required_caller, required_key, answer}
use task_db.Write.Atomicity.{create-Atomic, update-Atomic, delete-Atomic}
use task_db.Service.{
  Request, create_task, get_task, list_tasks, update_task, delete_task, lookup_write, Response,
  created, got, listed, updated, deleted, looked_up, handle, serve, call_of, read, answering,
}

module _ {A : Type 0} (f : A → Response) where
  Kept-continue :
      (r : Result A) (s : Session) (db : Db)
      → Kept r db s.committed
      → Kept (continue r (λ a. pure (f a)) s).0 db (continue r (λ a. pure (f a)) s).1.committed
  Kept-continue (ok a) s db h = tt
  Kept-continue (err x) s db h = h

  Atomic-answering : (m : Rpc A) → Atomic m → Atomic (answering f m)
  Atomic-answering m q = record { at = λ s h. Kept-continue (m s).0 (m s).1 s.committed (q.at s h) }

  Quiet-answering : (m : Rpc A) → Quiet m → Quiet (answering f m)
  Quiet-answering m q = Quiet-bind m _ q λ a. Quiet-pure (f a)

module _ (e : Engine) where
  fetch_optional-ReadsOnly :
      (clause : Clause) (params : List Value) → ReadsOnly (fetch_optional e clause params)
  fetch_optional-ReadsOnly clause params db a after h = ground (arith, h)

  fetch_page-ReadsOnly :
      (clause : Clause) (params : List Value) (n : ℕ) → ReadsOnly (fetch_page e clause params n)
  fetch_page-ReadsOnly clause params n db a after h = ground (arith, h)

  find_claim-ReadsOnly :
      (scope : Scope) (key : Text) → ReadsOnly (λ db. done (find_claim e scope key db, db))
  find_claim-ReadsOnly scope key db a after h = ground (arith, h)

module _ (e : Engine) (w : Wire) where
  Quiet-find_row : (reach : Reach) (k : Option Key) → Quiet (find_row e reach k)
  Quiet-find_row reach none = Quiet-raise _
  Quiet-find_row reach (some (Key.id i)) =
      Quiet-bind (lift (read_predicate reach)) _ (Quiet-lift _) λ clause.
        Quiet-bind acquire _ Quiet-acquire λ u.
          Quiet-bind _ _ (Quiet-autocommit _ (fetch_optional-ReadsOnly e _ _))
            λ found. Quiet-lift (ok_or found not_found_here)
  Quiet-find_row reach (some (Key.number n)) =
      Quiet-bind (lift (readable reach)) _ (Quiet-lift _) λ clause.
        Quiet-bind acquire _ Quiet-acquire λ u.
          Quiet-bind _ _ (Quiet-autocommit _ (fetch_optional-ReadsOnly e _ _))
            λ found. Quiet-lift (ok_or found not_found_here)

  Quiet-get : (req : GetTaskRequest) → Quiet (get e req)
  unfolding get
  Quiet-get req = Quiet-bind (lift (scope_of req.scope)) _ (Quiet-lift _) λ scope.
      Quiet-bind _ _ (Quiet-find_row (reach_of scope) req.key)
        λ r. Quiet-bind (lift (row_to_task r)) _ (Quiet-lift _) λ t. Quiet-pure _

  Quiet-list : (req : ListTasksRequest) → Quiet (list e req)
  unfolding list
  Quiet-list req = Quiet-bind (lift (scope_of req.scope)) _ (Quiet-lift _) λ scope.
      Quiet-bind (lift (statuses req.statuses)) _ (Quiet-lift _) λ wanted.
        Quiet-bind (lift (read_predicate (reach_of scope))) _ (Quiet-lift _) λ clause.
          Quiet-bind acquire _ Quiet-acquire λ u.
            Quiet-bind _ _ (Quiet-autocommit _ (fetch_page-ReadsOnly e _ _ _)) λ rs.
              Quiet-bind (lift (rows_to_tasks (take (page_size req.page_size) rs))) _ (Quiet-lift _)
                λ ts. Quiet-pure _

  Quiet-lookup : (req : LookupWriteRequest) → Quiet (lookup w e req)
  unfolding lookup
  Quiet-lookup req = Quiet-bind (lift (scope_of req.scope)) _ (Quiet-lift _) λ scope.
      Quiet-bind (lift (required_key req.idempotency)) _ (Quiet-lift _) λ key.
        Quiet-bind (lift (recorded_rpc req.rpc (write_rpc_of req.rpc))) _ (Quiet-lift _) λ rpc.
          Quiet-bind (lift (caller_fingerprint req.caller_fingerprint)) _ (Quiet-lift _) λ sent.
            Quiet-bind (lift (required_caller sent)) _ (Quiet-lift _) λ caller.
              Quiet-bind acquire _ Quiet-acquire λ u.
                Quiet-bind _ _ (Quiet-autocommit _ (find_claim-ReadsOnly e scope key))
                  λ found. Quiet-lift (answer w rpc caller found)

  handle-Atomic : (req : Request) → Atomic (handle e w req)
  unfolding handle
  handle-Atomic (create_task uuid req) =
      Atomic-answering created (create e w uuid req) (create-Atomic e w uuid req)
  handle-Atomic (get_task req) = Atomic-of_Quiet _ (Quiet-answering got (get e req) (Quiet-get req))
  handle-Atomic (list_tasks req) =
      Atomic-of_Quiet _ (Quiet-answering listed (list e req) (Quiet-list req))
  handle-Atomic (update_task req) =
      Atomic-answering updated (update e w req) (update-Atomic e w req)
  handle-Atomic (delete_task now req) =
      Atomic-answering deleted (delete e w now req) (delete-Atomic e w now req)
  handle-Atomic (lookup_write req) =
      Atomic-of_Quiet _ (Quiet-answering looked_up (lookup w e req) (Quiet-lookup req))

  -- An RPC that answers an error has left every table as it was, the ledger of claims included,
  -- whichever acquire, statement, rollback or commit failed on the way. The one exception, a
  -- commit that took effect and whose answer was lost, is excluded by `Heard`.
  pub errors_leave_no_trace :
      (req : Request) (weather : Weather) (db : Db) {x : Status}
      → Heard weather.script
      → (serve e w req weather db).0 ≡ err x
      → (serve e w req weather db).1 ≡ db
  errors_leave_no_trace req weather db h failed =
      subst (λ r. Kept r db (serve e w req weather db).1) failed
        (call-Atomic (handle e w req) weather db (handle-Atomic req) h)

  call-Quiet :
      {A : Type 0} (m : Rpc A) (weather : Weather) (db : Db) → Quiet m → (call m weather db).1 ≡ db
  unfolding call
  call-Quiet m weather db q = q.at _

  -- An RPC that is recorded as a read leaves every table as it was, whatever it answers.
  pub reads_write_nothing :
      (req : Request) (weather : Weather) (db : Db)
      → (call_of req).kind ≡ read
      → (serve e w req weather db).1 ≡ db
  unfolding handle call_of
  reads_write_nothing (create_task uuid req) weather db h = cc
  reads_write_nothing (get_task req) weather db h =
      call-Quiet _ weather db (Quiet-answering got (get e req) (Quiet-get req))
  reads_write_nothing (list_tasks req) weather db h =
      call-Quiet _ weather db (Quiet-answering listed (list e req) (Quiet-list req))
  reads_write_nothing (update_task req) weather db h = cc
  reads_write_nothing (delete_task now req) weather db h = cc
  reads_write_nothing (lookup_write req) weather db h =
      call-Quiet _ weather db (Quiet-answering looked_up (lookup w e req) (Quiet-lookup req))
