-- ===== src/Service.antt =====
-- src/service.rs: the six RPCs behind one boundary, and what each call records of itself.
pub mod Atomicity
use task_db.Prelude.{ℕ, Text, codes, Option, none, some, [], length}
use task_db.Status.{Result}
use task_db.Proto.{
  Scope, CreateTaskRequest, CreateTaskResponse, UpdateTaskRequest, UpdateTaskResponse,
  DeleteTaskRequest, DeleteTaskResponse, GetTaskRequest, GetTaskResponse, ListTasksRequest,
  ListTasksResponse, LookupWriteRequest, LookupWriteResponse, Outcome,
}
use task_db.Engine.{Engine, Db}
use task_db.Wire.{Wire}
use task_db.Txn.{Rpc, pure, ◌>>=◌, Weather, call}
use task_db.Write.Create
use task_db.Write.Update
use task_db.Write.Delete
use task_db.Read
use task_db.Lookup

-- A request, with the UUID or the time that its handler draws.
pub data Request : Type 0 where
  create_task : Text → CreateTaskRequest → Request
  get_task : GetTaskRequest → Request
  list_tasks : ListTasksRequest → Request
  update_task : UpdateTaskRequest → Request
  delete_task : ℕ → DeleteTaskRequest → Request
  lookup_write : LookupWriteRequest → Request

pub data Response : Type 0 where
  created : CreateTaskResponse → Response
  got : GetTaskResponse → Response
  listed : ListTasksResponse → Response
  updated : UpdateTaskResponse → Response
  deleted : DeleteTaskResponse → Response
  looked_up : LookupWriteResponse → Response

abbrev pub answering : {A : Type 0} → (A → Response) → Rpc A → Rpc Response
answering f m = m >>= λ a. pure (f a)

unfoldable pub handle : Engine → Wire → Request → Rpc Response
handle e w (create_task uuid req) = answering created (Create.create e w uuid req)
handle e w (get_task req) = answering got (Read.get e req)
handle e w (list_tasks req) = answering listed (Read.list e req)
handle e w (update_task req) = answering updated (Update.update e w req)
handle e w (delete_task now req) = answering deleted (Delete.delete e w now req)
handle e w (lookup_write req) = answering looked_up (Lookup.lookup w e req)

-- One RPC, from the tables before it to those after.
abbrev pub serve : Engine → Wire → Request → Weather → Db → Result Response × Db
serve e w req = call (handle e w req)

-- `Kind` of yadgar-telemetry.
pub data Kind : Type 0 where
  read write : Kind

-- The scope fields of a telemetry record (`tel_scope` of src/sql.rs).
pub record TelemetryScope : Type 0 where
  pub request_id : Text
  pub instance_id : Text
  pub user_id : Text
  pub project_id : Text

unfoldable pub tel_scope : Option Scope → TelemetryScope
tel_scope none = record { request_id = []; instance_id = []; user_id = []; project_id = [] }
tel_scope (some s) = record {
  request_id = s.request_id;
  instance_id = s.instance_id;
  user_id = s.user_id;
  project_id = s.project_id;
}

-- `Call::start`, and the row count that `envelope` records of a response.
pub record Call : Type 0 where
  pub service : Text
  pub rpc : Text
  pub kind : Kind
  pub scope : TelemetryScope

abbrev start : Text → Kind → Option Scope → Call
start rpc kind scope = record {
  service = codes "task-db";
  rpc = rpc;
  kind = kind;
  scope = tel_scope scope;
}

unfoldable pub call_of : Request → Call
unfolding tel_scope
call_of (create_task uuid req) = start (codes "CreateTask") write req.scope
call_of (get_task req) = start (codes "GetTask") read req.scope
call_of (list_tasks req) = start (codes "ListTasks") read req.scope
call_of (update_task req) = start (codes "UpdateTask") write req.scope
call_of (delete_task now req) = start (codes "DeleteTask") write req.scope
call_of (lookup_write req) = start (codes "LookupWrite") read req.scope

abbrev one_if : Option Outcome → ℕ
one_if none = 0
one_if (some o) = 1

unfoldable pub rows : Response → ℕ
rows (created r) = 1
rows (got r) = 1
rows (listed r) = length r.tasks
rows (updated r) = 1
rows (deleted r) = 1
rows (looked_up r) = one_if r.outcome
