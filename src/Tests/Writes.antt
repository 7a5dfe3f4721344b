-- ===== src/Tests/Writes.antt =====
-- The writes of src/write.rs at concrete requests.
use task_db.Prelude.{codes, some, none, ◌≡◌, refl, [], ◌∷◌, pos}
use task_db.Status.{err}
use task_db.Proto.{
  Task, Idempotency, CreateTaskRequest, UpdateTaskRequest, DeleteTaskRequest, GetTaskRequest, Key,
}
use task_db.Engine.{other, Db}
use task_db.Txn.{Weather, answers, fails, call}
use task_db.Txn.{execute, acquire, begin}
use task_db.Sql.{scope_of}
use task_db.Sql.Errors.{internal}
use task_db.Idem.{claim, caller_fingerprint, present}
use task_db.Write.Delete.{delete, delete_claimed}
use task_db.Tables.{insert_claim}
use task_db.Service.{get_task, delete_task, handle, serve, call_of}
use task_db.Service.Atomicity.{errors_leave_no_trace, reads_write_nothing}
use task_db.Tests.Fixtures.{binary, plain, alice, row, calm, empty_db}

abbrev pub task : Task
task = record {
  meta = none;
  number = 0;
  title = codes "Buy milk";
  body = [];
  status = pos 1;
  tags = [];
  links = [];
}

abbrev key : Idempotency
key = record { key = codes "k1" }

abbrev pub create_req : CreateTaskRequest
create_req = record { idempotency = some key; scope = some alice; task = some task }

abbrev pub update_req : UpdateTaskRequest
update_req = record {
  idempotency = some key;
  scope = some alice;
  id = row.id;
  expect_version = 1;
  task = some task;
  update_mask = none;
  caller_fingerprint = [];
}

abbrev pub delete_req : DeleteTaskRequest
delete_req = record {
  idempotency = some key;
  scope = some alice;
  id = row.id;
  expect_version = 1;
  caller_fingerprint = [];
}

-- The engine fails the third statement.
abbrev pub storm : Weather
storm = record calm { script = answers ∷ answers ∷ fails other ∷ [] }

abbrev pub get_req : GetTaskRequest
get_req = record { scope = some alice; key = some (Key.id row.id) }

abbrev pub one_task : Db
one_task = record empty_db { tasks = row ∷ [] }

failing : (serve binary plain (delete_task 7 delete_req) storm one_task).0 ≡ err (internal other)
unfolding handle delete delete_claimed claim insert_claim call execute acquire begin internal
    caller_fingerprint present scope_of
failing = refl

errors_leave_no_trace_example :
    (serve binary plain (delete_task 7 delete_req) storm one_task).1 ≡ one_task
errors_leave_no_trace_example =
    errors_leave_no_trace binary plain (delete_task 7 delete_req) storm one_task tt failing

reads_write_nothing_example : (serve binary plain (get_task get_req) storm one_task).1 ≡ one_task
unfolding call_of
reads_write_nothing_example =
    reads_write_nothing binary plain (get_task get_req) storm one_task refl
