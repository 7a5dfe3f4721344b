-- ===== src/Write/Create.antt =====
-- src/write.rs: CreateTask.
use task_db.Prelude.{ℕ, as_i8, Text, codes, none, some, [], ◌++◌}
use task_db.Status.{refuse, task_is_required, ok_or}
use task_db.Proto.{Scope, default_meta, Task, CreateTaskRequest, CreateTaskResponse}
use task_db.Engine.{Engine, TaskRow}
use task_db.Wire.{Wire}
use task_db.Sql.{scope_of}
use task_db.Sql.Where.{rung, private}
use task_db.Txn.{Rpc, pure, lift, map_err, execute, acquire, begin, commit, ◌>>=◌, ◌>>◌}
use task_db.Tables.{insert_task, bump_counter, read_counter}
use task_db.Idem
use task_db.Idem.{claim, record_outcome, caller_fingerprint, Claimed, proceed, replay}
use task_db.Write.Payload.{create_payload}
use task_db.Write.{assigned_by_the_module, answer_replay}

-- `insert` binds these columns; the others take the defaults of the table.
abbrev pub new_row : Text → Scope → ℕ → Task → TaskRow
new_row uuid scope number task = record {
  id = uuid;
  version = 1;
  project_id = scope.project_id;
  owner_user_id = scope.user_id;
  team_id = [];
  visibility = rung private;
  created_by = scope.user_id;
  updated_by = scope.user_id;
  deleted_at = none;
  number = number;
  title = task.title;
  body = task.body;
  status = as_i8 task.status;
  tags = some task.tags;
  links = some task.links;
}

module _ (e : Engine) (w : Wire) where
  unfoldable pub allocate_number : Text → Rpc ℕ
  allocate_number project = do
    map_err (execute (bump_counter e project))
    map_err (execute (read_counter e project))

  abbrev pub created : Text → Scope → ℕ → CreateTaskResponse
  created urn scope number = record {
    meta = some (record default_meta {
      id = urn;
      version = 1;
      project_id = scope.project_id;
      owner_user_id = scope.user_id;
    });
    number = number;
  }

  -- `create`, once the key is claimed.
  unfoldable pub create_claimed : Text → CreateTaskRequest → Scope → Task → Rpc CreateTaskResponse
  create_claimed urn req scope task = do
    number ← allocate_number scope.project_id
    map_err (execute (insert_task e (new_row urn scope number task)))
    record_outcome e w.create_response scope req.idempotency (created urn scope number)
    commit
    pure (created urn scope number)

  abbrev pub create_or_replay :
      Text → CreateTaskRequest → Scope → Task → Claimed CreateTaskResponse → Rpc CreateTaskResponse
  create_or_replay urn req scope task (replay original) = answer_replay original
  create_or_replay urn req scope task proceed = create_claimed urn req scope task

  -- `create`; the text is the UUIDv7 that `Uuid::now_v7` draws.
  unfoldable pub create : Text → CreateTaskRequest → Rpc CreateTaskResponse
  create uuid req = do
    scope ← lift (scope_of req.scope)
    task ← lift (ok_or req.task (refuse task_is_required))
    lift (assigned_by_the_module task.meta)
    acquire
    begin
    claimed ←
        claim e w.create_response scope w Idem.create_task req.idempotency none
          (create_payload w req)
    create_or_replay (codes "yadgar:task:" ++ uuid) req scope task claimed
