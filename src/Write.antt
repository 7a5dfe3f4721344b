-- ===== src/Write.antt =====
-- src/write.rs: CreateTask, UpdateTask and DeleteTask. One call is one transaction, and the claim
-- of D9 is taken inside it. The refusals, and the statements that UpdateTask and DeleteTask share.
pub mod Mask
pub mod Payload
pub mod Create
pub mod Update
pub mod Delete
pub mod Atomicity
pub mod Selection
pub mod Bounds
pub mod Ending
pub mod Numbering
pub mod Deleted
pub mod Updated
pub mod Created
pub mod Retry
pub mod Columns
pub mod Stale
use task_db.Prelude.{
  ℕ, ◌==◌, ltb, pos, int_eq, Bool, not, ◌||◌, Option, none, some, List, is_empty, is_some,
  if◌then◌else◌,
}
use task_db.Status.{
  Result, ok, err, Status, failed_precondition, refuse, meta_is_assigned, update_refused,
  delete_refused,
}
use task_db.Proto.{Meta}
use task_db.Engine.{Engine, TaskRow, Db, Value, database}
use task_db.Wire.{Wire}
use task_db.Sql.Where.{Clause, eq, is_null, both, id, version, deleted_at}
use task_db.Txn.{SqlResult, done, failed, Rpc, pure, raise, rollback, ◌>>◌}
use task_db.Tables.{update_rows, title_fits, u64_limit}

-- D42: a write that carries any field of `Meta` is refused.
unfoldable pub supplied : Meta → Bool
supplied meta =
    not (is_empty meta.id)
    || not (meta.version == 0)
    || not (is_empty meta.project_id)
    || not (is_empty meta.owner_user_id)
    || not (is_empty meta.team_id)
    || not (int_eq meta.visibility (pos 0))
    || not (is_empty meta.created_by)
    || not (is_empty meta.updated_by)
    || is_some meta.created_at
    || is_some meta.updated_at
    || is_some meta.deleted_at
    || not (is_empty meta.derived_from)

unfoldable pub assigned_by_the_module : Option Meta → Result (Unit {0})
unfolding supplied
assigned_by_the_module none = ok tt
assigned_by_the_module (some meta) = if supplied meta then err (refuse meta_is_assigned) else ok tt

-- `tx.rollback()`, and the recorded outcome.
abbrev pub answer_replay : {T : Type 0} → T → Rpc T
answer_replay original = do rollback; pure original

-- `tx.rollback()`, and the refusal.
abbrev pub refuse_write : {T : Type 0} → Status → Rpc T
refuse_write s = do rollback; raise s

abbrev pub update_refusal : Status
update_refusal = record { code = failed_precondition; message = update_refused }

abbrev pub delete_refusal : Status
delete_refusal = record { code = failed_precondition; message = delete_refused }

module _ (e : Engine) (w : Wire) where
  -- `id = ? AND version = ? AND deleted_at IS NULL AND {rest}`
  abbrev pub at_version : Clause → Clause
  at_version rest = both (eq id) (both (eq version) (both (is_null deleted_at) rest))

  -- A changed row under the bounds of its columns; `version + 1` is the engine's.
  abbrev pub bounded : TaskRow → SqlResult TaskRow
  bounded r =
      if title_fits r.title
      then (if ltb r.version u64_limit then done r else failed (database e.out_of_range))
      else failed (database e.title_too_long)

  abbrev pub stored : Db → SqlResult (ℕ × List TaskRow) → SqlResult (ℕ × Db)
  stored db (done (n, rows)) = done (n, record db { tasks = rows })
  stored db (failed x) = failed x

  abbrev pub run_update :
      Clause → List Value → (TaskRow → SqlResult TaskRow) → Db → SqlResult (ℕ × Db)
  run_update clause params change db = stored db (update_rows e clause params change db.tasks)
