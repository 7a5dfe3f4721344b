-- ===== src/Write/Delete.antt =====
-- src/write.rs: DeleteTask, the stamping of a row under its version.
use task_db.Prelude.{ℕ, ◌+◌, ◌==◌, some, [], ◌∷◌, if◌then◌else◌}
use task_db.Status.{}
use task_db.Proto.{Scope, DeleteTaskRequest, DeleteTaskResponse}
use task_db.Engine.{Engine, TaskRow, text, unsigned}
use task_db.Wire.{Wire}
use task_db.Sql.{reach_of, scope_of, within, bind_within}
use task_db.Sql.Where.{eq, both, owner_user_id}
use task_db.Txn.{Rpc, pure, lift, map_err, execute, acquire, begin, commit, ◌>>=◌, ◌>>◌}
use task_db.Tables.{}
use task_db.Idem
use task_db.Idem.{claim, record_outcome, caller_fingerprint, Claimed, proceed, replay}
use task_db.Write.Payload.{delete_payload}
use task_db.Write.{answer_replay, refuse_write, delete_refusal, at_version, bounded, run_update}

module _ (e : Engine) (w : Wire) where
  abbrev pub deleted_row : ℕ → TaskRow → TaskRow
  deleted_row now r = record r { deleted_at = some now; version = r.version + 1 }

  -- `id = ? AND version = ? AND deleted_at IS NULL AND owner_user_id = ? AND {within}`
  unfoldable pub delete_claimed : ℕ → DeleteTaskRequest → Scope → Rpc DeleteTaskResponse
  delete_claimed now req scope = do
    affected ← map_err (
        execute (
          run_update e w (at_version e w (both (eq owner_user_id) (within (reach_of scope))))
            (bind_within (reach_of scope)
              (text req.id ∷ unsigned req.expect_version ∷ text scope.user_id ∷ []))
            (λ r. bounded e w (deleted_row now r))))
    if affected == 0 then refuse_write delete_refusal else do
      record_outcome e w.delete_response scope req.idempotency (record {})
      commit
      pure (record {})

  abbrev pub delete_or_replay :
      ℕ → DeleteTaskRequest → Scope → Claimed DeleteTaskResponse → Rpc DeleteTaskResponse
  delete_or_replay now req scope (replay original) = answer_replay original
  delete_or_replay now req scope proceed = delete_claimed now req scope

  -- `delete`; the number is the engine's CURRENT_TIMESTAMP.
  unfoldable pub delete : ℕ → DeleteTaskRequest → Rpc DeleteTaskResponse
  delete now req = do
    scope ← lift (scope_of req.scope)
    caller ← lift (caller_fingerprint req.caller_fingerprint)
    acquire
    begin
    claimed ←
        claim e w.delete_response scope w Idem.delete_task req.idempotency caller
          (delete_payload w req)
    delete_or_replay now req scope claimed
