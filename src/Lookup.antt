-- ===== src/Lookup.antt =====
-- src/idem/lookup.rs: LookupWrite, a read of the ledger of claims.
use task_db.Prelude.{ℕ, ℤ, pos, Text, Option, none, some, List}
use task_db.Status.{
  Result, ok, err, refuse, ok_or, lookup_key_is_required, rpc_is_not_recorded,
  caller_fingerprint_is_required,
}
use task_db.Proto.{
  WriteRpc, rpc_unspecified, create_task, update_task, delete_task, write_rpc_of, Idempotency,
  LookupWriteRequest, Outcome, LookupWriteResponse,
}
use task_db.Engine.{Engine, WriteRow}
use task_db.Wire.{Wire}
use task_db.Sql.{scope_of}
use task_db.Txn.{done, Rpc, lift, map_err, autocommit, acquire, ◌>>=◌, ◌>>◌}
use task_db.Tables.{find_claim}
use task_db.Idem
use task_db.Idem.{Presented, present, decide, caller_fingerprint}

abbrev pub recorded_rpc : ℤ → Option WriteRpc → Result WriteRpc
recorded_rpc n none = err (refuse (rpc_is_not_recorded n))
recorded_rpc n (some rpc_unspecified) = err (refuse (rpc_is_not_recorded n))
recorded_rpc n (some create_task) = ok create_task
recorded_rpc n (some update_task) = ok update_task
recorded_rpc n (some delete_task) = ok delete_task

abbrev pub required_caller : Option (List ℕ) → Result (List ℕ)
required_caller caller = ok_or caller (refuse caller_fingerprint_is_required)

abbrev pub required_key : Option Idempotency → Result Text
required_key idem = ok_or (present idem) (refuse lookup_key_is_required)

-- No store digest: a lookup cannot compute one.
abbrev pub presented : List ℕ → Text → Presented
presented caller rpc = record { rpc = rpc; request = none; caller = some caller }

abbrev pub as_outcome : {T : Type 0} → (T → Outcome) → Result T → Result LookupWriteResponse
as_outcome f (ok t) = ok (record { outcome = some (f t) })
as_outcome f (err e) = err e

module _ (w : Wire) where
  -- `Unspecified` is refused before the read.
  abbrev pub outcome_of : WriteRpc → List ℕ → WriteRow → Result LookupWriteResponse
  outcome_of create_task caller row =
      as_outcome Outcome.create (decide w.create_response row (presented caller Idem.create_task))
  outcome_of update_task caller row =
      as_outcome Outcome.update (decide w.update_response row (presented caller Idem.update_task))
  outcome_of delete_task caller row =
      as_outcome Outcome.delete (decide w.delete_response row (presented caller Idem.delete_task))
  outcome_of rpc_unspecified caller row = err (refuse (rpc_is_not_recorded (pos 0)))

  abbrev pub answer : WriteRpc → List ℕ → Option WriteRow → Result LookupWriteResponse
  answer rpc caller none = ok (record { outcome = none })
  answer rpc caller (some row) = outcome_of rpc caller row

  unfoldable pub lookup : Engine → LookupWriteRequest → Rpc LookupWriteResponse
  lookup e req = do
    scope ← lift (scope_of req.scope)
    key ← lift (required_key req.idempotency)
    rpc ← lift (recorded_rpc req.rpc (write_rpc_of req.rpc))
    sent ← lift (caller_fingerprint req.caller_fingerprint)
    caller ← lift (required_caller sent)
    acquire
    found ← map_err (autocommit (λ db. done (find_claim e scope key db, db)))
    lift (answer rpc caller found)
