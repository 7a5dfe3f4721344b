-- ===== src/Idem.antt =====
-- src/idem.rs: the ledger of D9's claims. A repeated key is a replay, or a refusal where the
-- request differs.
pub mod Taking
pub mod Replaying
use task_db.Prelude.{
  ℕ, ◌==◌, Text, codes, text_eq, Bool, false, not, ◌&&◌, Option, none, some, List, [], ◌∷◌, length,
  is_some, is_empty, if◌then◌else◌,
}
use task_db.Status.{
  Result, ok, err, refuse, different_operation, different_request, storage_error,
  caller_fingerprint_length, internal as internal_code,
}
use task_db.Proto.{Scope, Idempotency}
use task_db.Engine.{Engine, WriteRow, SqlxError, database, pool_timed_out, row_not_found, other, Db}
use task_db.Wire.{Codec, Wire}
use task_db.Sql.Errors.{internal}
use task_db.Txn.{SqlResult, done, failed, Rpc, pure, lift, map_err, execute, ◌>>=◌}
use task_db.Tables.{insert_claim, update_claim, find_claim}

abbrev pub create_task : Text
create_task = codes "CreateTask"

abbrev pub update_task : Text
update_task = codes "UpdateTask"

abbrev pub delete_task : Text
delete_task = codes "DeleteTask"

-- `Presented`
pub record Presented : Type 0 where
  pub rpc : Text
  pub request : Option (List ℕ)
  pub caller : Option (List ℕ)

-- Empty means absent; present, it is exactly 32 bytes.
unfoldable pub caller_fingerprint : List ℕ → Result (Option (List ℕ))
caller_fingerprint bytes =
    if is_empty bytes
    then ok none
    else if length bytes == 32
    then ok (some bytes)
    else err (refuse (caller_fingerprint_length (length bytes)))

-- Both sides are there and are not the same bytes.
abbrev pub differs : Option (List ℕ) → Option (List ℕ) → Bool
differs none sent = false
differs (some s) none = false
differs (some s) (some f) = not (text_eq s f)

abbrev pub decoded : {T : Type 0} → Option T → Result T
decoded (some t) = ok t
decoded none = err (record { code = internal_code; message = storage_error })

abbrev pub refused : WriteRow → Presented → Bool
refused row p =
    if is_some row.caller_fingerprint && is_some p.caller
    then differs row.caller_fingerprint p.caller
    else differs row.request_fingerprint p.request

unfoldable pub decide : {T : Type 0} → Codec T → WriteRow → Presented → Result T
decide codec row p =
    if text_eq row.rpc p.rpc
    then (if refused row p
        then err (refuse different_request)
        else decoded (codec.decode row.response))
    else err (refuse different_operation)

pub data Claimed (T : Type 0) : Type 0 where
  proceed : Claimed T
  replay : T → Claimed T

abbrev non_empty : Text → Option Text
non_empty [] = none
non_empty (c ∷ s) = some (c ∷ s)

unfoldable pub present : Option Idempotency → Option Text
present none = none
present (some i) = non_empty i.key

-- `fingerprint`
abbrev pub fingerprint : Wire → List ℕ → List ℕ
fingerprint w payload = w.sha256 payload

-- `is_duplicate`
abbrev pub is_duplicate : SqlxError → Bool
is_duplicate (database db) = db.is_unique_violation
is_duplicate pool_timed_out = false
is_duplicate row_not_found = false
is_duplicate other = false

-- `fetch_one`
abbrev pub fetch_one : {A : Type 0} → Option A → Db → SqlResult (A × Db)
fetch_one (some a) db = done (a, db)
fetch_one none db = failed row_not_found

abbrev pub as_replay : {T : Type 0} → Result T → Result (Claimed T)
as_replay (ok t) = ok (replay t)
as_replay (err e) = err e

module _ (e : Engine) {T : Type 0} (codec : Codec T) (scope : Scope) where
  -- `replay`
  unfoldable pub replay_claim : Text → Presented → Rpc (Claimed T)
  replay_claim key p = do
    row ← map_err (execute (λ db. fetch_one (find_claim e scope key db) db))
    lift (as_replay (decide codec row p))

  abbrev pub after_insert : Text → Presented → SqlResult (Unit {0}) → Rpc (Claimed T)
  after_insert key p (done t) = pure proceed
  after_insert key p (failed x) =
      let replayed = replay_claim key p in
      if is_duplicate x then replayed else lift (err (internal x))

  abbrev pub claim_key : Text → Option (List ℕ) → Text → List ℕ → Rpc (Claimed T)
  claim_key rpc caller key digest s =
      let row : WriteRow = record {
        project_id = scope.project_id;
        user_id = scope.user_id;
        idem_key = key;
        rpc = rpc;
        response = [];
        request_fingerprint = some digest;
        caller_fingerprint = caller;
      } in
      let (claimed, s') = execute (insert_claim e scope key row) s in
      after_insert key (record { rpc = rpc; request = some digest; caller = caller }) claimed s'

  abbrev pub claim_present : Wire → Text → Option (List ℕ) → List ℕ → Option Text → Rpc (Claimed T)
  claim_present w rpc caller payload none = pure proceed
  claim_present w rpc caller payload (some key) = claim_key rpc caller key (fingerprint w payload)

  unfoldable pub claim :
      Wire → Text → Option Idempotency → Option (List ℕ) → List ℕ → Rpc (Claimed T)
  claim w rpc idem caller payload = claim_present w rpc caller payload (present idem)

  abbrev pub record_present : T → Option Text → Rpc (Unit {0})
  record_present response none = pure tt
  record_present response (some key) =
      map_err (execute (update_claim e scope key (codec.encode response)))

  -- `record`
  unfoldable pub record_outcome : Option Idempotency → T → Rpc (Unit {0})
  record_outcome idem response = record_present response (present idem)
