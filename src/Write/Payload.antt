-- ===== src/Write/Payload.antt =====
-- src/write/payload.rs: the bytes that D9's fingerprint is taken over.
use task_db.Prelude.{ℕ, Option, none, some, List, [], sort, dedup}
use task_db.Proto.{FieldMask, CreateTaskRequest, UpdateTaskRequest, DeleteTaskRequest}
use task_db.Wire.{Wire}

abbrev pub canonical_mask : Option FieldMask → Option FieldMask
canonical_mask none = none
canonical_mask (some mask) = some (record { paths = dedup (sort mask.paths) })

unfoldable pub canonical_create : CreateTaskRequest → CreateTaskRequest
canonical_create req = record req { scope = none; idempotency = none }

unfoldable pub canonical_update : UpdateTaskRequest → UpdateTaskRequest
canonical_update req = record req {
  scope = none;
  idempotency = none;
  caller_fingerprint = [];
  update_mask = canonical_mask req.update_mask;
}

unfoldable pub canonical_delete : DeleteTaskRequest → DeleteTaskRequest
canonical_delete req = record req { scope = none; idempotency = none; caller_fingerprint = [] }

module _ (w : Wire) where
  unfoldable pub create_payload : CreateTaskRequest → List ℕ
  unfolding canonical_create
  create_payload req = w.create_request (canonical_create req)

  unfoldable pub update_payload : UpdateTaskRequest → List ℕ
  unfolding canonical_update
  update_payload req = w.update_request (canonical_update req)

  unfoldable pub delete_payload : DeleteTaskRequest → List ℕ
  unfolding canonical_delete
  delete_payload req = w.delete_request (canonical_delete req)
