-- ===== src/Wire.antt =====
-- What the service takes from prost and from sha2: the encoding of its messages and SHA-256.
-- Neither is part of the repository, so both are the record `Wire`, a parameter.
use task_db.Prelude.{ℕ, Option, some, List, length, ◌≡◌}
use task_db.Proto.{
  CreateTaskRequest, UpdateTaskRequest, DeleteTaskRequest, CreateTaskResponse, UpdateTaskResponse,
  DeleteTaskResponse,
}

-- A message: what was encoded decodes to itself.
pub record Codec (T : Type 0) : Type 0 where
  pub encode : T → List ℕ
  pub decode : List ℕ → Option T
  pub decode-encode : (t : T) → decode (encode t) ≡ some t

pub record Wire : Type 0 where
  pub create_request : CreateTaskRequest → List ℕ
  pub update_request : UpdateTaskRequest → List ℕ
  pub delete_request : DeleteTaskRequest → List ℕ
  pub create_response : Codec CreateTaskResponse
  pub update_response : Codec UpdateTaskResponse
  pub delete_response : Codec DeleteTaskResponse
  pub sha256 : List ℕ → List ℕ
  pub length-sha256 : (bytes : List ℕ) → length (sha256 bytes) ≡ 32
