-- ===== src/Status.antt =====
-- What a handler answers in place of a response: tonic's `Status`, its code and the sentence that
-- the source writes. Each sentence is a constructor of `Message` with what `format!` puts into it.
use task_db.Prelude.{ℕ, ℤ, Text, Option, none, some, ◌≡◌, refl, ap, ◌⊎◌, inl, inr}

-- The gRPC codes that the source names.
pub data Code : Type 0 where
  invalid_argument not_found failed_precondition aborted unavailable deadline_exceeded : Code
  internal : Code

-- Who states no value, in a refusal of src/setting.rs.
pub data Who : Type 0 where
  organisation : Who
  team : Text → Who

pub data Message : Type 0 where
  scope_is_required task_is_required meta_is_assigned : Message
  update_refused delete_refused : Message
  one_of_id_or_number no_such_task : Message
  different_operation different_request : Message
  lookup_key_is_required caller_fingerprint_is_required : Message
  rpc_is_not_recorded : ℤ → Message
  caller_fingerprint_length : ℕ → Message
  unknown_field : Text → Message
  not_a_task_status : ℤ → Message
  states_no_value : Who → Message
  storage_error no_free_connection not_serialised title_too_long deadline_passed : Message

pub record Status : Type 0 where
  pub code : Code
  pub message : Message

-- A handler's answer, as the source's `Result<_, Status>`.
pub data Result {ℓ} (A : Type ℓ) : Type ℓ where
  ok : A → Result A
  err : Status → Result A

abbrev pub refuse : Message → Status
refuse m = record { code = invalid_argument; message = m }

-- `Option::ok_or_else`
abbrev pub ok_or {ℓ} : {A : Type ℓ} → Option A → Status → Result A
ok_or none x = err x
ok_or (some value) x = ok value

module _ {ℓ κ} {A : Type ℓ} {B : Type κ} where
  -- The operator `?`.
  infixl 5 ◌>>=◌
  abbrev pub ◌>>=◌ : Result A → (A → Result B) → Result B
  err x >>= next = err x
  ok value >>= next = next value

  -- A chain that answers has answered at its first step.
  pub >>=-eq-ok :
      (first : Result A) (next : A → Result B) {b : B}
      → (first >>= next) ≡ ok b
      → (value : A) × (first ≡ ok value) × (next value ≡ ok b)
  >>=-eq-ok (err x) next h = cc
  >>=-eq-ok (ok value) next h = (value, refl, h)

  -- A chain that refuses has refused at its first step or behind it.
  pub >>=-eq-err :
      (first : Result A) (next : A → Result B) {x : Status}
      → (first >>= next) ≡ err x
      → (first ≡ err x) ⊎ ((value : A) × (first ≡ ok value) × (next value ≡ err x))
  >>=-eq-err (err y) next h = inl (cc)
  >>=-eq-err (ok value) next h = inr (value, refl, h)

infixl 5 ◌>>◌
abbrev pub ◌>>◌ {ℓ} : {A : Type ℓ} → Result (Unit {0}) → Result A → Result A
unit >> after = unit >>= λ nothing. after

pub Result-cases {ℓ} :
    {A : Type ℓ} (r : Result A) → ((value : A) × (r ≡ ok value)) ⊎ ((x : Status) × (r ≡ err x))
Result-cases (err x) = inr (x, refl)
Result-cases (ok value) = inl (value, refl)

pub ok-injective {ℓ} : {A : Type ℓ} {a b : A} → ok a ≡ ok b → a ≡ b
ok-injective h = cc

pub ok_or-eq-ok {ℓ} :
    {A : Type ℓ} (o : Option A) (x : Status) {a : A} → ok_or o x ≡ ok a → o ≡ some a
ok_or-eq-ok none x h = cc
ok_or-eq-ok (some b) x h = ap some (ok-injective h)
