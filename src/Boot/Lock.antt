-- ===== src/Boot/Lock.antt =====
-- src/boot/lock.rs: how long a migration waits for another replica's. `LockOptions::new` of
-- yadgar-store, which refuses what is no wait, is a parameter.
use task_db.Prelude.{
  ℕ, suc, zero, ◌^◌, ltb, ◌==◌, ℤ, pos, negsuc, Text, codes, Option, none, some, [], ◌∷◌,
  if◌then◌else◌, ◌≡◌, ap,
}
use task_db.Boot.{
  Env, Booted, booted, refused_boot, migration_lock_wait, env_required_named, digits, unsigned_text,
  ◌>>=◌,
}
use task_db.Boot.Required.{Given, named-Given, bind-eq-booted, booted_injective}

abbrev pub migration_lock_timeout_key : Text
migration_lock_timeout_key = codes "DB_MIGRATION_LOCK_TIMEOUT_SECONDS"

abbrev pub migration_lock_timeout_chart_key : Text
migration_lock_timeout_chart_key = codes "database.migrationLockTimeoutSeconds"

abbrev above_zero : Option ℕ → Option ℤ
above_zero none = none
above_zero (some n) = if ltb n (2 ^ 31) then some (pos n) else none

abbrev below_zero : Option ℕ → Option ℤ
below_zero none = none
below_zero (some zero) = some (pos zero)
below_zero (some (suc n)) = if ltb n (2 ^ 31) then some (negsuc n) else none

-- `i32::from_str`
abbrev pub parse_i32 : Text → Option ℤ
parse_i32 [] = none
parse_i32 (c ∷ s) = if c == 45 then below_zero (digits s) else above_zero (unsigned_text (c ∷ s))

-- The wait is what the variable says.
abbrev pub Waits : {Lock : Type 0} → (ℤ → Option Lock) → Env → Lock → Type 0
Waits new_lock env lock =
    (raw : Text) × (seconds : ℤ) × Given env migration_lock_timeout_key raw
    × (parse_i32 raw ≡ some seconds)
    × (new_lock seconds ≡ some lock)

module _ {P Lock : Type 0} (new_lock : ℤ → Option Lock) where
  -- `refuse`
  abbrev pub or_no_wait : {A : Type 0} → Text → Option A → Booted P A
  or_no_wait raw none = refused_boot (migration_lock_wait raw)
  or_no_wait raw (some a) = booted a

  unfoldable pub migration_lock : Env → Booted P Lock
  migration_lock env = do
    raw ← env_required_named env migration_lock_timeout_key migration_lock_timeout_chart_key
    seconds ← or_no_wait raw (parse_i32 raw)
    or_no_wait raw (new_lock seconds)

  or_no_wait-eq-booted :
      {A : Type 0} (raw : Text) (o : Option A) {a : A} → or_no_wait raw o ≡ booted a → o ≡ some a
  or_no_wait-eq-booted raw none h = cc
  or_no_wait-eq-booted raw (some b) {a} h = ap some (booted_injective {a = b} {b = a} h)

  pub migration_lock-Waits :
      (env : Env) {lock : Lock} → migration_lock env ≡ booted lock → Waits new_lock env lock
  unfolding migration_lock
  migration_lock-Waits env {lock} h =
      let (raw, found, rest) =
        bind-eq-booted
          (env_required_named env migration_lock_timeout_key migration_lock_timeout_chart_key) _
          h in
      let (seconds, parsed, made) = bind-eq-booted (or_no_wait raw (parse_i32 raw)) _ rest in
      (
        raw,
        seconds,
        named-Given env migration_lock_timeout_key migration_lock_timeout_chart_key found,
        or_no_wait-eq-booted raw (parse_i32 raw) parsed,
        or_no_wait-eq-booted raw (new_lock seconds) made,
      )
