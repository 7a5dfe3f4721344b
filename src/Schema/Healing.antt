-- ===== src/Schema/Healing.antt =====
-- Migration 5 of src/schema.rs: a stored visibility that is none of the ladder's becomes the private
-- rung, which it has been read as.
use task_db.Prelude.{zero, suc, ℤ, pos, negsuc, true, false, Bool-cases, ◌≡◌, refl, inl, inr}
use task_db.Proto.{Scope}
use task_db.Engine.{Engine, TaskRow}
use task_db.Schema.{is_rung, healed}
use task_db.Sql.Axes.{ladder, may_edit, may_read, owns}

module _ (e : Engine) (scope : Scope) (r : TaskRow) where
  -- A rung that is none of the three is the owner's alone.
  unknown_rung : (v : ℤ) → is_rung v ≡ false → ladder e scope r v ≡ owns e scope r
  unknown_rung (pos zero) h = refl
  unknown_rung (pos (suc zero)) h = refl
  unknown_rung (pos (suc (suc zero))) h = cc
  unknown_rung (pos (suc (suc (suc zero)))) h = cc
  unknown_rung (pos (suc (suc (suc (suc n))))) h = refl
  unknown_rung (negsuc n) h = refl

  -- Healing a row leaves a rung of the ladder, is done once and for all, and changes neither who may
  -- edit the row nor who may read it.
  pub heals :
      (is_rung (healed r).visibility ≡ true)
      × (healed (healed r) ≡ healed r)
      × (may_edit e scope (healed r) ≡ may_edit e scope r)
      × (may_read e scope (healed r) ≡ may_read e scope r)
  heals = elim (Bool-cases (is_rung r.visibility)) [
    | inl known ↦ rw known (known, rw known refl, refl, refl)
    | inr unknown ↦
        let ladder_is = unknown_rung r.visibility unknown in
        rw unknown (refl, refl, rw ladder_is refl, rw ladder_is refl)
  ]
