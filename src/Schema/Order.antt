-- ===== src/Schema/Order.antt =====
-- The migrations of src/schema.rs one after the other.
use task_db.Prelude.{ℕ, ltb, Option, none, some, List, [], ◌∷◌, keep}
use task_db.Engine.{Engine}
use task_db.Schema.{Stored, Migration, all}

-- The migrations of a list, in its order; none after one that is refused.
abbrev pub in_order : Engine → List Migration → Stored → Option Stored
in_order e [] s = some s
in_order e (m ∷ ms) s = elim (m.sql e s) [ none ↦ none | some after ↦ in_order e ms after ]

-- What a database at a version has still to run.
abbrev pub after : ℕ → List Migration
after version = keep (λ m. ltb version m.version) all
