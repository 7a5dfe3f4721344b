-- ===== src/Setting/Order.antt =====
-- Sorting in src/setting.rs keeps the members of a list of names.
use task_db.Prelude.{Text, List, [], ◌∷◌, ◌≡◌, refl, arith}
use task_db.Prelude.{insert_sorted, sort}
use task_db.Setting.{mem}

mem-insert_sorted : (t u : Text) (us : List Text) → mem t (insert_sorted u us) ≡ mem t (u ∷ us)
mem-insert_sorted t u [] = refl
mem-insert_sorted t u (v ∷ us) = ground (arith, mem-insert_sorted t u us)

pub mem-sort : (t : Text) (us : List Text) → mem t (sort us) ≡ mem t us
mem-sort t [] = refl
mem-sort t (u ∷ us) = ground (arith, mem-sort t us, mem-insert_sorted t u (sort us))
