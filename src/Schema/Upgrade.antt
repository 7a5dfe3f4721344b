-- ===== src/Schema/Upgrade.antt =====
-- What the migrations of src/schema.rs after the second make of the tasks of a database.
use task_db.Prelude.{
  ◌≤◌, ltb, true, false, Bool-cases, none, some, List, [], ◌∷◌, map, exists, All, if◌then◌else◌,
  ◌≡◌, ◌↔◌, refl, ◌∙◌, sym, inl, inr, arith,
}
use mathlib.Core.Bool.{true≢false}
use task_db.Engine.{Engine, TaskRow, CounterRow, Db}
use task_db.Tables.{same_task_key, title_fits, u64_limit}
use task_db.Write.Numbering.{last_number}
use task_db.Schema.{Stored, healed, too_long, is_rung, backfilled}
use task_db.Schema.Counting.{backfilled-Distinct, backfilled_counts}
use task_db.History.Distinct.{Distinct, Distinct-map, ||-eq-false}
use task_db.History.Valid.{IsValid, RowIsValid}
use task_db.Schema.Order.{in_order, after}

-- A database at migration 2, by its tasks.
abbrev pub at_version_2 : List TaskRow → Stored
at_version_2 rows = record {
  tasks = some rows;
  counters = none;
  writes = none;
  has_tags_and_links = true;
  title_is_checked = false;
  has_request_fingerprint = false;
  has_caller_fingerprint = false;
}

-- A database at the last migration.
abbrev pub at_head : Db → Stored
at_head db = record {
  tasks = some db.tasks;
  counters = some db.counters;
  writes = some db.writes;
  has_tags_and_links = true;
  title_is_checked = true;
  has_request_fingerprint = true;
  has_caller_fingerprint = true;
}

-- What the tasks of migration 2 become.
abbrev pub upgraded : Engine → List TaskRow → Db
upgraded e rows = record { tasks = map healed rows; counters = backfilled e rows; writes = [] }

too_long-healed : (r : TaskRow) → too_long (healed r) ≡ too_long r
too_long-healed r = elim (Bool-cases (is_rung r.visibility)) [
  | inl known ↦ rw known refl
  | inr unknown ↦ rw unknown refl
]

exists-healed : (rs : List TaskRow) → exists too_long (map healed rs) ≡ exists too_long rs
exists-healed [] = refl
exists-healed (r ∷ rs) = rw (too_long-healed r) (rw (exists-healed rs) refl)

some_not_none : {A : Type 0} {a : A} → some a ≡ none → ⊥
some_not_none h = cc

module _ (e : Engine) where
  in_order-after_2 :
      (rs : List TaskRow)
      → in_order e (after 2) (at_version_2 rs)
        ≡ (if exists too_long rs then none else some (at_head (upgraded e rs)))
  in_order-after_2 rs = elim (Bool-cases (exists too_long rs)) [
    | inl long ↦ rw long (rw (in_order, exists-healed rs ∙ long) refl)
    | inr short ↦ rw short (rw (in_order, exists-healed rs ∙ short) refl)
  ]

  -- The rest of the migrations is refused exactly where a title that is stored has more than 128
  -- characters.
  pub upgrade_refused :
      (rs : List TaskRow)
      → (in_order e (after 2) (at_version_2 rs) ≡ none) ↔ (exists too_long rs ≡ true)
  upgrade_refused rs = elim (Bool-cases (exists too_long rs)) [
    | inl long ↦ ((λ h. long), (λ h. in_order-after_2 rs ∙ (rw long refl)))
    | inr short ↦ (
      (λ h. absurd (
          some_not_none {a = at_head (upgraded e rs)}
            (sym (in_order-after_2 rs ∙ (rw short refl)) ∙ h))),
      (λ long. absurd (true≢false (sym long ∙ short))),
    )
  ]

  -- What a row of migration 2 is by its columns' types, and by how numbers were given out.
  abbrev pub IsSound : TaskRow → Type 0
  IsSound r = (1 ≤ r.number) × (1 ≤ r.version) × (ltb r.version u64_limit ≡ true)

  same_keys_healed : (r q : TaskRow) → same_task_key e (healed r) (healed q) ≡ same_task_key e r q
  same_keys_healed r q = elim (Bool-cases (is_rung r.visibility)) [
    | inl kr ↦ elim (Bool-cases (is_rung q.visibility)) [
      | inl kq ↦ rw kr (rw kq refl)
      | inr uq ↦ rw kr (rw uq refl)
    ]
    | inr ur ↦ elim (Bool-cases (is_rung q.visibility)) [
      | inl kq ↦ rw ur (rw kq refl)
      | inr uq ↦ rw ur (rw uq refl)
    ]
  ]

  healed-RowIsValid :
      (counters : List CounterRow) (r : TaskRow)
      → IsSound r
      → r.number ≤ last_number e r.project_id counters
      → too_long r ≡ false
      → RowIsValid e counters (healed r)
  healed-RowIsValid counters r (one, version, small) given short =
      elim (Bool-cases (is_rung r.visibility)) [
        | inl known ↦ rw known (one, given, version, (short_title, small))
        | inr unknown ↦ rw unknown (one, given, version, (short_title, small))
      ]
    where
      short_title : title_fits r.title ≡ true
      short_title = ground (arith, short)

  all-RowIsValid :
      (counters : List CounterRow) (rs : List TaskRow)
      → All IsSound rs
      → All (λ r. r.number ≤ last_number e r.project_id counters) rs
      → exists too_long rs ≡ false
      → All (RowIsValid e counters) (map healed rs)
  all-RowIsValid counters [] sound given short = tt
  all-RowIsValid counters (r ∷ rs) (sound, more) (given, others) short =
      let (here, rest) = ||-eq-false (too_long r) (exists too_long rs) short in
      (healed-RowIsValid counters r sound given here, all-RowIsValid counters rs more others rest)

  -- The rest of the migrations makes valid tables of a database at migration 2 whose ids and numbers
  -- are unique, whose numbers and versions start at 1, whose versions are within their column and
  -- whose titles have at most 128 characters: every row healed, every project's counter at its
  -- greatest number or above, and an empty ledger.
  pub upgrade-IsValid :
      (rs : List TaskRow)
      → Distinct (same_task_key e) rs
      → All IsSound rs
      → exists too_long rs ≡ false
      → (in_order e (after 2) (at_version_2 rs) ≡ some (at_head (upgraded e rs)))
        × IsValid e (upgraded e rs)
  upgrade-IsValid rs keys sound short = (
    in_order-after_2 rs ∙ (rw short refl),
    record {
      task_keys = Distinct-map (same_task_key e) healed same_keys_healed rs keys;
      counter_keys = backfilled-Distinct e rs;
      claim_keys = tt;
      rows = all-RowIsValid (backfilled e rs) rs sound (backfilled_counts e rs) short;
    },
  )
