-- ===== src/Schema/Counting.antt =====
-- The counters that migration 3 of src/schema.rs makes of the tasks that are there.
use task_db.Prelude.{
  ℕ, ◌≤◌, Text, false, Bool-cases, List, [], ◌∷◌, All, exists, ◌≡◌, refl, ◌∙◌, inl, inr, arith,
}
use task_db.Engine.{Engine, TaskRow, CounterRow}
use task_db.Tables.{is_counter}
use task_db.Schema.{larger, count_in, backfilled}
use task_db.Write.Numbering.{last_number}
use task_db.History.Collation.{same_counter, same_comm}
use task_db.History.Distinct.{Distinct, ||-eq-false, ||-false}

larger_left : (a b : ℕ) → a ≤ larger a b
larger_left a b = ground arith

larger_right : (a b : ℕ) → b ≤ larger a b
larger_right a b = ground arith

module _ (e : Engine) (r : TaskRow) where
  -- The row's project has given out the row's number.
  given_out : (cs : List CounterRow) → r.number ≤ last_number e r.project_id (count_in e r cs)
  given_out [] = rw (e.same_refl r.project_id) (omega arith)
  given_out (c ∷ cs) = elim (Bool-cases (e.same c.project_id r.project_id)) [
    | inl here ↦ rw here (rw here (larger_right c.next_number r.number))
    | inr past ↦ rw past (rw past (given_out cs))
  ]

  -- No counter falls.
  count_in_grows :
      (project : Text) (cs : List CounterRow)
      → last_number e project cs ≤ last_number e project (count_in e r cs)
  count_in_grows project [] = omega arith
  count_in_grows project (c ∷ cs) = elim (Bool-cases (e.same c.project_id r.project_id)) [
    | inl here ↦ elim (Bool-cases (e.same c.project_id project)) [
      | inl found ↦ rw here (rw found (larger_left c.next_number r.number))
      | inr other ↦ rw here (rw other (omega arith))
    ]
    | inr past ↦ elim (Bool-cases (e.same c.project_id project)) [
      | inl found ↦ rw past (rw found (omega arith))
      | inr other ↦ rw past (rw other (count_in_grows project cs))
    ]
  ]

  no_counter_in :
      (project : Text) (cs : List CounterRow)
      → e.same r.project_id project ≡ false
      → exists (is_counter e project) cs ≡ false
      → exists (is_counter e project) (count_in e r cs) ≡ false
  no_counter_in project [] apart none_yet = ||-false apart refl
  no_counter_in project (c ∷ cs) apart none_yet =
      let (here, more) =
        ||-eq-false (e.same c.project_id project) (exists (is_counter e project) cs) none_yet in
      elim (Bool-cases (e.same c.project_id r.project_id)) [
        | inl at_c ↦ rw at_c (||-false here more)
        | inr past_c ↦ rw past_c (||-false here (no_counter_in project cs apart more))
      ]

  count_in-Distinct :
      (cs : List CounterRow)
      → Distinct (same_counter e) cs
      → Distinct (same_counter e) (count_in e r cs)
  count_in-Distinct [] h = (refl, tt)
  count_in-Distinct (c ∷ cs) (first, others) =
      elim (Bool-cases (e.same c.project_id r.project_id)) [
        | inl at_c ↦ rw at_c (first, others)
        | inr past_c ↦ rw past_c (
          no_counter_in c.project_id cs (same_comm e r.project_id c.project_id ∙ past_c) first,
          count_in-Distinct cs others,
        )
      ]

module _ (e : Engine) where
  pub backfilled-Distinct : (rs : List TaskRow) → Distinct (same_counter e) (backfilled e rs)
  backfilled-Distinct [] = tt
  backfilled-Distinct (r ∷ rs) = count_in-Distinct e r (backfilled e rs) (backfilled-Distinct rs)

  abbrev Counted : List CounterRow → TaskRow → Type 0
  Counted counters r = r.number ≤ last_number e r.project_id counters

  still-Counted :
      (r : TaskRow) (counters : List CounterRow) (rs : List TaskRow)
      → All (Counted counters) rs
      → All (Counted (count_in e r counters)) rs
  still-Counted r counters [] h = tt
  still-Counted r counters (q ∷ rs) (given, more) = (
    omega (arith, given, count_in_grows e r q.project_id counters),
    still-Counted r counters rs more,
  )

  -- Every number that there is was given out, a deleted row's too.
  pub backfilled_counts :
      (rs : List TaskRow) → All (λ r. r.number ≤ last_number e r.project_id (backfilled e rs)) rs
  backfilled_counts [] = tt
  backfilled_counts (r ∷ rs) =
      (given_out e r (backfilled e rs), still-Counted r (backfilled e rs) rs (backfilled_counts rs))
