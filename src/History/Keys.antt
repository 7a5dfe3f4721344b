-- ===== src/History/Keys.antt =====
-- What the statements of src/write.rs and src/idem.rs do to the keys of src/schema.rs's tables.
use task_db.Prelude.{
  ℕ, Text, Bool, false, Bool-cases, List, [], ◌∷◌, ◌++◌, map, exists, if◌then◌else◌, ◌≡◌, refl, ◌∙◌,
  ap, inl, inr, arith,
}
use task_db.Proto.{Scope}
use task_db.Engine.{Engine, TaskRow, CounterRow, WriteRow, Db}
use task_db.Txn.{done}
use task_db.Txn.Inversion.{done_injective}
use task_db.Tables.{insert_claim, is_claim, is_counter, set_response, next_counter}
use task_db.Write.Numbering.{raised-eq-done, behind-eq-done}
use task_db.Write.Selection.{set_where}
use task_db.History.Collation.{same_counter, same_claim, same_comm}
use task_db.History.Distinct.{Distinct, ||-eq-false, ||-false}

module _ (test : TaskRow → Bool) (f : TaskRow → TaskRow) where
  abbrev pub at_test : TaskRow → TaskRow
  at_test r = if test r then f r else r

  pub set_where-eq-map : (rs : List TaskRow) → set_where test f rs ≡ map at_test rs
  set_where-eq-map [] = refl
  set_where-eq-map (r ∷ rs) = ap (λ l. at_test r ∷ l) (set_where-eq-map rs)

module _ (e : Engine) where
  pub claim_inserted :
      (scope : Scope) (key : Text) (v : WriteRow) (db : Db) {u : Unit {0}} {after : Db}
      → insert_claim e scope key v db ≡ done (u, after)
      → (exists (is_claim e scope key) db.writes ≡ false)
        × (after ≡ record db { writes = db.writes ++ v ∷ [] })
  unfolding insert_claim
  claim_inserted scope key v db h = ground arith

  abbrev pub with_response : Scope → Text → List ℕ → WriteRow → WriteRow
  with_response scope key bytes v =
      if is_claim e scope key v then record v { response = bytes } else v

  pub set_response-eq-map :
      (scope : Scope) (key : Text) (bytes : List ℕ) (vs : List WriteRow)
      → set_response e scope key bytes vs ≡ map (with_response scope key bytes) vs
  set_response-eq-map scope key bytes [] = refl
  set_response-eq-map scope key bytes (v ∷ vs) =
      ap (λ l. with_response scope key bytes v ∷ l) (set_response-eq-map scope key bytes vs)

  pub same_claim-with_response :
      (scope : Scope) (key : Text) (bytes : List ℕ) (v u : WriteRow)
      → same_claim e (with_response scope key bytes v) (with_response scope key bytes u)
        ≡ same_claim e v u
  same_claim-with_response scope key bytes v u = elim (Bool-cases (is_claim e scope key v)) [
    | inl hv ↦ elim (Bool-cases (is_claim e scope key u)) [
      | inl hu ↦ rw hv (rw hu refl)
      | inr hu ↦ rw hv (rw hu refl)
    ]
    | inr hv ↦ elim (Bool-cases (is_claim e scope key u)) [
      | inl hu ↦ rw hv (rw hu refl)
      | inr hu ↦ rw hv (rw hu refl)
    ]
  ]

  module _ (project : Text) where
    -- A project that had no counter has none after another project's has moved.
    no_counter :
        (other : Text) (cs : List CounterRow) {cs' : List CounterRow}
        → next_counter e project cs ≡ done cs'
        → e.same project other ≡ false
        → exists (is_counter e other) cs ≡ false
        → exists (is_counter e other) cs' ≡ false
    no_counter other [] h k none_yet = rw (← done_injective h) (||-false k refl)
    no_counter other (c ∷ cs) {cs'} h k none_yet =
        let (here, more) =
          ||-eq-false (e.same c.project_id other) (exists (is_counter e other) cs) none_yet in
        elim (Bool-cases (e.same c.project_id project)) [
          | inl at_c ↦
              let (small, cs'_is) = raised-eq-done e project c cs {cs' = cs'} (rw at_c at h) in
              rw cs'_is (||-false here more)
          | inr past_c ↦
              let (cs'', rest, cs'_is) =
                behind-eq-done e project c (next_counter e project cs) {cs' = cs'}
                  (rw past_c at h) in
              rw cs'_is (||-false here (no_counter other cs rest k more))
        ]

    pub next_counter-Distinct :
        (cs : List CounterRow) {cs' : List CounterRow}
        → next_counter e project cs ≡ done cs'
        → Distinct (same_counter e) cs
        → Distinct (same_counter e) cs'
    next_counter-Distinct [] h k = rw (← done_injective h) (refl, tt)
    next_counter-Distinct (c ∷ cs) {cs'} h (first, others) =
        elim (Bool-cases (e.same c.project_id project)) [
          | inl at_c ↦
              let (small, cs'_is) = raised-eq-done e project c cs {cs' = cs'} (rw at_c at h) in
              rw cs'_is (first, others)
          | inr past_c ↦
              let (cs'', rest, cs'_is) =
                behind-eq-done e project c (next_counter e project cs) {cs' = cs'}
                  (rw past_c at h) in
              rw cs'_is (
                no_counter c.project_id cs rest (same_comm e project c.project_id ∙ past_c) first,
                next_counter-Distinct cs rest others,
              )
        ]
