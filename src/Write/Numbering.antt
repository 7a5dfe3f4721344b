-- ===== src/Write/Numbering.antt =====
-- How `allocate_number` of src/write.rs counts: one counter for each project.
use task_db.Prelude.{
  ℕ, suc, ◌+◌, ltb, Text, true, false, Bool-cases, Option, none, some, List, [], ◌∷◌, find, ◌≡◌,
  refl, inl, inr, ap, sym, ◌∙◌, arith,
}
use mathlib.Core.Bool.{true≢false}
use task_db.Engine.{Engine, CounterRow, Db}
use task_db.Txn.{Session, SqlResult, done, failed, map_err, execute}
use task_db.Txn.Inversion.{Returns, Returns-bind, Returns-execute, done_injective}
use task_db.Tables.{
  bump_counter, read_counter, number_found, with_counters, next_counter, raised, behind, is_counter,
  u32_limit,
}
use task_db.Wire.{Wire}
use task_db.Write.Create.{allocate_number}

abbrev pub number_of : Option CounterRow → ℕ
number_of none = 0
number_of (some c) = c.next_number

-- The last number that a project has given out; 0 where it has given none.
abbrev pub last_number : Engine → Text → List CounterRow → ℕ
last_number e project cs = number_of (find (is_counter e project) cs)

-- The project's counter has moved by one, no other has, and it is still a number of 32 bits.
abbrev pub Advances : Engine → Text → List CounterRow → List CounterRow → Type 0
Advances e project before after =
    (last_number e project after ≡ suc (last_number e project before))
    × (ltb (last_number e project after) u32_limit ≡ true)
    × ((other : Text)
        → e.same project other ≡ false
        → last_number e other after ≡ last_number e other before)

module _ (e : Engine) (project : Text) where
  -- Two names that the collation tells apart have no counter in common.
  pub apart :
      (c : CounterRow) (other : Text)
      → e.same c.project_id project ≡ true
      → e.same project other ≡ false
      → e.same c.project_id other ≡ false
  apart c other here h = elim (Bool-cases (e.same c.project_id other)) [
    | inl both ↦ absurd (
        true≢false (
          sym (e.same_trans project c.project_id other (e.same_sym c.project_id project here) both)
          ∙ h))
    | inr different ↦ different
  ]

  pub raised-eq-done :
      (c : CounterRow) (cs : List CounterRow) {cs' : List CounterRow}
      → raised e c cs ≡ done cs'
      → (ltb (c.next_number + 1) u32_limit ≡ true)
        × (cs' ≡ record c { next_number = c.next_number + 1 } ∷ cs)
  raised-eq-done c cs {cs'} h = ground arith

  pub behind-eq-done :
      (c : CounterRow) (r : SqlResult (List CounterRow)) {cs' : List CounterRow}
      → behind c r ≡ done cs'
      → (cs : List CounterRow) × (r ≡ done cs) × (cs' ≡ c ∷ cs)
  behind-eq-done c (done cs) h = (cs, refl, ground arith)
  behind-eq-done c (failed x) h = cc

  pub next_counter-Advances :
      (cs : List CounterRow) {cs' : List CounterRow}
      → next_counter e project cs ≡ done cs'
      → Advances e project cs cs'
  next_counter-Advances [] {cs'} h =
      rw (← done_injective h) (rw (e.same_refl project) (refl, refl, λ other no. rw no refl))
  next_counter-Advances (c ∷ cs) {cs'} h = elim (Bool-cases (e.same c.project_id project)) [
    | inl here ↦
        let (small, cs'_is) = raised-eq-done c cs {cs' = cs'} (rw here at h) in
        rw cs'_is (rw here (ground arith, small, λ other no. rw (apart c other here no) refl))
    | inr there ↦
        let (more, rest, cs'_is) =
          behind-eq-done c (next_counter e project cs) {cs' = cs'} (rw there at h) in
        let (one, small, others) = next_counter-Advances cs {cs' = more} rest in
        rw cs'_is (
          rw there (
            one,
            small,
            λ other no. elim (Bool-cases (e.same c.project_id other)) [
              | inl at_c ↦ rw at_c refl
              | inr past_c ↦ rw past_c (others other no)
            ],
          ))
  ]

  module _ (w : Wire) where
    pub with_counters-eq-done :
        (db : Db) (r : SqlResult (List CounterRow)) {u : Unit {0}} {db' : Db}
        → with_counters db r ≡ done (u, db')
        → (cs : List CounterRow) × (r ≡ done cs) × (db' ≡ record db { counters = cs })
    with_counters-eq-done db (done cs) h = (cs, refl, ground arith)
    with_counters-eq-done db (failed x) h = cc

    pub number_found-eq-done :
        (o : Option CounterRow) (db : Db) {n : ℕ} {db' : Db}
        → number_found o db ≡ done (n, db')
        → (n ≡ number_of o) × (db' ≡ db)
    number_found-eq-done (some c) db {n} {db'} h = ground arith
    number_found-eq-done none db h = cc

    -- A number that was given out is the project's next one, and only its counter has moved.
    pub Returns-allocate_number :
        (s : Session) {n : ℕ} {t : Session}
        → Returns (allocate_number e w project) s n t
        → (cs : List CounterRow) × (n ≡ last_number e project cs)
          × Advances e project s.working.counters cs
          × (t.working ≡ record s.working { counters = cs })
    unfolding allocate_number bump_counter read_counter
    Returns-allocate_number s {n} {t} h =
        let (u, s1, bumped, rest) =
          Returns-bind (map_err (execute (bump_counter e project)))
            (λ u. map_err (execute (read_counter e project))) s {b = n} {t = t} h in
        let (ran, kept) = Returns-execute (bump_counter e project) s bumped in
        let (looked, kept2) = Returns-execute (read_counter e project) s1 rest in
        let (cs, moved, s1_is) =
          with_counters-eq-done s.working (next_counter e project s.working.counters) ran in
        let (n_is, t_is) =
          number_found-eq-done (find (is_counter e project) s1.working.counters) s1.working
            looked in
        (
          cs,
          n_is ∙ ap (λ x. last_number e project x.counters) s1_is,
          next_counter-Advances s.working.counters moved,
          t_is ∙ s1_is,
        )
