-- ===== src/History/Collation.antt =====
-- The tests of src/schema.rs's keys, which the collation of the columns makes equivalences.
use task_db.Prelude.{
  ℕ, ◌≤◌, ◌==◌, Text, Bool, true, false, ◌&&◌, Bool-cases, List, [], ◌∷◌, find, ◌≡◌, refl, sym, inl,
  inr, arith,
}
use task_db.Engine.{Engine, TaskRow, CounterRow, WriteRow}
use task_db.Txn.{done}
use task_db.Tables.{same_task_key, is_counter, next_counter}
use task_db.Write.Numbering.{last_number, next_counter-Advances}

bool_ext : (a b : Bool) → (a ≡ true → b ≡ true) → (b ≡ true → a ≡ true) → a ≡ b
bool_ext true b h k = sym (h refl)
bool_ext false true h k = k refl
bool_ext false false h k = refl

==_comm : (a b : ℕ) → (a == b) ≡ (b == a)
==_comm a b = ground arith

-- The primary key of `task_counter`, and that of `task_write`.
abbrev pub same_counter : Engine → CounterRow → CounterRow → Bool
same_counter e c d = e.same d.project_id c.project_id

abbrev pub same_claim : Engine → WriteRow → WriteRow → Bool
same_claim e w v =
    e.same v.project_id w.project_id && e.same v.user_id w.user_id && e.same v.idem_key w.idem_key

module _ (e : Engine) where
  pub same_comm : (a b : Text) → e.same a b ≡ e.same b a
  same_comm a b = bool_ext (e.same a b) (e.same b a) (e.same_sym a b) (e.same_sym b a)

  pub same_cong : (c p q : Text) → e.same p q ≡ true → e.same c p ≡ e.same c q
  same_cong c p q h =
      bool_ext (e.same c p) (e.same c q) (λ k. e.same_trans c p q k h)
        (λ k. e.same_trans c q p k (e.same_sym p q h))

  pub same_task_key_comm :
      (r q : TaskRow) → same_task_key e r q ≡ false → same_task_key e q r ≡ false
  same_task_key_comm r q h =
      rw (same_comm q.id r.id)
        (rw (same_comm q.project_id r.project_id) (rw (==_comm q.number r.number) h))

  pub same_claim_comm : (v w : WriteRow) → same_claim e v w ≡ false → same_claim e w v ≡ false
  same_claim_comm v w h =
      rw (same_comm v.project_id w.project_id)
        (rw (same_comm v.user_id w.user_id) (rw (same_comm v.idem_key w.idem_key) h))

  -- Two names of one project have one counter.
  find-cong :
      (p q : Text) (cs : List CounterRow)
      → e.same p q ≡ true
      → find (is_counter e p) cs ≡ find (is_counter e q) cs
  find-cong p q [] h = refl
  find-cong p q (c ∷ cs) h = rw (same_cong c.project_id p q h) (rw (find-cong p q cs h) refl)

  -- No allocation takes a number back, in any project.
  pub next_counter_grows :
      (project other : Text) (cs : List CounterRow) {cs' : List CounterRow}
      → next_counter e project cs ≡ done cs'
      → last_number e other cs ≤ last_number e other cs'
  next_counter_grows project other cs {cs'} h =
      let (one, small, others) = next_counter-Advances e project cs {cs' = cs'} h in
      elim (Bool-cases (e.same project other)) [
        | inl here ↦
            rw (← find-cong project other cs here)
              (rw (← find-cong project other cs' here) (omega (arith, one)))
        | inr elsewhere ↦ omega (arith, others other elsewhere)
      ]
