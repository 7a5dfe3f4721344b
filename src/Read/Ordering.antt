-- ===== src/Read/Ordering.antt =====
-- `ORDER BY id` of src/read.rs, and where the rows after a page begin.
use task_db.Prelude.{
  ◌==◌, Text, Bool, true, false, ◌&&◌, Bool-cases, List, [], ◌∷◌, keep, exists, All, if◌then◌else◌,
  ◌≡◌, refl, ◌∙◌, sym, ap, inl, inr,
}
use mathlib.Core.Bool.{true≢false}
use task_db.Engine.{Engine, TaskRow}
use task_db.Tables.{same_task_key}
use task_db.Read.{insert_by_id, order_by_id}
use task_db.History.Collation.{same_comm}
use task_db.History.Distinct.{Distinct, ||-eq-false}

-- The collation's `<`, as MariaDB documents an order.
pub record IsOrder (e : Engine) : Type 0 where
  pub irreflexive : (s : Text) → e.before s s ≡ false
  pub transitive : (s t u : Text) → e.before s t ≡ true → e.before t u ≡ true → e.before s u ≡ true
  pub total : (s t : Text) → e.same s t ≡ false → e.before s t ≡ false → e.before t s ≡ true

module _ (e : Engine) where
  abbrev pub Precedes : TaskRow → TaskRow → Type 0
  Precedes r q = e.before r.id q.id ≡ true

  abbrev pub Sorted : List TaskRow → Type 0
  Sorted [] = Unit
  Sorted (r ∷ rs) = All (Precedes r) rs × Sorted rs

  All-insert_by_id :
      (Q : TaskRow → Type 0) (r : TaskRow) (qs : List TaskRow)
      → Q r
      → All Q qs
      → All Q (insert_by_id e r qs)
  All-insert_by_id Q r [] h k = (h, tt)
  All-insert_by_id Q r (q ∷ qs) h (here, more) = elim (Bool-cases (e.before q.id r.id)) [
    | inl later ↦ rw later (here, All-insert_by_id Q r qs h more)
    | inr first ↦ rw first (h, (here, more))
  ]

  pub All-order_by_id :
      (Q : TaskRow → Type 0) (rs : List TaskRow) → All Q rs → All Q (order_by_id e rs)
  unfolding order_by_id
  All-order_by_id Q [] h = tt
  All-order_by_id Q (r ∷ rs) (here, more) =
      All-insert_by_id Q r (order_by_id e rs) here (All-order_by_id Q rs more)

  module _ (order : IsOrder e) where
    pub asymmetric : (s t : Text) → e.before s t ≡ true → e.before t s ≡ false
    asymmetric s t h = elim (Bool-cases (e.before t s)) [
      | inl back ↦ absurd (true≢false (sym (order.transitive s t s h back) ∙ order.irreflexive s))
      | inr no_more ↦ no_more
    ]

    All-Precedes :
        (r q : TaskRow) (qs : List TaskRow)
        → Precedes r q
        → All (Precedes q) qs
        → All (Precedes r) qs
    All-Precedes r q [] h k = tt
    All-Precedes r q (p ∷ qs) h (here, more) =
        (order.transitive r.id q.id p.id h here, All-Precedes r q qs h more)

    insert_by_id-Sorted :
        (r : TaskRow) (qs : List TaskRow)
        → All (λ q. e.same q.id r.id ≡ false) qs
        → Sorted qs
        → Sorted (insert_by_id e r qs)
    insert_by_id-Sorted r [] apart h = (tt, tt)
    insert_by_id-Sorted r (q ∷ qs) (here, apart) (first, others) =
        elim (Bool-cases (e.before q.id r.id)) [
          | inl later ↦ rw later (
            All-insert_by_id (Precedes q) r qs later first,
            insert_by_id-Sorted r qs apart others,
          )
          | inr front ↦
              let precedes = order.total q.id r.id here front in
              rw front ((precedes, All-Precedes r q qs precedes first), (first, others))
        ]

    ids_apart :
        (r : TaskRow) (rs : List TaskRow)
        → exists (same_task_key e r) rs ≡ false
        → All (λ q. e.same q.id r.id ≡ false) rs
    ids_apart r [] h = tt
    ids_apart r (q ∷ rs) h =
        let (here, more) = ||-eq-false (same_task_key e r q) (exists (same_task_key e r) rs) h in
        let (ids, numbers) =
          ||-eq-false (e.same r.id q.id) (e.same r.project_id q.project_id && r.number == q.number)
            here in
        (same_comm e q.id r.id ∙ ids, ids_apart r rs more)

    pub order_by_id-Sorted :
        (rs : List TaskRow) → Distinct (same_task_key e) rs → Sorted (order_by_id e rs)
    unfolding order_by_id
    order_by_id-Sorted [] h = tt
    order_by_id-Sorted (r ∷ rs) (first, others) =
        insert_by_id-Sorted r (order_by_id e rs)
          (All-order_by_id (λ q. e.same q.id r.id ≡ false) rs (ids_apart r rs first))
          (order_by_id-Sorted rs others)

    -- A filter before the order is one after it.
    module _ (p : TaskRow → Bool) where
      insert_before :
          (r : TaskRow) (qs : List TaskRow)
          → All (λ q. e.before q.id r.id ≡ false) qs
          → insert_by_id e r qs ≡ r ∷ qs
      insert_before r [] h = refl
      insert_before r (q ∷ qs) (here, more) = rw here refl

      pub All-keep : (Q : TaskRow → Type 0) (qs : List TaskRow) → All Q qs → All Q (keep p qs)
      All-keep Q [] h = tt
      All-keep Q (q ∷ qs) (here, more) = elim (Bool-cases (p q)) [
        | inl hit ↦ rw hit (here, All-keep Q qs more)
        | inr miss ↦ rw miss (All-keep Q qs more)
      ]

      pub keep-Sorted : (qs : List TaskRow) → Sorted qs → Sorted (keep p qs)
      keep-Sorted [] h = tt
      keep-Sorted (q ∷ qs) (first, others) = elim (Bool-cases (p q)) [
        | inl hit ↦ rw hit (All-keep (Precedes q) qs first, keep-Sorted qs others)
        | inr miss ↦ rw miss (keep-Sorted qs others)
      ]

      none_before :
          (r : TaskRow) (qs : List TaskRow)
          → All (Precedes r) qs
          → All (λ q. e.before q.id r.id ≡ false) qs
      none_before r [] h = tt
      none_before r (q ∷ qs) (here, more) = (asymmetric r.id q.id here, none_before r qs more)

      keep-insert_by_id :
          (r : TaskRow) (qs : List TaskRow)
          → All (λ q. e.same q.id r.id ≡ false) qs
          → Sorted qs
          → keep p (insert_by_id e r qs) ≡ (if p r then insert_by_id e r (keep p qs) else keep p qs)
      keep-insert_by_id r [] apart h = refl
      keep-insert_by_id r (q ∷ qs) (here, apart) (first, others) =
          elim (Bool-cases (e.before q.id r.id)) [
            | inl later ↦
                let rest = keep-insert_by_id r qs apart others in
                elim (Bool-cases (p r)) [
                  | inl hit ↦ elim (Bool-cases (p q)) [
                    | inl qin ↦
                        rw later (rw qin (rw hit (rw later (ap (λ l. q ∷ l) (rw hit at rest)))))
                    | inr qout ↦ rw later (rw qout (rw hit (rw hit at rest)))
                  ]
                  | inr miss ↦ elim (Bool-cases (p q)) [
                    | inl qin ↦ rw later (rw qin (rw miss (ap (λ l. q ∷ l) (rw miss at rest))))
                    | inr qout ↦ rw later (rw qout (rw miss (rw miss at rest)))
                  ]
                ]
            | inr front ↦
                let precedes = order.total q.id r.id here front in
                let after : All (Precedes r) (q ∷ qs) =
                  (precedes, All-Precedes r q qs precedes first) in
                elim (Bool-cases (p r)) [
                  | inl hit ↦ rw front (
                      rw hit (
                        sym (
                          insert_before r (keep p (q ∷ qs)) (
                            none_before r (keep p (q ∷ qs))
                              (All-keep (Precedes r) (q ∷ qs) after)))))
                  | inr miss ↦ rw front (rw miss refl)
                ]
          ]

      pub keep-order_by_id :
          (rs : List TaskRow)
          → Distinct (same_task_key e) rs
          → keep p (order_by_id e rs) ≡ order_by_id e (keep p rs)
      unfolding order_by_id
      keep-order_by_id [] h = refl
      keep-order_by_id (r ∷ rs) (first, others) =
          let rest = keep-order_by_id rs others in
          let inserted =
            keep-insert_by_id r (order_by_id e rs)
              (All-order_by_id (λ q. e.same q.id r.id ≡ false) rs (ids_apart r rs first))
              (order_by_id-Sorted rs others) in
          elim (Bool-cases (p r)) [
            | inl hit ↦ inserted ∙ rw hit (ap (insert_by_id e r) rest)
            | inr miss ↦ inserted ∙ rw miss rest
          ]
