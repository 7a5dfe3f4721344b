-- ===== src/Tests/Order.antt =====
-- The order of bytes, which the tests take for the collation's.
use task_db.Prelude.{
  ℕ, ltb, ◌==◌, Text, text_eq, text_le, text_eq_refl, Bool, true, false, not, ◌&&◌, ◌||◌, [], ◌∷◌,
  ◌≡◌, refl, ◌∙◌, sym, arith,
}
use task_db.Read.Ordering.{IsOrder}
use task_db.Tests.Fixtures.{binary}

abbrev before : Text → Text → Bool
before s t = text_le s t && not (text_eq s t)

before-cons : (a b : ℕ) (s t : Text) → before (a ∷ s) (b ∷ t) ≡ (ltb a b || (a == b && before s t))
before-cons a b s t = ground arith

step :
    (a b c : ℕ) (p q r : Bool)
    → (p ≡ true → q ≡ true → r ≡ true)
    → (ltb a b || (a == b && p)) ≡ true
    → (ltb b c || (b == c && q)) ≡ true
    → (ltb a c || (a == c && r)) ≡ true
step a b c true true r h k l = ground (arith, h refl refl, k, l)
step a b c true false r h k l = ground (arith, k, l)
step a b c false q r h k l = ground (arith, k, l)

transitive : (s t u : Text) → before s t ≡ true → before t u ≡ true → before s u ≡ true
transitive [] [] u h k = cc
transitive [] (b ∷ t) [] h k = cc
transitive [] (b ∷ t) (c ∷ u) h k = refl
transitive (a ∷ s) [] u h k = cc
transitive (a ∷ s) (b ∷ t) [] h k = cc
transitive (a ∷ s) (b ∷ t) (c ∷ u) h k =
    before-cons a c s u
    ∙ step a b c (before s t) (before t u) (before s u) (transitive s t u)
        (sym (before-cons a b s t) ∙ h) (sym (before-cons b c t u) ∙ k)

chosen :
    (a b : ℕ) (same p q : Bool)
    → (same ≡ false → p ≡ false → q ≡ true)
    → (a == b && same) ≡ false
    → (ltb a b || (a == b && p)) ≡ false
    → (ltb b a || (b == a && q)) ≡ true
chosen a b false false q h k l = ground (arith, h refl refl, k, l)
chosen a b false true q h k l = ground (arith, k, l)
chosen a b true p q h k l = ground (arith, k, l)

total : (s t : Text) → text_eq s t ≡ false → before s t ≡ false → before t s ≡ true
total [] [] h k = cc
total [] (b ∷ t) h k = cc
total (a ∷ s) [] h k = refl
total (a ∷ s) (b ∷ t) h k =
    before-cons b a t s
    ∙ chosen a b (text_eq s t) (before s t) (before t s) (total s t) h
        (sym (before-cons a b s t) ∙ k)

irreflexive : (s : Text) → before s s ≡ false
irreflexive s = rw (text_eq_refl s) (ground arith)

pub binary-IsOrder : IsOrder binary
binary-IsOrder = record { irreflexive = irreflexive; transitive = transitive; total = total }
