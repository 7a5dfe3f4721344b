-- ===== src/History/Extends.antt =====
-- Tables that grow at their end: each row stays where it is, as what a relation allows it to become.
use task_db.Prelude.{List, [], ◌∷◌, ◌++◌, map}

module _ {A : Type 0} (R : A → A → Type 0) where
  abbrev pub Extends : List A → List A → Type 0
  Extends [] ys = Unit
  Extends (x ∷ xs) [] = ⊥
  Extends (x ∷ xs) (y ∷ ys) = R x y × Extends xs ys

  pub Extends-refl : ((x : A) → R x x) → (xs : List A) → Extends xs xs
  Extends-refl same [] = tt
  Extends-refl same (x ∷ xs) = (same x, Extends-refl same xs)

  pub Extends-append : (xs ys : List A) (z : A) → Extends xs ys → Extends xs (ys ++ z ∷ [])
  Extends-append [] ys z h = tt
  Extends-append (x ∷ xs) [] z h = absurd h
  Extends-append (x ∷ xs) (y ∷ ys) z (here, more) = (here, Extends-append xs ys z more)

  -- One more change to each row of the later table.
  pub Extends-map :
      (f : A → A)
      → ((x y : A) → R x y → R x (f y))
      → (xs ys : List A) → Extends xs ys
      → Extends xs (map f ys)
  Extends-map f step [] ys h = tt
  Extends-map f step (x ∷ xs) [] h = absurd h
  Extends-map f step (x ∷ xs) (y ∷ ys) (here, more) = (step x y here, Extends-map f step xs ys more)
