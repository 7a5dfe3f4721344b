-- ===== src/History/Distinct.antt =====
-- Lists no two of whose elements are the same to a test: the rows of a table under its key.
use task_db.Prelude.{
  Bool, false, ◌||◌, List, [], ◌∷◌, ◌++◌, map, exists, All, ◌≡◌, refl, ◌∙◌, arith,
}

pub ||-eq-false : (a b : Bool) → (a || b) ≡ false → (a ≡ false) × (b ≡ false)
||-eq-false a b h = ground arith

pub ||-false : {a b : Bool} → a ≡ false → b ≡ false → (a || b) ≡ false
||-false h k = rw h k

module _ {A : Type 0} where
  pub exists-append :
      (p : A → Bool) (xs : List A) (y : A)
      → exists p xs ≡ false
      → p y ≡ false
      → exists p (xs ++ y ∷ []) ≡ false
  exists-append p [] y h k = ||-false k refl
  exists-append p (x ∷ xs) y h k =
      let (here, more) = ||-eq-false (p x) (exists p xs) h in
      ||-false here (exists-append p xs y more k)

  pub All-append : (P : A → Type 0) (xs : List A) (y : A) → All P xs → P y → All P (xs ++ y ∷ [])
  All-append P [] y h k = (k, tt)
  All-append P (x ∷ xs) y (here, more) k = (here, All-append P xs y more k)

  pub All-map :
      (P Q : A → Type 0) (f : A → A) (xs : List A)
      → All P xs
      → ((x : A) → P x → Q (f x))
      → All Q (map f xs)
  All-map P Q f [] h k = tt
  All-map P Q f (x ∷ xs) (here, more) k = (k x here, All-map P Q f xs more k)

  module _ (same : A → A → Bool) where
    abbrev pub Distinct : List A → Type 0
    Distinct [] = Unit
    Distinct (x ∷ xs) = (exists (same x) xs ≡ false) × Distinct xs

    -- One more row, which the table does not have.
    pub Distinct-append :
        ((x y : A) → same x y ≡ false → same y x ≡ false)
        → (xs : List A) (y : A) → Distinct xs
        → exists (same y) xs ≡ false
        → Distinct (xs ++ y ∷ [])
    Distinct-append symmetric [] y h k = (refl, tt)
    Distinct-append symmetric (x ∷ xs) y (first, more) k =
        let (here, rest) = ||-eq-false (same y x) (exists (same y) xs) k in
        (
          exists-append (same x) xs y first (symmetric y x here),
          Distinct-append symmetric xs y more rest,
        )

    module _ (f : A → A) (keeps : (x y : A) → same (f x) (f y) ≡ same x y) where
      exists-map : (x : A) (xs : List A) → exists (same (f x)) (map f xs) ≡ exists (same x) xs
      exists-map x [] = refl
      exists-map x (y ∷ ys) = rw (keeps x y) (rw (exists-map x ys) refl)

      -- A statement that leaves the key's columns alone.
      pub Distinct-map : (xs : List A) → Distinct xs → Distinct (map f xs)
      Distinct-map [] h = tt
      Distinct-map (x ∷ xs) (first, more) = (exists-map x xs ∙ first, Distinct-map xs more)
