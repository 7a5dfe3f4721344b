-- ===== src/Sql/Pattern.antt =====
-- D53: a project's LIKE pattern matches its subtree and nothing else, whatever its characters.
use task_db.Prelude.{
  ℕ, Text, codes, Bool, true, false, ◌&&◌, [], ◌∷◌, ◌++◌, map, starts_with, ◌≡◌, refl, ap, arith,
}
use task_db.Sql.{like_escape, subtree}
use task_db.Sql.Where.{literal, any_many, items_from, fits, like_text}

-- An escaped text is read as its own characters.
items-like_escape :
    (s t : Text) → items_from false (like_escape s ++ t) ≡ map literal s ++ items_from false t
items-like_escape [] t = refl
items-like_escape (c ∷ s) t = ground (arith, items-like_escape s t)

fits-any_many : (same : ℕ → ℕ → Bool) (s : Text) → fits same (any_many ∷ []) s ≡ true
fits-any_many same [] = refl
fits-any_many same (d ∷ s) = ground (arith, fits-any_many same s)

fits-literals :
    (same : ℕ → ℕ → Bool) (p s : Text)
    → fits same (map literal p ++ any_many ∷ []) s ≡ starts_with same p s
fits-literals same [] s = fits-any_many same s
fits-literals same (c ∷ p) [] = refl
fits-literals same (c ∷ p) (d ∷ s) = ap (λ b. same c d && b) (fits-literals same p s)

map-append_slash :
    (p : Text)
    → map literal p ++ literal 47 ∷ any_many ∷ [] ≡ map literal (p ++ 47 ∷ []) ++ any_many ∷ []
map-append_slash [] = refl
map-append_slash (c ∷ p) = ap (λ l. literal c ∷ l) (map-append_slash p)

-- A text is LIKE the pattern of a project exactly when it begins with the project's characters and
-- a slash, whatever wildcards or backslashes the project's name holds.
pub like-subtree :
    (same : ℕ → ℕ → Bool) (project s : Text)
    → like_text same (subtree project) s ≡ starts_with same (project ++ codes "/") s
unfolding subtree
like-subtree same project s =
    rw (items-like_escape project (47 ∷ 37 ∷ []))
      (rw (map-append_slash project) (fits-literals same (project ++ 47 ∷ []) s))
