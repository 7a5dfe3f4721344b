-- ===== src/Sql/Where.antt =====
-- The conditions that the statements of src/ are built from: the text that `format!` renders, and
-- what the engine makes of it on a row, each `?` taking the next bound parameter from the left.
use Prim.Native.String.{String, ◌++◌ as ◌+++◌}
use task_db.Prelude.{
  ℕ, zero, suc, ℤ, pos, int_eq, Text, Bool, true, false, not, ◌&&◌, ◌||◌, Option, none, some, List,
  [], ◌∷◌, is_some, exists, ◌==◌, if◌then◌else◌,
}
use task_db.Engine.{Engine, TaskRow, Value, text, unsigned, tiny, same_value}

-- `enum Visibility`
pub data Visibility : Type 0 where
  unspecified private team org : Visibility

-- `v as i8`
abbrev pub rung : Visibility → ℤ
rung unspecified = pos 0
rung private = pos 1
rung team = pos 2
rung org = pos 3

pub data Column : Type 0 where
  id version project_id owner_user_id team_id visibility number status deleted_at : Column

pub data Clause : Type 0 where
  eq gt like is_null : Column → Clause
  in_holes not_in_holes : Column → ℕ → Clause
  is_visibility : Visibility → Clause
  not_in_visibilities : Visibility → Visibility → Clause
  both either : Clause → Clause → Clause
  parens : Clause → Clause

abbrev column_name : Column → String
column_name id = "id"
column_name version = "version"
column_name project_id = "project_id"
column_name owner_user_id = "owner_user_id"
column_name team_id = "team_id"
column_name visibility = "visibility"
column_name number = "number"
column_name status = "status"
column_name deleted_at = "deleted_at"

abbrev digit : Visibility → String
digit unspecified = "0"
digit private = "1"
digit team = "2"
digit org = "3"

-- `vec!["?"; n].join(", ")`
abbrev holes : ℕ → String
holes zero = ""
holes (suc zero) = "?"
holes (suc (suc n)) = "?, " +++ holes (suc n)

-- The text of a clause.
unfoldable pub render : Clause → String
render (eq c) = column_name c +++ " = ?"
render (gt c) = column_name c +++ " > ?"
render (like c) = column_name c +++ " LIKE ? ESCAPE '\\\\'"
render (is_null c) = column_name c +++ " IS NULL"
render (in_holes c n) = column_name c +++ " IN (" +++ holes n +++ ")"
render (not_in_holes c n) = column_name c +++ " NOT IN (" +++ holes n +++ ")"
render (is_visibility v) = "visibility = " +++ digit v
render (not_in_visibilities v w) = "visibility NOT IN (" +++ digit v +++ ", " +++ digit w +++ ")"
render (both p q) = render p +++ " AND " +++ render q
render (either p q) = render p +++ " OR " +++ render q
render (parens p) = "(" +++ render p +++ ")"

-- A pattern of LIKE, read with the backslash as its escape.
pub data Item : Type 0 where
  literal : ℕ → Item
  any_one any_many : Item

abbrev item : ℕ → Item
item c = if c == 37 then any_many else if c == 95 then any_one else literal c

abbrev pub items_from : Bool → Text → List Item
items_from true [] = literal 92 ∷ []
items_from true (c ∷ s) = literal c ∷ items_from false s
items_from false [] = []
items_from false (c ∷ s) =
    let escaped = items_from true s in
    let plain = item c ∷ items_from false s in if c == 92 then escaped else plain

-- A text against a pattern, up to the collation's comparison of characters.
abbrev pub fits : (ℕ → ℕ → Bool) → List Item → Text → Bool
fits same [] [] = true
fits same [] (d ∷ s) = false
fits same (literal c ∷ p) [] = false
fits same (literal c ∷ p) (d ∷ s) = same c d && fits same p s
fits same (any_one ∷ p) [] = false
fits same (any_one ∷ p) (d ∷ s) = fits same p s
fits same (any_many ∷ p) [] = fits same p []
fits same (any_many ∷ p) (d ∷ s) = fits same p (d ∷ s) || fits same (any_many ∷ p) s

abbrev pub like_text : (ℕ → ℕ → Bool) → Text → Text → Bool
like_text same pattern = fits same (items_from false pattern)

abbrev pub column : Column → TaskRow → Value
column id r = text r.id
column version r = unsigned r.version
column project_id r = text r.project_id
column owner_user_id r = text r.owner_user_id
column team_id r = text r.team_id
column visibility r = tiny r.visibility
column number r = unsigned r.number
column status r = tiny r.status
column deleted_at r = text []

abbrev is_null_value : Column → TaskRow → Bool
is_null_value deleted_at r = not (is_some r.deleted_at)
is_null_value c r = false

abbrev matches_like : Engine → Value → Value → Bool
matches_like e (text s) (text pattern) = like_text e.same_char pattern s
matches_like e v w = false

abbrev is_after : Engine → Value → Value → Bool
is_after e (text s) (text t) = e.before t s
is_after e v w = false

-- The next n parameters, and those after them.
abbrev pub split : ℕ → List Value → Option (List Value × List Value)
split zero vs = some ([], vs)
split (suc n) [] = none
split (suc n) (v ∷ vs) = elim (split n vs) [
  | none ↦ none
  | some (taken, rest) ↦ some (v ∷ taken, rest)
]

-- A clause on a row, with the parameters that it leaves; `none` where they ran out.
unfoldable pub eval : Engine → Clause → TaskRow → List Value → Option (Bool × List Value)
eval e (eq c) r [] = none
eval e (eq c) r (v ∷ vs) = some (same_value e (column c r) v, vs)
eval e (gt c) r [] = none
eval e (gt c) r (v ∷ vs) = some (is_after e (column c r) v, vs)
eval e (like c) r [] = none
eval e (like c) r (v ∷ vs) = some (matches_like e (column c r) v, vs)
eval e (is_null c) r vs = some (is_null_value c r, vs)
eval e (in_holes c n) r vs = elim (split n vs) [
  | none ↦ none
  | some (taken, rest) ↦ some (exists (same_value e (column c r)) taken, rest)
]
eval e (not_in_holes c n) r vs = elim (split n vs) [
  | none ↦ none
  | some (taken, rest) ↦ some (not (exists (same_value e (column c r)) taken), rest)
]
eval e (is_visibility v) r vs = some (int_eq r.visibility (rung v), vs)
eval e (not_in_visibilities v w) r vs =
    some (not (int_eq r.visibility (rung v) || int_eq r.visibility (rung w)), vs)
eval e (both p q) r vs = elim (eval e p r vs) [
  | none ↦ none
  | some (a, rest) ↦ elim (eval e q r rest) [ none ↦ none | some (b, last) ↦ some (a && b, last) ]
]
eval e (either p q) r vs = elim (eval e p r vs) [
  | none ↦ none
  | some (a, rest) ↦ elim (eval e q r rest) [ none ↦ none | some (b, last) ↦ some (a || b, last) ]
]
eval e (parens p) r vs = eval e p r vs
