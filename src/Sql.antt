-- ===== src/Sql.antt =====
-- src/sql.rs: how a caller's reach becomes a WHERE clause with its bound parameters.
pub mod Where
pub mod Pattern
pub mod Axes
pub mod Granting
pub mod Access
pub mod Errors
mod Rendering
use task_db.Prelude.{
  ℕ, Text, codes, Bool, ◌||◌, Option, List, [], ◌∷◌, ◌++◌, map, length, is_empty, ◌==◌,
  if◌then◌else◌,
}
use task_db.Status.{Result, ok, refuse, scope_is_required, ok_or, ◌>>=◌}
use task_db.Proto.{InheritedSetting, Scope}
use task_db.Engine.{Value, text}
use task_db.Setting.{OwnerReach, reaches_nothing, owner_reach}
use Where.{
  Clause, project_id, owner_user_id, team_id, eq, like, in_holes, not_in_holes, is_visibility,
  not_in_visibilities, both, either, parens, team, org,
}

unfoldable pub scope_of : Option Scope → Result Scope
scope_of scope = ok_or scope (refuse scope_is_required)

-- The characters that LIKE reads: `\`, `%` and `_`.
abbrev pub is_meta : ℕ → Bool
is_meta c = c == 92 || c == 37 || c == 95

abbrev pub like_escape : Text → Text
like_escape [] = []
like_escape (c ∷ s) = let rest = like_escape s in if is_meta c then 92 ∷ c ∷ rest else c ∷ rest

unfoldable pub subtree : Text → Text
subtree project = like_escape project ++ codes "/%"

pub record Reach : Type 0 where
  pub project : Text
  pub below : Text
  pub user : Text
  pub teams : List Text
  pub setting : Option InheritedSetting

-- `Reach::of`
unfoldable pub reach_of : Scope → Reach
reach_of scope = record {
  project = scope.project_id;
  below = subtree scope.project_id;
  user = scope.user_id;
  teams = scope.team_ids;
  setting = scope.owner_reads_own_record;
}

unfoldable pub within : Reach → Clause
within reach = parens (either (eq project_id) (like project_id))

abbrev private_rung : Clause
private_rung = parens (both (not_in_visibilities team org) (eq owner_user_id))

abbrev team_rung : ℕ → Clause
team_rung n = parens (both (is_visibility team) (in_holes team_id n))

unfoldable pub visible : Reach → Clause
visible reach =
    let two_rungs = either (is_visibility org) private_rung in
    parens (
      if is_empty reach.teams then two_rungs else either two_rungs (team_rung (length reach.teams)))

unfoldable pub predicate : Reach → Clause
predicate reach = both (within reach) (visible reach)

pub record Readable : Type 0 where
  pub sql : Clause
  pub binds : List Text

-- The three shapes of ADR-0522's arm.
unfoldable pub with_arm : Clause → Text → OwnerReach → Readable
with_arm ladder user r =
    if reaches_nothing r
    then record { sql = parens ladder; binds = [] }
    else if is_empty r.exceptions
    then record { sql = parens (either ladder (eq owner_user_id)); binds = user ∷ [] }
    else record {
      sql = parens (
          either ladder (
            parens (
              both (eq owner_user_id) (
                if r.default_on
                then not_in_holes team_id (length r.exceptions)
                else in_holes team_id (length r.exceptions)))));
      binds = user ∷ r.exceptions;
    }

unfoldable pub readable : Reach → Result Readable
readable reach = do
  granted ← owner_reach reach.setting
  ok (with_arm (visible reach) reach.user granted)

unfoldable pub read_predicate : Reach → Result Readable
read_predicate reach = do
  arm ← readable reach
  ok (record { sql = both (within reach) arm.sql; binds = arm.binds })

-- A query is the list of the parameters bound so far, and `.bind(v)` puts one behind the others.
abbrev pub Query : Type 0
Query = List Value

abbrev pub bind_within : Reach → Query → Query
bind_within reach query = query ++ text reach.project ∷ text reach.below ∷ []

abbrev pub bind_visible : Reach → Query → Query
bind_visible reach query = query ++ text reach.user ∷ map text reach.teams

-- `Reach::bind`
abbrev pub bind : Reach → Query → Query
bind reach query = bind_visible reach (bind_within reach query)

-- `Readable::bind`
abbrev pub bind_readable : Readable → Query → Query
bind_readable clause query = query ++ map text clause.binds
