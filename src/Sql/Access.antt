-- ===== src/Sql/Access.antt =====
-- What the clauses of src/sql.rs grant, against the two axes of D53.
use task_db.Prelude.{
  zero, suc, ℤ, pos, negsuc, int_eq, Text, Bool, true, false, not, ◌&&◌, ◌||◌, Option, some, List,
  [], ◌∷◌, ◌++◌, map, length, exists, if◌then◌else◌, ◌≡◌, refl, ap, ◌∙◌, arith,
}
use task_db.Status.{ok, >>=-eq-ok, ok-injective}
use task_db.Proto.{InheritedSetting, Scope}
use task_db.Engine.{Engine, TaskRow, Value, text, same_value}
use task_db.Setting.{OwnerReach, owner_reach, resolve, mem, keys}
use task_db.Sql.{
  reach_of, within, visible, predicate, Readable, with_arm, readable, read_predicate, subtree, bind,
  bind_readable,
}
use task_db.Sql.Granting.{grants-eq-exceptions, may_read-eq-resolved, may_read_by_collation}
use task_db.Sql.Axes.{
  lives_within, owns, ladder, may_edit, is_granted, by_default, may_see, may_read,
  may_read_resolved, Separates,
}
use task_db.Sql.Where.{Clause, split, eval, both}
use mathlib.Core.List.{append_assoc}
use task_db.Sql.Pattern.{like-subtree}

split-map :
    (ts : List Text) (rest : List Value)
    → split (length ts) (map text ts ++ rest) ≡ some (map text ts, rest)
split-map [] rest = refl
split-map (t ∷ ts) rest = rw (split-map ts rest)

exists-map :
    (e : Engine) (a : Text) (ts : List Text)
    → exists (same_value e (text a)) (map text ts) ≡ exists (e.same a) ts
exists-map e a [] = refl
exists-map e a (t ∷ ts) = ap (λ b. e.same a t || b) (exists-map e a ts)

module _ (e : Engine) (r : TaskRow) where
  pub eval-both :
      (p q : Clause) (vs : List Value) {rest last : List Value} {a b : Bool}
      → eval e p r vs ≡ some (a, rest)
      → eval e q r rest ≡ some (b, last)
      → eval e (both p q) r vs ≡ some (a && b, last)
  unfolding eval
  eval-both p q vs hp hq = rw hp (rw hq refl)

  pub eval-within :
      (scope : Scope) (rest : List Value)
      → eval e
          (within (reach_of scope))
          r
          (text scope.project_id ∷ text (subtree scope.project_id) ∷ rest)
        ≡ some (lives_within e scope r, rest)
  unfolding eval within reach_of
  eval-within scope rest = rw like-subtree

  eval-visible_clause :
      (project below user : Text) (teams : List Text) (setting : Option InheritedSetting)
      (rest : List Value)
      → eval e
          (visible (record {
            project = project;
            below = below;
            user = user;
            teams = teams;
            setting = setting;
          }))
          r
          (text user ∷ (map text teams ++ rest))
        ≡ some (
          int_eq r.visibility (pos 3)
              || (not (int_eq r.visibility (pos 2) || int_eq r.visibility (pos 3))
                  && e.same r.owner_user_id user)
              || (int_eq r.visibility (pos 2) && exists (e.same r.team_id) teams),
          rest,
        )
  unfolding eval visible
  eval-visible_clause project below user [] setting rest = ground arith
  eval-visible_clause project below user (t ∷ ts) setting rest =
      rw (split-map ts rest) (rw (exists-map e r.team_id ts) refl)

  rungs-eq-ladder :
      (scope : Scope) (v : ℤ)
      → (int_eq v (pos 3)
          || (not (int_eq v (pos 2) || int_eq v (pos 3)) && e.same r.owner_user_id scope.user_id)
          || (int_eq v (pos 2) && exists (e.same r.team_id) scope.team_ids))
        ≡ ladder e scope r v
  rungs-eq-ladder scope (pos zero) = ground arith
  rungs-eq-ladder scope (pos (suc zero)) = ground arith
  rungs-eq-ladder scope (pos (suc (suc zero))) = ground arith
  rungs-eq-ladder scope (pos (suc (suc (suc zero)))) = ground arith
  rungs-eq-ladder scope (pos (suc (suc (suc (suc n))))) = ground arith
  rungs-eq-ladder scope (negsuc n) = ground arith

  eval-visible :
      (scope : Scope) (rest : List Value)
      → eval e (visible (reach_of scope)) r (text scope.user_id ∷ (map text scope.team_ids ++ rest))
        ≡ some (ladder e scope r r.visibility, rest)
  unfolding reach_of
  eval-visible scope rest =
      eval-visible_clause scope.project_id (subtree scope.project_id) scope.user_id scope.team_ids
        scope.owner_reads_own_record rest
      ∙ ap (λ b. some (b, rest)) (rungs-eq-ladder scope r.visibility)

  -- The arm on a ladder whose parameters stand before it.
  eval-with_arm :
      (clause : Clause) (before : List Value → List Value) (b : Bool) (user : Text) (d : Bool)
      (names : List Text) (rest : List Value)
      → ((after : List Value) → eval e clause r (before after) ≡ some (b, after))
      → let arm = with_arm clause user (record { default_on = d; exceptions = names }) in
        eval e arm.sql r (before (map text arm.binds ++ rest))
        ≡ some (
          b
              || (e.same r.owner_user_id user
                  && (if exists (e.same r.team_id) names then not d else d)),
          rest,
        )
  unfolding eval with_arm
  eval-with_arm clause before b user false [] rest h = rw h (ground arith)
  eval-with_arm clause before b user true [] rest h = rw h (ground arith)
  eval-with_arm clause before b user false (t ∷ ts) rest h =
      rw h (rw (split-map ts rest) (rw (exists-map e r.team_id ts) (ground arith)))
  eval-with_arm clause before b user true (t ∷ ts) rest h =
      rw h (rw (split-map ts rest) (rw (exists-map e r.team_id ts) (ground arith)))

-- The ladder with ADR-0522's arm, on the parameters that the binders put there.
pub eval-readable :
    (e : Engine) (scope : Scope) (r : TaskRow) (rest : List Value) {clause : Readable}
    → readable (reach_of scope) ≡ ok clause
    → eval e clause.sql r
        (text scope.user_id ∷ (map text scope.team_ids ++ (map text clause.binds ++ rest)))
      ≡ some (may_see e scope r, rest)
unfolding readable reach_of
eval-readable e scope r rest {clause} h =
    let (g, reached, made) = >>=-eq-ok (owner_reach scope.owner_reads_own_record) _ h in
    let granted = grants-eq-exceptions e scope.owner_reads_own_record r.team_id {g = g} reached in
    let shown =
      eval-with_arm e r (visible (reach_of scope))
        (λ after. text scope.user_id ∷ (map text scope.team_ids ++ after))
        (ladder e scope r r.visibility) scope.user_id g.default_on g.exceptions rest
        (eval-visible e r scope) in
    rw (← ok-injective made) (
      shown ∙ ap (λ b. some (ladder e scope r r.visibility || (owns e scope r && b), rest)) granted)

-- The WHERE clause of an edit, with the parameters that `Reach::bind` puts into its holes, holds of
-- exactly the rows in the caller's project or its subtree that the D12 ladder shows the caller. The
-- parameters after them are left for the rest of the statement.
pub predicate-eq-may_edit :
    (e : Engine) (scope : Scope) (r : TaskRow) (rest : List Value)
    → eval e (predicate (reach_of scope)) r (bind (reach_of scope) [] ++ rest)
      ≡ some (may_edit e scope r, rest)
unfolding eval predicate reach_of
predicate-eq-may_edit e scope r rest =
    eval-both e r (within (reach_of scope)) (visible (reach_of scope))
      (bind (reach_of scope) [] ++ rest)
      (eval-within e r scope (text scope.user_id ∷ (map text scope.team_ids ++ rest)))
      (eval-visible e r scope rest)

-- The WHERE clause of a read, when the setting is stated, holds of exactly the rows in the caller's
-- project or its subtree that the D12 ladder shows the caller, or that the caller owns and for
-- whose team ADR-0522's setting grants it, teams being compared as the engine compares them. The
-- parameters after those of the clause are left.
pub read_predicate-eq-may_read :
    (e : Engine) (scope : Scope) (r : TaskRow) (rest : List Value) {clause : Readable}
    → read_predicate (reach_of scope) ≡ ok clause
    → eval e clause.sql r (bind_readable clause (bind (reach_of scope) []) ++ rest)
      ≡ some (may_read e scope r, rest)
unfolding read_predicate reach_of
read_predicate-eq-may_read e scope r rest {clause} h =
    let (arm, found, made) = >>=-eq-ok (readable (reach_of scope)) _ h in
    rw (← ok-injective made) (
      rw (append_assoc (map text scope.team_ids) (map text arm.binds) rest) (
        eval-both e r (within (reach_of scope)) arm.sql
          (text scope.project_id
            ∷ text (subtree scope.project_id)
            ∷ text scope.user_id
            ∷ (map text scope.team_ids ++ (map text arm.binds ++ rest)))
          (eval-within e r scope
            (text scope.user_id ∷ (map text scope.team_ids ++ (map text arm.binds ++ rest))))
          (eval-readable e scope r rest found)))

-- Where the collation tells the row's team from the teams that the setting names just as `==` does,
-- the WHERE clause of a read holds of exactly the rows in the caller's project or its subtree that the
-- D12 ladder shows the caller, or that the caller owns and for whose team `resolve` answers ON.
pub read_predicate-eq-resolved :
    (e : Engine) (scope : Scope) (r : TaskRow) (rest : List Value) {g : OwnerReach}
    {clause : Readable}
    → Separates e scope.owner_reads_own_record r.team_id
    → owner_reach scope.owner_reads_own_record ≡ ok g
    → read_predicate (reach_of scope) ≡ ok clause
    → eval e clause.sql r (bind_readable clause (bind (reach_of scope) []) ++ rest)
      ≡ some (may_read_resolved e scope r, rest)
read_predicate-eq-resolved e scope r rest {g} {clause} sep reached h =
    read_predicate-eq-may_read e scope r rest {clause = clause} h
    ∙ ap (λ b. some (b, rest)) (may_read-eq-resolved e scope r {g = g} sep reached)

-- Where the collation takes the row's team for a team that the setting names ON, while the default is
-- OFF and `resolve` answers OFF for the row's own team, the WHERE clause of a read holds of a row of
-- the caller's own that the ladder hides and that `resolve` refuses.
pub read_predicate_by_collation :
    (e : Engine) (scope : Scope) (r : TaskRow) (rest : List Value) (name : Text) {clause : Readable}
    → lives_within e scope r ≡ true
    → ladder e scope r r.visibility ≡ false
    → owns e scope r ≡ true
    → e.same r.team_id name ≡ true
    → mem name (keys scope.owner_reads_own_record) ≡ true
    → is_granted (resolve scope.owner_reads_own_record name) ≡ true
    → is_granted (resolve scope.owner_reads_own_record r.team_id) ≡ false
    → by_default scope.owner_reads_own_record ≡ false
    → read_predicate (reach_of scope) ≡ ok clause
    → (eval e clause.sql r (bind_readable clause (bind (reach_of scope) []) ++ rest)
        ≡ some (true, rest))
      × (may_read_resolved e scope r ≡ false)
read_predicate_by_collation e scope r rest name {clause} here hidden own same named on off by h =
    let (read, refused) =
      may_read_by_collation e scope r name here hidden own same named on off by in
    (
      read_predicate-eq-may_read e scope r rest {clause = clause} h ∙ ap (λ b. some (b, rest)) read,
      refused,
    )
