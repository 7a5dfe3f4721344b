-- ===== src/Sql/Granting.antt =====
-- ADR-0522 as the clauses of src/sql.rs compare teams, and as `resolve` of src/setting.rs does.
use task_db.Prelude.{
  Text, Bool, true, false, not, ◌&&◌, ◌||◌, Option, List, [], ◌∷◌, exists, sort, insert_sorted,
  text_eq, text_eq_refl, text_eq_iff, Bool-cases, inl, inr, if◌then◌else◌, ◌≡◌, refl, sym, ap, ◌∙◌,
  arith,
}
use task_db.Status.{ok, >>=-eq-ok, ok-injective}
use task_db.Proto.{InheritedSetting, Scope}
use task_db.Engine.{Engine, TaskRow}
use task_db.Setting.{
  OwnerReach, resolve, owner_reach, exceptions_of, is_on, keys, mem, team_the_setting_does_not_name,
}
use task_db.Setting.Projection.{reaches, answer, owner_reach-eq-resolve, exceptions_are_named}
use task_db.Sql.Axes.{
  lives_within, ladder, owns, unlike, is_granted, by_default, is_exception, grants, Separates,
  may_read, may_read_resolved,
}

exists-insert_sorted :
    (p : Text → Bool) (t : Text) (ts : List Text)
    → exists p (insert_sorted t ts) ≡ (p t || exists p ts)
exists-insert_sorted p t [] = refl
exists-insert_sorted p t (u ∷ us) = ground (arith, exists-insert_sorted p t us)

exists-sort : (p : Text → Bool) (ts : List Text) → exists p (sort ts) ≡ exists p ts
exists-sort p [] = refl
exists-sort p (t ∷ ts) = exists-insert_sorted p t (sort ts) ∙ ap (λ b. p t || b) (exists-sort p ts)

module _ (p : Text → Bool) (s : Option InheritedSetting) (d : Bool) where
  -- What is in the list of exceptions, by what `resolve` answers for the names.
  exists-exceptions_of :
      (names : List Text) {found : List Text}
      → exceptions_of s d names ≡ ok found
      → exists p found ≡ exists (λ t. p t && unlike (is_granted (resolve s t)) d) names
  unfolding exceptions_of
  exists-exceptions_of [] h = ground (arith, h)
  exists-exceptions_of (name ∷ names) {found} h =
      let (v, here, rest) = >>=-eq-ok (resolve s name) _ h in
      let (more, there, same) = >>=-eq-ok (exceptions_of s d names) _ rest in
      rw here (
        rw (← ok-injective same)
          (rw (← exists-exceptions_of names {found = more} there) (ground arith)))

-- The arm's test, on the exceptions that `owner_reach` hands it, is the rule's.
pub grants-eq-exceptions :
    (e : Engine) (s : Option InheritedSetting) (team : Text) {g : OwnerReach}
    → owner_reach s ≡ ok g
    → (if exists (e.same team) g.exceptions then not g.default_on else g.default_on)
      ≡ grants e s team
unfolding owner_reach
grants-eq-exceptions e s team {g} h =
    let (v, probed, rest) = >>=-eq-ok (resolve s (team_the_setting_does_not_name s)) _ h in
    let (found, listed, made) = >>=-eq-ok (exceptions_of s (is_on v) (keys s)) _ rest in
    let same : is_on v ≡ by_default s = ap is_granted (sym probed) in
    rw (← ok-injective made) (
      rw (exists-sort (e.same team) found) (
        rw (exists-exceptions_of (e.same team) s (is_on v) (keys s) listed) (
          ap
            (λ b.
              if exists (λ t. e.same team t && unlike (is_granted (resolve s t)) b) (keys s)
              then not b
              else b)
            same)))

exists-agree :
    (f g : Text → Bool) (ts : List Text)
    → ((t : Text) → exists (text_eq t) ts ≡ true → f t ≡ g t)
    → exists f ts ≡ exists g ts
exists-agree f g [] h = refl
exists-agree f g (t ∷ ts) h =
    ground (arith, h t, text_eq_refl t, exists-agree f g ts (λ u m. h u (ground (arith, m))))

is_on-answer : (b : Bool) → is_on (answer b) ≡ b
is_on-answer true = refl
is_on-answer false = refl

grants-eq-resolve :
    (e : Engine) (s : Option InheritedSetting) (team : Text) {g : OwnerReach}
    → Separates e s team
    → owner_reach s ≡ ok g
    → grants e s team ≡ is_granted (resolve s team)
grants-eq-resolve e s team {g} sep h =
    sym (grants-eq-exceptions e s team {g = g} h)
    ∙ rw
        (exists-agree (e.same team) (text_eq team) g.exceptions
          (λ t m. sep t (exceptions_are_named s t h m)))
        (rw (owner_reach-eq-resolve s team h) (sym (is_on-answer (reaches g team))))

-- Where the setting is stated, and the collation tells the row's team from the teams that the setting
-- names just as `==` does, the rule of the clause is `resolve`'s own answer for the row's team.
pub may_read-eq-resolved :
    (e : Engine) (scope : Scope) (r : TaskRow) {g : OwnerReach}
    → Separates e scope.owner_reads_own_record r.team_id
    → owner_reach scope.owner_reads_own_record ≡ ok g
    → may_read e scope r ≡ may_read_resolved e scope r
may_read-eq-resolved e scope r {g} sep h =
    rw (grants-eq-resolve e scope.owner_reads_own_record r.team_id {g = g} sep h) refl

exists-mem :
    (p : Text → Bool) (t : Text) (ts : List Text)
    → mem t ts ≡ true
    → p t ≡ true
    → exists p ts ≡ true
exists-mem p t [] h k = cc
exists-mem p t (u ∷ us) h k = elim (Bool-cases (text_eq t u)) [
  | inl here ↦ rw (← (text_eq_iff t u).0 here) (ground (arith, k))
  | inr miss ↦ rw (exists-mem p t us (rw miss at h) k) (ground arith)
]

-- Where the collation takes the row's team for a team that the setting names, and the two differ in
-- `resolve`, the clause follows the named team: a row of the caller's own that the ladder hides and
-- `resolve` refuses is read.
pub may_read_by_collation :
    (e : Engine) (scope : Scope) (r : TaskRow) (name : Text)
    → lives_within e scope r ≡ true
    → ladder e scope r r.visibility ≡ false
    → owns e scope r ≡ true
    → e.same r.team_id name ≡ true
    → mem name (keys scope.owner_reads_own_record) ≡ true
    → is_granted (resolve scope.owner_reads_own_record name) ≡ true
    → is_granted (resolve scope.owner_reads_own_record r.team_id) ≡ false
    → by_default scope.owner_reads_own_record ≡ false
    → (may_read e scope r ≡ true) × (may_read_resolved e scope r ≡ false)
may_read_by_collation e scope r name here hidden own same named on off default_off =
    let s = scope.owner_reads_own_record in
    let found : exists (is_exception e s r.team_id) (keys s) ≡ true =
      exists-mem (is_exception e s r.team_id) name (keys s) named
        (rw same (rw on (rw default_off refl))) in
    (rw here (rw own (rw found (rw default_off (ground arith)))), rw hidden (rw off (ground arith)))
