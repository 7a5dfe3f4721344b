-- ===== src/Setting/Projection.antt =====
-- `owner_reach` of src/setting.rs answers for every team what `resolve` answers.
use task_db.Prelude.{
  ℤ, Text, Bool, true, false, not, Option, none, some, List, [], ◌∷◌, map, text_eq_iff,
  if◌then◌else◌, ◌≡◌, refl, inl, inr, Bool-cases, arith,
}
use task_db.Status.{ok, err, Status, >>=-eq-ok, >>=-eq-err}
use task_db.Proto.{SettingValue, off, on, InheritedSetting}
use task_db.Setting.{
  get, resolve, keys, mem, is_on, differs, exceptions_of, OwnerReach, owner_reach,
  team_the_setting_does_not_name,
}
use task_db.Setting.Order.{mem-sort}
use task_db.Setting.Probe.{probe_is_unnamed}

-- What the reach says of a team.
abbrev pub reaches : OwnerReach → Text → Bool
reaches r t = if mem t r.exceptions then not r.default_on else r.default_on

abbrev pub answer : Bool → SettingValue
answer true = on
answer false = off

get_of_unnamed :
    (m : List (Text × ℤ)) (t : Text) → mem t (map (λ e. e.0) m) ≡ false → get m t ≡ none
get_of_unnamed [] t h = refl
get_of_unnamed ((j, v) ∷ m) t h = ground (arith, get_of_unnamed m t)

-- A value that `resolve` answers is ON or OFF.
resolve-answer :
    (s : Option InheritedSetting) (t : Text) (v : SettingValue)
    → resolve s t ≡ ok v
    → v ≡ answer (is_on v)
unfolding resolve
resolve-answer s t v h = ground arith

-- Two teams that the setting does not name have one answer.
resolve_unnamed :
    (s : Option InheritedSetting) (t u : Text)
    → mem t (keys s) ≡ false
    → mem u (keys s) ≡ false
    → resolve s t ≡ resolve s u
unfolding resolve
resolve_unnamed none t u ht hu = refl
resolve_unnamed (some s) t u ht hu =
    rw (get_of_unnamed s.team_override t ht, get_of_unnamed s.team_override u hu)

module _ (s : Option InheritedSetting) (d : Bool) where
  abbrev Added : Text → List Text → List Text → Type 0
  Added name more names =
      (v : SettingValue) × (resolve s name ≡ ok v)
      × (names ≡ (if differs (is_on v) d then name ∷ more else more))

  exceptions_of-cons :
      (name : Text) (names : List Text) {found : List Text}
      → exceptions_of s d (name ∷ names) ≡ ok found
      → (more : List Text) × (exceptions_of s d names ≡ ok more) × Added name more found
  unfolding exceptions_of
  exceptions_of-cons name names {found} h =
      let (v, here, rest) = >>=-eq-ok (resolve s name) _ h in
      let (more, there, same) = >>=-eq-ok (exceptions_of s d names) _ rest in
      (more, there, (v, here, ground arith))

  -- An exception answers the opposite of the default.
  found-differs :
      (names : List Text) {found : List Text} (t : Text)
      → exceptions_of s d names ≡ ok found
      → mem t found ≡ true
      → resolve s t ≡ ok (answer (not d))
  unfolding exceptions_of
  found-differs [] t h m = ground arith
  found-differs (name ∷ names) t h m =
      let (more, rest, (v, here, e)) = exceptions_of-cons name names h in
      ground (arith, found-differs names t rest, text_eq_iff t name, resolve-answer s name v here)

  -- A named team that is no exception answers the default.
  unfound-agrees :
      (names : List Text) {found : List Text} (t : Text)
      → exceptions_of s d names ≡ ok found
      → mem t names ≡ true
      → mem t found ≡ false
      → resolve s t ≡ ok (answer d)
  unfolding exceptions_of
  unfound-agrees [] t h n m = ground arith
  unfound-agrees (name ∷ names) t h n m =
      let (more, rest, (v, here, e)) = exceptions_of-cons name names h in
      ground (arith, unfound-agrees names t rest, text_eq_iff t name, resolve-answer s name v here)

  -- Only a named team is an exception.
  found-named :
      (names : List Text) {found : List Text} (t : Text)
      → exceptions_of s d names ≡ ok found
      → mem t names ≡ false
      → mem t found ≡ false
  unfolding exceptions_of
  found-named [] t h n = ground arith
  found-named (name ∷ names) t h n =
      let (more, rest, (v, here, e)) = exceptions_of-cons name names h in
      ground (arith, found-named names t rest)

  -- A refusal in the loop is the refusal of a team.
  exceptions_of-err :
      (names : List Text) {e : Status}
      → exceptions_of s d names ≡ err e
      → (t : Text) × (resolve s t ≡ err e)
  unfolding exceptions_of
  exceptions_of-err [] h = cc
  exceptions_of-err (name ∷ names) h = elim (>>=-eq-err (resolve s name) _ h) [
    | inl here ↦ (name, here)
    | inr (v, here, rest) ↦ elim (>>=-eq-err (exceptions_of s d names) _ rest) [
      | inl there ↦ exceptions_of-err names there
      | inr (more, there, no_refusal) ↦ cc
    ]
  ]

-- Whenever `owner_reach` answers, its answer for any team, named by the setting or not, is the one
-- that `resolve` gives for a row of that team.
pub owner_reach-eq-resolve :
    (s : Option InheritedSetting) (t : Text) {r : OwnerReach}
    → owner_reach s ≡ ok r
    → resolve s t ≡ ok (answer (reaches r t))
unfolding owner_reach
owner_reach-eq-resolve s t {r} h =
    let probe = team_the_setting_does_not_name s in
    let (v, probed, rest) = >>=-eq-ok (resolve s probe) _ h in
    let d = is_on v in
    let (found, listed, made) = >>=-eq-ok (exceptions_of s d (keys s)) _ rest in
    elim (Bool-cases (mem t (keys s))) [
      | inl named ↦ ground (
        arith,
        mem-sort t found,
        found-differs s d (keys s) t listed,
        unfound-agrees s d (keys s) t listed named,
      )
      | inr unnamed ↦ ground (
        arith,
        mem-sort t found,
        found-named s d (keys s) t listed unnamed,
        resolve-answer s probe v probed,
        resolve_unnamed s t probe unnamed (probe_is_unnamed s),
      )
    ]

-- When `owner_reach` refuses, `resolve` gives the same refusal for some team.
pub owner_reach_refusal :
    (s : Option InheritedSetting) {e : Status}
    → owner_reach s ≡ err e
    → (t : Text) × (resolve s t ≡ err e)
unfolding owner_reach
owner_reach_refusal s h = elim (>>=-eq-err (resolve s (team_the_setting_does_not_name s)) _ h) [
  | inl here ↦ (team_the_setting_does_not_name s, here)
  | inr (v, probed, rest) ↦ elim (>>=-eq-err (exceptions_of s (is_on v) (keys s)) _ rest) [
    | inl there ↦ exceptions_of-err s (is_on v) (keys s) there
    | inr (found, listed, no_refusal) ↦ cc
  ]
]

-- An exception is a team that the setting names.
pub exceptions_are_named :
    (s : Option InheritedSetting) (t : Text) {r : OwnerReach}
    → owner_reach s ≡ ok r
    → mem t r.exceptions ≡ true
    → mem t (keys s) ≡ true
unfolding owner_reach
exceptions_are_named s t {r} h m =
    let (v, probed, rest) = >>=-eq-ok (resolve s (team_the_setting_does_not_name s)) _ h in
    let (found, listed, made) = >>=-eq-ok (exceptions_of s (is_on v) (keys s)) _ rest in
    elim (Bool-cases (mem t (keys s))) [
      | inl named ↦ named
      | inr unnamed ↦
          ground (arith, mem-sort t found, found-named s (is_on v) (keys s) t listed unnamed)
    ]
