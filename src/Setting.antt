-- ===== src/Setting.antt =====
-- src/setting.rs: ADR-0522's inheritable setting, resolved against the team of the row, and its
-- projection onto every row that one query can return.
pub mod Order
pub mod Probe
pub mod Projection
use task_db.Prelude.{
  ℕ, zero, suc, ◌+◌, ℤ, Text, Bool, true, false, not, ◌&&◌, Option, none, some, List, [], ◌∷◌, ◌++◌,
  map, length, is_empty, exists, text_eq, sort, if◌then◌else◌,
}
use task_db.Status.{
  Result, ok, err, Status, refuse, states_no_value, Who, organisation, team, ok_or, ◌>>=◌,
}
use task_db.Proto.{SettingValue, setting_unspecified, off, on, setting_value_of, InheritedSetting}

-- `refusal`
abbrev pub refusal : Who → Status
refusal who = refuse (states_no_value who)

abbrev accepted : Option SettingValue → Who → Result SettingValue
accepted (some off) who = ok off
accepted (some on) who = ok on
accepted (some setting_unspecified) who = err (refusal who)
accepted none who = err (refusal who)

unfoldable pub stated : ℤ → Who → Result SettingValue
stated value who = accepted (setting_value_of value) who

-- `HashMap::get`
abbrev pub get : List (Text × ℤ) → Text → Option ℤ
get [] k = none
get ((j, v) ∷ m) k = if text_eq k j then some v else get m k

abbrev override_or : Option ℤ → Text → SettingValue → Result SettingValue
override_or (some entry) record_team org_value = stated entry (team record_team)
override_or none record_team org_value = ok org_value

unfoldable pub resolve : Option InheritedSetting → Text → Result SettingValue
unfolding stated
resolve setting record_team = do
  present ← ok_or setting (refusal organisation)
  org_value ← stated present.org_value organisation
  if present.org_locked
      then ok org_value
      else override_or (get present.team_override record_team) record_team org_value

pub record OwnerReach : Type 0 where
  pub default_on : Bool
  pub exceptions : List Text

-- `OwnerReach::reaches_nothing`
abbrev pub reaches_nothing : OwnerReach → Bool
reaches_nothing r = not r.default_on && is_empty r.exceptions

-- `== SettingValue::On`
abbrev pub is_on : SettingValue → Bool
is_on on = true
is_on off = false
is_on setting_unspecified = false

-- `HashMap::keys`
abbrev pub keys : Option InheritedSetting → List Text
keys none = []
keys (some s) = map (λ e. e.0) s.team_override

abbrev pub mem : Text → List Text → Bool
mem t = exists (text_eq t)

-- `while contains_key(&probe) { probe.push('\0') }`, on fuel.
probe_from : ℕ → List Text → Text → Text
probe_from zero names probe = probe
probe_from (suc fuel) names probe =
    let longer = probe_from fuel names (probe ++ 0 ∷ []) in
    if mem probe names then longer else probe

unfoldable pub team_the_setting_does_not_name : Option InheritedSetting → Text
unfolding probe_from
team_the_setting_does_not_name setting = probe_from (suc (length (keys setting))) (keys setting) []

abbrev differs : Bool → Bool → Bool
differs true b = not b
differs false b = b

-- The loop over the named teams.
unfoldable pub exceptions_of : Option InheritedSetting → Bool → List Text → Result (List Text)
exceptions_of setting default_on [] = ok []
exceptions_of setting default_on (name ∷ names) = do
  value ← resolve setting name
  more ← exceptions_of setting default_on names
  ok (if differs (is_on value) default_on then name ∷ more else more)

unfoldable pub owner_reach : Option InheritedSetting → Result OwnerReach
unfolding resolve team_the_setting_does_not_name exceptions_of
owner_reach setting = do
  value ← resolve setting (team_the_setting_does_not_name setting)
  exceptions ← exceptions_of setting (is_on value) (keys setting)
  ok (record { default_on = is_on value; exceptions = sort exceptions })
