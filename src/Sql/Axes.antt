-- ===== src/Sql/Axes.antt =====
-- The two axes of D53, said without SQL: where a record lives, and who may see it.
use task_db.Prelude.{
  zero, suc, ℤ, pos, Text, codes, Bool, true, false, ◌&&◌, ◌||◌, Option, not, if◌then◌else◌, ◌++◌,
  exists, text_eq, starts_with, ◌≡◌,
}
use task_db.Status.{Result, ok, err}
use task_db.Proto.{SettingValue, InheritedSetting, Scope}
use task_db.Engine.{Engine, TaskRow}
use task_db.Setting.{resolve, mem, keys, is_on, team_the_setting_does_not_name}

-- WHERE: the caller's project or its subtree (D53).
abbrev pub lives_within : Engine → Scope → TaskRow → Bool
lives_within e scope r =
    e.same r.project_id scope.project_id
    || starts_with e.same_char (scope.project_id ++ codes "/") r.project_id

abbrev pub owns : Engine → Scope → TaskRow → Bool
owns e scope r = e.same r.owner_user_id scope.user_id

-- WHO: the D12 ladder, by the rung of the record. Any unknown rung is the private one.
abbrev pub ladder : Engine → Scope → TaskRow → ℤ → Bool
ladder e scope r (pos (suc (suc (suc zero)))) = true
ladder e scope r (pos (suc (suc zero))) = exists (e.same r.team_id) scope.team_ids
ladder e scope r rung = owns e scope r

abbrev pub may_edit : Engine → Scope → TaskRow → Bool
may_edit e scope r = lives_within e scope r && ladder e scope r r.visibility

abbrev pub is_granted : Result SettingValue → Bool
is_granted (ok v) = is_on v
is_granted (err s) = false

-- ADR-0522's answer for a team that the setting does not name.
abbrev pub by_default : Option InheritedSetting → Bool
by_default setting = is_granted (resolve setting (team_the_setting_does_not_name setting))

abbrev pub unlike : Bool → Bool → Bool
unlike a b = (a && not b) || (not a && b)

-- A named team that the collation takes for the row's, and whose answer is not the default.
abbrev pub is_exception : Engine → Option InheritedSetting → Text → Text → Bool
is_exception e setting row_team name =
    e.same row_team name && unlike (is_granted (resolve setting name)) (by_default setting)

-- ADR-0522 as the engine compares teams: the default, but for a team that the collation takes for a
-- named one with another answer.
abbrev pub grants : Engine → Option InheritedSetting → Text → Bool
grants e setting row_team =
    if exists (is_exception e setting row_team) (keys setting)
    then not (by_default setting)
    else by_default setting

-- An owner also reads their own record where the setting grants it to the record's team.
abbrev pub may_see : Engine → Scope → TaskRow → Bool
may_see e scope r =
    ladder e scope r r.visibility
    || (owns e scope r && grants e scope.owner_reads_own_record r.team_id)

abbrev pub may_read : Engine → Scope → TaskRow → Bool
may_read e scope r = lives_within e scope r && may_see e scope r

-- The same with `resolve`'s own answer for the row's team, which compares teams by `==`.
abbrev pub may_read_resolved : Engine → Scope → TaskRow → Bool
may_read_resolved e scope r =
    lives_within e scope r
    && (ladder e scope r r.visibility
        || (owns e scope r && is_granted (resolve scope.owner_reads_own_record r.team_id)))

-- The collation tells a team from the teams that the setting names just as `==` does. A collation
-- that ignores case, as utf8mb4 has by default, does so only where no two of them differ in case alone.
abbrev pub Separates : Engine → Option InheritedSetting → Text → Type 0
Separates e setting team = (t : Text) → mem t (keys setting) ≡ true → e.same team t ≡ text_eq team t
