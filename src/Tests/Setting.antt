-- ===== src/Tests/Setting.antt =====
-- src/setting.rs at concrete settings: the organisation says ON, two teams say OFF, and one of the
-- two has the empty name, which the probe has to avoid.
use task_db.Prelude.{codes, some, none, true, false, ◌≡◌, refl, [], ◌∷◌, Text}
use task_db.Status.{ok, err, organisation}
use task_db.Setting.{
  resolve, owner_reach, OwnerReach, refusal, mem, keys, team_the_setting_does_not_name,
}
use task_db.Setting.Projection.{answer, reaches, owner_reach-eq-resolve, owner_reach_refusal}
use task_db.Setting.Probe.{probe_is_unnamed}
use task_db.Tests.Fixtures.{setting_on}

abbrev reach : OwnerReach
reach = record { default_on = true; exceptions = codes "" ∷ codes "t3" ∷ [] }

reach_of_setting_on : owner_reach (some setting_on) ≡ ok reach
unfolding owner_reach
reach_of_setting_on = refl

probe_of_setting_on : team_the_setting_does_not_name (some setting_on) ≡ 0 ∷ []
unfolding team_the_setting_does_not_name
probe_of_setting_on = refl

owner_reach-eq-resolve_example :
    resolve (some setting_on) (codes "t3") ≡ ok (answer (reaches reach (codes "t3")))
owner_reach-eq-resolve_example =
    owner_reach-eq-resolve (some setting_on) (codes "t3") reach_of_setting_on

refused : owner_reach none ≡ err (refusal organisation)
unfolding owner_reach
refused = refl

owner_reach_refusal_example : (t : Text) × (resolve none t ≡ err (refusal organisation))
owner_reach_refusal_example = owner_reach_refusal none refused

probe_is_unnamed_example :
    mem (team_the_setting_does_not_name (some setting_on)) (keys (some setting_on)) ≡ false
probe_is_unnamed_example = probe_is_unnamed (some setting_on)
