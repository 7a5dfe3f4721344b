-- ===== src/Setting/Probe.antt =====
-- The probe of src/setting.rs: a team that the setting does not name, found within its fuel.
use task_db.Prelude.{
  ℕ, zero, suc, ◌+◌, ◌≤◌, ◌<◌, Text, true, false, Option, List, [], ◌∷◌, ◌++◌, length,
  length-append, text_eq, eq_of_text_eq, leb, if◌then◌else◌, ◌≡◌, ap, inl, inr, Bool-cases, arith,
}
use task_db.Proto.{InheritedSetting}
use task_db.Setting.{mem, keys, probe_from, team_the_setting_does_not_name}

-- How many names are at least as long as the probe.
longer : ℕ → List Text → ℕ
longer n [] = 0
longer n (t ∷ ts) = if leb n (length t) then longer n ts + 1 else longer n ts

longer-le-length : (n : ℕ) (ts : List Text) → longer n ts ≤ length ts
unfolding longer
longer-le-length n [] = omega arith
longer-le-length n (t ∷ ts) = ground (arith, longer-le-length n ts)

longer_mono : (n : ℕ) (ts : List Text) → longer (n + 1) ts ≤ longer n ts
unfolding longer
longer_mono n [] = omega arith
longer_mono n (t ∷ ts) = ground (arith, longer_mono n ts)

-- A name that the probe hits is as long as the probe, and no longer.
longer-lt_of_mem :
    (probe : Text) (ts : List Text)
    → mem probe ts ≡ true
    → longer (length probe + 1) ts < longer (length probe) ts
unfolding longer
longer-lt_of_mem probe [] h = cc
longer-lt_of_mem probe (t ∷ ts) h = elim (Bool-cases (text_eq probe t)) [
  | inl same ↦ ground (arith, ap length (eq_of_text_eq probe t same), longer_mono (length probe) ts)
  | inr other ↦ ground (arith, other, longer-lt_of_mem probe ts)
]

probe_from-fresh :
    (fuel : ℕ) (ts : List Text) (probe : Text)
    → longer (length probe) ts < fuel
    → mem (probe_from fuel ts probe) ts ≡ false
unfolding probe_from
probe_from-fresh zero ts probe h = absurd (omega arith)
probe_from-fresh (suc fuel) ts probe h = elim (Bool-cases (mem probe ts)) [
  | inl hit ↦ rw hit (
      probe_from-fresh fuel ts (probe ++ 0 ∷ []) (
        omega (
          arith,
          longer-lt_of_mem probe ts hit,
          ap (λ n. longer n ts) (length-append probe (0 ∷ [])),
        )))
  | inr miss ↦ rw miss miss
]

-- The loop ends within its fuel at a team that the setting does not name.
pub probe_is_unnamed :
    (setting : Option InheritedSetting)
    → mem (team_the_setting_does_not_name setting) (keys setting) ≡ false
unfolding team_the_setting_does_not_name
probe_is_unnamed setting =
    probe_from-fresh (suc (length (keys setting))) (keys setting) []
      (omega (arith, longer-le-length 0 (keys setting)))
