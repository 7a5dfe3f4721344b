-- ===== src/Process/Serving.antt =====
-- The process of src/main.rs serves only once everything before has answered well.
use task_db.Prelude.{
  ℕ, suc, ◌≤◌, Text, Option, none, some, List, [], ◌∷◌, ◌++◌, ◌≡◌, refl, ◌∙◌, sym, ◌⊎◌, inl, inr,
  arith,
}
use mathlib.Core.Path.{subst}
use task_db.Process.{
  Event, tracing_started, secret_read, probe_connected, probe_answered, probe_closed,
  pool_connected, migrated, metrics_served, metrics_unavailable, not_after_exported, signals_armed,
  serving, drained, drain_overran, Outcome, went_on, stopped, Refusal, Outside, Drain, finished,
  overran, gives, refuses, on_signals, on_rotation, stop_when,
}
use task_db.Process.Run.{drained_as, boot, run, main, Configured, Exit, exit_of, success, failure}
use task_db.Process.Order.{place, Rising, Rising-bound, Emits-boot, Emits-drained_as}
use task_db.Process.Ready.{Ready, Shows-boot}

abbrev pub address_of : Event → Option Text
address_of event = elim event [ serving addr ↦ some addr | _ ↦ none ]

abbrev pub or_later : Option Text → Option Text → Option Text
or_later none later = later
or_later (some addr) later = some addr

-- Where a log says that the process serves.
abbrev pub served_at : List Event → Option Text
served_at [] = none
served_at (x ∷ log) = or_later (address_of x) (served_at log)

-- How the process ends by how its serving did.
abbrev pub exit_at : Drain → Exit
exit_at (finished (gives u)) = success
exit_at (finished (refuses s)) = failure
exit_at overran = success

early : (x : Event) → suc (place x) ≤ 10 → address_of x ≡ none
early tracing_started h = refl
early (secret_read path) h = refl
early probe_connected h = refl
early probe_answered h = refl
early probe_closed h = refl
early pool_connected h = refl
early (migrated n) h = refl
early metrics_served h = refl
early metrics_unavailable h = refl
early not_after_exported h = refl
early signals_armed h = refl
early (serving addr) h = absurd (omega (arith, h))
early drained h = refl
early drain_overran h = refl

served_at-before : (a : ℕ) (log : List Event) → Rising a 10 log → served_at log ≡ none
served_at-before a [] h = refl
served_at-before a (x ∷ log) (here, more) =
    rw (early x (Rising-bound (suc (place x)) 10 log more))
      (served_at-before (suc (place x)) log more)

served_here :
    (log more : List Event) (addr : Text)
    → served_at log ≡ none
    → served_at ((log ++ serving addr ∷ []) ++ more) ≡ some addr
served_here [] more addr h = refl
served_here (x ∷ log) more addr h =
    let (here, rest) = neither (address_of x) (served_at log) h in
    rw here (served_here log more addr rest)
  where
    neither : (a b : Option Text) → or_later a b ≡ none → (a ≡ none) × (b ≡ none)
    neither none b h = (refl, h)
    neither (some addr) b h = cc

Outcome-cases :
    {P A : Type 0} (x : Outcome P A)
    → ((a : A) × (x ≡ went_on a)) ⊎ ((r : Refusal P) × (x ≡ stopped r))
Outcome-cases (went_on a) = inl (a, refl)
Outcome-cases (stopped r) = inr (r, refl)

none_not_some : {A : Type 0} {a : A} → none ≡ some a → ⊥
none_not_some h = cc

some_injective : {A : Type 0} {a b : A} → some a ≡ some b → a ≡ b
some_injective h = cc

module _ {P Mode Lock Tls Limits Server Secret Schedule Inputs Options Report Pool : Type 0}
    (o : Outside P Mode Lock Tls Limits Server Secret Schedule Inputs Options Report Pool) where
  boot-silent : served_at (boot o []).1 ≡ none
  boot-silent =
      let (new, at_end, rising) = (Emits-boot o).at [] in rw at_end (served_at-before 0 new rising)

  served_when_booted :
      (a : Text) (d : Drain)
      → served_at (drained_as o d ((boot o []).1 ++ serving a ∷ [])).1 ≡ some a
  served_when_booted a d =
      let log = (boot o []).1 ++ serving a ∷ [] in
      let (more, at_end, rising) = (Emits-drained_as o d).at log in
      rw at_end (served_here (boot o []).1 more a boot-silent)

  exit_of-drained_as : (d : Drain) (log : List Event) → exit_of (drained_as o d log).0 ≡ exit_at d
  exit_of-drained_as (finished (gives u)) log = refl
  exit_of-drained_as (finished (refuses s)) log = refl
  exit_of-drained_as overran log = refl

  -- The process serves at an address only where its configuration, its listener and its secret were
  -- read, the engine has been probed and can do what is required, the migrations were applied, the
  -- signals are armed, and the address is what LISTEN says and usable. What ends it then is the drain
  -- that the signals ask for, or the watch, on its schedule, of the listener's files, the database
  -- password, the engine's authority and the configuration document; it fails only where the server
  -- ended in an error within the drain's budget.
  pub main-Ready :
      {addr : Text}
      → served_at (main o).1 ≡ some addr
      → (c : Configured Mode Lock Tls Server Secret Schedule Inputs) × Ready o (addr, c)
        × ((main o).0 ≡ exit_at (o.drain (on_signals ∷ on_rotation c.tls_inputs c.schedule ∷ [])))
  unfolding main run
  main-Ready {addr} h = elim (Outcome-cases (boot o []).0) [
    | inl ((a, c), went) ↦
        let ended = o.drain (stop_when c.tls_inputs c.schedule) in
        let log = (boot o []).1 ++ serving a ∷ [] in
        let served : served_at (drained_as o ended log).1 ≡ some addr = rw went at h in
        (
          c,
          subst (λ x. Ready o (x, c)) (some_injective (sym (served_when_booted a ended) ∙ served))
              ((Shows-boot o).at [] (a, c) went),
          rw went (exit_of-drained_as ended log),
        )
    | inr (r, halted) ↦
        let silent : served_at (boot o []).1 ≡ some addr = rw halted at h in
        absurd (none_not_some (sym boot-silent ∙ silent))
  ]
