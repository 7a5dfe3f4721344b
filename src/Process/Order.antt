-- ===== src/Process/Order.antt =====
-- The order in which the process of src/main.rs does what it does.
use task_db.Prelude.{
  ℕ, suc, ◌≤◌, codes, Bool, true, false, List, [], ◌∷◌, ◌++◌, if◌then◌else◌, ◌≡◌, refl, ◌∙◌, sym,
  ap, arith,
}
use mathlib.Core.List.{append_assoc, append-nil}
use task_db.Boot.{PoolConfig, pool_config}
use task_db.Boot.Lock.{migration_lock}
use task_db.Schema
use task_db.Process.{
  Event, tracing_started, secret_read, probe_connected, probe_answered, probe_closed,
  pool_connected, migrated, metrics_served, metrics_unavailable, not_after_exported, signals_armed,
  serving, drained, drain_overran, Outcome, went_on, stopped, Outside, Act, onwards, emit,
  stop_when, ◌>>=◌, ◌>>◌, Drain, finished, overran, gives, refuses, variable, outcome_of,
  outcome_of_boot, unusable_address,
}
use task_db.Process.Run.{
  configure, probe_engine, migrate, probe_and_migrate, metrics_event, install_metrics, drained_as,
  boot, run, main, required,
}

-- The place of an event in the order of boot: the refusals of the configuration, the probe, the
-- migrations, the metrics, the signals, and only then the serving and its end.
abbrev pub place : Event → ℕ
place tracing_started = 0
place (secret_read path) = 1
place probe_connected = 2
place probe_answered = 3
place probe_closed = 4
place pool_connected = 5
place (migrated n) = 6
place metrics_served = 7
place metrics_unavailable = 7
place not_after_exported = 8
place signals_armed = 9
place (serving addr) = 10
place drained = 11
place drain_overran = 11

-- Events in their order, none twice, from one place up to another.
abbrev pub Rising : ℕ → ℕ → List Event → Type 0
Rising a b [] = a ≤ b
Rising a b (x ∷ xs) = (a ≤ place x) × Rising (suc (place x)) b xs

-- An action whose events rise from one place up to another.
pub record Emits {P A : Type 0} (a b : ℕ) (m : Act P A) : Type 0 where
  pub at : (log : List Event) → (new : List Event) × ((m log).1 ≡ log ++ new) × Rising a b new

pub Rising-bound : (a b : ℕ) (xs : List Event) → Rising a b xs → a ≤ b
Rising-bound a b [] h = h
Rising-bound a b (x ∷ xs) (here, more) = omega (arith, here, Rising-bound (suc (place x)) b xs more)

Rising-append :
    (a b c : ℕ) (xs ys : List Event) → Rising a b xs → Rising b c ys → Rising a c (xs ++ ys)
Rising-append a b c [] [] h k = omega (arith, h, k)
Rising-append a b c [] (y ∷ ys) h (here, more) = (omega (arith, h, here), more)
Rising-append a b c (x ∷ xs) ys (here, more) k =
    (here, Rising-append (suc (place x)) b c xs ys more k)

-- A longer bound.
Rising-widen : (a b c : ℕ) (xs : List Event) → Rising a b xs → b ≤ c → Rising a c xs
Rising-widen a b c [] h k = omega (arith, h, k)
Rising-widen a b c (x ∷ xs) (here, more) k = (here, Rising-widen (suc (place x)) b c xs more k)

module _ {P : Type 0} where
  -- An action that only asks.
  Emits-quiet : {A : Type 0} (a b : ℕ) (r : Outcome P A) → a ≤ b → Emits a b (λ log. (r, log))
  Emits-quiet a b r h = record { at = λ log. ([], sym (append-nil log), h) }

  Emits-emit : (a b : ℕ) (x : Event) → a ≤ place x → suc (place x) ≤ b → Emits {P = P} a b (emit x)
  Emits-emit a b x h k = record { at = λ log. (x ∷ [], refl, (h, k)) }

  module _ {A B : Type 0} where
    Emits-onwards :
        (a b c : ℕ) (r : Outcome P A) (f : A → Act P B) (log new : List Event) (now : List Event)
        → now ≡ log ++ new
        → Rising a b new
        → b ≤ c
        → ((x : A) → Emits b c (f x))
        → (all : List Event) × ((onwards r f now).1 ≡ log ++ all) × Rising a c all
    Emits-onwards a b c (went_on x) f log new now now_is rising h next =
        let (more, at_end, rest) = (next x).at now in
        (
          new ++ more,
          at_end ∙ (ap (λ l. l ++ more) now_is ∙ append_assoc log new more),
          Rising-append a b c new more rising rest,
        )
    Emits-onwards a b c (stopped r) f log new now now_is rising h next =
        (new, now_is, Rising-widen a b c new rising h)

    Emits-bind :
        (a b c : ℕ) (m : Act P A) (f : A → Act P B)
        → b ≤ c
        → Emits a b m
        → ((x : A) → Emits b c (f x))
        → Emits a c (m >>= f)
    Emits-bind a b c m f h first next = record {
      at = λ log.
          let (new, at_now, rising) = first.at log in
          Emits-onwards a b c (m log).0 f log new (m log).1 at_now rising h next;
    }

    -- A question, and what follows its answer.
    Emits-asking :
        (a b : ℕ) (r : Outcome P A) (f : A → Act P B)
        → a ≤ b
        → ((x : A) → Emits a b (f x))
        → Emits a b ((λ log. (r, log)) >>= f)
    Emits-asking a b r f h next =
        Emits-bind a a b (λ log. (r, log)) f h (Emits-quiet a a r (omega arith)) next

  -- An event, and what follows it.
  Emits-first :
      {B : Type 0} (a b : ℕ) (x : Event) (m : Act P B)
      → a ≤ place x
      → suc (place x) ≤ b
      → Emits (suc (place x)) b m
      → Emits a b (emit x >> m)
  Emits-first a b x m h k next =
      Emits-bind a (suc (place x)) b (emit x) (λ u. m) k
        (Emits-emit a (suc (place x)) x h (omega arith)) (λ u. next)

module _ {P Mode Lock Tls Limits Server Secret Schedule Inputs Options Report Pool : Type 0}
    (o : Outside P Mode Lock Tls Limits Server Secret Schedule Inputs Options Report Pool) where
  Emits-configure : Emits 1 2 (configure o)
  unfolding configure
  Emits-configure =
      Emits-asking 1 2 (outcome_of_boot (pool_config o.parse_ssl_mode o.width o.env)) _
        (omega arith)
        λ config.
          Emits-asking 1 2 (outcome_of_boot (migration_lock o.new_lock o.env)) _ (omega arith)
            λ lock. Emits-asking 1 2 (outcome_of (o.listener o.env)) _ (omega arith) λ tls.
              Emits-asking 1 2 (outcome_of (o.limits o.env)) _ (omega arith) λ limits.
                Emits-asking 1 2 (outcome_of (o.server tls limits)) _ (omega arith) λ server.
                  Emits-asking 1 2
                    (variable (o.env (codes "DB_PASSWORD_FILE")) (codes "DB_PASSWORD_FILE")) _
                    (omega arith)
                    λ path.
                      Emits-asking 1 2 (outcome_of (o.read_secret path)) _ (omega arith) λ secret.
                        Emits-first 1 2 (secret_read path) _ (omega arith) (omega arith) (
                          Emits-asking 2 2 (outcome_of o.schedule) _ (omega arith)
                            λ schedule. Emits-quiet 2 2 _ (omega arith))

  Emits-probe_engine :
      (config : PoolConfig Mode) (secret : Secret) → Emits 2 5 (probe_engine o config secret)
  unfolding probe_engine
  Emits-probe_engine config secret =
      Emits-asking 2 5 (outcome_of (o.connect_options config secret)) _ (omega arith) λ options.
        Emits-asking 2 5 (outcome_of (o.probe_connect options)) _ (omega arith) λ u.
          Emits-first 2 5 probe_connected _ (omega arith) (omega arith) (
            Emits-asking 3 5 (outcome_of o.probe) _ (omega arith) λ report.
              Emits-first 3 5 probe_answered _ (omega arith) (omega arith) (
                Emits-asking 4 5 (outcome_of (o.satisfies report required)) _ (omega arith) λ v.
                  Emits-asking 4 5 (outcome_of o.probe_close) _ (omega arith)
                    λ w. Emits-emit 4 5 probe_closed (omega arith) (omega arith)))

  Emits-migrate :
      (config : PoolConfig Mode) (secret : Secret) (lock : Lock)
      → Emits 5 7 (migrate o config secret lock)
  unfolding migrate
  Emits-migrate config secret lock =
      Emits-asking 5 7 (outcome_of (o.connect_pool config secret)) _ (omega arith) λ pool.
        Emits-first 5 7 pool_connected _ (omega arith) (omega arith) (
          Emits-asking 6 7 (outcome_of (Schema.migrations o.new_set)) _ (omega arith) λ set.
            Emits-asking 6 7 (outcome_of (o.apply pool set lock)) _ (omega arith) λ applied.
              Emits-first 6 7 (migrated applied) _ (omega arith) (omega arith)
                (Emits-quiet 7 7 _ (omega arith)))

  Emits-metrics : (served : Bool) → Emits {P = P} 7 8 (emit (metrics_event o served))
  Emits-metrics true = Emits-emit 7 8 metrics_served (omega arith) (omega arith)
  Emits-metrics false = Emits-emit 7 8 metrics_unavailable (omega arith) (omega arith)

  Emits-install_metrics : Emits 7 8 (install_metrics o)
  unfolding install_metrics
  Emits-install_metrics =
      Emits-asking 7 8 (variable (o.env (codes "METRICS_LISTEN")) (codes "METRICS_LISTEN")) _
        (omega arith)
        λ listen.
          Emits-asking 7 8
            ((if o.is_address listen
              then went_on listen
              else stopped (unusable_address (codes "METRICS_LISTEN") listen)))
            _ (omega arith) λ addr. Emits-metrics (o.install_metrics addr)

  pub Emits-boot : Emits 0 10 (boot o)
  unfolding boot
  Emits-boot = Emits-first 0 10 tracing_started _ (omega arith) (omega arith) (
      Emits-bind 1 2 10 (configure o) _ (omega arith) Emits-configure λ c.
        Emits-bind 2 7 10 (probe_and_migrate o c.config c.secret c.migration_lock) _ (omega arith)
          (Emits-bind 2 5 7 (probe_engine o c.config c.secret) _ (omega arith)
            (Emits-probe_engine c.config c.secret)
            (λ u. Emits-migrate c.config c.secret c.migration_lock))
          λ pool. Emits-bind 7 8 10 (install_metrics o) _ (omega arith) Emits-install_metrics λ u.
            Emits-first 8 10 not_after_exported _ (omega arith) (omega arith) (
              Emits-asking 9 10 (variable (o.env (codes "LISTEN")) (codes "LISTEN")) _ (omega arith)
                λ listen.
                  Emits-asking 9 10
                    ((if o.is_address listen
                      then went_on listen
                      else stopped (unusable_address (codes "LISTEN") listen)))
                    _ (omega arith)
                    λ addr. Emits-asking 9 10 (outcome_of o.arm_signals) _ (omega arith) λ v.
                      Emits-first 9 10 signals_armed _ (omega arith) (omega arith)
                        (Emits-quiet 10 10 _ (omega arith))))

  pub Emits-drained_as : (d : Drain) → Emits 11 12 (drained_as o d)
  Emits-drained_as (finished (gives u)) = Emits-emit 11 12 drained (omega arith) (omega arith)
  Emits-drained_as (finished (refuses s)) = Emits-quiet 11 12 _ (omega arith)
  Emits-drained_as overran = Emits-emit 11 12 drain_overran (omega arith) (omega arith)

  Emits-run : Emits 0 12 (run o)
  unfolding run
  Emits-run = Emits-bind 0 10 12 (boot o) _ (omega arith) Emits-boot λ booted.
      Emits-first 10 12 (serving booted.0) _ (omega arith) (omega arith)
        (Emits-drained_as (o.drain (stop_when booted.1.tls_inputs booted.1.schedule)))

  -- Whatever the environment and the libraries answer, the process does what it does in the order of
  -- boot and nothing twice: what it reads, the probe, the pool, the migrations, the metrics, the
  -- signals, the serving, and the drain.
  pub main-Rising : Rising 0 12 (main o).1
  unfolding main
  main-Rising = let (new, at_end, rising) = Emits-run.at [] in rw at_end rising
