-- ===== src/Process/Ready.antt =====
-- What has come before the process of src/main.rs serves.
use task_db.Prelude.{
  ℕ, Text, codes, Bool, true, false, is_empty, is_some, Option, none, some, List, [], ◌∷◌, ◌++◌,
  if◌then◌else◌, ◌≡◌, refl, ap, arith,
}
use mathlib.Core.Path.{subst}
use task_db.Boot.{PoolConfig, Booted, booted, refused_boot, pool_config, obsolete_tls_key}
use task_db.Boot.Required.{Given, Stated, pool_config-Stated}
use task_db.Boot.Lock.{migration_lock, Waits, migration_lock-Waits}
use task_db.Schema
use task_db.Process.{
  Event, tracing_started, secret_read, probe_connected, probe_answered, pool_connected,
  not_after_exported, signals_armed, Outcome, went_on, stopped, Outside, Act, onwards, emit, pure,
  ◌>>=◌, ◌>>◌, Answered, gives, refuses, unusable_address, listener_files, db_password, db_ssl_ca,
  configuration_document, variable, outcome_of, outcome_of_boot,
}
use task_db.Process.Run.{
  Configured, configure, probe_engine, migrate, probe_and_migrate, install_metrics, boot, required,
}

module _ {P : Type 0} where
  abbrev pub Goes : {A : Type 0} → Act P A → List Event → A → Type 0
  Goes m log a = (m log).0 ≡ went_on a

  pub Goes-onwards :
      {A B : Type 0} (r : Outcome P A) (f : A → Act P B) (log : List Event) {b : B}
      → (onwards r f log).0 ≡ went_on b
      → (a : A) × (r ≡ went_on a) × Goes (f a) log b
  Goes-onwards (went_on a) f log h = (a, refl, h)
  Goes-onwards (stopped x) f log h = cc

  -- What is known where an action goes on.
  pub record Shows {A : Type 0} (m : Act P A) (Q : A → Type 0) : Type 0 where
    pub at : (log : List Event) (a : A) → Goes m log a → Q a

  Shows-bind :
      {A B : Type 0} (m : Act P A) (f : A → Act P B) (R : A → Type 0) (Q : B → Type 0)
      → Shows m R
      → ((a : A) → R a → Shows (f a) Q)
      → Shows (m >>= f) Q
  Shows-bind m f R Q first next = record {
    at = λ log b h.
        let (a, here, rest) = Goes-onwards (m log).0 f (m log).1 h in
        (next a (first.at log a here)).at (m log).1 b rest;
  }

  -- A question that was answered.
  Shows-asking :
      {A B : Type 0} (r : Outcome P A) (f : A → Act P B) (Q : B → Type 0)
      → ((a : A) → r ≡ went_on a → Shows (f a) Q)
      → Shows ((λ log. (r, log)) >>= f) Q
  Shows-asking r f Q next = record {
    at = λ log b h. let (a, here, rest) = Goes-onwards r f log h in (next a here).at log b rest;
  }

  Shows-first :
      {B : Type 0} (x : Event) (m : Act P B) (Q : B → Type 0) → Shows m Q → Shows (emit x >> m) Q
  Shows-first x m Q next = record { at = λ log b h. next.at (log ++ x ∷ []) b h }

  went_on_injective : {A : Type 0} {a b : A} → ◌≡◌ {A = Outcome P A} (went_on a) (went_on b) → a ≡ b
  went_on_injective {a} {b} h = ground arith

  Shows-pure : {A : Type 0} (a : A) (Q : A → Type 0) → Q a → Shows (pure a) Q
  Shows-pure a Q h = record {
    at = λ log b went. subst Q (went_on_injective {a = a} {b = b} went) h;
  }

  -- An action of which nothing more is to be known.
  Shows-known : {A : Type 0} (m : Act P A) (X : Type 0) → X → Shows m (λ a. X)
  Shows-known m X x = record { at = λ log a h. x }

  outcome_of-eq-went_on :
      {A : Type 0} (x : Answered A) {a : A} → outcome_of {P = P} x ≡ went_on a → x ≡ gives a
  outcome_of-eq-went_on (gives b) {a} h = ap gives (went_on_injective {a = b} {b = a} h)
  outcome_of-eq-went_on (refuses s) h = cc

  outcome_of_boot-eq-went_on :
      {A : Type 0} (x : Booted P A) {a : A} → outcome_of_boot x ≡ went_on a → x ≡ booted a
  outcome_of_boot-eq-went_on (booted b) {a} h = ap booted (went_on_injective {a = b} {b = a} h)
  outcome_of_boot-eq-went_on (refused_boot s) h = cc

  variable-eq-went_on :
      (value : Option Text) (key : Text) {text : Text}
      → variable {P = P} value key ≡ went_on text
      → (value ≡ some text) × (is_empty text ≡ false)
  variable-eq-went_on none key h = cc
  variable-eq-went_on (some []) key h = cc
  variable-eq-went_on (some (c ∷ s)) key {text} h =
      let same = went_on_injective {a = c ∷ s} {b = text} h in (ap some same, rw (← same) refl)

  address-eq-went_on :
      (fits : Bool) (key value : Text) {addr : Text}
      → ◌≡◌ {A = Outcome P Text}
          (if fits then went_on value else stopped (unusable_address key value))
          (went_on addr)
      → (fits ≡ true) × (value ≡ addr)
  address-eq-went_on true key value {addr} h = (refl, went_on_injective {a = value} {b = addr} h)
  address-eq-went_on false key value h = cc

module _ {P Mode Lock Tls Limits Server Secret Schedule Inputs Options Report Pool : Type 0}
    (o : Outside P Mode Lock Tls Limits Server Secret Schedule Inputs Options Report Pool) where
  -- A configuration that was read, listener and secret included.
  abbrev pub Read : Configured Mode Lock Tls Server Secret Schedule Inputs → Type 0
  Read c =
      (is_some (o.env obsolete_tls_key) ≡ false)
      × Stated o.parse_ssl_mode o.width o.env c.config
      × Waits o.new_lock o.env c.migration_lock
      × (o.listener o.env ≡ gives c.tls)
      × ((limits : Limits) × (o.limits o.env ≡ gives limits)
          × (o.server c.tls limits ≡ gives c.server))
      × ((path : Text) × Given o.env (codes "DB_PASSWORD_FILE") path
          × (o.read_secret path ≡ gives c.secret)
          × (c.tls_inputs
              ≡ o.watch (
                  listener_files c.tls
                  ∷ db_password path
                  ∷ db_ssl_ca c.config.ssl_ca
                  ∷ configuration_document
                  ∷ [])))
      × (o.schedule ≡ gives c.schedule)

  -- An engine that can do what is required.
  abbrev pub Probed : PoolConfig Mode → Secret → Type 0
  Probed config secret =
      (options : Options) × (report : Report) × (o.connect_options config secret ≡ gives options)
      × (o.probe_connect options ≡ gives tt)
      × (o.probe ≡ gives report)
      × (o.satisfies report required ≡ gives tt)

  -- A schema at the last migration.
  abbrev pub Migrated : PoolConfig Mode → Secret → Lock → Type 0
  Migrated config secret lock =
      (pool : Pool) × (set : List Schema.Migration) × (n : ℕ) × (o.connect_pool config secret
        ≡ gives pool)
      × (Schema.migrations o.new_set ≡ gives set)
      × (o.apply pool set lock ≡ gives n)

  abbrev pub Ready : Text × Configured Mode Lock Tls Server Secret Schedule Inputs → Type 0
  Ready (addr, c) =
      Read c
      × Probed c.config c.secret
      × Migrated c.config c.secret c.migration_lock
      × Given o.env (codes "LISTEN") addr
      × (o.is_address addr ≡ true)
      × (o.arm_signals ≡ gives tt)

  Shows-configure : Shows (configure o) Read
  unfolding configure
  Shows-configure =
      Shows-asking (outcome_of_boot (pool_config o.parse_ssl_mode o.width o.env)) _ _ λ config r1.
        Shows-asking (outcome_of_boot (migration_lock o.new_lock o.env)) _ _ λ lock r2.
          Shows-asking (outcome_of (o.listener o.env)) _ _ λ tls r3.
            Shows-asking (outcome_of (o.limits o.env)) _ _ λ limits r4.
              Shows-asking (outcome_of (o.server tls limits)) _ _ λ server r5.
                Shows-asking
                  (variable (o.env (codes "DB_PASSWORD_FILE")) (codes "DB_PASSWORD_FILE")) _ _
                  λ path r6. Shows-asking (outcome_of (o.read_secret path)) _ _ λ secret r7.
                    Shows-first (secret_read path) _ _ (
                      Shows-asking (outcome_of o.schedule) _ _ λ schedule r8. Shows-pure _ Read (
                        let (clear, stated) = pool_config-Stated o.parse_ssl_mode o.width o.env (
                          outcome_of_boot-eq-went_on (pool_config o.parse_ssl_mode o.width o.env)
                            r1) in
                        (
                          clear,
                          stated,
                          migration_lock-Waits o.new_lock o.env
                              (outcome_of_boot-eq-went_on (migration_lock o.new_lock o.env) r2),
                          outcome_of-eq-went_on (o.listener o.env) r3,
                          (
                            limits,
                            outcome_of-eq-went_on (o.limits o.env) r4,
                            outcome_of-eq-went_on (o.server tls limits) r5,
                          ),
                          (
                            path,
                            variable-eq-went_on (o.env (codes "DB_PASSWORD_FILE"))
                                (codes "DB_PASSWORD_FILE") r6,
                            outcome_of-eq-went_on (o.read_secret path) r7,
                            refl,
                          ),
                          outcome_of-eq-went_on o.schedule r8,
                        )))

  Shows-probe_engine :
      (config : PoolConfig Mode) (secret : Secret)
      → Shows (probe_engine o config secret) (λ u. Probed config secret)
  unfolding probe_engine
  Shows-probe_engine config secret =
      Shows-asking (outcome_of (o.connect_options config secret)) _ _ λ options r1.
        Shows-asking (outcome_of (o.probe_connect options)) _ _ λ u r2.
          Shows-first probe_connected _ _ (
            Shows-asking (outcome_of o.probe) _ _ λ report r3. Shows-first probe_answered _ _ (
              Shows-asking (outcome_of (o.satisfies report required)) _ _ λ v r4.
                Shows-known _ (Probed config secret) (
                  options,
                  report,
                  outcome_of-eq-went_on (o.connect_options config secret) r1,
                  outcome_of-eq-went_on (o.probe_connect options) r2,
                  outcome_of-eq-went_on o.probe r3,
                  outcome_of-eq-went_on (o.satisfies report required) r4,
                )))

  Shows-migrate :
      (config : PoolConfig Mode) (secret : Secret) (lock : Lock)
      → Shows (migrate o config secret lock) (λ pool. Migrated config secret lock)
  unfolding migrate
  Shows-migrate config secret lock =
      Shows-asking (outcome_of (o.connect_pool config secret)) _ _ λ pool r1.
        Shows-first pool_connected _ _ (
          Shows-asking (outcome_of (Schema.migrations o.new_set)) _ _ λ set r2.
            Shows-asking (outcome_of (o.apply pool set lock)) _ _ λ applied r3.
              Shows-known _ (Migrated config secret lock) (
                pool,
                set,
                applied,
                outcome_of-eq-went_on (o.connect_pool config secret) r1,
                outcome_of-eq-went_on (Schema.migrations o.new_set) r2,
                outcome_of-eq-went_on (o.apply pool set lock) r3,
              ))

  pub Shows-boot : Shows (boot o) Ready
  unfolding boot
  Shows-boot = Shows-first tracing_started _ _ (
      Shows-bind (configure o) _ Read _ Shows-configure λ c read.
        Shows-bind (probe_and_migrate o c.config c.secret c.migration_lock) _
          (λ pool. Probed c.config c.secret × Migrated c.config c.secret c.migration_lock) _
          (Shows-bind (probe_engine o c.config c.secret) _ (λ u. Probed c.config c.secret) _
            (Shows-probe_engine c.config c.secret)
            (λ u probed. record {
              at = λ log pool h.
                  (probed, (Shows-migrate c.config c.secret c.migration_lock).at log pool h);
            }))
          λ pool stood.
            Shows-bind (install_metrics o) _ (λ u. Unit {0}) _ (Shows-known _ Unit tt)
              λ u v. Shows-first not_after_exported _ _ (
                Shows-asking (variable (o.env (codes "LISTEN")) (codes "LISTEN")) _ _ λ listen r1.
                  Shows-asking
                    (if o.is_address listen
                      then went_on listen
                      else stopped (unusable_address (codes "LISTEN") listen))
                    _ _
                    λ addr r2. Shows-asking (outcome_of o.arm_signals) _ _ λ armed r3.
                      Shows-first signals_armed _ _ (
                        Shows-pure (addr, c) Ready
                          (let (fits, same) =
                              address-eq-went_on (o.is_address listen) (codes "LISTEN") listen r2 in
                            (
                              read,
                              stood.0,
                              stood.1,
                              subst (Given o.env (codes "LISTEN")) same (
                                  variable-eq-went_on (o.env (codes "LISTEN")) (codes "LISTEN") r1),
                              subst (λ a. o.is_address a ≡ true) same fits,
                              outcome_of-eq-went_on o.arm_signals r3,
                            )))))
