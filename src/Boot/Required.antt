-- ===== src/Boot/Required.antt =====
-- A configuration that src/boot.rs reads rests on the environment alone.
use task_db.Prelude.{
  ℕ, Text, codes, false, Bool-cases, Option, none, some, [], ◌∷◌, is_some, is_empty, ◌≡◌, refl, ap,
  inl, inr, arith,
}
use task_db.Boot.{
  Env, Booted, booted, refused_boot, PoolConfig, required, env_required_named, or_unparsable,
  env_parsed, parse, trimmed, obsolete_tls_key, ssl_ca_key, read_knobs, pool_config, ◌>>=◌,
}

-- The variable is set, and not to nothing.
abbrev pub Given : Env → Text → Text → Type 0
Given env key value = (env key ≡ some value) × (is_empty value ≡ false)

-- The variable is set to a whole number of that many bits.
abbrev pub Counted : ℕ → Env → Text → ℕ → Type 0
Counted width env key n = (raw : Text) × Given env key raw × (parse width raw ≡ some n)

module _ {P : Type 0} where
  pub bind-eq-booted :
      {A B : Type 0} (first : Booted P A) (next : A → Booted P B) {b : B}
      → (first >>= next) ≡ booted b
      → (a : A) × (first ≡ booted a) × (next a ≡ booted b)
  bind-eq-booted (booted a) next h = (a, refl, h)
  bind-eq-booted (refused_boot x) next h = cc

  pub booted_injective : {A : Type 0} {a b : A} → ◌≡◌ {A = Booted P A} (booted a) (booted b) → a ≡ b
  booted_injective {a} {b} h = ground arith

  required-eq-booted :
      (o : Option Text) (key chart_key : Text) {value : Text}
      → required {P = P} o key chart_key ≡ booted value
      → (o ≡ some value) × (is_empty value ≡ false)
  required-eq-booted none key chart_key h = cc
  required-eq-booted (some []) key chart_key h = cc
  required-eq-booted (some (c ∷ s)) key chart_key {value} h =
      let same = booted_injective {a = c ∷ s} {b = value} h in (ap some same, rw (← same) refl)

  pub named-Given :
      (env : Env) (key chart_key : Text) {value : Text}
      → env_required_named {P = P} env key chart_key ≡ booted value
      → Given env key value
  unfolding env_required_named
  named-Given env key chart_key h = required-eq-booted (env key) key chart_key h

  or_unparsable-eq-booted :
      (o : Option ℕ) (key chart_key raw : Text) {n : ℕ}
      → or_unparsable {P = P} key chart_key raw o ≡ booted n
      → o ≡ some n
  or_unparsable-eq-booted none key chart_key raw h = cc
  or_unparsable-eq-booted (some m) key chart_key raw {n} h =
      ap some (booted_injective {a = m} {b = n} h)

  parsed-Counted :
      (width : ℕ) (env : Env) (key chart_key : Text) {n : ℕ}
      → env_parsed {P = P} width env key chart_key ≡ booted n
      → Counted width env key n
  unfolding env_parsed
  parsed-Counted width env key chart_key h =
      let (raw, found, rest) =
        bind-eq-booted (env_required_named {P = P} env key chart_key)
          (λ raw. or_unparsable key chart_key raw (parse width raw)) h in
      (
        raw,
        named-Given env key chart_key found,
        or_unparsable-eq-booted (parse width raw) key chart_key raw rest,
      )

  -- A knob that is read first, in a chain that answers.
  Given-first :
      {B : Type 0} (env : Env) (key chart_key : Text) (next : Text → Booted P B) {b : B}
      → (env_required_named env key chart_key >>= next) ≡ booted b
      → (value : Text) × Given env key value × (next value ≡ booted b)
  Given-first env key chart_key next h =
      let (value, found, rest) = bind-eq-booted (env_required_named env key chart_key) next h in
      (value, named-Given env key chart_key found, rest)

  Counted-first :
      {B : Type 0} (width : ℕ) (env : Env) (key chart_key : Text) (next : ℕ → Booted P B) {b : B}
      → (env_parsed width env key chart_key >>= next) ≡ booted b
      → (n : ℕ) × Counted width env key n × (next n ≡ booted b)
  Counted-first width env key chart_key next h =
      let (n, found, rest) = bind-eq-booted (env_parsed width env key chart_key) next h in
      (n, parsed-Counted width env key chart_key found, rest)

module _ {P Mode : Type 0} (parse_ssl_mode : Text → Booted P Mode) (width : ℕ) where
  -- Where every knob of a configuration has come from.
  abbrev pub Stated : Env → PoolConfig Mode → Type 0
  Stated env c =
      Given env (codes "DB_HOST") c.host
      × Counted 16 env (codes "DB_PORT") c.port
      × Given env (codes "DB_NAME") c.database
      × Given env (codes "DB_USER") c.username
      × Counted width env (codes "DB_MAX_CONNECTIONS") c.max_connections
      × Counted width env (codes "REPLICAS") c.replicas
      × Counted width env (codes "DB_ENGINE_MAX_CONNECTIONS") c.engine_max_connections
      × Counted width env (codes "DB_ENGINE_OPERATOR_RESERVE") c.operator_reserve
      × Counted 64 env (codes "DB_ACQUIRE_TIMEOUT_SECONDS") c.acquire_timeout
      × Counted 64 env (codes "DB_IDLE_TIMEOUT_SECONDS") c.idle_timeout
      × Counted 64 env (codes "DB_MAX_LIFETIME_SECONDS") c.max_lifetime
      × ((raw : Text) × Given env (codes "DB_SSL_MODE") raw
          × (parse_ssl_mode raw ≡ booted c.ssl_mode))
      × (c.ssl_ca ≡ trimmed (env ssl_ca_key))

  read_knobs-Stated :
      (env : Env) {c : PoolConfig Mode}
      → read_knobs parse_ssl_mode width env ≡ booted c
      → Stated env c
  read_knobs-Stated env {c} h =
      let (host, g1, k1) = Given-first env (codes "DB_HOST") _ _ h in
      let (port, g2, k2) = Counted-first 16 env (codes "DB_PORT") _ _ k1 in
      let (database, g3, k3) = Given-first env (codes "DB_NAME") _ _ k2 in
      let (username, g4, k4) = Given-first env (codes "DB_USER") _ _ k3 in
      let (most, g5, k5) = Counted-first width env (codes "DB_MAX_CONNECTIONS") _ _ k4 in
      let (replicas, g6, k6) = Counted-first width env (codes "REPLICAS") _ _ k5 in
      let (engine, g7, k7) = Counted-first width env (codes "DB_ENGINE_MAX_CONNECTIONS") _ _ k6 in
      let (reserve, g8, k8) = Counted-first width env (codes "DB_ENGINE_OPERATOR_RESERVE") _ _ k7 in
      let (acquire, g9, k9) = Counted-first 64 env (codes "DB_ACQUIRE_TIMEOUT_SECONDS") _ _ k8 in
      let (idle, g10, k10) = Counted-first 64 env (codes "DB_IDLE_TIMEOUT_SECONDS") _ _ k9 in
      let (life, g11, k11) = Counted-first 64 env (codes "DB_MAX_LIFETIME_SECONDS") _ _ k10 in
      let (raw, g12, k12) = Given-first env (codes "DB_SSL_MODE") _ _ k11 in
      let (mode, g13, k13) = bind-eq-booted (parse_ssl_mode raw) _ k12 in
      rw (← booted_injective k13)
        (g1, g2, g3, g4, g5, g6, g7, g8, g9, g10, g11, (raw, g12, g13), refl)

  -- A configuration is read only where DB_REQUIRE_TLS is not set and each of the twelve required
  -- variables is set and not empty, and it holds what they say, the numbers within their widths:
  -- no knob has a default. The authority is DB_SSL_CA_FILE trimmed, and none where that is absent
  -- or blank.
  pub pool_config-Stated :
      (env : Env) {c : PoolConfig Mode}
      → pool_config parse_ssl_mode width env ≡ booted c
      → (is_some (env obsolete_tls_key) ≡ false) × Stated env c
  unfolding pool_config
  pool_config-Stated env {c} h = elim (Bool-cases (is_some (env obsolete_tls_key))) [
    | inl obsolete ↦ let stopped : refused_boot _ ≡ booted c = rw obsolete at h in cc
    | inr clear ↦ (clear, read_knobs-Stated env {c = c} (rw clear at h))
  ]
