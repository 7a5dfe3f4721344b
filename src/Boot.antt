-- ===== src/Boot.antt =====
-- src/boot.rs: how the pool's configuration is read from the environment, without a default. The
-- environment is a function, as in the source; the SSL modes and the width of the pool's counts are
-- yadgar-store's, so both are parameters.
pub mod Required
pub mod Lock
use task_db.Prelude.{
  ℕ, ◌+◌, ◌-◌, ◌*◌, ◌^◌, ltb, leb, ◌==◌, Text, codes, Bool, true, ◌&&◌, ◌||◌, Option, none, some,
  [], ◌∷◌, is_some, is_empty, if◌then◌else◌,
}

abbrev pub Env : Type 0
Env = Text → Option Text

-- What `env_required` found in place of a value.
pub data Missing : Type 0 where
  not_set set_but_empty : Missing

-- `BootError`, with the key and the chart key that its sentence names.
pub data BootError (P : Type 0) : Type 0 where
  obsolete_require_tls signal_handler : BootError P
  missing_knob : Missing → Text → Text → BootError P
  migration_lock_wait : Text → BootError P
  pool : P → BootError P
  unparsable : Text → Text → Text → BootError P

pub data Booted (P : Type 0) (A : Type 0) : Type 0 where
  booted : A → Booted P A
  refused_boot : BootError P → Booted P A

infixl 5 ◌>>=◌
abbrev pub ◌>>=◌ : {P A B : Type 0} → Booted P A → (A → Booted P B) → Booted P B
refused_boot x >>= next = refused_boot x
booted a >>= next = next a

-- `u16::from_str` and its like: a `+` may stand first, then digits, below 2^width.
abbrev digits_from : ℕ → Text → Option ℕ
digits_from n [] = some n
digits_from n (c ∷ s) =
    let rest = digits_from (n * 10 + (c - 48)) s in if leb 48 c && leb c 57 then rest else none

abbrev pub digits : Text → Option ℕ
digits [] = none
digits (c ∷ s) = digits_from 0 (c ∷ s)

abbrev pub unsigned_text : Text → Option ℕ
unsigned_text [] = none
unsigned_text (c ∷ s) = if c == 43 then digits s else digits (c ∷ s)

abbrev below : ℕ → Option ℕ → Option ℕ
below limit none = none
below limit (some n) = if ltb n limit then some n else none

abbrev pub parse : ℕ → Text → Option ℕ
parse width s = below (2 ^ width) (unsigned_text s)

-- `char::is_whitespace`
abbrev pub is_whitespace : ℕ → Bool
is_whitespace c =
    (leb 9 c && leb c 13)
    || c == 32
    || c == 133
    || c == 160
    || c == 5760
    || (leb 8192 c && leb c 8202)
    || c == 8232
    || c == 8233
    || c == 8239
    || c == 8287
    || c == 12288

abbrev trim_end : Text → Text
trim_end [] = []
trim_end (c ∷ s) =
    let rest = trim_end s in if is_whitespace c && is_empty rest then [] else c ∷ rest

abbrev trim_start : Text → Text
trim_start [] = []
trim_start (c ∷ s) = let rest = trim_start s in if is_whitespace c then rest else c ∷ s

abbrev non_empty : Text → Option Text
non_empty [] = none
non_empty (c ∷ s) = some (c ∷ s)

abbrev trimmed : Option Text → Option Text
trimmed none = none
trimmed (some value) = non_empty (trim_end (trim_start value))

-- What `yadgar_store::pool::PoolConfig` is filled with; durations are in seconds.
pub record PoolConfig (Mode : Type 0) : Type 0 where
  pub host : Text
  pub port : ℕ
  pub database : Text
  pub username : Text
  pub max_connections : ℕ
  pub replicas : ℕ
  pub engine_max_connections : ℕ
  pub operator_reserve : ℕ
  pub acquire_timeout : ℕ
  pub idle_timeout : ℕ
  pub max_lifetime : ℕ
  pub ssl_mode : Mode
  pub ssl_ca : Option Text

module _ {P : Type 0} where
  abbrev pub required : Option Text → Text → Text → Booted P Text
  required none key chart_key = refused_boot (missing_knob not_set key chart_key)
  required (some []) key chart_key = refused_boot (missing_knob set_but_empty key chart_key)
  required (some (c ∷ s)) key chart_key = booted (c ∷ s)

  -- `env_required` with the sentence that `env_required_named` appends.
  unfoldable pub env_required_named : Env → Text → Text → Booted P Text
  env_required_named env key chart_key = required (env key) key chart_key

  abbrev pub or_unparsable : Text → Text → Text → Option ℕ → Booted P ℕ
  or_unparsable key chart_key raw none = refused_boot (unparsable key chart_key raw)
  or_unparsable key chart_key raw (some n) = booted n

  unfoldable pub env_parsed : ℕ → Env → Text → Text → Booted P ℕ
  env_parsed width env key chart_key = do
    raw ← env_required_named env key chart_key
    or_unparsable key chart_key raw (parse width raw)

abbrev pub obsolete_tls_key : Text
obsolete_tls_key = codes "DB_REQUIRE_TLS"

abbrev pub ssl_ca_key : Text
ssl_ca_key = codes "DB_SSL_CA_FILE"

module _ {P Mode : Type 0} (parse_ssl_mode : Text → Booted P Mode) (width : ℕ) where
  abbrev pub read_knobs : Env → Booted P (PoolConfig Mode)
  read_knobs env = do
    host ← env_required_named env (codes "DB_HOST") (codes "database.host")
    port ← env_parsed 16 env (codes "DB_PORT") (codes "database.port")
    database ← env_required_named env (codes "DB_NAME") (codes "database.name")
    username ← env_required_named env (codes "DB_USER") (codes "database.user")
    max_connections ←
        env_parsed width env (codes "DB_MAX_CONNECTIONS") (codes "database.maxConnections")
    replicas ←
        env_parsed width env (codes "REPLICAS")
          (codes "autoscaling.maxReplicas (when autoscaling.enabled is true) or replicaCount")
    engine_max_connections ←
        env_parsed width env (codes "DB_ENGINE_MAX_CONNECTIONS")
          (codes "database.engineMaxConnections")
    operator_reserve ←
        env_parsed width env (codes "DB_ENGINE_OPERATOR_RESERVE")
          (codes "database.engineOperatorReserve")
    acquire_timeout ←
        env_parsed 64 env (codes "DB_ACQUIRE_TIMEOUT_SECONDS")
          (codes "database.acquireTimeoutSeconds")
    idle_timeout ←
        env_parsed 64 env (codes "DB_IDLE_TIMEOUT_SECONDS") (codes "database.idleTimeoutSeconds")
    max_lifetime ←
        env_parsed 64 env (codes "DB_MAX_LIFETIME_SECONDS") (codes "database.maxLifetimeSeconds")
    raw_mode ← env_required_named env (codes "DB_SSL_MODE") (codes "database.sslMode")
    ssl_mode ← parse_ssl_mode raw_mode
    booted (record {
      host = host;
      port = port;
      database = database;
      username = username;
      max_connections = max_connections;
      replicas = replicas;
      engine_max_connections = engine_max_connections;
      operator_reserve = operator_reserve;
      acquire_timeout = acquire_timeout;
      idle_timeout = idle_timeout;
      max_lifetime = max_lifetime;
      ssl_mode = ssl_mode;
      ssl_ca = trimmed (env ssl_ca_key);
    })

  unfoldable pub pool_config : Env → Booted P (PoolConfig Mode)
  pool_config env =
      let config = read_knobs env in
      if is_some (env obsolete_tls_key) then refused_boot obsolete_require_tls else config
