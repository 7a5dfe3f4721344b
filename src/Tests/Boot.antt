-- ===== src/Tests/Boot.antt =====
-- The configuration of src/boot.rs in a concrete environment.
use task_db.Prelude.{
  ℤ, pos, suc, Option, Text, codes, text_eq, none, some, List, [], ◌∷◌, false, is_some, ◌≡◌, refl,
  if◌then◌else◌,
}
use task_db.Boot.{
  Env, Booted, booted, PoolConfig, pool_config, env_parsed, env_required_named, obsolete_tls_key,
}
use task_db.Boot.Lock.{migration_lock}
use task_db.Boot.Required.{Stated, pool_config-Stated}

abbrev pub lookup : List (Text × Text) → Env
lookup [] key = none
lookup ((k, v) ∷ rest) key = if text_eq k key then some v else lookup rest key

abbrev pub chart : Env
chart = lookup (
    (codes "DB_HOST", codes "maria")
    ∷ (codes "DB_PORT", codes "3306")
    ∷ (codes "DB_NAME", codes "task")
    ∷ (codes "DB_USER", codes "app")
    ∷ (codes "DB_MAX_CONNECTIONS", codes "10")
    ∷ (codes "REPLICAS", codes "2")
    ∷ (codes "DB_ENGINE_MAX_CONNECTIONS", codes "151")
    ∷ (codes "DB_ENGINE_OPERATOR_RESERVE", codes "5")
    ∷ (codes "DB_ACQUIRE_TIMEOUT_SECONDS", codes "5")
    ∷ (codes "DB_IDLE_TIMEOUT_SECONDS", codes "600")
    ∷ (codes "DB_MAX_LIFETIME_SECONDS", codes "1800")
    ∷ (codes "DB_SSL_MODE", codes "required")
    ∷ (codes "DB_SSL_CA_FILE", codes "  ")
    ∷ (codes "DB_MIGRATION_LOCK_TIMEOUT_SECONDS", codes "60")
    ∷ (codes "DB_PASSWORD_FILE", codes "/run/db-password")
    ∷ (codes "METRICS_LISTEN", codes "0.0.0.0:9090")
    ∷ (codes "LISTEN", codes "0.0.0.0:50051")
    ∷ [])

-- A mode is taken as it is spelled.
abbrev pub any_mode : Text → Booted (Unit {0}) Text
any_mode raw = booted raw

abbrev config : PoolConfig Text
config = record {
  host = codes "maria";
  port = 3306;
  database = codes "task";
  username = codes "app";
  max_connections = 10;
  replicas = 2;
  engine_max_connections = 151;
  operator_reserve = 5;
  acquire_timeout = 5;
  idle_timeout = 600;
  max_lifetime = 1800;
  ssl_mode = codes "required";
  ssl_ca = none;
}

reads : pool_config any_mode 32 chart ≡ booted config
unfolding pool_config env_parsed env_required_named
reads = refl

pool_config-Stated_example :
    (is_some (chart obsolete_tls_key) ≡ false) × Stated any_mode 32 chart config
pool_config-Stated_example = pool_config-Stated any_mode 32 chart reads

-- A wait of at least a second.
abbrev pub at_least_one : ℤ → Option ℤ
at_least_one (pos (suc n)) = some (pos (suc n))
at_least_one n = none

waits : migration_lock {P = Unit {0}} at_least_one chart ≡ booted (pos 60)
unfolding migration_lock env_required_named
waits = refl
