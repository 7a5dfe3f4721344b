-- ===== src/Process/Run.antt =====
-- src/main.rs: what the process does from its start to its end, in its order.
use task_db.Prelude.{Text, codes, Bool, true, false, Option, List, [], ◌∷◌, if◌then◌else◌}
use task_db.Boot.{Env, PoolConfig, pool_config}
use task_db.Boot.Lock.{migration_lock}
use task_db.Schema
use task_db.Schema.{Migration}
use task_db.Process.{
  Event, tracing_started, secret_read, probe_connected, probe_answered, probe_closed,
  pool_connected, migrated, metrics_served, metrics_unavailable, not_after_exported, signals_armed,
  serving, drained, drain_overran, unusable_address, said, Outcome, went_on, stopped, gives,
  refuses, Capability, Drain, finished, overran, stop_when, watch_set, Outside, Act, ◌>>=◌, ◌>>◌,
  pure, emit, ask, read_boot, variable,
}

-- `env_required` of the binary
abbrev pub env_required : {P : Type 0} → Env → Text → Act P Text
env_required env key log = (variable (env key) key, log)

-- `required`
abbrev pub required : List Capability
required = Capability.transactions ∷ Capability.row_locking ∷ []

pub record Configured (Mode Lock Tls Server Secret Schedule Inputs : Type 0) : Type 0 where
  pub config : PoolConfig Mode
  pub migration_lock : Lock
  pub tls : Option Tls
  pub server : Server
  pub secret : Secret
  pub schedule : Schedule
  pub tls_inputs : Inputs

-- `ExitCode`
pub data Exit : Type 0 where
  success failure : Exit

abbrev pub exit_of : {P A : Type 0} → Outcome P A → Exit
exit_of (went_on a) = success
exit_of (stopped r) = failure

module _ {P Mode Lock Tls Limits Server Secret Schedule Inputs Options Report Pool : Type 0}
    (o : Outside P Mode Lock Tls Limits Server Secret Schedule Inputs Options Report Pool) where
  -- `parse_listen_addr`
  abbrev pub parse_listen_addr : Text → Text → Act P Text
  parse_listen_addr key value log =
      (if o.is_address value then went_on value else stopped (unusable_address key value), log)

  unfoldable pub configure : Act P (Configured Mode Lock Tls Server Secret Schedule Inputs)
  configure = do
    config ← read_boot (pool_config o.parse_ssl_mode o.width o.env)
    migration_lock ← read_boot (migration_lock o.new_lock o.env)
    tls ← ask (o.listener o.env)
    limits ← ask (o.limits o.env)
    server ← ask (o.server tls limits)
    db_password_file ← env_required o.env (codes "DB_PASSWORD_FILE")
    secret ← ask (o.read_secret db_password_file)
    emit (secret_read db_password_file)
    schedule ← ask o.schedule
    pure (record {
      config = config;
      migration_lock = migration_lock;
      tls = tls;
      server = server;
      secret = secret;
      schedule = schedule;
      tls_inputs = o.watch (watch_set tls db_password_file config.ssl_ca);
    })

  -- Steps 1 and 2 of `probe_and_migrate`.
  unfoldable pub probe_engine : PoolConfig Mode → Secret → Act P (Unit {0})
  probe_engine config secret = do
    options ← ask (o.connect_options config secret)
    ask (o.probe_connect options)
    emit probe_connected
    report ← ask o.probe
    emit probe_answered
    ask (o.satisfies report required)
    ask o.probe_close
    emit probe_closed

  unfoldable pub migrate : PoolConfig Mode → Secret → Lock → Act P Pool
  migrate config secret lock = do
    pool ← ask (o.connect_pool config secret)
    emit pool_connected
    set ← ask (Schema.migrations o.new_set)
    applied ← ask (o.apply pool set lock)
    emit (migrated applied)
    pure pool

  abbrev pub probe_and_migrate : PoolConfig Mode → Secret → Lock → Act P Pool
  probe_and_migrate config secret lock = do probe_engine config secret; migrate config secret lock

  abbrev pub metrics_event : Bool → Event
  metrics_event true = metrics_served
  metrics_event false = metrics_unavailable

  -- A failure to serve metrics is logged and goes on.
  unfoldable pub install_metrics : Act P (Unit {0})
  install_metrics = do
    listen ← env_required o.env (codes "METRICS_LISTEN")
    addr ← parse_listen_addr (codes "METRICS_LISTEN") listen
    emit (metrics_event (o.install_metrics addr))

  abbrev pub drained_as : Drain → Act P (Unit {0})
  drained_as (finished (gives u)) = emit drained
  drained_as (finished (refuses s)) = λ log. (stopped (said s), log)
  drained_as overran = emit drain_overran

  -- `run` up to the serving: where it serves, and what it was configured with.
  unfoldable pub boot : Act P (Text × Configured Mode Lock Tls Server Secret Schedule Inputs)
  boot = do
    emit tracing_started
    c ← configure
    probe_and_migrate c.config c.secret c.migration_lock
    install_metrics
    emit not_after_exported
    listen ← env_required o.env (codes "LISTEN")
    addr ← parse_listen_addr (codes "LISTEN") listen
    ask o.arm_signals
    emit signals_armed
    pure (addr, c)

  unfoldable pub run : Act P (Unit {0})
  run = do
    booted ← boot
    emit (serving booted.0)
    drained_as (o.drain (stop_when booted.1.tls_inputs booted.1.schedule))

  unfoldable pub main : Exit × List Event
  main = let (ended, log) = run [] in (exit_of ended, log)
