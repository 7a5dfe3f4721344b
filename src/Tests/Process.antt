-- ===== src/Tests/Process.antt =====
-- The process of src/main.rs with libraries that answer well, and with an engine that cannot do what is
-- required.
use task_db.Prelude.{ℤ, Text, codes, true, none, some, List, [], ◌∷◌, ◌≡◌, refl}
use task_db.Boot.{pool_config, env_parsed, env_required_named}
use task_db.Boot.Lock.{migration_lock}
use task_db.Process.{
  Outside, Material, on_signals, on_rotation, gives, refuses, finished, tracing_started,
  secret_read, probe_connected, probe_answered,
}
use task_db.Process.Run.{
  Configured, main, run, boot, configure, probe_engine, migrate, install_metrics, failure,
}
use task_db.Process.Order.{Rising, main-Rising}
use task_db.Process.Ready.{Ready}
use task_db.Process.Serving.{served_at, exit_at, main-Ready}
use task_db.Tests.Boot.{chart, any_mode, at_least_one}

abbrev Point : Type 0
Point = Unit {0}

abbrev working :
    Outside Point Text ℤ Point Point Point Point Point (List (Material Point)) Point Point Point
working = record {
  env = chart;
  parse_ssl_mode = any_mode;
  width = 32;
  new_lock = at_least_one;
  listener = λ env. gives none;
  limits = λ env. gives tt;
  server = λ tls limits. gives tt;
  read_secret = λ path. gives tt;
  schedule = gives tt;
  watch = λ materials. materials;
  is_address = λ addr. true;
  connect_options = λ config secret. gives tt;
  probe_connect = λ options. gives tt;
  probe = gives tt;
  satisfies = λ report required. gives tt;
  probe_close = gives tt;
  connect_pool = λ config secret. gives tt;
  new_set = gives;
  apply = λ pool set lock. gives 8;
  install_metrics = λ addr. true;
  arm_signals = gives tt;
  drain = λ arms. finished (gives tt);
}

serves : served_at (main working).1 ≡ some (codes "0.0.0.0:50051")
unfolding main run boot configure probe_engine migrate install_metrics pool_config env_parsed
    env_required_named migration_lock
serves = refl

main-Ready_example :
    (c : Configured Text ℤ Point Point Point Point (List (Material Point))) × Ready working
      (codes "0.0.0.0:50051", c)
    × ((main working).0
        ≡ exit_at (working.drain (on_signals ∷ on_rotation c.tls_inputs c.schedule ∷ [])))
main-Ready_example = main-Ready working serves

-- An engine without row locks: the process stops after the probe.
abbrev too_old :
    Outside Point Text ℤ Point Point Point Point Point (List (Material Point)) Point Point Point
too_old = record working { satisfies = λ report required. refuses (codes "no row locking") }

stops : main too_old ≡ (
  failure,
  tracing_started ∷ secret_read (codes "/run/db-password") ∷ probe_connected ∷ probe_answered ∷ [],
)
unfolding main run boot configure probe_engine migrate install_metrics pool_config env_parsed
    env_required_named migration_lock
stops = refl

main-Rising_example : Rising 0 12 (main too_old).1
main-Rising_example = main-Rising too_old
