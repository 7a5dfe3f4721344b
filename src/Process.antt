-- ===== src/Process.antt =====
-- src/main.rs: the process as an action with a log of events. What it calls of the libraries is the
-- record `Outside`; what it does with them is in Run.
pub mod Run
pub mod Order
pub mod Ready
pub mod Serving
use task_db.Prelude.{ℕ, ℤ, Text, Bool, Option, none, some, List, [], ◌∷◌, ◌++◌}
use task_db.Boot.{
  Env, BootError, Missing, not_set, set_but_empty, Booted, booted, refused_boot, PoolConfig,
}
use task_db.Schema.{Migration}

-- What the boot log, the engine and the network see of the process.
pub data Event : Type 0 where
  tracing_started : Event
  secret_read : Text → Event
  probe_connected probe_answered probe_closed : Event
  pool_connected : Event
  migrated : ℕ → Event
  metrics_served metrics_unavailable : Event
  not_after_exported : Event
  signals_armed : Event
  serving : Text → Event
  drained drain_overran : Event

-- A refusal, with what its sentence names.
pub data Refusal (P : Type 0) : Type 0 where
  configuration : BootError P → Refusal P
  missing_variable : Missing → Text → Refusal P
  unusable_address : Text → Text → Refusal P
  said : Text → Refusal P

pub data Outcome (P A : Type 0) : Type 0 where
  went_on : A → Outcome P A
  stopped : Refusal P → Outcome P A

-- What a library answers: a value, or its own sentence.
pub data Answered (A : Type 0) : Type 0 where
  gives : A → Answered A
  refuses : Text → Answered A

-- What the engine must be able to do.
pub data Capability : Type 0 where
  transactions row_locking : Capability

-- How the serving ends: within the drain's budget, well or not, or beyond it.
pub data Drain : Type 0 where
  finished : Answered (Unit {0}) → Drain
  overran : Drain

-- What may end the serving: the signals, or what the watch reads of its inputs.
pub data Arm (Inputs Schedule : Type 0) : Type 0 where
  on_signals : Arm Inputs Schedule
  on_rotation : Inputs → Schedule → Arm Inputs Schedule

-- `stop_when`: the arms of its `select!`
abbrev pub stop_when : {Inputs Schedule : Type 0} → Inputs → Schedule → List (Arm Inputs Schedule)
stop_when tls_inputs schedule = on_signals ∷ on_rotation tls_inputs schedule ∷ []

-- What is watched for a rotation: the listener's files, the database password, the engine's authority
-- and the mounted configuration document.
pub data Material (Tls : Type 0) : Type 0 where
  listener_files : Option Tls → Material Tls
  db_password : Text → Material Tls
  db_ssl_ca : Option Text → Material Tls
  configuration_document : Material Tls

-- `watch_set` of src/rotate.rs
abbrev pub watch_set : {Tls : Type 0} → Option Tls → Text → Option Text → List (Material Tls)
watch_set listener password ssl_ca =
    listener_files listener ∷ db_password password ∷ db_ssl_ca ssl_ca ∷ configuration_document ∷ []

-- The libraries' part: yadgar-store, yadgar-lifecycle, yadgar-telemetry, sqlx and tonic.
pub record Outside
    (P Mode Lock Tls Limits Server Secret Schedule Inputs Options Report Pool : Type 0)
    : Type 0 where
  pub env : Env
  pub parse_ssl_mode : Text → Booted P Mode
  pub width : ℕ
  pub new_lock : ℤ → Option Lock
  pub listener : Env → Answered (Option Tls)
  pub limits : Env → Answered Limits
  pub server : Option Tls → Limits → Answered Server
  pub read_secret : Text → Answered Secret
  pub schedule : Answered Schedule
  pub watch : List (Material Tls) → Inputs
  pub is_address : Text → Bool
  pub connect_options : PoolConfig Mode → Secret → Answered Options
  pub probe_connect : Options → Answered (Unit {0})
  pub probe : Answered Report
  pub satisfies : Report → List Capability → Answered (Unit {0})
  pub probe_close : Answered (Unit {0})
  pub connect_pool : PoolConfig Mode → Secret → Answered Pool
  pub new_set : List Migration → Answered (List Migration)
  pub apply : Pool → List Migration → Lock → Answered ℕ
  pub install_metrics : Text → Bool
  pub arm_signals : Answered (Unit {0})
  pub drain : List (Arm Inputs Schedule) → Drain

-- An action of the process: what has happened so far, and what has happened then.
abbrev pub Act : Type 0 → Type 0 → Type 0
Act P A = List Event → Outcome P A × List Event

abbrev pub onwards : {P A B : Type 0} → Outcome P A → (A → Act P B) → Act P B
onwards (went_on a) f log = f a log
onwards (stopped r) f log = (stopped r, log)

infixl 10 ◌>>=◌ ◌>>◌
abbrev pub ◌>>=◌ : {P A B : Type 0} → Act P A → (A → Act P B) → Act P B
◌>>=◌ m f log = let (r, log') = m log in onwards r f log'

abbrev pub ◌>>◌ : {P A B : Type 0} → Act P A → Act P B → Act P B
m >> k = m >>= λ _. k

abbrev pub pure : {P A : Type 0} → A → Act P A
pure a log = (went_on a, log)

abbrev pub emit : {P : Type 0} → Event → Act P (Unit {0})
emit event log = (went_on tt, log ++ event ∷ [])

abbrev pub outcome_of : {P A : Type 0} → Answered A → Outcome P A
outcome_of (gives a) = went_on a
outcome_of (refuses s) = stopped (said s)

-- `?` on what a library answers, and on what src/boot.rs answers.
abbrev pub ask : {P A : Type 0} → Answered A → Act P A
ask a log = (outcome_of a, log)

abbrev pub outcome_of_boot : {P A : Type 0} → Booted P A → Outcome P A
outcome_of_boot (booted a) = went_on a
outcome_of_boot (refused_boot x) = stopped (configuration x)

abbrev pub read_boot : {P A : Type 0} → Booted P A → Act P A
read_boot b log = (outcome_of_boot b, log)

abbrev pub variable : {P : Type 0} → Option Text → Text → Outcome P Text
variable none key = stopped (missing_variable not_set key)
variable (some []) key = stopped (missing_variable set_but_empty key)
variable (some (c ∷ s)) key = went_on (c ∷ s)
