-- ===== src/Lib.antt =====
-- A model of task-db, the gRPC service that keeps the tasks of Yadgar in MariaDB, and theorems on it.
--
-- The program. A request comes in at src/service.rs, which hands it to one of six handlers:
-- CreateTask, UpdateTask and DeleteTask (src/write.rs), GetTask and ListTasks (src/read.rs) and
-- LookupWrite (src/idem/lookup.rs). A handler reads the caller's scope, builds the WHERE clause that
-- keeps it to what the caller may see (src/sql.rs, with the inherited setting of src/setting.rs) and
-- talks to the engine through a pool. A write is one transaction (src/txn.rs): it claims its key in
-- the ledger of src/idem.rs, or replays what stands there, writes its row, records its answer and
-- commits. src/sql/status.rs makes statuses of the engine's errors.
--
-- Files.
--   Prelude, Status, Proto  shared names and lemmas; statuses and `Result`; the messages of
--                           proto/yadgar/task/v1/task.proto and proto/yadgar/common/v1/common.proto
--   Setting                 src/setting.rs: `resolve`, `owner_reach` and its probe. Order, Probe and
--                           Projection hold the lemmas and the theorems
--   Sql                     src/sql.rs: `Reach` and its clauses. Where is the syntax of the clauses,
--                           their text (`render`) and what they mean on a row (`eval`); Axes says
--                           without SQL who may see and edit what; Access, Granting and Pattern
--                           hold the theorems; Errors is src/sql/status.rs; Rendering compares the texts
--   Engine, Wire            what is not in the repository: the engine and the encodings (below)
--   Txn                     src/txn.rs and the part of sqlx that the handlers drive: `acquire`,
--                           `begin`, `execute`, `commit`, `rollback` on a `Session`, and
--                           `autocommit` for a statement outside any transaction. Atomic,
--                           Inversion and Triple hold the rules for reasoning on an action; Held is
--                           the guard of a connection whose BEGIN has not been answered
--   Tables                  what the statements do to the tables `task`, `task_counter` and
--                           `task_write` of src/schema.rs, with their keys and bounds
--   Idem, Lookup            src/idem.rs and src/idem/lookup.rs
--   Write                   src/write.rs, with Create, Update and Delete for its three
--                           operations; Mask is src/write/mask.rs, Payload src/write/payload.rs.
--                           Atomicity, Numbering, Selection, Bounds, Ending, Created, Updated, Deleted,
--                           Retry, Columns and Stale hold the theorems and their lemmas
--   Read                    src/read.rs and src/rows.rs. Paging, Listing, Ordering, Walk, Answering,
--                           Described and Pages hold what a page is and what a client gets that follows the tokens
--   Service                 src/service.rs: the dispatch, with what telemetry records of a call
--   History                 sequences of RPCs (`run`): a property of the tables that every statement
--                           keeps (`Statements`), every sequence keeps. Keeping, Serving and Runs
--                           show it; Valid, Growth and Durable are such properties, with Collation,
--                           Distinct, Keys and Extends on tables and their keys; Retries, Lookups
--                           and Asked are about a write's retry and its LookupWrite after other RPCs
--   Boot                    src/boot.rs: the pool's configuration from the environment; Lock is
--                           src/boot/lock.rs
--   Schema                  src/schema.rs: the migrations and their order. Counting, Healing, Order and
--                           Upgrade hold what they make of the tables
--   Process                 src/main.rs: the process as a log of events, with `watch_set` of
--                           src/rotate.rs; Run is what it does. Order, Ready and Serving hold the
--                           theorems
--   Tests                   the model at concrete requests
--
-- How state is modelled. A `Db` is the three tables. A handler is an action `Rpc`, a function from a
-- `Session` to an answer and a session. A session has the committed tables, the tables as the
-- transaction sees them, what the pool will say and a script of answers: each statement in turn runs,
-- or fails with an error of the engine, and a commit or a rollback may take effect and be reported as
-- a failure. A theorem that takes any `Weather` holds for every pool and every script, so for a
-- failure at every statement. What is not committed when a handler returns is dropped, as sqlx rolls
-- back a dropped transaction. A statement of a read is in no transaction and commits by itself.
--
-- Parameters. `Engine` is MariaDB: its collation as an equivalence of texts (the default of
-- utf8mb4, which ignores case, is one, and so is `==`), its order, LIKE's
-- comparison of characters, and its errors for a duplicate key, for the title's check and for a value
-- out of range. `Wire` is prost and sha2: encodings, with decode after encode the identity, and
-- digests of 32 bytes. `Deadline::bound` of yadgar-dial, the UUID and the engine's clock are
-- arguments, and so are `parse_ssl_mode` and the width of the pool's counts of yadgar-store. `Sqlx` is
-- what a connection is once it is back in the pool, and `Outside` what the libraries answer the process.
--
-- Bounds and fuel. Numbers are natural; `version` is below 2^64, a counter below 2^32, a title has at
-- most 128 characters, `as i8` wraps (`as_i8`). The one loop without a bound in the source, the probe
-- for a team that the setting does not name, runs on fuel: one more than the number of named teams,
-- since each round that fails uses up a name. `walk`, the client of Read/Answering, needs one page more
-- than there are rows.
--
-- Not modelled: two transactions at once (a call is one step on the tables, which the row locks of
-- `FOR UPDATE` and the compare-and-set are there for), the log and the telemetry's clocks, and what
-- stands behind one call into a library: the TLS of the listener (src/boot/serve_tls.rs), the watch of
-- the rotating files and the drain of the server (src/rotate.rs, src/main.rs), and the sockets. What such a call answers is a parameter of `Process`.
pub mod Boot
pub mod Engine
pub mod History
pub mod Idem
pub mod Lookup
pub mod Prelude
pub mod Process
pub mod Proto
pub mod Read
pub mod Schema
pub mod Service
pub mod Setting
pub mod Sql
pub mod Status
pub mod Tables
pub mod Tests
pub mod Txn
pub mod Wire
pub mod Write
