-- ===== src/Schema.antt =====
-- src/schema.rs: the migrations, what each does to the tables that a database holds, and their order.
-- yadgar-store runs them, and `MigrationSet::new` of it is a parameter.
pub mod Counting
pub mod Healing
pub mod Order
pub mod Upgrade
use task_db.Prelude.{
  ℕ, ltb, leb, ℤ, pos, int_eq, Text, codes, Bool, true, not, ◌||◌, Option, none, some, List, [],
  ◌∷◌, map, keep, exists, if◌then◌else◌,
}
use task_db.Engine.{Engine, TaskRow, CounterRow, WriteRow}
use task_db.Tables.{title_fits}

-- The tables that there are, and which columns and checks later migrations have added. A column that
-- is not there yet holds nothing that is read.
pub record Stored : Type 0 where
  pub tasks : Option (List TaskRow)
  pub counters : Option (List CounterRow)
  pub writes : Option (List WriteRow)
  pub has_tags_and_links : Bool
  pub title_is_checked : Bool
  pub has_request_fingerprint : Bool
  pub has_caller_fingerprint : Bool

-- What the statements of a migration make of the tables; `none` where one of them is refused.
abbrev pub Change : Type 0
Change = Engine → Stored → Option Stored

pub record Migration : Type 0 where
  pub version : ℕ
  pub name : Text
  pub sql : Change

-- `CREATE TABLE task (…)`
abbrev pub create_task : Migration
create_task = record {
  version = 1;
  name = codes "create_task";
  sql = λ e s. elim s.tasks [ none ↦ some (record s { tasks = some [] }) | some rows ↦ none ];
}

abbrev pub with_no_tags : TaskRow → TaskRow
with_no_tags r = record r { tags = some []; links = some [] }

abbrev pub add_tags_and_links : Option (List TaskRow) → Stored → Option Stored
add_tags_and_links none s = none
add_tags_and_links (some rows) s =
    if s.has_tags_and_links
    then none
    else some (record s { tasks = some (map with_no_tags rows); has_tags_and_links = true })

-- `ALTER TABLE task ADD COLUMN tags …, ADD COLUMN links …`
abbrev pub task_tags_and_links : Migration
task_tags_and_links = record {
  version = 2;
  name = codes "task_tags_and_links";
  sql = λ e s. add_tags_and_links s.tasks s;
}

abbrev pub larger : ℕ → ℕ → ℕ
larger a b = if ltb a b then b else a

-- A row's group of `SELECT project_id, MAX(number) FROM task GROUP BY project_id`.
abbrev pub count_in : Engine → TaskRow → List CounterRow → List CounterRow
count_in e r [] = record { project_id = r.project_id; next_number = r.number } ∷ []
count_in e r (c ∷ cs) =
    let rest = count_in e r cs in
    if e.same c.project_id r.project_id
    then record c { next_number = larger c.next_number r.number } ∷ cs
    else c ∷ rest

abbrev pub backfilled : Engine → List TaskRow → List CounterRow
backfilled e [] = []
backfilled e (r ∷ rs) = count_in e r (backfilled e rs)

abbrev pub backfill : Engine → Option (List TaskRow) → Stored → Option Stored
backfill e none s = none
backfill e (some rows) s = some (record s { counters = some (backfilled e rows) })

-- `CREATE TABLE task_counter (…); INSERT INTO task_counter … SELECT …`
abbrev pub task_number_counter : Migration
task_number_counter = record {
  version = 3;
  name = codes "task_number_counter";
  sql = λ e s. elim s.counters [ none ↦ backfill e s.tasks s | some counters ↦ none ];
}

-- `CREATE TABLE task_write (…)`
abbrev pub task_write_idempotency : Migration
task_write_idempotency = record {
  version = 4;
  name = codes "task_write_idempotency";
  sql = λ e s. elim s.writes [ none ↦ some (record s { writes = some [] }) | some writes ↦ none ];
}

abbrev pub is_rung : ℤ → Bool
is_rung v = int_eq v (pos 1) || (int_eq v (pos 2) || int_eq v (pos 3))

abbrev pub healed : TaskRow → TaskRow
healed r = if is_rung r.visibility then r else record r { visibility = pos 1 }

-- `UPDATE task SET visibility = 1 WHERE visibility NOT IN (1, 2, 3)`
abbrev pub heal_unspecified_visibility : Migration
heal_unspecified_visibility = record {
  version = 5;
  name = codes "heal_unspecified_visibility";
  sql = λ e s. elim s.tasks [
    | none ↦ none
    | some rows ↦ some (record s { tasks = some (map healed rows) })
  ];
}

abbrev pub with_no_request : WriteRow → WriteRow
with_no_request w = record w { request_fingerprint = none }

abbrev pub add_request_fingerprint : Option (List WriteRow) → Stored → Option Stored
add_request_fingerprint none s = none
add_request_fingerprint (some writes) s =
    if s.has_request_fingerprint
    then none
    else some
        (record s { writes = some (map with_no_request writes); has_request_fingerprint = true })

-- `ALTER TABLE task_write ADD COLUMN request_fingerprint BINARY(32) NULL DEFAULT NULL`
abbrev pub task_write_request_fingerprint : Migration
task_write_request_fingerprint = record {
  version = 6;
  name = codes "task_write_request_fingerprint";
  sql = λ e s. add_request_fingerprint s.writes s;
}

abbrev pub too_long : TaskRow → Bool
too_long r = not (title_fits r.title)

abbrev pub check_titles : Option (List TaskRow) → Stored → Option Stored
check_titles none s = none
check_titles (some rows) s =
    if s.title_is_checked || exists too_long rows
    then none
    else some (record s { title_is_checked = true })

-- `ALTER TABLE task ADD CONSTRAINT … CHECK (CHAR_LENGTH(title) <= 128)`, which validates the rows
-- that are there.
abbrev pub task_title_at_most_128 : Migration
task_title_at_most_128 = record {
  version = 7;
  name = codes "task_title_at_most_128";
  sql = λ e s. check_titles s.tasks s;
}

abbrev pub with_no_caller : WriteRow → WriteRow
with_no_caller w = record w { caller_fingerprint = none }

abbrev pub add_caller_fingerprint : Option (List WriteRow) → Stored → Option Stored
add_caller_fingerprint none s = none
add_caller_fingerprint (some writes) s =
    if s.has_caller_fingerprint
    then none
    else some
        (record s { writes = some (map with_no_caller writes); has_caller_fingerprint = true })

-- `ALTER TABLE task_write ADD COLUMN caller_fingerprint BINARY(32) NULL DEFAULT NULL`
abbrev pub task_write_caller_fingerprint : Migration
task_write_caller_fingerprint = record {
  version = 8;
  name = codes "task_write_caller_fingerprint";
  sql = λ e s. add_caller_fingerprint s.writes s;
}

-- `all`
abbrev pub all : List Migration
all =
    create_task ∷ task_tags_and_links ∷ task_number_counter ∷ task_write_idempotency
    ∷ heal_unspecified_visibility ∷ task_write_request_fingerprint ∷ task_title_at_most_128
    ∷ task_write_caller_fingerprint ∷ []

abbrev pub upto : ℕ → List Migration
upto version = keep (λ m. leb m.version version) all

module _ {S : Type 0} (new_set : List Migration → S) where
  abbrev pub migrations : S
  migrations = new_set all

  abbrev pub migrations_upto : ℕ → S
  migrations_upto version = new_set (upto version)
