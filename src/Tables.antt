-- ===== src/Tables.antt =====
-- What the statements of src/write.rs, src/read.rs and src/idem.rs do to the tables of
-- src/schema.rs: the rows that a WHERE clause selects, the keys, and the columns' bounds.
use task_db.Prelude.{
  ℕ, ◌+◌, ◌^◌, ltb, leb, ◌==◌, Text, Bool, true, false, ◌&&◌, ◌||◌, Option, none, some, List, [],
  ◌∷◌, ◌++◌, length, exists, find, if◌then◌else◌,
}
use task_db.Proto.{Scope}
use task_db.Engine.{
  Engine, TaskRow, CounterRow, WriteRow, Db, Value, database, row_not_found, other,
}
use task_db.Sql.Where.{Clause, eval}
use task_db.Txn.{SqlResult, done, failed}

-- Whether a row is selected; `none` where the parameters are not as many as the holes.
abbrev all_bound : Option (Bool × List Value) → Option Bool
all_bound (some (b, [])) = some b
all_bound (some (b, v ∷ vs)) = none
all_bound none = none

unfoldable pub selects : Engine → Clause → List Value → TaskRow → Option Bool
selects e clause params r = all_bound (eval e clause r params)

abbrev pub kept : Option Bool → TaskRow → SqlResult (List TaskRow) → SqlResult (List TaskRow)
kept none r rest = failed other
kept (some b) r (failed e) = failed e
kept (some b) r (done rs) = done (if b then r ∷ rs else rs)

-- `SELECT … WHERE clause`
unfoldable pub select_rows : Engine → Clause → List Value → List TaskRow → SqlResult (List TaskRow)
select_rows e clause params [] = done []
select_rows e clause params (r ∷ rs) =
    kept (selects e clause params r) r (select_rows e clause params rs)

abbrev pub changed :
    Option Bool
    → TaskRow
    → SqlResult TaskRow
    → SqlResult (ℕ × List TaskRow)
    → SqlResult (ℕ × List TaskRow)
changed none r r' rest = failed other
changed (some b) r r' (failed e) = failed e
changed (some false) r r' (done (n, rs)) = done (n, r ∷ rs)
changed (some true) r (failed e) (done (n, rs)) = failed e
changed (some true) r (done r') (done (n, rs)) = done (n + 1, r' ∷ rs)

-- `UPDATE … WHERE clause`, with the number of rows affected. A row that breaks a bound fails the
-- whole statement.
unfoldable pub update_rows :
    Engine
    → Clause
    → List Value
    → (TaskRow → SqlResult TaskRow)
    → List TaskRow
    → SqlResult (ℕ × List TaskRow)
update_rows e clause params change [] = done (0, [])
update_rows e clause params change (r ∷ rs) =
    changed (selects e clause params r) r (change r) (update_rows e clause params change rs)

-- Migration 7: `CHECK (CHAR_LENGTH(title) <= 128)`.
abbrev pub title_fits : Text → Bool
title_fits title = leb (length title) 128

-- `version BIGINT UNSIGNED`, `next_number INT UNSIGNED`
abbrev pub u64_limit : ℕ
u64_limit = 2 ^ 64

abbrev pub u32_limit : ℕ
u32_limit = 2 ^ 32

-- The keys of `task`: the id, and the number within its project.
abbrev pub same_task_key : Engine → TaskRow → TaskRow → Bool
same_task_key e r q = e.same r.id q.id || (e.same r.project_id q.project_id && r.number == q.number)

-- `INSERT INTO task`
unfoldable pub insert_task : Engine → TaskRow → Db → SqlResult (Unit {0} × Db)
insert_task e r db =
    if title_fits r.title
    then (if exists (same_task_key e r) db.tasks
        then failed (database e.duplicate)
        else done (tt, record db { tasks = db.tasks ++ r ∷ [] }))
    else failed (database e.title_too_long)

abbrev pub raised : Engine → CounterRow → List CounterRow → SqlResult (List CounterRow)
raised e c cs =
    if ltb (c.next_number + 1) u32_limit
    then done (record c { next_number = c.next_number + 1 } ∷ cs)
    else failed (database e.out_of_range)

abbrev pub behind : CounterRow → SqlResult (List CounterRow) → SqlResult (List CounterRow)
behind c (done cs) = done (c ∷ cs)
behind c (failed x) = failed x

abbrev pub next_counter : Engine → Text → List CounterRow → SqlResult (List CounterRow)
next_counter e project [] = done (record { project_id = project; next_number = 1 } ∷ [])
next_counter e project (c ∷ cs) =
    let there = behind c (next_counter e project cs) in
    if e.same c.project_id project then raised e c cs else there

abbrev pub with_counters : Db → SqlResult (List CounterRow) → SqlResult (Unit {0} × Db)
with_counters db (done cs) = done (tt, record db { counters = cs })
with_counters db (failed x) = failed x

-- `INSERT INTO task_counter … ON DUPLICATE KEY UPDATE next_number = next_number + 1`
unfoldable pub bump_counter : Engine → Text → Db → SqlResult (Unit {0} × Db)
bump_counter e project db = with_counters db (next_counter e project db.counters)

abbrev pub is_counter : Engine → Text → CounterRow → Bool
is_counter e project c = e.same c.project_id project

abbrev pub number_found : Option CounterRow → Db → SqlResult (ℕ × Db)
number_found (some c) db = done (c.next_number, db)
number_found none db = failed row_not_found

-- `SELECT next_number FROM task_counter WHERE project_id = ?`
unfoldable pub read_counter : Engine → Text → Db → SqlResult (ℕ × Db)
read_counter e project db = number_found (find (is_counter e project) db.counters) db

-- The primary key of `task_write`.
abbrev pub is_claim : Engine → Scope → Text → WriteRow → Bool
is_claim e scope key w =
    e.same w.project_id scope.project_id && e.same w.user_id scope.user_id && e.same w.idem_key key

abbrev pub find_claim : Engine → Scope → Text → Db → Option WriteRow
find_claim e scope key db = find (is_claim e scope key) db.writes

-- `INSERT INTO task_write`
unfoldable pub insert_claim : Engine → Scope → Text → WriteRow → Db → SqlResult (Unit {0} × Db)
insert_claim e scope key w db =
    if exists (is_claim e scope key) db.writes
    then failed (database e.duplicate)
    else done (tt, record db { writes = db.writes ++ w ∷ [] })

abbrev pub set_response : Engine → Scope → Text → List ℕ → List WriteRow → List WriteRow
set_response e scope key bytes [] = []
set_response e scope key bytes (w ∷ ws) =
    (if is_claim e scope key w then record w { response = bytes } else w)
    ∷ set_response e scope key bytes ws

-- `UPDATE task_write SET response = ?`
unfoldable pub update_claim : Engine → Scope → Text → List ℕ → Db → SqlResult (Unit {0} × Db)
update_claim e scope key bytes db =
    done (tt, record db { writes = set_response e scope key bytes db.writes })
