-- ===== src/Read/Described.antt =====
-- The page of ListTasks of src/read.rs, described by the rows alone.
use task_db.Prelude.{
  ℕ, ltb, ℤ, Text, true, Bool-cases, inl, inr, Option, none, some, Option-cases, List, [], ◌∷◌,
  take, last?, length, if◌then◌else◌, ◌≡◌, refl, ◌∙◌, ap, arith,
}
use task_db.Status.{ok, err, Result, ok-injective}
use task_db.Proto.{default_meta, Scope, Task, ListTasksRequest, ListTasksResponse}
use task_db.Engine.{Engine, TaskRow, Db, other}
use task_db.Sql.{scope_of, reach_of, read_predicate, Readable}
use task_db.Sql.Errors.{internal}
use task_db.Txn.{Weather, call, acquired}
use task_db.Read.{list, page_size, statuses, row_to_task, rows_to_tasks, next_token}
use task_db.Read.Walk.{listed_rows, token_of-last?}
use task_db.Read.Answering.{list-page_of, page_of}

-- A row as it is answered, with the lists that its JSON columns hold; none where one does not decode.
abbrev pub task_of : TaskRow → Option (List Text) → Option (List Text) → Option Task
task_of r none links = none
task_of r (some tags) none = none
task_of r (some tags) (some links) = some (record {
  meta = some (record default_meta {
    id = r.id;
    version = r.version;
    project_id = r.project_id;
    owner_user_id = r.owner_user_id;
  });
  number = r.number;
  title = r.title;
  body = r.body;
  status = r.status;
  tags = tags;
  links = links;
})

abbrev pub before_all : Option Task → Option (List Task) → Option (List Task)
before_all none more = none
before_all (some t) none = none
before_all (some t) (some ts) = some (t ∷ ts)

abbrev pub tasks_of : List TaskRow → Option (List Task)
tasks_of [] = some []
tasks_of (r ∷ rs) = before_all (task_of r r.tags r.links) (tasks_of rs)

abbrev pub last_of : TaskRow → List TaskRow → TaskRow
last_of r [] = r
last_of r (q ∷ rs) = last_of q rs

abbrev pub last_id : List TaskRow → Text
last_id [] = []
last_id (r ∷ rs) = (last_of r rs).id

-- The page's tasks, and the id of its last row where there are more rows; an internal error where a
-- row of the page does not decode.
abbrev pub described : ℕ → List TaskRow → Option (List Task) → Result ListTasksResponse
described limit rows none = err (internal other)
described limit rows (some tasks) = ok (record {
  tasks = tasks;
  next_page_token = if ltb limit (length rows) then last_id (take limit rows) else [];
})

abbrev pub or_undecoded : {A : Type 0} → Option A → Result A
or_undecoded none = err (internal other)
or_undecoded (some a) = ok a

row_to_task-eq : (r : TaskRow) → row_to_task r ≡ or_undecoded (task_of r r.tags r.links)
unfolding row_to_task
row_to_task-eq r = ground arith

pub rows_to_tasks-eq : (rs : List TaskRow) → rows_to_tasks rs ≡ or_undecoded (tasks_of rs)
unfolding rows_to_tasks
rows_to_tasks-eq [] = refl
rows_to_tasks-eq (r ∷ rs) = rw (row_to_task-eq r) (rw (rows_to_tasks-eq rs) (ground arith))

last?-last_of : (r : TaskRow) (rs : List TaskRow) → last? (r ∷ rs) ≡ some (last_of r rs)
last?-last_of r [] = refl
last?-last_of r (q ∷ rs) = last?-last_of q rs

module _ (e : Engine) where
  next_token-last_id :
      (rs : List TaskRow) {ts : List Task}
      → rows_to_tasks rs ≡ ok ts
      → next_token e true ts ≡ last_id rs
  unfolding rows_to_tasks
  next_token-last_id [] h = rw (← ok-injective h) refl
  next_token-last_id (r ∷ rs) {ts} h = token_of-last? e (r ∷ rs) {ts = ts} h (last?-last_of r rs)

  page_of-eq-described :
      (limit : ℕ) (rows : List TaskRow)
      → page_of e limit rows ≡ described limit rows (tasks_of (take limit rows))
  page_of-eq-described limit rows = elim (Option-cases (tasks_of (take limit rows))) [
    | inl undecoded ↦ rw (rows_to_tasks-eq (take limit rows)) (rw undecoded refl)
    | inr (ts, held) ↦
        let made : rows_to_tasks (take limit rows) ≡ ok ts =
          rows_to_tasks-eq (take limit rows) ∙ ap or_undecoded held in
        elim (Bool-cases (ltb limit (length rows))) [
          | inl more ↦
              rw made
                (rw held (rw more (rw (next_token-last_id (take limit rows) {ts = ts} made) refl)))
          | inr last ↦ rw made (rw held (rw last refl))
        ]
  ]

  -- Where the pool gives a connection and every statement is answered, a ListTasks whose scope,
  -- statuses and setting are stated answers a page of the rows that the caller may read, that have a
  -- wanted status, that are not deleted and that come after the token, in the order of their ids, with
  -- the id of the page's last row for a token where there are more and no token where there are none;
  -- or an internal error where a row of the page does not decode. It changes nothing.
  pub list-answers :
      (req : ListTasksRequest) (weather : Weather) (db : Db) (scope : Scope) (wanted : List ℤ)
      {clause : Readable}
      → weather.script ≡ []
      → acquired weather.pool ≡ ok tt
      → scope_of req.scope ≡ ok scope
      → statuses req.statuses ≡ ok wanted
      → read_predicate (reach_of scope) ≡ ok clause
      → let rows = listed_rows e scope wanted req.page_token db.tasks in
        let limit = page_size req.page_size in
        call (list e req) weather db ≡ (described limit rows (tasks_of (take limit rows)), db)
  list-answers req weather db scope wanted {clause} quiet got scoped named ruled =
      let rows = listed_rows e scope wanted req.page_token db.tasks in
      list-page_of e req weather db scope wanted {clause = clause} quiet got scoped named ruled
      ∙ ap (λ page. (page, db)) (page_of-eq-described (page_size req.page_size) rows)
