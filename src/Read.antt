-- ===== src/Read.antt =====
-- src/read.rs and src/rows.rs: GetTask and ListTasks.
pub mod Paging
pub mod Listing
pub mod Ordering
pub mod Walk
pub mod Answering
pub mod Pages
pub mod Described
use task_db.Prelude.{
  ℕ, ◌+◌, ◌==◌, ltb, ℤ, pos, negsuc, Text, Bool, Option, none, some, List, [], ◌∷◌, ◌++◌, map,
  length, take, last?, if◌then◌else◌,
}
use task_db.Status.{
  Result, ok, err, Status, not_found, no_such_task, one_of_id_or_number, not_a_task_status, refuse,
  ok_or,
}
use task_db.Status
use task_db.Proto.{
  Meta, default_meta, Task, TaskStatus, task_status_of, task_status_number, Key, GetTaskRequest,
  GetTaskResponse, ListTasksRequest, ListTasksResponse,
}
use task_db.Engine.{Engine, TaskRow, Db, Value, text, unsigned, tiny, other}
use task_db.Sql.{
  Reach, reach_of, scope_of, Readable, readable, read_predicate, bind, bind_visible, bind_readable,
}
use task_db.Sql.Where.{
  Clause, eq, gt, is_null, in_holes, both, id, number, status, project_id, deleted_at,
}
use task_db.Sql.Errors.{internal}
use task_db.Txn.{
  SqlResult, done, failed, Rpc, pure, raise, lift, map_err, autocommit, acquire, ◌>>=◌, ◌>>◌,
}
use task_db.Tables.{select_rows}

-- MAX_PAGE and DEFAULT_PAGE
abbrev pub max_page : ℕ
max_page = 500

abbrev pub default_page : ℕ
default_page = 50

unfoldable pub page_size : ℤ → ℕ
page_size (negsuc n) = default_page
page_size (pos n) = if n == 0 then default_page else if ltb max_page n then max_page else n

abbrev known_status : ℤ → Option TaskStatus → Result ℤ
known_status s (some t) = ok (task_status_number t)
known_status s none = err (refuse (not_a_task_status s))

unfoldable pub statuses : List ℤ → Result (List ℤ)
statuses [] = ok []
statuses (s ∷ rest) =
    Status.◌>>=◌ (known_status s (task_status_of s))
      λ t. Status.◌>>=◌ (statuses rest) λ ts. ok (t ∷ ts)

-- A column that does not decode is sqlx's error.
abbrev pub strings : Option (List Text) → Result (List Text)
strings column = ok_or column (internal other)

unfoldable pub row_to_task : TaskRow → Result Task
row_to_task r = Status.◌>>=◌ (strings r.tags) λ tags. Status.◌>>=◌ (strings r.links) λ links.
    ok (record {
      meta = some (record default_meta {
        id = r.id;
        version = r.version;
        project_id = r.project_id;
        owner_user_id = r.owner_user_id;
      });
      number = r.number;
      title = r.title;
      body = r.body;
      status = r.status;
      tags = tags;
      links = links;
    })

-- `.collect::<Result<Vec<_>, _>>()`
unfoldable pub rows_to_tasks : List TaskRow → Result (List Task)
rows_to_tasks [] = ok []
rows_to_tasks (r ∷ rs) =
    Status.◌>>=◌ (row_to_task r) λ t. Status.◌>>=◌ (rows_to_tasks rs) λ ts. ok (t ∷ ts)

abbrev pub first : List TaskRow → Option TaskRow
first [] = none
first (r ∷ rs) = some r

-- `fetch_optional`
abbrev pub fetch_optional : Engine → Clause → List Value → Db → SqlResult (Option TaskRow × Db)
fetch_optional e clause params db = elim (select_rows e clause params db.tasks) [
  | done rows ↦ done (first rows, db)
  | failed x ↦ failed x
]

-- `ORDER BY id`
abbrev pub insert_by_id : Engine → TaskRow → List TaskRow → List TaskRow
insert_by_id e r [] = r ∷ []
insert_by_id e r (q ∷ qs) = if e.before q.id r.id then q ∷ insert_by_id e r qs else r ∷ q ∷ qs

unfoldable pub order_by_id : Engine → List TaskRow → List TaskRow
order_by_id e [] = []
order_by_id e (r ∷ rs) = insert_by_id e r (order_by_id e rs)

-- `fetch_all` of `… ORDER BY id LIMIT n`
abbrev pub fetch_page : Engine → Clause → List Value → ℕ → Db → SqlResult (List TaskRow × Db)
fetch_page e clause params n db = elim (select_rows e clause params db.tasks) [
  | done rows ↦ done (take n (order_by_id e rows), db)
  | failed x ↦ failed x
]

abbrev pub not_found_here : Status
not_found_here = record { code = not_found; message = no_such_task }

module _ (e : Engine) where
  abbrev pub id_clause : Readable → Clause
  id_clause clause = both (eq id) (both (is_null deleted_at) clause.sql)

  abbrev pub number_clause : Readable → Clause
  number_clause clause =
      both (eq number) (both (is_null deleted_at) (both (eq project_id) clause.sql))

  abbrev pub find_row : Reach → Option Key → Rpc TaskRow
  find_row reach none = raise (refuse one_of_id_or_number)
  find_row reach (some (Key.id i)) = do
    clause ← lift (read_predicate reach)
    acquire
    found ← map_err (
        autocommit
          (fetch_optional e (id_clause clause) (bind_readable clause (bind reach (text i ∷ [])))))
    lift (ok_or found not_found_here)
  find_row reach (some (Key.number n)) = do
    clause ← lift (readable reach)
    acquire
    found ← map_err (
        autocommit (
          fetch_optional e (number_clause clause)
            (bind_readable clause (bind_visible reach (unsigned n ∷ text reach.project ∷ [])))))
    lift (ok_or found not_found_here)

  unfoldable pub get : GetTaskRequest → Rpc GetTaskResponse
  get req = do
    scope ← lift (scope_of req.scope)
    row ← find_row (reach_of scope) req.key
    task ← lift (row_to_task row)
    pure (record { task = some task })

  abbrev pub with_statuses : List ℤ → Clause → Clause
  with_statuses [] clause = clause
  with_statuses (s ∷ ss) clause = both clause (in_holes status (length (s ∷ ss)))

  abbrev pub after_token : Text → Clause → Clause
  after_token [] clause = clause
  after_token (c ∷ t) clause = both clause (gt id)

  abbrev pub token_bind : Text → List Value
  token_bind [] = []
  token_bind (c ∷ t) = text (c ∷ t) ∷ []

  abbrev pub list_clause : Readable → List ℤ → Text → Clause
  list_clause clause wanted token =
      after_token token (with_statuses wanted (both (is_null deleted_at) clause.sql))

  abbrev pub list_binds : Reach → Readable → List ℤ → Text → List Value
  list_binds reach clause wanted token =
      bind_readable clause (bind reach []) ++ (map tiny wanted ++ token_bind token)

  abbrev id_of : Option Meta → Text
  id_of none = []
  id_of (some m) = m.id

  abbrev token_of : Option Task → Text
  token_of none = []
  token_of (some t) = id_of t.meta

  abbrev pub next_token : Bool → List Task → Text
  next_token more tasks = if more then token_of (last? tasks) else []

  unfoldable pub list : ListTasksRequest → Rpc ListTasksResponse
  list req = do
    scope ← lift (scope_of req.scope)
    let limit = page_size req.page_size
    wanted ← lift (statuses req.statuses)
    clause ← lift (read_predicate (reach_of scope))
    acquire
    rows ← map_err (
        autocommit (
          fetch_page e (list_clause clause wanted req.page_token)
            (list_binds (reach_of scope) clause wanted req.page_token) (limit + 1)))
    tasks ← lift (rows_to_tasks (take limit rows))
    pure (record { tasks = tasks; next_page_token = next_token (ltb limit (length rows)) tasks })
