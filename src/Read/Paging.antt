-- ===== src/Read/Paging.antt =====
-- How long a page of ListTasks of src/read.rs is.
use task_db.Prelude.{
  ℕ, zero, suc, ◌+◌, ◌≤◌, ltb, ℤ, pos, negsuc, List, [], ◌∷◌, length, take, ◌≡◌, ◌∙◌, sym, ap,
  arith,
}
use task_db.Status.{ok, >>=-eq-ok, ok-injective}
use task_db.Proto.{Scope, Task, ListTasksRequest, ListTasksResponse}
use task_db.Engine.{Engine, TaskRow, Db}
use task_db.Sql.{scope_of, reach_of, read_predicate, Readable}
use task_db.Txn.{Rpc, Weather, call, map_err, autocommit, acquire, lift, pure, ◌>>=◌, ◌>>◌}
use task_db.Txn.Inversion.{Returns-bind, Returns-lifted, Returns-pure, Returns-call, started}
use task_db.Read.{
  page_size, max_page, statuses, row_to_task, rows_to_tasks, fetch_page, list_clause, list_binds,
  next_token, list,
}

length-take : {A : Type 0} (n : ℕ) (xs : List A) → length (take n xs) ≤ n
length-take zero xs = omega arith
length-take (suc n) [] = omega arith
length-take (suc n) (x ∷ xs) = omega (arith, length-take n xs)

-- Every row of the page is answered, or the call refuses.
length-rows_to_tasks :
    (rs : List TaskRow) {ts : List Task} → rows_to_tasks rs ≡ ok ts → length ts ≡ length rs
unfolding rows_to_tasks
length-rows_to_tasks [] {ts} h = ap length (sym (ok-injective h))
length-rows_to_tasks (r ∷ rs) {ts} h =
    let (t, first, more) = >>=-eq-ok (row_to_task r) _ h in
    let (rest, found, made) = >>=-eq-ok (rows_to_tasks rs) _ more in
    ap length (sym (ok-injective made)) ∙ ap suc (length-rows_to_tasks rs found)

page_size-le-max_page : (requested : ℤ) → page_size requested ≤ max_page
unfolding page_size
page_size-le-max_page (pos n) = ground arith
page_size-le-max_page (negsuc n) = ground arith

-- A ListTasks that answers well, whatever the pool and the engine did, answers no more tasks than the
-- page size that the request comes to, and that is at most 500 whatever number was sent.
pub length-list :
    (e : Engine) (req : ListTasksRequest) (weather : Weather) (db : Db) {resp : ListTasksResponse}
    → (call (list e req) weather db).0 ≡ ok resp
    → (length resp.tasks ≤ page_size req.page_size) × (page_size req.page_size ≤ 500)
unfolding list
length-list e req weather db {resp} h =
    let s0 = started weather db in
    let limit = page_size req.page_size in
    let (t, ran, after) = Returns-call (list e req) weather db h in
    let answered : List TaskRow → List Task → Rpc ListTasksResponse = λ rows tasks.
      pure (record {
        tasks = tasks;
        next_page_token = next_token e (ltb limit (length rows)) tasks;
      }) in
    let of_rows : List TaskRow → Rpc ListTasksResponse =
      λ rows. lift (rows_to_tasks (take limit rows)) >>= answered rows in
    let asked : Scope → List ℤ → Readable → Rpc (List TaskRow) = λ scope wanted clause. map_err (
      autocommit (
        fetch_page e (list_clause e clause wanted req.page_token)
          (list_binds e (reach_of scope) clause wanted req.page_token) (limit + 1))) in
    let with_clause : Scope → List ℤ → Readable → Rpc ListTasksResponse =
      λ scope wanted clause. acquire >> (asked scope wanted clause >>= of_rows) in
    let with_statuses : Scope → List ℤ → Rpc ListTasksResponse =
      λ scope wanted. lift (read_predicate (reach_of scope)) >>= with_clause scope wanted in
    let with_scope : Scope → Rpc ListTasksResponse =
      λ scope. lift (statuses req.statuses) >>= with_statuses scope in
    let (scope, scoped, ran1) = Returns-lifted (scope_of req.scope) with_scope s0 ran in
    let (wanted, wanted_is, ran2) =
      Returns-lifted (statuses req.statuses) (with_statuses scope) s0 ran1 in
    let (clause, clause_is, ran3) =
      Returns-lifted (read_predicate (reach_of scope)) (with_clause scope wanted) s0 ran2 in
    let (u, s1, got, ran4) =
      Returns-bind acquire (λ u. asked scope wanted clause >>= of_rows) s0 ran3 in
    let (rows, s2, fetched, ran5) = Returns-bind (asked scope wanted clause) of_rows s1 ran4 in
    let (tasks, made, ran6) =
      Returns-lifted (rows_to_tasks (take limit rows)) (answered rows) s2 ran5 in
    let (resp_is, last) =
      Returns-pure
        (record { tasks = tasks; next_page_token = next_token e (ltb limit (length rows)) tasks })
        s2 ran6 in
    let bound : length tasks ≤ limit =
      rw (length-rows_to_tasks (take limit rows) made) (length-take limit rows) in
    (rw (← resp_is) bound, page_size-le-max_page req.page_size)
