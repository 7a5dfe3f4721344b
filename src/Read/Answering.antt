-- ===== src/Read/Answering.antt =====
-- What ListTasks of src/read.rs answers, page by page and over all pages.
use task_db.Prelude.{
  ℕ, zero, suc, ◌+◌, ltb, ℤ, Text, Bool, ◌&&◌, is_empty, Option, none, some, List, [], ◌∷◌, ◌++◌,
  take, length, All, if◌then◌else◌, ◌≡◌, refl, ◌∙◌, sym, ap, arith,
}
use task_db.Status
use task_db.Status.{ok, err, Result, >>=-eq-ok, ok-injective}
use task_db.Proto.{Scope, Task, ListTasksRequest, ListTasksResponse}
use task_db.Engine.{Engine, TaskRow, Db}
use task_db.Sql.{scope_of, reach_of, read_predicate, Readable}
use task_db.Txn.{Session, lift, pure, ◌>>=◌, done, Weather, call, acquired, acquire, autocommit}
use task_db.Tables.{selects}
use task_db.Read.{
  fetch_page, list, page_size, statuses, rows_to_tasks, next_token, list_clause, list_binds,
}
use task_db.Read.Listing.{is_listed, is_after_token, selects-list, select_rows-keep}
use task_db.Read.Walk.{listed_rows}

take_one_more : {A : Type 0} (n : ℕ) (xs : List A) → take n (take (suc n) xs) ≡ take n xs
take_one_more zero xs = refl
take_one_more (suc n) [] = refl
take_one_more (suc n) (x ∷ xs) = ap (λ l. x ∷ l) (take_one_more n xs)

ltb-suc : (m n : ℕ) → ltb (suc m) (suc n) ≡ ltb m n
ltb-suc m n = ground arith

-- One row more than the page says whether there are more.
length_one_more :
    {A : Type 0} (n : ℕ) (xs : List A) → ltb n (length (take (suc n) xs)) ≡ ltb n (length xs)
length_one_more n [] = refl
length_one_more zero (x ∷ xs) = ground arith
length_one_more (suc n) (x ∷ xs) =
    ltb-suc n (length (take (suc n) xs)) ∙ length_one_more n xs ∙ sym (ltb-suc n (length xs))

plus_one : (n : ℕ) → n + 1 ≡ suc n
plus_one n = omega arith

-- A list answers what its rows decode to.
ended :
    {A B : Type 0} (r : Result A) (f : A → B) (s : Session)
    → let out = (lift r >>= (λ a. pure (f a))) s in
      ◌≡◌ {A = Result B × Db} (out.0, out.1.committed) (Status.◌>>=◌ r (λ a. ok (f a)), s.committed)
ended (ok a) f s = refl
ended (err x) f s = refl

module _ (e : Engine) where
  abbrev pub paged : Bool → List Task → ListTasksResponse
  paged more tasks = record { tasks = tasks; next_page_token = next_token e more tasks }

  -- A page of rows, and the token of the next one where there is one.
  abbrev pub page_of : ℕ → List TaskRow → Result ListTasksResponse
  page_of limit rows =
      Status.◌>>=◌ (rows_to_tasks (take limit rows))
        λ tasks. ok (paged (ltb limit (length rows)) tasks)

  all_selected :
      (scope : Scope) (wanted : List ℤ) (token : Text) {clause : Readable} (rows : List TaskRow)
      → read_predicate (reach_of scope) ≡ ok clause
      → All
          (λ r.
            selects e
              (list_clause e clause wanted token)
              (list_binds e (reach_of scope) clause wanted token)
              r
            ≡ some (is_listed e scope wanted r && is_after_token e token r))
          rows
  all_selected scope wanted token [] h = tt
  all_selected scope wanted token {clause} (r ∷ rows) h = (
    selects-list e r scope wanted token {clause = clause} h,
    all_selected scope wanted token {clause = clause} rows h,
  )

  fetch_page-listed_rows :
      (scope : Scope) (wanted : List ℤ) (token : Text) {clause : Readable} (n : ℕ) (db : Db)
      → read_predicate (reach_of scope) ≡ ok clause
      → fetch_page e
          (list_clause e clause wanted token)
          (list_binds e (reach_of scope) clause wanted token)
          n
          db
        ≡ done (take n (listed_rows e scope wanted token db.tasks), db)
  fetch_page-listed_rows scope wanted token {clause} n db ruled =
      rw
        (
          fetch_page,
          select_rows-keep e (list_clause e clause wanted token)
              (list_binds e (reach_of scope) clause wanted token)
              (λ r. is_listed e scope wanted r && is_after_token e token r) db.tasks
              (all_selected scope wanted token {clause = clause} db.tasks ruled),
        )
        refl

  -- Where the pool gives a connection and every statement is answered, a ListTasks whose scope,
  -- statuses and setting are stated answers a page of the rows that the caller may read, that have a
  -- wanted status, that are not deleted and that come after the token, in the order of their ids, with
  -- the id of the page's last row for a token where there are more; or the error of a row of the page
  -- that does not decode.
  pub list-page_of :
      (req : ListTasksRequest) (weather : Weather) (db : Db) (scope : Scope) (wanted : List ℤ)
      {clause : Readable}
      → weather.script ≡ []
      → acquired weather.pool ≡ ok tt
      → scope_of req.scope ≡ ok scope
      → statuses req.statuses ≡ ok wanted
      → read_predicate (reach_of scope) ≡ ok clause
      → call (list e req) weather db ≡ (
        page_of (page_size req.page_size) (listed_rows e scope wanted req.page_token db.tasks),
        db,
      )
  unfolding list call acquire autocommit
  list-page_of req weather db scope wanted {clause} quiet got scoped named ruled =
      let rows = listed_rows e scope wanted req.page_token db.tasks in
      let limit = page_size req.page_size in
      let fetched =
        fetch_page-listed_rows scope wanted req.page_token {clause = clause} (limit + 1) db ruled in
      rw scoped (
        rw named (
          rw ruled (
            rw got (
              rw quiet (
                rw fetched (
                  rw (plus_one limit) (
                    rw (take_one_more limit rows) (
                      rw (length_one_more limit rows) (
                        ended (rows_to_tasks (take limit rows))
                          (λ tasks. paged (ltb limit (length rows)) tasks)
                          (record {
                            committed = db;
                            working = db;
                            pool = weather.pool;
                            script = [];
                          }))))))))))

  -- A client that asks for page after page until there is no token, and gives up where a page is
  -- refused or `fuel` runs out.
  abbrev pub onwards : List Task → Option (List Task) → Option (List Task)
  onwards tasks none = none
  onwards tasks (some more) = some (tasks ++ more)

  abbrev pub next_pages :
      (Text → Option (List Task)) → Result ListTasksResponse → Option (List Task)
  next_pages next (err x) = none
  next_pages next (ok resp) =
      let more = onwards resp.tasks (next resp.next_page_token) in
      if is_empty resp.next_page_token then some resp.tasks else more

  unfoldable pub walk : ℕ → ListTasksRequest → Weather → Db → Text → Option (List Task)
  walk zero req weather db token = none
  walk (suc fuel) req weather db token =
      next_pages (walk fuel req weather db)
        (call (list e (record req { page_token = token })) weather db).0
