-- ===== src/Read/Pages.antt =====
-- A walk through the pages of ListTasks of src/read.rs meets every row that is listed, once.
use task_db.Prelude.{
  ℕ, zero, suc, ◌≤◌, ltb, ℤ, pos, negsuc, Text, true, false, Bool-cases, is_empty, some, List, [],
  ◌∷◌, ◌++◌, take, drop, length, All, ◌≡◌, refl, ◌∙◌, ap, inl, inr, arith,
}
use task_db.Status.{ok}
use task_db.Proto.{Scope, Task, ListTasksRequest}
use task_db.Engine.{Engine, TaskRow, Db}
use task_db.Sql.{scope_of, reach_of, read_predicate, Readable}
use task_db.Txn.{Weather, call, acquired}
use task_db.Tables.{same_task_key}
use task_db.Read.{list, page_size, statuses, rows_to_tasks}
use task_db.Read.Ordering.{IsOrder}
use task_db.Read.Walk.{listed_rows, listed_rows-next, rows_to_tasks-take, token_of-last?}
use task_db.Read.Answering.{list-page_of, page_of, walk}
use task_db.Read.Described.{tasks_of, or_undecoded, rows_to_tasks-eq}
use task_db.History.Distinct.{Distinct}

take-all : {A : Type 0} (n : ℕ) (xs : List A) → ltb n (length xs) ≡ false → take n xs ≡ xs
take-all zero [] h = refl
take-all zero (x ∷ xs) h = ground (arith, h)
take-all (suc n) [] h = refl
take-all (suc n) (x ∷ xs) h = ap (λ l. x ∷ l) (take-all n xs (ground (arith, h)))

take-drop : {A : Type 0} (n : ℕ) (xs : List A) → take n xs ++ drop n xs ≡ xs
take-drop zero xs = refl
take-drop (suc n) [] = refl
take-drop (suc n) (x ∷ xs) = ap (λ l. x ∷ l) (take-drop n xs)

length-drop : {A : Type 0} (n : ℕ) (xs : List A) → length (drop n xs) ≤ length xs
length-drop zero xs = omega arith
length-drop (suc n) [] = omega arith
length-drop (suc n) (x ∷ xs) = omega (arith, length-drop n xs)

fewer :
    {A : Type 0} (n : ℕ) (xs : List A)
    → ltb (suc n) (length xs) ≡ true
    → suc (length (drop (suc n) xs)) ≤ length xs
fewer n [] h = ground (arith, h)
fewer n (x ∷ xs) h = omega (arith, length-drop n xs)

one-le-page_size : (requested : ℤ) → 1 ≤ page_size requested
unfolding page_size
one-le-page_size (pos n) = ground arith
one-le-page_size (negsuc n) = ground arith

predecessor : (k : ℕ) → 1 ≤ k → (n : ℕ) × (k ≡ suc n)
predecessor zero h = absurd (omega (arith, h))
predecessor (suc n) h = (n, refl)

module _ (e : Engine) (order : IsOrder e) (req : ListTasksRequest) (weather : Weather) (db : Db)
    (scope : Scope) (wanted : List ℤ) {clause : Readable} (quiet : weather.script ≡ [])
    (got : acquired weather.pool ≡ ok tt) (scoped : scope_of req.scope ≡ ok scope)
    (named : statuses req.statuses ≡ ok wanted)
    (ruled : read_predicate (reach_of scope) ≡ ok clause)
    (keys : Distinct (same_task_key e) db.tasks)
    (ids : All (λ r. is_empty r.id ≡ false) db.tasks) where
  abbrev rows_at : Text → List TaskRow
  rows_at token = listed_rows e scope wanted token db.tasks

  page_at :
      (token : Text) (n : ℕ)
      → page_size req.page_size ≡ n
      → (call (list e (record req { page_token = token })) weather db).0
        ≡ page_of e n (rows_at token)
  page_at token n size =
      ap (λ out. out.0)
        (list-page_of e (record req { page_token = token }) weather db scope wanted
          {clause = clause} quiet got scoped named ruled)
      ∙ ap (λ k. page_of e k (rows_at token)) size

  walk_from :
      (fuel : ℕ) (token : Text) {ts : List Task}
      → rows_to_tasks (rows_at token) ≡ ok ts
      → suc (length (rows_at token)) ≤ fuel
      → walk e fuel req weather db token ≡ some ts
  unfolding walk
  walk_from zero token h enough = absurd (omega (arith, enough))
  walk_from (suc fuel) token {ts} h enough =
      let (n, size) = predecessor (page_size req.page_size) (one-le-page_size req.page_size) in
      let rows = rows_at token in
      elim (Bool-cases (ltb (suc n) (length rows))) [
        | inl more ↦
            let (x, x_named, last_is, next_is) =
              listed_rows-next e order scope wanted db.tasks keys token n ids more in
            let (page, left) = rows_to_tasks-take (suc n) rows {ts = ts} h in
            let token_is =
              token_of-last? e (take (suc n) rows) {ts = take (suc n) ts} page last_is in
            let rest =
              walk_from fuel x.id {ts = drop (suc n) ts} (ap rows_to_tasks next_is ∙ left)
                (rw next_is (omega (arith, enough, fewer n rows more))) in
            rw (page_at token (suc n) size) (
              rw page
                (rw more (rw token_is (rw x_named (rw rest (ap some (take-drop (suc n) ts)))))))
        | inr last_page ↦
            rw (page_at token (suc n) size)
              (rw (take-all (suc n) rows last_page) (rw h (rw last_page refl)))
      ]

  -- Where the pool gives a connection and every statement is answered, and the scope, the statuses and
  -- the setting are stated, a client that follows the tokens from the first page on, for at least as
  -- many pages as there are listed rows and one, gets exactly the rows that it may read, that have a
  -- wanted status and are not deleted, each once and in the order of their ids, whatever the page
  -- size. The rows decode, their keys are unique, their ids are not empty and ordered by the
  -- collation.
  pub walk-listed_rows :
      (fuel : ℕ) {ts : List Task}
      → tasks_of (listed_rows e scope wanted [] db.tasks) ≡ some ts
      → suc (length (listed_rows e scope wanted [] db.tasks)) ≤ fuel
      → walk e fuel req weather db [] ≡ some ts
  walk-listed_rows fuel {ts} h enough =
      walk_from fuel [] {ts = ts}
        (rows_to_tasks-eq (listed_rows e scope wanted [] db.tasks) ∙ ap or_undecoded h) enough
