-- ===== src/Write/Bounds.antt =====
-- The bounds of the columns that a compare-and-set of src/write.rs has met on every row it changed.
use task_db.Prelude.{
  ℕ, ◌+◌, ltb, Bool, true, false, some, List, [], ◌∷◌, All, ◌≡◌, ◌⊎◌, inl, inr, arith,
}
use task_db.Engine.{Engine, TaskRow, Db, Value}
use task_db.Wire.{Wire}
use task_db.Sql.Where.{Clause}
use task_db.Txn.{SqlResult, done}
use task_db.Tables.{selects, update_rows, title_fits, u64_limit}
use task_db.Write.{bounded, run_update}
use task_db.Write.Selection.{bounded-eq-done, changed-eq-done, stored-eq-done}

-- A row within the bounds of `title` and `version`.
abbrev pub Fits : TaskRow → Type 0
Fits r = (title_fits r.title ≡ true) × (ltb r.version u64_limit ≡ true)

-- What the rows of the test become is within the bounds.
abbrev pub AllFit : (TaskRow → Bool) → (TaskRow → TaskRow) → List TaskRow → Type 0
AllFit test f = All (λ r. test r ≡ true → Fits (f r))

module _ (e : Engine) (w : Wire) where
  bounded-Fits : (r : TaskRow) {r' : TaskRow} → bounded e w r ≡ done r' → Fits r
  bounded-Fits r h = ground arith

  module _ (clause : Clause) (params : List Value) (test : TaskRow → Bool)
      (selected : (r : TaskRow) → selects e clause params r ≡ some (test r))
      (f : TaskRow → TaskRow) where
    abbrev change : TaskRow → SqlResult TaskRow
    change r = bounded e w (f r)

    update_rows-AllFit :
        (rs : List TaskRow) {n : ℕ} {rs' : List TaskRow}
        → update_rows e clause params change rs ≡ done (n, rs')
        → AllFit test f rs
    unfolding update_rows
    update_rows-AllFit [] h = tt
    update_rows-AllFit (r ∷ rs) {n} {rs'} h =
        let (m, more, rest, case) =
          changed-eq-done e clause params test selected change f
            (λ q q' done_. bounded-eq-done e w (f q) done_) (test r) r (change r)
            (update_rows e clause params change rs) {n = n} {rs = rs'} (rw (selected r) at h) in
        (fits case, update_rows-AllFit rs rest)
      where
        fits :
            {m : ℕ} {more : List TaskRow}
            → ((test r ≡ false) × (n ≡ m) × (rs' ≡ r ∷ more))
              ⊎ ((test r ≡ true)
                  × (n ≡ m + 1)
                  × ((r' : TaskRow) × (change r ≡ done r') × (rs' ≡ r' ∷ more)))
            → test r ≡ true
            → Fits (f r)
        fits (inl (out, n_is, rs_is)) into = cc
        fits (inr (into, n_is, (r', made, rs_is))) hit = bounded-Fits (f r) made

    pub run_update-AllFit :
        (db : Db) {n : ℕ} {db' : Db}
        → run_update e w clause params change db ≡ done (n, db')
        → AllFit test f db.tasks
    run_update-AllFit db {n} {db'} h =
        let (rs, ran, made) =
          stored-eq-done e clause params test selected w f db
            (update_rows e clause params change db.tasks) {n = n} {db' = db'} h in
        update_rows-AllFit db.tasks ran
