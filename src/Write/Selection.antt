-- ===== src/Write/Selection.antt =====
-- The rows that the compare-and-set of src/write.rs selects, and what the statement makes of them.
use task_db.Prelude.{
  ℕ, ◌+◌, ◌==◌, Text, Bool, true, false, not, ◌&&◌, some, List, [], ◌∷◌, map, exists, is_some, keep,
  if◌then◌else◌, ◌≡◌, refl, ◌⊎◌, inl, inr, arith,
}
use mathlib.Core.List.{append-nil}
use task_db.Proto.{Scope}
use task_db.Engine.{Engine, TaskRow, Db, Value, text, unsigned}
use task_db.Wire.{Wire}
use task_db.Sql.{reach_of, predicate, within, bind, bind_within}
use task_db.Sql.Where.{Clause, eval, both, eq, owner_user_id}
use task_db.Sql.Axes.{may_edit, lives_within}
use task_db.Sql.Access.{predicate-eq-may_edit, eval-both, eval-within}
use task_db.Txn.{SqlResult, done, failed}
use task_db.Tables.{selects, select_rows, update_rows, changed}
use task_db.Write.{at_version, bounded, stored, run_update}
use task_db.Write.Update.{read_status, first_status}

-- The compare-and-set of a row: its id, the version that the caller read, and not deleted.
abbrev pub is_current : Engine → Text → ℕ → TaskRow → Bool
is_current e task_id v r = e.same r.id task_id && (r.version == v && not (is_some r.deleted_at))

-- A row that an update changes.
abbrev pub editable : Engine → Scope → Text → ℕ → TaskRow → Bool
editable e scope task_id v r = is_current e task_id v r && may_edit e scope r

-- A row that a delete removes: the caller's own, whatever the ladder shows.
abbrev pub deletable : Engine → Scope → Text → ℕ → TaskRow → Bool
deletable e scope task_id v r =
    is_current e task_id v r && (e.same r.owner_user_id scope.user_id && lives_within e scope r)

module _ (e : Engine) (w : Wire) (r : TaskRow) where
  selects-at_version :
      (rest : Clause) (task_id : Text) (v : ℕ) (vs : List Value) {b : Bool}
      → eval e rest r vs ≡ some (b, [])
      → selects e (at_version e w rest) (text task_id ∷ unsigned v ∷ vs) r
        ≡ some (is_current e task_id v r && b)
  unfolding eval selects
  selects-at_version rest task_id v vs h = rw h (ground arith)

  -- The statement of an update selects the editable row.
  pub selects-edit :
      (scope : Scope) (task_id : Text) (v : ℕ)
      → selects e
          (at_version e w (predicate (reach_of scope)))
          (bind (reach_of scope) (text task_id ∷ unsigned v ∷ []))
          r
        ≡ some (editable e scope task_id v r)
  unfolding reach_of
  selects-edit scope task_id v =
      selects-at_version (predicate (reach_of scope)) task_id v (bind (reach_of scope) [])
        {b = may_edit e scope r}
        (rw (append-nil (map text scope.team_ids)) at (predicate-eq-may_edit e scope r []))

  -- The statement of a delete selects the deletable row.
  pub selects-delete :
      (scope : Scope) (task_id : Text) (v : ℕ)
      → selects e
          (at_version e w (both (eq owner_user_id) (within (reach_of scope))))
          (bind_within (reach_of scope) (text task_id ∷ unsigned v ∷ text scope.user_id ∷ []))
          r
        ≡ some (deletable e scope task_id v r)
  unfolding reach_of eval
  selects-delete scope task_id v =
      selects-at_version (both (eq owner_user_id) (within (reach_of scope))) task_id v
        (text scope.user_id ∷ bind_within (reach_of scope) [])
        {b = e.same r.owner_user_id scope.user_id && lives_within e scope r}
        (eval-both e r (eq owner_user_id) (within (reach_of scope))
          (text scope.user_id ∷ bind_within (reach_of scope) [])
          {a = e.same r.owner_user_id scope.user_id} refl (eval-within e r scope []))

-- A statement on the rows of a test, with what it makes of one.
module _ (test : TaskRow → Bool) (f : TaskRow → TaskRow) where
  abbrev pub set_where : List TaskRow → List TaskRow
  set_where [] = []
  set_where (r ∷ rs) = (if test r then f r else r) ∷ set_where rs

module _ (e : Engine) (w : Wire) where
  pub bounded-eq-done : (r : TaskRow) {r' : TaskRow} → bounded e w r ≡ done r' → r' ≡ r
  bounded-eq-done r h = ground arith

module _ (e : Engine) (clause : Clause) (params : List Value) (test : TaskRow → Bool)
    (selected : (r : TaskRow) → selects e clause params r ≡ some (test r)) where
  module _ (change : TaskRow → SqlResult TaskRow) (f : TaskRow → TaskRow)
      (changes : (r r' : TaskRow) → change r ≡ done r' → r' ≡ f r) where
    pub changed-eq-done :
        (b : Bool) (r : TaskRow) (c : SqlResult TaskRow) (rest : SqlResult (ℕ × List TaskRow))
        {n : ℕ} {rs : List TaskRow}
        → changed (some b) r c rest ≡ done (n, rs)
        → (m : ℕ) × (more : List TaskRow) × (rest ≡ done (m, more))
          × (((b ≡ false) × (n ≡ m) × (rs ≡ r ∷ more))
              ⊎ ((b ≡ true) × (n ≡ m + 1) × ((r' : TaskRow) × (c ≡ done r') × (rs ≡ r' ∷ more))))
    changed-eq-done b r c (failed x) h = cc
    changed-eq-done false r c (done (m, more)) h =
        (m, more, refl, inl (refl, ground arith, ground arith))
    changed-eq-done true r (failed x) (done (m, more)) h = cc
    changed-eq-done true r (done r') (done (m, more)) h =
        (m, more, refl, inr (refl, ground arith, (r', refl, ground arith)))

    -- A statement that succeeded has changed the rows of the test, and has counted them.
    pub update_rows-eq-done :
        (rs : List TaskRow) {n : ℕ} {rs' : List TaskRow}
        → update_rows e clause params change rs ≡ done (n, rs')
        → (rs' ≡ set_where test f rs) × ((n == 0) ≡ not (exists test rs))
    unfolding update_rows
    update_rows-eq-done [] h = ground arith
    update_rows-eq-done (r ∷ rs) {n} {rs'} h =
        let (m, more, rest, case) =
          changed-eq-done (test r) r (change r) (update_rows e clause params change rs)
            (rw (selected r) at h) in
        let (more_is, m_is) = update_rows-eq-done rs rest in
        elim case [
          | inl (out, n_is, rs_is) ↦ (rw out (rw (← more_is) rs_is), rw out (rw n_is m_is))
          | inr (into, n_is, (r', r'_done, rs_is)) ↦ (
            rw into (rw (← changes r r' r'_done) (rw (← more_is) rs_is)),
            rw into (ground (arith, n_is)),
          )
        ]

  -- A statement that selects the rows of the test is never in want of a parameter.
  select_rows-eq-keep : (rs : List TaskRow) → select_rows e clause params rs ≡ done (keep test rs)
  unfolding select_rows
  select_rows-eq-keep [] = refl
  select_rows-eq-keep (r ∷ rs) = rw (selected r) (rw (select_rows-eq-keep rs) refl)

  pub read_status-eq :
      (w : Wire) (db : Db)
      → read_status e w clause params db ≡ done (first_status e w (keep test db.tasks), db)
  read_status-eq w db = rw (read_status, select_rows-eq-keep db.tasks) refl

  module _ (w : Wire) (f : TaskRow → TaskRow) where
    pub stored-eq-done :
        (db : Db) (r : SqlResult (ℕ × List TaskRow)) {n : ℕ} {db' : Db}
        → stored e w db r ≡ done (n, db')
        → (rs : List TaskRow) × (r ≡ done (n, rs)) × (db' ≡ record db { tasks = rs })
    stored-eq-done db (failed x) h = cc
    stored-eq-done db (done (m, rs)) h = (rs, ground arith, ground arith)

    -- What a compare-and-set that succeeded has made of the tables.
    pub run_update-set_where :
        (db : Db) {n : ℕ} {db' : Db}
        → run_update e w clause params (λ r. bounded e w (f r)) db ≡ done (n, db')
        → (db' ≡ record db { tasks = set_where test f db.tasks })
          × ((n == 0) ≡ not (exists test db.tasks))
    run_update-set_where db {n} {db'} h =
        let (rs, ran, db'_is) =
          stored-eq-done db (update_rows e clause params (λ r. bounded e w (f r)) db.tasks) {n = n}
            {db' = db'} h in
        let (rs_is, n_is) =
          update_rows-eq-done (λ r. bounded e w (f r)) f
            (λ r r' done_. bounded-eq-done e w (f r) done_) db.tasks ran in
        (rw (← rs_is) db'_is, n_is)
