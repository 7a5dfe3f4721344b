-- ===== src/Read/Listing.antt =====
-- The rows that ListTasks of src/read.rs asks for, and those that it answers.
use task_db.Prelude.{
  ℤ, int_eq, Text, Bool, true, not, ◌&&◌, ◌||◌, is_some, some, List, [], ◌∷◌, ◌++◌, map, exists,
  keep, length, All, ◌≡◌, refl, ap, arith,
}
use task_db.Proto.{Scope}
use task_db.Engine.{Engine, TaskRow, Value, tiny, same_value}
use task_db.Sql.{reach_of, read_predicate, Readable, bind, bind_readable}
use task_db.Sql.Where.{Clause, eval, split, both, is_null, in_holes, gt, deleted_at, status, id}
use task_db.Sql.Axes.{may_read}
use task_db.Sql.Access.{read_predicate-eq-may_read, eval-both}
use task_db.Status.{ok}
use task_db.Txn.{done}
use task_db.Tables.{selects, select_rows}
use task_db.Read.{list_clause, list_binds, with_statuses, after_token, token_bind}

-- An empty filter is every status.
abbrev pub of_status : List ℤ → TaskRow → Bool
of_status [] r = true
of_status (s ∷ ss) r = exists (int_eq r.status) (s ∷ ss)

-- An empty token is the first page.
abbrev pub is_after_token : Engine → Text → TaskRow → Bool
is_after_token e [] r = true
is_after_token e (c ∷ t) r = e.before (c ∷ t) r.id

-- A row that a caller is listed: one that it may read, of a wanted status, and not deleted.
abbrev pub is_listed : Engine → Scope → List ℤ → TaskRow → Bool
is_listed e scope wanted r =
    (not (is_some r.deleted_at) && may_read e scope r) && of_status wanted r

&&-true : (a : Bool) → (a && true) ≡ a
&&-true a = ground arith

split-tiny :
    (ss : List ℤ) (rest : List Value)
    → split (length ss) (map tiny ss ++ rest) ≡ some (map tiny ss, rest)
split-tiny [] rest = refl
split-tiny (s ∷ ss) rest = rw (split-tiny ss rest) refl

module _ (e : Engine) (r : TaskRow) where
  exists-tiny :
      (v : ℤ) (ss : List ℤ) → exists (same_value e (tiny v)) (map tiny ss) ≡ exists (int_eq v) ss
  exists-tiny v [] = refl
  exists-tiny v (s ∷ ss) = ap (λ b. int_eq v s || b) (exists-tiny v ss)

  eval-with_statuses :
      (wanted : List ℤ) (clause : Clause) (vs rest : List Value) {b : Bool}
      → eval e clause r vs ≡ some (b, map tiny wanted ++ rest)
      → eval e (with_statuses e wanted clause) r vs ≡ some (b && of_status wanted r, rest)
  unfolding eval
  eval-with_statuses [] clause vs rest {b} h = rw (&&-true b) h
  eval-with_statuses (s ∷ ss) clause vs rest h =
      eval-both e r clause (in_holes status (length (s ∷ ss))) vs h
        (rw (split-tiny ss rest) (rw (exists-tiny r.status ss) refl))

  eval-after_token :
      (token : Text) (clause : Clause) (vs : List Value) {b : Bool}
      → eval e clause r vs ≡ some (b, token_bind e token)
      → eval e (after_token e token clause) r vs ≡ some (b && is_after_token e token r, [])
  unfolding eval
  eval-after_token [] clause vs {b} h = rw (&&-true b) h
  eval-after_token (c ∷ t) clause vs h = eval-both e r clause (gt id) vs h refl

  -- The statement of ListTasks selects the rows that are listed after its token.
  pub selects-list :
      (scope : Scope) (wanted : List ℤ) (token : Text) {clause : Readable}
      → read_predicate (reach_of scope) ≡ ok clause
      → selects e
          (list_clause e clause wanted token)
          (list_binds e (reach_of scope) clause wanted token)
          r
        ≡ some (is_listed e scope wanted r && is_after_token e token r)
  unfolding selects eval
  selects-list scope wanted token {clause} h =
      let rest = map tiny wanted ++ token_bind e token in
      let vs = bind_readable clause (bind (reach_of scope) []) ++ rest in
      let base =
        eval-both e r (is_null deleted_at) clause.sql vs {a = not (is_some r.deleted_at)} refl
          (read_predicate-eq-may_read e scope r rest h) in
      rw
        (eval-after_token token (with_statuses e wanted (both (is_null deleted_at) clause.sql)) vs (
          eval-with_statuses wanted (both (is_null deleted_at) clause.sql) vs (token_bind e token)
            base))
        refl

-- A statement, by what it selects of the rows that there are.
module _ (e : Engine) (clause : Clause) (params : List Value) (test : TaskRow → Bool) where
  pub select_rows-keep :
      (rs : List TaskRow)
      → All (λ r. selects e clause params r ≡ some (test r)) rs
      → select_rows e clause params rs ≡ done (keep test rs)
  unfolding select_rows
  select_rows-keep [] h = refl
  select_rows-keep (r ∷ rs) (here, more) = rw here (rw (select_rows-keep rs more) refl)
