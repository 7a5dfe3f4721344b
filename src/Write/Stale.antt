-- ===== src/Write/Stale.antt =====
-- A second UpdateTask of src/write.rs at a version that is gone: the compare-and-set of D8.
use task_db.Prelude.{
  ℕ, ◌+◌, ◌==◌, Text, Bool, true, false, not, ◌&&◌, Bool-cases, none, some, List, [], ◌∷◌, find,
  is_some, ◌≡◌, ◌≢◌, refl, ◌∙◌, sym, ap, arith, inl, inr,
}
use task_db.Status.{ok, ok-injective}
use task_db.Sql.{scope_of}
use task_db.Sql.Axes.{may_edit}
use task_db.Idem.{present}
use task_db.Proto.{Scope, Task, UpdateTaskRequest, UpdateTaskResponse}
use task_db.Engine.{Engine, TaskRow, Db}
use task_db.Wire.{Wire}
use task_db.Txn.{Weather, call}
use task_db.Write.Update.{update}
use task_db.Write.Mask.{Field}
use task_db.Write.Selection.{editable, set_where}
use task_db.Write.Updated.{update-outcome}
use task_db.Write.Columns.{edited_row}

version_of : (a b c d : Bool) → ((a && (b && c)) && d) ≡ true → b ≡ true
version_of a b c d h = ground arith

no_version : (a b c d : Bool) → b ≡ false → ((a && (b && c)) && d) ≡ false
no_version a b c d h = ground arith

next_version : (n v m : ℕ) → m ≡ n → (n == v) ≡ true → (m + 1 == v) ≡ false
next_version n v m m_is h = ground arith

module _ (e : Engine) (w : Wire) (scope : Scope) (task_id : Text) (v : ℕ) where
  -- An updated row is no longer at the version that the caller read.
  edited_row-stale :
      (task : Task) (fields : List Field) (user : Text) (r : TaskRow)
      → editable e scope task_id v r ≡ true
      → editable e scope task_id v (edited_row task fields user r) ≡ false
  edited_row-stale task fields user r h =
      no_version (e.same r.id task_id) (r.version + 1 == v) (not (is_some r.deleted_at))
        (may_edit e scope (edited_row task fields user r))
        (next_version r.version v r.version refl (
          version_of (e.same r.id task_id) (r.version == v) (not (is_some r.deleted_at))
            (may_edit e scope r) h))

  find-set_where :
      (task : Task) (fields : List Field) (user : Text) (rs : List TaskRow)
      → find
          (editable e scope task_id v)
          (set_where (editable e scope task_id v) (edited_row task fields user) rs)
        ≡ none
  find-set_where task fields user [] = refl
  find-set_where task fields user (r ∷ rs) = elim (Bool-cases (editable e scope task_id v r)) [
    | inl hit ↦
        rw hit (rw (edited_row-stale task fields user r hit) (find-set_where task fields user rs))
    | inr miss ↦ rw miss (rw miss (find-set_where task fields user rs))
  ]

module _ (e : Engine) (w : Wire) where
  -- Of two UpdateTasks without keys, for the same record, version and scope, the second does not
  -- answer well once the first has, whatever either writes and whatever the engine does.
  pub no_lost_update :
      (req req' : UpdateTaskRequest) (weather weather' : Weather) (db : Db)
      {resp resp' : UpdateTaskResponse}
      → req.idempotency ≡ none
      → req'.idempotency ≡ none
      → req'.scope ≡ req.scope
      → req'.id ≡ req.id
      → req'.expect_version ≡ req.expect_version
      → (call (update e w req) weather db).0 ≡ ok resp
      → (call (update e w req') weather' (call (update e w req) weather db).1).0 ≢ ok resp'
  unfolding present
  no_lost_update req req' weather weather' db k k' s i v first second =
      let (scope, task, fields, caller, scoped, tasked, metad, masked, called, one) =
        update-outcome e w req weather db first in
      let db' = (call (update e w req) weather db).1 in
      let (scope', task', fields', caller', scoped', tasked', metad', masked', called', two) =
        update-outcome e w req' weather' db' second in
      let scopes : scope' ≡ scope = ok-injective (sym scoped' ∙ ap scope_of s ∙ scoped) in
      elim one [
        | inl (replayed, same) ↦ rw k at replayed
        | inr (free, row, at_row, resp_is, made) ↦ elim two [
          | inl (replayed', same') ↦ rw k' at replayed'
          | inr (free', row', at_row', resp_is', made') ↦
              let rows =
                set_where (editable e scope req.id req.expect_version)
                  (edited_row task fields scope.user_id) db.tasks in
              let gone : none ≡ some row' =
                sym (
                  find-set_where e w scope req.id req.expect_version task fields scope.user_id
                    db.tasks)
                ∙ ap (λ c. find (editable e c req.id req.expect_version) rows) (sym scopes)
                ∙ ap (λ c. find (editable e scope' c req.expect_version) rows) (sym i)
                ∙ ap (λ c. find (editable e scope' req'.id c) rows) (sym v)
                ∙ ap (λ x. find (editable e scope' req'.id req'.expect_version) x.tasks) (sym made)
                ∙ at_row' in
              cc
        ]
      ]
