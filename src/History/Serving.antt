-- ===== src/History/Serving.antt =====
-- The six RPCs of src/service.rs keep what their statements keep.
use task_db.Prelude.{
  ℕ, ◌≤◌, ◌==◌, ℤ, Text, codes, Bool, Option, none, some, List, [], ◌∷◌, ◌++◌, find, if◌then◌else◌,
  ◌≡◌, ◌∙◌, sym, arith,
}
use task_db.Status.{Status, Result, ok_or, refuse, task_is_required}
use task_db.Proto.{
  Scope, Task, CreateTaskRequest, CreateTaskResponse, UpdateTaskRequest, UpdateTaskResponse,
  DeleteTaskRequest, DeleteTaskResponse,
}
use task_db.Engine.{Engine, TaskRow, Db, Value, text, unsigned}
use task_db.Wire.{Wire}
use task_db.Sql.{scope_of, reach_of, predicate, within, bind, bind_within}
use task_db.Sql.Where.{Clause, both, eq, owner_user_id}
use task_db.Txn.{Rpc, done, map_err, execute, lift, ◌>>=◌}
use task_db.Txn.Triple.{Triple, Keeps, Any, Triple-lift, Triple-execute, Triple-bind, Triple-if}
use task_db.Tables.{selects, insert_task, bump_counter, read_counter, next_counter, is_counter}
use task_db.Idem
use task_db.Idem.{Claimed, proceed, replay, present, claim, record_outcome, caller_fingerprint}
use task_db.Write.{
  at_version, run_update, bounded, update_refusal, delete_refusal, refuse_write,
  assigned_by_the_module,
}
use task_db.Write.Create.{
  create, create_claimed, create_or_replay, created, allocate_number, new_row,
}
use task_db.Write.Delete.{delete, delete_claimed, delete_or_replay, deleted_row}
use task_db.Write.Update.{
  update, update_claimed, update_found, update_or_replay, updated, updated_row, previous_status,
}
use task_db.Write.Mask.{Field, fields_of}
use task_db.Write.Payload.{create_payload, update_payload, delete_payload}
use task_db.Write.Numbering.{
  last_number, next_counter-Advances, with_counters-eq-done, number_found-eq-done,
}
use task_db.Write.Selection.{
  editable, deletable, set_where, selects-edit, selects-delete, read_status-eq,
  run_update-set_where,
}
use task_db.Write.Bounds.{AllFit, run_update-AllFit}
use task_db.Txn.Inversion.{done-pair}
use task_db.History.{Statements}
use task_db.History.Keeping.{
  Keeps-reading, Opens, Keeps-answer_replay, Keeps-refuse_write, Keeps-finish, Keeps-claimed,
}

module _ (e : Engine) (w : Wire) (P : Db → Type 0) (Own : Scope → Text → Type 0)
    (laws : Statements e w P Own) where
  abbrev Numbered : Text → ℕ → Db → Type 0
  Numbered project n db = (n ≡ last_number e project db.counters) × (1 ≤ n)

  bumped :
      (project : Text) (db : Db) (u : Unit {0}) (after : Db)
      → P db
      → Any db
      → bump_counter e project db ≡ done (u, after)
      → P after × (1 ≤ last_number e project after.counters)
  unfolding bump_counter
  bumped project db u after h r ran =
      let (cs, moved, after_is) =
        with_counters-eq-done e project w db (next_counter e project db.counters) ran in
      let (one, small, others) = next_counter-Advances e project db.counters moved in
      rw after_is (laws.counts project db cs h moved, omega (arith, one))

  counted :
      (project : Text) (db : Db) (n : ℕ) (after : Db)
      → P db
      → 1 ≤ last_number e project db.counters
      → read_counter e project db ≡ done (n, after)
      → P after × Numbered project n after
  unfolding read_counter
  counted project db n after h one ran =
      let (n_is, after_is) =
        number_found-eq-done e project w (find (is_counter e project) db.counters) db ran in
      rw after_is (h, (n_is, rw n_is one))

  Triple-allocate_number :
      (project : Text) → Triple P Any (allocate_number e w project) (Numbered project)
  unfolding allocate_number
  Triple-allocate_number project =
      Triple-bind P Any (map_err (execute (bump_counter e project))) _
        (λ u db. 1 ≤ last_number e project db.counters) (Numbered project)
        (Triple-execute P Any (bump_counter e project) _ (bumped project))
        (λ u.
          Triple-execute P (λ db. 1 ≤ last_number e project db.counters) (read_counter e project) _
            (counted project))

  Keeps-create_claimed :
      (urn : Text) (req : CreateTaskRequest) (scope : Scope) (task : Task)
      → Opens e w P Own laws w.create_response scope (present req.idempotency) proceed
      → Keeps P (create_claimed e w urn req scope task)
  unfolding create_claimed
  Keeps-create_claimed urn req scope task own =
      Triple-bind P Any (allocate_number e w scope.project_id) _ (Numbered scope.project_id)
        (λ a. Any) (Triple-allocate_number scope.project_id)
        λ n.
          Triple-bind P (Numbered scope.project_id n)
            (map_err (execute (insert_task e (new_row urn scope n task)))) _ (λ u. Any) (λ a. Any)
            (Triple-execute P (Numbered scope.project_id n)
              (insert_task e (new_row urn scope n task)) (λ u. Any)
              (λ db u after h r ran. (laws.inserts urn scope task n db u after h r ran, tt)))
            λ u.
              Keeps-finish e w P Own laws w.create_response scope req.idempotency
                (created e w urn scope n) own

  Keeps-create_or_replay :
      (urn : Text) (req : CreateTaskRequest) (scope : Scope) (task : Task)
      (c : Claimed CreateTaskResponse)
      → Opens e w P Own laws w.create_response scope (present req.idempotency) c
      → Keeps P (create_or_replay e w urn req scope task c)
  Keeps-create_or_replay urn req scope task proceed own =
      Keeps-create_claimed urn req scope task own
  Keeps-create_or_replay urn req scope task (replay t) own = Keeps-answer_replay e w P Own laws t

  -- A check of the request that stands before the rest.
  Keeps-checked :
      {A B : Type 0} (r : Result A) (f : A → Rpc B)
      → ((a : A) → Keeps P (f a))
      → Keeps P (lift r >>= f)
  Keeps-checked r f h = Triple-bind P Any (lift r) f (λ a. Any) (λ a. Any) (Triple-lift P Any r) h

  pub create-Keeps : (uuid : Text) (req : CreateTaskRequest) → Keeps P (create e w uuid req)
  unfolding create
  create-Keeps uuid req = Keeps-checked (scope_of req.scope) _ λ scope.
      Keeps-checked (ok_or req.task (refuse task_is_required)) _ λ task.
        Keeps-checked (assigned_by_the_module task.meta) _ λ u.
          Keeps-claimed e w P Own laws w.create_response scope Idem.create_task req.idempotency none
            (create_payload w req) _
            (Keeps-create_or_replay (codes "yadgar:task:" ++ uuid) req scope task)

  -- A compare-and-set and what follows it, by what is so of the statement.
  Keeps-changing :
      {T : Type 0} (clause : Clause) (params : List Value) (test : TaskRow → Bool)
      (f : TaskRow → TaskRow) (refusal : Status) (finish : Rpc T)
      → ((r : TaskRow) → selects e clause params r ≡ some (test r))
      → ((db : Db)
          → P db
          → AllFit test f db.tasks
          → P (record db { tasks = set_where test f db.tasks }))
      → Keeps P finish
      → Keeps P (
          map_err (execute (run_update e w clause params (λ r. bounded e w (f r))))
          >>= (λ n. if n == 0 then refuse_write refusal else finish))
  Keeps-changing clause params test f refusal finish selected law h =
      Triple-bind P Any (map_err (execute (run_update e w clause params (λ r. bounded e w (f r)))))
        _ (λ n. Any) (λ a. Any)
        (Triple-execute P Any (run_update e w clause params (λ r. bounded e w (f r))) (λ n. Any)
          λ db n after p r ran.
            let (after_is, affected) =
              run_update-set_where e clause params test selected w f db ran in
            (
              rw after_is (law db p (run_update-AllFit e w clause params test selected f db ran)),
              tt,
            ))
        λ n.
          Triple-if P Any (n == 0) _ finish (λ a. Any) (Keeps-refuse_write e w P Own laws refusal) h

  Keeps-update_found :
      (req : UpdateTaskRequest) (scope : Scope) (task : Task) (fields : List Field) (o : Option ℤ)
      → Opens e w P Own laws w.update_response scope (present req.idempotency) proceed
      → Keeps P (update_found e w req scope task fields o)
  Keeps-update_found req scope task fields none own =
      Keeps-refuse_write e w P Own laws update_refusal
  Keeps-update_found req scope task fields (some previous) own =
      Keeps-changing (at_version e w (predicate (reach_of scope)))
        (bind (reach_of scope) (text req.id ∷ unsigned req.expect_version ∷ []))
        (editable e scope req.id req.expect_version) (updated_row e w task fields scope.user_id)
        update_refusal _ (λ r. selects-edit e w r scope req.id req.expect_version)
        (laws.updates scope task fields req.id req.expect_version)
        (Keeps-finish e w P Own laws w.update_response scope req.idempotency
          (updated e w req scope previous) own)

  Keeps-previous_status :
      (req : UpdateTaskRequest) (scope : Scope) → Keeps P (previous_status e w (reach_of scope) req)
  unfolding previous_status
  Keeps-previous_status req scope = Keeps-reading e w P Own laws _ λ db a after h.
      sym
        (done-pair (
          sym (
            read_status-eq e (at_version e w (predicate (reach_of scope)))
              (bind (reach_of scope) (text req.id ∷ unsigned req.expect_version ∷ []))
              (editable e scope req.id req.expect_version)
              (λ r. selects-edit e w r scope req.id req.expect_version) w db)
          ∙ h)).1

  Keeps-update_or_replay :
      (req : UpdateTaskRequest) (scope : Scope) (task : Task) (fields : List Field)
      (c : Claimed UpdateTaskResponse)
      → Opens e w P Own laws w.update_response scope (present req.idempotency) c
      → Keeps P (update_or_replay e w req scope task fields c)
  unfolding update_claimed
  Keeps-update_or_replay req scope task fields proceed own =
      Triple-bind P Any (previous_status e w (reach_of scope) req) _ (λ o. Any) (λ a. Any)
        (Keeps-previous_status req scope) λ o. Keeps-update_found req scope task fields o own
  Keeps-update_or_replay req scope task fields (replay t) own = Keeps-answer_replay e w P Own laws t

  pub update-Keeps : (req : UpdateTaskRequest) → Keeps P (update e w req)
  unfolding update
  update-Keeps req = Keeps-checked (scope_of req.scope) _ λ scope.
      Keeps-checked (ok_or req.task (refuse task_is_required)) _ λ task.
        Keeps-checked (assigned_by_the_module task.meta) _ λ u.
          Keeps-checked (fields_of req.update_mask) _ λ fields.
            Keeps-checked (caller_fingerprint req.caller_fingerprint) _ λ caller.
              Keeps-claimed e w P Own laws w.update_response scope Idem.update_task req.idempotency
                caller (update_payload w req) _ (Keeps-update_or_replay req scope task fields)

  Keeps-delete_or_replay :
      (now : ℕ) (req : DeleteTaskRequest) (scope : Scope) (c : Claimed DeleteTaskResponse)
      → Opens e w P Own laws w.delete_response scope (present req.idempotency) c
      → Keeps P (delete_or_replay e w now req scope c)
  unfolding delete_claimed
  Keeps-delete_or_replay now req scope proceed own =
      Keeps-changing (at_version e w (both (eq owner_user_id) (within (reach_of scope))))
        (bind_within (reach_of scope)
          (text req.id ∷ unsigned req.expect_version ∷ text scope.user_id ∷ []))
        (deletable e scope req.id req.expect_version) (deleted_row e w now) delete_refusal _
        (λ r. selects-delete e w r scope req.id req.expect_version)
        (laws.deletes scope now req.id req.expect_version)
        (Keeps-finish e w P Own laws w.delete_response scope req.idempotency (record {}) own)
  Keeps-delete_or_replay now req scope (replay t) own = Keeps-answer_replay e w P Own laws t

  pub delete-Keeps : (now : ℕ) (req : DeleteTaskRequest) → Keeps P (delete e w now req)
  unfolding delete
  delete-Keeps now req = Keeps-checked (scope_of req.scope) _ λ scope.
      Keeps-checked (caller_fingerprint req.caller_fingerprint) _ λ caller.
        Keeps-claimed e w P Own laws w.delete_response scope Idem.delete_task req.idempotency caller
          (delete_payload w req) _ (Keeps-delete_or_replay now req scope)
