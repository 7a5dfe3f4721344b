-- ===== src/Write/Updated.antt =====
-- What UpdateTask of src/write.rs has done when it answers.
use task_db.Prelude.{
  ℕ, ℤ, ◌+◌, Text, Bool, true, Option, none, some, List, [], ◌∷◌, find, keep, ◌≡◌, refl, ◌∙◌, ◌⊎◌,
  inl, inr, sym, ap, arith, Bool-cases,
}
use task_db.Status.{ok, ok_or, refuse, task_is_required, ok_or-eq-ok}
use task_db.Proto.{Scope, Task, UpdateTaskRequest, UpdateTaskResponse, default_meta}
use task_db.Engine.{Engine, TaskRow, WriteRow, Db, text, unsigned}
use task_db.Wire.{Wire}
use task_db.Sql.{scope_of, reach_of, predicate, bind}
use task_db.Txn.{Session, Rpc, Weather, call, map_err, execute, acquire, begin, lift, ◌>>=◌, ◌>>◌}
use task_db.Txn.Inversion.{
  Returns, Returns-bind, Returns-lifted, done-pair, Returns-execute, Returns-call, started,
}
use task_db.Idem
use task_db.Idem.{Claimed, proceed, replay, claim, present, caller_fingerprint}
use task_db.Idem.Taking.{Opened, Claims, Replays}
use task_db.Write.{at_version, update_refusal, assigned_by_the_module}
use task_db.Write.Update.{
  update, update_claimed, update_found, update_or_replay, updated_row, updated, previous_status,
  read_status, first_status,
}
use task_db.Write.Columns.{edited_row, updated_row-eq-edited_row}
use task_db.Write.Mask.{Field, fields_of}
use task_db.Write.Payload.{update_payload}
use task_db.Write.Selection.{editable, set_where, selects-edit, read_status-eq}
use task_db.Write.Ending.{
  Returns-claimed, Returns-answer_replay, Returns-refuse_write, Returns-change, Opened-others,
  logged, is_free,
}

module _ (e : Engine) (w : Wire) where
  first_status-keep :
      (test : TaskRow → Bool) (rs : List TaskRow) {p : ℤ}
      → first_status e w (keep test rs) ≡ some p
      → (r : TaskRow) × (find test rs ≡ some r) × (p ≡ r.status)
  first_status-keep test [] h = cc
  first_status-keep test (r ∷ rs) {p} h = elim (Bool-cases (test r)) [
    | inl found ↦ (r, rw found refl, ground arith)
    | inr other ↦
        let (q, at_q, p_is) = first_status-keep test rs {p = p} (rw other at h) in
        (q, rw other at_q, p_is)
  ]

  module _ (req : UpdateTaskRequest) (scope : Scope) (task : Task) (fields : List Field)
      (caller : Option (List ℕ)) (db : Db) (resp : UpdateTaskResponse) (db' : Db) where
    abbrev pub ReplayedUpdate : Type 0
    ReplayedUpdate =
        Replays e w.update_response scope w Idem.update_task caller (update_payload w req)
          (present req.idempotency) db resp
        × (db' ≡ db)

    abbrev pub FreshUpdate : Type 0
    FreshUpdate =
        (is_free e w.update_response scope w Idem.update_task caller (update_payload w req)
            (present req.idempotency) db.writes
          ≡ true)
        × (row : TaskRow) × (find (editable e scope req.id req.expect_version) db.tasks ≡ some row)
        × (resp ≡ record {
          meta = some (record default_meta {
            id = req.id;
            version = req.expect_version + 1;
            project_id = scope.project_id;
          });
          previous_status = row.status;
        })
        × (db' ≡ record db {
          tasks =
              set_where (editable e scope req.id req.expect_version)
                (edited_row task fields scope.user_id) db.tasks;
          writes =
              logged e w.update_response scope w Idem.update_task caller (update_payload w req)
                (present req.idempotency) resp db.writes;
        })

  -- What the statement writes is the row with the sent fields.
  edits :
      (task : Task) (fields : List Field) (user : Text) (test : TaskRow → Bool) (db : Db)
      {after : Db} {log : List WriteRow}
      → after ≡ record db {
        tasks = set_where test (updated_row e w task fields user) db.tasks;
        writes = log;
      }
      → after
        ≡ record db { tasks = set_where test (edited_row task fields user) db.tasks; writes = log }
  edits task fields user test db {after} {log} made = made ∙ λ i. record db {
    tasks = set_where test (λ r. updated_row-eq-edited_row e w task fields user r i) db.tasks;
    writes = log;
  }

  module _ (req : UpdateTaskRequest) (scope : Scope) (task : Task) (fields : List Field)
      (caller : Option (List ℕ)) (before : Db) where
    Returns-update_found :
        (o : Option ℤ) (s : Session) {a : UpdateTaskResponse} {t : Session}
        → Opened e w.update_response scope w Idem.update_task caller
            (update_payload w req)
            (present req.idempotency)
            before
            s.working
        → o ≡ first_status e w (keep (editable e scope req.id req.expect_version) before.tasks)
        → Returns (update_found e w req scope task fields o) s a t
        → FreshUpdate req scope task fields caller before a t.committed
    Returns-update_found none s {a} {t} opened old h =
        absurd (Returns-refuse_write update_refusal s {a = a} {t = t} h)
    Returns-update_found (some previous) s {a} {t} opened old h =
        let (same, free, found, made) =
          Returns-change e w.update_response scope w Idem.update_task caller (update_payload w req)
            (at_version e w (predicate (reach_of scope)))
            (bind (reach_of scope) (text req.id ∷ unsigned req.expect_version ∷ []))
            (editable e scope req.id req.expect_version)
            (λ r. selects-edit e w r scope req.id req.expect_version)
            (updated_row e w task fields scope.user_id) update_refusal req.idempotency
            (updated e w req scope previous) before s opened h in
        let (row, at_row, previous_is) =
          first_status-keep (editable e scope req.id req.expect_version) before.tasks (sym old) in
        (
          free,
          row,
          at_row,
          sym same ∙ ap (updated e w req scope) previous_is,
          edits task fields scope.user_id (editable e scope req.id req.expect_version) before
              (rw (← same) made),
        )

    Returns-update_claimed :
        (s : Session) {a : UpdateTaskResponse} {t : Session}
        → Opened e w.update_response scope w Idem.update_task caller
            (update_payload w req)
            (present req.idempotency)
            before
            s.working
        → Returns (update_claimed e w req scope task fields) s a t
        → FreshUpdate req scope task fields caller before a t.committed
    unfolding update_claimed previous_status
    Returns-update_claimed s {a} {t} opened h =
        let clause = at_version e w (predicate (reach_of scope)) in
        let params = bind (reach_of scope) (text req.id ∷ unsigned req.expect_version ∷ []) in
        let test = editable e scope req.id req.expect_version in
        let (o, s1, looked, rest) =
          Returns-bind (map_err (execute (read_status e w clause params)))
            (update_found e w req scope task fields) s h in
        let (ran, kept) = Returns-execute (read_status e w clause params) s looked in
        let (old, same) = done-pair (
          sym (
            read_status-eq e clause params test
              (λ r. selects-edit e w r scope req.id req.expect_version) w s.working)
          ∙ ran) in
        let tasks_are =
          ap (λ x. x.tasks)
            (Opened-others e w.update_response scope w Idem.update_task caller
              (update_payload w req) (present req.idempotency) before s.working opened) in
        Returns-update_found o s1 (rw same at opened)
          (sym old ∙ ap (λ rs. first_status e w (keep test rs)) tasks_are) rest

    Returns-update_or_replay :
        (c : Claimed UpdateTaskResponse) (s : Session) {a : UpdateTaskResponse} {t : Session}
        → Claims e w.update_response scope w Idem.update_task caller
            (update_payload w req)
            (present req.idempotency)
            c
            before
            s.working
        → s.committed ≡ before
        → Returns (update_or_replay e w req scope task fields c) s a t
        → ReplayedUpdate req scope task fields caller before a t.committed
          ⊎ FreshUpdate req scope task fields caller before a t.committed
    Returns-update_or_replay proceed s claimed kept h = inr (Returns-update_claimed s claimed h)
    Returns-update_or_replay (replay x) s {a} {t} claimed kept h =
        let (x_is, back) = Returns-answer_replay x s h in inl (rw (← x_is) claimed, back ∙ kept)

  -- What is so after an answer: the request's parts, and a replay or a fresh write.
  abbrev pub Updates : UpdateTaskRequest → Db → UpdateTaskResponse → Db → Type 0
  Updates req db resp db' =
      (scope : Scope) × (task : Task) × (fields : List Field) × (caller : Option (List ℕ))
      × (scope_of req.scope ≡ ok scope)
      × (req.task ≡ some task)
      × (assigned_by_the_module task.meta ≡ ok tt)
      × (fields_of req.update_mask ≡ ok fields)
      × (caller_fingerprint req.caller_fingerprint ≡ ok caller)
      × (ReplayedUpdate req scope task fields caller db resp db'
          ⊎ FreshUpdate req scope task fields caller db resp db')

  -- An UpdateTask that answers well, whatever the pool and the engine did: its request has a scope, a
  -- task without any field of `Meta`, a mask of known fields and a caller fingerprint of 0 or 32
  -- bytes, and either the ledger holds its key and the request it was taken with, nothing is changed
  -- and the answer is the recorded one; or the key is free (or absent), a row that the caller may
  -- edit is there at the id and the expected version, exactly such rows take the masked fields, the
  -- next version and the caller as their last writer, the answer has the next version and the status
  -- that the row had, and it is recorded under the key.
  pub update-outcome :
      (req : UpdateTaskRequest) (weather : Weather) (db : Db) {resp : UpdateTaskResponse}
      → (call (update e w req) weather db).0 ≡ ok resp
      → Updates req db resp (call (update e w req) weather db).1
  unfolding update
  update-outcome req weather db {resp} h =
      let s0 = started weather db in
      let (t, ran, after) = Returns-call (update e w req) weather db h in
      let transact : Scope → Task → List Field → Option (List ℕ) → Rpc UpdateTaskResponse =
        λ scope task fields caller.
          acquire
          >> (begin
              >> (claim e w.update_response scope w Idem.update_task req.idempotency caller
                    (update_payload w req)
                  >>= update_or_replay e w req scope task fields)) in
      let with_fields : Scope → Task → List Field → Rpc UpdateTaskResponse = λ scope task fields.
        lift (caller_fingerprint req.caller_fingerprint) >>= transact scope task fields in
      let with_task : Scope → Task → Rpc UpdateTaskResponse = λ scope task.
        lift (assigned_by_the_module task.meta)
        >> (lift (fields_of req.update_mask) >>= with_fields scope task) in
      let with_scope : Scope → Rpc UpdateTaskResponse =
        λ scope. lift (ok_or req.task (refuse task_is_required)) >>= with_task scope in
      let (scope, scope_is, ran1) = Returns-lifted (scope_of req.scope) with_scope s0 ran in
      let (task, task_is, ran2) =
        Returns-lifted (ok_or req.task (refuse task_is_required)) (with_task scope) s0 ran1 in
      let (u, meta_is, ran3) =
        Returns-lifted (assigned_by_the_module task.meta)
          (λ u. lift (fields_of req.update_mask) >>= with_fields scope task) s0 ran2 in
      let (fields, fields_is, ran4) =
        Returns-lifted (fields_of req.update_mask) (with_fields scope task) s0 ran3 in
      let (caller, caller_is, ran5) =
        Returns-lifted (caller_fingerprint req.caller_fingerprint) (transact scope task fields) s0
          ran4 in
      let (c, s1, ended, claimed, kept) =
        Returns-claimed e w.update_response scope w Idem.update_task caller (update_payload w req)
          req.idempotency (update_or_replay e w req scope task fields) s0 ran5 in
      (
        scope,
        task,
        fields,
        caller,
        scope_is,
        ok_or-eq-ok req.task (refuse task_is_required) task_is,
        meta_is,
        fields_is,
        caller_is,
        rw after (Returns-update_or_replay req scope task fields caller db c s1 claimed kept ended),
      )
