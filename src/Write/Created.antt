-- ===== src/Write/Created.antt =====
-- What CreateTask of src/write.rs has done when it answers.
use task_db.Prelude.{
  ℕ, pos, as_i8, Text, codes, true, false, none, some, List, [], ◌∷◌, ◌++◌, exists, ◌≡◌, ◌∙◌, ◌⊎◌,
  inl, inr, sym, ap, arith,
}
use task_db.Status.{ok, ok_or, refuse, task_is_required, ok_or-eq-ok}
use task_db.Proto.{Scope, Task, CreateTaskRequest, CreateTaskResponse, default_meta}
use task_db.Engine.{Engine, TaskRow, CounterRow, Db}
use task_db.Wire.{Wire}
use task_db.Sql.{scope_of}
use task_db.Tables.{insert_task, title_fits, same_task_key}
use task_db.Txn.{
  Session, Rpc, Weather, call, map_err, execute, acquire, begin, commit, pure, lift, done, ◌>>=◌,
  ◌>>◌,
}
use task_db.Txn.Inversion.{
  Returns, Returns-bind, Returns-lifted, Returns-execute, Returns-call, started,
}
use task_db.Idem
use task_db.Idem.{Claimed, proceed, replay, claim, present, record_outcome}
use task_db.Idem.Taking.{Opened, Claims, Replays}
use task_db.Write.{assigned_by_the_module}
use task_db.Write.Create.{
  create, create_claimed, create_or_replay, new_row, created, allocate_number,
}
use task_db.Write.Payload.{create_payload}
use task_db.Write.Numbering.{last_number, Advances, Returns-allocate_number}
use task_db.Write.Ending.{
  Returns-claimed, Returns-answer_replay, Returns-finish, Opened-others, logged, is_free,
}

module _ (e : Engine) (w : Wire) where
  pub insert_task-eq-done :
      (r : TaskRow) (db : Db) {u : Unit {0}} {db' : Db}
      → insert_task e r db ≡ done (u, db')
      → (title_fits r.title ≡ true)
        × (exists (same_task_key e r) db.tasks ≡ false)
        × (db' ≡ record db { tasks = db.tasks ++ r ∷ [] })
  unfolding insert_task
  insert_task-eq-done r db {u} {db'} h = ground arith

  -- The row that a create is to insert: the caller's, of the private rung, at version 1, not deleted,
  -- with the number it was given and what the request says.
  abbrev pub inserted_row : Text → Scope → ℕ → Task → TaskRow
  inserted_row urn scope number task = record {
    id = urn;
    version = 1;
    project_id = scope.project_id;
    owner_user_id = scope.user_id;
    team_id = [];
    visibility = pos 1;
    created_by = scope.user_id;
    updated_by = scope.user_id;
    deleted_at = none;
    number = number;
    title = task.title;
    body = task.body;
    status = as_i8 task.status;
    tags = some task.tags;
    links = some task.links;
  }

  module _ (urn : Text) (req : CreateTaskRequest) (scope : Scope) (task : Task) (db : Db)
      (resp : CreateTaskResponse) (db' : Db) where
    abbrev pub ReplayedCreate : Type 0
    ReplayedCreate =
        Replays e w.create_response scope w Idem.create_task none (create_payload w req)
          (present req.idempotency) db resp
        × (db' ≡ db)

    abbrev pub FreshCreate : Type 0
    FreshCreate =
        (is_free e w.create_response scope w Idem.create_task none (create_payload w req)
            (present req.idempotency) db.writes
          ≡ true)
        × (number : ℕ) × (counters : List CounterRow) × (number
            ≡ last_number e scope.project_id counters)
        × Advances e scope.project_id db.counters counters
        × (title_fits task.title ≡ true)
        × (exists (same_task_key e (inserted_row urn scope number task)) db.tasks ≡ false)
        × (resp ≡ record {
          meta = some (record default_meta {
            id = urn;
            version = 1;
            project_id = scope.project_id;
            owner_user_id = scope.user_id;
          });
          number = number;
        })
        × (db' ≡ record {
          tasks = db.tasks ++ inserted_row urn scope number task ∷ [];
          counters = counters;
          writes =
              logged e w.create_response scope w Idem.create_task none (create_payload w req)
                (present req.idempotency) resp db.writes;
        })

  module _ (urn : Text) (req : CreateTaskRequest) (scope : Scope) (task : Task) (before : Db) where
    Returns-create_claimed :
        (s : Session) {a : CreateTaskResponse} {t : Session}
        → Opened e w.create_response scope w Idem.create_task none
            (create_payload w req)
            (present req.idempotency)
            before
            s.working
        → Returns (create_claimed e w urn req scope task) s a t
        → FreshCreate urn req scope task before a t.committed
    unfolding create_claimed
    Returns-create_claimed s {a} {t} opened h =
        let finish : ℕ → Rpc CreateTaskResponse = λ number.
          record_outcome e w.create_response scope req.idempotency (created e w urn scope number)
          >> (commit >> pure (created e w urn scope number)) in
        let inserting : ℕ → Rpc (Unit {0}) =
          λ number. map_err (execute (insert_task e (new_row urn scope number task))) in
        let (number, s1, counted, rest) =
          Returns-bind (allocate_number e w scope.project_id)
            (λ number. inserting number >> finish number) s h in
        let (cs, number_is, moved, s1_is) =
          Returns-allocate_number e scope.project_id w s counted in
        let (u, s2, put, last) = Returns-bind (inserting number) (λ u. finish number) s1 rest in
        let (ran, kept) = Returns-execute (insert_task e (new_row urn scope number task)) s1 put in
        let (fits, fresh, s2_is) =
          insert_task-eq-done (new_row urn scope number task) s1.working ran in
        let others =
          Opened-others e w.create_response scope w Idem.create_task none (create_payload w req)
            (present req.idempotency) before s.working opened in
        let at_s2 =
          s2_is
          ∙ ap (λ (x : Db). record x { tasks = x.tasks ++ new_row urn scope number task ∷ [] })
              s1_is in
        let (same, free, made) =
          Returns-finish e w.create_response scope w Idem.create_task none (create_payload w req)
            req.idempotency (created e w urn scope number) before s.working s2 opened
            (ap (λ x. x.writes) at_s2) last in
        let log =
          logged e w.create_response scope w Idem.create_task none (create_payload w req)
            (present req.idempotency) (created e w urn scope number) before.writes in
        (
          free,
          number,
          cs,
          number_is,
          rw (ap (λ x. x.counters) others) at moved,
          fits,
          rw (ap (λ x. x.tasks) s1_is ∙ ap (λ x. x.tasks) others) at fresh,
          sym same,
          rw (← same) (
              made
              ∙ ap (λ (x : Db). record x { writes = log }) at_s2
              ∙ ap
                  (λ (x : Db). record x {
                    tasks = x.tasks ++ new_row urn scope number task ∷ [];
                    counters = cs;
                    writes = log;
                  })
                  others),
        )

    Returns-create_or_replay :
        (c : Claimed CreateTaskResponse) (s : Session) {a : CreateTaskResponse} {t : Session}
        → Claims e w.create_response scope w Idem.create_task none
            (create_payload w req)
            (present req.idempotency)
            c
            before
            s.working
        → s.committed ≡ before
        → Returns (create_or_replay e w urn req scope task c) s a t
        → ReplayedCreate urn req scope task before a t.committed
          ⊎ FreshCreate urn req scope task before a t.committed
    Returns-create_or_replay proceed s claimed kept h = inr (Returns-create_claimed s claimed h)
    Returns-create_or_replay (replay x) s {a} {t} claimed kept h =
        let (x_is, back) = Returns-answer_replay x s h in inl (rw (← x_is) claimed, back ∙ kept)

  -- What is so after an answer: the request's parts, and a replay or a fresh write.
  abbrev pub Creates : Text → CreateTaskRequest → Db → CreateTaskResponse → Db → Type 0
  Creates uuid req db resp db' =
      (scope : Scope) × (task : Task) × (scope_of req.scope ≡ ok scope)
      × (req.task ≡ some task)
      × (assigned_by_the_module task.meta ≡ ok tt)
      × (ReplayedCreate (codes "yadgar:task:" ++ uuid) req scope task db resp db'
          ⊎ FreshCreate (codes "yadgar:task:" ++ uuid) req scope task db resp db')

  -- A CreateTask that answers well, whatever the pool and the engine did: its request has a scope and
  -- a task without any field of `Meta`, and either the ledger holds its key and the request it was
  -- taken with, nothing is changed and the answer is the recorded one; or the key is free (or
  -- absent), the project's counter has moved by one and no other has, the number is below 2^32, the
  -- title fits, no row has the new id or the number in the project, the one new row, the caller's, of the
  -- private rung, at version 1 and with what was sent, is behind the others, the answer has its id,
  -- version, project, owner and number, and it is recorded under the key.
  pub create-outcome :
      (uuid : Text) (req : CreateTaskRequest) (weather : Weather) (db : Db)
      {resp : CreateTaskResponse}
      → (call (create e w uuid req) weather db).0 ≡ ok resp
      → Creates uuid req db resp (call (create e w uuid req) weather db).1
  unfolding create
  create-outcome uuid req weather db {resp} h =
      let s0 = started weather db in
      let urn = codes "yadgar:task:" ++ uuid in
      let (t, ran, after) = Returns-call (create e w uuid req) weather db h in
      let transact : Scope → Task → Rpc CreateTaskResponse = λ scope task.
        acquire
        >> (begin
            >> (claim e w.create_response scope w Idem.create_task req.idempotency none
                  (create_payload w req)
                >>= create_or_replay e w urn req scope task)) in
      let with_task : Scope → Task → Rpc CreateTaskResponse =
        λ scope task. lift (assigned_by_the_module task.meta) >> transact scope task in
      let with_scope : Scope → Rpc CreateTaskResponse =
        λ scope. lift (ok_or req.task (refuse task_is_required)) >>= with_task scope in
      let (scope, scope_is, ran1) = Returns-lifted (scope_of req.scope) with_scope s0 ran in
      let (task, task_is, ran2) =
        Returns-lifted (ok_or req.task (refuse task_is_required)) (with_task scope) s0 ran1 in
      let (u, meta_is, ran3) =
        Returns-lifted (assigned_by_the_module task.meta) (λ u. transact scope task) s0 ran2 in
      let (c, s1, ended, claimed, kept) =
        Returns-claimed e w.create_response scope w Idem.create_task none (create_payload w req)
          req.idempotency (create_or_replay e w urn req scope task) s0 ran3 in
      (
        scope,
        task,
        scope_is,
        ok_or-eq-ok req.task (refuse task_is_required) task_is,
        meta_is,
        rw after (Returns-create_or_replay urn req scope task db c s1 claimed kept ended),
      )
