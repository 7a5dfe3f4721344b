-- ===== src/Write/Deleted.antt =====
-- What DeleteTask of src/write.rs has done when it answers.
use task_db.Prelude.{ℕ, ◌+◌, some, true, Option, List, [], ◌∷◌, exists, ◌≡◌, ◌∙◌, ◌⊎◌, inl, inr}
use task_db.Status.{ok}
use task_db.Proto.{Scope, DeleteTaskRequest, DeleteTaskResponse}
use task_db.Engine.{Engine, Db, text, unsigned}
use task_db.Wire.{Wire}
use task_db.Sql.{scope_of, reach_of, within, bind_within}
use task_db.Sql.Where.{both, eq, owner_user_id}
use task_db.Txn.{Session, Rpc, Weather, call, acquire, begin, lift, ◌>>=◌, ◌>>◌}
use task_db.Txn.Inversion.{Returns, Returns-lifted, Returns-call, started}
use task_db.Idem
use task_db.Idem.{Claimed, proceed, replay, claim, present, caller_fingerprint}
use task_db.Idem.Taking.{Opened, Claims, Replays}
use task_db.Write.{at_version, delete_refusal}
use task_db.Write.Delete.{delete, delete_claimed, delete_or_replay, deleted_row}
use task_db.Write.Payload.{delete_payload}
use task_db.Write.Selection.{deletable, set_where, selects-delete}
use task_db.Write.Ending.{Returns-claimed, Returns-answer_replay, Returns-change, logged, is_free}

module _ (e : Engine) (w : Wire) where
  -- A delete that answers: a replay of the ledger, which changes nothing, or the stamping of the
  -- caller's own current row, whose outcome is recorded.
  module _ (now : ℕ) (req : DeleteTaskRequest) (scope : Scope) (caller : Option (List ℕ)) (db : Db)
      (resp : DeleteTaskResponse) (db' : Db) where
    abbrev pub ReplayedDelete : Type 0
    ReplayedDelete =
        Replays e w.delete_response scope w Idem.delete_task caller (delete_payload w req)
          (present req.idempotency) db resp
        × (db' ≡ db)

    abbrev pub FreshDelete : Type 0
    FreshDelete =
        (is_free e w.delete_response scope w Idem.delete_task caller (delete_payload w req)
            (present req.idempotency) db.writes
          ≡ true)
        × (exists (deletable e scope req.id req.expect_version) db.tasks ≡ true)
        × (db' ≡ record db {
          tasks =
              set_where (deletable e scope req.id req.expect_version)
                (λ r. record r { deleted_at = some now; version = r.version + 1 }) db.tasks;
          writes =
              logged e w.delete_response scope w Idem.delete_task caller (delete_payload w req)
                (present req.idempotency) resp db.writes;
        })

  module _ (now : ℕ) (req : DeleteTaskRequest) (scope : Scope) (caller : Option (List ℕ))
      (before : Db) where
    Returns-delete_claimed :
        (s : Session) {a : DeleteTaskResponse} {t : Session}
        → Opened e w.delete_response scope w Idem.delete_task caller
            (delete_payload w req)
            (present req.idempotency)
            before
            s.working
        → Returns (delete_claimed e w now req scope) s a t
        → FreshDelete now req scope caller before a t.committed
    unfolding delete_claimed
    Returns-delete_claimed s {a} {t} opened h =
        let (same, free, found, made) =
          Returns-change e w.delete_response scope w Idem.delete_task caller (delete_payload w req)
            (at_version e w (both (eq owner_user_id) (within (reach_of scope))))
            (bind_within (reach_of scope)
              (text req.id ∷ unsigned req.expect_version ∷ text scope.user_id ∷ []))
            (deletable e scope req.id req.expect_version)
            (λ r. selects-delete e w r scope req.id req.expect_version) (deleted_row e w now)
            delete_refusal req.idempotency (record {}) before s opened h in
        (free, found, made)

    Returns-delete_or_replay :
        (c : Claimed DeleteTaskResponse) (s : Session) {a : DeleteTaskResponse} {t : Session}
        → Claims e w.delete_response scope w Idem.delete_task caller
            (delete_payload w req)
            (present req.idempotency)
            c
            before
            s.working
        → s.committed ≡ before
        → Returns (delete_or_replay e w now req scope c) s a t
        → ReplayedDelete now req scope caller before a t.committed
          ⊎ FreshDelete now req scope caller before a t.committed
    Returns-delete_or_replay proceed s claimed kept h = inr (Returns-delete_claimed s claimed h)
    Returns-delete_or_replay (replay x) s {a} {t} claimed kept h =
        let (x_is, back) = Returns-answer_replay x s h in inl (rw (← x_is) claimed, back ∙ kept)

  -- What is so after an answer: the request's parts, and a replay or a fresh write.
  abbrev pub Deletes : ℕ → DeleteTaskRequest → Db → DeleteTaskResponse → Db → Type 0
  Deletes now req db resp db' =
      (scope : Scope) × (caller : Option (List ℕ)) × (scope_of req.scope ≡ ok scope)
      × (caller_fingerprint req.caller_fingerprint ≡ ok caller)
      × (ReplayedDelete now req scope caller db resp db'
          ⊎ FreshDelete now req scope caller db resp db')

  -- A DeleteTask that answers well, whatever the pool and the engine did: its request has a scope
  -- and a caller fingerprint of 0 or 32 bytes, and either the ledger holds its key and the request
  -- it was taken with, nothing is changed and the answer is the recorded one; or the key is free
  -- (or absent), a row of the id and the expected version is there, not deleted, the caller's own
  -- and in the caller's project or its subtree, exactly such rows get the time of the statement as
  -- `deleted_at` and the next version and keep the rest, and the outcome is recorded under the key.
  pub delete-outcome :
      (now : ℕ) (req : DeleteTaskRequest) (weather : Weather) (db : Db) {resp : DeleteTaskResponse}
      → (call (delete e w now req) weather db).0 ≡ ok resp
      → Deletes now req db resp (call (delete e w now req) weather db).1
  unfolding delete
  delete-outcome now req weather db {resp} h =
      let (t, ran, after) = Returns-call (delete e w now req) weather db h in
      let next : Scope → Option (List ℕ) → Rpc DeleteTaskResponse = λ scope caller.
        acquire
        >> (begin
            >> (claim e w.delete_response scope w Idem.delete_task req.idempotency caller
                  (delete_payload w req)
                >>= delete_or_replay e w now req scope)) in
      let s0 = started weather db in
      let (scope, scope_is, ran1) =
        Returns-lifted (scope_of req.scope)
          (λ scope. lift (caller_fingerprint req.caller_fingerprint) >>= next scope) s0 ran in
      let (caller, caller_is, ran2) =
        Returns-lifted (caller_fingerprint req.caller_fingerprint) (next scope) s0 ran1 in
      let (c, s1, ended, claimed, kept) =
        Returns-claimed e w.delete_response scope w Idem.delete_task caller (delete_payload w req)
          req.idempotency (delete_or_replay e w now req scope) s0 ran2 in
      (
        scope,
        caller,
        scope_is,
        caller_is,
        rw after (Returns-delete_or_replay now req scope caller db c s1 claimed kept ended),
      )
