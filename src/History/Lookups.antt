-- ===== src/History/Lookups.antt =====
-- LookupWrite (src/idem/lookup.rs) after a write that was answered: it is told what the write was.
use task_db.Prelude.{
  ℕ, text_eq, Option-cases, inl, inr, pos, is_empty, Text, Bool, true, false, Option, none, some,
  List, [], if◌then◌else◌, ◌≡◌, refl, ◌∙◌, ap, arith,
}
use mathlib.Core.Path.{subst}
use task_db.Status.{Status, Result, ok, err}
use task_db.Proto.{
  Scope, UpdateTaskRequest, UpdateTaskResponse, DeleteTaskRequest, DeleteTaskResponse, WriteRpc,
  update_task, delete_task, write_rpc_of, LookupWriteRequest, Outcome,
}
use task_db.Engine.{Engine, WriteRow, Db}
use task_db.Wire.{Codec, Wire}
use task_db.Sql.{scope_of}
use task_db.Txn.{Weather, call, acquired, acquire, autocommit}
use task_db.Tables.{find_claim}
use task_db.Idem
use task_db.Idem.{decide, decoded, differs, refused, present, fingerprint, caller_fingerprint}
use task_db.Idem.Taking.{presenting, Replays}
use task_db.Lookup.{lookup, presented, recorded_rpc, answer}
use task_db.Write.Delete.{delete}
use task_db.Write.Update.{update}
use task_db.Write.Payload.{update_payload, delete_payload}
use task_db.Write.Updated.{update-outcome}
use task_db.Write.Deleted.{delete-outcome}
use task_db.Write.Retry.Update.{answered-update}
use task_db.Write.Retry.Delete.{answered-delete}
use task_db.Service.{Request}
use task_db.History.{run}
use task_db.History.Durable.{Replays-run}

differs-none : (o : Option (List ℕ)) → differs o none ≡ false
differs-none none = refl
differs-none (some a) = refl

-- A decision that is no refusal, under a weaker test.
weaker :
    {T : Type 0} (same differ differ' : Bool) (d : Result T) (x y : Status) {t : T}
    → (differ ≡ false → differ' ≡ false)
    → (if same then (if differ then err x else d) else err y) ≡ ok t
    → (if same then (if differ' then err x else d) else err y) ≡ ok t
weaker false differ differ' d x y k h = h
weaker true true differ' d x y k h = cc
weaker true false differ' d x y k h = rw (k refl) h

module _ {T : Type 0} (codec : Codec T) (row : WriteRow) (rpc : Text) (digest caller : List ℕ) where
  -- A lookup is not refused where the write's retry is not.
  refused-presented :
      refused row (presenting rpc digest (some caller)) ≡ false
      → refused row (presented caller rpc) ≡ false
  refused-presented h = elim (Option-cases row.caller_fingerprint) [
    | inl absent ↦ rw absent (differs-none row.request_fingerprint)
    | inr (c, there) ↦ rw there (rw there at h)
  ]

  -- What a retry of the write is answered, a lookup with the same caller fingerprint is answered.
  pub decide-presented :
      {t : T}
      → decide codec row (presenting rpc digest (some caller)) ≡ ok t
      → decide codec row (presented caller rpc) ≡ ok t
  unfolding decide
  decide-presented h =
      weaker (text_eq row.rpc rpc) (refused row (presenting rpc digest (some caller)))
        (refused row (presented caller rpc)) (decoded (codec.decode row.response)) _ _
        refused-presented h

-- The lookup of an update, or of a delete, that goes with the write's own scope, key and caller
-- fingerprint.
abbrev pub asking_update : UpdateTaskRequest → LookupWriteRequest
asking_update req = record {
  scope = req.scope;
  idempotency = req.idempotency;
  rpc = pos 2;
  caller_fingerprint = req.caller_fingerprint;
}

abbrev pub asking_delete : DeleteTaskRequest → LookupWriteRequest
asking_delete req = record {
  scope = req.scope;
  idempotency = req.idempotency;
  rpc = pos 3;
  caller_fingerprint = req.caller_fingerprint;
}

-- A fingerprint that was sent is the caller's.
caller_sent :
    (bytes : List ℕ) {caller : Option (List ℕ)}
    → is_empty bytes ≡ false
    → caller_fingerprint bytes ≡ ok caller
    → caller ≡ some bytes
unfolding caller_fingerprint
caller_sent bytes sent h = ground (arith, sent, h)

module _ (e : Engine) (w : Wire) where
  pub lookup-answer :
      (asked : LookupWriteRequest) (weather : Weather) (db : Db) (scope : Scope) (key : Text)
      (rpc : WriteRpc) (caller : List ℕ)
      → weather.script ≡ []
      → acquired weather.pool ≡ ok tt
      → scope_of asked.scope ≡ ok scope
      → present asked.idempotency ≡ some key
      → recorded_rpc asked.rpc (write_rpc_of asked.rpc) ≡ ok rpc
      → caller_fingerprint asked.caller_fingerprint ≡ ok (some caller)
      → call (lookup w e asked) weather db ≡ (answer w rpc caller (find_claim e scope key db), db)
  unfolding lookup call acquire autocommit
  lookup-answer asked weather db scope key rpc caller quiet got scoped keyed recorded called =
      rw scoped (rw keyed (rw recorded (rw called (rw got (rw quiet refl)))))

  -- What the ledger replays to the write it answers to the lookup.
  replayed_to_lookup :
      {T : Type 0} (codec : Codec T) (scope : Scope) (rpc : Text) (caller payload : List ℕ)
      (key : Text) (sent : Option (List ℕ)) (named : Option Text) (db : Db) (t : T)
      → sent ≡ some caller
      → named ≡ some key
      → Replays e codec scope w rpc sent payload named db t
      → (row : WriteRow) × (find_claim e scope key db ≡ some row)
        × (decide codec row (presented caller rpc) ≡ ok t)
  replayed_to_lookup codec scope rpc caller payload key sent named db t called keyed found =
      let (row, at_key, decided) =
        subst (λ n. Replays e codec scope w rpc (some caller) payload n db t) keyed
          (subst (λ c. Replays e codec scope w rpc c payload named db t) called found) in
      (row, at_key, decide-presented codec row rpc (fingerprint w payload) caller decided)

  module _ (calls : List (Request × Weather)) (weather weather' : Weather) (db : Db) {key : Text}
      (quiet : weather'.script ≡ []) (got : acquired weather'.pool ≡ ok tt) where
    -- After an UpdateTask that has a key and a caller fingerprint and was answered well, and after any
    -- RPCs whatever the pool and the engine answered them, LookupWrite in the same scope, with the
    -- same key and the same caller fingerprint, answers what the update was answered and changes
    -- nothing, where the pool gives a connection and every statement is answered.
    pub lookup-update :
        (req : UpdateTaskRequest) {resp : UpdateTaskResponse}
        → (call (update e w req) weather db).0 ≡ ok resp
        → present req.idempotency ≡ some key
        → is_empty req.caller_fingerprint ≡ false
        → let later = run e w calls (call (update e w req) weather db).1 in
          call (lookup w e (asking_update req)) weather' later
          ≡ (ok (record { outcome = some (Outcome.update resp) }), later)
    lookup-update req {resp} h keyed sent =
        let db' = (call (update e w req) weather db).1 in
        let later = run e w calls db' in
        let (scope, task, fields, caller, scoped, tasked, metad, masked, called, found) =
          answered-update e w req db resp db' keyed (update-outcome e w req weather db h) in
        let caller_is = caller_sent req.caller_fingerprint sent called in
        let stays =
          Replays-run e w.update_response scope w Idem.update_task caller (update_payload w req)
            (present req.idempotency) calls db' resp found in
        let (row, at_key, decided) =
          replayed_to_lookup w.update_response scope Idem.update_task req.caller_fingerprint
            (update_payload w req) key caller (present req.idempotency) later resp caller_is keyed
            stays in
        lookup-answer (asking_update req) weather' later scope key update_task
          req.caller_fingerprint quiet got scoped keyed refl (called ∙ ap ok caller_is)
        ∙ rw at_key (rw decided refl)

    -- After a DeleteTask that has a key and a caller fingerprint and was answered well, and after any
    -- RPCs whatever the pool and the engine answered them, LookupWrite in the same scope, with the
    -- same key and the same caller fingerprint, answers what the delete was answered and changes
    -- nothing, where the pool gives a connection and every statement is answered.
    pub lookup-delete :
        (now : ℕ) (req : DeleteTaskRequest) {resp : DeleteTaskResponse}
        → (call (delete e w now req) weather db).0 ≡ ok resp
        → present req.idempotency ≡ some key
        → is_empty req.caller_fingerprint ≡ false
        → let later = run e w calls (call (delete e w now req) weather db).1 in
          call (lookup w e (asking_delete req)) weather' later
          ≡ (ok (record { outcome = some (Outcome.delete resp) }), later)
    lookup-delete now req {resp} h keyed sent =
        let db' = (call (delete e w now req) weather db).1 in
        let later = run e w calls db' in
        let (scope, caller, scoped, called, found) =
          answered-delete e w now req db resp db' keyed (delete-outcome e w now req weather db h) in
        let caller_is = caller_sent req.caller_fingerprint sent called in
        let stays =
          Replays-run e w.delete_response scope w Idem.delete_task caller (delete_payload w req)
            (present req.idempotency) calls db' resp found in
        let (row, at_key, decided) =
          replayed_to_lookup w.delete_response scope Idem.delete_task req.caller_fingerprint
            (delete_payload w req) key caller (present req.idempotency) later resp caller_is keyed
            stays in
        lookup-answer (asking_delete req) weather' later scope key delete_task
          req.caller_fingerprint quiet got scoped keyed refl (called ∙ ap ok caller_is)
        ∙ rw at_key (rw decided refl)
