-- ===== src/History/Asked.antt =====
-- LookupWrite (src/idem/lookup.rs) after a CreateTask that was answered. A create sends no caller
-- fingerprint, so a lookup of it is compared with none.
use task_db.Prelude.{
  ℕ, text_eq_refl, inl, inr, pos, Text, Option, none, some, List, [], ◌≡◌, refl, ◌∙◌, sym, ap, true,
}
use mathlib.Core.Path.{subst}
use task_db.Status.{ok}
use task_db.Proto.{
  Scope, CreateTaskRequest, CreateTaskResponse, create_task, LookupWriteRequest, Outcome,
}
use task_db.Engine.{Engine, WriteRow, Db}
use task_db.Wire.{Codec, Wire}
use task_db.Sql.{scope_of}
use task_db.Txn.{Weather, call, acquired}
use task_db.Tables.{find_claim}
use task_db.Idem
use task_db.Idem.{decide, present, caller_fingerprint}
use task_db.Idem.Taking.{Replays}
use task_db.Lookup.{lookup, presented}
use task_db.Write.Create.{create}
use task_db.Write.Payload.{create_payload}
use task_db.Write.Ending.{logged, is_free}
use task_db.Write.Created.{create-outcome, Creates}
use task_db.Write.Retry.{recorded_row, find_claim-logged}
use task_db.Service.{Request}
use task_db.History.{run}
use task_db.History.Durable.{find_claim-run}
use task_db.History.Lookups.{lookup-answer}

-- The lookup of a create in its own scope, under its key, from any caller fingerprint.
abbrev pub asking_create : CreateTaskRequest → List ℕ → LookupWriteRequest
asking_create req sent = record {
  scope = req.scope;
  idempotency = req.idempotency;
  rpc = pos 1;
  caller_fingerprint = sent;
}

ok_injective : {A : Type 0} {a b : A} → ok a ≡ ok b → a ≡ b
ok_injective h = cc

module _ (e : Engine) (w : Wire) where
  -- A row without a caller fingerprint answers any lookup of its RPC.
  decide-uncompared :
      {T : Type 0} (codec : Codec T) (scope : Scope) (rpc key : Text) (payload caller : List ℕ)
      (t : T)
      → decide codec (recorded_row e codec scope w rpc none payload key t) (presented caller rpc)
        ≡ ok t
  unfolding decide
  decide-uncompared codec scope rpc key payload caller t =
      rw (text_eq_refl rpc) (rw (codec.decode-encode t) refl)

  not_replayed :
      {T : Type 0} (codec : Codec T) (scope : Scope) (rpc : Text) (payload : List ℕ) (key : Text)
      (named : Option Text) (db : Db) (t : T)
      → named ≡ some key
      → find_claim e scope key db ≡ none
      → ¬ Replays e codec scope w rpc none payload named db t
  not_replayed codec scope rpc payload key none db t keyed free found = found
  not_replayed codec scope rpc payload key (some k) db t keyed free (row, hit, decided) = cc

  logged_under :
      {T : Type 0} (codec : Codec T) (scope : Scope) (rpc : Text) (payload : List ℕ) (key : Text)
      (named : Option Text) (t : T) (ws : List WriteRow) (db : Db)
      → named ≡ some key
      → is_free e codec scope w rpc none payload named ws ≡ true
      → db.writes ≡ logged e codec scope w rpc none payload named t ws
      → find_claim e scope key db ≡ some (recorded_row e codec scope w rpc none payload key t)
  logged_under codec scope rpc payload key named t ws db keyed free at_db =
      find_claim-logged e codec scope w rpc none payload key t ws db (rw keyed at free)
        (rw keyed at at_db)

  -- The row that a create leaves in the ledger, where its key was free.
  created_row :
      (uuid : Text) (req : CreateTaskRequest) (db : Db) (resp : CreateTaskResponse) (db' : Db)
      (scope : Scope) (key : Text)
      → present req.idempotency ≡ some key
      → scope_of req.scope ≡ ok scope
      → find_claim e scope key db ≡ none
      → Creates e w uuid req db resp db'
      → find_claim e scope key db'
        ≡ some (
            recorded_row e w.create_response scope w Idem.create_task none
              (create_payload w req)
              key
              resp)
  created_row uuid req db resp db' scope key keyed scoped free
        (scope', task, scoped', tasked, metad, inl (found, same)) =
      absurd (
        not_replayed w.create_response scope Idem.create_task (create_payload w req) key
          (present req.idempotency) db resp keyed free
          (subst
            (λ x.
              Replays e w.create_response x w Idem.create_task none (create_payload w req)
                (present req.idempotency) db resp)
            (ok_injective (sym scoped' ∙ scoped)) found))
  created_row uuid req db resp db' scope key keyed scoped free
        (
          scope',
          task,
          scoped',
          tasked,
          metad,
          inr (open_, number, counters, number_is, moved, fits, fresh, resp_is, made),
        ) =
      rw (← ok_injective (sym scoped' ∙ scoped)) (
        logged_under w.create_response scope' Idem.create_task (create_payload w req) key
          (present req.idempotency) resp db.writes db' keyed open_ (ap (λ x. x.writes) made))

  -- After a CreateTask that has a key, which the ledger did not hold, and was answered well, and
  -- after any RPCs whatever the pool and the engine answered them, LookupWrite in the same scope,
  -- with the same key and any caller fingerprint, answers what the create was answered and changes
  -- nothing, where the pool gives a connection and every statement is answered.
  pub lookup-create :
      (calls : List (Request × Weather)) (weather weather' : Weather) (db : Db) (uuid : Text)
      (req : CreateTaskRequest) (sent caller : List ℕ) {resp : CreateTaskResponse} {scope : Scope}
      {key : Text}
      → weather'.script ≡ []
      → acquired weather'.pool ≡ ok tt
      → (call (create e w uuid req) weather db).0 ≡ ok resp
      → present req.idempotency ≡ some key
      → scope_of req.scope ≡ ok scope
      → find_claim e scope key db ≡ none
      → caller_fingerprint sent ≡ ok (some caller)
      → let later = run e w calls (call (create e w uuid req) weather db).1 in
        call (lookup w e (asking_create req sent)) weather' later
        ≡ (ok (record { outcome = some (Outcome.create resp) }), later)
  lookup-create calls weather weather' db uuid req sent caller {resp} {scope} {key} quiet got h
        keyed scoped free called =
      let db' = (call (create e w uuid req) weather db).1 in
      let later = run e w calls db' in
      let row =
        recorded_row e w.create_response scope w Idem.create_task none (create_payload w req) key
          resp in
      let at_key = find_claim-run e w scope key row calls db' (
        created_row uuid req db resp db' scope key keyed scoped free
          (create-outcome e w uuid req weather db h)) in
      lookup-answer e w (asking_create req sent) weather' later scope key create_task caller quiet
        got scoped keyed refl called
      ∙ rw at_key (
          rw
            (decide-uncompared w.create_response scope Idem.create_task key (create_payload w req)
              caller resp)
            refl)
