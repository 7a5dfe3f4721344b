-- ===== src/Idem/Taking.antt =====
-- What a claim that was taken, or replayed, has found in the ledger of src/idem.rs.
use task_db.Prelude.{
  Text, false, Option, none, some, List, [], ◌∷◌, ◌++◌, exists, ◌≡◌, refl, ◌⊎◌, inl, inr,
  Bool-cases, arith, ℕ,
}
use task_db.Status.{Result, ok, err}
use task_db.Proto.{Scope, Idempotency}
use task_db.Engine.{Engine, WriteRow, Db, SqlxError}
use task_db.Wire.{Codec, Wire}
use task_db.Sql.Errors.{internal}
use task_db.Txn.{Session, SqlResult, done, failed, lift, map_err, execute}
use task_db.Txn.Inversion.{
  Returns, Returns-bind, Returns-lift, Returns-pure, Returns-execute, execute-cases,
}
use task_db.Tables.{is_claim, find_claim, insert_claim, update_claim, set_response}
use task_db.Idem.{
  Presented, decide, Claimed, proceed, replay, present, fingerprint, fetch_one, as_replay,
  replay_claim, after_insert, claim_present, claim, record_present, record_outcome, is_duplicate,
}

-- The row that a claim inserts.
abbrev pub claim_row : Scope → Text → Text → List ℕ → Option (List ℕ) → WriteRow
claim_row scope rpc key digest caller = record {
  project_id = scope.project_id;
  user_id = scope.user_id;
  idem_key = key;
  rpc = rpc;
  response = [];
  request_fingerprint = some digest;
  caller_fingerprint = caller;
}

abbrev pub presenting : Text → List ℕ → Option (List ℕ) → Presented
presenting rpc digest caller = record { rpc = rpc; request = some digest; caller = caller }

abbrev pub with_claim : WriteRow → Db → Db
with_claim row db = record db { writes = db.writes ++ row ∷ [] }

module _ (e : Engine) {T : Type 0} (codec : Codec T) (scope : Scope) (w : Wire) (rpc : Text)
    (caller : Option (List ℕ)) (payload : List ℕ) where
  -- What the tables of the transaction hold after a claim that goes on.
  abbrev pub Opened : Option Text → Db → Db → Type 0
  Opened none before after = after ≡ before
  Opened (some key) before after =
      (exists (is_claim e scope key) before.writes ≡ false)
      × (after ≡ with_claim (claim_row scope rpc key (fingerprint w payload) caller) before)

  -- What the ledger holds where a claim is replayed.
  abbrev pub Replays : Option Text → Db → T → Type 0
  Replays none db t = ⊥
  Replays (some key) db t =
      (row : WriteRow) × (find_claim e scope key db ≡ some row)
      × (decide codec row (presenting rpc (fingerprint w payload) caller) ≡ ok t)

  abbrev pub Claims : Option Text → Claimed T → Db → Db → Type 0
  Claims key proceed before after = Opened key before after
  Claims key (replay t) before after = Replays key before t

  as_replay-eq-ok :
      (r : Result T) {c : Claimed T} → as_replay r ≡ ok c → (t : T) × (r ≡ ok t) × (c ≡ replay t)
  as_replay-eq-ok (ok t) h = (t, refl, ground arith)
  as_replay-eq-ok (err x) h = cc

  fetch_one-eq-done :
      (o : Option WriteRow) (db : Db) {row : WriteRow} {db' : Db}
      → fetch_one o db ≡ done (row, db')
      → (o ≡ some row)
  fetch_one-eq-done none db h = cc
  fetch_one-eq-done (some r) db h = ground arith

  abbrev fetching : Text → Db → SqlResult (WriteRow × Db)
  fetching key db = fetch_one (find_claim e scope key db) db

  abbrev deciding : WriteRow → Result (Claimed T)
  deciding row = as_replay (decide codec row (presenting rpc (fingerprint w payload) caller))

  -- A replay reads the row of the key, and answers with what `decide` makes of it.
  replayed :
      (key : Text) (s : Session) {c : Claimed T} {t : Session}
      → Returns
          (replay_claim e codec scope key (presenting rpc (fingerprint w payload) caller))
          s
          c
          t
      → (x : T) × (c ≡ replay x) × Replays (some key) s.working x
  unfolding replay_claim
  replayed key s {c} {t} h =
      let (row, s', fetched, rest) =
        Returns-bind (map_err (execute (fetching key))) (λ row. lift (deciding row)) s h in
      let (decided, same) = Returns-lift (deciding row) s' rest in
      let (x, answered, c_is) =
        as_replay-eq-ok (decide codec row (presenting rpc (fingerprint w payload) caller))
          decided in
      let (ran, kept) = Returns-execute (fetching key) s fetched in
      (x, c_is, (row, fetch_one-eq-done (find_claim e scope key s.working) s.working ran, answered))

  abbrev row_of : Text → WriteRow
  row_of key = claim_row scope rpc key (fingerprint w payload) caller

  insert_claim-eq-done :
      (key : Text) (before : Db) {u : Unit {0}} {after : Db}
      → insert_claim e scope key (row_of key) before ≡ done (u, after)
      → Opened (some key) before after
  unfolding insert_claim
  insert_claim-eq-done key before h = ground arith

  inserted :
      (key : Text) (before : Db) (s : Session) (r : SqlResult (Unit {0})) {c : Claimed T}
      {t : Session}
      → ((u : Unit {0}) × (r ≡ done u)
          × (insert_claim e scope key (row_of key) before ≡ done (u, s.working)))
        ⊎ ((x : SqlxError) × (r ≡ failed x) × (s.working ≡ before))
      → Returns
          (after_insert e codec scope key (presenting rpc (fingerprint w payload) caller) r)
          s
          c
          t
      → Claims (some key) c before t.working
  inserted key before s (done u) {c} {t} (inl (v, r_is, ran)) h =
      let (c_is, t_is) = Returns-pure {A = Claimed T} proceed s {a = c} {t = t} h in
      rw (← c_is) (rw t_is (insert_claim-eq-done key before ran))
  inserted key before s (done u) (inr (x, r_is, same)) h = cc
  inserted key before s (failed y) (inl (u, r_is, ran)) h = cc
  inserted key before s (failed y) {c} {t} (inr (x, r_is, same)) h =
      elim (Bool-cases (is_duplicate y)) [
        | inl twice ↦
            let (x, c_is, found) = replayed key s {c = c} {t = t} (rw twice at h) in
            rw c_is (rw (← same) found)
        | inr once ↦
            let (nothing, t_is) =
              Returns-lift {A = Claimed T} (err (internal y)) s (rw once at h) in
            cc
      ]

  claimed_present :
      (key : Option Text) (s : Session) {c : Claimed T} {t : Session}
      → Returns (claim_present e codec scope w rpc caller payload key) s c t
      → Claims key c s.working t.working
  claimed_present none s {c} {t} h =
      let (c_is, t_is) = Returns-pure {A = Claimed T} proceed s {a = c} {t = t} h in
      rw (← c_is) (rw t_is refl)
  claimed_present (some key) s {c} {t} h =
      inserted key s.working (execute (insert_claim e scope key (row_of key)) s).1
        (execute (insert_claim e scope key (row_of key)) s).0 {c = c} {t = t}
        (execute-cases (insert_claim e scope key (row_of key)) s) h

  pub Returns-claim :
      (idem : Option Idempotency) (s : Session) {c : Claimed T} {t : Session}
      → Returns (claim e codec scope w rpc idem caller payload) s c t
      → Claims (present idem) c s.working t.working
  unfolding claim
  Returns-claim idem s {c} {t} h = claimed_present (present idem) s {c = c} {t = t} h

  -- What the ledger holds after the outcome is recorded.
  abbrev pub Recorded : Option Text → T → Db → Db → Type 0
  Recorded none response before after = after ≡ before
  Recorded (some key) response before after =
      after
      ≡ record before { writes = set_response e scope key (codec.encode response) before.writes }

  record_present-Recorded :
      (key : Option Text) (response : T) (s : Session) {u : Unit {0}} {t : Session}
      → Returns (record_present e codec scope response key) s u t
      → Recorded key response s.working t.working
  unfolding update_claim
  record_present-Recorded none response s {u} {t} h = ground arith
  record_present-Recorded (some key) response s {u} {t} h =
      let (ran, kept) =
        Returns-execute (update_claim e scope key (codec.encode response)) s {a = u} {t = t} h in
      ground arith

  pub Returns-record_outcome :
      (idem : Option Idempotency) (response : T) (s : Session) {u : Unit {0}} {t : Session}
      → Returns (record_outcome e codec scope idem response) s u t
      → Recorded (present idem) response s.working t.working
  unfolding record_outcome
  Returns-record_outcome idem response s {u} {t} h =
      record_present-Recorded (present idem) response s {u = u} {t = t} h
