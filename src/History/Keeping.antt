-- ===== src/History/Keeping.antt =====
-- The handlers of src/service.rs keep what their statements keep.
use task_db.Prelude.{ℕ, Text, Option, none, some, List, ◌≡◌, arith}
use task_db.Status.{Status, Result, ok, err}
use task_db.Proto.{Scope, Idempotency}
use task_db.Engine.{Engine, Db}
use task_db.Wire.{Codec, Wire}
use task_db.Txn.{
  Rpc, SqlResult, or_internal, done, failed, map_err, execute, acquire, begin, rollback, commit,
  pure, lift, ◌>>=◌, ◌>>◌,
}
use task_db.Txn.Triple.{
  Triple, Keeps, Any, Ends, Triple-begin, Triple-rollback, Triple-commit, Triple-pure, Triple-raise,
  Triple-execute, Triple-acquire, Triple-bind, Triple-if,
}
use task_db.Txn.Inversion.{done-pair}
use task_db.Sql.Errors.{internal}
use task_db.Tables.{find_claim, insert_claim, update_claim}
use task_db.Idem.{
  Presented, Claimed, proceed, replay, replay_claim, fetch_one, as_replay, decide, after_insert,
  claim_present, claim, record_present, record_outcome, present, is_duplicate, fingerprint,
}
use task_db.Idem.Taking.{claim_row, presenting}
use task_db.Write.{answer_replay, refuse_write}
use task_db.History.{Statements}

module _ (e : Engine) (w : Wire) (P : Db → Type 0) (Own : Scope → Text → Type 0)
    (laws : Statements e w P Own) where
  -- A statement that only reads.
  pub Keeps-reading :
      {A : Type 0} (f : Db → SqlResult (A × Db))
      → ((db : Db) (a : A) (after : Db) → f db ≡ done (a, after) → after ≡ db)
      → Keeps P (map_err (execute f))
  Keeps-reading f same =
      Triple-execute P Any f (λ a. Any) (λ db a after h r ran. (rw (same db a after ran) h, tt))

  module _ {T : Type 0} where
    pub Keeps-answer_replay : (original : T) → Keeps P (answer_replay original)
    Keeps-answer_replay original =
        Triple-bind P Any rollback _ (λ u. Any) (λ a. Any) (Triple-rollback P Any)
          (λ u. Triple-pure P Any original (λ a. Any) (λ db r. tt))

    pub Keeps-refuse_write : (x : Status) → Keeps P (refuse_write {T = T} x)
    Keeps-refuse_write x =
        Triple-bind P Any rollback _ (λ u. Any) (λ a. Any) (Triple-rollback P Any)
          (λ u. Triple-raise P Any x (λ a. Any))

  module _ {T : Type 0} (codec : Codec T) (scope : Scope) where
    fetch_one_same :
        {A : Type 0} (o : Option A) (db : Db) (a : A) (after : Db)
        → fetch_one o db ≡ done (a, after)
        → after ≡ db
    fetch_one_same none db a after h = cc
    fetch_one_same (some b) db a after h = ground arith

    -- A claim that goes on has its key to itself.
    abbrev pub Opens : Option Text → Claimed T → Type 0
    Opens none c = Unit
    Opens (some key) proceed = Own scope key
    Opens (some key) (replay t) = Unit

    Triple-replaying :
        (key : Text) (r : Result T) → Triple P Any (lift (as_replay r)) (λ c db. Opens (some key) c)
    Triple-replaying key (ok t) = Triple-pure P Any (replay t) _ (λ db r. tt)
    Triple-replaying key (err x) = Triple-raise P Any x _

    Triple-replay_claim :
        (key : Text) (p : Presented)
        → Triple P Any (replay_claim e codec scope key p) (λ c db. Opens (some key) c)
    unfolding replay_claim
    Triple-replay_claim key p =
        Triple-bind P Any (map_err (execute (λ db. fetch_one (find_claim e scope key db) db)))
          (λ row. lift (as_replay (decide codec row p))) (λ a. Any) _
          (Keeps-reading _
            (λ db a after h. fetch_one_same (find_claim e scope key db) db a after h))
          (λ row. Triple-replaying key (decide codec row p))

    abbrev Inserted : Text → SqlResult (Unit {0}) → Type 0
    Inserted key (done u) = Own scope key
    Inserted key (failed x) = Unit

    Triple-after_insert :
        (key : Text) (p : Presented) (r : SqlResult (Unit {0}))
        → Inserted key r
        → Triple P Any (after_insert e codec scope key p r) (λ c db. Opens (some key) c)
    Triple-after_insert key p (done u) own = Triple-pure P Any proceed _ (λ db r. own)
    Triple-after_insert key p (failed x) own =
        Triple-if P Any (is_duplicate x) _ _ _ (Triple-replay_claim key p)
          (Triple-raise P Any (internal x) _)

    Inserted-Ends :
        (key : Text) (r : SqlResult (Unit {0})) (db : Db)
        → Ends (λ u db. Own scope key) (or_internal r) db
        → Inserted key r
    Inserted-Ends key (done u) db own = own
    Inserted-Ends key (failed x) db own = tt

    inserting : Text → Text → Option (List ℕ) → List ℕ → Db → SqlResult (Unit {0} × Db)
    inserting rpc key caller digest =
        insert_claim e scope key (claim_row scope rpc key digest caller)

    Triple-inserting :
        (rpc key : Text) (caller : Option (List ℕ)) (digest : List ℕ)
        → Triple P Any (map_err (execute (inserting rpc key caller digest))) (λ u db. Own scope key)
    unfolding inserting
    Triple-inserting rpc key caller digest =
        Triple-execute P Any (inserting rpc key caller digest) _
          (λ db u after h r ran. laws.claims scope rpc key digest caller db u after h ran)

    Triple-claim :
        (rpc : Text) (idem : Option Idempotency) (caller : Option (List ℕ)) (payload : List ℕ)
        → Triple P Any
            (claim e codec scope w rpc idem caller payload)
            (λ c db. Opens (present idem) c)
    unfolding claim inserting
    Triple-claim rpc idem caller payload =
        elim (present idem)
          as (λ k.
            Triple P Any (claim_present e codec scope w rpc caller payload k) (λ c db. Opens k c)) [
              | none ↦ Triple-pure P Any proceed _ (λ db r. tt)
              | some key ↦ record {
                at = λ s c v r.
                    let f = inserting rpc key caller (fingerprint w payload) in
                    let (c', v', known) =
                      (Triple-inserting rpc key caller (fingerprint w payload)).at s c v tt in
                    let own = Inserted-Ends key (execute f s).0 (execute f s).1.working known in
                    (Triple-after_insert key (presenting rpc (fingerprint w payload) caller)
                        (execute f s).0 own).at
                      (execute f s).1 c' v' tt;
              }
            ]

    Keeps-record_outcome :
        (idem : Option Idempotency) (t : T)
        → Opens (present idem) proceed
        → Keeps P (record_outcome e codec scope idem t)
    unfolding record_outcome update_claim
    Keeps-record_outcome idem t own =
        (elim (present idem)
            as (λ k. Opens k proceed → Keeps P (record_present e codec scope t k)) [
              | none ↦ λ o. Triple-pure P Any tt (λ a. Any) (λ db r. tt)
              | some key ↦ λ o.
                  Triple-execute P Any (update_claim e scope key (codec.encode t)) (λ a. Any)
                    (λ db u after h r ran. (
                      rw (← (done-pair ran).1) (laws.records scope key (codec.encode t) db o h),
                      tt,
                    ))
            ])
          own

    -- What every write ends with.
    pub Keeps-finish :
        (idem : Option Idempotency) (t : T)
        → Opens (present idem) proceed
        → Keeps P (record_outcome e codec scope idem t >> (commit >> pure t))
    Keeps-finish idem t own =
        Triple-bind P Any _ _ (λ u. Any) (λ a. Any) (Keeps-record_outcome idem t own)
          λ u.
            Triple-bind P Any commit _ (λ u. Any) (λ a. Any) (Triple-commit P Any)
              λ v. Triple-pure P Any t (λ a. Any) (λ db r. tt)

    given : (X : Type 0) (m : Rpc T) → (X → Keeps P m) → Triple P (λ db. X) m (λ a. Any)
    given X m h = record { at = λ s c v x. (h x).at s c v tt }

    -- A transaction, from its connection to what follows its claim.
    pub Keeps-claimed :
        (rpc : Text) (idem : Option Idempotency) (caller : Option (List ℕ)) (payload : List ℕ)
        (next : Claimed T → Rpc T)
        → ((c : Claimed T) → Opens (present idem) c → Keeps P (next c))
        → Keeps P (acquire >> (begin >> (claim e codec scope w rpc idem caller payload >>= next)))
    Keeps-claimed rpc idem caller payload next h =
        Triple-bind P Any acquire _ (λ u. Any) (λ a. Any) (Triple-acquire P Any)
          λ u.
            Triple-bind P Any begin _ (λ u. Any) (λ a. Any) (Triple-begin P Any)
              λ v.
                Triple-bind P Any _ next (λ c db. Opens (present idem) c) (λ a. Any)
                  (Triple-claim rpc idem caller payload)
                  (λ c. given (Opens (present idem) c) (next c) (h c))
