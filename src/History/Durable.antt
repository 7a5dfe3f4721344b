-- ===== src/History/Durable.antt =====
-- The ledger of src/idem.rs through sequences of RPCs: what stands under a key stays, since a
-- transaction only records under a key that it has inserted itself.
use task_db.Prelude.{
  ℕ, Text, Bool, false, Bool-cases, Option, none, some, List, [], ◌∷◌, ◌++◌, exists, find, ◌≡◌, ◌∙◌,
  ap, inl, inr, arith,
}
use task_db.Proto.{Scope}
use task_db.Engine.{Engine, WriteRow, Db}
use task_db.Wire.{Codec, Wire}
use task_db.Txn.{Weather, done}
use task_db.Tables.{is_claim, find_claim, insert_claim, set_response}
use task_db.Idem.Taking.{claim_row, Replays}
use task_db.Write.Create.{new_row}
use task_db.Write.Created.{insert_task-eq-done}
use task_db.Service.{Request}
use task_db.History.{Statements, run}
use task_db.History.Runs.{run-Keeps}
use task_db.History.Keys.{claim_inserted}
use task_db.History.Distinct.{||-eq-false}

some_injective : {A : Type 0} {a b : A} → some a ≡ some b → a ≡ b
some_injective h = cc

module _ {A : Type 0} (p : A → Bool) where
  find-append : (xs ys : List A) {x : A} → find p xs ≡ some x → find p (xs ++ ys) ≡ some x
  find-append [] ys h = cc
  find-append (y ∷ xs) ys {x} h = elim (Bool-cases (p y)) [
    | inl hit ↦ rw hit (rw hit at h)
    | inr miss ↦ rw miss (find-append xs ys {x = x} (rw miss at h))
  ]

  -- What was found is none of what the table does not have.
  find-exists :
      (q : A → Bool) (xs : List A) {x : A} → find p xs ≡ some x → exists q xs ≡ false → q x ≡ false
  find-exists q [] h k = cc
  find-exists q (y ∷ xs) {x} h k =
      let (here, more) = ||-eq-false (q y) (exists q xs) k in
      elim (Bool-cases (p y)) [
        | inl hit ↦ ground (arith, here, hit, h)
        | inr miss ↦ find-exists q xs {x = x} (rw miss at h) more
      ]

module _ (e : Engine) (w : Wire) (scope : Scope) (key : Text) (row : WriteRow) where
  abbrev Stands : Db → Type 0
  Stands db = find_claim e scope key db ≡ some row

  abbrev Apart : Scope → Text → Type 0
  Apart other k = is_claim e other k row ≡ false

  set_response_elsewhere :
      (other : Scope) (k : Text) (bytes : List ℕ) (vs : List WriteRow)
      → Apart other k
      → find (is_claim e scope key) vs ≡ some row
      → find (is_claim e scope key) (set_response e other k bytes vs) ≡ some row
  set_response_elsewhere other k bytes [] apart h = cc
  set_response_elsewhere other k bytes (v ∷ vs) apart h =
      elim (Bool-cases (is_claim e scope key v)) [
        | inl hit ↦
            let same = some_injective (rw hit at h) in
            rw (ap (is_claim e other k) same ∙ apart) (rw hit (ap some same))
        | inr miss ↦
            let rest = set_response_elsewhere other k bytes vs apart (rw miss at h) in
            elim (Bool-cases (is_claim e other k v)) [
              | inl here ↦ rw here (rw miss rest)
              | inr elsewhere ↦ rw elsewhere (rw miss rest)
            ]
      ]

  claims-Stands :
      (other : Scope) (rpc k : Text) (digest : List ℕ) (caller : Option (List ℕ)) (db : Db)
      (u : Unit {0}) (after : Db)
      → Stands db
      → insert_claim e other k (claim_row other rpc k digest caller) db ≡ done (u, after)
      → Stands after × Apart other k
  claims-Stands other rpc k digest caller db u after h ran =
      let taken = claim_row other rpc k digest caller in
      let (free, after_is) = claim_inserted e other k taken db ran in
      (
        rw after_is (find-append (is_claim e scope key) db.writes (taken ∷ []) h),
        find-exists (is_claim e scope key) (is_claim e other k) db.writes h free,
      )

  Stands-Statements : Statements e w Stands Apart
  Stands-Statements = record {
    claims = claims-Stands;
    records = λ other k bytes db apart h. set_response_elsewhere other k bytes db.writes apart h;
    counts = λ project db counters h moved. h;
    inserts = λ urn other task number db u after h numbered ran.
        rw (insert_task-eq-done e w (new_row urn other number task) db ran).2 h;
    updates = λ other task fields task_id version db h fit. h;
    deletes = λ other now task_id version db h fit. h;
  }

  -- What the ledger holds under a key, its response included, stays through any sequence of RPCs,
  -- whatever the pool and the engine answer each of them.
  pub find_claim-run :
      (calls : List (Request × Weather)) (db : Db)
      → find_claim e scope key db ≡ some row
      → find_claim e scope key (run e w calls db) ≡ some row
  find_claim-run = run-Keeps e w Stands Apart Stands-Statements

module _ (e : Engine) {T : Type 0} (codec : Codec T) (scope : Scope) (w : Wire) (rpc : Text)
    (caller : Option (List ℕ)) (payload : List ℕ) where
  -- A replay stays one.
  pub Replays-run :
      (key : Option Text) (calls : List (Request × Weather)) (db : Db) (t : T)
      → Replays e codec scope w rpc caller payload key db t
      → Replays e codec scope w rpc caller payload key (run e w calls db) t
  Replays-run none calls db t h = absurd h
  Replays-run (some key) calls db t (row, found, decided) =
      (row, find_claim-run e w scope key row calls db found, decided)
