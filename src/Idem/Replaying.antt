-- ===== src/Idem/Replaying.antt =====
-- A key that the ledger of src/idem.rs holds is replayed, and the row that a write leaves is the
-- one that its retry finds.
use task_db.Prelude.{
  ℕ, Text, Bool, true, false, ◌||◌, Bool-cases, Option, none, some, List, [], ◌∷◌, ◌++◌, exists,
  find, ◌≡◌, refl, inl, inr,
}
use task_db.Proto.{Scope, Idempotency}
use task_db.Engine.{Engine, WriteRow, Db}
use task_db.Wire.{Codec, Wire}
use task_db.Txn.{Session, Pool, execute}
use task_db.Txn.Inversion.{Returns}
use task_db.Tables.{is_claim, insert_claim, set_response}
use task_db.Idem.{replay, present, replay_claim, claim_present, claim}
use task_db.Idem.Taking.{Replays}

||-eq-false : (a b : Bool) → (a || b) ≡ false → (a ≡ false) × (b ≡ false)
||-eq-false true b h = cc
||-eq-false false b h = (refl, h)

module _ (e : Engine) (scope : Scope) (key : Text) where
  exists-find :
      (ws : List WriteRow) {row : WriteRow}
      → find (is_claim e scope key) ws ≡ some row
      → exists (is_claim e scope key) ws ≡ true
  exists-find [] h = cc
  exists-find (w ∷ ws) {row} h = elim (Bool-cases (is_claim e scope key w)) [
    | inl here ↦ rw here refl
    | inr there ↦ rw there (exists-find ws {row = row} (rw there at h))
  ]

  -- The recorded outcome stands under its key.
  pub find-set_response :
      (ws : List WriteRow) (row : WriteRow) (bytes : List ℕ)
      → exists (is_claim e scope key) ws ≡ false
      → is_claim e scope key row ≡ true
      → find (is_claim e scope key) (set_response e scope key bytes (ws ++ row ∷ []))
        ≡ some (record row { response = bytes })
  find-set_response [] row bytes h at_row = rw at_row (rw at_row refl)
  find-set_response (w ∷ ws) row bytes h at_row =
      let (other, rest) =
        ||-eq-false (is_claim e scope key w) (exists (is_claim e scope key) ws) h in
      rw other (rw other (find-set_response ws row bytes rest at_row))

module _ (e : Engine) {T : Type 0} (codec : Codec T) (scope : Scope) (w : Wire) (rpc : Text)
    (caller : Option (List ℕ)) (payload : List ℕ) where
  abbrev pub calm : Db → Db → Pool → Session
  calm committed db pool = record { committed = committed; working = db; pool = pool; script = [] }

  claim_present-Replays :
      (key : Option Text) (committed db : Db) (pool : Pool) (x : T)
      → Replays e codec scope w rpc caller payload key db x
      → Returns
          (claim_present e codec scope w rpc caller payload key)
          (calm committed db pool)
          (replay x)
          (calm committed db pool)
  unfolding replay_claim execute insert_claim
  claim_present-Replays none committed db pool x h = absurd h
  claim_present-Replays (some key) committed db pool x (row, found, decided) =
      rw (exists-find e scope key db.writes found)
        (rw e.duplicate_is_unique (rw found (rw decided refl)))

  -- Where every statement is answered, a key that the ledger holds is replayed.
  pub claim-Replays :
      (idem : Option Idempotency) (committed db : Db) (pool : Pool) (x : T)
      → Replays e codec scope w rpc caller payload (present idem) db x
      → Returns
          (claim e codec scope w rpc idem caller payload)
          (calm committed db pool)
          (replay x)
          (calm committed db pool)
  unfolding claim
  claim-Replays idem committed db pool x h =
      claim_present-Replays (present idem) committed db pool x h
