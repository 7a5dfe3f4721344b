-- ===== src/Write/Retry.antt =====
-- A write of src/write.rs sent again under its key (D9): the recorded answer, and nothing written.
pub mod Delete
pub mod Update
pub mod Create
use task_db.Prelude.{
  ℕ, Text, true, false, Option, none, some, List, text_eq_refl, is_some, ◌&&◌, if◌then◌else◌, ◌≡◌,
  refl, arith,
}
use task_db.Status.{ok}
use task_db.Proto.{Scope}
use task_db.Engine.{Engine, WriteRow, Db}
use task_db.Wire.{Codec, Wire}
use task_db.Idem.{decide, differs, fingerprint}
use task_db.Tables.{find_claim}
use task_db.Idem.Taking.{claim_row, presenting, Replays}
use task_db.Idem.Replaying.{find-set_response}
use task_db.Write.Ending.{logged, is_free}

-- The same caller is not told from itself.
same_caller :
    (o : Option (List ℕ)) → (if is_some o && is_some o then differs o o else false) ≡ false
same_caller none = refl
same_caller (some d) = rw (text_eq_refl d) refl

module _ (e : Engine) {T : Type 0} (codec : Codec T) (scope : Scope) (w : Wire) (rpc : Text)
    (caller : Option (List ℕ)) (payload : List ℕ) where
  -- The recorded row answers the request that it was recorded for.
  decide-recorded :
      (key : Text) (t : T)
      → decide codec
          (record (claim_row scope rpc key (fingerprint w payload) caller) {
            response = codec.encode t;
          })
          (presenting rpc (fingerprint w payload) caller)
        ≡ ok t
  unfolding decide
  decide-recorded key t = rw (text_eq_refl rpc) (
      rw (text_eq_refl (fingerprint w payload))
        (rw (same_caller caller) (rw (codec.decode-encode t) refl)))

  abbrev pub recorded_row : Text → T → WriteRow
  recorded_row key t = record (claim_row scope rpc key (fingerprint w payload) caller) {
    response = codec.encode t;
  }

  -- A write that was answered well under a free key leaves its row under it.
  pub find_claim-logged :
      (key : Text) (t : T) (ws : List WriteRow) (db : Db)
      → is_free e codec scope w rpc caller payload (some key) ws ≡ true
      → db.writes ≡ logged e codec scope w rpc caller payload (some key) t ws
      → find_claim e scope key db ≡ some (recorded_row key t)
  find_claim-logged key t ws db free at_db = rw at_db (
      find-set_response e scope key ws (claim_row scope rpc key (fingerprint w payload) caller)
        (codec.encode t) (ground (arith, free))
        (rw (e.same_refl scope.project_id)
          (rw (e.same_refl scope.user_id) (rw (e.same_refl key) refl))))

  pub logged-Replays :
      (key : Option Text) (t : T) (ws : List WriteRow) (db : Db) {k : Text}
      → key ≡ some k
      → is_free e codec scope w rpc caller payload key ws ≡ true
      → db.writes ≡ logged e codec scope w rpc caller payload key t ws
      → Replays e codec scope w rpc caller payload key db t
  logged-Replays none t ws db keyed free at_db = cc
  logged-Replays (some key) t ws db keyed free at_db =
      (recorded_row key t, find_claim-logged key t ws db free at_db, decide-recorded key t)
