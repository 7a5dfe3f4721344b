-- ===== src/Write/Ending.antt =====
-- How a write of src/write.rs that answered went: its claim, and its record in the ledger.
use task_db.Prelude.{
  ℕ, ◌==◌, Text, Bool, true, false, Option, none, some, List, [], ◌∷◌, ◌++◌, exists, if◌then◌else◌,
  ◌≡◌, refl, ◌∙◌, sym, ap, not, arith,
}
use task_db.Status.{Status}
use task_db.Proto.{Scope, Idempotency}
use task_db.Engine.{Engine, TaskRow, WriteRow, Db, Value}
use task_db.Wire.{Codec, Wire}
use task_db.Txn.{
  Session, Rpc, SqlResult, map_err, execute, acquire, begin, rollback, commit, pure, raise, ◌>>=◌,
  ◌>>◌,
}
use task_db.Txn.Inversion.{
  Returns, Returns-bind, Returns-pure, Returns-execute, Returns-acquire, Returns-begin,
  Returns-rollback, Returns-commit,
}
use task_db.Tables.{selects, is_claim, set_response}
use task_db.Idem.{Claimed, claim, record_outcome, present, fingerprint}
use task_db.Idem.Taking.{claim_row, Claims, Opened, Recorded, Returns-claim, Returns-record_outcome}
use task_db.Sql.Where.{Clause}
use task_db.Write.{answer_replay, refuse_write, run_update, bounded}
use task_db.Write.Selection.{set_where, run_update-set_where}
use task_db.Write.Atomicity.{Quiet-claim}

module _ {T : Type 0} where
  -- A replay ends in a rollback.
  pub Returns-answer_replay :
      (original : T) (s : Session) {a : T} {t : Session}
      → Returns (answer_replay original) s a t
      → (original ≡ a) × (t.committed ≡ s.committed)
  Returns-answer_replay original s h =
      let (u, s', back, rest) = Returns-bind rollback (λ u. pure original) s h in
      let (same, t_is) = Returns-pure original s' rest in (same, rw t_is (Returns-rollback s back))

  -- A refusal ends in none.
  pub Returns-refuse_write :
      (x : Status) (s : Session) {a : T} {t : Session} → Returns (refuse_write x) s a t → ⊥
  Returns-refuse_write x s {a} {t} h =
      let (u, s', back, rest) = Returns-bind rollback (λ u. raise {A = T} x) s {b = a} {t = t} h in
      cc

  pub Returns-unless :
      (b : Bool) (x : Status) (m : Rpc T) (s : Session) {a : T} {t : Session}
      → Returns (if b then refuse_write x else m) s a t
      → (b ≡ false) × Returns m s a t
  Returns-unless true x m s {a} {t} h = absurd (Returns-refuse_write x s {a = a} {t = t} h)
  Returns-unless false x m s h = (refl, h)

module _ (e : Engine) {T : Type 0} (codec : Codec T) (scope : Scope) (w : Wire) (rpc : Text)
    (caller : Option (List ℕ)) (payload : List ℕ) where
  -- A write's transaction up to its claim.
  pub Returns-claimed :
      (idem : Option Idempotency) (next : Claimed T → Rpc T) (s : Session) {a : T} {t : Session}
      → Returns
          (acquire >> (begin >> (claim e codec scope w rpc idem caller payload >>= next)))
          s
          a
          t
      → (c : Claimed T) × (s' : Session) × Returns (next c) s' a t
        × Claims e codec scope w rpc caller payload (present idem) c s.committed s'.working
        × (s'.committed ≡ s.committed)
  Returns-claimed idem next s {a} {t} h =
      let taking : Rpc (Claimed T) = claim e codec scope w rpc idem caller payload in
      let (u, s1, got, more) = Returns-bind acquire (λ u. begin >> (taking >>= next)) s h in
      let (v, s2, started, most) = Returns-bind begin (λ u. taking >>= next) s1 more in
      let (c, s3, took, rest) = Returns-bind taking next s2 most in
      let (fresh, kept) = Returns-begin s1 started in
      let at_s = Returns-acquire s got in
      let kept_by_claim = (Quiet-claim e codec scope w rpc idem caller payload).at s2 in
      (
        c,
        s3,
        rest,
        rw (← (fresh ∙ ap (λ x. x.committed) at_s))
            (Returns-claim e codec scope w rpc caller payload idem s2 {c = c} {t = s3} took),
        ap (λ x. x.1.committed) (sym took) ∙ kept_by_claim ∙ kept ∙ ap (λ x. x.committed) at_s,
      )

  -- The ledger with the outcome of a write, under its key.
  abbrev pub logged : Option Text → T → List WriteRow → List WriteRow
  logged none t ws = ws
  logged (some key) t ws =
      set_response e scope key (codec.encode t)
        (ws ++ claim_row scope rpc key (fingerprint w payload) caller ∷ [])

  abbrev pub is_free : Option Text → List WriteRow → Bool
  is_free none ws = true
  is_free (some key) ws = not (exists (is_claim e scope key) ws)

  Opened-is_free :
      (key : Option Text) (before after : Db)
      → Opened e codec scope w rpc caller payload key before after
      → is_free key before.writes ≡ true
  Opened-is_free none before after h = refl
  Opened-is_free (some key) before after h = rw h.0 refl

  Recorded-logged :
      (key : Option Text) (t : T) (before opened db after : Db)
      → Opened e codec scope w rpc caller payload key before opened
      → db.writes ≡ opened.writes
      → Recorded e codec scope w rpc caller payload key t db after
      → after ≡ record db { writes = logged key t before.writes }
  Recorded-logged none t before opened db after o h r =
      r ∙ ap (λ ws. record db { writes = ws }) (h ∙ ap (λ x. x.writes) o)
  Recorded-logged (some key) t before opened db after (free, o) h r =
      r
      ∙ ap (λ ws. record db { writes = set_response e scope key (codec.encode t) ws })
          (h ∙ ap (λ x. x.writes) o)

  -- What a write that ends well leaves in the ledger: the tables as its statements left them, and
  -- the outcome under its key.
  pub Returns-finish :
      (idem : Option Idempotency) (t : T) (before : Db) (opened : Db) (s : Session) {a : T}
      {s' : Session}
      → Opened e codec scope w rpc caller payload (present idem) before opened
      → s.working.writes ≡ opened.writes
      → Returns (record_outcome e codec scope idem t >> (commit >> pure t)) s a s'
      → (t ≡ a)
        × (is_free (present idem) before.writes ≡ true)
        × (s'.committed ≡ record s.working { writes = logged (present idem) t before.writes })
  Returns-finish idem t before opened s {a} {s'} free same h =
      let (u, s1, recorded, more) =
        Returns-bind (record_outcome e codec scope idem t) (λ u. commit >> pure t) s h in
      let (v, s2, put, last) = Returns-bind commit (λ u. pure t) s1 more in
      let (t_is, s'_is) = Returns-pure t s2 last in
      let wrote = Returns-record_outcome e codec scope w rpc caller payload idem t s recorded in
      (
        t_is,
        Opened-is_free (present idem) before opened free,
        ap (λ x. x.committed) s'_is
            ∙ Returns-commit s1 put
            ∙ Recorded-logged (present idem) t before opened s.working s1.working free same wrote,
      )

  pub Opened-others :
      (key : Option Text) (before after : Db)
      → Opened e codec scope w rpc caller payload key before after
      → after ≡ record before { writes = after.writes }
  Opened-others none before after h = rw h refl
  Opened-others (some key) before after (free, h) = rw h refl

  module _ (clause : Clause) (params : List Value) (test : TaskRow → Bool)
      (selected : (r : TaskRow) → selects e clause params r ≡ some (test r)) (f : TaskRow → TaskRow)
      (refusal : Status) where
    abbrev changing : Db → SqlResult (ℕ × Db)
    changing = run_update e w clause params (λ r. bounded e w (f r))

    -- A compare-and-set that ends well: some row passed the test, and those that did are changed.
    pub Returns-change :
        (idem : Option Idempotency) (resp : T) (before : Db) (s : Session) {a : T} {t : Session}
        → Opened e codec scope w rpc caller payload (present idem) before s.working
        → Returns
            (map_err (execute changing) >>= (λ n.
              if n == 0
              then refuse_write refusal
              else (record_outcome e codec scope idem resp >> (commit >> pure resp))))
            s
            a
            t
        → (resp ≡ a)
          × (is_free (present idem) before.writes ≡ true)
          × (exists test before.tasks ≡ true)
          × (t.committed ≡ record before {
            tasks = set_where test f before.tasks;
            writes = logged (present idem) resp before.writes;
          })
    Returns-change idem resp before s {a} {t} opened h =
        let finish : Rpc T = record_outcome e codec scope idem resp >> (commit >> pure resp) in
        let (n, s1, ran, rest) =
          Returns-bind (map_err (execute changing))
            (λ n. if n == 0 then refuse_write refusal else finish) s h in
        let (some_row, end) = Returns-unless (n == 0) refusal finish s1 rest in
        let (made, kept) = Returns-execute changing s ran in
        let (now, counted) =
          run_update-set_where e clause params test selected w f s.working made in
        let (same, free, last) =
          Returns-finish idem resp before s.working s1 opened (ap (λ x. x.writes) now) end in
        let others = Opened-others (present idem) before s.working opened in
        (
          same,
          free,
          rw (← ap (λ x. x.tasks) others) (ground (arith, counted, some_row)),
          last
              ∙ ap (λ (x : Db). record x { writes = logged (present idem) resp before.writes }) now
              ∙ ap
                  (λ (x : Db). record x {
                    tasks = set_where test f x.tasks;
                    writes = logged (present idem) resp before.writes;
                  })
                  others,
        )
