-- ===== src/Txn/Inversion.antt =====
-- What a successful action of src/txn.rs has done, step by step.
use task_db.Prelude.{◌≡◌, refl, ap, ◌⊎◌, inl, inr, arith}
use task_db.Status.{Result, ok, err}
use task_db.Engine.{SqlxError, Db}
use task_db.Txn.{
  Answer, answers, fails, unheard, Session, SqlResult, done, failed, Rpc, pure, lift, map_err,
  next_answer, continue, execute, acquire, begin, rollback, commit, Weather, call, ◌>>=◌,
}

-- The action ends well, with this value and in this session.
abbrev pub Returns : {A : Type 0} → Rpc A → Session → A → Session → Type 0
Returns m s a s' = m s ≡ (ok a, s')

module _ {A B : Type 0} where
  continue-eq-ok :
      (r : Result A) (f : A → Rpc B) (s : Session) {b : B} {t : Session}
      → continue r f s ≡ (ok b, t)
      → (a : A) × (r ≡ ok a) × (f a s ≡ (ok b, t))
  continue-eq-ok (ok a) f s h = (a, refl, h)
  continue-eq-ok (err x) f s h = cc

  pub Returns-bind :
      (m : Rpc A) (f : A → Rpc B) (s : Session) {b : B} {t : Session}
      → Returns (m >>= f) s b t
      → (a : A) × (s' : Session) × Returns m s a s' × Returns (f a) s' b t
  Returns-bind m f s h =
      let (a, good, rest) = continue-eq-ok (m s).0 f (m s).1 h in
      (a, (m s).1, (λ i. (good i, (m s).1)), rest)

  -- A computation on the request leaves the session alone.
  pub Returns-lifted :
      (r : Result A) (f : A → Rpc B) (s : Session) {b : B} {t : Session}
      → Returns (lift r >>= f) s b t
      → (a : A) × (r ≡ ok a) × Returns (f a) s b t
  Returns-lifted r f s h = continue-eq-ok r f s h

module _ {A : Type 0} where
  pub Returns-lift :
      (r : Result A) (s : Session) {a : A} {t : Session}
      → Returns (lift r) s a t
      → (r ≡ ok a) × (t ≡ s)
  Returns-lift r s h = ground arith

  pub Returns-pure :
      (b : A) (s : Session) {a : A} {t : Session} → Returns (pure b) s a t → (b ≡ a) × (t ≡ s)
  Returns-pure b s h = ground arith

  -- A statement that succeeded ran on the transaction's own tables.
  pub Returns-execute :
      (f : Db → SqlResult (A × Db)) (s : Session) {a : A} {t : Session}
      → Returns (map_err (execute f)) s a t
      → (f s.working ≡ done (a, t.working)) × (t.committed ≡ s.committed)
  unfolding execute
  Returns-execute f s h = ground arith

pub done_injective : {A : Type 0} {a b : A} → done a ≡ done b → a ≡ b
done_injective {a} {b} h = ground arith

pub done-pair : {A B : Type 0} {p q : A × B} → done p ≡ done q → (p.0 ≡ q.0) × (p.1 ≡ q.1)
done-pair {p} {q} h = (ap (λ x. x.0) (done_injective h), ap (λ x. x.1) (done_injective h))

pub Returns-acquire : (s : Session) {u : Unit {0}} {t : Session} → Returns acquire s u t → t ≡ s
unfolding acquire
Returns-acquire s h = ground arith

pub Returns-begin :
    (s : Session) {u : Unit {0}} {t : Session}
    → Returns begin s u t
    → (t.working ≡ s.committed) × (t.committed ≡ s.committed)
unfolding begin
Returns-begin s h = ground arith

pub Returns-rollback :
    (s : Session) {u : Unit {0}} {t : Session} → Returns rollback s u t → t.committed ≡ s.committed
unfolding rollback
Returns-rollback s h = ground arith

pub Returns-commit :
    (s : Session) {u : Unit {0}} {t : Session} → Returns commit s u t → t.committed ≡ s.working
unfolding commit
Returns-commit s h = ground arith

-- The session that a call starts in.
abbrev pub started : Weather → Db → Session
started weather db = record {
  committed = db;
  working = db;
  pool = weather.pool;
  script = weather.script;
}

pub Returns-call :
    {A : Type 0} (m : Rpc A) (weather : Weather) (db : Db) {a : A}
    → (call m weather db).0 ≡ ok a
    → (t : Session) × Returns m (started weather db) a t × ((call m weather db).1 ≡ t.committed)
unfolding call
Returns-call m weather db h = let s = started weather db in ((m s).1, (λ i. (h i, (m s).1)), refl)

-- What a statement did, whether it succeeded or failed.
module _ {A : Type 0} (f : Db → SqlResult (A × Db)) (s : Session) where
  abbrev Ran : Type 0
  Ran =
      ((a : A) × ((execute f s).0 ≡ done a) × (f s.working ≡ done (a, (execute f s).1.working)))
      ⊎ ((x : SqlxError) × ((execute f s).0 ≡ failed x) × ((execute f s).1.working ≡ s.working))

  ran_heard : (r : SqlResult (A × Db)) → f s.working ≡ r → next_answer s.script ≡ answers → Ran
  unfolding execute
  ran_heard (done (a, db)) e n = inl (a, ground arith, ground arith)
  ran_heard (failed x) e n = inr (x, ground arith, ground arith)

  ran : (n : Answer) → next_answer s.script ≡ n → Ran
  unfolding execute
  ran answers e = ran_heard (f s.working) refl e
  ran (fails x) e = inr (x, ground arith, ground arith)
  ran (unheard x) e = inr (x, ground arith, ground arith)

  pub execute-cases :
      ((a : A) × ((execute f s).0 ≡ done a) × (f s.working ≡ done (a, (execute f s).1.working)))
      ⊎ ((x : SqlxError) × ((execute f s).0 ≡ failed x) × ((execute f s).1.working ≡ s.working))
  execute-cases = ran (next_answer s.script) refl
