-- ===== src/Txn/Atomic.antt =====
-- Which actions of src/txn.rs leave the committed tables alone, one rule for each way to build an
-- action, so that a handler's proof is a search.
use task_db.Prelude.{Bool, true, false, List, [], ◌∷◌, if◌then◌else◌, ◌≡◌, refl, ◌∙◌, arith}
use mathlib.Core.Path.{subst}
use task_db.Status.{Status, Result, ok, err}
use task_db.Engine.{Db}
use task_db.Txn.{
  Answer, answers, fails, unheard, Session, SqlResult, Rpc, pure, raise, lift, map_err, continue,
  execute, acquire, begin, rollback, commit, ◌>>=◌, Weather, call, done, failed, settle_alone,
  answered_alone, autocommit, next_answer, later_answers,
}

-- No statement takes effect without its answer being heard.
abbrev pub Heard : List Answer → Type 0
Heard [] = Unit
Heard (answers ∷ rest) = Heard rest
Heard (fails e ∷ rest) = Heard rest
Heard (unheard e ∷ rest) = ⊥

-- `m` commits nothing.
pub record Quiet {A : Type 0} (m : Rpc A) : Type 0 where
  pub at : (s : Session) → (m s).1.committed ≡ s.committed
  pub heard : (s : Session) → Heard s.script → Heard (m s).1.script

-- What an error says of the tables.
abbrev pub Kept : {A : Type 0} → Result A → Db → Db → Type 0
Kept (ok a) db db' = Unit {0}
Kept (err e) db db' = db' ≡ db

-- `m` commits nothing if it ends in an error.
pub record Atomic {A : Type 0} (m : Rpc A) : Type 0 where
  pub at : (s : Session) → Heard s.script → Kept (m s).0 s.committed (m s).1.committed

pub Quiet-lift : {A : Type 0} (r : Result A) → Quiet (lift r)
Quiet-lift r = record { at = λ s. refl; heard = λ s h. h }

pub Quiet-pure : {A : Type 0} (a : A) → Quiet (pure a)
Quiet-pure a = record { at = λ s. refl; heard = λ s h. h }

pub Quiet-raise : {A : Type 0} (e : Status) → Quiet (raise {A = A} e)
Quiet-raise e = record { at = λ s. refl; heard = λ s h. h }

pub Quiet-acquire : Quiet acquire
unfolding acquire
Quiet-acquire = record { at = λ s. refl; heard = λ s h. h }

module _ {A : Type 0} (f : Db → SqlResult (A × Db)) where
  pub committed-execute : (s : Session) → (execute f s).1.committed ≡ s.committed
  unfolding execute
  committed-execute s = ground arith

  pub Heard-execute : (s : Session) → Heard s.script → Heard (execute f s).1.script
  unfolding execute
  Heard-execute s h = ground arith

  pub Quiet-execute : Quiet (map_err (execute f))
  Quiet-execute = record { at = committed-execute; heard = Heard-execute }

-- A statement that leaves the tables as it found them.
abbrev pub ReadsOnly : {A : Type 0} → (Db → SqlResult (A × Db)) → Type 0
ReadsOnly {A} f = (db : Db) (a : A) (after : Db) → f db ≡ done (a, after) → after ≡ db

module _ {A : Type 0} (f : Db → SqlResult (A × Db)) (same : ReadsOnly f) where
  settled_alone :
      (s : Session) (r : SqlResult (A × Db))
      → ((a : A) (after : Db) → r ≡ done (a, after) → after ≡ s.committed)
      → (settle_alone r s).1.committed ≡ s.committed
  settled_alone s (done (a, after)) h = h a after refl
  settled_alone s (failed x) h = refl

  committed-answered_alone :
      (s : Session) (n : Answer) → (answered_alone n f s).1.committed ≡ s.committed
  committed-answered_alone s answers = settled_alone s (f s.committed) (same s.committed)
  committed-answered_alone s (fails x) = refl
  committed-answered_alone s (unheard x) = settled_alone s (f s.committed) (same s.committed)

  Heard-autocommit : (s : Session) → Heard s.script → Heard (autocommit f s).1.script
  unfolding autocommit
  Heard-autocommit s h = ground arith

  -- Outside a transaction only a statement that reads commits nothing.
  pub Quiet-autocommit : Quiet (map_err (autocommit f))
  unfolding autocommit
  Quiet-autocommit = record {
    at = λ s.
        committed-answered_alone (record s { script = later_answers s.script })
          (next_answer s.script);
    heard = Heard-autocommit;
  }

pub Quiet-begin : Quiet begin
unfolding begin
Quiet-begin = record { at = λ s. ground arith; heard = λ s h. ground arith }

pub Quiet-rollback : Quiet rollback
unfolding rollback
Quiet-rollback = record { at = λ s. ground arith; heard = λ s h. ground arith }

Atomic-raise : {A : Type 0} (e : Status) → Atomic (raise {A = A} e)
Atomic-raise e = record { at = λ s h. refl }

module _ {A B : Type 0} where
  Quiet-continue : (r : Result A) (f : A → Rpc B) → ((a : A) → Quiet (f a)) → Quiet (continue r f)
  Quiet-continue (ok a) f q = q a
  Quiet-continue (err e) f q = Quiet-raise e

  pub Quiet-bind : (m : Rpc A) (f : A → Rpc B) → Quiet m → ((a : A) → Quiet (f a)) → Quiet (m >>= f)
  Quiet-bind m f qm qf = record {
    at = λ s. let (r, s') = m s in (Quiet-continue r f qf).at s' ∙ qm.at s;
    heard = λ s h. let (r, s') = m s in (Quiet-continue r f qf).heard s' (qm.heard s h);
  }

  Atomic-continue :
      (r : Result A) (f : A → Rpc B) → ((a : A) → Atomic (f a)) → Atomic (continue r f)
  Atomic-continue (ok a) f q = q a
  Atomic-continue (err e) f q = Atomic-raise e

  -- What is quiet may stand before what is atomic.
  pub Atomic-bind :
      (m : Rpc A) (f : A → Rpc B) → Quiet m → ((a : A) → Atomic (f a)) → Atomic (m >>= f)
  Atomic-bind m f qm qf = record {
    at = λ s h.
        let (r, s') = m s in
        subst (λ db. Kept (continue r f s').0 db (continue r f s').1.committed) (qm.at s)
          ((Atomic-continue r f qf).at s' (qm.heard s h));
  }

module _ {A : Type 0} where
  Kept-of_eq : (r : Result A) {db db' : Db} → db' ≡ db → Kept r db db'
  Kept-of_eq (ok a) h = tt
  Kept-of_eq (err e) h = h

  pub Atomic-of_Quiet : (m : Rpc A) → Quiet m → Atomic m
  Atomic-of_Quiet m q = record { at = λ s h. Kept-of_eq (m s).0 (q.at s) }

  pub Atomic-commit : (a : A) → Atomic (commit >>= λ _. pure a)
  unfolding commit
  Atomic-commit a = record { at = λ s h. ground arith }

  pub Quiet-if : (b : Bool) (m n : Rpc A) → Quiet m → Quiet n → Quiet (if b then m else n)
  Quiet-if true m n qm qn = qm
  Quiet-if false m n qm qn = qn

  pub Atomic-if : (b : Bool) (m n : Rpc A) → Atomic m → Atomic n → Atomic (if b then m else n)
  Atomic-if true m n qm qn = qm
  Atomic-if false m n qm qn = qn

  -- A call whose action is atomic leaves the tables alone when it answers an error.
  pub call-Atomic :
      (m : Rpc A) (weather : Weather) (db : Db)
      → Atomic m
      → Heard weather.script
      → Kept (call m weather db).0 db (call m weather db).1
  unfolding call
  call-Atomic m weather db atomic h =
      atomic.at
        (record { committed = db; working = db; pool = weather.pool; script = weather.script }) h

pub ruleset quiet_rules = (
  Quiet-lift, Quiet-pure, Quiet-raise, Quiet-acquire, Quiet-execute, Quiet-begin, Quiet-rollback,
  Quiet-if, Quiet-bind,
)
