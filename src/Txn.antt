-- ===== src/Txn.antt =====
-- src/txn.rs and the part of sqlx that the handlers drive: a connection is acquired, a transaction
-- begun, statements executed in it, and it is committed or rolled back. A handler is an action on a
-- `Session`; whatever a transaction wrote stays in `working` until `commit`, and a handler that ends
-- without one drops it. A statement outside any transaction commits by itself (`autocommit`). How the pool and the engine answer is a script, the call's environment.
pub mod Atomic
pub mod Inversion
pub mod Triple
pub mod Held
use task_db.Prelude.{ℕ, ◌==◌, leb, Option, none, some, List, [], ◌∷◌, if◌then◌else◌}
use task_db.Status.{Status, Result, ok, err, deadline_exceeded, deadline_passed}
use task_db.Engine.{SqlxError, Db}
use task_db.Sql.Errors.{internal}

-- How the engine answers a statement: it runs, it fails, or (at a commit) it takes effect and the
-- answer is lost.
pub data Answer : Type 0 where
  answers : Answer
  fails unheard : SqlxError → Answer

-- How the pool answers an acquire: after `wait` milliseconds, with a connection or an error. The
-- ceiling is the pool's own timeout, and `bound` is `Deadline::bound(ceiling)` of yadgar-dial.
pub record Pool : Type 0 where
  pub ceiling : ℕ
  pub bound : ℕ
  pub wait : ℕ
  pub failure : Option SqlxError

pub record Session : Type 0 where
  pub committed : Db
  pub working : Db
  pub pool : Pool
  pub script : List Answer

pub data SqlResult {ℓ} (A : Type ℓ) : Type ℓ where
  done : A → SqlResult A
  failed : SqlxError → SqlResult A

-- A statement as sqlx answers it, and an action as a handler does.
abbrev pub Query : Type 0 → Type 0
Query A = Session → SqlResult A × Session

abbrev pub Rpc : Type 0 → Type 0
Rpc A = Session → Result A × Session

abbrev pub pure : {A : Type 0} → A → Rpc A
pure a s = (ok a, s)

abbrev pub raise : {A : Type 0} → Status → Rpc A
raise e s = (err e, s)

-- A computation on the request alone, under `?`.
abbrev pub lift : {A : Type 0} → Result A → Rpc A
lift r s = (r, s)

abbrev pub continue : {A B : Type 0} → Result A → (A → Rpc B) → Rpc B
continue (ok a) f = f a
continue (err e) f = raise e

infixl 10 ◌>>=◌ ◌>>◌
abbrev pub ◌>>=◌ : {A B : Type 0} → Rpc A → (A → Rpc B) → Rpc B
◌>>=◌ m f s = let (r, s') = m s in continue r f s'

abbrev pub ◌>>◌ : {A B : Type 0} → Rpc A → Rpc B → Rpc B
m >> k = m >>= λ _. k

-- `.map_err(internal)?`
abbrev pub or_internal : {A : Type 0} → SqlResult A → Result A
or_internal (done a) = ok a
or_internal (failed e) = err (internal e)

abbrev pub map_err : {A : Type 0} → Query A → Rpc A
map_err q s = let (r, s') = q s in (or_internal r, s')

abbrev pub settle : {A : Type 0} → SqlResult (A × Db) → Query A
settle (done (a, db)) s = (done a, record s { working = db })
settle (failed e) s = (failed e, s)

abbrev pub next_answer : List Answer → Answer
next_answer [] = answers
next_answer (a ∷ rest) = a

abbrev pub later_answers : List Answer → List Answer
later_answers [] = []
later_answers (a ∷ rest) = rest

abbrev pub answered : {A : Type 0} → Answer → (Db → SqlResult (A × Db)) → Query A
answered answers f s = settle (f s.working) s
answered (fails e) f s = (failed e, s)
answered (unheard e) f s = (failed e, s)

-- One statement in a transaction: the engine's own failure, or what the statement does to the tables.
unfoldable pub execute : {A : Type 0} → (Db → SqlResult (A × Db)) → Query A
execute f s = answered (next_answer s.script) f (record s { script = later_answers s.script })

abbrev pub settle_alone : {A : Type 0} → SqlResult (A × Db) → Query A
settle_alone (done (a, db)) s = (done a, record s { committed = db; working = db })
settle_alone (failed e) s = (failed e, s)

abbrev pub answered_alone : {A : Type 0} → Answer → (Db → SqlResult (A × Db)) → Query A
answered_alone answers f s = settle_alone (f s.committed) s
answered_alone (fails e) f s = (failed e, s)
answered_alone (unheard e) f s = (failed e, (settle_alone (f s.committed) s).1)

-- One statement on `Held::conn`, outside any transaction: what it does is committed at once.
unfoldable pub autocommit : {A : Type 0} → (Db → SqlResult (A × Db)) → Query A
autocommit f s =
    answered_alone (next_answer s.script) f (record s { script = later_answers s.script })

-- `spent`
abbrev pub spent : Status
spent = record { code = deadline_exceeded; message = deadline_passed }

abbrev granted : Pool → Result (Unit {0})
granted p = elim p.failure [ none ↦ ok tt | some e ↦ err (internal e) ]

-- The acquire, bounded by the caller's deadline where that is below the ceiling.
unfoldable pub acquired : Pool → Result (Unit {0})
acquired p =
    if leb p.ceiling p.bound
    then granted p
    else if p.bound == 0
    then err spent
    else if leb p.wait p.bound
    then granted p
    else err spent

unfoldable pub acquire : Rpc (Unit {0})
unfolding acquired
acquire s = (acquired s.pool, s)

abbrev ended : Answer → Session → Session → Result (Unit {0}) × Session
ended answers after s = (ok tt, after)
ended (fails e) after s = (err (internal e), s)
ended (unheard e) after s = (err (internal e), after)

-- `Held::begin`, `Transaction::rollback` and `Transaction::commit`.
unfoldable pub begin : Rpc (Unit {0})
begin s =
    let s' = record s { script = later_answers s.script } in
    ended (next_answer s.script) (record s' { working = s.committed }) s'

unfoldable pub rollback : Rpc (Unit {0})
rollback s =
    let s' = record s { script = later_answers s.script } in
    ended (next_answer s.script) (record s' { working = s.committed }) s'

unfoldable pub commit : Rpc (Unit {0})
commit s =
    let s' = record s { script = later_answers s.script } in
    ended (next_answer s.script) (record s' { committed = s.working }) s'

-- What a call meets: its pool, and the engine's answers.
pub record Weather : Type 0 where
  pub pool : Pool
  pub script : List Answer

-- A call from its request to its answer, with the tables that it leaves. What is not committed when
-- the handler returns is dropped.
unfoldable pub call : {A : Type 0} → Rpc A → Weather → Db → Result A × Db
call m weather db =
    let (r, s) =
      m (record { committed = db; working = db; pool = weather.pool; script = weather.script }) in
    (r, s.committed)
