-- ===== src/Txn/Held.antt =====
-- `Held` of src/txn.rs: a connection out of the pool, closed and not given back where a BEGIN that it
-- sent has not been answered. A handler may be dropped wherever it awaits, so a state is what stands
-- at an await, and the steps are what may happen before the next one.
use task_db.Prelude.{
  ℕ, ◌+◌, ◌≤◌, Bool, true, false, Bool-cases, if◌then◌else◌, ◌≡◌, refl, inl, inr, sym, ◌∙◌, arith,
}
use mathlib.Core.Path.{subst}
use mathlib.Core.Bool.{true≢false}
use task_db.Engine.{SqlxError}
use task_db.Txn.{SqlResult, done, failed}

-- A connection: whether a BEGIN is on its way without an answer, whether the engine holds it in a
-- transaction, and how many transactions sqlx counts.
pub record Conn : Type 0 where
  pub in_flight : Bool
  pub in_transaction : Bool
  pub depth : ℕ

-- `Held`
pub record Held : Type 0 where
  pub conn : Conn
  pub armed : Bool

-- What `acquire` gives out.
abbrev pub acquired_conn : Conn → Held
acquired_conn conn = record { conn = conn; armed = false }

-- `Held::begin` up to the await on BEGIN's answer, and after it.
abbrev pub begin_sent : Held → Held
begin_sent h = record h { armed = true }

abbrev pub begin_answered : SqlResult (Unit {0}) → Held → Held
begin_answered (done u) h = record h { armed = false }
begin_answered (failed x) h = h

-- What the wire, the engine and sqlx make of a connection. They do not know the guard.
abbrev pub sent : Conn → Conn
sent c = record c { in_flight = true }

abbrev pub engine_begun : Conn → Conn
engine_begun c = record c { in_transaction = true }

abbrev pub counted : Conn → Conn
counted c = record c { in_flight = false; depth = c.depth + 1 }

abbrev pub engine_ended : Conn → Conn
engine_ended c = record c { in_transaction = false }

abbrev pub uncounted : Conn → Conn
uncounted c = record c { depth = 0 }

abbrev pub on_conn : (Conn → Conn) → Held → Held
on_conn f h = record h { conn = f h.conn }

-- sqlx, as the comments of src/txn.rs describe it: what a connection is once it is back in the pool. A
-- transaction that sqlx counts is rolled back, and outside of one nothing is done; what happens to a
-- connection that the engine holds in a transaction that sqlx does not count is not assumed.
pub record Sqlx : Type 0 where
  pub returned_conn : Conn → Conn
  pub forgets : (c : Conn) → (returned_conn c).depth ≡ 0
  pub rolls_back : (c : Conn) → 1 ≤ c.depth → (returned_conn c).in_transaction ≡ false
  pub leaves_idle : (c : Conn) → c.in_transaction ≡ false → (returned_conn c).in_transaction ≡ false
  pub sends_nothing : (c : Conn) → c.in_flight ≡ false → (returned_conn c).in_flight ≡ false

pub data Dropped : Type 0 where
  closed : Dropped
  given_back : Conn → Dropped

-- `Drop for Held`
abbrev pub drop_held : Sqlx → Held → Dropped
drop_held sqlx h = if h.armed then closed else given_back (sqlx.returned_conn h.conn)

-- What may happen between two awaits. The engine runs a BEGIN, a COMMIT or a ROLLBACK at some time
-- before its answer is read, and sqlx counts when it reads it. A BEGIN that failed may still be run by
-- the engine: nothing is certain of it.
pub data Step : Held → Held → Type 0 where
  begins :
      (h : Held)
      → h.conn.in_flight ≡ false
      → h.conn.depth ≡ 0
      → Step h (on_conn sent (begin_sent h))
  engine_begins : (h : Held) → h.conn.in_flight ≡ true → Step h (on_conn engine_begun h)
  begin_is_answered :
      (h : Held)
      → h.conn.in_flight ≡ true
      → h.conn.in_transaction ≡ true
      → Step h (begin_answered (done tt) (on_conn counted h))
  begin_fails :
      (h : Held) (x : SqlxError) → h.conn.in_flight ≡ true → Step h (begin_answered (failed x) h)
  engine_ends :
      (h : Held) → h.conn.in_flight ≡ false → 1 ≤ h.conn.depth → Step h (on_conn engine_ended h)
  end_is_answered :
      (h : Held)
      → h.conn.in_flight ≡ false
      → h.conn.in_transaction ≡ false
      → Step h (on_conn uncounted h)

-- Where one borrower after another may leave a connection that started idle.
pub data Reachable (sqlx : Sqlx) : Held → Type 0 where
  first :
      Reachable sqlx
        (acquired_conn (record { in_flight = false; in_transaction = false; depth = 0 }))
  next : {h k : Held} → Reachable sqlx h → Step h k → Reachable sqlx k
  borrowed :
      {h : Held} {c : Conn}
      → Reachable sqlx h
      → drop_held sqlx h ≡ given_back c
      → Reachable sqlx (acquired_conn c)

-- The guard is armed while a BEGIN is on its way, and a transaction of the engine's that sqlx does
-- not count is one whose BEGIN has not answered.
abbrev Accounted : Held → Type 0
Accounted h =
    (h.armed ≡ false → h.conn.in_flight ≡ false)
    × (h.conn.in_flight ≡ false → h.conn.in_transaction ≡ true → 1 ≤ h.conn.depth)

-- What a borrower may be given: a connection outside of any transaction, with no BEGIN on its way.
abbrev pub Clean : Dropped → Type 0
Clean closed = Unit
Clean (given_back c) = (c.in_flight ≡ false) × (c.in_transaction ≡ false) × (c.depth ≡ 0)

module _ (sqlx : Sqlx) where
  drop_held-Clean : (h : Held) → Accounted h → Clean (drop_held sqlx h)
  drop_held-Clean h (guarded, known) = elim (Bool-cases h.armed) [
    | inl armed ↦ rw armed tt
    | inr safe ↦ rw safe (sqlx.sends_nothing h.conn (guarded safe), idle safe, sqlx.forgets h.conn)
  ]
    where
      idle : h.armed ≡ false → (sqlx.returned_conn h.conn).in_transaction ≡ false
      idle safe = elim (Bool-cases h.conn.in_transaction) [
        | inl held_open ↦ sqlx.rolls_back h.conn (known (guarded safe) held_open)
        | inr out ↦ sqlx.leaves_idle h.conn out
      ]

  Step-Accounted : {h k : Held} → Step h k → Accounted h → Accounted k
  Step-Accounted (begins h quiet none_open) (guarded, known) = (λ safe. cc, λ safe open_. cc)
  Step-Accounted (engine_begins h flying) (guarded, known) = (guarded, λ safe open_. cc)
  Step-Accounted (begin_is_answered h flying open_) (guarded, known) =
      (λ safe. refl, λ safe now. omega arith)
  Step-Accounted (begin_fails h x flying) known = known
  Step-Accounted (engine_ends h quiet counted) (guarded, known) = (guarded, λ s now. cc)
  Step-Accounted (end_is_answered h quiet ended) (guarded, known) = (guarded, λ s now. cc)

  Reachable-Accounted : {h : Held} → Reachable sqlx h → Accounted h
  Reachable-Accounted first = (λ safe. refl, λ safe now. cc)
  Reachable-Accounted (next r st) = Step-Accounted st (Reachable-Accounted r)
  Reachable-Accounted (borrowed {h = h} {c = c} r back) =
      let clean : Clean (given_back c) =
        subst Clean back (drop_held-Clean h (Reachable-Accounted r)) in
      (λ safe. clean.0, λ safe now. absurd (true≢false (sym now ∙ clean.1)))

  -- A connection that the pool gave out idle, and any number of borrowers after it, each dropped
  -- wherever it stands, is closed, or given back outside of any transaction, one that sqlx does not
  -- count included, and with no BEGIN on its way.
  pub dropped-Clean : {h : Held} → Reachable sqlx h → Clean (drop_held sqlx h)
  dropped-Clean {h} r = drop_held-Clean h (Reachable-Accounted r)
