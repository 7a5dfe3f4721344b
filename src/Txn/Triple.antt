-- ===== src/Txn/Triple.antt =====
-- What an action of src/txn.rs keeps of the tables, the committed ones and the transaction's own,
-- whatever the engine answers: a commit that took effect unheard is no exception here.
use task_db.Prelude.{Bool, true, false, if◌then◌else◌, ◌≡◌, refl}
use task_db.Status.{Status, Result, ok, err}
use task_db.Engine.{Db}
use task_db.Txn.{
  Answer, answers, fails, unheard, Session, SqlResult, done, failed, Rpc, pure, raise, lift,
  map_err, continue, settle, answered, next_answer, later_answers, execute, or_internal, ended,
  acquired, acquire, begin, rollback, commit, Weather, call, ◌>>=◌,
}

-- What is known of the transaction's tables where an action has answered well.
abbrev pub Ends : {A : Type 0} → (A → Db → Type 0) → Result A → Db → Type 0
Ends Q (ok a) db = Q a db
Ends Q (err x) db = Unit

abbrev pub Any : Db → Type 0
Any db = Unit {0}

-- `P` is kept, and from `R` of the transaction's tables follows `Q`.
pub record Triple {A : Type 0} (P R : Db → Type 0) (m : Rpc A) (Q : A → Db → Type 0) : Type 0 where
  pub at :
      (s : Session)
      → P s.committed
      → P s.working
      → R s.working
      → P (m s).1.committed × P (m s).1.working × Ends Q (m s).0 (m s).1.working

abbrev pub Keeps : {A : Type 0} → (Db → Type 0) → Rpc A → Type 0
Keeps P m = Triple P Any m (λ a. Any)

module _ (P : Db → Type 0) where
  -- Both tables, after the engine has answered a begin, a rollback or a commit.
  ended-Keeps :
      (n : Answer) (after s : Session)
      → P after.committed × P after.working
      → P s.committed × P s.working
      → P (ended n after s).1.committed
        × P (ended n after s).1.working
        × Ends (λ u. Any) (ended n after s).0 (ended n after s).1.working
  ended-Keeps answers after s h k = (h.0, h.1, tt)
  ended-Keeps (fails x) after s h k = (k.0, k.1, tt)
  ended-Keeps (unheard x) after s h k = (h.0, h.1, tt)

  module _ (R : Db → Type 0) where
    pub Triple-begin : Triple P R begin (λ u. Any)
    unfolding begin
    Triple-begin = record { at = λ s c w r. ended-Keeps (next_answer s.script) _ _ (c, c) (c, w) }

    pub Triple-rollback : Triple P R rollback (λ u. Any)
    unfolding rollback
    Triple-rollback = record {
      at = λ s c w r. ended-Keeps (next_answer s.script) _ _ (c, c) (c, w);
    }

    pub Triple-commit : Triple P R commit (λ u. Any)
    unfolding commit
    Triple-commit = record { at = λ s c w r. ended-Keeps (next_answer s.script) _ _ (w, w) (c, w) }

  module _ {A : Type 0} (R : Db → Type 0) where
    pub Triple-pure :
        (a : A) (Q : A → Db → Type 0) → ((db : Db) → R db → Q a db) → Triple P R (pure a) Q
    Triple-pure a Q h = record { at = λ s c w r. (c, w, h s.working r) }

    pub Triple-raise : (x : Status) (Q : A → Db → Type 0) → Triple P R (raise x) Q
    Triple-raise x Q = record { at = λ s c w r. (c, w, tt) }

    lifted : (r : Result A) {db : Db} → R db → Ends (λ a. R) r db
    lifted (ok a) h = h
    lifted (err x) h = tt

    -- A computation on the request alone changes nothing that is known.
    pub Triple-lift : (r : Result A) → Triple P R (lift r) (λ a. R)
    Triple-lift r = record { at = λ s c w h. (c, w, lifted r h) }

    settled :
        (f : Db → SqlResult (A × Db)) (Q : A → Db → Type 0) (s : Session) (r : SqlResult (A × Db))
        → ((a : A) (after : Db) → r ≡ done (a, after) → P after × Q a after)
        → P s.committed
        → P s.working
        → let t = settle r s in
          P t.1.committed × P t.1.working × Ends Q (or_internal t.0) t.1.working
    settled f Q s (done (a, after)) step c w =
        let (kept, known) = step a after refl in (c, kept, known)
    settled f Q s (failed x) step c w = (c, w, tt)

    statement :
        (f : Db → SqlResult (A × Db)) (Q : A → Db → Type 0) (s : Session) (n : Answer)
        → ((a : A) (after : Db) → f s.working ≡ done (a, after) → P after × Q a after)
        → P s.committed
        → P s.working
        → let t = answered n f s in
          P t.1.committed × P t.1.working × Ends Q (or_internal t.0) t.1.working
    statement f Q s answers step c w = settled f Q s (f s.working) step c w
    statement f Q s (fails x) step c w = (c, w, tt)
    statement f Q s (unheard x) step c w = (c, w, tt)

    -- A statement, by what it does to tables of which `P` and `R` are known.
    pub Triple-execute :
        (f : Db → SqlResult (A × Db)) (Q : A → Db → Type 0)
        → ((db : Db) (a : A) (after : Db)
            → P db
            → R db
            → f db ≡ done (a, after)
            → P after × Q a after)
        → Triple P R (map_err (execute f)) Q
    unfolding execute
    Triple-execute f Q step = record {
      at = λ s c w r.
          statement f Q (record s { script = later_answers s.script }) (next_answer s.script)
            (λ a after. step s.working a after w r) c w;
    }

  pub Triple-acquire : (R : Db → Type 0) → Triple P R acquire (λ u. R)
  unfolding acquire
  Triple-acquire R = record { at = λ s c w h. (c, w, lifted R (acquired s.pool) h) }

  module _ {A B : Type 0} (R : Db → Type 0) where
    continued :
        (r : Result A) (f : A → Rpc B) (M : A → Db → Type 0) (Q : B → Db → Type 0) (s : Session)
        → ((a : A) → Triple P (M a) (f a) Q)
        → P s.committed × P s.working × Ends M r s.working
        → let t = continue r f s in P t.1.committed × P t.1.working × Ends Q t.0 t.1.working
    continued (ok a) f M Q s next (c, w, known) = (next a).at s c w known
    continued (err x) f M Q s next (c, w, known) = (c, w, tt)

    pub Triple-bind :
        (m : Rpc A) (f : A → Rpc B) (M : A → Db → Type 0) (Q : B → Db → Type 0)
        → Triple P R m M
        → ((a : A) → Triple P (M a) (f a) Q)
        → Triple P R (m >>= f) Q
    Triple-bind m f M Q first next = record {
      at = λ s c w r. continued (m s).0 f M Q (m s).1 next (first.at s c w r);
    }

  module _ {A : Type 0} (R : Db → Type 0) where
    pub Triple-if :
        (b : Bool) (m n : Rpc A) (Q : A → Db → Type 0)
        → Triple P R m Q
        → Triple P R n Q
        → Triple P R (if b then m else n) Q
    Triple-if true m n Q hm hn = hm
    Triple-if false m n Q hm hn = hn

    -- What needs to know nothing may stand where something is known.
    pub Triple-of_Keeps : (m : Rpc A) → Keeps P m → Triple P R m (λ a. Any)
    Triple-of_Keeps m h = record { at = λ s c w r. h.at s c w tt }

  -- The tables after a call are such as `P` allows, whatever the call answered.
  pub call-Keeps :
      {A : Type 0} (m : Rpc A) (weather : Weather) (db : Db)
      → Keeps P m
      → P db
      → P (call m weather db).1
  unfolding call
  call-Keeps m weather db keeps h =
      (keeps.at
        (record { committed = db; working = db; pool = weather.pool; script = weather.script }) h h
        tt).0
