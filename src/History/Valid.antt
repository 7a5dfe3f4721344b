-- ===== src/History/Valid.antt =====
-- The tables of src/schema.rs as the service leaves them: each key is a key, each number one that its
-- project has given out, each title and version within its column.
use task_db.Prelude.{
  ℕ, ◌≤◌, ◌+◌, Text, Bool, true, Bool-cases, Option, List, [], ◌∷◌, All, ◌≡◌, refl, inl, inr, arith,
}
use task_db.Proto.{Scope, Task}
use task_db.Engine.{Engine, TaskRow, CounterRow, Db}
use task_db.Wire.{Wire}
use task_db.Txn.{Weather, done}
use task_db.Tables.{same_task_key, insert_claim, set_response, next_counter, insert_task}
use task_db.Idem.Taking.{claim_row}
use task_db.Write.Create.{new_row}
use task_db.Write.Delete.{deleted_row}
use task_db.Write.Update.{updated_row}
use task_db.Write.Mask.{Field}
use task_db.Write.Created.{insert_task-eq-done}
use task_db.Write.Columns.{held-updated_row}
use task_db.Write.Numbering.{last_number}
use task_db.Write.Selection.{set_where, editable, deletable}
use task_db.Write.Bounds.{Fits, AllFit}
use task_db.Service.{Request}
use task_db.History.{Statements, run}
use task_db.History.Runs.{run-Keeps}
use task_db.History.Collation.{
  same_counter, same_claim, same_task_key_comm, same_claim_comm, next_counter_grows,
}
use task_db.History.Keys.{
  at_test, set_where-eq-map, with_response, set_response-eq-map, same_claim-with_response,
  next_counter-Distinct, claim_inserted,
}
use task_db.History.Distinct.{Distinct, Distinct-append, Distinct-map, All-append}

abbrev pub RowIsValid : Engine → List CounterRow → TaskRow → Type 0
RowIsValid e counters r =
    (1 ≤ r.number) × (r.number ≤ last_number e r.project_id counters) × (1 ≤ r.version) × Fits r

pub record IsValid (e : Engine) (db : Db) : Type 0 where
  pub task_keys : Distinct (same_task_key e) db.tasks
  pub counter_keys : Distinct (same_counter e) db.counters
  pub claim_keys : Distinct (same_claim e) db.writes
  pub rows : All (RowIsValid e db.counters) db.tasks

module _ (e : Engine) where
  -- A statement that changes rows of a test, and neither their keys nor what is known of them.
  set_where-IsValid :
      (test : TaskRow → Bool) (f : TaskRow → TaskRow) (db : Db)
      → IsValid e db
      → ((r q : TaskRow)
          → same_task_key e (at_test test f r) (at_test test f q) ≡ same_task_key e r q)
      → All (RowIsValid e db.counters) (set_where test f db.tasks)
      → IsValid e (record db { tasks = set_where test f db.tasks })
  set_where-IsValid test f db h keeps rows = record {
    task_keys =
        rw (set_where-eq-map test f db.tasks)
          (Distinct-map (same_task_key e) (at_test test f) keeps db.tasks h.task_keys);
    counter_keys = h.counter_keys;
    claim_keys = h.claim_keys;
    rows = rows;
  }

  -- Two rows whose keys are those of two others.
  same_keys :
      (r r' q q' : TaskRow)
      → (r'.id ≡ r.id) × (r'.project_id ≡ r.project_id) × (r'.number ≡ r.number)
      → (q'.id ≡ q.id) × (q'.project_id ≡ q.project_id) × (q'.number ≡ q.number)
      → same_task_key e r' q' ≡ same_task_key e r q
  same_keys r r' q q' (ri, rp, rn) (qi, qp, qn) = rw ri (rw rp (rw rn (rw qi (rw qp (rw qn refl)))))

  changed-IsValid :
      (test : TaskRow → Bool) (f : TaskRow → TaskRow)
      → ((r : TaskRow) → (f r).id ≡ r.id)
      → ((r : TaskRow) → (f r).project_id ≡ r.project_id)
      → ((r : TaskRow) → (f r).number ≡ r.number)
      → ((r : TaskRow) → (f r).version ≡ r.version + 1)
      → (db : Db) → IsValid e db
      → AllFit test f db.tasks
      → IsValid e (record db { tasks = set_where test f db.tasks })
  changed-IsValid test f ids projects numbers versions db h fit =
      set_where-IsValid test f db h keys (kept db.tasks h.rows fit)
    where
      keys_of :
          (r : TaskRow)
          → let r' = at_test test f r in
            (r'.id ≡ r.id) × (r'.project_id ≡ r.project_id) × (r'.number ≡ r.number)
      keys_of r = elim (Bool-cases (test r)) [
        | inl hit ↦ rw hit (ids r, projects r, numbers r)
        | inr miss ↦ rw miss (refl, refl, refl)
      ]

      keys :
          (r q : TaskRow)
          → same_task_key e (at_test test f r) (at_test test f q) ≡ same_task_key e r q
      keys r q = same_keys r (at_test test f r) q (at_test test f q) (keys_of r) (keys_of q)

      row :
          (r : TaskRow)
          → RowIsValid e db.counters r
          → (test r ≡ true → Fits (f r))
          → RowIsValid e db.counters (at_test test f r)
      row r (one, given, version, fits) changed_fits = elim (Bool-cases (test r)) [
        | inl hit ↦ rw hit (
          rw (numbers r) one,
          rw (numbers r) (rw (projects r) given),
          rw (versions r) (omega arith),
          changed_fits hit,
        )
        | inr miss ↦ rw miss (one, given, version, fits)
      ]

      kept :
          (rs : List TaskRow)
          → All (RowIsValid e db.counters) rs
          → AllFit test f rs
          → All (RowIsValid e db.counters) (set_where test f rs)
      kept [] rows fits = tt
      kept (r ∷ rs) (first, rows) (fits, more) = (row r first fits, kept rs rows more)

  module _ (w : Wire) where
    claims-IsValid :
        (scope : Scope) (rpc key : Text) (digest : List ℕ) (caller : Option (List ℕ)) (db : Db)
        (u : Unit {0}) (after : Db)
        → IsValid e db
        → insert_claim e scope key (claim_row scope rpc key digest caller) db ≡ done (u, after)
        → IsValid e after
    claims-IsValid scope rpc key digest caller db u after h ran =
        let row = claim_row scope rpc key digest caller in
        let (free, after_is) = claim_inserted e scope key row db ran in
        rw after_is (record {
          task_keys = h.task_keys;
          counter_keys = h.counter_keys;
          claim_keys =
              Distinct-append (same_claim e) (same_claim_comm e) db.writes row h.claim_keys free;
          rows = h.rows;
        })

    records-IsValid :
        (scope : Scope) (key : Text) (bytes : List ℕ) (db : Db)
        → IsValid e db
        → IsValid e (record db { writes = set_response e scope key bytes db.writes })
    records-IsValid scope key bytes db h = record {
      task_keys = h.task_keys;
      counter_keys = h.counter_keys;
      claim_keys = rw (set_response-eq-map e scope key bytes db.writes) (
          Distinct-map (same_claim e) (with_response e scope key bytes)
            (same_claim-with_response e scope key bytes) db.writes h.claim_keys);
      rows = h.rows;
    }

    counts-IsValid :
        (project : Text) (db : Db) (counters : List CounterRow)
        → IsValid e db
        → next_counter e project db.counters ≡ done counters
        → IsValid e (record db { counters = counters })
    counts-IsValid project db counters h moved = record {
      task_keys = h.task_keys;
      counter_keys = next_counter-Distinct e project db.counters moved h.counter_keys;
      claim_keys = h.claim_keys;
      rows = still db.tasks h.rows;
    }
      where
        still :
            (rs : List TaskRow) → All (RowIsValid e db.counters) rs → All (RowIsValid e counters) rs
        still [] rows = tt
        still (r ∷ rs) ((one, given, version, fits), rows) = (
          (
            one,
            omega (arith, given, next_counter_grows e project r.project_id db.counters moved),
            version,
            fits,
          ),
          still rs rows,
        )

    inserts-IsValid :
        (urn : Text) (scope : Scope) (task : Task) (number : ℕ) (db : Db) (u : Unit {0})
        (after : Db)
        → IsValid e db
        → (number ≡ last_number e scope.project_id db.counters) × (1 ≤ number)
        → insert_task e (new_row urn scope number task) db ≡ done (u, after)
        → IsValid e after
    inserts-IsValid urn scope task number db u after h (number_is, one) ran =
        let row = new_row urn scope number task in
        let (fits, free, after_is) = insert_task-eq-done e w row db ran in
        rw after_is (record {
          task_keys =
              Distinct-append (same_task_key e) (same_task_key_comm e) db.tasks row h.task_keys
                free;
          counter_keys = h.counter_keys;
          claim_keys = h.claim_keys;
          rows =
              All-append (RowIsValid e db.counters) db.tasks row h.rows
                (one, omega (arith, number_is), omega arith, (fits, refl));
        })

    updates-IsValid :
        (scope : Scope) (task : Task) (fields : List Field) (task_id : Text) (version : ℕ) (db : Db)
        → IsValid e db
        → let test = editable e scope task_id version in
          let change = updated_row e w task fields scope.user_id in
          AllFit test change db.tasks
          → IsValid e (record db { tasks = set_where test change db.tasks })
    updates-IsValid scope task fields task_id version db h fit =
        let holds = held-updated_row e w task fields scope.user_id in
        changed-IsValid (editable e scope task_id version)
          (updated_row e w task fields scope.user_id) (λ r. (holds r).1.0) (λ r. (holds r).1.1)
          (λ r. (holds r).1.7) (λ r. (holds r).2) db h fit

    IsValid-Statements : Statements e w (IsValid e) (λ scope key. Unit)
    IsValid-Statements = record {
      claims = λ scope rpc key digest caller db u after h ran.
          (claims-IsValid scope rpc key digest caller db u after h ran, tt);
      records = λ scope key bytes db own. records-IsValid scope key bytes db;
      counts = counts-IsValid;
      inserts = inserts-IsValid;
      updates = updates-IsValid;
      deletes = λ scope now task_id version db h fit.
          changed-IsValid (deletable e scope task_id version) (deleted_row e w now) (λ r. refl)
            (λ r. refl) (λ r. refl) (λ r. refl) db h fit;
    }

    -- Tables that are valid stay valid through any sequence of RPCs, whatever the pool and the
    -- engine answer each of them, commits that took effect unheard included.
    pub run-IsValid :
        (calls : List (Request × Weather)) (db : Db) → IsValid e db → IsValid e (run e w calls db)
    run-IsValid = run-Keeps e w (IsValid e) (λ scope key. Unit) IsValid-Statements
