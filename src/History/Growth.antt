-- ===== src/History/Growth.antt =====
-- What no sequence of RPCs of src/service.rs takes back: a record's identity, its number, its stamp of
-- deletion, the claims of the ledger, and the numbers that a project has given out.
use task_db.Prelude.{
  ℕ, ◌≤◌, ◌+◌, Text, Bool, true, false, Bool-cases, Option, is_some, List, ◌≡◌, refl, ◌∙◌, ap, inl,
  inr, arith,
}
use task_db.Proto.{Scope, Task}
use task_db.Engine.{Engine, TaskRow, CounterRow, WriteRow, Db}
use task_db.Wire.{Wire}
use task_db.Txn.{Weather, done}
use task_db.Tables.{is_claim, insert_claim, set_response, next_counter, insert_task}
use task_db.Idem.Taking.{claim_row}
use task_db.Write.Create.{new_row}
use task_db.Write.Delete.{deleted_row}
use task_db.Write.Update.{updated_row}
use task_db.Write.Created.{insert_task-eq-done}
use task_db.Write.Columns.{held-updated_row}
use task_db.Write.Mask.{Field}
use task_db.Write.Numbering.{last_number}
use task_db.Write.Selection.{set_where, editable, deletable}
use task_db.Service.{Request}
use task_db.History.{Statements, run}
use task_db.History.Runs.{run-Keeps}
use task_db.History.Collation.{next_counter_grows}
use task_db.History.Keys.{
  at_test, set_where-eq-map, with_response, set_response-eq-map, claim_inserted,
}
use task_db.History.Extends.{Extends, Extends-refl, Extends-append, Extends-map}

-- What a row may become: the same record at the same or a later version. At the same version it is
-- the same row, and a row that was deleted stays as it is.
pub record RowGrows (r q : TaskRow) : Type 0 where
  pub same_id : q.id ≡ r.id
  pub same_project : q.project_id ≡ r.project_id
  pub same_owner : q.owner_user_id ≡ r.owner_user_id
  pub same_team : q.team_id ≡ r.team_id
  pub same_visibility : q.visibility ≡ r.visibility
  pub same_creator : q.created_by ≡ r.created_by
  pub same_number : q.number ≡ r.number
  pub version_grows : r.version ≤ q.version
  pub same_version : q.version ≡ r.version → q ≡ r
  pub stays_deleted : is_some r.deleted_at ≡ true → q ≡ r

-- What a claim may become: its response is written, and nothing else.
abbrev pub ClaimGrows : WriteRow → WriteRow → Type 0
ClaimGrows v u = u ≡ record v { response = u.response }

pub record Grows (e : Engine) (before after : Db) : Type 0 where
  pub tasks_grow : Extends RowGrows before.tasks after.tasks
  pub claims_grow : Extends ClaimGrows before.writes after.writes
  pub numbers_grow :
      (project : Text)
      → last_number e project before.counters ≤ last_number e project after.counters

RowGrows-refl : (r : TaskRow) → RowGrows r r
RowGrows-refl r = record {
  same_id = refl;
  same_project = refl;
  same_owner = refl;
  same_team = refl;
  same_visibility = refl;
  same_creator = refl;
  same_number = refl;
  version_grows = omega arith;
  same_version = λ h. refl;
  stays_deleted = λ h. refl;
}

RowGrows-trans : (r q s : TaskRow) → RowGrows r q → RowGrows q s → RowGrows r s
RowGrows-trans r q s h k = record {
  same_id = k.same_id ∙ h.same_id;
  same_project = k.same_project ∙ h.same_project;
  same_owner = k.same_owner ∙ h.same_owner;
  same_team = k.same_team ∙ h.same_team;
  same_visibility = k.same_visibility ∙ h.same_visibility;
  same_creator = k.same_creator ∙ h.same_creator;
  same_number = k.same_number ∙ h.same_number;
  version_grows = omega (arith, h.version_grows, k.version_grows);
  same_version = λ v.
      k.same_version (omega (arith, v, h.version_grows, k.version_grows))
      ∙ h.same_version (omega (arith, v, h.version_grows, k.version_grows));
  stays_deleted = λ gone. let q_is = h.stays_deleted gone in k.stays_deleted (rw q_is gone) ∙ q_is;
}

-- The next version of a row that was not deleted.
next_version :
    (r q : TaskRow)
    → is_some r.deleted_at ≡ false
    → (q.id ≡ r.id)
      × (q.project_id ≡ r.project_id)
      × (q.owner_user_id ≡ r.owner_user_id)
      × (q.team_id ≡ r.team_id)
      × (q.visibility ≡ r.visibility)
      × (q.created_by ≡ r.created_by)
      × (q.number ≡ r.number)
      × (q.version ≡ r.version + 1)
    → RowGrows r q
next_version r q alive (ids, projects, owners, teams, seen, creators, numbers, versions) = record {
  same_id = ids;
  same_project = projects;
  same_owner = owners;
  same_team = teams;
  same_visibility = seen;
  same_creator = creators;
  same_number = numbers;
  version_grows = omega (arith, versions);
  same_version = λ v. absurd (omega (arith, v, versions));
  stays_deleted = λ gone. cc;
}

module _ (e : Engine) (w : Wire) where
  Grows-refl : (db : Db) → Grows e db db
  Grows-refl db = record {
    tasks_grow = Extends-refl RowGrows RowGrows-refl db.tasks;
    claims_grow = Extends-refl ClaimGrows (λ v. refl) db.writes;
    numbers_grow = λ project. omega arith;
  }

  module _ (start : Db) where
    claims-Grows :
        (scope : Scope) (rpc key : Text) (digest : List ℕ) (caller : Option (List ℕ)) (db : Db)
        (u : Unit {0}) (after : Db)
        → Grows e start db
        → insert_claim e scope key (claim_row scope rpc key digest caller) db ≡ done (u, after)
        → Grows e start after
    claims-Grows scope rpc key digest caller db u after h ran =
        let row = claim_row scope rpc key digest caller in
        let (free, after_is) = claim_inserted e scope key row db ran in
        rw after_is (record {
          tasks_grow = h.tasks_grow;
          claims_grow = Extends-append ClaimGrows start.writes db.writes row h.claims_grow;
          numbers_grow = h.numbers_grow;
        })

    written :
        (scope : Scope) (key : Text) (bytes : List ℕ) (v u : WriteRow)
        → ClaimGrows v u
        → ClaimGrows v (with_response e scope key bytes u)
    written scope key bytes v u h = elim (Bool-cases (is_claim e scope key u)) [
      | inl hit ↦ rw hit (ap {A = WriteRow} {B = WriteRow} (λ x. record x { response = bytes }) h)
      | inr miss ↦ rw miss h
    ]

    records-Grows :
        (scope : Scope) (key : Text) (bytes : List ℕ) (db : Db)
        → Grows e start db
        → Grows e start (record db { writes = set_response e scope key bytes db.writes })
    records-Grows scope key bytes db h = record {
      tasks_grow = h.tasks_grow;
      claims_grow = rw (set_response-eq-map e scope key bytes db.writes) (
          Extends-map ClaimGrows (with_response e scope key bytes) (written scope key bytes)
            start.writes db.writes h.claims_grow);
      numbers_grow = h.numbers_grow;
    }

    counts-Grows :
        (project : Text) (db : Db) (counters : List CounterRow)
        → Grows e start db
        → next_counter e project db.counters ≡ done counters
        → Grows e start (record db { counters = counters })
    counts-Grows project db counters h moved = record {
      tasks_grow = h.tasks_grow;
      claims_grow = h.claims_grow;
      numbers_grow = λ other.
          omega (arith, h.numbers_grow other, next_counter_grows e project other db.counters moved);
    }

    inserts-Grows :
        (row : TaskRow) (db : Db) (u : Unit {0}) (after : Db)
        → Grows e start db
        → insert_task e row db ≡ done (u, after)
        → Grows e start after
    inserts-Grows row db u after h ran =
        let (fits, free, after_is) = insert_task-eq-done e w row db ran in
        rw after_is (record {
          tasks_grow = Extends-append RowGrows start.tasks db.tasks row h.tasks_grow;
          claims_grow = h.claims_grow;
          numbers_grow = h.numbers_grow;
        })

    changed-Grows :
        (test : TaskRow → Bool) (f : TaskRow → TaskRow)
        → ((r : TaskRow) → test r ≡ true → RowGrows r (f r))
        → (db : Db) → Grows e start db
        → Grows e start (record db { tasks = set_where test f db.tasks })
    changed-Grows test f step db h = record {
      tasks_grow =
          rw (set_where-eq-map test f db.tasks)
            (Extends-map RowGrows (at_test test f) moved start.tasks db.tasks h.tasks_grow);
      claims_grow = h.claims_grow;
      numbers_grow = h.numbers_grow;
    }
      where
        moved : (r q : TaskRow) → RowGrows r q → RowGrows r (at_test test f q)
        moved r q grown = elim (Bool-cases (test q)) [
          | inl hit ↦ rw hit (RowGrows-trans r q (f q) grown (step q hit))
          | inr miss ↦ rw miss grown
        ]

    editable_grows :
        (scope : Scope) (task : Task) (fields : List Field) (task_id : Text) (version : ℕ)
        (r : TaskRow)
        → editable e scope task_id version r ≡ true
        → RowGrows r (updated_row e w task fields scope.user_id r)
    editable_grows scope task fields task_id version r hit =
        let (held_is, same, versions, by) = held-updated_row e w task fields scope.user_id r in
        let (ids, projects, owners, teams, seen, creators, gone, numbers) = same in
        next_version r (updated_row e w task fields scope.user_id r) (ground arith)
          (ids, projects, owners, teams, seen, creators, numbers, versions)

    Grows-Statements : Statements e w (Grows e start) (λ scope key. Unit)
    Grows-Statements = record {
      claims = λ scope rpc key digest caller db u after h ran.
          (claims-Grows scope rpc key digest caller db u after h ran, tt);
      records = λ scope key bytes db own. records-Grows scope key bytes db;
      counts = counts-Grows;
      inserts = λ urn scope task number.
          λ db u after h numbered. inserts-Grows (new_row urn scope number task) db u after h;
      updates = λ scope task fields task_id version db h fit.
          changed-Grows (editable e scope task_id version)
            (updated_row e w task fields scope.user_id)
            (editable_grows scope task fields task_id version) db h;
      deletes = λ scope now task_id version db h fit.
          changed-Grows (deletable e scope task_id version) (deleted_row e w now)
            (λ r hit.
              next_version r (deleted_row e w now r) (ground arith)
                (refl, refl, refl, refl, refl, refl, refl, refl))
            db h;
    }

  -- No sequence of RPCs, whatever the pool and the engine answer each of them, takes a row away, moves
  -- it, or changes its id, project, owner, team, visibility, creator or number; versions only go up, a
  -- row at an unchanged version and a deleted row are unchanged, no claim is lost or changed but for
  -- its response, and no project's counter goes back.
  pub run-Grows : (calls : List (Request × Weather)) (db : Db) → Grows e db (run e w calls db)
  run-Grows calls db =
      run-Keeps e w (Grows e db) (λ scope key. Unit) (Grows-Statements db) calls db (Grows-refl db)
