-- ===== src/History.antt =====
-- What every statement of the writes (src/write.rs, src/idem.rs) keeps of the tables, every sequence
-- of RPCs (src/service.rs) keeps. A property of the tables gives the laws of `Statements`, one for
-- each statement that writes, and has the theorem of Keeping in return.
pub mod Collation
pub mod Distinct
pub mod Keys
pub mod Valid
pub mod Extends
pub mod Growth
pub mod Keeping
pub mod Serving
pub mod Runs
pub mod Durable
pub mod Retries
pub mod Lookups
pub mod Asked
use task_db.Prelude.{ℕ, ◌≤◌, Text, Option, List, [], ◌∷◌, ◌≡◌}
use task_db.Proto.{Scope, Task}
use task_db.Engine.{Engine, CounterRow, Db}
use task_db.Wire.{Wire}
use task_db.Txn.{done, Weather}
use task_db.Tables.{insert_claim, set_response, next_counter, insert_task}
use task_db.Idem.Taking.{claim_row}
use task_db.Write.Create.{new_row}
use task_db.Write.Delete.{deleted_row}
use task_db.Write.Update.{updated_row}
use task_db.Write.Mask.{Field}
use task_db.Write.Numbering.{last_number}
use task_db.Write.Selection.{set_where, editable, deletable}
use task_db.Write.Bounds.{AllFit}
use task_db.Service.{Request, serve}

-- `Own` is what is known of the key that a transaction has claimed for itself: a response is only
-- recorded under such a key.
pub record Statements (e : Engine) (w : Wire) (P : Db → Type 0) (Own : Scope → Text → Type 0)
    : Type 0 where
  pub claims :
      (scope : Scope) (rpc key : Text) (digest : List ℕ) (caller : Option (List ℕ)) (db : Db)
      (u : Unit {0}) (after : Db)
      → P db
      → insert_claim e scope key (claim_row scope rpc key digest caller) db ≡ done (u, after)
      → P after × Own scope key
  pub records :
      (scope : Scope) (key : Text) (bytes : List ℕ) (db : Db)
      → Own scope key
      → P db
      → P (record db { writes = set_response e scope key bytes db.writes })
  pub counts :
      (project : Text) (db : Db) (counters : List CounterRow)
      → P db
      → next_counter e project db.counters ≡ done counters
      → P (record db { counters = counters })
  pub inserts :
      (urn : Text) (scope : Scope) (task : Task) (number : ℕ) (db : Db) (u : Unit {0}) (after : Db)
      → P db
      → (number ≡ last_number e scope.project_id db.counters) × (1 ≤ number)
      → insert_task e (new_row urn scope number task) db ≡ done (u, after)
      → P after
  pub updates :
      (scope : Scope) (task : Task) (fields : List Field) (task_id : Text) (version : ℕ) (db : Db)
      → P db
      → let test = editable e scope task_id version in
        let change = updated_row e w task fields scope.user_id in
        AllFit test change db.tasks → P (record db { tasks = set_where test change db.tasks })
  pub deletes :
      (scope : Scope) (now : ℕ) (task_id : Text) (version : ℕ) (db : Db)
      → P db
      → let test = deletable e scope task_id version in
        let change = deleted_row e w now in
        AllFit test change db.tasks → P (record db { tasks = set_where test change db.tasks })

-- RPCs one after the other, each with what its pool and the engine answer it.
unfoldable pub run : Engine → Wire → List (Request × Weather) → Db → Db
run e w [] db = db
run e w ((req, weather) ∷ rest) db = run e w rest (serve e w req weather db).1
