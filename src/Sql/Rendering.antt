-- ===== src/Sql/Rendering.antt =====
-- The texts that the clauses of src/sql.rs render, as the source writes them.
use task_db.Prelude.{codes, some, [], ◌∷◌, pos, false, ◌≡◌, refl}
use task_db.Proto.{Scope}
use task_db.Sql.{reach_of, within, predicate, visible, subtree}
use task_db.Sql.Where.{render}

abbrev caller : Scope
caller = record {
  user_id = codes "u";
  project_id = codes "a/b";
  team_ids = codes "t1" ∷ codes "t2" ∷ [];
  instance_id = [];
  request_id = [];
  owner_reads_own_record =
      some (record {
        org_value = pos 2;
        org_locked = false;
        team_override = (codes "t3", pos 1) ∷ [];
      });
}

predicate_text :
    render (predicate (reach_of caller))
    ≡ "(project_id = ? OR project_id LIKE ? ESCAPE '\\\\') AND (visibility = 3 OR (visibility NOT IN (2, 3) AND owner_user_id = ?) OR (visibility = 2 AND team_id IN (?, ?)))"
unfolding render predicate within visible reach_of
predicate_text = refl

loner_text :
    render (visible (reach_of (record caller { team_ids = [] })))
    ≡ "(visibility = 3 OR (visibility NOT IN (2, 3) AND owner_user_id = ?))"
unfolding render visible reach_of
loner_text = refl

subtree_text : subtree (codes "a_%\\") ≡ codes "a\\_\\%\\\\/%"
unfolding subtree
subtree_text = refl
