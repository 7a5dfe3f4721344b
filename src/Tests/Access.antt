-- ===== src/Tests/Access.antt =====
-- src/sql.rs at a caller and a row: alice owns a record shared with a team that she has left.
use task_db.Prelude.{
  ◌+◌, leb, ◌&&◌, if◌then◌else◌, map, pos, Text, text_eq, text_eq_refl, codes, starts_with, ◌==◌,
  some, true, false, List, [], ◌∷◌, ◌++◌, ◌≡◌, refl,
}
use task_db.Status.{ok}
use task_db.Engine.{Engine, TaskRow, Value, unsigned}
use task_db.Proto.{Scope}
use task_db.Setting.{OwnerReach, owner_reach, resolve, team_the_setting_does_not_name}
use task_db.Sql.{
  reach_of, subtree, within, visible, predicate, Readable, with_arm, readable, read_predicate, bind,
  bind_readable,
}
use task_db.Sql.Where.{Clause, eval, like_text}
use task_db.Sql.Pattern.{like-subtree}
use task_db.Sql.Axes.{may_edit, may_read, may_read_resolved, Separates}
use task_db.Sql.Access.{
  predicate-eq-may_edit, read_predicate-eq-may_read, read_predicate-eq-resolved,
  read_predicate_by_collation,
}
use task_db.Tests.Fixtures.{binary, bytes_sym, bytes_trans, alice, row}

-- The `_` of `acme_x` is no wildcard.
like-subtree_example :
    like_text ◌==◌ (subtree (codes "acme_x")) (codes "acmeXx/secret")
    ≡ starts_with ◌==◌ (codes "acme_x" ++ codes "/") (codes "acmeXx/secret")
like-subtree_example = like-subtree ◌==◌ (codes "acme_x") (codes "acmeXx/secret")

abbrev rest : List Value
rest = unsigned 51 ∷ []

not_editable : may_edit binary alice row ≡ false
not_editable = refl

is_readable : may_read binary alice row ≡ true
unfolding owner_reach
is_readable = refl

predicate-eq-may_edit_example :
    eval binary (predicate (reach_of alice)) row (bind (reach_of alice) [] ++ rest)
    ≡ some (may_edit binary alice row, rest)
predicate-eq-may_edit_example = predicate-eq-may_edit binary alice row rest

abbrev pub alice_clause : Readable
unfolding within visible with_arm reach_of
alice_clause = record {
  sql =
      Clause.both (within (reach_of alice))
        (with_arm (visible (reach_of alice)) (codes "alice")
          (record { default_on = true; exceptions = codes "" ∷ codes "t3" ∷ [] })).sql;
  binds = codes "alice" ∷ codes "" ∷ codes "t3" ∷ [];
}

pub alice_reads : read_predicate (reach_of alice) ≡ ok alice_clause
unfolding read_predicate readable owner_reach within visible with_arm reach_of
alice_reads = refl

pub separates : Separates binary alice.owner_reads_own_record (codes "t2")
separates t named = refl

read_predicate-eq-may_read_example :
    eval binary alice_clause.sql row (bind_readable alice_clause (bind (reach_of alice) []) ++ rest)
    ≡ some (may_read binary alice row, rest)
read_predicate-eq-may_read_example = read_predicate-eq-may_read binary alice row rest alice_reads

abbrev alice_reach : OwnerReach
alice_reach = record { default_on = true; exceptions = codes "" ∷ codes "t3" ∷ [] }

alice_reaches : owner_reach alice.owner_reads_own_record ≡ ok alice_reach
unfolding owner_reach
alice_reaches = refl

read_predicate-eq-resolved_example :
    eval binary alice_clause.sql row (bind_readable alice_clause (bind (reach_of alice) []) ++ rest)
    ≡ some (may_read_resolved binary alice row, rest)
read_predicate-eq-resolved_example =
    read_predicate-eq-resolved binary alice row rest {g = alice_reach} separates alice_reaches
      alice_reads

-- A collation that ignores the case of ASCII letters.
abbrev lower : Text → Text
lower = map (λ c. if leb 65 c && leb c 90 then c + 32 else c)

abbrev folding : Engine
folding = record binary {
  same = λ s t. text_eq (lower s) (lower t);
  same_refl = λ s. text_eq_refl (lower s);
  same_sym = λ s t. bytes_sym (lower s) (lower t);
  same_trans = λ s t u. bytes_trans (lower s) (lower t) (lower u);
}

-- The setting is OFF, but ON for the team `t3`; the row is of the team `T3`.
abbrev bob : Scope
bob = record alice {
  owner_reads_own_record =
      some (record {
        org_value = pos 1;
        org_locked = false;
        team_override = (codes "t3", pos 2) ∷ [];
      });
}

abbrev shouted : TaskRow
shouted = record row { team_id = codes "T3" }

abbrev bob_clause : Readable
unfolding within visible with_arm reach_of
bob_clause = record {
  sql =
      Clause.both (within (reach_of bob))
        (with_arm (visible (reach_of bob)) (codes "alice")
          (record { default_on = false; exceptions = codes "t3" ∷ [] })).sql;
  binds = codes "alice" ∷ codes "t3" ∷ [];
}

bob_reads : read_predicate (reach_of bob) ≡ ok bob_clause
unfolding read_predicate readable owner_reach within visible with_arm reach_of
bob_reads = refl

read_predicate_by_collation_example :
    (eval folding bob_clause.sql shouted (bind_readable bob_clause (bind (reach_of bob) []) ++ rest)
      ≡ some (true, rest))
    × (may_read_resolved folding bob shouted ≡ false)
unfolding resolve team_the_setting_does_not_name
read_predicate_by_collation_example =
    read_predicate_by_collation folding bob shouted rest (codes "t3") refl refl refl refl refl refl
      refl refl bob_reads
