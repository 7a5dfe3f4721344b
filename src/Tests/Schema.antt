-- ===== src/Tests/Schema.antt =====
-- The migrations of src/schema.rs on a concrete database.
use task_db.Prelude.{
  codes, false, pos, none, some, List, [], ◌∷◌, exists, ◌≡◌, ◌↔◌, true, refl, arith,
}
use task_db.Engine.{TaskRow}
use task_db.Sql.Axes.{may_edit, may_read}
use task_db.Schema.{Stored, all, healed, is_rung, too_long}
use task_db.Schema.Healing.{heals}
use task_db.Schema.Order.{in_order, after}
use task_db.Schema.Upgrade.{at_version_2, at_head, upgraded, upgrade_refused, upgrade-IsValid}
use task_db.History.Valid.{IsValid}
use task_db.Tests.Fixtures.{binary, alice, row}

-- A deleted row with the greatest number, and one of no rung.
abbrev old_rows : List TaskRow
old_rows =
    record row { id = codes "yadgar:task:2"; number = 2; deleted_at = some 7 }
    ∷ record row { visibility = pos 0 }
    ∷ []

abbrev nothing : Stored
nothing = record {
  tasks = none;
  counters = none;
  writes = none;
  has_tags_and_links = false;
  title_is_checked = false;
  has_request_fingerprint = false;
  has_caller_fingerprint = false;
}

-- The whole list runs on an empty database.
installs : in_order binary all nothing ≡ some (at_head (upgraded binary []))
installs = refl

heals_example :
    let old = record row { visibility = pos 0 } in
    (is_rung (healed old).visibility ≡ true)
    × (healed (healed old) ≡ healed old)
    × (may_edit binary alice (healed old) ≡ may_edit binary alice old)
    × (may_read binary alice (healed old) ≡ may_read binary alice old)
heals_example = heals binary alice (record row { visibility = pos 0 })

upgrade_refused_example :
    (in_order binary (after 2) (at_version_2 old_rows) ≡ none) ↔ (exists too_long old_rows ≡ true)
upgrade_refused_example = upgrade_refused binary old_rows

upgrade-IsValid_example :
    (in_order binary (after 2) (at_version_2 old_rows) ≡ some (at_head (upgraded binary old_rows)))
    × IsValid binary (upgraded binary old_rows)
upgrade-IsValid_example =
    upgrade-IsValid binary old_rows (refl, (refl, tt))
      ((omega arith, omega arith, refl), ((omega arith, omega arith, refl), tt)) refl
