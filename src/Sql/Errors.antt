-- ===== src/Sql/Errors.antt =====
-- src/sql/status.rs: how an engine error becomes a status.
use task_db.Prelude.{
  ℕ, Text, codes, contains, text_eq, Bool, false, ◌&&◌, ◌||◌, Option, none, some, ◌==◌,
  if◌then◌else◌,
}
use task_db.Engine.{
  DatabaseError, SqlxError, pool_timed_out, database, row_not_found, other, title_check,
}
use task_db.Status.{
  Status, invalid_argument, aborted, unavailable, internal as internal_code, no_free_connection,
  not_serialised, title_too_long, storage_error,
}

abbrev is_code : Text → Option Text → Bool
is_code c none = false
is_code c (some d) = text_eq d c

abbrev is_contention : Option ℕ → Bool
is_contention none = false
is_contention (some n) = n == 1205 || n == 1213

unfoldable pub contended : DatabaseError → Bool
contended db = is_code (codes "40001") db.code || is_contention db.number

unfoldable pub title_check_failed : DatabaseError → Bool
title_check_failed db = is_code (codes "23000") db.code && contains title_check db.message

unfoldable pub engine_status : DatabaseError → Option Status
unfolding contended title_check_failed
engine_status db =
    if contended db
    then some (record { code = aborted; message = not_serialised })
    else if title_check_failed db
    then some (record { code = invalid_argument; message = title_too_long })
    else none

abbrev opaque : Status
opaque = record { code = internal_code; message = storage_error }

abbrev or_opaque : Option Status → Status
or_opaque (some s) = s
or_opaque none = opaque

unfoldable pub internal : SqlxError → Status
unfolding engine_status
internal pool_timed_out = record { code = unavailable; message = no_free_connection }
internal (database db) = or_opaque (engine_status db)
internal row_not_found = opaque
internal other = opaque
