-- ===== src/Engine.antt =====
-- The engine as far as the statements of src/ rely on it: the rows of its tables (src/schema.rs),
-- the values that are bound, and what the collation of the columns and sqlx's errors are. MariaDB
-- and sqlx are not part of the repository: their behaviour is the record `Engine`, a parameter.
use task_db.Prelude.{
  ℕ, ℤ, Text, codes, contains, int_eq, ◌==◌, Bool, true, false, Option, some, List, ◌≡◌,
}

-- `sqlx::error::DatabaseError`: the SQLSTATE, MariaDB's own number, and the message.
pub record DatabaseError : Type 0 where
  pub code : Option Text
  pub number : Option ℕ
  pub message : Text
  pub is_unique_violation : Bool

-- `sqlx::Error`, the variants that the source tells apart.
pub data SqlxError : Type 0 where
  pool_timed_out : SqlxError
  database : DatabaseError → SqlxError
  row_not_found : SqlxError
  other : SqlxError

-- The name of migration 7's constraint.
abbrev pub title_check : Text
title_check = codes "ck_task_title_len"

-- What the statements rely on: `=` and `<` of the columns' collation, the characters that LIKE
-- takes for one, and the errors of a broken UNIQUE key, of the title CHECK and of a number that
-- leaves its column.
pub record Engine : Type 0 where
  pub same : Text → Text → Bool
  pub before : Text → Text → Bool
  pub same_char : ℕ → ℕ → Bool
  pub duplicate : DatabaseError
  pub title_too_long : DatabaseError
  pub out_of_range : DatabaseError
  pub same_refl : (s : Text) → same s s ≡ true
  pub same_sym : (s t : Text) → same s t ≡ true → same t s ≡ true
  pub same_trans : (s t u : Text) → same s t ≡ true → same t u ≡ true → same s u ≡ true
  pub duplicate_is_unique : duplicate.is_unique_violation ≡ true
  pub title_code : title_too_long.code ≡ some (codes "23000")
  pub title_number : title_too_long.number ≡ some 4025
  pub title_names_check : contains title_check title_too_long.message ≡ true

-- A row of the table `task`. `created_at` and `updated_at` are the engine's alone: no statement of
-- the service reads or writes them. A JSON column is what sqlx decodes it to, `none` where it does
-- not decode to a list of strings.
pub record TaskRow : Type 0 where
  pub id : Text
  pub version : ℕ
  pub project_id : Text
  pub owner_user_id : Text
  pub team_id : Text
  pub visibility : ℤ
  pub created_by : Text
  pub updated_by : Text
  pub deleted_at : Option ℕ
  pub number : ℕ
  pub title : Text
  pub body : Text
  pub status : ℤ
  pub tags : Option (List Text)
  pub links : Option (List Text)

-- A row of `task_counter`.
pub record CounterRow : Type 0 where
  pub project_id : Text
  pub next_number : ℕ

-- A row of `task_write`; a response is its encoded bytes.
pub record WriteRow : Type 0 where
  pub project_id : Text
  pub user_id : Text
  pub idem_key : Text
  pub rpc : Text
  pub response : List ℕ
  pub request_fingerprint : Option (List ℕ)
  pub caller_fingerprint : Option (List ℕ)

pub record Db : Type 0 where
  pub tasks : List TaskRow
  pub counters : List CounterRow
  pub writes : List WriteRow

-- A parameter that a query binds, and a column's value.
pub data Value : Type 0 where
  text : Text → Value
  unsigned : ℕ → Value
  tiny : ℤ → Value

-- `=` between a column and a parameter. No statement binds a value of another kind.
abbrev pub same_value : Engine → Value → Value → Bool
same_value e (text a) (text b) = e.same a b
same_value e (unsigned a) (unsigned b) = a == b
same_value e (tiny a) (tiny b) = int_eq a b
same_value e (text a) (unsigned b) = false
same_value e (text a) (tiny b) = false
same_value e (unsigned a) (text b) = false
same_value e (unsigned a) (tiny b) = false
same_value e (tiny a) (text b) = false
same_value e (tiny a) (unsigned b) = false
