-- ===== src/Tests/Fixtures.antt =====
-- An engine that compares bytes, a wire that encodes, and the data that the tests share.
use task_db.Prelude.{
  ℕ, zero, suc, ◌==◌, Text, codes, text_eq, text_le, text_eq_refl, text_eq_iff, Bool, true, false,
  not, ◌&&◌, Option, none, some, List, [], ◌∷◌, ◌++◌, length, pos, ◌≡◌, refl, ap, ◌∙◌, sym,
}
use task_db.Proto.{Scope, InheritedSetting, Task}
use task_db.Engine.{Engine, DatabaseError, TaskRow, Db}
use task_db.Wire.{Wire}
use task_db.Txn.{Weather}
use task_db.Tests.Format.{create_response, update_response, delete_response}

abbrev violation : Bool → Text → DatabaseError
violation unique message = record {
  code = some (codes "23000");
  number = some 1062;
  message = message;
  is_unique_violation = unique;
}

pub bytes_sym : (s t : Text) → text_eq s t ≡ true → text_eq t s ≡ true
bytes_sym s t h = (text_eq_iff t s).1 (sym ((text_eq_iff s t).0 h))

pub bytes_trans : (s t u : Text) → text_eq s t ≡ true → text_eq t u ≡ true → text_eq s u ≡ true
bytes_trans s t u h k = (text_eq_iff s u).1 ((text_eq_iff s t).0 h ∙ (text_eq_iff t u).0 k)

-- A binary collation, and MariaDB's errors as it words them.
abbrev pub binary : Engine
binary = record {
  same = text_eq;
  before = λ s t. text_le s t && not (text_eq s t);
  same_char = ◌==◌;
  duplicate = violation true (codes "Duplicate entry");
  title_too_long = record (violation false (codes "CONSTRAINT `ck_task_title_len` failed")) {
    number = some 4025;
  };
  out_of_range = record {
    code = some (codes "22003");
    number = some 1690;
    message = codes "BIGINT UNSIGNED value is out of range";
    is_unique_violation = false;
  };
  same_refl = text_eq_refl;
  same_sym = bytes_sym;
  same_trans = bytes_trans;
  duplicate_is_unique = refl;
  title_code = refl;
  title_number = refl;
  title_names_check = refl;
}

-- Bytes cut or filled up to a length: in the place of SHA-256, for tests only.
abbrev pub padded : ℕ → List ℕ → List ℕ
padded zero l = []
padded (suc n) [] = 0 ∷ padded n []
padded (suc n) (b ∷ l) = b ∷ padded n l

pub length-padded : (n : ℕ) (l : List ℕ) → length (padded n l) ≡ n
length-padded zero l = refl
length-padded (suc n) [] = ap suc (length-padded n [])
length-padded (suc n) (b ∷ l) = ap suc (length-padded n l)

abbrev title_bytes : Option Task → List ℕ
title_bytes none = []
title_bytes (some t) = t.title

abbrev pub plain : Wire
plain = record {
  create_request = λ r. title_bytes r.task;
  update_request = λ r. r.id ++ title_bytes r.task;
  delete_request = λ r. r.expect_version ∷ r.id;
  create_response = create_response;
  update_response = update_response;
  delete_response = delete_response;
  sha256 = padded 32;
  length-sha256 = length-padded 32;
}

abbrev pub setting_on : InheritedSetting
setting_on = record {
  org_value = pos 2;
  org_locked = false;
  team_override = (codes "t3", pos 1) ∷ (codes "", pos 1) ∷ [];
}

abbrev pub alice : Scope
alice = record {
  user_id = codes "alice";
  project_id = codes "acme_x";
  team_ids = codes "t1" ∷ [];
  instance_id = [];
  request_id = [];
  owner_reads_own_record = some setting_on;
}

abbrev pub row : TaskRow
row = record {
  id = codes "yadgar:task:1";
  version = 1;
  project_id = codes "acme_x/forecast";
  owner_user_id = codes "alice";
  team_id = codes "t2";
  visibility = pos 2;
  created_by = codes "alice";
  updated_by = codes "alice";
  deleted_at = none;
  number = 1;
  title = codes "First";
  body = [];
  status = pos 1;
  tags = some [];
  links = some [];
}

abbrev pub calm : Weather
calm = record {
  pool = record { ceiling = 5000; bound = 300; wait = 2; failure = none };
  script = [];
}

abbrev pub empty_db : Db
empty_db = record { tasks = []; counters = []; writes = [] }
