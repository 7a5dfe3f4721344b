-- ===== src/Write/Mask.antt =====
-- src/write/mask.rs: the columns that an update may write, and how an update mask names them.
use task_db.Prelude.{
  Text, codes, text_eq, Option, none, some, List, [], ◌∷◌, find, is_empty, if◌then◌else◌,
}
use task_db.Status.{Result, ok, refuse, unknown_field, ok_or, ◌>>=◌}
use task_db.Proto.{FieldMask}

pub data Field : Type 0 where
  title body status tags links : Field

-- `Field::ALL`
abbrev pub all : List Field
all = title ∷ body ∷ status ∷ tags ∷ links ∷ []

-- `Field::BEFORE_THE_MASK`
abbrev pub before_the_mask : List Field
before_the_mask = title ∷ body ∷ status ∷ []

abbrev pub column : Field → Text
column title = codes "title"
column body = codes "body"
column status = codes "status"
column tags = codes "tags"
column links = codes "links"

abbrev pub named : Text → Option Field
named path = find (λ f. text_eq (column f) path) all

unfoldable pub named_all : List Text → Result (List Field)
named_all [] = ok []
named_all (path ∷ paths) = do
  field ← ok_or (named path) (refuse (unknown_field path))
  fields ← named_all paths
  ok (field ∷ fields)

unfoldable pub fields_of : Option FieldMask → Result (List Field)
unfolding named_all
fields_of none = ok before_the_mask
fields_of (some mask) = if is_empty mask.paths then ok before_the_mask else named_all mask.paths
