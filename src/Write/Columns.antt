-- ===== src/Write/Columns.antt =====
-- The columns that an UpdateTask of src/write.rs writes, and those that it leaves alone.
use task_db.Prelude.{
  ◌+◌, ℤ, Text, text_eq, Bool, ◌||◌, Option, some, List, [], ◌∷◌, exists, as_i8, if◌then◌else◌, ◌≡◌,
  refl, ◌∙◌, ap, arith,
}
use task_db.Proto.{Task}
use task_db.Engine.{Engine, TaskRow}
use task_db.Wire.{Wire}
use task_db.Write.Update.{updated_row, assign, assign_all}
use task_db.Write.Mask.{Field, title, body, status, tags, links, column}

-- What a field of a record holds.
pub data Held : Type 0 where
  text_held : Text → Held
  status_held : ℤ → Held
  list_held : Option (List Text) → Held

abbrev pub held : Field → TaskRow → Held
held title r = text_held r.title
held body r = text_held r.body
held status r = status_held r.status
held tags r = list_held r.tags
held links r = list_held r.links

-- What a request sends for a field; a status is stored in eight bits.
abbrev pub sent : Field → Task → Held
sent title t = text_held t.title
sent body t = text_held t.body
sent status t = status_held (as_i8 t.status)
sent tags t = list_held (some t.tags)
sent links t = list_held (some t.links)

abbrev pub same_field : Field → Field → Bool
same_field f g = text_eq (column f) (column g)

nested :
    {A : Type 0} (a b : Bool) (x y : A)
    → (if b then x else if a then x else y) ≡ (if a || b then x else y)
nested a b x y = ground arith

-- A field that a mask names.
abbrev pub is_named : Field → List Field → Bool
is_named f fields = exists (same_field f) fields

-- The fields of the mask as they were sent, and the rest of the row as it was.
abbrev with_sent : Task → List Field → TaskRow → TaskRow
with_sent task fields r = record r {
  title = if is_named title fields then task.title else r.title;
  body = if is_named body fields then task.body else r.body;
  status = if is_named status fields then as_i8 task.status else r.status;
  tags = if is_named tags fields then some task.tags else r.tags;
  links = if is_named links fields then some task.links else r.links;
}

-- What an update is to make of a row.
abbrev pub edited_row : Task → List Field → Text → TaskRow → TaskRow
edited_row task fields user r = record (with_sent task fields r) {
  version = r.version + 1;
  updated_by = user;
}

module _ (e : Engine) (w : Wire) (task : Task) where
  assign_all-eq-with_sent :
      (fields : List Field) (r : TaskRow) → assign_all e w task fields r ≡ with_sent task fields r
  assign_all-eq-with_sent [] r = refl
  assign_all-eq-with_sent (title ∷ fields) r =
      assign_all-eq-with_sent fields (assign e w task title r) ∙ ground arith
  assign_all-eq-with_sent (body ∷ fields) r =
      assign_all-eq-with_sent fields (assign e w task body r) ∙ ground arith
  assign_all-eq-with_sent (status ∷ fields) r =
      assign_all-eq-with_sent fields (assign e w task status r) ∙ ground arith
  assign_all-eq-with_sent (tags ∷ fields) r =
      assign_all-eq-with_sent fields (assign e w task tags r) ∙ ground arith
  assign_all-eq-with_sent (links ∷ fields) r =
      assign_all-eq-with_sent fields (assign e w task links r) ∙ ground arith

  pub updated_row-eq-edited_row :
      (fields : List Field) (user : Text) (r : TaskRow)
      → updated_row e w task fields user r ≡ edited_row task fields user r
  updated_row-eq-edited_row fields user r =
      ap (λ (q : TaskRow). record q { version = q.version + 1; updated_by = user })
        (assign_all-eq-with_sent fields r)

  held-assign :
      (f g : Field) (r : TaskRow)
      → held f (assign e w task g r) ≡ (if same_field f g then sent f task else held f r)
  held-assign title title r = refl
  held-assign title body r = refl
  held-assign title status r = refl
  held-assign title tags r = refl
  held-assign title links r = refl
  held-assign body title r = refl
  held-assign body body r = refl
  held-assign body status r = refl
  held-assign body tags r = refl
  held-assign body links r = refl
  held-assign status title r = refl
  held-assign status body r = refl
  held-assign status status r = refl
  held-assign status tags r = refl
  held-assign status links r = refl
  held-assign tags title r = refl
  held-assign tags body r = refl
  held-assign tags status r = refl
  held-assign tags tags r = refl
  held-assign tags links r = refl
  held-assign links title r = refl
  held-assign links body r = refl
  held-assign links status r = refl
  held-assign links tags r = refl
  held-assign links links r = refl

  held-assign_all :
      (f : Field) (fields : List Field) (r : TaskRow)
      → held f (assign_all e w task fields r)
        ≡ (if exists (same_field f) fields then sent f task else held f r)
  held-assign_all f [] r = refl
  held-assign_all f (g ∷ fields) r =
      held-assign_all f fields (assign e w task g r)
      ∙ (rw (held-assign f g r)
          (nested (same_field f g) (exists (same_field f) fields) (sent f task) (held f r)))

  -- What no mask names, `version` and `updated_by` aside.
  abbrev pub SameRecord : TaskRow → TaskRow → Type 0
  SameRecord r q =
      (q.id ≡ r.id)
      × (q.project_id ≡ r.project_id)
      × (q.owner_user_id ≡ r.owner_user_id)
      × (q.team_id ≡ r.team_id)
      × (q.visibility ≡ r.visibility)
      × (q.created_by ≡ r.created_by)
      × (q.deleted_at ≡ r.deleted_at)
      × (q.number ≡ r.number)

  pub assign_all-SameRecord :
      (fields : List Field) (r : TaskRow)
      → SameRecord r (assign_all e w task fields r)
        × ((assign_all e w task fields r).version ≡ r.version)
  assign_all-SameRecord [] r = ground arith
  assign_all-SameRecord (title ∷ fields) r =
      assign_all-SameRecord fields (record r { title = task.title })
  assign_all-SameRecord (body ∷ fields) r =
      assign_all-SameRecord fields (record r { body = task.body })
  assign_all-SameRecord (status ∷ fields) r =
      assign_all-SameRecord fields (record r { status = as_i8 task.status })
  assign_all-SameRecord (tags ∷ fields) r =
      assign_all-SameRecord fields (record r { tags = some task.tags })
  assign_all-SameRecord (links ∷ fields) r =
      assign_all-SameRecord fields (record r { links = some task.links })

  -- The row that an update makes: a field of the mask holds what was sent, any other field what it
  -- held, the version is the next, the caller is the last writer, and no other column that the
  -- service keeps has changed.
  pub held-updated_row :
      (fields : List Field) (user : Text) (r : TaskRow)
      → ((f : Field)
          → held f (updated_row e w task fields user r)
            ≡ (if exists (same_field f) fields then sent f task else held f r))
        × SameRecord r (updated_row e w task fields user r)
        × ((updated_row e w task fields user r).version ≡ r.version + 1)
        × ((updated_row e w task fields user r).updated_by ≡ user)
  held-updated_row fields user r =
      let (same, version_is) = assign_all-SameRecord fields r in
      ((λ f. kept_by_record f fields), same, ap (λ n. n + 1) version_is, refl)
    where
      kept_by_record :
          (f : Field) (fields : List Field)
          → held f (updated_row e w task fields user r)
            ≡ (if exists (same_field f) fields then sent f task else held f r)
      kept_by_record title fields = held-assign_all title fields r
      kept_by_record body fields = held-assign_all body fields r
      kept_by_record status fields = held-assign_all status fields r
      kept_by_record tags fields = held-assign_all tags fields r
      kept_by_record links fields = held-assign_all links fields r
