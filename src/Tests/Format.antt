-- ===== src/Tests/Format.antt =====
-- A length-prefixed encoding of the responses: it shows that the assumptions on prost can be met.
use task_db.Prelude.{
  ℕ, zero, suc, ℤ, pos, negsuc, Text, Option, none, some, List, [], ◌∷◌, ◌++◌, length, ◌≡◌, refl,
  ap,
}
use mathlib.Core.List.{append_assoc, append-nil}
use task_db.Proto.{Timestamp, Meta, CreateTaskResponse, UpdateTaskResponse, DeleteTaskResponse}
use task_db.Wire.{Codec}

pub record Format (A : Type 0) : Type 0 where
  pub put : A → List ℕ
  pub get : List ℕ → Option (A × List ℕ)
  pub get-put : (a : A) (rest : List ℕ) → get (put a ++ rest) ≡ some (a, rest)

abbrev get_nat : List ℕ → Option (ℕ × List ℕ)
get_nat [] = none
get_nat (n ∷ rest) = some (n, rest)

abbrev nat : Format ℕ
nat = record { put = λ n. n ∷ []; get = get_nat; get-put = λ a rest. refl }

abbrev get_int : List ℕ → Option (ℤ × List ℕ)
get_int [] = none
get_int (s ∷ []) = none
get_int (zero ∷ n ∷ rest) = some (pos n, rest)
get_int (suc s ∷ n ∷ rest) = some (negsuc n, rest)

abbrev put_int : ℤ → List ℕ
put_int (pos n) = 0 ∷ n ∷ []
put_int (negsuc n) = 1 ∷ n ∷ []

pub get_int-put_int : (x : ℤ) (rest : List ℕ) → get_int (put_int x ++ rest) ≡ some (x, rest)
get_int-put_int (pos n) rest = refl
get_int-put_int (negsuc n) rest = refl

abbrev int : Format ℤ
int = record { put = put_int; get = get_int; get-put = get_int-put_int }

module _ {A B : Type 0} (f : Format A) where
  abbrev get_pair : Format B → List ℕ → Option ((A × B) × List ℕ)
  get_pair g l = elim (f.get l) [
    | none ↦ none
    | some (a, rest) ↦ elim (g.get rest) [ none ↦ none | some (b, last) ↦ some ((a, b), last) ]
  ]

  pub get_pair-put :
      (g : Format B) (a : A) (b : B) (rest : List ℕ)
      → get_pair g ((f.put a ++ g.put b) ++ rest) ≡ some ((a, b), rest)
  get_pair-put g a b rest =
      rw (append_assoc (f.put a) (g.put b) rest)
        (rw (f.get-put a (g.put b ++ rest), get_pair) (rw (g.get-put b rest) refl))

  abbrev pair : Format B → Format (A × B)
  pair g = record {
    put = λ p. f.put p.0 ++ g.put p.1;
    get = get_pair g;
    get-put = λ p rest. get_pair-put g p.0 p.1 rest;
  }

module _ {A : Type 0} (f : Format A) where
  abbrev get_many : ℕ → List ℕ → Option (List A × List ℕ)
  get_many zero l = some ([], l)
  get_many (suc n) l = elim (f.get l) [
    | none ↦ none
    | some (a, rest) ↦ elim (get_many n rest) [
      | none ↦ none
      | some (xs, last) ↦ some (a ∷ xs, last)
    ]
  ]

  abbrev put_many : List A → List ℕ
  put_many [] = []
  put_many (a ∷ xs) = f.put a ++ put_many xs

  pub get_many-put :
      (xs : List A) (rest : List ℕ) → get_many (length xs) (put_many xs ++ rest) ≡ some (xs, rest)
  get_many-put [] rest = refl
  get_many-put (a ∷ xs) rest =
      rw (append_assoc (f.put a) (put_many xs) rest)
        (rw (f.get-put a (put_many xs ++ rest)) (rw (get_many-put xs rest) refl))

  abbrev get_list : List ℕ → Option (List A × List ℕ)
  get_list [] = none
  get_list (n ∷ l) = get_many n l

  abbrev list : Format (List A)
  list = record { put = λ xs. length xs ∷ put_many xs; get = get_list; get-put = get_many-put }

  abbrev put_option : Option A → List ℕ
  put_option none = 0 ∷ []
  put_option (some a) = 1 ∷ f.put a

  abbrev get_option : List ℕ → Option (Option A × List ℕ)
  get_option [] = none
  get_option (zero ∷ l) = some (none, l)
  get_option (suc n ∷ l) = elim (f.get l) [ none ↦ none | some (a, rest) ↦ some (some a, rest) ]

  pub get_option-put :
      (o : Option A) (rest : List ℕ) → get_option (put_option o ++ rest) ≡ some (o, rest)
  get_option-put none rest = refl
  get_option-put (some a) rest = rw (f.get-put a rest) refl

  abbrev option : Format (Option A)
  option = record { put = put_option; get = get_option; get-put = get_option-put }

  -- The same bytes for a type that is a tuple under other names.
  abbrev via : {B : Type 0} (to : B → A) (from : A → B) → ((b : B) → from (to b) ≡ b) → Format B
  via to from back = record {
    put = λ b. f.put (to b);
    get = λ l. elim (f.get l) [ none ↦ none | some (a, rest) ↦ some (from a, rest) ];
    get-put = λ b rest. rw (f.get-put (to b) rest) (ap (λ x. some (x, rest)) (back b));
  }

  abbrev whole : Option (A × List ℕ) → Option A
  whole none = none
  whole (some (a, [])) = some a
  whole (some (a, n ∷ l)) = none

  abbrev pub codec : Codec A
  codec = record {
    encode = f.put;
    decode = λ l. whole (f.get l);
    decode-encode = λ a. rw (← append-nil (f.put a)) (rw (f.get-put a []) refl);
  }

abbrev text : Format Text
text = list nat

abbrev timestamp : Format Timestamp
timestamp =
    via (pair int int) (λ t. (t.seconds, t.nanos)) (λ p. record { seconds = p.0; nanos = p.1 })
      (λ t. refl)

abbrev MetaTuple : Type 0
MetaTuple =
    Text
    × (ℕ
        × (Text
            × (Text
                × (Text
                    × (ℤ
                        × (Text
                            × (Text
                                × (Option Timestamp
                                    × (Option Timestamp × (Option Timestamp × List Text))))))))))

abbrev meta : Format Meta
meta =
    via
      (pair text (
        pair nat (
          pair text (
            pair text (
              pair text (
                pair int (
                  pair text (
                    pair text (
                      pair (option timestamp)
                        (pair (option timestamp) (pair (option timestamp) (list text))))))))))))
      (λ m. (
        m.id,
        (
          m.version,
          (
            m.project_id,
            (
              m.owner_user_id,
              (
                m.team_id,
                (
                  m.visibility,
                  (
                    m.created_by,
                    (m.updated_by, (m.created_at, (m.updated_at, (m.deleted_at, m.derived_from)))),
                  ),
                ),
              ),
            ),
          ),
        ),
      ))
      (λ p.
        let q = p.1.1.1.1.1.1 in
        record {
          id = p.0;
          version = p.1.0;
          project_id = p.1.1.0;
          owner_user_id = p.1.1.1.0;
          team_id = p.1.1.1.1.0;
          visibility = p.1.1.1.1.1.0;
          created_by = q.0;
          updated_by = q.1.0;
          created_at = q.1.1.0;
          updated_at = q.1.1.1.0;
          deleted_at = q.1.1.1.1.0;
          derived_from = q.1.1.1.1.1;
        })
      (λ m. refl)

abbrev pub create_response : Codec CreateTaskResponse
create_response = codec (
    via (pair (option meta) nat) (λ r. (r.meta, r.number))
      (λ p. record { meta = p.0; number = p.1 }) (λ r. refl))

abbrev pub update_response : Codec UpdateTaskResponse
update_response = codec (
    via (pair (option meta) int) (λ r. (r.meta, r.previous_status))
      (λ p. record { meta = p.0; previous_status = p.1 }) (λ r. refl))

abbrev pub delete_response : Codec DeleteTaskResponse
delete_response = record {
  encode = λ r. [];
  decode = λ l. some (record {});
  decode-encode = λ r. refl;
}
