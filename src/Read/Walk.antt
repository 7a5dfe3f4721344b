-- ===== src/Read/Walk.antt =====
-- The pages of ListTasks of src/read.rs, one after the other by their tokens.
use task_db.Prelude.{
  ℕ, zero, suc, ltb, ℤ, Text, Bool, true, false, ◌&&◌, Bool-cases, is_empty, some, List, [], ◌∷◌,
  keep, take, drop, last?, length, All, ◌≡◌, refl, ◌∙◌, sym, ap, inl, inr, arith,
}
use mathlib.Core.Path.{subst}
use task_db.Status.{ok, >>=-eq-ok, ok-injective}
use task_db.Proto.{Scope, Task}
use task_db.Engine.{Engine, TaskRow}
use task_db.Tables.{same_task_key}
use task_db.Read.{strings, order_by_id, rows_to_tasks, row_to_task, token_of}
use task_db.Read.Listing.{is_listed, is_after_token}
use task_db.Read.Ordering.{
  IsOrder, Sorted, asymmetric, Precedes, order_by_id-Sorted, keep-Sorted, keep-order_by_id,
  All-keep, All-order_by_id,
}
use task_db.History.Distinct.{Distinct}

keep-agree :
    (f g : TaskRow → Bool) (rs : List TaskRow) → ((r : TaskRow) → f r ≡ g r) → keep f rs ≡ keep g rs
keep-agree f g [] h = refl
keep-agree f g (r ∷ rs) h = rw (h r) (rw (keep-agree f g rs h) refl)

keep-keep :
    (p q : TaskRow → Bool) (rs : List TaskRow) → keep q (keep p rs) ≡ keep (λ r. p r && q r) rs
keep-keep p q [] = refl
keep-keep p q (r ∷ rs) = elim (Bool-cases (p r)) [
  | inl hit ↦ elim (Bool-cases (q r)) [
    | inl also ↦ rw hit (rw also (ap (λ l. r ∷ l) (keep-keep p q rs)))
    | inr out ↦ rw hit (rw out (keep-keep p q rs))
  ]
  | inr miss ↦ rw miss (keep-keep p q rs)
]

keep-holds : (p : TaskRow → Bool) (rs : List TaskRow) → All (λ r. p r ≡ true) (keep p rs)
keep-holds p [] = tt
keep-holds p (r ∷ rs) = elim (Bool-cases (p r)) [
  | inl hit ↦ rw hit (hit, keep-holds p rs)
  | inr miss ↦ rw miss (keep-holds p rs)
]

keep-all : (p : TaskRow → Bool) (rs : List TaskRow) → All (λ r. p r ≡ true) rs → keep p rs ≡ rs
keep-all p [] h = refl
keep-all p (r ∷ rs) (here, more) = rw here (ap (λ l. r ∷ l) (keep-all p rs more))

some_injective : {A : Type 0} {a b : A} → some a ≡ some b → a ≡ b
some_injective h = cc

All-last? :
    (Q : TaskRow → Type 0) (n : ℕ) (rs : List TaskRow) {r : TaskRow}
    → All Q rs
    → last? (take n rs) ≡ some r
    → Q r
All-last? Q zero rs h k = cc
All-last? Q (suc n) [] h k = cc
All-last? Q (suc zero) (r ∷ rs) (here, more) k = subst Q (some_injective k) here
All-last? Q (suc (suc n)) (r ∷ []) (here, more) k = subst Q (some_injective k) here
All-last? Q (suc (suc n)) (r ∷ q ∷ rs) (here, more) k = All-last? Q (suc n) (q ∷ rs) more k

module _ (e : Engine) (order : IsOrder e) where
  -- The rows after the last of a page are those that the page has left.
  page_break :
      (n : ℕ) (rs : List TaskRow)
      → Sorted e rs
      → ltb (suc n) (length rs) ≡ true
      → (r : TaskRow) × (last? (take (suc n) rs) ≡ some r)
        × (keep (λ q. e.before r.id q.id) rs ≡ drop (suc n) rs)
  page_break n [] h k = ground (arith, k)
  page_break zero (r ∷ rs) (first, others) k =
      (r, refl, rw (order.irreflexive r.id) (keep-all (λ q. e.before r.id q.id) rs first))
  page_break (suc n) (r ∷ []) h k = ground (arith, k)
  page_break (suc n) (r ∷ q ∷ rs) ((next, first), others) k =
      let (x, last_is, rest) = page_break n (q ∷ rs) others (ground (arith, k)) in
      let later = All-last? (Precedes e r) (suc n) (q ∷ rs) (next, first) last_is in
      (x, last_is, rw (asymmetric e order r.id x.id later) rest)

-- The tasks of a page, and of what it leaves.
pub rows_to_tasks-take :
    (n : ℕ) (rs : List TaskRow) {ts : List Task}
    → rows_to_tasks rs ≡ ok ts
    → (rows_to_tasks (take n rs) ≡ ok (take n ts)) × (rows_to_tasks (drop n rs) ≡ ok (drop n ts))
unfolding rows_to_tasks
rows_to_tasks-take zero rs h = (refl, h)
rows_to_tasks-take (suc n) [] {ts} h = rw (← ok-injective h) (refl, refl)
rows_to_tasks-take (suc n) (r ∷ rs) h =
    let (t, first, more) = >>=-eq-ok (row_to_task r) _ h in
    let (rest, found, made) = >>=-eq-ok (rows_to_tasks rs) _ more in
    let (page, left) = rows_to_tasks-take n rs {ts = rest} found in
    rw (← ok-injective made) (rw first (rw page (refl, left)))

-- The token is the id of the last row.
module _ (e : Engine) where
  row_to_task-id : (r : TaskRow) {t : Task} → row_to_task r ≡ ok t → token_of e (some t) ≡ r.id
  unfolding row_to_task
  row_to_task-id r {t} h =
      let (tags, t1, more) = >>=-eq-ok (strings r.tags) _ h in
      let (links, t2, made) = >>=-eq-ok (strings r.links) _ more in rw (← ok-injective made) refl

  -- A task before others is not the last.
  last?-cons :
      (t : Task) (q : TaskRow) (rs : List TaskRow) {ts : List Task}
      → rows_to_tasks (q ∷ rs) ≡ ok ts
      → last? (t ∷ ts) ≡ last? ts
  unfolding rows_to_tasks
  last?-cons t q rs h =
      let (t', first, more) = >>=-eq-ok (row_to_task q) _ h in
      let (rest, found, made) = >>=-eq-ok (rows_to_tasks rs) _ more in rw (← ok-injective made) refl

  pub token_of-last? :
      (rs : List TaskRow) {ts : List Task} {r : TaskRow}
      → rows_to_tasks rs ≡ ok ts
      → last? rs ≡ some r
      → token_of e (last? ts) ≡ r.id
  unfolding rows_to_tasks
  token_of-last? [] h k = cc
  token_of-last? (q ∷ []) {ts} {r} h k =
      let (t, first, made) = >>=-eq-ok (row_to_task q) _ h in
      rw (← ok-injective made)
        (row_to_task-id q first ∙ ap (λ x. x.id) (some_injective {a = q} {b = r} k))
  token_of-last? (q ∷ p ∷ rs) h k =
      let (t, first, more) = >>=-eq-ok (row_to_task q) _ h in
      let (rest, found, made) = >>=-eq-ok (rows_to_tasks (p ∷ rs)) _ more in
      rw (← ok-injective made) (rw (last?-cons t p rs found) (token_of-last? (p ∷ rs) found k))

-- The rows that a caller is listed after a token, in their order.
abbrev pub listed_rows : Engine → Scope → List ℤ → Text → List TaskRow → List TaskRow
listed_rows e scope wanted token rows =
    order_by_id e (keep (λ r. is_listed e scope wanted r && is_after_token e token r) rows)

module _ (e : Engine) (order : IsOrder e) (scope : Scope) (wanted : List ℤ) (rows : List TaskRow)
    (keys : Distinct (same_task_key e) rows) where
  listed_rows-Sorted : (token : Text) → Sorted e (listed_rows e scope wanted token rows)
  listed_rows-Sorted token =
      rw
        (← keep-order_by_id e order (λ r. is_listed e scope wanted r && is_after_token e token r)
          rows keys)
        (keep-Sorted e order _ (order_by_id e rows) (order_by_id-Sorted e order rows keys))

  -- What is listed after a token, as a part of all rows in their order.
  listed_rows-eq-keep :
      (token : Text)
      → listed_rows e scope wanted token rows
        ≡ keep (λ r. is_listed e scope wanted r && is_after_token e token r) (order_by_id e rows)
  listed_rows-eq-keep token = sym (
      keep-order_by_id e order (λ r. is_listed e scope wanted r && is_after_token e token r) rows
        keys)

  after_later :
      (token : Text) (x r : TaskRow)
      → is_after_token e token x ≡ true
      → e.before x.id r.id ≡ true
      → is_after_token e token r ≡ true
  after_later [] x r h k = refl
  after_later (c ∷ t) x r h k = order.transitive (c ∷ t) x.id r.id h k

  -- Where a page leaves rows, its last row is there, and what is listed after it is what is left.
  pub listed_rows-next :
      (token : Text) (n : ℕ)
      → All (λ r. is_empty r.id ≡ false) rows
      → ltb (suc n) (length (listed_rows e scope wanted token rows)) ≡ true
      → (x : TaskRow) × (is_empty x.id ≡ false)
        × (last? (take (suc n) (listed_rows e scope wanted token rows)) ≡ some x)
        × (listed_rows e scope wanted x.id rows
            ≡ drop (suc n) (listed_rows e scope wanted token rows))
  listed_rows-next token n named more =
      let p : TaskRow → Bool = is_listed e scope wanted in
      let pt : TaskRow → Bool = λ r. p r && is_after_token e token r in
      let all = order_by_id e rows in
      let rest = listed_rows e scope wanted token rows in
      let same = listed_rows-eq-keep token in
      let (x, last_is, left) = page_break e order n rest (listed_rows-Sorted token) more in
      let holds : All (λ r. pt r ≡ true) rest =
        subst (All (λ r. pt r ≡ true)) (sym same) (keep-holds pt all) in
      let named_here : All (λ r. is_empty r.id ≡ false) rest =
        subst (All (λ r. is_empty r.id ≡ false)) (sym same) (
          All-keep e order pt (λ r. is_empty r.id ≡ false) all
            (All-order_by_id e (λ r. is_empty r.id ≡ false) rows named)) in
      let x_listed = All-last? (λ r. pt r ≡ true) (suc n) rest holds last_is in
      let x_named = All-last? (λ r. is_empty r.id ≡ false) (suc n) rest named_here last_is in
      let x_after = second (p x) (is_after_token e token x) x_listed in
      (
        x,
        x_named,
        last_is,
        listed_rows-eq-keep x.id
            ∙ keep-agree (λ r. p r && is_after_token e x.id r) (λ r. pt r && e.before x.id r.id) all
                (λ r.
                  narrowed (p r) (is_after_token e token r) (is_after_token e x.id r)
                    (e.before x.id r.id) (after_named x.id r x_named)
                    (after_later token x r x_after))
            ∙ sym (keep-keep pt (λ r. e.before x.id r.id) all)
            ∙ ap (keep (λ r. e.before x.id r.id)) (sym same)
            ∙ left,
      )
    where
      second : (a b : Bool) → (a && b) ≡ true → b ≡ true
      second a b h = ground arith

      after_named :
          (id : Text) (r : TaskRow) → is_empty id ≡ false → is_after_token e id r ≡ e.before id r.id
      after_named [] r h = cc
      after_named (c ∷ t) r h = refl

      narrowed : (a b c d : Bool) → c ≡ d → (d ≡ true → b ≡ true) → (a && c) ≡ ((a && b) && d)
      narrowed a b true false h k = cc
      narrowed a b false true h k = cc
      narrowed a b true true h k = rw (k refl) (ground arith)
      narrowed a b false false h k = ground arith
