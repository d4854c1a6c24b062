-- ===== src/Tests/People.antt =====
-- A database that is a table of users, and takes the statements on it only.
use treenq.Base.{
  ℕ, Bool, true, false, ◌&&◌, Bool-cases, List, [], ◌∷◌, Text, bytes, text_eq, text_eq_iff, lookup,
  Option, none, some, Result, ok, err, if◌then◌else◌, ◌≡◌, ◌≢◌, inl, inr, refl, sym, ap, ◌∙◌, arith,
}
use treenq.Go.{pos}
use treenq.Repo.Store.{
  Value, Statement, Argument, Sql, Row, row, no_rows, row_error, select, insert, value, text,
  equals, spread,
}
use treenq.Repo.Store.Users.{create_user, get_or_create_user}
use treenq.Repo.Store.Users.Found.{
  Fields, Selected, IsRelational, Given, IsKept, get_or_create_user-IsKept,
}
use treenq.Tests.Demo.{user}

abbrev Users : Type 0
Users = List Fields

abbrev is_select : Text → Text → Text → Bool
is_select column table key =
    text_eq table (bytes "users") && (text_eq column (bytes "id") && text_eq key (bytes "email"))

abbrev is_insert : Text → List Text → Bool
is_insert table (a ∷ b ∷ c ∷ []) =
    text_eq table (bytes "users")
    && (text_eq a (bytes "id") && (text_eq b (bytes "email") && text_eq c (bytes "displayName")))
is_insert table _ = false

abbrev render : Statement → Result (Text × List Value)
render (select (column ∷ []) table (equals key (text x) ∷ []) [] none) =
    if is_select column table key then ok (bytes "select", text x ∷ []) else err (bytes "no query")
render (insert table columns ((a ∷ b ∷ c ∷ []) ∷ [])) =
    if is_insert table columns then ok (bytes "insert", a ∷ b ∷ c ∷ []) else err (bytes "no query")
render _ = err (bytes "no query")

abbrev is_text : Text → Option Value → Bool
is_text x (some (text y)) = text_eq y x
is_text x _ = false

abbrev id_row : Option Value → Row Text
id_row (some (text y)) = row (y ∷ [])
id_row _ = row_error (bytes "no text")

abbrev find_id : Text → Users → Row Text
find_id x [] = no_rows
find_id x (r ∷ s) =
    let rest = find_id x s in
    if is_text x (lookup (bytes "email") r) then id_row (lookup (bytes "id") r) else rest

abbrev select_in : List Argument → Users → Row Text
select_in (value (text x) ∷ []) s = find_id x s
select_in _ s = no_rows

abbrev new_row : Value → Value → Value → Fields
new_row id email name = (bytes "id", id) ∷ (bytes "email", email) ∷ (bytes "displayName", name) ∷ []

abbrev insert_in : List Argument → Users → Users
insert_in (value id ∷ value email ∷ value name ∷ []) s = new_row id email name ∷ s
insert_in _ s = s

abbrev people : Sql Users Text
people = record {
  to_sql = render;
  query_row = λ q args s. (select_in args s, s);
  query = λ q args s. (ok (record { rows = []; error = none }), s);
  exec = λ q args s. (ok (ok 1), insert_in args s);
  begin = λ s. (ok tt, s);
  tx_query_row = λ q args s. (no_rows, s);
  tx_exec = λ q args s. (ok (ok 1), s);
  commit = λ s. (ok tt, s);
  rollback = λ s. s;
  scan_text = λ c. ok c;
  scan_int = λ c. ok (pos 0);
  scan_bool = λ c. ok true;
  scan_time = λ c. ok c;
  new_uuid = λ s. (bytes "u2", s);
  now = λ s. (7, s);
}

abbrev rows : Users → Text → List Fields
rows s table = if text_eq table (bytes "users") then s else []

abbrev Keeps : Text → Text → Value → Type 0
Keeps table column v = Unit

is_text-eq : (x : Text) (o : Option Value) → is_text x o ≡ true → o ≡ some (text x)
is_text-eq x (some (text y)) h = ap (λ z. some (text z)) ((text_eq_iff y x).0 h)
is_text-eq x o h = cc

is_text-ne : (x : Text) (o : Option Value) → is_text x o ≡ false → o ≢ some (text x)
is_text-ne x o h e = ground (arith, text_eq_iff x x)

abbrev Finds : Text → Users → Row Text → Type 0
Finds x s found = Selected people rows Keeps (bytes "id") (bytes "email") (text x) s found

id_row-Finds :
    (x : Text) (r : Fields) (s : Users) (o : Option Value)
    → lookup (bytes "email") r ≡ some (text x)
    → lookup (bytes "id") r ≡ o
    → Finds x (r ∷ s) (id_row o)
id_row-Finds x r s (some (text y)) here has =
    inr (inr (y, refl, inl (here, λ a b read scanned. cc)))
id_row-Finds x r s (some _) here has = inl (bytes "no text", refl)
id_row-Finds x r s none here has = inl (bytes "no text", refl)

find_id-Finds : (x : Text) (s : Users) → Finds x s (find_id x s)
find_id-Finds x [] = inr (inl (refl, tt))
find_id-Finds x (r ∷ s) = elim (Bool-cases (is_text x (lookup (bytes "email") r))) [
  | inl here ↦ rw here (
      id_row-Finds x r s (lookup (bytes "id") r) (is_text-eq x (lookup (bytes "email") r) here)
        refl)
  | inr other ↦ rw other (later (find_id-Finds x s) (is_text-ne x (lookup (bytes "email") r) other))
]
  where
    later :
        {found : Row Text}
        → Finds x s found
        → lookup (bytes "email") r ≢ some (text x)
        → Finds x (r ∷ s) found
    later (inl bad) ne = inl bad
    later (inr (inl (empty, absent))) ne = inr (inl (empty, (ne, absent)))
    later (inr (inr (cell, is, there))) ne = inr (inr (cell, is, inr there))

select-is :
    (column table key : Text)
    → is_select column table key ≡ true
    → (table ≡ bytes "users") × (column ≡ bytes "id") × (key ≡ bytes "email")
select-is column table key h = ground (
  arith,
  text_eq_iff table (bytes "users"),
  text_eq_iff column (bytes "id"),
  text_eq_iff key (bytes "email"),
)

people-Selected :
    (column table key query : Text) (v : Value) (args : List Value) (s : Users)
    → people.to_sql (select (column ∷ []) table (equals key v ∷ []) [] none) ≡ ok (query, args)
    → Selected people rows Keeps column key v
        (rows s table)
        (people.query_row query (spread args) s).0
people-Selected column table key query (text x) args s built =
    elim (Bool-cases (is_select column table key)) [
      | inr wrong ↦ let never = rw wrong at built in ground arith
      | inl right ↦
          let made : ok (bytes "select", text x ∷ []) ≡ ok (query, args) = rw right at built in
          let same : text x ∷ [] ≡ args = cc in
          let (users, id, email) = select-is column table key right in
          rw (users, id, email, sym same) (find_id-Finds x s)
    ]
people-Selected column table key query v args s built = cc

insert-is :
    (table a b c : Text)
    → is_insert table (a ∷ b ∷ c ∷ []) ≡ true
    → (table ≡ bytes "users") × (a ≡ bytes "id") × (b ≡ bytes "email") × (c ≡ bytes "displayName")
insert-is table a b c h = ground (
  arith,
  text_eq_iff table (bytes "users"),
  text_eq_iff a (bytes "id"),
  text_eq_iff b (bytes "email"),
  text_eq_iff c (bytes "displayName"),
)

only_users : (s s' : Users) (t : Text) → t ≢ bytes "users" → rows s t ≡ rows s' t
only_users s s' t other = ground (arith, text_eq_iff t (bytes "users"))

people-inserted :
    (table query : Text) (columns : List Text) (vs args : List Value) (n : Result ℕ) (s s' : Users)
    → people.to_sql (insert table columns (vs ∷ [])) ≡ ok (query, args)
    → people.exec query (spread args) s ≡ (ok n, s')
    → (r : Fields) × (rows s' table ≡ r ∷ rows s table)
      × Given people rows Keeps table columns vs r
      × ((t : Text) → ¬ (t ≡ table) → rows s' t ≡ rows s t)
people-inserted table query (a ∷ b ∷ c ∷ []) (x ∷ y ∷ z ∷ []) args n s s' built ran =
    elim (Bool-cases (is_insert table (a ∷ b ∷ c ∷ []))) [
      | inr wrong ↦ let never = rw wrong at built in ground arith
      | inl right ↦
          let made : ok (bytes "insert", x ∷ y ∷ z ∷ []) ≡ ok (query, args) = rw right at built in
          let same : x ∷ y ∷ z ∷ [] ≡ args = cc in
          let after : insert_in (spread args) s ≡ s' = ap (λ r. r.1) ran in
          let (users, id, email, name) = insert-is table a b c right in
          (
            new_row x y z,
            rw (users, sym after, sym same) refl,
            rw (id, email, name) ((λ k. refl), ((λ k. refl), ((λ k. refl), tt))),
            λ t other. only_users s' s t (λ e. other (e ∙ sym users)),
          )
    ]
people-inserted table query columns vs args n s s' built ran = absurd (ground arith)

people-IsRelational : IsRelational people rows Keeps
people-IsRelational = record {
  selected = λ column table key query v args s built k.
      people-Selected column table key query v args s built;
  selected-kept = λ column table key query v args s t built. refl;
  inserted = λ table query columns vs args n s s' built ran.
      people-inserted table query columns vs args n s s' built ran;
  new_uuid-kept = λ s t. refl;
}

abbrev known : Users
known = new_row (text (bytes "u0")) (text (bytes "b@b.c")) (text (bytes "bob")) ∷ []

abbrev joined : Users
joined = new_row (text (bytes "u2")) (text (bytes "a@b.c")) (text (bytes "ann")) ∷ known

created : get_or_create_user people user known ≡ (ok (record user { id = bytes "u2" }), joined)
unfolding get_or_create_user create_user
created = refl

get_or_create_user-IsKept_example :
    IsKept people rows Keeps user known (record user { id = bytes "u2" }) joined
get_or_create_user-IsKept_example =
    get_or_create_user-IsKept people rows Keeps people-IsRelational user (tt, tt, λ s. tt)
      (record user { id = bytes "u2" }) known joined ((bytes "u0", refl), tt) created
