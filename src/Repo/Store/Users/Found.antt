-- ===== src/Repo/Store/Users/Found.antt =====
-- Who `GetOrCreateUser` finds, on a database of tables.
use treenq.Base.{
  ℕ, List, [], ◌∷◌, Text, bytes, lookup, All, Any, none, some, Result, ok, Result-cases,
  Reply-cases, ◌≡◌, ◌≢◌, ◌⊎◌, inl, inr, ap, ◌∙◌, subst, arith,
}
use treenq.Domain.Types.{UserInfo}
use treenq.Repo.Store.{
  Value, select, insert, equals, text, spread, Row, row, no_rows, row_error, Sql,
}
use treenq.Repo.Store.Users.{select_user_id, insert_user, create_user, with_row, get_or_create_user}

-- A row of a table, by its columns.
abbrev pub Fields : Type 0
Fields = List (Text × Value)

module _ {S Cell : Type 0} (db : Sql S Cell) (rows : S → Text → List Fields)
    (Keeps : Text → Text → Value → Type 0) where
  -- What a query of a column of the row that has a value in another column can find: nothing where no
  -- row has it, the column's text of one that has it, or an error.
  abbrev pub Selected : Text → Text → Value → List Fields → Row Cell → Type 0
  Selected column key v table found =
      ((e : Text) × (found ≡ row_error e))
      ⊎ ((found ≡ no_rows) × All (λ r. lookup key r ≢ some v) table)
      ⊎ ((cell : Cell) × (found ≡ row (cell ∷ []))
          × Any
              (λ r.
                (lookup key r ≡ some v)
                × ((x y : Text)
                    → lookup column r ≡ some (text x)
                    → db.scan_text cell ≡ ok y
                    → x ≡ y))
              table)

  -- A row has the values that were given for its columns, where these keep them.
  abbrev pub Given : Text → List Text → List Value → Fields → Type 0
  Given table (c ∷ cs) (v ∷ vs) r = (Keeps table c v → lookup c r ≡ some v) × Given table cs vs r
  Given table _ _ r = Unit

  -- A database of tables without triggers, where `rows` are the rows of a table, and `Keeps` tells
  -- the values that a column of a table keeps as they are given, and compares so.
  pub record IsRelational : Type 0 where
    pub selected :
        (column table key query : Text) (v : Value) (args : List Value) (s : S)
        → db.to_sql (select (column ∷ []) table (equals key v ∷ []) [] none) ≡ ok (query, args)
        → Keeps table key v
        → Selected column key v (rows s table) (db.query_row query (spread args) s).0
    pub selected-kept :
        (column table key query : Text) (v : Value) (args : List Value) (s : S) (t : Text)
        → db.to_sql (select (column ∷ []) table (equals key v ∷ []) [] none) ≡ ok (query, args)
        → rows (db.query_row query (spread args) s).1 t ≡ rows s t
    pub inserted :
        (table query : Text) (columns : List Text) (values args : List Value) (n : Result ℕ)
        (s s' : S)
        → db.to_sql (insert table columns (values ∷ [])) ≡ ok (query, args)
        → db.exec query (spread args) s ≡ (ok n, s')
        → (r : Fields) × (rows s' table ≡ r ∷ rows s table)
          × Given table columns values r
          × ((t : Text) → t ≢ table → rows s' t ≡ rows s t)
    pub new_uuid-kept : (s : S) (t : Text) → rows (db.new_uuid s).1 t ≡ rows s t

  abbrev pub users : Text
  users = bytes "users"

  -- A row of the user with an id and an address.
  abbrev pub IsUser : Text → Text → Fields → Type 0
  IsUser id email r =
      (lookup (bytes "id") r ≡ some (text id)) × (lookup (bytes "email") r ≡ some (text email))

  -- Every user has a text for an id.
  abbrev pub HaveIds : List Fields → Type 0
  HaveIds = All (λ r. (x : Text) × (lookup (bytes "id") r ≡ some (text x)))

  -- The columns of the users keep the addresses and the names of the user, and the ids that are made.
  abbrev pub AreKept : UserInfo → Type 0
  AreKept user =
      Keeps users (bytes "email") (text user.email)
      × Keeps users (bytes "displayName") (text user.display_name)
      × ((s : S) → Keeps users (bytes "id") (text (db.new_uuid s).0))

  -- What is owed for a user who was looked up in the state s: either there was a row with the
  -- address, its id is returned, and no table is changed; or there was none, and one row with the
  -- address, the name and the id that is returned is added to the users, and nothing else changed.
  abbrev pub IsKept : UserInfo → S → UserInfo → S → Type 0
  IsKept user s u s' =
      (id : Text) × (u ≡ record user { id = id })
      × (Any (IsUser id user.email) (rows s users) × ((t : Text) → rows s' t ≡ rows s t)
          ⊎ All (λ r. lookup (bytes "email") r ≢ some (text user.email)) (rows s users)
            × ((r : Fields) × (rows s' users ≡ r ∷ rows s users)
                × IsUser id user.email r
                × (lookup (bytes "displayName") r ≡ some (text user.display_name))
                × ((t : Text) → t ≢ users → rows s' t ≡ rows s t)))

  module _ (laws : IsRelational) (user : UserInfo) (kept : AreKept user) where
    abbrev Adds : S → UserInfo → S → Type 0
    Adds s u s' =
        (id : Text) × (u ≡ record user { id = id })
        × ((r : Fields) × (rows s' users ≡ r ∷ rows s users)
            × IsUser id user.email r
            × (lookup (bytes "displayName") r ≡ some (text user.display_name))
            × ((t : Text) → t ≢ users → rows s' t ≡ rows s t))

    create_user-Adds : (u : UserInfo) (s s' : S) → create_user db user s ≡ (ok u, s') → Adds s u s'
    unfolding create_user
    create_user-Adds u s s' e =
        let (id, s₁) = db.new_uuid s in
        elim (Result-cases (db.to_sql (insert_user id user))) [
          | inr (m, bad) ↦ let never = rw bad at e in ground arith
          | inl ((query, args), built) ↦ elim (Reply-cases (db.exec query (spread args) s₁)) [
            | inr (m, s₂, bad) ↦ let never = rw (built, bad) at e in ground arith
            | inl (n, s₂, ran) ↦
                let done : (ok (record user { id = id }), s₂) ≡ (ok u, s') = rw (built, ran) at e in
                let same : s₂ ≡ s' = ap (λ r. r.1) done in
                let (r, added, (has_id, (has_email, (has_name, _))), others) =
                  laws.inserted users query _ _ args n s₁ s₂ built ran in
                let (email, name, ids) = kept in
                (
                  id,
                  cc,
                  (
                    r,
                    subst (λ x. rows x users ≡ r ∷ rows s users) same
                        (added ∙ ap (λ x. r ∷ x) (laws.new_uuid-kept s users)),
                    (has_id (ids s), has_email email),
                    has_name name,
                    λ t other.
                        subst (λ x. rows x t ≡ rows s t) same
                          (others t other ∙ laws.new_uuid-kept s t),
                  ),
                )
          ]
        ]

    read_id :
        (cell : Cell) (id : Text) (table : List Fields)
        → db.scan_text cell ≡ ok id
        → HaveIds table
        → Any
            (λ r.
              (lookup (bytes "email") r ≡ some (text user.email))
              × ((x y : Text)
                  → lookup (bytes "id") r ≡ some (text x)
                  → db.scan_text cell ≡ ok y
                  → x ≡ y))
            table
        → Any (IsUser id user.email) table
    read_id cell id [] scanned _ found = absurd found
    read_id cell id (r ∷ table) scanned ((x, has), ids) (inl (here, reads)) =
        inl (has ∙ ap (λ y. some (text y)) (reads x id has scanned), here)
    read_id cell id (r ∷ table) scanned (_, ids) (inr there) =
        inr (read_id cell id table scanned ids there)

    found-IsKept :
        (u : UserInfo) (s s₁ s' : S) (found : Row Cell)
        → ((t : Text) → rows s₁ t ≡ rows s t)
        → HaveIds (rows s users)
        → Selected (bytes "id") (bytes "email") (text user.email) (rows s users) found
        → with_row db user (found, s₁) ≡ (ok u, s')
        → IsKept user s u s'
    found-IsKept u s s₁ s' found unmoved ids (inl (m, bad)) e =
        let never = rw bad at e in ground arith
    found-IsKept u s s₁ s' found unmoved ids (inr (inl (empty, absent))) e =
        let (id, same, (r, added, is, name, others)) = create_user-Adds u s₁ s' (rw empty at e) in
        (
          id,
          same,
          inr (
            absent,
            (
              r,
              added ∙ ap (λ x. r ∷ x) (unmoved users),
              is,
              name,
              λ t other. others t other ∙ unmoved t,
            ),
          ),
        )
    found-IsKept u s s₁ s' found unmoved ids (inr (inr (cell, is_row, has))) e =
        elim (Result-cases (db.scan_text cell)) [
          | inr (m, bad) ↦ let never = rw (is_row, bad) at e in ground arith
          | inl (id, scanned) ↦
              let done : (ok (record user { id = id }), s₁) ≡ (ok u, s') =
                rw (is_row, scanned) at e in
              let same : s₁ ≡ s' = ap (λ r. r.1) done in
              (
                id,
                cc,
                inl (
                  read_id cell id (rows s users) scanned ids has,
                  λ t. subst (λ x. rows x t ≡ rows s t) same (unmoved t),
                ),
              )
        ]

    -- A user who is returned without an error was found or is new: either a row of the users has the
    -- address, its id is returned and no table is changed; or none has it, and exactly one row is
    -- added, with the address, the name and the id that is returned, and no other table is changed.
    -- The database has tables whose columns keep these texts as they are, and every user has an id.
    pub get_or_create_user-IsKept :
        (u : UserInfo) (s s' : S)
        → HaveIds (rows s users)
        → get_or_create_user db user s ≡ (ok u, s')
        → IsKept user s u s'
    unfolding get_or_create_user
    get_or_create_user-IsKept u s s' ids e =
        elim (Result-cases (db.to_sql (select_user_id user.email))) [
          | inr (m, bad) ↦ let never = rw bad at e in ground arith
          | inl ((query, args), built) ↦
              found-IsKept u s (db.query_row query (spread args) s).1 s'
                (db.query_row query (spread args) s).0
                (λ t. laws.selected-kept (bytes "id") users (bytes "email") query _ args s t built)
                ids (laws.selected (bytes "id") users (bytes "email") query _ args s built kept.0)
                (rw built at e)
        ]
