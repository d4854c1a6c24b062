-- ===== src/Repo/Store/Schema.antt =====
-- migrations/0001_users_table.up.sql: the columns of the tables, and which of them an insert of
-- src/repo/store.go gets wrong. Both spell a name in one way, so names are compared as they are.
pub mod Refused
use treenq.Base.{
  Bool, true, false, not, ◌||◌, List, [], ◌∷◌, ◌++◌, Text, bytes, text_eq, lookup, Option, none,
  some, if◌then◌else◌,
}
use treenq.Repo.Store.{Statement, select, insert, delete, update}

-- A column is required that is NOT NULL and has no default.
abbrev pub Table : Type 0
Table = List (Text × Bool)

-- The columns that every table ends with.
abbrev created_at : Text × Bool
created_at = (bytes "createdAt", false)

abbrev updated_at : Text × Bool
updated_at = (bytes "updatedAt", false)

abbrev id : Text × Bool
id = (bytes "id", false)

abbrev pub migration : List (Text × Table)
migration =
    (
      bytes "users",
      id
          ∷ (bytes "email", true)
          ∷ (bytes "displayName", true)
          ∷ (bytes "githubId", true)
          ∷ created_at
          ∷ updated_at
          ∷ [],
    )
    ∷ (
      bytes "installations",
      id
          ∷ (bytes "githubId", true)
          ∷ (bytes "userId", true)
          ∷ (bytes "status", true)
          ∷ created_at
          ∷ updated_at
          ∷ [],
    )
    ∷ (
      bytes "installedRepos",
      id
          ∷ (bytes "githubId", true)
          ∷ (bytes "fullName", true)
          ∷ (bytes "private", true)
          ∷ (bytes "installationId", false)
          ∷ (bytes "userId", true)
          ∷ (bytes "branch", true)
          ∷ created_at
          ∷ [],
    )
    ∷ (
      bytes "deployments",
      id
          ∷ (bytes "appId", true)
          ∷ (bytes "app", true)
          ∷ (bytes "tag", true)
          ∷ (bytes "sha", true)
          ∷ (bytes "user", true)
          ∷ created_at
          ∷ [],
    )
    ∷ []

-- The migration quotes this name, since it is a reserved word; squirrel's inserts do not.
abbrev is_reserved : Text → Bool
is_reserved name = text_eq name (bytes "user")

abbrev is_column : Option Bool → Bool
is_column none = false
is_column (some _) = true

abbrev contains : Text → List Text → Bool
contains name [] = false
contains name (x ∷ xs) = text_eq x name || contains name xs

-- The names that no column has, or that cannot be written without quotes.
abbrev unknown_columns : Table → List Text → List Text
unknown_columns table [] = []
unknown_columns table (name ∷ names) =
    let rest = unknown_columns table names in
    if not (is_column (lookup name table)) || is_reserved name then name ∷ rest else rest

-- The required columns that are not given.
abbrev missing_columns : Table → List Text → List Text
missing_columns [] names = []
missing_columns ((name, false) ∷ table) names = missing_columns table names
missing_columns ((name, true) ∷ table) names =
    let rest = missing_columns table names in if contains name names then rest else name ∷ rest

abbrev misfits_of : Text → List Text → Option Table → List Text
misfits_of name columns none = name ∷ []
misfits_of name columns (some table) =
    unknown_columns table columns ++ missing_columns table columns

-- What is wrong with an insert, by the migration.
abbrev pub misfits : Statement → List Text
misfits (insert name columns rows) = misfits_of name columns (lookup name migration)
misfits (select _ _ _ _ _) = []
misfits (delete _ _) = []
misfits (update _ _ _) = []
