-- ===== src/Repo/Store/Users.antt =====
-- src/repo/store.go, `GetOrCreateUser` and `createUser`.
pub mod Found
use treenq.Base.{List, [], ◌∷◌, ◌++◌, Text, bytes, none, Result, ok, err}
use treenq.Domain.Types.{UserInfo}
use treenq.Domain.Handler.{Op}
use treenq.Repo.Store.{
  Statement, select, insert, equals, text, spread, Row, row, no_rows, row_error, Sql, ◌>>=◌, ◌>>◌,
  lift, pure, uuid, scan_one, execute,
}

abbrev pub select_user_id : Text → Statement
select_user_id email =
    select (bytes "id" ∷ []) (bytes "users") (equals (bytes "email") (text email) ∷ []) [] none

abbrev pub insert_user : Text → UserInfo → Statement
insert_user id user =
    insert (bytes "users") (bytes "id" ∷ bytes "email" ∷ bytes "displayName" ∷ [])
      ((text id ∷ text user.email ∷ text user.display_name ∷ []) ∷ [])

module _ {S Cell : Type 0} (db : Sql S Cell) where
  unfoldable pub create_user : UserInfo → Op S UserInfo
  unfolding execute
  create_user user = do
    id ← uuid db
    execute db (bytes "failed to build query createUser: ") (bytes "failed to exec createUser: ")
        (insert_user id user)
    pure (record user { id = id })

  abbrev pub with_id : UserInfo → S → Result Text → Result UserInfo × S
  with_id user s (ok id) = (ok (record user { id = id }), s)
  with_id user s (err e) = (err (bytes "failed to scan select GetOrCreateUser: " ++ e), s)

  abbrev pub with_row : UserInfo → Row Cell × S → Result UserInfo × S
  with_row user (row cells, s) = with_id user s (scan_one db cells)
  with_row user (no_rows, s) = create_user user s
  with_row user (row_error e, s) = with_id user s (err e)

  unfoldable pub get_or_create_user : UserInfo → Op S UserInfo
  unfolding create_user
  get_or_create_user user =
      lift (bytes "failed to build select query GetOrCreateUser: ")
        (db.to_sql (select_user_id user.email))
      >>= λ (query, args) s. with_row user (db.query_row query (spread args) s)
