-- ===== src/Repo/Store/Installations.antt =====
-- src/repo/store.go: the installations of GitHub's app and their repositories.
pub mod Atomic
use treenq.Base.{
  ℕ, zero, suc, List, [], ◌∷◌, ◌++◌, map, Text, bytes, Option, none, some, Result, ok, err,
}
use treenq.Go.{ℤ}
use treenq.Go.Decimal.{itoa}
use treenq.Domain.Types.{InstalledRepository}
use treenq.Domain.Handler.{Op}
use treenq.Repo.Store.{
  Value, Statement, select, insert, delete, update, equals, one_of, text, int, bool, time, spread,
  Rows, Sql, ◌>>=◌, ◌>>◌, lift, within, pure, uuid, timestamp, one_text, tx_execute, in_transaction,
  commit,
}
use treenq.Repo.Store.Scan.{scan_repository}

abbrev pub select_user : Text → Statement
select_user display_name =
    select (bytes "id" ∷ []) (bytes "users") (equals (bytes "displayName") (text display_name) ∷ [])
      [] none

abbrev pub insert_installation : Text → ℤ → Text → ℕ → Statement
insert_installation id installation_id user_id at =
    insert (bytes "installations")
      (bytes "id"
        ∷ bytes "githubId"
        ∷ bytes "userId"
        ∷ bytes "status"
        ∷ bytes "createdAt"
        ∷ bytes "updatedAt"
        ∷ [])
      ((text id
          ∷ int installation_id
          ∷ text user_id
          ∷ text (bytes "active")
          ∷ time at
          ∷ time at
          ∷ [])
        ∷ [])

abbrev pub linked_row : Text → Text → ℕ → Text → InstalledRepository → List Value
linked_row installation user_id at id repo =
    text id
    ∷ int repo.id
    ∷ text repo.full_name
    ∷ bool repo.private
    ∷ text installation
    ∷ text user_id
    ∷ text []
    ∷ time at
    ∷ time at
    ∷ []

abbrev pub insert_linked : List (List Value) → Statement
insert_linked rows =
    insert (bytes "installedRepos")
      (bytes "id"
        ∷ bytes "githubId"
        ∷ bytes "fullName"
        ∷ bytes "private"
        ∷ bytes "installationId"
        ∷ bytes "userId"
        ∷ bytes "branch"
        ∷ bytes "createdAt"
        ∷ bytes "updatedAt"
        ∷ [])
      rows

abbrev pub saved_row : ℤ → ℕ → InstalledRepository → List Value
saved_row installation_id at repo =
    int repo.id ∷ text repo.full_name ∷ bool repo.private ∷ int installation_id ∷ time at ∷ []

abbrev pub insert_saved : List (List Value) → Statement
insert_saved rows =
    insert (bytes "installedRepos")
      (bytes "githubId"
        ∷ bytes "fullName"
        ∷ bytes "private"
        ∷ bytes "installationId"
        ∷ bytes "createdAt"
        ∷ [])
      rows

abbrev pub delete_repos : ℤ → List InstalledRepository → Statement
delete_repos installation_id repos = delete (bytes "installedRepos") (
    equals (bytes "installationId") (int installation_id)
    ∷ one_of (bytes "githubId") (map (λ repo. int repo.id) repos)
    ∷ [])

abbrev pub select_repos : Text → Statement
select_repos user_id =
    select (bytes "r.githubId" ∷ bytes "r.fullName" ∷ bytes "r.private" ∷ bytes "r.branch" ∷ [])
      (bytes "installedRepos r") (equals (bytes "r.userId") (text user_id) ∷ [])
      (bytes "r.createdAt DESC" ∷ []) none

abbrev pub update_branch : ℤ → Text → Statement
update_branch repo_id branch =
    update (bytes "installedRepos") ((bytes "branch", text branch) ∷ [])
      (equals (bytes "githubId") (int repo_id) ∷ [])

module _ {S Cell : Type 0} (db : Sql S Cell) where
  -- The loop of `LinkGithub`, which makes an identifier for each row.
  unfoldable pub linked_rows : Text → Text → ℕ → List InstalledRepository → Op S (List (List Value))
  linked_rows installation user_id at [] = pure []
  linked_rows installation user_id at (repo ∷ repos) = do
    id ← uuid db
    rows ← linked_rows installation user_id at repos
    pure (linked_row installation user_id at id repo ∷ rows)

  unfoldable pub link_repos : Text → Text → ℕ → List InstalledRepository → Op S (Unit {0})
  unfolding linked_rows tx_execute
  link_repos installation user_id at [] = pure tt
  link_repos installation user_id at (repo ∷ repos) = do
    rows ← linked_rows installation user_id at (repo ∷ repos)
    tx_execute db (bytes "failed to build repositories query: ")
        (bytes "failed to insert repositories: ") (insert_linked rows)

  unfoldable pub find_user : Text → Op S Text
  find_user sender_login =
      lift (bytes "failed to build user query: ") (db.to_sql (select_user sender_login))
      >>= λ (query, args).
          within (bytes "failed to get user ID: ") (λ s.
            let (found, s') = db.tx_query_row query (spread args) s in (one_text db found, s'))

  unfoldable pub link_body : ℤ → Text → List InstalledRepository → Op S (Unit {0})
  unfolding link_repos find_user commit
  link_body installation_id sender_login repos = do
    user_id ← find_user sender_login
    id ← uuid db
    at ← timestamp db
    tx_execute db (bytes "failed to build installation query: ")
        (bytes "failed to insert installation: ")
        (insert_installation id installation_id user_id at)
    link_repos id user_id at repos
    commit db

  unfoldable pub link_github : ℤ → Text → List InstalledRepository → Op S (Unit {0})
  unfolding in_transaction link_body
  link_github installation_id sender_login repos =
      in_transaction db (bytes "failed to begin transaction for LinkGithub: ")
        (link_body installation_id sender_login repos)

  -- The loop of `SaveGithubRepos`, which reads the clock for each row.
  unfoldable pub saved_rows : ℤ → List InstalledRepository → Op S (List (List Value))
  saved_rows installation_id [] = pure []
  saved_rows installation_id (repo ∷ repos) = do
    at ← timestamp db
    rows ← saved_rows installation_id repos
    pure (saved_row installation_id at repo ∷ rows)

  unfoldable pub save_body : ℤ → List InstalledRepository → Op S (Unit {0})
  unfolding tx_execute commit saved_rows
  save_body installation_id repos = do
    rows ← saved_rows installation_id repos
    tx_execute db (bytes "failed to build repositories query: ")
        (bytes "failed to insert repositories: ") (insert_saved rows)
    commit db

  -- The user's id plays no part.
  unfoldable pub save_github_repos : ℤ → ℤ → List InstalledRepository → Op S (Unit {0})
  unfolding in_transaction save_body
  save_github_repos user_id installation_id [] = pure tt
  save_github_repos user_id installation_id (repo ∷ repos) =
      in_transaction db (bytes "failed to begin transaction for SaveGithubRepos: ")
        (save_body installation_id (repo ∷ repos))

  unfoldable pub remove_body : ℤ → List InstalledRepository → Op S (Unit {0})
  unfolding tx_execute commit
  remove_body installation_id repos = do
    tx_execute db (bytes "failed to build delete query: ") (bytes "failed to delete repositories: ")
        (delete_repos installation_id repos)
    commit db

  unfoldable pub remove_github_repos : ℤ → List InstalledRepository → Op S (Unit {0})
  unfolding in_transaction remove_body
  remove_github_repos installation_id [] = pure tt
  remove_github_repos installation_id (repo ∷ repos) =
      in_transaction db (bytes "failed to begin transaction for RemoveGithubRepos: ")
        (remove_body installation_id (repo ∷ repos))

  abbrev rows_ended : Option Text → Result (List InstalledRepository)
  rows_ended none = ok []
  rows_ended (some e) = err (bytes "failed to iterate GetGithubRepos rows: " ++ e)

  abbrev cons_repository :
      Result InstalledRepository
      → Result (List InstalledRepository)
      → Result (List InstalledRepository)
  cons_repository (err e) rest = err (bytes "failed to scan GetGithubRepos row: " ++ e)
  cons_repository (ok repo) (err e) = err e
  cons_repository (ok repo) (ok repos) = ok (repo ∷ repos)

  unfoldable pub read_repos : List (List Cell) → Option Text → Result (List InstalledRepository)
  unfolding scan_repository
  read_repos [] error = rows_ended error
  read_repos (cells ∷ rows) error =
      cons_repository (scan_repository db cells) (read_repos rows error)

  abbrev read_rows : Rows Cell → Op S (List InstalledRepository)
  read_rows found s = (read_repos found.rows found.error, s)

  unfoldable pub get_github_repos : Text → Op S (List InstalledRepository)
  unfolding read_repos
  get_github_repos user_id =
      lift (bytes "failed to build GetGithubRepos query: ") (db.to_sql (select_repos user_id))
      >>= λ (query, args).
          within (bytes "failed to query GetGithubRepos: ") (db.query query (spread args))
          >>= read_rows

  abbrev some_row : ℤ → ℕ → Result (Unit {0})
  some_row repo_id zero = err (bytes "no repository found with ID " ++ itoa repo_id)
  some_row repo_id (suc _) = ok tt

  unfoldable pub connect_repo_branch : ℤ → Text → Op S (Unit {0})
  connect_repo_branch repo_id branch =
      lift (bytes "failed to build ConnectRepoBranch query: ")
        (db.to_sql (update_branch repo_id branch))
      >>= λ (query, args).
          within (bytes "failed to execute ConnectRepoBranch: ") (db.exec query (spread args))
          >>= λ affected. lift (bytes "failed to get affected rows: ") affected >>= λ rows s.
              (some_row repo_id rows, s)
