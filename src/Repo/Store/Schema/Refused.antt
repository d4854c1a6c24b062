-- ===== src/Repo/Store/Schema/Refused.antt =====
-- Which operations of src/repo/store.go the migrated database refuses.
use treenq.Base.{
  ℕ, List, [], ◌∷◌, ◌++◌, Text, bytes, ok, err, Result-cases, Reply-cases, inl, inr, ◌≡◌, ◌≢◌, refl,
  arith,
}
use treenq.Go.{ℤ}
use treenq.Sdk.{Space}
use treenq.Vel.Rpc.{Codec}
use treenq.Domain.Types.{InstalledRepository, UserInfo, AppDefinition}
use treenq.Domain.Handler.{Op}
use treenq.Repo.Store.{
  Value, Statement, spread, Sql, uuid, timestamp, lift, commit, ◌>>=◌, ◌>>◌, pure, execute,
  tx_execute, in_transaction,
}
use treenq.Repo.Store.Users.{insert_user, create_user}
use treenq.Repo.Store.Deployments.{save_deployment, insert_deployment}
use treenq.Repo.Store.Installations.{
  insert_linked, insert_saved, saved_rows, insert_installation, link_github, link_body, link_repos,
  linked_rows, find_user, save_github_repos, save_body,
}
use treenq.Repo.Store.Schema.{misfits}

cons-ne-nil : (x : Text) (xs : List Text) → x ∷ xs ≢ []
cons-ne-nil x xs e = ground arith

insert_user-misfits : (id : Text) (user : UserInfo) → misfits (insert_user id user) ≢ []
insert_user-misfits id user = cons-ne-nil (bytes "githubId") []

insert_linked-misfits : (rows : List (List Value)) → misfits (insert_linked rows) ≢ []
insert_linked-misfits rows = cons-ne-nil (bytes "updatedAt") []

insert_saved-misfits : (rows : List (List Value)) → misfits (insert_saved rows) ≢ []
insert_saved-misfits rows = cons-ne-nil (bytes "userId") (bytes "branch" ∷ [])

insert_deployment-misfits :
    (id : Text) (def : AppDefinition) (payload : Text) (at : ℕ)
    → misfits (insert_deployment id def payload at) ≢ []
insert_deployment-misfits id def payload at = cons-ne-nil (bytes "user") []

-- An operation that returns an error, whatever the state.
abbrev pub Fails : {S A : Type 0} → Op S A → Type 0
Fails {S} m = (s : S) → (e : Text) × (s' : S) × (m s ≡ (err e, s'))

first-Fails : {S A B : Type 0} (m : Op S A) (f : A → Op S B) → Fails m → Fails (m >>= f)
first-Fails m f fails s = let (e, s', same) = fails s in (e, s', rw (same, ◌>>=◌) refl)

then-Fails :
    {S A B : Type 0} (m : Op S A) (f : A → Op S B) → ((a : A) → Fails (f a)) → Fails (m >>= f)
then-Fails m f fails s = elim (Reply-cases (m s)) [
  | inl (a, s', same) ↦ let (e, s'', bad) = fails a s' in (e, s'', rw (same, ◌>>=◌) bad)
  | inr (e, s', same) ↦ (e, s', rw (same, ◌>>=◌) refl)
]

module _ {S Cell : Type 0} (db : Sql S Cell) where
  -- The database has the tables of the migration: it refuses an insert that names other columns,
  -- or a reserved word, and one that leaves a required column out.
  pub record IsMigrated : Type 0 where
    pub exec-refused :
        (st : Statement) (query : Text) (args : List Value) (s : S)
        → db.to_sql st ≡ ok (query, args)
        → misfits st ≢ []
        → (e : Text) × (s' : S) × (db.exec query (spread args) s ≡ (err e, s'))
    pub tx_exec-refused :
        (st : Statement) (query : Text) (args : List Value) (s : S)
        → db.to_sql st ≡ ok (query, args)
        → misfits st ≢ []
        → (e : Text) × (s' : S) × (db.tx_exec query (spread args) s ≡ (err e, s'))

  module _ (migrated : IsMigrated) where
    execute-Fails :
        (building executing : Text) (st : Statement)
        → misfits st ≢ []
        → Fails (execute db building executing st)
    unfolding execute
    execute-Fails building executing st wrong s = elim (Result-cases (db.to_sql st)) [
      | inr (e, bad) ↦ (building ++ e, s, rw (bad, execute) refl)
      | inl ((query, args), built) ↦
          let (e, s', refused) = migrated.exec-refused st query args s built wrong in
          (executing ++ e, s', rw (built, refused, execute) refl)
    ]

    tx_execute-Fails :
        (building executing : Text) (st : Statement)
        → misfits st ≢ []
        → Fails (tx_execute db building executing st)
    unfolding tx_execute
    tx_execute-Fails building executing st wrong s = elim (Result-cases (db.to_sql st)) [
      | inr (e, bad) ↦ (building ++ e, s, rw (bad, tx_execute) refl)
      | inl ((query, args), built) ↦
          let (e, s', refused) = migrated.tx_exec-refused st query args s built wrong in
          (executing ++ e, s', rw (built, refused, tx_execute) refl)
    ]

    execute_then-Fails :
        {A : Type 0} (building executing : Text) (st : Statement) (k : Op S A)
        → misfits st ≢ []
        → Fails (execute db building executing st >> k)
    execute_then-Fails building executing st k wrong =
        first-Fails (execute db building executing st) (λ _. k)
          (execute-Fails building executing st wrong)

    tx_execute_then-Fails :
        {A : Type 0} (building executing : Text) (st : Statement) (k : Op S A)
        → misfits st ≢ []
        → Fails (tx_execute db building executing st >> k)
    tx_execute_then-Fails building executing st k wrong =
        first-Fails (tx_execute db building executing st) (λ _. k)
          (tx_execute-Fails building executing st wrong)

    in_transaction-Fails :
        (beginning : Text) (body : Op S (Unit {0}))
        → Fails body
        → Fails (in_transaction db beginning body)
    unfolding in_transaction
    in_transaction-Fails beginning body fails s = elim (Reply-cases (db.begin s)) [
      | inl (_, s', begun) ↦
          let (e, s'', bad) = fails s' in
          (e, db.rollback s'', rw (begun, in_transaction) (rw bad refl))
      | inr (e, s', refused) ↦ (beginning ++ e, s', rw (refused, in_transaction) refl)
    ]

    create_user-Fails : (user : UserInfo) → Fails (create_user db user)
    unfolding create_user
    create_user-Fails user = then-Fails (uuid db) _ λ id.
        execute_then-Fails (bytes "failed to build query createUser: ")
          (bytes "failed to exec createUser: ") (insert_user id user)
          (pure (record user { id = id })) (insert_user-misfits id user)

    link_repos-Fails :
        (id user_id : Text) (at : ℕ) (repo : InstalledRepository) (repos : List InstalledRepository)
        → Fails (link_repos db id user_id at (repo ∷ repos))
    unfolding link_repos
    link_repos-Fails id user_id at repo repos =
        then-Fails (linked_rows db id user_id at (repo ∷ repos)) _ λ rows.
          tx_execute-Fails (bytes "failed to build repositories query: ")
            (bytes "failed to insert repositories: ") (insert_linked rows)
            (insert_linked-misfits rows)

    link_body-Fails :
        (installation_id : ℤ) (login : Text) (repo : InstalledRepository)
        (repos : List InstalledRepository)
        → Fails (link_body db installation_id login (repo ∷ repos))
    unfolding link_body
    link_body-Fails installation_id login repo repos = then-Fails (find_user db login) _ λ user_id.
        then-Fails (uuid db) _ λ id. then-Fails (timestamp db) _ λ at.
          then-Fails
            (tx_execute db (bytes "failed to build installation query: ")
              (bytes "failed to insert installation: ")
              (insert_installation id installation_id user_id at))
            _
            λ _.
              first-Fails (link_repos db id user_id at (repo ∷ repos)) (λ _. commit db)
                (link_repos-Fails id user_id at repo repos)

    save_body-Fails :
        (installation_id : ℤ) (repos : List InstalledRepository)
        → Fails (save_body db installation_id repos)
    unfolding save_body
    save_body-Fails installation_id repos =
        then-Fails (saved_rows db installation_id repos) _ λ rows.
          let st = insert_saved rows in
          tx_execute_then-Fails (bytes "failed to build repositories query: ")
            (bytes "failed to insert repositories: ") st (commit db) (insert_saved-misfits rows)

    pub save_deployment-Fails :
        (json : Codec Space) (def : AppDefinition) → Fails (save_deployment db json def)
    unfolding save_deployment
    save_deployment-Fails json def = then-Fails (uuid db) _ λ id.
        then-Fails (lift (bytes "failed to marshal app definition to json: ") (json.encode def.app))
          _
          λ payload. then-Fails (timestamp db) _ λ at.
            execute_then-Fails (bytes "failed to build SaveDeployment query: ")
              (bytes "failed to exec SaveDeployment: ") (insert_deployment id def payload at)
              (pure (record def { id = id })) (insert_deployment-misfits id def payload at)

    -- Of the inserts only that of an installation fits the migration, so four operations return an
    -- error, whatever the state: a user is never created, since "githubId" is not given; a link
    -- with repositories never succeeds, since there is no column "updatedAt"; nor does saving
    -- repositories, since "userId" and "branch" are not given; and no deployment is saved, since
    -- "user" is a reserved word.
    pub create_save_link-Fails :
        (json : Codec Space) (user : UserInfo) (def : AppDefinition) (user_id installation_id : ℤ)
        (login : Text) (repo : InstalledRepository) (repos : List InstalledRepository)
        → ((id uid : Text) (at : ℕ) → misfits (insert_installation id installation_id uid at) ≡ [])
          × Fails (create_user db user)
          × Fails (link_github db installation_id login (repo ∷ repos))
          × Fails (save_github_repos db user_id installation_id (repo ∷ repos))
          × Fails (save_deployment db json def)
    unfolding link_github save_github_repos
    create_save_link-Fails json user def user_id installation_id login repo repos = (
      λ id uid at. refl,
      create_user-Fails user,
      in_transaction-Fails (bytes "failed to begin transaction for LinkGithub: ")
          (link_body db installation_id login (repo ∷ repos))
          (link_body-Fails installation_id login repo repos),
      in_transaction-Fails (bytes "failed to begin transaction for SaveGithubRepos: ")
          (save_body db installation_id (repo ∷ repos))
          (save_body-Fails installation_id (repo ∷ repos)),
      save_deployment-Fails json def,
    )
