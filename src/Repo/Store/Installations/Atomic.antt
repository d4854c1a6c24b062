-- ===== src/Repo/Store/Installations/Atomic.antt =====
-- The transactions of src/repo/store.go on installations and their repositories.
use treenq.Base.{
  ℕ, List, [], ◌∷◌, ◌++◌, append-nil, length, Text, bytes, ok, Result-cases, inl, inr, ◌≡◌, refl,
  ◌∙◌, arith,
}
use treenq.Go.{ℤ}
use treenq.Domain.Types.{InstalledRepository}
use treenq.Domain.Handler.{Op}
use treenq.Repo.Store.{Value, Statement, spread, Sql, ◌>>=◌, ◌>>◌, one_text, tx_execute, commit}
use treenq.Repo.Store.Transactions.{
  IsTransactional, Ends, Ended-moved, commit-Ends, uuid-Ends, timestamp-Ends, tx_execute-Ends,
  AllOrNothing, in_transaction-AllOrNothing,
}
use treenq.Repo.Store.Installations.{
  select_user, insert_installation, linked_row, insert_linked, saved_row, insert_saved,
  delete_repos, linked_rows, saved_rows, link_repos, find_user, link_body, link_github, save_body,
  save_github_repos, remove_body, remove_github_repos,
}

-- The rows of the linked repositories, for the identifiers that were made for them.
abbrev pub rows_of : Text → Text → ℕ → List Text → List InstalledRepository → List (List Value)
rows_of installation user_id at (id ∷ ids) (repo ∷ repos) =
    linked_row installation user_id at id repo ∷ rows_of installation user_id at ids repos
rows_of installation user_id at _ _ = []

abbrev repo_statements : List InstalledRepository → List (List Value) → List Statement
repo_statements [] rows = []
repo_statements (_ ∷ _) rows = insert_linked rows ∷ []

-- What a link is meant to do: the installation is recorded for the sender, and, if there are
-- any, its repositories in their order, with the same user, installation and time.
abbrev pub IsLink : ℤ → List InstalledRepository → List Statement → Type 0
IsLink installation_id repos sts =
    (user_id : Text) × (id : Text) × (at : ℕ) × (ids : List Text) × (length ids ≡ length repos)
    × (sts
        ≡ insert_installation id installation_id user_id at
          ∷ repo_statements repos (rows_of id user_id at ids repos))

-- The rows of the saved repositories, each with a time of its own.
abbrev pub saved_rows_of : ℤ → List ℕ → List InstalledRepository → List (List Value)
saved_rows_of installation_id (at ∷ ats) (repo ∷ repos) =
    saved_row installation_id at repo ∷ saved_rows_of installation_id ats repos
saved_rows_of installation_id _ _ = []

abbrev pub IsSave : ℤ → List InstalledRepository → List Statement → Type 0
IsSave installation_id [] sts = sts ≡ []
IsSave installation_id (repo ∷ repos) sts =
    (ats : List ℕ) × (length ats ≡ length (repo ∷ repos))
    × (sts ≡ insert_saved (saved_rows_of installation_id ats (repo ∷ repos)) ∷ [])

abbrev pub IsRemoval : ℤ → List InstalledRepository → List Statement → Type 0
IsRemoval installation_id [] sts = sts ≡ []
IsRemoval installation_id (repo ∷ repos) sts =
    sts ≡ delete_repos installation_id (repo ∷ repos) ∷ []

module _ {S Cell D : Type 0} (db : Sql S Cell) (committed pending : S → D)
    (effect : Statement → D → D) (laws : IsTransactional db committed pending effect) where
  find_user-Ends :
      (R : List Statement → Type 0) (login : Text) (f : Text → Op S (Unit {0}))
      → ((id : Text) → Ends db committed pending effect R (f id))
      → Ends db committed pending effect R (find_user db login >>= f)
  unfolding find_user
  find_user-Ends R login f ends s = elim (Result-cases (db.to_sql (select_user login))) [
    | inr (m, e) ↦ rw (e, find_user) refl
    | inl ((query, args), e) ↦
        let (found, s') = db.tx_query_row query (spread args) s in
        elim (Result-cases (one_text db found)) [
          | inr (m, bad) ↦
              rw (e, bad, find_user) (laws.tx_query_row-committed query (spread args) s)
          | inl (id, good) ↦
              rw (e, good, find_user)
                (Ended-moved db committed pending effect laws R (f id s') (ends id s')
                  (laws.tx_query_row-committed query (spread args) s)
                  (laws.tx_query_row-pending query (spread args) s))
        ]
  ]

  linked_rows-ok :
      (installation user_id : Text) (at : ℕ) (repos : List InstalledRepository) (s : S)
      → (ids : List Text) × (s' : S) × (linked_rows db installation user_id at repos s
          ≡ (ok (rows_of installation user_id at ids repos), s'))
        × (length ids ≡ length repos)
        × (committed s' ≡ committed s)
        × (pending s' ≡ pending s)
  unfolding linked_rows
  linked_rows-ok installation user_id at [] s = ([], s, refl, refl, refl, refl)
  linked_rows-ok installation user_id at (repo ∷ repos) s =
      let (id, s₁) = db.new_uuid s in
      let (ids, s', e, n, c, p) = linked_rows-ok installation user_id at repos s₁ in
      (
        id ∷ ids,
        s',
        rw (e, ◌>>=◌) refl,
        omega (arith, n),
        c ∙ laws.new_uuid-committed s,
        p ∙ laws.new_uuid-pending s,
      )

  link_repos-Ends :
      (R : List Statement → Type 0) (installation user_id : Text) (at : ℕ)
      (repos : List InstalledRepository) (k : Op S (Unit {0}))
      → ((ids : List Text)
          → length ids ≡ length repos
          → Ends db committed pending effect
              (λ sts. R (repo_statements repos (rows_of installation user_id at ids repos) ++ sts))
              k)
      → Ends db committed pending effect R (link_repos db installation user_id at repos >> k)
  unfolding link_repos
  link_repos-Ends R installation user_id at [] k ends s = ends [] refl s
  link_repos-Ends R installation user_id at (repo ∷ repos) k ends s =
      let (ids, s', e, n, c, p) = linked_rows-ok installation user_id at (repo ∷ repos) s in
      let rows = rows_of installation user_id at ids (repo ∷ repos) in
      rw (e, ◌>>=◌)
        (Ended-moved db committed pending effect laws R
          ((tx_execute db (bytes "failed to build repositories query: ")
                (bytes "failed to insert repositories: ") (insert_linked rows)
              >> k)
            s')
          (tx_execute-Ends db committed pending effect laws R
            (bytes "failed to build repositories query: ") (bytes "failed to insert repositories: ")
            (insert_linked rows) k (ends ids n) s')
          c p)

  link_body-Ends :
      (installation_id : ℤ) (login : Text) (repos : List InstalledRepository)
      → Ends db committed pending effect
          (IsLink installation_id repos)
          (link_body db installation_id login repos)
  unfolding link_body
  link_body-Ends installation_id login repos =
      let R = IsLink installation_id repos in
      find_user-Ends R login _ λ user_id. uuid-Ends db committed pending effect laws R _ λ id.
        timestamp-Ends db committed pending effect laws R _ λ at.
          let st = insert_installation id installation_id user_id at in
          tx_execute-Ends db committed pending effect laws R
            (bytes "failed to build installation query: ") (bytes "failed to insert installation: ")
            st _
            (link_repos-Ends (λ sts. R (st ∷ sts)) id user_id at repos (commit db)
              λ ids n.
                commit-Ends db committed pending effect laws
                  (λ sts. R (st ∷ (repo_statements repos (rows_of id user_id at ids repos) ++ sts)))
                  (user_id, id, at, ids, n, rw append-nil refl))

  -- A link is all or nothing: an error leaves the data as it was, whichever step failed, the
  -- commit included, and without one the data has the installation and its repositories.
  pub link_github-AllOrNothing :
      (installation_id : ℤ) (login : Text) (repos : List InstalledRepository) (s : S)
      → AllOrNothing db committed pending effect
          (IsLink installation_id repos)
          s
          (link_github db installation_id login repos s)
  unfolding link_github
  link_github-AllOrNothing installation_id login repos s =
      in_transaction-AllOrNothing db committed pending effect laws (IsLink installation_id repos)
        (bytes "failed to begin transaction for LinkGithub: ")
        (link_body db installation_id login repos) s (link_body-Ends installation_id login repos)

  saved_rows-ok :
      (installation_id : ℤ) (repos : List InstalledRepository) (s : S)
      → (ats : List ℕ) × (s' : S) × (saved_rows db installation_id repos s
          ≡ (ok (saved_rows_of installation_id ats repos), s'))
        × (length ats ≡ length repos)
        × (committed s' ≡ committed s)
        × (pending s' ≡ pending s)
  unfolding saved_rows
  saved_rows-ok installation_id [] s = ([], s, refl, refl, refl, refl)
  saved_rows-ok installation_id (repo ∷ repos) s =
      let (at, s₁) = db.now s in
      let (ats, s', e, n, c, p) = saved_rows-ok installation_id repos s₁ in
      (
        at ∷ ats,
        s',
        rw (e, ◌>>=◌) refl,
        omega (arith, n),
        c ∙ laws.now-committed s,
        p ∙ laws.now-pending s,
      )

  save_body-Ends :
      (installation_id : ℤ) (repo : InstalledRepository) (repos : List InstalledRepository)
      → Ends db committed pending effect
          (IsSave installation_id (repo ∷ repos))
          (save_body db installation_id (repo ∷ repos))
  unfolding save_body
  save_body-Ends installation_id repo repos s =
      let R = IsSave installation_id (repo ∷ repos) in
      let (ats, s', e, n, c, p) = saved_rows-ok installation_id (repo ∷ repos) s in
      let rows = saved_rows_of installation_id ats (repo ∷ repos) in
      rw (e, ◌>>=◌)
        (Ended-moved db committed pending effect laws R
          ((tx_execute db (bytes "failed to build repositories query: ")
                (bytes "failed to insert repositories: ") (insert_saved rows)
              >> commit db)
            s')
          (tx_execute-Ends db committed pending effect laws R
            (bytes "failed to build repositories query: ") (bytes "failed to insert repositories: ")
            (insert_saved rows) (commit db)
            (commit-Ends db committed pending effect laws _ (ats, n, refl)) s')
          c p)

  -- Saving repositories and removing them are all or nothing too: one statement for all of them,
  -- and none where there are none. Each saved row has a time of its own.
  pub github_repos-AllOrNothing :
      (user_id installation_id : ℤ) (repos : List InstalledRepository) (s : S)
      → AllOrNothing db committed pending effect
          (IsSave installation_id repos)
          s
          (save_github_repos db user_id installation_id repos s)
        × AllOrNothing db committed pending effect
            (IsRemoval installation_id repos)
            s
            (remove_github_repos db installation_id repos s)
  unfolding save_github_repos remove_github_repos remove_body
  github_repos-AllOrNothing user_id installation_id [] s =
      (inr (s, [], refl, refl, refl), inr (s, [], refl, refl, refl))
  github_repos-AllOrNothing user_id installation_id (repo ∷ repos) s = (
    in_transaction-AllOrNothing db committed pending effect laws
        (IsSave installation_id (repo ∷ repos))
        (bytes "failed to begin transaction for SaveGithubRepos: ")
        (save_body db installation_id (repo ∷ repos)) s (save_body-Ends installation_id repo repos),
    in_transaction-AllOrNothing db committed pending effect laws
        (IsRemoval installation_id (repo ∷ repos))
        (bytes "failed to begin transaction for RemoveGithubRepos: ") _ s
        (tx_execute-Ends db committed pending effect laws (IsRemoval installation_id (repo ∷ repos))
          (bytes "failed to build delete query: ") (bytes "failed to delete repositories: ") _ _
          (commit-Ends db committed pending effect laws _ refl)),
  )
