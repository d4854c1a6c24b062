-- ===== src/Domain/Webhook/Shipping.antt =====
-- What a successful run of the webhook's handler has done.
use treenq.Base.{
  List, [], ◌∷◌, ◌++◌, Bool, true, false, Text, bytes, text_eq, Result, ok, returns, ◌≡◌, refl,
  subst, if◌then◌else◌,
}
use treenq.Sdk.{Space}
use treenq.Domain.Types.{
  InstalledRepository, GithubWebhookRequest, repos_to_process, clone_url, Image, AppDefinition,
}
use treenq.Domain.Handler.{Handler, Done}
use treenq.Domain.Run.{
  M, pure, call, done, Event, linked, token_issued, cloned, opened, extracted, built, saved,
  applied, removed, closed,
}
use treenq.Domain.Run.Post.{Post, run-Post, releases_of}
use treenq.Domain.Run.Rules.{
  OnDone, Yields, call-Yields, acquire-Post, >>=-OnDone, attempt-Computes, Computes, pure-OnDone,
  OnDone-mono, OnDone-of,
}
use treenq.Domain.Webhook.{
  token_for, clone_repo, open_extractor, deploy_repo, deploy_repos, link_installation, webhook_body,
  github_webhook, build_request, definition,
}

module _ {S : Type 0} (h : Handler S) (req : GithubWebhookRequest) where
  -- The log of fetching a token: one call for a private repository, none for a public one.
  abbrev pub Fetches : Bool → List Event → Text → Type 0
  Fetches true es token = es ≡ token_issued req.installation.id (ok token) ∷ []
  Fetches false es token = (es ≡ []) × (token ≡ [])

  -- The log of one repository that was taken to the cluster: what each step returned is what the
  -- later steps were given.
  pub record Ships (repo : InstalledRepository) (es : List Event) : Type 0 where
    pub fetching : List Event
    pub token : Text
    pub repo_dir : Text
    pub extractor_id : Text
    pub space : Space
    pub image : Image
    pub app_def : AppDefinition
    pub manifest : Text
    pub fetched : Fetches repo.private fetching token
    pub defined : h.kube.define_app app_def.id space image ≡ returns manifest
    pub log :
        es
        ≡ fetching
          ++ cloned (clone_url repo) req.installation.id repo.id token (ok repo_dir)
            ∷ opened (ok extractor_id)
            ∷ extracted extractor_id repo_dir (ok space)
            ∷ built (build_request repo_dir space) (ok image)
            ∷ saved (definition req space image) (ok app_def)
            ∷ applied h.kube_config manifest (ok tt)
            ∷ []

  abbrev pub ShipsAll : List InstalledRepository → List Event → Type 0
  ShipsAll [] es = es ≡ []
  ShipsAll (repo ∷ repos) es =
      (first : List Event) × (later : List Event) × (es ≡ first ++ later)
      × Ships repo first
      × ShipsAll repos later

  -- The installation is recorded for an app install alone.
  abbrev pub Links : List Event → Type 0
  Links es = es ≡ (
      if text_eq req.action (bytes "created")
      then linked req.installation.id req.sender.login req.repositories (ok tt) ∷ []
      else [])

  token_for-Fetches :
      (repo : InstalledRepository) → Post (OnDone (Fetches repo.private)) (token_for h req repo)
  unfolding token_for
  token_for-Fetches repo = go repo.private
    where
      fetch : M S Text
      fetch =
          call (token_issued req.installation.id)
            (h.github_client.issue_access_token req.installation.id)

      go : (b : Bool) → Post (OnDone (Fetches b)) (if b then fetch else (λ w. (done [], w)))
      go true = call-Yields (token_issued req.installation.id) _ (λ _. refl)
      go false = pure-OnDone {A = Text} []

  clone_repo-Yields :
      (repo : InstalledRepository) (token : Text)
      → Post
          (OnDone (Yields (cloned (clone_url repo) req.installation.id repo.id token)))
          (clone_repo h req repo token)
  unfolding clone_repo
  clone_repo-Yields repo token = OnDone-of _ (clone_repo h req repo token) (
      acquire-Post (cloned (clone_url repo) req.installation.id repo.id token) removed (λ _. refl)
        (λ _. refl) _)

  open_extractor-Yields : Post (OnDone (Yields opened)) (open_extractor h req)
  unfolding open_extractor
  open_extractor-Yields =
      OnDone-of _ (open_extractor h req) (acquire-Post opened closed (λ _. refl) (λ _. refl) _)

  deploy_repo-Ships :
      (repo : InstalledRepository) → Post (OnDone (λ es _. Ships repo es)) (deploy_repo h req repo)
  unfolding deploy_repo
  deploy_repo-Ships repo =
      >>=-OnDone (Fetches repo.private) _ _ _ (token_for-Fetches repo) λ fetching token fetched.
        >>=-OnDone (Yields (cloned (clone_url repo) req.installation.id repo.id token)) _ _ _
          (clone_repo-Yields repo token)
          λ es₁ repo_dir e₁.
            >>=-OnDone (Yields opened) _ _ _ open_extractor-Yields λ es₂ extractor_id e₂.
              >>=-OnDone (Yields (extracted extractor_id repo_dir)) _ _ _
                (call-Yields (extracted extractor_id repo_dir) _ (λ _. refl))
                λ es₃ space e₃.
                  >>=-OnDone (Yields (built (build_request repo_dir space))) _ _ _
                    (call-Yields (built (build_request repo_dir space)) _ (λ _. refl))
                    λ es₄ image e₄.
                      >>=-OnDone (Yields (saved (definition req space image))) _ _ _
                        (call-Yields (saved (definition req space image)) _ (λ _. refl))
                        λ es₅ app_def e₅.
                          >>=-OnDone (Computes (h.kube.define_app app_def.id space image)) _ _ _
                            (attempt-Computes (h.kube.define_app app_def.id space image))
                            λ es₆ manifest e₆.
                              OnDone-mono (Yields (applied h.kube_config manifest)) _
                                (call (applied h.kube_config manifest)
                                  (h.kube.apply h.kube_config manifest))
                                (λ es₇ done e₇. record {
                                  fetching = fetching;
                                  token = token;
                                  repo_dir = repo_dir;
                                  extractor_id = extractor_id;
                                  space = space;
                                  image = image;
                                  app_def = app_def;
                                  manifest = manifest;
                                  fetched = fetched;
                                  defined = e₆.1;
                                  log = (rw (e₁, e₂, e₃, e₄, e₅, e₆.0, e₇) refl);
                                })
                                (call-Yields (applied h.kube_config manifest) _ (λ _. refl))

  deploy_repos-ShipsAll :
      (repos : List InstalledRepository)
      → Post (OnDone (λ es _. ShipsAll repos es)) (deploy_repos h req repos)
  unfolding deploy_repos
  deploy_repos-ShipsAll [] =
      OnDone-mono (λ es b. (es ≡ []) × (b ≡ tt)) _ (pure tt) (λ es _ p. p.0) (pure-OnDone tt)
  deploy_repos-ShipsAll (repo ∷ repos) =
      >>=-OnDone (λ es _. Ships repo es) _ _ _ (deploy_repo-Ships repo)
        λ first _ shipped.
          OnDone-mono (λ es _. ShipsAll repos es) _ (deploy_repos h req repos)
            (λ later _ all. (first, later, refl, shipped, all)) (deploy_repos-ShipsAll repos)

  link_installation-Links : Post (OnDone (λ es _. Links es)) (link_installation h req)
  unfolding link_installation
  link_installation-Links = go (text_eq req.action (bytes "created"))
    where
      link : Result Done → Event
      link = linked req.installation.id req.sender.login req.repositories

      record_it : M S Done
      record_it = call link (h.db.link_github req.installation.id req.sender.login req.repositories)

      go :
          (b : Bool)
          → Post
              (OnDone (λ es _. es ≡ (if b then link (ok tt) ∷ [] else [])))
              (if b then record_it else (λ w. (done tt, w)))
      go true = OnDone-mono (Yields link) _ record_it (λ es _ p. p) (call-Yields link _ (λ _. refl))
      go false =
          OnDone-mono (λ es b. (es ≡ []) × (b ≡ tt)) _ (pure tt) (λ es _ p. p.0) (pure-OnDone tt)

  abbrev pub Accepted : List Event → Type 0
  Accepted es =
      (linking : List Event) × (shipping : List Event) × (es ≡ linking ++ shipping)
      × Links linking
      × ShipsAll (repos_to_process req) shipping

  webhook_body-Accepted : Post (OnDone (λ es _. Accepted es)) (webhook_body h req)
  unfolding webhook_body
  webhook_body-Accepted =
      >>=-OnDone (λ es _. Links es) _ _ _ link_installation-Links
        λ linking _ p.
          OnDone-mono (λ es _. ShipsAll (repos_to_process req) es) _
            (deploy_repos h req (repos_to_process req))
            (λ shipping _ q. (linking, shipping, refl, p, q))
            (deploy_repos-ShipsAll (repos_to_process req))

  -- When the handler answers without an error, its calls are exactly these, in this order: the
  -- recording of the installation if the action is "created", then for each repository to process
  -- a token if it is private, the clone, a builder, the extraction of the configuration from the
  -- clone, the build of its image, the saving of the deployment with that configuration, the
  -- image's tag, the commit and the sender, and the application of the manifest that is defined
  -- from the saved id, the configuration and the image. After these come the releases.
  pub github_webhook-Accepted :
      (s : S)
      → (github_webhook h req s).0 ≡ done tt
      → (body : List Event) × ((github_webhook h req s).1 ≡ body ++ releases_of body)
        × Accepted body
  unfolding github_webhook
  github_webhook-Accepted s answered =
      let (body, same, end) =
        run-Post h (OnDone (λ es _. Accepted es)) (webhook_body h req) s webhook_body-Accepted in
      (body, same, subst (λ o. OnDone (λ es _. Accepted es) body o) answered end)
