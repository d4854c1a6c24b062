-- ===== src/Domain/Webhook/Cleanup.antt =====
-- Every run of the webhook's handler releases what it acquired, and its end fits its calls.
use treenq.Base.{
  List, [], ◌∷◌, ◌++◌, false, Text, bytes, text_eq, All, All-append, ok, err, ◌≡◌, refl,
}
use treenq.Domain.Types.{InstalledRepository, GithubWebhookRequest, repos_to_process, clone_url}
use treenq.Domain.Handler.{Handler}
use treenq.Domain.Run.{
  M, Outcome, done, failed, panicked, Event, linked, token_issued, cloned, opened, extracted, built,
  saved, applied, removed, closed,
}
use treenq.Domain.Run.Post.{Post, Explains, run-Post, releases_of, is_release, Succeeded}
use treenq.Domain.Run.Rules.{
  pure-Explains, if-Post, call-Explains, acquire-Explains, >>=-Explains, attempt-Explains,
}
use treenq.Domain.Webhook.{
  token_for, clone_repo, open_extractor, deploy_repo, deploy_repos, link_installation, webhook_body,
  github_webhook, build_request, definition,
}

module _ {S : Type 0} (h : Handler S) (req : GithubWebhookRequest) where
  abbrev Explained : {A : Type 0} → M S A → Type 0
  Explained m = Post Explains m

  token_for-Explains : (repo : InstalledRepository) → Explained (token_for h req repo)
  unfolding token_for
  token_for-Explains repo =
      if-Post Explains repo.private _ _
        (λ _. call-Explains (token_issued req.installation.id) _ (λ _. refl) (λ _. (refl, refl)))
        (λ _. pure-Explains {A = Text} [])

  clone_repo-Explains :
      (repo : InstalledRepository) (token : Text) → Explained (clone_repo h req repo token)
  unfolding clone_repo
  clone_repo-Explains repo token =
      acquire-Explains (cloned (clone_url repo) req.installation.id repo.id token) removed
        (λ _. refl) (λ _. refl) _ (elim [ ok _ ↦ (refl, refl) | err _ ↦ (refl, refl) ])

  open_extractor-Explains : Explained (open_extractor h req)
  unfolding open_extractor
  open_extractor-Explains =
      acquire-Explains opened closed (λ _. refl) (λ _. refl) _
        (elim [ ok _ ↦ (refl, refl) | err _ ↦ (refl, refl) ])

  deploy_repo-Explains : (repo : InstalledRepository) → Explained (deploy_repo h req repo)
  unfolding deploy_repo
  deploy_repo-Explains repo = >>=-Explains _ _ (token_for-Explains repo) λ token.
      >>=-Explains _ _ (clone_repo-Explains repo token) λ repo_dir.
        >>=-Explains _ _ open_extractor-Explains λ extractor_id.
          >>=-Explains _ _
            (call-Explains (extracted extractor_id repo_dir) _ (λ _. refl) (λ _. (refl, refl)))
            λ space.
              >>=-Explains _ _
                (call-Explains (built (build_request repo_dir space)) _ (λ _. refl)
                  (λ _. (refl, refl)))
                λ image.
                  >>=-Explains _ _
                    (call-Explains (saved (definition req space image)) _ (λ _. refl)
                      (λ _. (refl, refl)))
                    λ app_def. >>=-Explains _ _ (attempt-Explains _) λ manifest.
                      call-Explains (applied h.kube_config manifest) _ (λ _. refl)
                        (λ _. (refl, refl))

  deploy_repos-Explains : (repos : List InstalledRepository) → Explained (deploy_repos h req repos)
  unfolding deploy_repos
  deploy_repos-Explains [] = pure-Explains tt
  deploy_repos-Explains (repo ∷ repos) =
      >>=-Explains _ _ (deploy_repo-Explains repo) (λ _. deploy_repos-Explains repos)

  link_installation-Explains : Explained (link_installation h req)
  unfolding link_installation
  link_installation-Explains =
      if-Post Explains (text_eq req.action (bytes "created")) _ _
        (λ _.
          call-Explains (linked req.installation.id req.sender.login req.repositories) _ (λ _. refl)
            (λ _. (refl, refl)))
        (λ _. pure-Explains tt)

  webhook_body-Explains : Explained (webhook_body h req)
  unfolding webhook_body
  webhook_body-Explains =
      >>=-Explains _ _ link_installation-Explains
        (λ _. deploy_repos-Explains (repos_to_process req))

-- The log of a run is the handler's calls and then what they owe, whatever the interfaces answer,
-- and the run's end fits these calls: it succeeds or panics with every call successful, or it
-- returns the error of its last call, the only one that failed, under the code "UNKNOWN".
pub github_webhook-Explains :
    {S : Type 0} (h : Handler S) (req : GithubWebhookRequest) (s : S)
    → (body : List Event) × ((github_webhook h req s).1 ≡ body ++ releases_of body)
      × Explains body (github_webhook h req s).0
unfolding github_webhook
github_webhook-Explains h req s =
    run-Post h Explains (webhook_body h req) s (webhook_body-Explains h req)

All-is_release : (es : List Event) → All Succeeded es → All (λ e. is_release e ≡ false) es
All-is_release [] h = tt
All-is_release (e ∷ es) (p, h) = (p.0, All-is_release es h)

Explains-is_release :
    {A : Type 0} (es : List Event) (o : Outcome A)
    → Explains es o
    → All (λ e. is_release e ≡ false) es
Explains-is_release es (done a) h = All-is_release es h
Explains-is_release es (panicked e) h = All-is_release es h
Explains-is_release es (failed e) (prior, last, message, same, early, real, why, end) = rw same (
    All-append (λ e. is_release e ≡ false) prior (last ∷ []) (All-is_release prior early)
      (real, tt))

-- Whatever the interfaces answer, and also when the handler fails or panics on the way, the log
-- ends with one removal for each directory that was cloned and one closing for each builder that
-- was opened, the latest first, and nothing is released before that.
pub github_webhook_releases :
    {S : Type 0} (h : Handler S) (req : GithubWebhookRequest) (s : S)
    → (body : List Event) × ((github_webhook h req s).1 ≡ body ++ releases_of body)
      × All (λ e. is_release e ≡ false) body
github_webhook_releases h req s =
    let (body, same, fits) = github_webhook-Explains h req s in
    (body, same, Explains-is_release body (github_webhook h req s).0 fits)
