-- ===== src/Api/Deploying.antt =====
-- The webhook's handler on the program's own database.
use treenq.Base.{List, [], ◌∷◌, Result, ◌≡◌, ◌≢◌, refl, arith}
use treenq.Sdk.{Space}
use treenq.Vel.Rpc.{Codec}
use treenq.Domain.Types.{InstalledRepository, GithubWebhookRequest, AppDefinition, repos_to_process}
use treenq.Domain.Handler.{Handler, Op}
use treenq.Domain.Run.{
  M, ◌>>=◌, next, call, Outcome, done, failed, panicked, World, Event, extracted, built, saved,
}
use treenq.Domain.Webhook.{
  token_for, clone_repo, open_extractor, deploy_repo, deploy_repos, link_installation, webhook_body,
  github_webhook, build_request, definition,
}
use treenq.Repo.Store.{Sql}
use treenq.Repo.Store.Deployments.{save_deployment}
use treenq.Repo.Store.Schema.Refused.{IsMigrated, Fails, save_deployment-Fails}

-- A part of a run that never ends without an error or a panic.
abbrev pub Stops : {S A : Type 0} → M S A → Type 0
Stops {S} {A} m = (w : World S) (a : A) → (m w).0 ≢ done a

next-Stops :
    {S A B : Type 0} (f : A → M S B) (p : Outcome A × World S) (b : B)
    → ((a : A) → p.0 ≡ done a → (f a p.1).0 ≢ done b)
    → (next f p).0 ≢ done b
next-Stops f (done a, w) b h = h a refl
next-Stops f (failed e, w) b h = λ never. ground arith
next-Stops f (panicked e, w) b h = λ never. ground arith

module _ {S A B : Type 0} (m : M S A) (f : A → M S B) where
  first-Stops : Stops m → Stops (m >>= f)
  first-Stops stops w b = next-Stops f (m w) b (λ a ended. absurd (stops w a ended))

  then-Stops : ((a : A) → Stops (f a)) → Stops (m >>= f)
  then-Stops stops w b = next-Stops f (m w) b (λ a ended. stops a (m w).1 b)

call-Stops :
    {S A : Type 0} (event : Result A → Event) (op : Op S A) → Fails op → Stops (call event op)
unfolding call
call-Stops event op fails w a ended =
    let (e, s', bad) = fails w.state in let never = rw bad at ended in ground arith

module _ {S : Type 0} (h : Handler S) (req : GithubWebhookRequest)
    (unsaved : (def : AppDefinition) → Fails (h.db.save_deployment def)) where
  deploy_repo-Stops : (repo : InstalledRepository) → Stops (deploy_repo h req repo)
  unfolding deploy_repo
  deploy_repo-Stops repo = then-Stops (token_for h req repo) _ λ token.
      then-Stops (clone_repo h req repo token) _ λ repo_dir.
        then-Stops (open_extractor h req) _ λ extractor_id.
          then-Stops
            (call (extracted extractor_id repo_dir)
              (h.extractor.extract_config extractor_id repo_dir))
            _
            λ space.
              then-Stops
                (call (built (build_request repo_dir space))
                  (h.docker.build (build_request repo_dir space)))
                _
                λ image.
                  let def = definition req space image in
                  first-Stops (call (saved def) (h.db.save_deployment def)) _
                    (call-Stops (saved def) (h.db.save_deployment def) (unsaved def))

  pub webhook_body-Stops : repos_to_process req ≢ [] → Stops (webhook_body h req)
  unfolding webhook_body deploy_repos
  webhook_body-Stops some_repo =
      then-Stops (link_installation h req) (λ _. deploy_repos h req (repos_to_process req))
        λ _. all (repos_to_process req) some_repo
    where
      all : (repos : List InstalledRepository) → repos ≢ [] → Stops (deploy_repos h req repos)
      all [] none_of = absurd (none_of refl)
      all (repo ∷ repos) _ =
          first-Stops (deploy_repo h req repo) (λ _. deploy_repos h req repos)
            (deploy_repo-Stops repo)

-- On a database with the migration's tables, and where deployments are saved by the program's own
-- store, a webhook with a repository to process is never answered without an error: it fails, or
-- the handler panics, whatever the other interfaces answer.
pub github_webhook-Stops :
    {S Cell : Type 0} (h : Handler S) (req : GithubWebhookRequest) (db : Sql S Cell)
    (json : Codec Space) (s : S)
    → IsMigrated db
    → ((def : AppDefinition) → h.db.save_deployment def ≡ save_deployment db json def)
    → repos_to_process req ≢ []
    → (github_webhook h req s).0 ≢ done tt
unfolding github_webhook
github_webhook-Stops h req db json s migrated own some_repo =
    webhook_body-Stops h req (λ def. rw (own def) (save_deployment-Fails db migrated json def))
      some_repo (record { state = s; events = []; deferred = [] }) tt
