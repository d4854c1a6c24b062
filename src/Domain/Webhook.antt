-- ===== src/Domain/Webhook.antt =====
-- src/domain/githubWebhook.go: the handler of GitHub's webhook. It records a new installation and
-- takes each repository to process through clone, extraction, build, database and cluster.
pub mod Cleanup
pub mod Shipping
pub mod Selection
use treenq.Base.{List, [], ◌∷◌, Text, bytes, text_eq, if◌then◌else◌}
use treenq.Go.Path
use treenq.Domain.Types.{
  InstalledRepository, GithubWebhookRequest, repos_to_process, clone_url, BuildArtifactRequest,
  Image, AppDefinition,
}
use treenq.Sdk.{Space}
use treenq.Domain.Handler.{Handler, Done}
use treenq.Domain.Run.{
  M, pure, ◌>>=◌, ◌>>◌, call, defer, attempt, run, Outcome, Event, linked, token_issued, cloned,
  opened, extracted, built, saved, applied, removed, closed,
}

abbrev pub build_request : Text → Space → BuildArtifactRequest
build_request repo_dir space = record {
  name = space.service.name;
  path = repo_dir;
  dockerfile = Path.join repo_dir space.service.dockerfile_path;
  tag = bytes "latest";
}

-- The definition that is saved: the database gives it its id and its time.
abbrev pub definition : GithubWebhookRequest → Space → Image → AppDefinition
definition req space image = record {
  id = [];
  app_id = [];
  app = space;
  tag = image.tag;
  sha = req.after;
  user = req.sender.login;
  created_at = [];
}

module _ {S : Type 0} (h : Handler S) (req : GithubWebhookRequest) where
  -- A private repository needs a token of the installation.
  unfoldable pub token_for : InstalledRepository → M S Text
  token_for repo =
      if repo.private
      then call (token_issued req.installation.id)
          (h.github_client.issue_access_token req.installation.id)
      else pure []

  -- What is acquired is released when the handler returns, not at the end of the round.
  unfoldable pub clone_repo : InstalledRepository → Text → M S Text
  clone_repo repo token = do
    repo_dir ←
        call (cloned (clone_url repo) req.installation.id repo.id token)
          (h.git.clone (clone_url repo) req.installation.id repo.id token)
    defer (removed repo_dir)
    pure repo_dir

  unfoldable pub open_extractor : M S Text
  open_extractor = do
    extractor_id ← call opened h.extractor.open_builder
    defer (closed extractor_id)
    pure extractor_id

  -- One round of the handler's loop.
  unfoldable pub deploy_repo : InstalledRepository → M S Done
  deploy_repo repo = do
    token ← token_for repo
    repo_dir ← clone_repo repo token
    extractor_id ← open_extractor
    space ←
        call (extracted extractor_id repo_dir) (h.extractor.extract_config extractor_id repo_dir)
    image ←
        call (built (build_request repo_dir space)) (h.docker.build (build_request repo_dir space))
    app_def ←
        call (saved (definition req space image))
          (h.db.save_deployment (definition req space image))
    manifest ← attempt (h.kube.define_app app_def.id space image)
    call (applied h.kube_config manifest) (h.kube.apply h.kube_config manifest)

  unfoldable pub deploy_repos : List InstalledRepository → M S Done
  deploy_repos [] = pure tt
  deploy_repos (repo ∷ repos) = deploy_repo repo >> deploy_repos repos

  unfoldable pub link_installation : M S Done
  link_installation =
      if text_eq req.action (bytes "created")
      then call (linked req.installation.id req.sender.login req.repositories)
          (h.db.link_github req.installation.id req.sender.login req.repositories)
      else pure tt

  unfoldable pub webhook_body : M S Done
  webhook_body = link_installation >> deploy_repos (repos_to_process req)

  unfoldable pub github_webhook : S → Outcome Done × List Event × S
  unfolding run webhook_body
  github_webhook = run h webhook_body
