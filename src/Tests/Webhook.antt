-- ===== src/Tests/Webhook.antt =====
-- The webhook's theorems on an install of two repositories, and a rollback.
use treenq.Base.{
  ℕ, List, [], ◌∷◌, ◌++◌, Text, bytes, text_apart, ok, err, ◌≡◌, ◌⊎◌, refl, All, false,
}
use treenq.Domain.Types.{GithubWebhookRequest, AppDefinition, repos_to_process}
use treenq.Domain.Run.{Event, done, failed, panicked, call, defer, attempt}
use treenq.Domain.Run.Post.{releases_of, Explains, is_release}
use treenq.Domain.Webhook.{
  github_webhook, link_installation, deploy_repos, deploy_repo, token_for, clone_repo,
  open_extractor,
}
use treenq.Domain.Webhook.Cleanup.{github_webhook-Explains, github_webhook_releases}
use treenq.Domain.Webhook.Shipping.{github_webhook-Accepted, Accepted}
use treenq.Domain.Webhook.Selection.{github_webhook_ignored}
use treenq.Domain.Deployments.{rollback, RollbackRequest}
use treenq.Domain.Deployments.Rollback.{rollback-cases, IsTarget}
use treenq.Domain.Handler.{Handler}
use treenq.Vel.Error.{unknown}
use treenq.Tests.Demo.{handler, broken_handler, install, give, space}

-- A link, a token and the two repositories' steps, then four releases: 18 calls. Where builds fail
-- the error comes back.
install_runs :
    ((github_webhook handler install 0).0 ≡ done tt)
    × ((github_webhook handler install 0).2 ≡ 18)
    × ((github_webhook broken_handler install 0).0 ≡ failed (unknown (bytes "no space left")))
unfolding github_webhook link_installation call deploy_repos repos_to_process deploy_repo token_for
    clone_repo defer open_extractor attempt
install_runs = (refl, refl, refl)

github_webhook-Explains_example :
    (body : List Event) × ((github_webhook broken_handler install 0).1 ≡ body ++ releases_of body)
    × Explains body (github_webhook broken_handler install 0).0
github_webhook-Explains_example = github_webhook-Explains broken_handler install 0

github_webhook_releases_example :
    (body : List Event) × ((github_webhook broken_handler install 0).1 ≡ body ++ releases_of body)
    × All (λ e. is_release e ≡ false) body
github_webhook_releases_example = github_webhook_releases broken_handler install 0

github_webhook-Accepted_example :
    (body : List Event) × ((github_webhook handler install 0).1 ≡ body ++ releases_of body)
    × Accepted handler install body
github_webhook-Accepted_example = github_webhook-Accepted handler install 0 install_runs.0

abbrev suspend : GithubWebhookRequest
suspend = record install { action = bytes "suspend" }

github_webhook_ignored_example : github_webhook handler suspend 5 ≡ (done tt, [], 5)
github_webhook_ignored_example =
    github_webhook_ignored handler suspend 5 (text_apart (bytes "suspend") (bytes "created") refl)
      (text_apart (bytes "suspend") (bytes "added") refl)
      (λ e. absurd (text_apart (bytes "suspend") [] refl e))

abbrev old : AppDefinition
old = record {
  id = bytes "d0";
  app_id = bytes "a1";
  app = space;
  tag = bytes "v1";
  sha = bytes "beef";
  user = bytes "ann";
  created_at = [];
}

abbrev with_history : Handler ℕ
with_history = record handler {
  db = record (handler.db) { get_deployment_history = λ app_id. give (old ∷ []) };
}

abbrev to_v1 : RollbackRequest
to_v1 = record { app_id = bytes "a1"; tag = bytes "v1"; sha = bytes "cafe" }

rollback-cases_example :
    ((e : Text) × (ok (old ∷ []) ≡ err e)
      × (rollback with_history to_v1 0 ≡ (failed (unknown e), 1)))
    ⊎ ((history : List AppDefinition) × (ok (old ∷ []) ≡ ok history)
        × All (λ def. ¬ (IsTarget to_v1 def)) history
        × (rollback with_history to_v1 0 ≡ (done history, 1)))
    ⊎ ((history : List AppDefinition) × (ok (old ∷ []) ≡ ok history)
        × ¬ (All (λ def. ¬ (IsTarget to_v1 def)) history)
        × (rollback with_history to_v1 0 ≡ (panicked (bytes "NOT IMPLEMENTED"), 1)))
rollback-cases_example = rollback-cases to_v1 with_history 0 1 (ok (old ∷ [])) refl
