-- ===== src/Domain/Webhook/Selection.antt =====
-- Which repositories a webhook is about, and the webhooks that are about none.
use treenq.Base.{[], Text, bytes, text_eq_iff, ◌≡◌, ◌≢◌, arith, ◌⊎◌}
use treenq.Domain.Types.{GithubWebhookRequest, repos_to_process}
use treenq.Domain.Handler.{Handler}
use treenq.Domain.Run.{done, run_deferred}
use treenq.Domain.Webhook.{github_webhook, link_installation, deploy_repos}

abbrev pub IsDeployRef : Text → Type 0
IsDeployRef ref = (ref ≡ bytes "refs/heads/master") ⊎ (ref ≡ bytes "refs/heads/main")

-- A request with an action other than "created" and "added" that is not a push to a deploying
-- branch makes no call, leaves the state as it is and is answered without an error.
pub github_webhook_ignored :
    {S : Type 0} (h : Handler S) (req : GithubWebhookRequest) (s : S)
    → req.action ≢ bytes "created"
    → req.action ≢ bytes "added"
    → (req.action ≡ [] → ¬ (IsDeployRef req.ref))
    → github_webhook h req s ≡ (done tt, [], s)
unfolding github_webhook link_installation deploy_repos repos_to_process run_deferred
github_webhook_ignored h req s created added push = ground (
  arith,
  text_eq_iff req.action (bytes "created"),
  text_eq_iff req.action (bytes "added"),
  text_eq_iff req.action [],
  text_eq_iff req.ref (bytes "refs/heads/master"),
  text_eq_iff req.ref (bytes "refs/heads/main"),
)
