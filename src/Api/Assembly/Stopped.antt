-- ===== src/Api/Assembly/Stopped.antt =====
-- The webhooks of the program as `New` puts it together, on a migrated database.
use treenq.Base.{[], Text, ◌≢◌, refl}
use treenq.Domain.Types.{GithubWebhookRequest, repos_to_process}
use treenq.Domain.Handler.{Op}
use treenq.Domain.Run.{done}
use treenq.Domain.Webhook.{github_webhook}
use treenq.Repo.Store.{Sql}
use treenq.Repo.Store.Deployments.{save_deployment}
use treenq.Repo.Store.Schema.Refused.{IsMigrated, Fails, save_deployment-Fails}
use treenq.Repo.Github.{Memory}
use treenq.Api.{Config}
use treenq.Api.Deploying.{webhook_body-Stops}
use treenq.Api.Assembly.{Outside, outside, handlers_in}

outside-Fails : {S A : Type 0} (op : Op S A) → Fails op → Fails (outside op)
outside-Fails op fails m =
    let (e, s, failed) = fails m.world in (e, record m { world = s }, (rw failed refl))

-- On a database with the migration's tables, the webhook's handler of the program as it is put
-- together never answers a webhook with a repository to process without an error: it fails, or it
-- panics, whatever GitHub, git, docker and the cluster answer.
pub handlers_in-Stops :
    {S : Type 0} (out : Outside S) (conf : Config) (wd : Text) (db : Sql S out.Cell)
    (req : GithubWebhookRequest) (m : Memory S)
    → IsMigrated db
    → repos_to_process req ≢ []
    → (github_webhook (handlers_in out conf wd db) req m).0 ≢ done tt
unfolding github_webhook handlers_in
handlers_in-Stops out conf wd db req m migrated some_repo =
    webhook_body-Stops (handlers_in out conf wd db) req
      (λ def.
        outside-Fails (save_deployment db out.space_json def)
          (save_deployment-Fails db migrated out.space_json def))
      some_repo (record { state = m; events = []; deferred = [] }) tt
