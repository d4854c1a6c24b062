-- ===== src/Api/Assembly/Unread.antt =====
-- The deployments that the program as `New` puts it together cannot read.
use treenq.Base.{
  ℕ, List, [], ◌∷◌, ◌++◌, Text, bytes, Option, ok, err, Result-cases, inl, inr, ◌≡◌, refl,
}
use treenq.Vel.Error.{VelError, failed, unknown}
use treenq.Vel.Rpc.{Codec}
use treenq.Domain.Deployments
use treenq.Domain.Deployments.{RollbackRequest, rollback}
use treenq.Repo.Store.{Value, select, equals, values, Sql}
use treenq.Repo.Store.Deployments.{select_history, get_deployment_history}
use treenq.Repo.Store.Schema.Refused.{Fails}
use treenq.Repo.Github.{Memory}
use treenq.Api.{Config}
use treenq.Api.Assembly.{Outside, handlers_in}

-- A driver that takes no slice for a parameter which is compared with a column: an argument is to be
-- one of the values that a driver knows.
pub record TakesNoSlice {S Cell : Type 0} (db : Sql S Cell) : Type 0 where
  pub slice_refused :
      (columns : List Text) (table column : Text) (v : Value) (order : List Text) (limit : Option ℕ)
      (query : Text) (args : List Value) (s : S)
      → db.to_sql (select columns table (equals column v ∷ []) order limit) ≡ ok (query, args)
      → (e : Text) × (s' : S) × (db.query query (values args ∷ []) s ≡ (err e, s'))

get_deployment_history-Fails :
    {S Cell : Type 0} (db : Sql S Cell) (text_json : Codec Text) (app_id : Text)
    → TakesNoSlice db
    → Fails (get_deployment_history db text_json app_id)
unfolding get_deployment_history
get_deployment_history-Fails db text_json app_id strict s =
    elim (Result-cases (db.to_sql (select_history app_id))) [
      | inr (m, bad) ↦ (bytes "failed to build SaveDeployment query: " ++ m, s, rw bad refl)
      | inl ((query, args), built) ↦
          let (e, s', refused) = strict.slice_refused _ _ _ _ _ _ query args s built in
          (bytes "failed to query GetDeploymentHistory: " ++ e, s', rw (built, refused) refl)
    ]

outside-get_deployment_history :
    {S : Type 0} (out : Outside S) (conf : Config) (wd : Text) (db : Sql S out.Cell) (app_id : Text)
    → TakesNoSlice db
    → Fails ((handlers_in out conf wd db).db.get_deployment_history app_id)
unfolding handlers_in
outside-get_deployment_history out conf wd db app_id strict m =
    let (e, s', unread) = get_deployment_history-Fails db out.text_json app_id strict m.world in
    (e, record m { world = s' }, (rw unread refl))

-- On a database whose driver takes no slice for a parameter that is compared with a column, the
-- program as it is put together answers every question for a history and every rollback with an
-- error, since the store gives the values of the history's query as one argument.
pub handlers_in-Unread :
    {S : Type 0} (out : Outside S) (conf : Config) (wd : Text) (db : Sql S out.Cell) (app_id : Text)
    (req : RollbackRequest) (m : Memory S)
    → TakesNoSlice db
    → ((e : VelError) × (m' : Memory S) × (Deployments.get_deployment_history
            (handlers_in out conf wd db)
            app_id
            m
          ≡ (failed e, m')))
      × ((e : VelError) × (m' : Memory S) × (rollback (handlers_in out conf wd db) req m
            ≡ (failed e, m')))
unfolding Deployments.get_deployment_history rollback
handlers_in-Unread out conf wd db app_id req m strict =
    let (e, m', unread) = outside-get_deployment_history out conf wd db app_id strict m in
    let (e', m'', unread') = outside-get_deployment_history out conf wd db req.app_id strict m in
    ((unknown e, m', (rw unread refl)), (unknown e', m'', (rw unread' refl)))
