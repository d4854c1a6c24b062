-- ===== src/Domain/Deployments.antt =====
-- src/domain/rollback.go, getDeploymentHistory.go, deploy.go, connectBranch.go and info.go. The
-- deployment of an old definition is not implemented in the source: it panics.
pub mod Rollback
use treenq.Base.{
  List, [], ◌∷◌, Text, bytes, text_eq, Result, ok, err, Panicking, returns, panics, if◌then◌else◌,
}
use treenq.Go.{ℤ}
use treenq.Vel.Error.{VelError, unknown, Outcome, done, failed, panicked}
use treenq.Domain.Types.{AppDefinition}
use treenq.Domain.Handler.{Handler, Done}

pub record RollbackRequest : Type 0 where
  pub app_id : Text
  pub tag : Text
  pub sha : Text

unfoldable pub deploy_definition : AppDefinition → Panicking (Result Done)
deploy_definition def = panics (bytes "NOT IMPLEMENTED")

abbrev pub deployed : Panicking (Result Done) → Outcome Done
deployed (returns (ok _)) = done tt
deployed (returns (err e)) = failed (unknown e)
deployed (panics m) = panicked m

infixl 5 ◌>>◌
abbrev pub ◌>>◌ {ℓ} : {A : Type ℓ} → Outcome Done → Outcome A → Outcome A
done _ >> k = k
failed e >> k = failed e
panicked m >> k = panicked m

-- One round of the loop: a definition that matches twice is deployed twice.
unfoldable pub roll_back_to : RollbackRequest → AppDefinition → Outcome Done
unfolding deploy_definition
roll_back_to req def =
    (if text_eq def.tag req.tag then deployed (deploy_definition def) else done tt)
    >> (if text_eq def.sha req.sha then deployed (deploy_definition def) else done tt)

unfoldable pub roll_back_all : RollbackRequest → List AppDefinition → Outcome Done
unfolding roll_back_to
roll_back_all req [] = done tt
roll_back_all req (def ∷ history) = roll_back_to req def >> roll_back_all req history

abbrev rolled_back :
    {S : Type 0}
    → RollbackRequest
    → Result (List AppDefinition) × S
    → Outcome (List AppDefinition) × S
rolled_back req (err e, s) = (failed (unknown e), s)
rolled_back req (ok history, s) = (roll_back_all req history >> done history, s)

unfoldable pub rollback :
    {S : Type 0} → Handler S → RollbackRequest → S → Outcome (List AppDefinition) × S
unfolding roll_back_all
rollback h req s = rolled_back req (h.db.get_deployment_history req.app_id s)

abbrev pub or_failed {ℓ} : {A : Type ℓ} {S : Type 0} → Result A × S → Outcome A × S
or_failed (ok a, s) = (done a, s)
or_failed (err e, s) = (failed (unknown e), s)

unfoldable pub get_deployment_history :
    {S : Type 0} → Handler S → Text → S → Outcome (List AppDefinition) × S
get_deployment_history h app_id s = or_failed (h.db.get_deployment_history app_id s)

pub record DeployRequest : Type 0 where
  pub repo : Text
  pub branch : Text
  pub app_id : Text

unfoldable pub deploy : {S : Type 0} → DeployRequest → S → Outcome Done × S
deploy req s = (done tt, s)

pub record ConnectBranchRequest : Type 0 where
  pub repo_id : ℤ
  pub branch : Text

unfoldable pub connect_branch : {S : Type 0} → ConnectBranchRequest → S → Outcome Done × S
connect_branch req s = (done tt, s)

abbrev pub version : Text
version = bytes "develop"

unfoldable pub info : {S : Type 0} → S → Outcome Text × S
info s = (done version, s)
