-- ===== src/Domain/Handler.antt =====
-- src/domain/handler.go: what a handler is built from. The interfaces are records of operations
-- over a state `S`, that of everything outside the handler: database, disk, cluster and network.
-- A lone `error` is `Result Unit`, where `ok` is nil.
use treenq.Base.{ℕ, List, Text, Result, Panicking}
use treenq.Go.{ℤ}
use treenq.Sdk.{Space}
use treenq.Vel.Http.{Claims}
use treenq.Domain.Types.{InstalledRepository, BuildArtifactRequest, Image, AppDefinition, UserInfo}

abbrev pub Op : Type 0 → Type 0 → Type 0
Op S A = S → Result A × S

abbrev pub Done : Type 0
Done = Unit {0}

pub record Database (S : Type 0) : Type 0 where
  pub get_or_create_user : UserInfo → Op S UserInfo
  pub save_deployment : AppDefinition → Op S AppDefinition
  pub get_deployment_history : Text → Op S (List AppDefinition)
  pub link_github : ℤ → Text → List InstalledRepository → Op S Done
  pub save_github_repos : ℤ → ℤ → List InstalledRepository → Op S Done
  pub remove_github_repos : ℤ → List InstalledRepository → Op S Done
  pub get_github_repos : Text → Op S (List InstalledRepository)
  pub connect_repo_branch : ℤ → Text → Op S Done

pub record GithubClient (S : Type 0) : Type 0 where
  pub issue_access_token : ℤ → Op S Text

pub record Git (S : Type 0) : Type 0 where
  pub clone : Text → ℤ → ℤ → Text → Op S Text

pub record Extractor (S : Type 0) : Type 0 where
  pub open_builder : Op S Text
  pub extract_config : Text → Text → Op S Space
  pub close_builder : Text → Op S Done

pub record DockerArtifactory (S : Type 0) : Type 0 where
  pub image : BuildArtifactRequest → Image
  pub build : BuildArtifactRequest → Op S Image

-- `DefineApp` has no error to return, but it can panic.
pub record Kube (S : Type 0) : Type 0 where
  pub define_app : Text → Space → Image → Panicking Text
  pub apply : Text → Text → Op S Done

-- `FetchUser` can panic beside its error.
pub record OauthProvider (S : Type 0) : Type 0 where
  pub auth_url : Text → Text
  pub exchange_code : Text → Op S Text
  pub fetch_user : Text → S → Panicking (Result UserInfo) × S

pub record JwtIssuer (S : Type 0) : Type 0 where
  pub generate_jwt_token : Claims → Op S Text

-- `os.RemoveAll`, whose error the handlers drop, `uuid.NewString` and `time.Now` in seconds.
pub record Os (S : Type 0) : Type 0 where
  pub new_uuid : S → Text × S
  pub now : S → ℕ
  pub remove_all : Text → S → S

pub record Handler (S : Type 0) : Type 0 where
  pub db : Database S
  pub github_client : GithubClient S
  pub git : Git S
  pub extractor : Extractor S
  pub docker : DockerArtifactory S
  pub kube : Kube S
  pub kube_config : Text
  pub oauth_provider : OauthProvider S
  pub jwt_issuer : JwtIssuer S
  pub os : Os S
