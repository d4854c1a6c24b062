-- ===== src/Api.antt =====
-- src/api/api.go and src/api/config.go: the program's configuration and its routes; Assembly puts
-- the program together. What reads the environment is left out.
pub mod Routes
pub mod Protection
pub mod Deploying
pub mod Charting
pub mod Assembly
use treenq.Base.{
  ℕ, List, [], ◌∷◌, Text, bytes, Bool, true, false, Panicking, returns, panics, if◌then◌else◌,
}
use treenq.Vel.Error.{VelError}
use treenq.Vel.Http.{Serve}
use treenq.Vel.Rpc.{Codec}
use treenq.Vel.Router.{Router, new_router, use_middleware, register_handler_func, register}
use treenq.Vel.Auth.{JwtLibrary, JwtIssuer, jwt_middleware}
use treenq.Vel.Log.{logging_middleware}
use treenq.Crypto.{Verifier, signature_middleware}

-- Durations are in seconds.
pub record Config : Type 0 where
  pub github_client_id : Text
  pub github_private_key : Text
  pub github_secret : Text
  pub github_redirect_url : Text
  pub github_webhook_secret : Text
  pub github_webhook_secret_enable : Bool
  pub github_webhook_url : Text
  pub jwt_ttl : ℕ
  pub do_token : Text
  pub docker_registry : Text
  pub db_dsn : Text
  pub migrations_dir : Text
  pub http_port : Text
  pub builder_package : Text
  pub kube_config : Text
  pub auth_private_key : Text
  pub auth_public_key : Text
  pub auth_ttl : ℕ

-- The handlers that the router is given, each as an HTTP handler, and the health check.
pub record Endpoints (H : Type 0) : Type 0 where
  pub health : H
  pub github_auth : H
  pub github_callback : H
  pub github_webhook : H
  pub info : H
  pub get_profile : H
  pub get_repos : H

infixl 5 ◌>>=◌
abbrev ◌>>=◌ {ℓ κ} : {A : Type ℓ} {B : Type κ} → Panicking A → (A → Panicking B) → Panicking B
returns a >>= f = f a
panics m >>= f = panics m

unfoldable pub use_all : {H T : Type 0} → List (H → H) → Router H T → Router H T
unfolding use_middleware
use_all [] r = r
use_all (m ∷ ms) r = use_all ms (use_middleware m r)

-- `zero` stands for the zero values of the handlers' types in the meta data.
unfoldable pub api_router :
    {H T : Type 0}
    → (Text → Text → Bool)
    → T
    → Endpoints H
    → (H → H)
    → (H → H)
    → List (H → H)
    → Panicking (Router H T)
unfolding use_all new_router register_handler_func register
api_router conflicts zero handlers auth github_auth middlewares = do
  let r = use_all middlewares (new_router handlers.health)
  r₁ ← register_handler_func conflicts (bytes "/auth") handlers.github_auth [] r
  r₂ ← register_handler_func conflicts (bytes "/authCallback") handlers.github_callback [] r₁
  r₃ ←
      register conflicts (bytes "githubWebhook") zero zero handlers.github_webhook
        (github_auth ∷ []) r₂
  r₄ ← register conflicts (bytes "info") zero zero handlers.info (auth ∷ []) r₃
  r₅ ← register conflicts (bytes "getProfile") zero zero handlers.get_profile (auth ∷ []) r₄
  register conflicts (bytes "getRepos") zero zero handlers.get_repos (auth ∷ []) r₅

abbrev pub auth_issuer : Config → JwtIssuer
auth_issuer conf = record {
  issuer = bytes "treenq-api";
  secret = conf.auth_private_key;
  public = conf.auth_public_key;
  ttl = conf.auth_ttl;
}

abbrev pub webhook_verifier : Config → Verifier
webhook_verifier conf = record {
  secret = conf.github_webhook_secret;
  signature_prefix = bytes "sha256=";
}

abbrev pub noop_middleware {ℓ} : {H : Type ℓ} → H → H
noop_middleware h = h

unfoldable pub github_auth_middleware :
    {S : Type 0} → (Text → Text → Text) → Codec VelError → Config → Serve S → Serve S
github_auth_middleware hmac json conf =
    if conf.github_webhook_secret_enable
    then signature_middleware hmac (webhook_verifier conf) json
    else noop_middleware

module _ (lib : JwtLibrary) (hmac : Text → Text → Text) (json : Codec VelError)
    (conflicts : Text → Text → Bool) {S : Type 0} (clock : S → ℕ) where
  -- The routes of `New`, around the handlers.
  unfoldable pub new_api :
      {T : Type 0} → Config → T → Endpoints (Serve S) → Panicking (Router (Serve S) T)
  unfolding api_router github_auth_middleware
  new_api conf zero handlers =
      api_router conflicts zero handlers (jwt_middleware lib (auth_issuer conf) clock)
        (github_auth_middleware hmac json conf) (logging_middleware ∷ [])
