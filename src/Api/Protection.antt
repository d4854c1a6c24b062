-- ===== src/Api/Protection.antt =====
-- What the routes ask of a request: a valid token for the operations of the API, and GitHub's
-- signature for the webhook.
use treenq.Base.{
  ℕ, List, [], ◌∷◌, Text, bytes, Bool, true, lookup, some, returns, ◌≡◌, ◌⊎◌, inl, inr, refl,
}
use treenq.Vel.Error.{VelError}
use treenq.Vel.Http.{Request, Serve, Claims, Action, finished, respond, http_error}
use treenq.Vel.Rpc.{Codec}
use treenq.Vel.Router.{Router, wrap}
use treenq.Vel.Auth.{JwtLibrary, jwt_middleware}
use treenq.Vel.Auth.Gate.{Bears, jwt_middleware_refuses}
use treenq.Vel.Log.{logging_middleware}
use treenq.Vel.Log.Recovery.{logging_middleware-finished}
use treenq.Crypto.Signatures.{IsSigned, signature_middleware_refuses}
use treenq.Api.{Config, Endpoints, new_api, auth_issuer, webhook_verifier, github_auth_middleware}
use treenq.Api.Routes.{IsMuxRule, api_router-routes}

abbrev pub IsProtected : Text → Type 0
IsProtected pat =
    (pat ≡ bytes "POST /info") ⊎ (pat ≡ bytes "POST /getProfile") ⊎ (pat ≡ bytes "POST /getRepos")

-- The handler answers the request with one of two statuses and leaves the state as it is.
abbrev pub Refuses : {S : Type 0} → Request → S → ℕ → ℕ → Serve S → Type 0
Refuses r s code code' h =
    (actions : List Action) × (h r s ≡ (finished, actions, s))
    × (((respond actions).status_code ≡ code) ⊎ ((respond actions).status_code ≡ code'))

logging_middleware-Refuses :
    {S : Type 0} (r : Request) (s : S) (code code' : ℕ) (h : Serve S)
    → Refuses r s code code' h
    → Refuses r s code code' (logging_middleware h)
logging_middleware-Refuses r s code code' h (actions, replied, status) =
    let (forwarded, same, response, _) = logging_middleware-finished h r s replied in
    (forwarded, same, (rw response status))

module _ (lib : JwtLibrary) (hmac : Text → Text → Text) (json : Codec VelError)
    (conflicts : Text → Text → Bool) {S : Type 0} (clock : S → ℕ) (rule : IsMuxRule conflicts)
    (conf : Config) {T : Type 0} (zero : T) (e : Endpoints (Serve S)) (r : Request) (s : S) where
  abbrev behind_token : Serve S → Serve S
  behind_token inner = logging_middleware (jwt_middleware lib (auth_issuer conf) clock inner)

  jwt-Refuses :
      ((token : Text) (claims : Claims) → ¬ (Bears lib (auth_issuer conf) clock r s token claims))
      → (inner : Serve S) → Refuses r s 401 403 (jwt_middleware lib (auth_issuer conf) clock inner)
  unfolding respond
  jwt-Refuses no_token inner =
      let (message, code, known, refused) =
        jwt_middleware_refuses lib (auth_issuer conf) clock r s no_token in
      (http_error message code, refused inner, known)

  -- The routes of `New`, in the order of registration.
  abbrev routes : List (Text × Serve S)
  routes =
      (bytes "GET /healthz", e.health)
      ∷ (bytes "/auth", logging_middleware e.github_auth)
      ∷ (bytes "/authCallback", logging_middleware e.github_callback)
      ∷ (
        bytes "POST /githubWebhook",
        logging_middleware (github_auth_middleware hmac json conf e.github_webhook),
      )
      ∷ (bytes "POST /info", behind_token e.info)
      ∷ (bytes "POST /getProfile", behind_token e.get_profile)
      ∷ (bytes "POST /getRepos", behind_token e.get_repos)
      ∷ []

  protected_inner :
      (pat : Text)
      → IsProtected pat
      → (inner : Serve S) × (lookup pat routes ≡ some (behind_token inner))
  protected_inner pat (inl p) = (e.info, rw p refl)
  protected_inner pat (inr (inl p)) = (e.get_profile, rw p refl)
  protected_inner pat (inr (inr p)) = (e.get_repos, rw p refl)

  -- Where literal patterns of different paths do not conflict, the program's router is built, and in it each
  -- of the three operations of the API refuses a request that bears no valid token of the
  -- program's own issuer: the status is 401 or 403, and the state stays as it was, whatever the
  -- operations' handlers are.
  pub new_api-protected :
      (pat : Text)
      → IsProtected pat
      → ((token : Text) (claims : Claims) → ¬ (Bears lib (auth_issuer conf) clock r s token claims))
      → (router : Router (Serve S) T) × (new_api lib hmac json conflicts clock conf zero e
          ≡ returns router)
        × (h : Serve S) × (lookup pat router.mux ≡ some h)
        × Refuses r s 401 403 h
  unfolding new_api wrap
  new_api-protected pat listed no_token =
      let (inner, found) = protected_inner pat listed in
      (
        _,
        api_router-routes conflicts rule zero e (jwt_middleware lib (auth_issuer conf) clock)
            (github_auth_middleware hmac json conf) (logging_middleware ∷ []),
        logging_middleware (jwt_middleware lib (auth_issuer conf) clock inner),
        found,
        logging_middleware-Refuses r s 401 403 (jwt_middleware lib (auth_issuer conf) clock inner)
            (jwt-Refuses no_token inner),
      )

  -- Where literal patterns of different paths do not conflict, and with the check of signatures enabled, the
  -- router is built, and the webhook's route refuses a request whose body is not signed with the
  -- secret of the configuration: the status is 400 or 500, and the state stays as it was, so that
  -- nothing is cloned, built or deployed.
  pub new_api-signed :
      conf.github_webhook_secret_enable ≡ true
      → ((body : Text) → ¬ (IsSigned hmac (webhook_verifier conf) r body))
      → (router : Router (Serve S) T) × (new_api lib hmac json conflicts clock conf zero e
          ≡ returns router)
        × (h : Serve S) × (lookup (bytes "POST /githubWebhook") router.mux ≡ some h)
        × Refuses r s 400 500 h
  unfolding new_api wrap
  new_api-signed enabled unsigned =
      let (actions, status, refused) =
        signature_middleware_refuses hmac (webhook_verifier conf) json r s unsigned in
      (
        _,
        api_router-routes conflicts rule zero e (jwt_middleware lib (auth_issuer conf) clock)
            (github_auth_middleware hmac json conf) (logging_middleware ∷ []),
        logging_middleware (github_auth_middleware hmac json conf e.github_webhook),
        refl,
        logging_middleware-Refuses r s 400 500
            (github_auth_middleware hmac json conf e.github_webhook)
            (actions, (rw enabled (refused e.github_webhook)), status),
      )
