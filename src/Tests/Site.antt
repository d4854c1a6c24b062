-- ===== src/Tests/Site.antt =====
-- The program's routes, with a mux in which only equal patterns conflict.
use treenq.Base.{
  ℕ, ◌+◌, ◌*◌, Bool, true, [], ◌∷◌, Text, bytes, not, lookup, some, returns, ok, none, ◌≡◌, inr,
  refl, arith,
}
use treenq.Vel.Http.{Request, Serve, Claims, write, finished, get_header}
use treenq.Vel.Router.{Router, wrap}
use treenq.Vel.Auth.Gate.{Bears}
use treenq.Crypto.Signatures.{IsSigned}
use treenq.Api.{Config, Endpoints, new_api, api_router, auth_issuer, webhook_verifier}
use treenq.Api.Routes.{IsMuxRule, is_apart, api_router-routes, meta_of}
use treenq.Api.Protection.{new_api-protected, new_api-signed, Refuses}
use treenq.Tests.Json.{error_json}
use treenq.Tests.Jwt.{library}

abbrev pub overlap : Text → Text → Bool
overlap p q = not (is_apart p q)

pub overlap_rule : IsMuxRule overlap
overlap_rule p q h = rw h refl

abbrev meta : ℕ
meta = 0

abbrev numbered : Endpoints ℕ
numbered = record {
  health = 1;
  github_auth = 2;
  github_callback = 3;
  github_webhook = 4;
  info = 5;
  get_profile = 6;
  get_repos = 7;
}

api_router-routes_example :
    api_router overlap meta numbered (λ h. h * 10) (λ h. h * 100) ((λ h. h + 1) ∷ [])
    ≡ returns (record {
      mux =
          (bytes "GET /healthz", 1)
          ∷ (bytes "/auth", 3)
          ∷ (bytes "/authCallback", 4)
          ∷ (bytes "POST /githubWebhook", 401)
          ∷ (bytes "POST /info", 51)
          ∷ (bytes "POST /getProfile", 61)
          ∷ (bytes "POST /getRepos", 71)
          ∷ [];
      middlewares = (λ h. h + 1) ∷ [];
      handlers_meta =
          meta_of meta (bytes "githubWebhook")
          ∷ meta_of meta (bytes "info")
          ∷ meta_of meta (bytes "getProfile")
          ∷ meta_of meta (bytes "getRepos")
          ∷ [];
    })
unfolding wrap
api_router-routes_example =
    api_router-routes overlap overlap_rule meta numbered (λ h. h * 10) (λ h. h * 100)
      ((λ h. h + 1) ∷ [])

abbrev pub conf : Config
conf = record {
  github_client_id = [];
  github_private_key = [];
  github_secret = [];
  github_redirect_url = [];
  github_webhook_secret = bytes "secret";
  github_webhook_secret_enable = true;
  github_webhook_url = [];
  jwt_ttl = 300;
  do_token = [];
  docker_registry = bytes "registry:5000";
  db_dsn = [];
  migrations_dir = [];
  http_port = bytes "8000";
  builder_package = [];
  kube_config = [];
  auth_private_key = bytes "private";
  auth_public_key = bytes "public";
  auth_ttl = 86400;
}

abbrev counting : Serve ℕ
counting r s = (finished, write (bytes "ok") ∷ [], s + 1)

abbrev endpoints : Endpoints (Serve ℕ)
endpoints = record {
  health = counting;
  github_auth = counting;
  github_callback = counting;
  github_webhook = counting;
  info = counting;
  get_profile = counting;
  get_repos = counting;
}

abbrev bare : Request
bare = record {
  method = bytes "POST";
  uri = bytes "/getRepos";
  query = [];
  cookies = [];
  headers = [];
  body = ok (bytes "{}");
  claims = none;
}

abbrev clock : ℕ → ℕ
clock s = s

abbrev mac : Text → Text → Text
mac secret payload = 9 ∷ []

bare_token :
    (token : Text) (claims : Claims)
    → ¬ (Bears library (auth_issuer conf) clock bare 0 token claims)
unfolding get_header
bare_token token claims (header, _) = ground arith

bare_unsigned : (body : Text) → ¬ (IsSigned mac (webhook_verifier conf) bare body)
unfolding get_header
bare_unsigned body (_, present, _) = present refl

new_api-protected_example :
    (router : Router (Serve ℕ) ℕ) × (new_api library mac error_json overlap clock conf 0 endpoints
      ≡ returns router)
    × (h : Serve ℕ) × (lookup (bytes "POST /getRepos") router.mux ≡ some h)
    × Refuses bare 0 401 403 h
new_api-protected_example =
    new_api-protected library mac error_json overlap clock overlap_rule conf 0 endpoints bare 0
      (bytes "POST /getRepos") (inr (inr refl)) bare_token

new_api-signed_example :
    (router : Router (Serve ℕ) ℕ) × (new_api library mac error_json overlap clock conf 0 endpoints
      ≡ returns router)
    × (h : Serve ℕ) × (lookup (bytes "POST /githubWebhook") router.mux ≡ some h)
    × Refuses bare 0 400 500 h
new_api-signed_example =
    new_api-signed library mac error_json overlap clock overlap_rule conf 0 endpoints bare 0 refl
      bare_unsigned
