-- ===== src/Api/Assembly/Session.antt =====
-- The login through the program's own routes.
use treenq.Base.{
  ℕ, ◌+◌, ◌<◌, Bool, true, false, List, [], ◌∷◌, ◌++◌, Text, bytes, lookup, some, ok, returns, ◌≡◌,
  refl, ◌∙◌, ap,
}
use treenq.Go.Utf8.{utf8_from}
use treenq.Vel.Error.{done}
use treenq.Vel.Http.{Request, Serve, Action, write, finished, respond, get_header}
use treenq.Vel.Rpc.{new_handler}
use treenq.Vel.Router.{Mux, wrap}
use treenq.Vel.Auth
use treenq.Vel.Auth.{jwt_middleware}
use treenq.Vel.Auth.Tokens.{HasKeys}
use treenq.Vel.Log.{logging_middleware}
use treenq.Vel.Log.Recovery.{logging_middleware-finished}
use treenq.Domain.Types.{UserInfo}
use treenq.Domain.Profile.{get_profile}
use treenq.Domain.Session.{user_claims}
use treenq.Domain.Session.Login.{LogsIn, IsPrintable, get_profile-github_callback}
use treenq.Repo.Store.{Sql}
use treenq.Repo.Github.{Memory}
use treenq.Api.{Config, auth_issuer, new_api, github_auth_middleware}
use treenq.Api.Routes.{IsMuxRule, api_router-routes}
use treenq.Api.Assembly.{Outside, Signatures, handlers_in, endpoints_of, mux_of, site}

-- The handler answers the request with a status and a body, and leaves a state.
abbrev pub Answers : {S : Type 0} → Serve S → Request → S → ℕ → Text → S → Type 0
Answers h r s code body s' =
    (actions : List Action) × (h r s ≡ (finished, actions, s'))
    × (respond actions ≡ record { status_code = code; body = body })

logging_middleware-Answers :
    {S : Type 0} (h : Serve S) (r : Request) (s : S) (code : ℕ) (body : Text) (s' : S)
    → Answers h r s code body s'
    → Answers (logging_middleware h) r s code body s'
logging_middleware-Answers h r s code body s' (actions, replied, response) =
    let (forwarded, same, kept, _) = logging_middleware-finished h r s replied in
    (forwarded, same, kept ∙ response)

module _ {S : Type 0} (out : Outside S) (conf : Config) (wd : Text) (db : Sql S out.Cell)
    (hmac : Text → Text → Text) (conflicts : Text → Text → Bool) (sigs : Signatures) where
  abbrev clock : Memory S → ℕ
  clock m = out.os.now m.world

  abbrev profile_call : Serve (Memory S)
  profile_call = new_handler sigs.get_profile (λ r _ m. (get_profile r, m))

  profile_call-Answers :
      (r : Request) (m : Memory S) (user : UserInfo) (profile : Text)
      → sigs.get_profile.has_req_body ≡ false
      → sigs.get_profile.has_res_body ≡ true
      → sigs.get_profile.output.encode user ≡ ok profile
      → get_profile r ≡ done user
      → Answers profile_call r m 200 profile m
  unfolding new_handler respond
  profile_call-Answers r m user profile no_body some_body encoded found =
      (write profile ∷ [], (rw (no_body, found, some_body, encoded) refl), refl)

  -- A login through the program's own routes opens a session: with a pair of keys in the
  -- configuration and where literal patterns of different paths do not conflict, the program's routes are built;
  -- a callback whose steps succeed, and whose token can be generated and written as JSON, is answered
  -- with 200 and that token; and until the configured time is over, a request for the profile that
  -- bears the token is answered with 200 and the JSON of the user who logged in, where the types of
  -- that operation are read as having no input and an output, and where JSON brings the user and the
  -- times back as they were.
  pub site-session :
      (r next : Request) (m m' t : Memory S) {user : UserInfo} {tokens line profile : Text}
      → IsMuxRule conflicts
      → HasKeys out.jwt (auth_issuer conf)
      → LogsIn (handlers_in out conf wd db) r m user m'
      → IsPrintable user
      → out.os.now m'.world + conf.auth_ttl < 9007199254740992
      → out.text_json.encode tokens ≡ ok line
      → Auth.generate_jwt_token out.jwt
          (auth_issuer conf)
          (out.os.now m'.world)
          (user_claims (handlers_in out conf wd db) user)
        ≡ ok tokens
      → get_header next (bytes "Authorization") ≡ bytes "Bearer " ++ tokens
      → out.os.now t.world < out.os.now m'.world + conf.auth_ttl
      → sigs.get_profile.has_req_body ≡ false
      → sigs.get_profile.has_res_body ≡ true
      → sigs.get_profile.output.encode user ≡ ok profile
      → (mux : Mux (Serve (Memory S))) × (callback : Serve (Memory S)) × (get : Serve (Memory S))
        × (site out conf hmac conflicts sigs (handlers_in out conf wd db) ≡ returns mux)
        × (lookup (bytes "/authCallback") mux ≡ some callback)
        × (lookup (bytes "POST /getProfile") mux ≡ some get)
        × Answers callback r m 200 line m'
        × Answers get next t 200 profile t
  unfolding utf8_from site new_api wrap endpoints_of handlers_in
  site-session r next m m' t {user} {tokens} {line} {profile} rule keys login printable exact
        encoded generated bears fresh no_body some_body written =
      let h = handlers_in out conf wd db in
      let token_check = jwt_middleware out.jwt (auth_issuer conf) clock in
      let (claims, actions, replied, response, admitted, found) =
        get_profile-github_callback h out.text_json r m login out.jwt (auth_issuer conf) keys clock
          (λ claims t. refl) printable refl exact encoded generated next t bears fresh in
      let (told, answered, shown) =
        profile_call-Answers (record next { claims = some claims }) t user profile no_body some_body
          written found in
      (
        _,
        logging_middleware (endpoints_of out conf sigs h).github_callback,
        logging_middleware (token_check profile_call),
        ap mux_of (
            api_router-routes conflicts rule tt (endpoints_of out conf sigs h) token_check
              (github_auth_middleware hmac sigs.error_json conf) (logging_middleware ∷ [])),
        refl,
        refl,
        logging_middleware-Answers (endpoints_of out conf sigs h).github_callback r m 200 line m'
            (actions, replied, response),
        logging_middleware-Answers (token_check profile_call) next t 200 profile t
            (told, admitted profile_call ∙ answered, shown),
      )
