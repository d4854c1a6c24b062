-- ===== src/Domain/Session.antt =====
-- src/domain/auth.go: login through GitHub. The first handler sends the browser to GitHub with a
-- random state in a cookie, the second takes the browser back, with that state and a code.
pub mod Login
use treenq.Base.{
  ℕ, ◌+◌, List, [], ◌∷◌, ◌++◌, Text, bytes, text_eq, lookup, Option, none, some, Result, ok, err,
  Panicking, returns, panics, if◌then◌else◌,
}
use treenq.Vel.Http.{
  Claims, text, Request, get_query, Action, set_cookie, write_header, write, End, finished,
  panicking, Reply, Serve, http_error, redirect,
}
use treenq.Vel.Rpc.{Codec}
use treenq.Domain.Types.{UserInfo}
use treenq.Domain.Handler.{Handler}

module _ {S : Type 0} (h : Handler S) where
  abbrev with_state : S → Text × S → Reply S
  with_state s (state, s') = (
    finished,
    set_cookie (bytes "authstate") state (h.os.now s + 90)
        ∷ redirect (h.oauth_provider.auth_url state) 307,
    s',
  )

  unfoldable pub github_auth_handler : Serve S
  github_auth_handler r s = with_state s (h.os.new_uuid s)

  abbrev pub user_claims : UserInfo → Claims
  user_claims user =
      (bytes "id", text user.id)
      ∷ (bytes "email", text user.email)
      ∷ (bytes "displayName", text user.display_name)
      ∷ []

  -- `json` is the JSON of texts.
  module _ (json : Codec Text) where
    abbrev written : Result Text → List Action
    written (ok line) = write line ∷ []
    written (err _) = http_error (bytes "Failed to write tokens to response") 500

    abbrev pub with_tokens : List Action → Text → List Action
    with_tokens before tokens = before ++ write_header 200 ∷ written (json.encode tokens)

    -- The source goes on after an error here: the token is then the empty text.
    abbrev pub with_issued : Result Text × S → Reply S
    with_issued (ok tokens, s) = (finished, with_tokens [] tokens, s)
    with_issued (err _, s) =
        (finished, with_tokens (http_error (bytes "failed to issue jwt token") 500) [], s)

    abbrev with_saved : Result UserInfo × S → Reply S
    with_saved (err _, s) = (finished, http_error (bytes "Failed to get or create user") 500, s)
    with_saved (ok user, s) = with_issued (h.jwt_issuer.generate_jwt_token (user_claims user) s)

    abbrev with_user : Panicking (Result UserInfo) × S → Reply S
    with_user (panics m, s) = (panicking m, [], s)
    with_user (returns (err _), s) = (finished, http_error (bytes "Failed to fetch user") 500, s)
    with_user (returns (ok user), s) = with_saved (h.db.get_or_create_user user s)

    abbrev with_token : Result Text × S → Reply S
    with_token (err _, s) = (finished, http_error (bytes "Failed to exchange code") 500, s)
    with_token (ok token, s) = with_user (h.oauth_provider.fetch_user token s)

    abbrev with_cookie : Request → S → Option Text → Reply S
    with_cookie r s none =
        (panicking (bytes "invalid memory address or nil pointer dereference"), [], s)
    with_cookie r s (some value) =
        if text_eq (get_query r (bytes "state")) value
        then (if text_eq (get_query r (bytes "code")) []
            then (finished, http_error (bytes "Code not found") 400, s)
            else with_token (h.oauth_provider.exchange_code (get_query r (bytes "code")) s))
        else (finished, redirect (bytes "/") 307, s)

    unfoldable pub github_callback_handler : Serve S
    github_callback_handler r s = with_cookie r s (lookup (bytes "authstate") r.cookies)
