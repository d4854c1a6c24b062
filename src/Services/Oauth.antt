-- ===== src/Services/Oauth.antt =====
-- src/services/auth/github.go: who a GitHub token belongs to. The network is the one of the API
-- client, and the JSON of a user and of a list of addresses are codecs. Closing bodies is left out.
pub mod Primary
use treenq.Base.{
  ℕ, Bool, true, false, ◌&&◌, ◌||◌, ◌==◌, List, [], ◌∷◌, ◌++◌, Text, bytes, text_eq, Option, none,
  some, Result, ok, err, Panicking, returns, panics, if◌then◌else◌,
}
use treenq.Go.{ℤ, pos, trim_space}
use treenq.Go.Decimal.{itoa}
use treenq.Vel.Http.{Response}
use treenq.Vel.Rpc.{Codec}
use treenq.Client.{Network, OutRequest}
use treenq.Domain.Types.{UserInfo}

pub record GithubUser : Type 0 where
  pub id : ℤ
  pub email : Text
  pub login : Text

pub record Mail : Type 0 where
  pub email : Text
  pub primary : Bool
  pub verified : Bool

pub record GithubOauthProvider : Type 0 where
  pub client_id : Text
  pub client_secret : Text
  pub redirect_url : Text
  pub scopes : List Text

-- The scopes that are given play no part.
abbrev pub new_provider : Text → Text → Text → List Text → GithubOauthProvider
new_provider client_key secret callback_url _ = record {
  client_id = client_key;
  client_secret = secret;
  redirect_url = callback_url;
  scopes = bytes "profile" ∷ bytes "email" ∷ [];
}

-- `oauth2.Config` with GitHub's endpoint: the address of its login, and the exchange of a code for
-- an access token.
pub record Oauth2 (S : Type 0) : Type 0 where
  pub auth_code_url : GithubOauthProvider → Text → Text
  pub exchange : GithubOauthProvider → Text → S → Result Text × S

abbrev pub auth_url : {S : Type 0} → Oauth2 S → GithubOauthProvider → Text → Text
auth_url oauth2 p state = oauth2.auth_code_url p state

abbrev exchanged : {S : Type 0} → Result Text × S → Result Text × S
exchanged (ok access_token, s) = (ok access_token, s)
exchanged (err e, s) = (err (bytes "failed to exchange github code to token: " ++ e), s)

unfoldable pub exchange_code :
    {S : Type 0} → Oauth2 S → GithubOauthProvider → Text → S → Result Text × S
exchange_code oauth2 p code s = exchanged (oauth2.exchange p code s)

abbrev pub profile_url : Text
profile_url = bytes "https://api.github.com/user"

abbrev pub email_url : Text
email_url = bytes "https://api.github.com/user/emails"

abbrev is_mail_scope : Text → Bool
is_mail_scope scope =
    text_eq (trim_space scope) (bytes "email")
    || text_eq (trim_space scope) (bytes "user")
    || text_eq (trim_space scope) (bytes "user:email")

unfoldable pub asks_mail : List Text → Bool
unfolding trim_space
asks_mail [] = false
asks_mail (scope ∷ scopes) = is_mail_scope scope || asks_mail scopes

abbrev pub bearer : Text → Text → OutRequest
bearer url token = record {
  method = bytes "GET";
  url = url;
  headers = (bytes "Authorization", bytes "Bearer " ++ token) ∷ [];
  body = [];
}

abbrev bad_status : Response → Text → Text
bad_status resp what =
    bytes "GitHub API responded with a "
    ++ itoa (pos resp.status_code)
    ++ bytes " trying to fetch "
    ++ what

abbrev pub user_of : GithubUser → Text → UserInfo
user_of u email = record { id = []; email = email; display_name = u.login }

unfoldable pub primary_mail : List Mail → Result Text
primary_mail [] = err (bytes "the user does not have a verified, primary email address on GitHub")
primary_mail (m ∷ ms) = if m.primary && m.verified then ok m.email else primary_mail ms

module _ {S : Type 0} (net : Network S) (user_json : Codec GithubUser)
    (mails_json : Codec (List Mail)) (p : GithubOauthProvider) (token : Text) where
  abbrev with_mails : Result (List Mail) → Result Text
  with_mails (err e) = err e
  with_mails (ok mails) = primary_mail mails

  abbrev mail_of : Response → Result Text
  mail_of resp =
      if resp.status_code == 200
      then with_mails (mails_json.decode (ok resp.body))
      else err (bad_status resp (bytes "user email"))

  abbrev with_mail_response : Result Response × S → Panicking (Result Text) × S
  with_mail_response (err e, s) = (returns (err e), s)
  with_mail_response (ok resp, s) = (returns (mail_of resp), s)

  -- The error of the request's construction is dropped, and its header is then set on nil.
  abbrev send_mail_request : Option Text → S → Panicking (Result Text) × S
  send_mail_request (some e) s =
      (panics (bytes "invalid memory address or nil pointer dereference"), s)
  send_mail_request none s = with_mail_response (net.exchange (bearer email_url token) s)

  unfoldable pub get_private_mail : S → Panicking (Result Text) × S
  unfolding primary_mail
  get_private_mail s = send_mail_request (net.new_request_error email_url) s

  abbrev pub with_mail : GithubUser → Panicking (Result Text) × S → Panicking (Result UserInfo) × S
  with_mail u (panics m, s) = (panics m, s)
  with_mail u (returns (err e), s) = (returns (err e), s)
  with_mail u (returns (ok email), s) = (returns (ok (user_of u email)), s)

  abbrev pub with_user : S → Result GithubUser → Panicking (Result UserInfo) × S
  with_user s (err e) = (returns (err e), s)
  with_user s (ok u) =
      if text_eq u.email [] && asks_mail p.scopes
      then with_mail u (get_private_mail s)
      else (returns (ok (user_of u u.email)), s)

  abbrev with_response : Result Response × S → Panicking (Result UserInfo) × S
  with_response (err e, s) = (returns (err e), s)
  with_response (ok resp, s) =
      if resp.status_code == 200
      then with_user s (user_json.decode (ok resp.body))
      else (returns (err (bad_status resp (bytes "user information"))), s)

  abbrev send_user_request : Option Text → S → Panicking (Result UserInfo) × S
  send_user_request (some e) s = (returns (err e), s)
  send_user_request none s = with_response (net.exchange (bearer profile_url token) s)

  unfoldable pub fetch_user : S → Panicking (Result UserInfo) × S
  unfolding get_private_mail asks_mail
  fetch_user s = send_user_request (net.new_request_error profile_url) s
