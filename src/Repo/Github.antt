-- ===== src/Repo/Github.antt =====
-- src/repo/github.go: the token of an installation of the app. The body of the answer is decoded
-- into a variable of the package, which keeps its value between the calls: it is a part of the
-- state here.
pub mod Kept
use treenq.Base.{
  ℕ, ltb, List, [], ◌∷◌, ◌++◌, Text, bytes, Option, none, some, Result, ok, err, if◌then◌else◌,
}
use treenq.Go.{ℤ, pos}
use treenq.Go.Decimal.{itoa}
use treenq.Vel.Http.{Claims, Response}
use treenq.Client.{OutRequest, Network}
use treenq.Domain.Handler.{JwtIssuer, Op}

-- The variable `responseBody`.
pub record Memory (S : Type 0) : Type 0 where
  pub token : Text
  pub world : S

abbrev pub token_url : ℤ → Text
token_url installation_id =
    bytes "https://api.github.com/app/installations/"
    ++ itoa installation_id
    ++ bytes "/access_tokens"

abbrev pub token_request : ℤ → Text → OutRequest
token_request installation_id jwt_token = record {
  method = bytes "POST";
  url = token_url installation_id;
  headers =
      (bytes "Authorization", bytes "Bearer " ++ jwt_token)
      ∷ (bytes "Accept", bytes "application/vnd.github+json")
      ∷ (bytes "X-GitHub-Api-Version", bytes "2022-11-28")
      ∷ [];
  body = [];
}

-- Decoding into a variable changes what the text has: `none` is a text without a token. A text that
-- does not decode may have set it before the error was met.
abbrev pub kept : Option Text → Text → Text
kept none before = before
kept (some token) before = token

module _ {S : Type 0} (issuer : JwtIssuer S) (net : Network S)
    (decode : Text → Option Text × Result (Unit {0})) where
  abbrev pub with_body : Memory S → Option Text × Result (Unit {0}) → Result Text × Memory S
  with_body m (token, err e) =
      (err (bytes "failed to decode response: " ++ e), record m { token = kept token m.token })
  with_body m (token, ok _) = (ok (kept token m.token), record m { token = kept token m.token })

  abbrev pub with_response : Text → Result Response × S → Result Text × Memory S
  with_response before (err e, s) =
      (err (bytes "failed to execute request: " ++ e), record { token = before; world = s })
  with_response before (ok resp, s) =
      if ltb 299 resp.status_code
      then (
        err (
            bytes "failed to process request: "
            ++ itoa (pos resp.status_code)
            ++ bytes ", body="
            ++ resp.body),
        record { token = before; world = s },
      )
      else with_body (record { token = before; world = s }) (decode resp.body)

  abbrev send : ℤ → Text → Text → S → Option Text → Result Text × Memory S
  send installation_id before jwt_token s (some e) =
      (err (bytes "failed to create new request " ++ e), record { token = before; world = s })
  send installation_id before jwt_token s none =
      with_response before (net.exchange (token_request installation_id jwt_token) s)

  abbrev pub with_jwt : ℤ → Text → Result Text × S → Result Text × Memory S
  with_jwt installation_id before (err e, s) = (err e, record { token = before; world = s })
  with_jwt installation_id before (ok jwt_token, s) =
      send installation_id before jwt_token s (net.new_request_error (token_url installation_id))

  unfoldable pub issue_access_token : ℤ → Op (Memory S) Text
  issue_access_token installation_id m =
      with_jwt installation_id m.token (issuer.generate_jwt_token [] m.world)
