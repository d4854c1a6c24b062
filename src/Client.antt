-- ===== src/Client.antt =====
-- client/client.go: the generated API client. The network is a parameter: `http.NewRequest`
-- refuses some addresses, and `Do` brings a response or an error. The methods that send nothing
-- and read a response are one function of the operation's name.
pub mod RoundTrip
use treenq.Base.{
  ℕ, List, [], ◌∷◌, ◌++◌, Text, bytes, Bool, leb, Option, none, some, Result, ok, err,
  if◌then◌else◌,
}
use treenq.Vel.Error.{VelError, unknown}
use treenq.Vel.Http.{Response}
use treenq.Vel.Rpc.{Codec}

pub record Client : Type 0 where
  pub base_url : Text
  pub headers : List (Text × Text)

pub record OutRequest : Type 0 where
  pub method : Text
  pub url : Text
  pub headers : List (Text × Text)
  pub body : Text

pub record Network (S : Type 0) : Type 0 where
  pub new_request_error : Text → Option Text
  pub exchange : OutRequest → S → Result Response × S

-- What a method returns: a response, the server's error, or an error of another kind.
pub data Received {ℓ} (A : Type ℓ) : Type ℓ where
  received : A → Received A
  refused : VelError → Received A
  broken : Text → Received A

abbrev or_undecoded : Result VelError → VelError
or_undecoded (ok e) = e
or_undecoded (err e) = unknown (bytes "failed to decode error response: " ++ e)

unfoldable pub handle_err : Codec VelError → Response → Option VelError
handle_err json resp =
    if leb 500 resp.status_code
    then some (or_undecoded (json.decode (ok resp.body)))
    else if leb 400 resp.status_code
    then some (or_undecoded (json.decode (ok resp.body)))
    else none

abbrev pub out_request : Client → Text → Text → OutRequest
out_request c operation body = record {
  method = bytes "POST";
  url = c.base_url ++ bytes "/" ++ operation;
  headers = c.headers;
  body = body;
}

module _ {S : Type 0} (net : Network S) (json : Codec VelError) (c : Client) where
  abbrev or_refused : Response → Option VelError → Received Response
  or_refused resp none = received resp
  or_refused resp (some e) = refused e

  abbrev or_broken : Text → Result Response × S → Received Response × S
  or_broken operation (err e, s) =
      (broken (bytes "failed to call " ++ operation ++ bytes ": " ++ e), s)
  or_broken operation (ok resp, s) = (or_refused resp (handle_err json resp), s)

  abbrev pub send_request : Text → Text → Option Text → S → Received Response × S
  send_request operation body (some e) s = (broken (bytes "failed to create request: " ++ e), s)
  send_request operation body none s =
      or_broken operation (net.exchange (out_request c operation body) s)

  -- The part that all the methods share: build the request, send it, and look for an error.
  unfoldable pub call_api : Text → Text → S → Received Response × S
  unfolding handle_err
  call_api operation body s =
      send_request operation body (net.new_request_error (out_request c operation body).url) s

  abbrev pub decode_with {ℓ} :
      {A : Type ℓ} → Text → (Result Text → Result A) → Received Response × S → Received A × S
  decode_with operation decode (refused e, s) = (refused e, s)
  decode_with operation decode (broken e, s) = (broken e, s)
  decode_with operation decode (received resp, s) = (
    elim (decode (ok resp.body)) [
      | ok a ↦ received a
      | err e ↦ broken (bytes "failed to decode " ++ operation ++ bytes " response: " ++ e)
    ],
    s,
  )

  -- `Info`, `GetProfile` and `GetRepos`.
  unfoldable pub fetch : {A : Type 0} → Text → Codec A → S → Received A × S
  unfolding call_api
  fetch operation codec s = decode_with operation codec.decode (call_api operation [] s)

  unfoldable pub info : {A : Type 0} → Codec A → S → Received A × S
  unfolding fetch
  info codec = fetch (bytes "info") codec

  unfoldable pub get_profile : {A : Type 0} → Codec A → S → Received A × S
  unfolding fetch
  get_profile codec = fetch (bytes "getProfile") codec

  unfoldable pub get_repos : {A : Type 0} → Codec A → S → Received A × S
  unfolding fetch
  get_repos codec = fetch (bytes "getRepos") codec

  abbrev pub forget_response : Received Response × S → Received (Unit {0}) × S
  forget_response (received _, s) = (received tt, s)
  forget_response (refused e, s) = (refused e, s)
  forget_response (broken e, s) = (broken e, s)

  abbrev pub send_marshalled : Result Text → S → Received (Unit {0}) × S
  send_marshalled (err e) s = (broken (bytes "failed to marshal request: " ++ e), s)
  send_marshalled (ok body) s = forget_response (call_api (bytes "githubWebhook") body s)

  unfoldable pub github_webhook : {I : Type 0} → Codec I → I → S → Received (Unit {0}) × S
  unfolding call_api
  github_webhook codec req s = send_marshalled (codec.encode req) s
