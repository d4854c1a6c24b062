-- ===== src/Tests/Web.antt =====
-- The client against the server, the router, signatures and the log.
use treenq.Base.{
  ℕ, ◌+◌, true, false, List, [], ◌∷◌, ◌++◌, Text, bytes, text_apart, none, Result, ok, err, ◌≡◌,
  ◌≢◌, ◌↔◌, refl, ap,
}
use treenq.Go.{hex}
use treenq.Vel.Error.{Outcome, done, failed, unknown}
use treenq.Vel.Http.{
  Request, Response, Serve, Reply, Action, write, finished, panicking, respond, perform_all, unsent,
  or_status, get_header,
}
use treenq.Vel.Rpc.{Signature}
use treenq.Vel.Log.{logging_middleware, observe}
use treenq.Vel.Log.Recovery.{logging_middleware-panicking}
use treenq.Crypto.{Verifier, verify, signature_middleware}
use treenq.Crypto.Signatures.{verify_iff, signature_middleware_admits, IsSigned}
use treenq.Client.{Client, OutRequest, Network}
use treenq.Client.RoundTrip.{Connects}
use treenq.Tests.Json.{error_json, text_json}

abbrev get : Request
get = record {
  method = bytes "POST";
  uri = bytes "/getRepos";
  query = [];
  cookies = [];
  headers = [];
  body = ok (bytes "{}");
  claims = none;
}

-- An operation that answers with a text, and one that fails.
abbrev ask : Signature (Unit {0}) Text
ask = record {
  has_req_body = false;
  has_res_body = true;
  zero_value = tt;
  input = record { encode = λ u. ok []; decode = λ b. ok tt };
  output = text_json;
  error = error_json;
}

abbrev tell : Signature Text (Unit {0})
tell = record {
  has_req_body = true;
  has_res_body = false;
  zero_value = [];
  input = text_json;
  output = record { encode = λ u. ok []; decode = λ b. ok tt };
  error = error_json;
}

abbrev arrive : OutRequest → Request
arrive out = record get {
  method = out.method;
  uri = out.url;
  headers = out.headers;
  body = ok out.body;
}

abbrev deliver : Reply ℕ → Result Response × ℕ
deliver (finished, actions, s) = (ok (respond actions), s)
deliver (panicking m, actions, s) = (err (bytes "EOF"), s)

abbrev wire : Serve ℕ → Network ℕ
wire serve = record {
  new_request_error = λ url. none;
  exchange = λ out s. deliver (serve (arrive out) s);
}

abbrev wire-Connects : (serve : Serve ℕ) → Connects (wire serve) serve
wire-Connects serve = record {
  incoming = arrive;
  incoming-body = λ out. refl;
  accepts = λ url. refl;
  connects = λ out s s' actions e. ap deliver e;
}

abbrev client : Client
client = record { base_url = bytes "http://localhost:8000"; headers = [] }

abbrev version : Request → Unit {0} → ℕ → Outcome Text × ℕ
version r u s = (done (bytes "develop"), s + 1)

abbrev refuse : Request → Text → ℕ → Outcome (Unit {0}) × ℕ
refuse r i s = (failed (unknown i), s + 1)

-- The sum of the bytes, as one byte.
abbrev checksum : Text → Text → Text
checksum secret [] = 7 ∷ []
checksum secret (c ∷ payload) = 9 ∷ []

abbrev verifier : Verifier
verifier = record { secret = bytes "secret"; signature_prefix = bytes "sha256=" }

prefixed : verifier.signature_prefix ≢ []
prefixed = text_apart (bytes "sha256=") [] refl

verify_iff_example :
    (verify checksum verifier (bytes "{}") (bytes "sha256=09") ≡ ok tt)
    ↔ (bytes "sha256=09" ≡ bytes "sha256=" ++ hex (checksum (bytes "secret") (bytes "{}")))
verify_iff_example = verify_iff checksum verifier (bytes "{}") (bytes "sha256=09") prefixed

abbrev counting : Serve ℕ
counting r s = (finished, write (bytes "ok") ∷ [], s + 1)

abbrev signed : Request
signed = record get { headers = (bytes "X-Hub-Signature-256", bytes "sha256=09") ∷ [] }

signed-IsSigned : IsSigned checksum verifier signed (bytes "{}")
unfolding get_header hex
signed-IsSigned = (refl, text_apart (bytes "sha256=09") [] refl, refl)

signature_middleware_admits_example :
    signature_middleware checksum verifier error_json counting signed 0
    ≡ counting (record signed { body = ok (bytes "{}") }) 0
signature_middleware_admits_example =
    signature_middleware_admits checksum verifier error_json signed 0 counting signed-IsSigned

abbrev crashing : Serve ℕ
crashing r s = (panicking (bytes "nil"), write (bytes "half") ∷ [], s + 1)

logging_middleware-panicking_example :
    (forwarded : List Action) × (logging_middleware crashing get 0 ≡ (finished, forwarded, 1))
    × ((respond forwarded).status_code
        ≡ or_status (perform_all unsent (write (bytes "half") ∷ [])).status 500)
    × ((respond forwarded).body
        ≡ (perform_all unsent (write (bytes "half") ∷ [])).body ++ bytes "internal server error")
    × ((observe crashing get 0).completed ≡ none)
logging_middleware-panicking_example = logging_middleware-panicking crashing get 0 refl
