-- ===== src/Crypto.antt =====
-- pkg/crypto/signature.go: the check of a webhook's signature, an HMAC over the body, and the
-- middleware that lets only signed requests through. The HMAC itself is a parameter.
pub mod Signatures
use treenq.Base.{List, [], ◌∷◌, ◌++◌, Text, bytes, text_eq, Result, ok, err, if◌then◌else◌}
use treenq.Go.{hex}
use treenq.Vel.Error.{VelError}
use treenq.Vel.Http.{Request, get_header, http_error, write_header, finished, Serve, Reply}
use treenq.Vel.Rpc.{Codec, write_json}

pub record Verifier : Type 0 where
  pub secret : Text
  pub signature_prefix : Text

abbrev pub err_no_signature_header : VelError
err_no_signature_header = record { code = bytes "NO_SIGNATURE_HEADER"; message = []; meta = [] }

abbrev pub err_invalid_signature : Text → VelError
err_invalid_signature e = record { code = bytes "INVALID_SIGNATURE"; message = e; meta = [] }

abbrev header_key : Text
header_key = bytes "X-Hub-Signature-256"

-- `hmac secret payload` is the HMAC-SHA256 of the payload.
module _ (hmac : Text → Text → Text) (v : Verifier) where
  abbrev pub expected_signature : Text → Text
  expected_signature payload = v.signature_prefix ++ hex (hmac v.secret payload)

  unfoldable pub verify : Text → Text → Result (Unit {0})
  verify payload signature =
      if text_eq signature []
      then err (bytes "signature is empty")
      else if text_eq (expected_signature payload) signature
      then ok tt
      else err (bytes "request signatures didn't match")

  module _ (json : Codec VelError) {S : Type 0} (h : Serve S) where
    abbrev checked : Request → S → Text → Result (Unit {0}) → Reply S
    checked r s body (err e) =
        (finished, write_header 400 ∷ write_json (json.encode (err_invalid_signature e)), s)
    checked r s body (ok _) = h (record r { body = ok body }) s

    -- What `io.ReadAll` leaves of a request: nothing of its body.
    abbrev pub unread : Request → Request
    unread r = record r { body = ok [] }

    abbrev with_body : Request → S → Text → Result Text → Reply S
    with_body r s signature (err _) =
        (finished, http_error (bytes "unable to read request body") 500, s)
    with_body r s signature (ok body) = checked r s body (verify body signature)

    unfoldable pub signature_middleware : Serve S
    unfolding get_header
    signature_middleware r s =
        if text_eq (get_header r header_key) []
        then (finished, write_header 400 ∷ write_json (json.encode err_no_signature_header), s)
        else with_body (unread r) s (get_header r header_key) r.body
