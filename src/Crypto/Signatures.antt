-- ===== src/Crypto/Signatures.antt =====
-- Which signatures are accepted, and which requests reach the handler behind the middleware.
use treenq.Base.{
  ℕ, ◌/◌, ◌%◌, ◌<◌, List, [], ◌∷◌, ◌++◌, Text, bytes, text_eq, text_eq_iff, All, Bool-cases,
  Result-cases, ok, err, ◌≡◌, ◌≢◌, ◌↔◌, ◌⊎◌, inl, inr, refl, sym, arith,
}
use treenq.Go.{hex, hex_digit}
use treenq.Vel.Error.{VelError}
use treenq.Vel.Http.{
  Request, get_header, finished, Serve, Action, respond, write_header, http_error,
}
use treenq.Vel.Rpc.{Codec, write_json}
use treenq.Vel.Rpc.Answers.{respond-write_json}
use treenq.Crypto.{
  err_no_signature_header, err_invalid_signature, Verifier, verify, expected_signature,
  signature_middleware,
}

hex_digit-injective : (a b : ℕ) → a < 16 → b < 16 → hex_digit a ≡ hex_digit b → a ≡ b
hex_digit-injective a b p q e = ground arith

abbrev pub IsByte : ℕ → Type 0
IsByte c = c < 256

hex-injective : (s t : Text) → All IsByte s → All IsByte t → hex s ≡ hex t → s ≡ t
unfolding hex
hex-injective [] [] p q e = refl
hex-injective [] (d ∷ t) p q e = cc
hex-injective (c ∷ s) [] p q e = cc
hex-injective (c ∷ s) (d ∷ t) (p, ps) (q, qs) e = ground (
  arith,
  hex_digit-injective (c / 16) (d / 16),
  hex_digit-injective (c % 16) (d % 16),
  hex-injective s t ps qs,
)

append-cancel : (p : Text) {s t : Text} → p ++ s ≡ p ++ t → s ≡ t
append-cancel [] e = e
append-cancel (c ∷ p) e = append-cancel p (cc)

append-ne-nil : (p s : Text) → p ≢ [] → p ++ s ≢ []
append-ne-nil [] s h = absurd (h refl)
append-ne-nil (c ∷ p) s h = cc

module _ (hmac : Text → Text → Text) (v : Verifier) where
  -- With a prefix that is not empty, a signature is accepted exactly when it is the prefix and
  -- the payload's HMAC in hexadecimal.
  pub verify_iff :
      (payload signature : Text)
      → v.signature_prefix ≢ []
      → (verify hmac v payload signature ≡ ok tt)
        ↔ (signature ≡ v.signature_prefix ++ hex (hmac v.secret payload))
  unfolding verify
  verify_iff payload signature prefixed = (
    λ accepted. ground (arith, text_eq_iff (expected_signature hmac v payload) signature),
    λ same. rw same (
        ground (
          arith,
          text_eq_iff (expected_signature hmac v payload) (expected_signature hmac v payload),
          text_eq_iff (expected_signature hmac v payload) [],
          append-ne-nil v.signature_prefix (hex (hmac v.secret payload)) prefixed,
        )),
  )

  -- With a prefix that is not empty, a signature made of any other sequence of bytes than the
  -- payload's HMAC is refused.
  pub verify_forged :
      (payload mac : Text)
      → v.signature_prefix ≢ []
      → All IsByte mac
      → All IsByte (hmac v.secret payload)
      → mac ≢ hmac v.secret payload
      → verify hmac v payload (v.signature_prefix ++ hex mac)
        ≡ err (bytes "request signatures didn't match")
  unfolding verify
  verify_forged payload mac prefixed p q forged = ground (
    arith,
    text_eq_iff (expected_signature hmac v payload) (v.signature_prefix ++ hex mac),
    text_eq_iff (v.signature_prefix ++ hex mac) [],
    append-ne-nil v.signature_prefix (hex mac) prefixed,
    λ (e : v.signature_prefix ++ hex (hmac v.secret payload) ≡ v.signature_prefix ++ hex mac).
        hex-injective mac (hmac v.secret payload) p q (sym (append-cancel v.signature_prefix e)),
  )

  -- The request's body can be read, and its header signs it.
  abbrev pub IsSigned : Request → Text → Type 0
  IsSigned r body =
      (r.body ≡ ok body)
      × (get_header r (bytes "X-Hub-Signature-256") ≢ [])
      × (get_header r (bytes "X-Hub-Signature-256")
          ≡ v.signature_prefix ++ hex (hmac v.secret body))

  module _ (json : Codec VelError) {S : Type 0} (r : Request) (s : S) where
    -- A signed request reaches the handler, and its body, which the check has read, can be read again.
    pub signature_middleware_admits :
        (h : Serve S) {body : Text}
        → IsSigned r body
        → signature_middleware hmac v json h r s ≡ h (record r { body = ok body }) s
    unfolding signature_middleware verify
    signature_middleware_admits h {body} (read, present, same) = ground (
      arith,
      text_eq_iff (get_header r (bytes "X-Hub-Signature-256")) [],
      text_eq_iff (expected_signature hmac v body) (get_header r (bytes "X-Hub-Signature-256")),
    )

    -- Any other request is answered with 400 or 500, the same whatever the handler is, and the
    -- state stays as it was.
    pub signature_middleware_refuses :
        ((body : Text) → ¬ (IsSigned r body))
        → (actions : List Action) × (((respond actions).status_code ≡ 400)
            ⊎ ((respond actions).status_code ≡ 500))
          × ((h : Serve S) → signature_middleware hmac v json h r s ≡ (finished, actions, s))
    unfolding signature_middleware verify
    signature_middleware_refuses unsigned =
        elim (Bool-cases (text_eq (get_header r (bytes "X-Hub-Signature-256")) [])) [
          | inl empty ↦ (
            write_header 400 ∷ write_json (json.encode err_no_signature_header),
            inl (respond-write_json 400 (json.encode err_no_signature_header)),
            λ h. rw empty refl,
          )
          | inr present ↦ elim (Result-cases r.body) [
            | inr (e, broken) ↦ (
              http_error (bytes "unable to read request body") 500,
              inr (unfold respond in refl),
              λ h. rw (present, broken) refl,
            )
            | inl (body, read) ↦
                elim (Result-cases
                  (verify hmac v body (get_header r (bytes "X-Hub-Signature-256")))) [
                    | inl (_, accepted) ↦ absurd (
                        unsigned body (
                          ground (
                            arith,
                            text_eq_iff (get_header r (bytes "X-Hub-Signature-256")) [],
                            text_eq_iff (expected_signature hmac v body)
                                (get_header r (bytes "X-Hub-Signature-256")),
                          )))
                    | inr (e, wrong) ↦ (
                      write_header 400 ∷ write_json (json.encode (err_invalid_signature e)),
                      inl (respond-write_json 400 (json.encode (err_invalid_signature e))),
                      λ h. rw (present, read, wrong) refl,
                    )
                  ]
          ]
        ]
