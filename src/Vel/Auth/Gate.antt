-- ===== src/Vel/Auth/Gate.antt =====
-- Which requests pass the token middleware, and what happens to the others.
use treenq.Base.{
  ℕ, [], ◌++◌, Text, bytes, text_eq, ◌≡◌, ◌⊎◌, inl, inr, refl, Bool-cases, Option-cases,
  Result-cases, some, ok,
}
use treenq.Go.{cut_prefix}
use treenq.Go.Prefix.{cut_prefix_sound}
use treenq.Vel.Http.{Claims, Request, get_header, http_error, finished, Serve}
use treenq.Vel.Auth.{JwtLibrary, JwtIssuer, verify_token, jwt_middleware}

abbrev bearer : Text
bearer = bytes "Bearer "

module _ (lib : JwtLibrary) (j : JwtIssuer) {S : Type 0} (clock : S → ℕ) (r : Request) (s : S) where
  -- The request carries a bearer token with these claims that is valid now.
  abbrev pub Bears : Text → Claims → Type 0
  Bears token claims =
      (get_header r (bytes "Authorization") ≡ bearer ++ token)
      × (verify_token lib j (clock s) token ≡ ok claims)

  -- A request with a valid token reaches the handler, which finds the token's claims in it.
  pub jwt_middleware_admits :
      (h : Serve S) {token : Text} {claims : Claims}
      → Bears token claims
      → jwt_middleware lib j clock h r s ≡ h (record r { claims = some claims }) s
  unfolding jwt_middleware
  jwt_middleware_admits h {token} {claims} (header, verified) = rw (header, verified) refl

  -- Any other request is answered with 401 or 403, the same whatever the handler is, and the
  -- state stays as it was.
  pub jwt_middleware_refuses :
      ((token : Text) (claims : Claims) → ¬ (Bears token claims))
      → (message : Text) × (code : ℕ) × ((code ≡ 401) ⊎ (code ≡ 403))
        × ((h : Serve S)
            → jwt_middleware lib j clock h r s ≡ (finished, http_error message code, s))
  unfolding jwt_middleware
  jwt_middleware_refuses no_token =
      elim (Bool-cases (text_eq (get_header r (bytes "Authorization")) [])) [
        | inl empty ↦ (bytes "authorization header is empty", 401, inl refl, λ h. rw empty refl)
        | inr present ↦
            elim (Option-cases (cut_prefix (get_header r (bytes "Authorization")) bearer)) [
              | inl other ↦ (
                bytes "authorization token is not bearer kind",
                401,
                inl refl,
                λ h. rw (present, other) refl,
              )
              | inr (token, cut) ↦ elim (Result-cases (verify_token lib j (clock s) token)) [
                | inl (claims, verified) ↦
                    absurd (no_token token claims (cut_prefix_sound _ bearer cut, verified))
                | inr (e, refused) ↦
                    (bytes "token is invalid", 403, inr refl, λ h. rw (present, cut, refused) refl)
              ]
            ]
      ]
