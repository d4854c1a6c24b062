-- ===== src/Vel/Auth.antt =====
-- pkg/vel/auth/jwt.go: issuing and verifying tokens, and the middleware that lets only requests
-- with a valid token through. PEM blocks, RSA keys and signed tokens are golang-jwt's: a library
-- that the definitions take as a parameter. Times are in seconds.
pub mod Gate
pub mod Tokens
use treenq.Base.{
  ℕ, ◌+◌, List, [], ◌∷◌, ◌++◌, Text, bytes, text_eq, lookup, Bool, true, false, Option, none, some,
  Result, ok, err, if◌then◌else◌,
}
use treenq.Go.{cut_prefix}
use treenq.Vel.Http.{
  Claim, text, number, other, Claims, Request, get_header, http_error, finished, Serve, Reply,
}

pub record Token : Type 0 where
  pub valid : Bool
  pub claims : Option Claims

-- encoding/pem and golang-jwt. `parse now token key_of` asks `key_of` for the key, and tells it
-- whether the token's signing method is of the RSA family.
pub record JwtLibrary : Type 1 where
  pub PrivateKey : Type 0
  pub PublicKey : Type 0
  pub has_pem_block : Text → Bool
  pub parse_private : Text → Result PrivateKey
  pub parse_public : Text → Result PublicKey
  pub sign : Claims → PrivateKey → Result Text
  pub parse : ℕ → Text → (Bool → Result PublicKey) → Result Token

pub record JwtIssuer : Type 0 where
  pub issuer : Text
  pub secret : Text
  pub public : Text
  pub ttl : ℕ

infixl 5 ◌>>=◌
abbrev ◌>>=◌ {ℓ κ} : {A : Type ℓ} {B : Type κ} → Result A → (A → Result B) → Result B
ok a >>= f = f a
err e >>= f = err e

abbrev pub wrap_error {ℓ} : {A : Type ℓ} → Text → Result A → Result A
wrap_error context (ok a) = ok a
wrap_error context (err e) = err (context ++ e)

-- `jwtClaims[k] = v`.
unfoldable pub set_claim : Text → Claim → Claims → Claims
set_claim k v [] = (k, v) ∷ []
set_claim k v ((j, w) ∷ m) = if text_eq j k then (k, v) ∷ m else (j, w) ∷ set_claim k v m

unfoldable pub set_claims : Claims → Claims → Claims
set_claims [] m = m
set_claims ((k, v) ∷ claims) m = set_claims claims (set_claim k v m)

unfoldable pub issued_claims : JwtIssuer → ℕ → Claims → Claims
issued_claims j now claims = set_claims claims (
    (bytes "iat", number now)
    ∷ (bytes "exp", number (now + j.ttl))
    ∷ (bytes "iss", text j.issuer)
    ∷ [])

abbrev has_issuer : Option Claim → Text → Bool
has_issuer (some (text iss)) issuer = text_eq iss issuer
has_issuer _ issuer = false

abbrev pub checked_claims : Text → Option Claims → Result Claims
checked_claims issuer none = err (bytes "invalid claims format")
checked_claims issuer (some claims) =
    if has_issuer (lookup (bytes "iss") claims) issuer
    then ok claims
    else err (bytes "invalid issuer")

abbrev pub checked_token : Text → Token → Result Claims
checked_token issuer token =
    if token.valid then checked_claims issuer token.claims else err (bytes "invalid token")

abbrev pub or_refused {ℓ} : {K : Type ℓ} → K → Bool → Result K
or_refused key true = ok key
or_refused key false = err (bytes "unexpected signing method")

abbrev no_pem : Text
no_pem = bytes "failed to decode pem"

abbrev bad_pem : Text
bad_pem = bytes "failed to parse pem: "

module _ (lib : JwtLibrary) (j : JwtIssuer) (now : ℕ) where
  unfoldable pub generate_jwt_token : Claims → Result Text
  unfolding issued_claims
  generate_jwt_token claims =
      if lib.has_pem_block j.secret
      then (do
        private_key ← wrap_error bad_pem (lib.parse_private j.secret)
        lib.sign (issued_claims j now claims) private_key)
      else err no_pem

  unfoldable pub verify_token : Text → Result Claims
  verify_token token_string =
      if lib.has_pem_block j.secret
      then (do
        public_key ← wrap_error bad_pem (lib.parse_public j.public)
        token ← lib.parse now token_string (or_refused public_key)
        checked_token j.issuer token)
      else err no_pem

module _ (lib : JwtLibrary) (j : JwtIssuer) {S : Type 0} (clock : S → ℕ) (h : Serve S) where
  abbrev pub with_claims : Request → S → Result Claims → Reply S
  with_claims r s (err _) = (finished, http_error (bytes "token is invalid") 403, s)
  with_claims r s (ok claims) = h (record r { claims = some claims }) s

  abbrev pub with_token : Request → S → Option Text → Reply S
  with_token r s none =
      (finished, http_error (bytes "authorization token is not bearer kind") 401, s)
  with_token r s (some token) = with_claims r s (verify_token lib j (clock s) token)

  unfoldable pub jwt_middleware : Serve S
  unfolding get_header cut_prefix
  jwt_middleware r s =
      if text_eq (get_header r (bytes "Authorization")) []
      then (finished, http_error (bytes "authorization header is empty") 401, s)
      else with_token r s (cut_prefix (get_header r (bytes "Authorization")) (bytes "Bearer "))
