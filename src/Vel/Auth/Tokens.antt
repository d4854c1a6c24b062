-- ===== src/Vel/Auth/Tokens.antt =====
-- A token that was generated is verified, with the claims that it was generated for.
use treenq.Base.{
  All, false, ℕ, ◌+◌, ◌<◌, [], ◌∷◌, Text, bytes, text_eq, text_eq_iff, lookup, Bool, true, Option,
  none, some, Result, ok, if◌then◌else◌, ◌≡◌, ◌∙◌, ◌⊎◌, inl, inr, refl, text_eq_refl, arith,
}
use treenq.Go.Utf8.{IsUtf8, utf8_from}
use treenq.Vel.Http.{Claim, text, number, other, Claims}
use treenq.Vel.Auth.{
  JwtLibrary, JwtIssuer, set_claim, set_claims, issued_claims, generate_jwt_token, verify_token,
  or_refused,
}

pub lookup-set_claim :
    (k j : Text) (v : Claim) (m : Claims)
    → lookup j (set_claim k v m) ≡ (if text_eq k j then some v else lookup j m)
unfolding set_claim
lookup-set_claim k j v [] = refl
lookup-set_claim k j v ((i, w) ∷ m) =
    ground (arith, text_eq_iff k j, text_eq_iff i k, text_eq_iff i j, lookup-set_claim k j v m)

-- No key stands twice, as in a Go map.
abbrev pub IsMap : Claims → Type 0
IsMap [] = Unit
IsMap ((k, _) ∷ m) = (lookup k m ≡ none) × IsMap m

abbrev pub or_else : Option Claim → Option Claim → Option Claim
or_else (some v) o = some v
or_else none o = o

pub lookup-set_claims :
    (claims m : Claims) (j : Text)
    → IsMap claims
    → lookup j (set_claims claims m) ≡ or_else (lookup j claims) (lookup j m)
unfolding set_claims
lookup-set_claims [] m j h = refl
lookup-set_claims ((k, v) ∷ claims) m j (fresh, h) = ground (
  arith,
  text_eq_iff k j,
  lookup-set_claims claims (set_claim k v m) j h,
  lookup-set_claim k j v m,
)

-- A claim that JSON brings back as it was: texts are UTF-8, and numbers are exact as floats.
abbrev pub IsPortable : Text × Claim → Type 0
IsPortable (k, text t) = IsUtf8 k × IsUtf8 t
IsPortable (k, number n) = IsUtf8 k × (n < 9007199254740992)
IsPortable (k, other) = ⊥

set_claim-IsPortable :
    (k : Text) (v : Claim) (m : Claims)
    → IsPortable (k, v)
    → All IsPortable m
    → All IsPortable (set_claim k v m)
unfolding set_claim
set_claim-IsPortable k v [] p h = (p, tt)
set_claim-IsPortable k v ((i, w) ∷ m) p (q, h) = go (text_eq i k) (set_claim-IsPortable k v m p h)
  where
    go :
        (b : Bool)
        → All IsPortable (set_claim k v m)
        → All IsPortable (if b then (k, v) ∷ m else (i, w) ∷ set_claim k v m)
    go true rest = (p, h)
    go false rest = (q, rest)

set_claims-IsPortable :
    (claims m : Claims)
    → All IsPortable claims
    → All IsPortable m
    → All IsPortable (set_claims claims m)
unfolding set_claims
set_claims-IsPortable [] m c h = h
set_claims-IsPortable ((k, v) ∷ claims) m (p, c) h =
    set_claims-IsPortable claims (set_claim k v m) c (set_claim-IsPortable k v m p h)

-- What the issuer relies on of the library: its two PEM texts are a pair of RSA keys, and a token
-- signed with the one parses with the other, to the claims that were signed, if JSON brings these
-- back as they were, as long as the time is before the claim "exp" and there is no claim "nbf".
pub record HasKeys (lib : JwtLibrary) (j : JwtIssuer) : Type 0 where
  pub private_key : lib.PrivateKey
  pub public_key : lib.PublicKey
  pub secret_block : lib.has_pem_block j.secret ≡ true
  pub private_parsed : lib.parse_private j.secret ≡ ok private_key
  pub public_parsed : lib.parse_public j.public ≡ ok public_key
  pub parse-sign :
      (claims : Claims) (now exp : ℕ) (token : Text) (key_of : Bool → Result lib.PublicKey)
      → lib.sign claims private_key ≡ ok token
      → key_of true ≡ ok public_key
      → All IsPortable claims
      → lookup (bytes "exp") claims ≡ some (number exp)
      → lookup (bytes "nbf") claims ≡ none
      → now < exp
      → (parsed : Claims) × (lib.parse now token key_of
          ≡ ok (record { valid = true; claims = some parsed }))
        × ((k : Text) → lookup k parsed ≡ lookup k claims)

-- The claims that the issuer sets itself.
abbrev pub IsReserved : Text → Type 0
IsReserved k = (k ≡ bytes "iat") ⊎ (k ≡ bytes "exp") ⊎ (k ≡ bytes "iss")

module _ (lib : JwtLibrary) (j : JwtIssuer) (keys : HasKeys lib j) (claims : Claims)
    (keyed : IsMap claims) (free : (k : Text) → IsReserved k → lookup k claims ≡ none)
    (portable : All IsPortable claims) (issuer_utf8 : IsUtf8 j.issuer)
    (unbound : lookup (bytes "nbf") claims ≡ none) where
  issued_exp :
      (now : ℕ) → lookup (bytes "exp") (issued_claims j now claims) ≡ some (number (now + j.ttl))
  unfolding issued_claims
  issued_exp now =
      rw (lookup-set_claims claims _ (bytes "exp") keyed, free (bytes "exp") (inr (inl refl))) refl

  issued_iss : (now : ℕ) → lookup (bytes "iss") (issued_claims j now claims) ≡ some (text j.issuer)
  unfolding issued_claims
  issued_iss now =
      rw (lookup-set_claims claims _ (bytes "iss") keyed, free (bytes "iss") (inr (inr refl))) refl

  issued_own :
      (now : ℕ) (k : Text)
      → ¬ (IsReserved k)
      → lookup k (issued_claims j now claims) ≡ lookup k claims
  unfolding issued_claims
  issued_own now k own = ground (
    arith,
    lookup-set_claims claims
        ((bytes "iat", number now)
          ∷ (bytes "exp", number (now + j.ttl))
          ∷ (bytes "iss", text j.issuer)
          ∷ [])
        k keyed,
    text_eq_iff (bytes "iat") k,
    text_eq_iff (bytes "exp") k,
    text_eq_iff (bytes "iss") k,
  )

  nbf_own : ¬ (IsReserved (bytes "nbf"))
  nbf_own h = ground arith

  issued-IsPortable :
      (now : ℕ) → now + j.ttl < 9007199254740992 → All IsPortable (issued_claims j now claims)
  unfolding issued_claims utf8_from
  issued-IsPortable now exact =
      set_claims-IsPortable claims _ portable
        ((refl, omega arith), ((refl, omega arith), ((refl, issuer_utf8), tt)))

  pub verified_claims :
      (now later : ℕ) {token : Text}
      → now + j.ttl < 9007199254740992
      → generate_jwt_token lib j now claims ≡ ok token
      → later < now + j.ttl
      → (verified : Claims) × (verify_token lib j later token ≡ ok verified)
        × (lookup (bytes "iss") verified ≡ some (text j.issuer))
        × ((k : Text) → ¬ (IsReserved k) → lookup k verified ≡ lookup k claims)
  unfolding generate_jwt_token verify_token
  verified_claims now later {token} exact generated fresh =
      let signed : lib.sign (issued_claims j now claims) keys.private_key ≡ ok token =
        rw (keys.secret_block, keys.private_parsed) at generated in
      let (parsed, is_parsed, same) =
        keys.parse-sign (issued_claims j now claims) later (now + j.ttl) token
          (or_refused keys.public_key) signed refl (issued-IsPortable now exact) (issued_exp now)
          (issued_own now (bytes "nbf") nbf_own ∙ unbound) fresh in
      (
        parsed,
        rw
            (
              keys.secret_block,
              keys.public_parsed,
              is_parsed,
              same (bytes "iss"),
              issued_iss now,
              text_eq_refl j.issuer,
            )
            refl,
        same (bytes "iss") ∙ issued_iss now,
        λ k own. same k ∙ issued_own now k own,
      )

  -- With a pair of keys, a token that the issuer generated is verified by the same issuer until
  -- its time to live is over. The claims that come back name the issuer, and have at every key
  -- that the issuer does not set itself what was put in, provided that the claims put in are a map,
  -- set none of the issuer's keys and no time before which the token is not valid, and that they,
  -- the issuer's name and the times are such that JSON brings them back as they were.
  pub verify_token-generate_jwt_token :
      (now later : ℕ) {token : Text} (k : Text)
      → now + j.ttl < 9007199254740992
      → generate_jwt_token lib j now claims ≡ ok token
      → later < now + j.ttl
      → ¬ (IsReserved k)
      → (verified : Claims) × (verify_token lib j later token ≡ ok verified)
        × (lookup (bytes "iss") verified ≡ some (text j.issuer))
        × (lookup k verified ≡ lookup k claims)
  verify_token-generate_jwt_token now later k exact generated fresh own =
      let (verified, is_verified, issuer, same) = verified_claims now later exact generated fresh in
      (verified, is_verified, issuer, same k own)
