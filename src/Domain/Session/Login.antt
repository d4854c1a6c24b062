-- ===== src/Domain/Session/Login.antt =====
-- What the callback of a login does, and what the token that it answers with is good for.
use treenq.Base.{
  returns, ℕ, ◌+◌, ◌<◌, List, [], ◌∷◌, ◌++◌, Text, bytes, text_eq_iff, text_eq_refl, text_ne,
  lookup, none, some, Option-cases, Result, ok, err, ◌≡◌, ◌≢◌, ◌⊎◌, inl, inr, refl, ◌∙◌, arith,
}
use treenq.Vel.Error.{done}
use treenq.Vel.Http.{
  Claims, Request, get_header, get_query, Action, End, finished, panicking, respond, Serve,
  redirect, write_header, write, http_error,
}
use treenq.Vel.Rpc.{Codec}
use treenq.Vel.Auth
use treenq.Vel.Auth.{JwtLibrary, jwt_middleware}
use treenq.Base.{All}
use treenq.Go.Utf8.{IsUtf8, utf8_from}
use treenq.Vel.Auth.Tokens.{IsPortable, HasKeys, IsMap, IsReserved, verified_claims}
use treenq.Vel.Auth.Gate.{jwt_middleware_admits}
use treenq.Domain.Types.{UserInfo}
use treenq.Domain.Handler.{Handler}
use treenq.Domain.Profile.{get_profile}
use treenq.Domain.Session.{github_callback_handler, user_claims, with_issued}

module _ {S : Type 0} (json : Codec Text) (r : Request) (s : S) where
  -- A callback whose state is not the one in the cookie, or that has no cookie, calls nothing: the
  -- reply is the same for every handler, the state stays as it was, and nobody is logged in: with a
  -- cookie the status is 307, and without one the handler panics.
  pub github_callback_forged :
      ((value : Text)
        → lookup (bytes "authstate") r.cookies ≡ some value
        → get_query r (bytes "state") ≢ value)
      → (end : End) × (actions : List Action) × ((h : Handler S)
          → github_callback_handler h json r s ≡ (end, actions, s))
        × (((value : Text) × (lookup (bytes "authstate") r.cookies ≡ some value))
              × (end ≡ finished)
              × ((respond actions).status_code ≡ 307)
            ⊎ (lookup (bytes "authstate") r.cookies ≡ none)
              × (end ≡ panicking (bytes "invalid memory address or nil pointer dereference")))
  unfolding github_callback_handler respond
  github_callback_forged forged = elim (Option-cases (lookup (bytes "authstate") r.cookies)) [
    | inl missing ↦ (_, [], λ h. rw missing refl, inr (missing, refl))
    | inr (value, found) ↦ (
      finished,
      redirect (bytes "/") 307,
      λ h.
          rw found
            (ground (arith, text_eq_iff (get_query r (bytes "state")) value, forged value found)),
      inl ((value, found), refl, refl),
    )
  ]

user_claims-IsMap : {S : Type 0} (h : Handler S) (user : UserInfo) → IsMap (user_claims h user)
user_claims-IsMap h user = (refl, (refl, (refl, tt)))

user_claims-free :
    {S : Type 0} (h : Handler S) (user : UserInfo) (k : Text)
    → IsReserved k
    → lookup k (user_claims h user) ≡ none
user_claims-free h user k (inl e) = rw e refl
user_claims-free h user k (inr (inl e)) = rw e refl
user_claims-free h user k (inr (inr e)) = rw e refl

-- JSON brings the user back as he was.
abbrev pub IsPrintable : UserInfo → Type 0
IsPrintable user = IsUtf8 user.id × IsUtf8 user.email × IsUtf8 user.display_name

user_claims-IsPortable :
    {S : Type 0} (h : Handler S) (user : UserInfo)
    → IsPrintable user
    → All IsPortable (user_claims h user)
unfolding utf8_from
user_claims-IsPortable h user (id, email, display_name) =
    ((refl, id), ((refl, email), ((refl, display_name), tt)))

id_own : ¬ (IsReserved (bytes "id"))
id_own h = ground arith

email_own : ¬ (IsReserved (bytes "email"))
email_own h = ground arith

display_name_own : ¬ (IsReserved (bytes "displayName"))
display_name_own h = ground arith

-- The steps of a login that succeed, each from the state in which the one before it ended.
pub record LogsIn {S : Type 0} (h : Handler S) (r : Request) (s : S) (user : UserInfo) (s' : S)
    : Type 0 where
  pub value : Text
  pub token : Text
  pub fetched : UserInfo
  pub exchanged : S
  pub known : S
  pub cookie : lookup (bytes "authstate") r.cookies ≡ some value
  pub same_state : get_query r (bytes "state") ≡ value
  pub has_code : get_query r (bytes "code") ≢ []
  pub exchange :
      h.oauth_provider.exchange_code (get_query r (bytes "code")) s ≡ (ok token, exchanged)
  pub fetch : h.oauth_provider.fetch_user token exchanged ≡ (returns (ok fetched), known)
  pub save : h.db.get_or_create_user fetched known ≡ (ok user, s')

module _ {S : Type 0} (h : Handler S) (json : Codec Text) (r : Request) (s : S) {user : UserInfo}
    {s' : S} (login : LogsIn h r s user s') where
  to_issue :
      {issued : Result Text} {s'' : S}
      → h.jwt_issuer.generate_jwt_token (user_claims h user) s' ≡ (issued, s'')
      → github_callback_handler h json r s ≡ with_issued h json (issued, s'')
  unfolding github_callback_handler
  to_issue e =
      rw
        (
          login.cookie,
          login.same_state,
          text_eq_refl login.value,
          text_ne login.has_code,
          login.exchange,
          login.fetch,
          login.save,
          e,
        )
        refl

  -- A login that succeeds and whose token is issued is answered with 200 and the token as JSON.
  pub github_callback_issued :
      {tokens line : Text} {s'' : S}
      → h.jwt_issuer.generate_jwt_token (user_claims h user) s' ≡ (ok tokens, s'')
      → json.encode tokens ≡ ok line
      → (actions : List Action) × (github_callback_handler h json r s ≡ (finished, actions, s''))
        × (respond actions ≡ record { status_code = 200; body = line })
  unfolding respond
  github_callback_issued {line} e encoded =
      (write_header 200 ∷ write line ∷ [], to_issue e ∙ (rw encoded refl), refl)

  -- A login that succeeds, but for which no token can be issued, is answered with 500, and its
  -- body goes on behind the error with the JSON of an empty token.
  pub github_callback_unissued :
      {e line : Text} {s'' : S}
      → h.jwt_issuer.generate_jwt_token (user_claims h user) s' ≡ (err e, s'')
      → json.encode [] ≡ ok line
      → (actions : List Action) × (github_callback_handler h json r s ≡ (finished, actions, s''))
        × (respond actions
            ≡ record { status_code = 500; body = bytes "failed to issue jwt token" ++ 10 ∷ line })
  unfolding respond
  github_callback_unissued {line} e encoded = (
    http_error (bytes "failed to issue jwt token") 500 ++ write_header 200 ∷ write line ∷ [],
    to_issue e ∙ (rw encoded refl),
    refl,
  )

  module _ (lib : JwtLibrary) (j : Auth.JwtIssuer) (keys : HasKeys lib j) (clock : S → ℕ)
      (issues : (claims : Claims) (t : S)
        → h.jwt_issuer.generate_jwt_token claims t
          ≡ (Auth.generate_jwt_token lib j (clock t) claims, t)) where
    -- A login that succeeds, and whose token can be generated and written as JSON, is answered
    -- with that token, which opens the session: with a pair of keys, until its time to live is
    -- over, a request that bears it passes the token middleware of the same issuer, and the
    -- profile of that request is the user who logged in. The handler's issuer is the one of the
    -- middleware, and the user, the issuer's name and the times are such that JSON brings them back
    -- as they were.
    pub get_profile-github_callback :
        {tokens line : Text}
        → IsPrintable user
        → IsUtf8 j.issuer
        → clock s' + j.ttl < 9007199254740992
        → json.encode tokens ≡ ok line
        → Auth.generate_jwt_token lib j (clock s') (user_claims h user) ≡ ok tokens
        → (next : Request) (t : S)
        → get_header next (bytes "Authorization") ≡ bytes "Bearer " ++ tokens
        → clock t < clock s' + j.ttl
        → (claims : Claims) × (actions : List Action) × (github_callback_handler h json r s
            ≡ (finished, actions, s'))
          × (respond actions ≡ record { status_code = 200; body = line })
          × ((inner : Serve S)
              → jwt_middleware lib j clock inner next t
                ≡ inner (record next { claims = some claims }) t)
          × (get_profile (record next { claims = some claims }) ≡ done user)
    unfolding get_profile
    get_profile-github_callback {tokens} printable named exact encoded generated next t bears
          fresh =
        let (claims, verified, _, same) =
          verified_claims lib j keys (user_claims h user) (user_claims-IsMap h user)
            (user_claims-free h user) (user_claims-IsPortable h user printable) named refl
            (clock s') (clock t) exact generated fresh in
        let (actions, replied, response) =
          github_callback_issued (issues (user_claims h user) s' ∙ (rw generated refl)) encoded in
        (
          claims,
          actions,
          replied,
          response,
          λ inner. jwt_middleware_admits lib j clock next t inner (bears, verified),
          rw
              (
                same (bytes "id") id_own,
                same (bytes "email") email_own,
                same (bytes "displayName") display_name_own,
              )
              refl,
        )
