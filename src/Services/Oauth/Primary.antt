-- ===== src/Services/Oauth/Primary.antt =====
-- Which address a user logs in with.
use treenq.Base.{
  true, false, ◌&&◌, ◌==◌, ==_iff, List, [], ◌∷◌, ◌++◌, Text, bytes, text_eq, text_eq_iff,
  text_apart, Option-cases, Result, ok, err, Result-cases, Reply-cases, Bool-cases, Panicking,
  returns, panics, All, ◌≡◌, ◌≢◌, ◌⊎◌, inl, inr, refl, ◌∙◌, ap, sym, arith,
}
use treenq.Vel.Http.{Response}
use treenq.Vel.Rpc.{Codec}
use treenq.Client.{Network}
use treenq.Domain.Types.{UserInfo}
use treenq.Services.Oauth.{
  GithubUser, Mail, GithubOauthProvider, new_provider, profile_url, email_url, bearer, user_of,
  primary_mail, get_private_mail, fetch_user, asks_mail, with_mail, with_user,
}

-- The address is that of the first entry which is both primary and verified.
pub record IsPrimary (email : Text) (mails : List Mail) : Type 0 where
  pub before : List Mail
  pub chosen : Mail
  pub after : List Mail
  pub mails-split : mails ≡ before ++ chosen ∷ after
  pub same : chosen.email ≡ email
  pub primary : chosen.primary ≡ true
  pub verified : chosen.verified ≡ true
  pub first : All (λ m. (m.primary && m.verified) ≡ false) before

IsPrimary-skip :
    {email : Text} {mails : List Mail} (m : Mail)
    → (m.primary && m.verified) ≡ false
    → IsPrimary email mails
    → IsPrimary email (m ∷ mails)
IsPrimary-skip m passed h = record {
  before = m ∷ h.before;
  chosen = h.chosen;
  after = h.after;
  mails-split = ap (λ ms. m ∷ ms) h.mails-split;
  same = h.same;
  primary = h.primary;
  verified = h.verified;
  first = (passed, h.first);
}

primary_mail-IsPrimary :
    (mails : List Mail) {email : Text} → primary_mail mails ≡ ok email → IsPrimary email mails
unfolding primary_mail
primary_mail-IsPrimary [] e = ground arith
primary_mail-IsPrimary (m ∷ ms) e = elim (Bool-cases (m.primary && m.verified)) [
  | inl taken ↦ record {
    before = [];
    chosen = m;
    after = ms;
    mails-split = refl;
    same = ground arith;
    primary = ground arith;
    verified = ground arith;
    first = tt;
  }
  | inr passed ↦ IsPrimary-skip m passed (primary_mail-IsPrimary ms (ground arith))
]

scopes-asks_mail : asks_mail (bytes "profile" ∷ bytes "email" ∷ []) ≡ true
unfolding asks_mail
scopes-asks_mail = refl

module _ {S : Type 0} (net : Network S) (token : Text) where
  -- GitHub answers a request that bears the token with 200 and a value.
  pub record Answers {A : Type 0} (json : Codec A) (url : Text) (s : S) (a : A) (s' : S)
      : Type 0 where
    pub response : Response
    pub sent : net.exchange (bearer url token) s ≡ (ok response, s')
    pub fine : response.status_code ≡ 200
    pub read : json.decode (ok response.body) ≡ ok a

  module _ (user_json : Codec GithubUser) (mails_json : Codec (List Mail)) where
    get_private_mail-Answers :
        (p : GithubOauthProvider) (s s' : S) {email : Text}
        → get_private_mail net user_json mails_json p token s ≡ (returns (ok email), s')
        → (mails : List Mail) × Answers mails_json email_url s mails s' × IsPrimary email mails
    unfolding get_private_mail
    get_private_mail-Answers p s s' e = elim (Option-cases (net.new_request_error email_url)) [
      | inr (m, bad) ↦ let never = rw bad at e in ground arith
      | inl good ↦ elim (Reply-cases (net.exchange (bearer email_url token) s)) [
        | inr (m, s₁, lost) ↦ let never = rw (good, lost) at e in ground arith
        | inl (resp, s₁, sent) ↦ elim (Bool-cases (resp.status_code == 200)) [
          | inr bad ↦ let never = rw (good, sent, bad) at e in ground arith
          | inl fine ↦ elim (Result-cases (mails_json.decode (ok resp.body))) [
            | inr (m, broken) ↦ let never = rw (good, sent, fine, broken) at e in ground arith
            | inl (mails, read) ↦
                let found = rw (good, sent, fine, read) at e in
                (
                  mails,
                  record {
                    response = resp;
                    sent = sent ∙ ap (λ q. (ok resp, q.1)) found;
                    fine = (==_iff resp.status_code 200).0 fine;
                    read = read;
                  },
                  primary_mail-IsPrimary mails (ground arith),
                )
          ]
        ]
      ]
    ]

    -- What a user owes to GitHub's answers, the first of which ended in the state s₁.
    abbrev pub IsUserOf : GithubUser → S → UserInfo → S → Type 0
    IsUserOf u s₁ user s' =
        (user.id ≡ [])
        × (user.display_name ≡ u.login)
        × ((u.email ≢ []) × (user.email ≡ u.email) × (s' ≡ s₁)
            ⊎ (u.email ≡ [])
              × ((mails : List Mail) × Answers mails_json email_url s₁ mails s'
                  × IsPrimary user.email mails))

    with_mail-cases :
        (p : GithubOauthProvider) (u : GithubUser) (r : Panicking (Result Text) × S)
        {user : UserInfo} {s' : S}
        → with_mail net user_json mails_json p token u r ≡ (returns (ok user), s')
        → (email : Text) × (r ≡ (returns (ok email), s')) × (user ≡ user_of u email)
    with_mail-cases p u (panics m, s) e = ground arith
    with_mail-cases p u (returns (err m), s) e = ground arith
    with_mail-cases p u (returns (ok email), s) e = (email, cc, cc)

    with_user-IsUserOf :
        (p : GithubOauthProvider) (u : GithubUser) (s₁ s' : S) {user : UserInfo}
        → asks_mail p.scopes ≡ true
        → with_user net user_json mails_json p token s₁ (ok u) ≡ (returns (ok user), s')
        → IsUserOf u s₁ user s'
    with_user-IsUserOf p u s₁ s' {user} asks e = elim (Bool-cases (text_eq u.email [])) [
      | inl empty ↦
          let (email, found, same) =
            with_mail-cases p u (get_private_mail net user_json mails_json p token s₁)
              (rw (empty, asks) at e) in
          let (mails, answered, first) = get_private_mail-Answers p s₁ s' found in
          rw same (refl, refl, inr ((text_eq_iff u.email []).0 empty, (mails, answered, first)))
      | inr present ↦
          let found : (returns (ok (user_of u u.email)), s₁) ≡ (returns (ok user), s') =
            rw present at e in
          let same : user_of u u.email ≡ user = cc in
          rw (sym same) (refl, refl, inl (text_apart u.email [] present, refl, cc))
    ]

    -- A user whom a provider made by `New` fetches without an error has no id and is named by the
    -- login. The address is that of the profile where this has one, and then the second request
    -- is not sent. Where it has none, the address is that of the first entry which is both
    -- primary and verified, in the list that GitHub answers with. GitHub answered each request
    -- that counts with 200.
    pub fetch_user-Answers :
        (client_key secret callback_url : Text) (scopes : List Text) (s s' : S) (user : UserInfo)
        → fetch_user net user_json mails_json
            (new_provider client_key secret callback_url scopes)
            token
            s
          ≡ (returns (ok user), s')
        → (u : GithubUser) × (s₁ : S) × Answers user_json profile_url s u s₁ × IsUserOf u s₁ user s'
    unfolding fetch_user
    fetch_user-Answers client_key secret callback_url scopes s s' user e =
        let asks : asks_mail (bytes "profile" ∷ bytes "email" ∷ []) ≡ true = scopes-asks_mail in
        elim (Option-cases (net.new_request_error profile_url)) [
          | inr (m, bad) ↦ let never = rw bad at e in ground arith
          | inl good ↦ elim (Reply-cases (net.exchange (bearer profile_url token) s)) [
            | inr (m, s₁, lost) ↦ let never = rw (good, lost) at e in ground arith
            | inl (resp, s₁, sent) ↦ elim (Bool-cases (resp.status_code == 200)) [
              | inr bad ↦ let never = rw (good, sent, bad) at e in ground arith
              | inl fine ↦ elim (Result-cases (user_json.decode (ok resp.body))) [
                | inr (m, broken) ↦ let never = rw (good, sent, fine, broken) at e in ground arith
                | inl (u, read) ↦ (
                  u,
                  s₁,
                  record {
                    response = resp;
                    sent = sent;
                    fine = (==_iff resp.status_code 200).0 fine;
                    read = read;
                  },
                  with_user-IsUserOf (new_provider client_key secret callback_url scopes) u s₁ s'
                      asks (rw (good, sent, fine, read) at e),
                )
              ]
            ]
          ]
        ]
