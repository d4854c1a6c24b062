-- ===== src/Repo/Github/Kept.antt =====
-- Which token an installation gets.
use treenq.Base.{
  false, ltb, ◌<◌, [], Text, Option, none, Option-cases, Result, ok, err, Bool-cases, ◌≡◌, inl, inr,
  refl, arith,
}
use treenq.Go.{ℤ}
use treenq.Vel.Http.{Response}
use treenq.Client.{Network}
use treenq.Domain.Handler.{JwtIssuer}
use treenq.Repo.Github.{
  with_body, Memory, token_url, token_request, issue_access_token, with_response, with_jwt,
}

module _ {S : Type 0} (issuer : JwtIssuer S) (net : Network S)
    (decode : Text → Option Text × Result (Unit {0})) where
  with_body-token :
      (m : Memory S) (p : Option Text × Result (Unit {0})) {token : Text} {m' : Memory S}
      → with_body issuer net decode m p ≡ (ok token, m')
      → m'.token ≡ token
  with_body-token m (t, err e) h = ground arith
  with_body-token m (t, ok _) h = ground arith

  with_response-token :
      (before : Text) (p : Result Response × S) {token : Text} {m : Memory S}
      → with_response issuer net decode before p ≡ (ok token, m)
      → m.token ≡ token
  with_response-token before (err e, s) h = ground arith
  with_response-token before (ok resp, s) h = elim (Bool-cases (ltb 299 resp.status_code)) [
    | inl high ↦ let never = rw high at h in ground arith
    | inr low ↦
        with_body-token (record { token = before; world = s }) (decode resp.body) (rw low at h)
  ]

  with_jwt-token :
      (i : ℤ) (before : Text) (p : Result Text × S) {token : Text} {m : Memory S}
      → with_jwt issuer net decode i before p ≡ (ok token, m)
      → m.token ≡ token
  with_jwt-token i before (err e, s) h = ground arith
  with_jwt-token i before (ok jwt, s) h =
      elim (Option-cases (net.new_request_error (token_url i))) [
        | inr (e, bad) ↦ let never = rw bad at h in ground arith
        | inl good ↦
            with_response-token before (net.exchange (token_request i jwt) s) (rw good at h)
      ]

  -- After a call that returned a token, let the request of the next call be sent and answered
  -- with a status below 300 and a text without a token: then the next call returns the token of
  -- the call before, whichever installation that was for.
  pub issue_access_token_kept :
      (i j : ℤ) (m m₁ : Memory S) (token jwt : Text) (s₁ s₂ : S) (resp : Response)
      → issue_access_token issuer net decode i m ≡ (ok token, m₁)
      → issuer.generate_jwt_token [] m₁.world ≡ (ok jwt, s₁)
      → net.new_request_error (token_url j) ≡ none
      → net.exchange (token_request j jwt) s₁ ≡ (ok resp, s₂)
      → resp.status_code < 300
      → decode resp.body ≡ (none, ok tt)
      → issue_access_token issuer net decode j m₁ ≡ (ok token, record { token = token; world = s₂ })
  unfolding issue_access_token
  issue_access_token_kept i j m m₁ token jwt s₁ s₂ resp first generated good sent fine empty =
      let same : m₁.token ≡ token =
        with_jwt-token i m.token (issuer.generate_jwt_token [] m.world) first in
      let low : ltb 299 resp.status_code ≡ false = ground arith in
      rw (generated, good, sent, low, empty, same) refl
