-- ===== src/Tests/Sessions.antt =====
-- Login, token and profile, at the user of `Demo` and the library of `Jwt`.
use treenq.Base.{
  ℕ, List, [], ◌∷◌, ◌++◌, Text, bytes, text_apart, lookup, none, some, ok, err, ◌≡◌, ◌≢◌, ◌⊎◌, inl,
  inr, refl, arith,
}
use treenq.Go.Utf8.{utf8_from}
use treenq.Vel.Http.{Claims, text, Request, get_query, Action, End, finished, panicking, respond}
use treenq.Vel.Auth
use treenq.Vel.Auth.{
  verify_token, generate_jwt_token, jwt_middleware, issued_claims, set_claims, set_claim,
}
use treenq.Vel.Auth.Tokens.{verify_token-generate_jwt_token, IsReserved}
use treenq.Domain.Handler.{Handler}
use treenq.Domain.Session.{github_callback_handler, user_claims}
use treenq.Domain.Session.Login.{github_callback_forged, github_callback_unissued, LogsIn}
use treenq.Tests.Demo.{handler, user}
use treenq.Tests.Json.{text_json}
use treenq.Tests.Jwt.{library, library-HasKeys, issuer, jwt}

abbrev clock : ℕ → ℕ
clock s = s

-- The handler with the real issuer.
abbrev site : Handler ℕ
site = record handler {
  jwt_issuer = record {
    generate_jwt_token = λ claims s. (Auth.generate_jwt_token library issuer s claims, s);
  };
}

abbrev callback : Request
callback = record {
  method = bytes "GET";
  uri = bytes "/authCallback";
  query = (bytes "state", bytes "s1") ∷ (bytes "code", bytes "c1") ∷ [];
  cookies = (bytes "authstate", bytes "s1") ∷ [];
  headers = [];
  body = ok [];
  claims = none;
}

abbrev stolen : Request
stolen = record callback { cookies = (bytes "authstate", bytes "s2") ∷ [] }

stolen_state :
    (value : Text)
    → lookup (bytes "authstate") stolen.cookies ≡ some value
    → get_query stolen (bytes "state") ≢ value
unfolding get_query
stolen_state value found same = text_apart (bytes "s1") (bytes "s2") refl (ground arith)

github_callback_forged_example :
    (end : End) × (actions : List Action) × ((h : Handler ℕ)
      → github_callback_handler h text_json stolen 0 ≡ (end, actions, 0))
    × (((value : Text) × (lookup (bytes "authstate") stolen.cookies ≡ some value))
          × (end ≡ finished)
          × ((respond actions).status_code ≡ 307)
        ⊎ (lookup (bytes "authstate") stolen.cookies ≡ none)
          × (end ≡ panicking (bytes "invalid memory address or nil pointer dereference")))
github_callback_forged_example = github_callback_forged text_json stolen 0 stolen_state

-- The handler whose issuer has no key.
abbrev mute : Handler ℕ
mute = record handler {
  jwt_issuer = record { generate_jwt_token = λ claims s. (err (bytes "failed to decode pem"), s) };
}

mute_login : LogsIn mute callback 0 user 3
unfolding get_query
mute_login = record {
  value = bytes "s1";
  token = bytes "gh";
  fetched = record user { id = [] };
  exchanged = 1;
  known = 2;
  cookie = refl;
  same_state = refl;
  has_code = text_apart (bytes "c1") [] refl;
  exchange = refl;
  fetch = refl;
  save = refl;
}

login : LogsIn site callback 0 user 3
unfolding get_query
login = record {
  value = bytes "s1";
  token = bytes "gh";
  fetched = record user { id = [] };
  exchanged = 1;
  known = 2;
  cookie = refl;
  same_state = refl;
  has_code = text_apart (bytes "c1") [] refl;
  exchange = refl;
  fetch = refl;
  save = refl;
}

issued : Auth.generate_jwt_token library issuer 3 (user_claims site user) ≡ ok jwt
unfolding generate_jwt_token issued_claims set_claims set_claim
issued = refl

github_callback_unissued_example :
    (actions : List Action) × (github_callback_handler mute text_json callback 0
      ≡ (finished, actions, 3))
    × (respond actions
        ≡ record { status_code = 500; body = bytes "failed to issue jwt token" ++ 10 ∷ [] })
github_callback_unissued_example =
    github_callback_unissued mute text_json callback 0 mute_login refl refl

reserved_free : (k : Text) → IsReserved k → lookup k (user_claims site user) ≡ none
reserved_free k (inl e) = rw e refl
reserved_free k (inr (inl e)) = rw e refl
reserved_free k (inr (inr e)) = rw e refl

id_own : ¬ (IsReserved (bytes "id"))
id_own h = ground arith

verify_token-generate_jwt_token_example :
    (verified : Claims) × (verify_token library issuer 52 jwt ≡ ok verified)
    × (lookup (bytes "iss") verified ≡ some (text (bytes "treenq-api")))
    × (lookup (bytes "id") verified ≡ some (text (bytes "u1")))
unfolding utf8_from
verify_token-generate_jwt_token_example =
    verify_token-generate_jwt_token library issuer library-HasKeys (user_claims site user)
      (refl, (refl, (refl, tt))) reserved_free ((refl, refl), ((refl, refl), ((refl, refl), tt)))
      refl refl 3 52 (bytes "id") (omega arith) issued (omega arith) id_own
