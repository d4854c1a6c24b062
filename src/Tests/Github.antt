-- ===== src/Tests/Github.antt =====
-- GitHub as a network that counts requests: a user without a public address, who has two others.
use treenq.Base.{ℕ, ◌+◌, true, false, List, [], ◌∷◌, bytes, none, ok, returns, ◌≡◌, refl}
use treenq.Go.{pos}
use treenq.Vel.Rpc.{Codec}
use treenq.Client.{Network}
use treenq.Domain.Types.{UserInfo}
use treenq.Services.Oauth.{
  GithubUser, Mail, new_provider, profile_url, fetch_user, asks_mail, get_private_mail,
  primary_mail,
}
use treenq.Services.Oauth.Primary.{Answers, IsUserOf, fetch_user-Answers}

abbrev github : Network ℕ
github = record {
  new_request_error = λ url. none;
  exchange = λ out s. (ok (record { status_code = 200; body = [] }), s + 1);
}

abbrev user_json : Codec GithubUser
user_json = record {
  encode = λ u. ok [];
  decode = λ body. ok (record { id = pos 1; email = []; login = bytes "ann" });
}

abbrev mails_json : Codec (List Mail)
mails_json = record {
  encode = λ mails. ok [];
  decode = λ body. ok (
      record { email = bytes "old@b.c"; primary = false; verified = true }
      ∷ record { email = bytes "ann@b.c"; primary = true; verified = true }
      ∷ []);
}

abbrev ann : UserInfo
ann = record { id = []; email = bytes "ann@b.c"; display_name = bytes "ann" }

fetched :
    fetch_user github user_json mails_json (new_provider [] [] [] []) (bytes "gh") 0
    ≡ (returns (ok ann), 2)
unfolding fetch_user asks_mail get_private_mail primary_mail
fetched = refl

fetch_user-Answers_example :
    (u : GithubUser) × (s₁ : ℕ) × Answers github (bytes "gh") user_json profile_url 0 u s₁
    × IsUserOf github (bytes "gh") user_json mails_json u s₁ ann 2
fetch_user-Answers_example =
    fetch_user-Answers github (bytes "gh") user_json mails_json [] [] [] [] 0 2 ann fetched
