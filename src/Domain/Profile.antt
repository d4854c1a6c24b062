-- ===== src/Domain/Profile.antt =====
-- src/domain/getProfile.go and src/domain/getRepos.go: what the claims of a request's token say
-- of the user, and the user's repositories. A claim that is no text panics.
use treenq.Base.{List, [], Text, bytes, lookup, Option, none, some, Result, ok, err}
use treenq.Vel.Error.{VelError, Outcome, done, failed, panicked}
use treenq.Vel.Http.{Claim, text, Claims, Request}
use treenq.Domain.Types.{UserInfo, InstalledRepository}
use treenq.Domain.Handler.{Handler}

-- `ClaimsFromCtx`: the nil map where no middleware has set the claims.
unfoldable pub claims_from_ctx : Option Claims → Claims
claims_from_ctx none = []
claims_from_ctx (some claims) = claims

infixl 5 ◌>>=◌
abbrev pub ◌>>=◌ {ℓ κ} : {A : Type ℓ} {B : Type κ} → Outcome A → (A → Outcome B) → Outcome B
done a >>= f = f a
failed e >>= f = failed e
panicked m >>= f = panicked m

-- `claims[key].(string)`.
abbrev pub as_string : Option Claim → Outcome Text
as_string (some (text s)) = done s
as_string _ = panicked (bytes "interface conversion: interface {} is not string")

-- The response of `GetProfile` has one field, the user.
unfoldable pub get_profile : Request → Outcome UserInfo
unfolding claims_from_ctx
get_profile r = do
  id ← as_string (lookup (bytes "id") (claims_from_ctx r.claims))
  email ← as_string (lookup (bytes "email") (claims_from_ctx r.claims))
  display_name ← as_string (lookup (bytes "displayName") (claims_from_ctx r.claims))
  done (record { id = id; email = email; display_name = display_name })

abbrev failed_repos : Text → VelError
failed_repos message = record {
  code = bytes "FAILED_GET_GITHUB_REPOS";
  message = message;
  meta = [];
}

abbrev pub listed {ℓ} : {A : Type ℓ} {S : Type 0} → Result A × S → Outcome A × S
listed (ok repos, s) = (done repos, s)
listed (err e, s) = (failed (failed_repos e), s)

abbrev repos_of :
    {S : Type 0} → Handler S → Outcome UserInfo → S → Outcome (List InstalledRepository) × S
repos_of h (done user) s = listed (h.db.get_github_repos user.email s)
repos_of h (failed e) s = (failed e, s)
repos_of h (panicked m) s = (panicked m, s)

unfoldable pub get_repos :
    {S : Type 0} → Handler S → Request → S → Outcome (List InstalledRepository) × S
unfolding get_profile
get_repos h r s = repos_of h (get_profile r) s
