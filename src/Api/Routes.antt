-- ===== src/Api/Routes.antt =====
-- The routes that the router ends up with.
use treenq.Base.{
  ℕ, leb, List, [], ◌∷◌, ◌++◌, append_assoc, append-nil, Text, bytes, Bool, true, false, returns,
  not, text_eq, ◌||◌, ◌&&◌, ◌==◌, if◌then◌else◌, ◌≡◌, refl, ◌∙◌, arith,
}
use treenq.Vel.Router.{Router, HandlerMeta, Mux, wrap, new_router, has_conflict}
use treenq.Api.{Endpoints, api_router, use_all}

-- A pattern's path: what stands behind the space after the method, or the whole pattern.
abbrev behind_space : Text → Text → Text
behind_space whole [] = whole
behind_space whole (c ∷ s) = if c == b' ' then s else behind_space whole s

abbrev pub path_of : Text → Text
path_of pat = behind_space pat pat

abbrev is_letter : ℕ → Bool
is_letter c = leb b'a' c && leb c b'z' || leb b'A' c && leb c b'Z'

abbrev all_letters : Text → Bool
all_letters [] = true
all_letters (c ∷ s) = is_letter c && all_letters s

-- A path of one segment, which is made of letters: it matches itself only.
abbrev is_literal : Text → Bool
is_literal (slash ∷ c ∷ s) = slash == b'/' && (is_letter c && all_letters s)
is_literal _ = false

-- Patterns whose paths are literal and different: no request matches both.
abbrev pub is_apart : Text → Text → Bool
is_apart p q =
    is_literal (path_of p) && is_literal (path_of q) && not (text_eq (path_of p) (path_of q))

-- What the router relies on of `http.ServeMux`: two patterns conflict only if some request matches
-- both. Literal patterns, which have no host, no wildcard and no slash at their end, match the
-- requests for their own path at most.
abbrev pub IsMuxRule : (Text → Text → Bool) → Type 0
IsMuxRule conflicts = (p q : Text) → is_apart p q ≡ true → conflicts p q ≡ false

abbrev pub meta_of : {T : Type 0} → T → Text → HandlerMeta T
meta_of zero id = record { input = zero; output = zero; operation_id = id }

module _ {H T : Type 0} where
  use_all-middlewares :
      (ms : List (H → H)) (r : Router H T)
      → use_all ms r ≡ record r { middlewares = r.middlewares ++ ms }
  unfolding use_all
  use_all-middlewares [] r = rw append-nil refl
  use_all-middlewares (m ∷ ms) r =
      use_all-middlewares ms (record r { middlewares = r.middlewares ++ m ∷ [] })
      ∙ (rw (append_assoc r.middlewares (m ∷ []) ms) refl)

module _ (conflicts : Text → Text → Bool) (rule : IsMuxRule conflicts) {H : Type 0} where
  abbrev is_free : Text → Mux H → Bool
  is_free pat [] = true
  is_free pat ((taken, _) ∷ mux) = is_apart pat taken && is_free pat mux

  has_conflict-is_free :
      (pat : Text) (mux : Mux H) → is_free pat mux ≡ true → has_conflict conflicts pat mux ≡ false
  unfolding has_conflict
  has_conflict-is_free pat [] h = refl
  has_conflict-is_free pat ((taken, handler) ∷ mux) h =
      ground (arith, rule pat taken, has_conflict-is_free pat mux)

  -- Where literal patterns of different paths do not conflict, the router is built without a panic. The
  -- health check has no middleware. Every other route is wrapped by the router's own middlewares,
  -- outside those of its registration: the two pages of the login have none of these, the webhook
  -- has GitHub's check, and the three operations of the API have the token check. The RPC
  -- operations alone are listed for the client's generator.
  pub api_router-routes :
      {T : Type 0} (zero : T) (e : Endpoints H) (auth github_auth : H → H) (ms : List (H → H))
      → api_router conflicts zero e auth github_auth ms
        ≡ returns (record {
          mux =
              (bytes "GET /healthz", e.health)
              ∷ (bytes "/auth", wrap ms e.github_auth)
              ∷ (bytes "/authCallback", wrap ms e.github_callback)
              ∷ (bytes "POST /githubWebhook", wrap ms (github_auth e.github_webhook))
              ∷ (bytes "POST /info", wrap ms (auth e.info))
              ∷ (bytes "POST /getProfile", wrap ms (auth e.get_profile))
              ∷ (bytes "POST /getRepos", wrap ms (auth e.get_repos))
              ∷ [];
          middlewares = ms;
          handlers_meta =
              meta_of zero (bytes "githubWebhook")
              ∷ meta_of zero (bytes "info")
              ∷ meta_of zero (bytes "getProfile")
              ∷ meta_of zero (bytes "getRepos")
              ∷ [];
        })
  unfolding api_router
  api_router-routes zero e auth github_auth ms =
      rw
        (
          use_all-middlewares ms (new_router e.health),
          has_conflict-is_free (bytes "/auth") _ refl,
          has_conflict-is_free (bytes "/authCallback") _ refl,
          has_conflict-is_free (bytes "POST /githubWebhook") _ refl,
          has_conflict-is_free (bytes "POST /info") _ refl,
          has_conflict-is_free (bytes "POST /getProfile") _ refl,
          has_conflict-is_free (bytes "POST /getRepos") _ refl,
        )
        refl
