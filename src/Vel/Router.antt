-- ===== src/Vel/Router.antt =====
-- pkg/vel/router.go: the router, which wraps each handler into the middlewares of its
-- registration and then into the router's own. The pattern language of `http.ServeMux` is the
-- library's: `conflicts` says when two patterns cannot stand together, and then `Handle` panics.
use treenq.Base.{
  List, [], ◌∷◌, ◌++◌, Text, bytes, Bool, false, Panicking, returns, panics, if◌then◌else◌, ◌||◌,
}

pub record HandlerMeta (T : Type 0) : Type 0 where
  pub input : T
  pub output : T
  pub operation_id : Text

-- The pairs of a pattern and its handler.
abbrev pub Mux : Type 0 → Type 0
Mux H = List (Text × H)

-- `H` is the type of the HTTP handlers, `T` that of the values of unknown type in the meta data.
pub record Router (H T : Type 0) : Type 0 where
  pub mux : Mux H
  pub middlewares : List (H → H)
  pub handlers_meta : List (HandlerMeta T)

-- The loop `for i := range middlewares { handler = middlewares[i](handler) }`: the first is the
-- innermost.
unfoldable pub wrap {ℓ} : {H : Type ℓ} → List (H → H) → H → H
wrap [] handler = handler
wrap (m ∷ ms) handler = wrap ms (m handler)

abbrev pub healthz : Text
healthz = bytes "GET /healthz"

-- `NewRouter`: only the health check, in front of which no middleware stands.
unfoldable pub new_router : {H T : Type 0} → H → Router H T
new_router health = record { mux = (healthz, health) ∷ []; middlewares = []; handlers_meta = [] }

unfoldable pub use_middleware : {H T : Type 0} → (H → H) → Router H T → Router H T
use_middleware m r = record r { middlewares = r.middlewares ++ m ∷ [] }

module _ (conflicts : Text → Text → Bool) {H : Type 0} where
  unfoldable pub has_conflict : Text → Mux H → Bool
  has_conflict pat [] = false
  has_conflict pat ((taken, _) ∷ mux) = conflicts pat taken || has_conflict pat mux

  -- `mux.Handle`.
  unfoldable pub handle : Text → H → Mux H → Panicking (Mux H)
  unfolding has_conflict
  handle pat handler mux =
      if has_conflict pat mux
      then panics (bytes "http: conflicting patterns")
      else returns (mux ++ (pat, handler) ∷ [])

  abbrev with_mux : {T : Type 0} → Router H T → Panicking (Mux H) → Panicking (Router H T)
  with_mux r (returns mux) = returns (record r { mux = mux })
  with_mux r (panics m) = panics m

  unfoldable pub register_handler :
      {T : Type 0} → Text → H → List (H → H) → Router H T → Panicking (Router H T)
  unfolding handle wrap
  register_handler pat handler middlewares r =
      with_mux r (handle pat (wrap r.middlewares (wrap middlewares handler)) r.mux)

  unfoldable pub register_handler_func :
      {T : Type 0} → Text → H → List (H → H) → Router H T → Panicking (Router H T)
  unfolding handle wrap
  register_handler_func pat handler middlewares r =
      with_mux r (handle pat (wrap r.middlewares (wrap middlewares handler)) r.mux)

  -- `Register`; the handler is `NewHandler(handler)`, and `i` and `o` are the zero values.
  unfoldable pub register :
      {T : Type 0} → Text → T → T → H → List (H → H) → Router H T → Panicking (Router H T)
  unfolding register_handler
  register operation_id i o handler middlewares r =
      register_handler (bytes "POST /" ++ operation_id) handler middlewares (record r {
        handlers_meta =
            r.handlers_meta ++ (record { input = i; output = o; operation_id = operation_id }) ∷ [];
      })
