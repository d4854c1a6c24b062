-- ===== src/Api/Assembly/Started.antt =====
-- When the program starts.
use treenq.Base.{
  Bool, [], ◌∷◌, Text, bytes, ok, Panicking, returns, ◌≡◌, ◌↔◌, refl, sym, ap, subst, ◌∙◌, arith,
}
use treenq.Go.Path.{join}
use treenq.Vel.Auth.{jwt_middleware}
use treenq.Vel.Http.{Serve}
use treenq.Vel.Log.{logging_middleware}
use treenq.Vel.Router.{Mux}
use treenq.Domain.Handler.{Handler}
use treenq.Repo.Store.{Sql, ◌>>=◌, then_on-ok, within-ok, returned, within, pure}
use treenq.Repo.Github.{Memory}
use treenq.Api.{Config, auth_issuer, new_api, github_auth_middleware}
use treenq.Api.Routes.{IsMuxRule, api_router-routes}
use treenq.Api.Assembly.{
  UpEnd, up, no_change, not_up, Outside, Signatures, with_migrations, open_db, handlers_in,
  endpoints_of, mux_of, site, new,
}

-- The migrations were run, or there were none to run.
pub data IsUp : UpEnd → Type 0 where
  by_run : IsUp up
  as_it_was : IsUp no_change

module _ {S : Type 0} (out : Outside S) (conf : Config) (hmac : Text → Text → Text)
    (conflicts : Text → Text → Bool) (sigs : Signatures) where
  abbrev migrations_path : Text → Text
  migrations_path wd = join (join (bytes "file:///") wd) conf.migrations_dir

  -- The steps of a start: the working directory is found, the database is connected, its
  -- migrations are found below the working directory and up to date, and the routes are built
  -- around the handlers on that database.
  pub data Starts (s : S) : Mux (Serve (Memory S)) → S → Type 0 where
    started :
        {wd wd' : Text} {db : Sql S out.Cell} {m : out.Migrate} {end : UpEnd} {s₁ s₂ s₃ s₄ s' : S}
        {mux : Mux (Serve (Memory S))}
        → out.getwd s ≡ (ok wd, s₁)
        → out.getwd s₁ ≡ (ok wd', s₂)
        → out.connect conf.db_dsn s₂ ≡ (ok db, s₃)
        → out.new_migrate (migrations_path wd') conf.db_dsn s₃ ≡ (ok m, s₄)
        → out.migrate_up m s₄ ≡ (end, s')
        → IsUp end
        → site out conf hmac conflicts sigs (handlers_in out conf wd db) ≡ returns mux
        → Starts s mux s'

  site-returns :
      IsMuxRule conflicts
      → (h : Handler (Memory S))
      → (mux : Mux (Serve (Memory S))) × (site out conf hmac conflicts sigs h ≡ returns mux)
  unfolding site new_api
  site-returns rule h = (
    _,
    ap mux_of (
        api_router-routes conflicts rule tt (endpoints_of out conf sigs h)
          (jwt_middleware out.jwt (auth_issuer conf) (λ m. out.os.now m.world))
          (github_auth_middleware hmac sigs.error_json conf) (logging_middleware ∷ [])),
  )

  with_migrations-IsUp :
      (db db' : Sql S out.Cell) (p : UpEnd × S) (s' : S)
      → with_migrations out db p ≡ (ok db', s')
      → (end : UpEnd) × (p ≡ (end, s')) × IsUp end × (db ≡ db')
  with_migrations-IsUp db db' (up, s) s' e =
      (up, ap (λ q. (up, q.1)) e, by_run, returned db db' s s' e)
  with_migrations-IsUp db db' (no_change, s) s' e =
      (no_change, ap (λ q. (no_change, q.1)) e, as_it_was, returned db db' s s' e)
  with_migrations-IsUp db db' (not_up m, s) s' e = ground arith

  new-Starts :
      IsMuxRule conflicts
      → (s : S) (built : Panicking (Mux (Serve (Memory S)))) (s' : S)
      → new out conf hmac conflicts sigs s ≡ (ok built, s')
      → (mux : Mux (Serve (Memory S))) × (built ≡ returns mux) × Starts s mux s'
  unfolding new open_db
  new-Starts rule s built s' e =
      let build = λ (wd : Text) (db : Sql S out.Cell).
        site out conf hmac conflicts sigs (handlers_in out conf wd db) in
      let connecting = bytes "failed to connect to postgres: " in
      let creating = bytes "failed to create migration instance: " in
      let migrate = λ (wd : Text) (db : Sql S out.Cell).
        within creating (out.new_migrate (migrations_path wd) conf.db_dsn) >>= λ m s.
        with_migrations out db (out.migrate_up m s) in
      let (wd, s₁, here, e₁) =
        then_on-ok (λ wd. open_db out conf.db_dsn conf.migrations_dir >>= λ db. pure (build wd db))
          (out.getwd s) built s' e in
      let (db, s₅, opened, e₂) =
        then_on-ok (λ db. pure (build wd db)) (open_db out conf.db_dsn conf.migrations_dir s₁) built
          s' e₁ in
      let (wd', s₂, there, e₃) =
        then_on-ok (λ wd. within connecting (out.connect conf.db_dsn) >>= migrate wd) (out.getwd s₁)
          db s₅ opened in
      let (db', s₃, connected, e₄) =
        then_on-ok (migrate wd') (within connecting (out.connect conf.db_dsn) s₂) db s₅ e₃ in
      let (m, s₄, found, e₅) =
        then_on-ok (λ m s. with_migrations out db' (out.migrate_up m s))
          (within creating (out.new_migrate (migrations_path wd') conf.db_dsn) s₃) db s₅ e₄ in
      let (end, ran, is_up, same) = with_migrations-IsUp db' db (out.migrate_up m s₄) s₅ e₅ in
      let (mux, made) = site-returns rule (handlers_in out conf wd db) in
      (
        mux,
        sym (returned (build wd db) built s₅ s' e₂) ∙ made,
        started here there (within-ok connecting (out.connect conf.db_dsn) s₂ db' s₃ connected)
            (within-ok creating (out.new_migrate (migrations_path wd') conf.db_dsn) s₃ m s₄ found)
            (ran ∙ ap (λ q. (end, q.1)) e₂) is_up
            (subst (λ d. build wd d ≡ returns mux) (sym same) made),
      )

  Starts-new :
      (s : S) (mux : Mux (Serve (Memory S))) (s' : S)
      → Starts s mux s'
      → new out conf hmac conflicts sigs s ≡ (ok (returns mux), s')
  unfolding new open_db
  Starts-new s mux s' (started here there connected found ran by_run built) =
      rw (here, there, connected, found, ran, built) refl
  Starts-new s mux s' (started here there connected found ran as_it_was built) =
      rw (here, there, connected, found, ran, built) refl

  -- Where literal patterns of different paths do not conflict, the program starts exactly when its working
  -- directory is found, the database is connected and its migrations are found below the working
  -- directory and run, or there are none to run; every other case is an error, and no start panics.
  -- What it serves is the routes around the handlers on that database.
  pub new_iff :
      IsMuxRule conflicts
      → (s : S) (built : Panicking (Mux (Serve (Memory S)))) (s' : S)
      → (new out conf hmac conflicts sigs s ≡ (ok built, s'))
        ↔ ((mux : Mux (Serve (Memory S))) × (built ≡ returns mux) × Starts s mux s')
  new_iff rule s built s' = (
    new-Starts rule s built s',
    λ (mux, same, starts). Starts-new s mux s' starts ∙ ap (λ b. (ok b, s')) (sym same),
  )
