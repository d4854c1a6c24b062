-- ===== src/Api/Assembly.antt =====
-- src/api/api.go, `New` and `OpenDB`: how the program is put together. Everything outside it is a
-- parameter: the operating system, the database's driver and its migrations, and what the
-- components use. The lines that are printed are left out.
pub mod Session
pub mod Stopped
pub mod Started
pub mod Unread
pub mod Extracted
use treenq.Base.{
  ℕ, ◌+◌, Bool, List, [], ◌∷◌, ◌++◌, Text, bytes, Option, none, some, Result, ok, err, Panicking,
  returns, panics,
}
use treenq.Go.Path.{join}
use treenq.Sdk.{Space}
use treenq.Vel.Error.{VelError, Outcome, done}
use treenq.Vel.Http.{Claims, Request, Serve}
use treenq.Vel.Rpc.{Codec, Signature, new_handler}
use treenq.Vel.Router.{Mux, Router}
use treenq.Vel.Auth
use treenq.Domain.Types.{UserInfo, InstalledRepository, GithubWebhookRequest}
use treenq.Domain.Handler.{Op, Done, Os, JwtIssuer, Handler}
use treenq.Domain.Run.{Event}
use treenq.Domain.Webhook.{github_webhook}
use treenq.Domain.Profile.{get_profile, get_repos}
use treenq.Domain.Deployments.{info}
use treenq.Domain.Session.{github_auth_handler, github_callback_handler}
use treenq.Repo.Store.{Sql, ◌>>=◌, ◌>>◌, pure, within}
use treenq.Repo.Store.Users.{get_or_create_user}
use treenq.Repo.Store.Deployments.{save_deployment, get_deployment_history}
use treenq.Repo.Store.Installations.{
  link_github, save_github_repos, remove_github_repos, get_github_repos, connect_repo_branch,
}
use treenq.Repo.Github.{Memory, issue_access_token}
use treenq.Repo.Git.{GitLibrary, clone}
use treenq.Repo.Docker.{DockerArtifact, Docker, image, build}
use treenq.Repo.Extract.{
  ExtractLibrary, BuilderConfig, builder_path, tq_relative_path, open_builder, close_builder,
  extract_config,
}
use treenq.Services.Kube.{KubeLibrary, apply}
use treenq.Services.Kube.Chart.{Chart, define_app}
use treenq.Services.Oauth.{
  Oauth2, GithubUser, Mail, GithubOauthProvider, new_provider, auth_url, exchange_code, fetch_user,
}
use treenq.Client.{Network}
use treenq.Api.{Config, Endpoints, auth_issuer, new_api}

-- What `Up` of the migrations ends with.
pub data UpEnd : Type 0 where
  up no_change : UpEnd
  not_up : Text → UpEnd

pub record Outside (S : Type 0) : Type 1 where
  pub File : Type 0
  pub Url : Type 0
  pub Repository : Type 0
  pub Worktree : Type 0
  pub Object : Type 0
  pub Resource : Type 0
  pub Cell : Type 0
  pub Migrate : Type 0
  pub getwd : Op S Text
  pub os : Os S
  pub connect : Text → Op S (Sql S Cell)
  pub new_migrate : Text → Text → Op S Migrate
  pub migrate_up : Migrate → S → UpEnd × S
  pub space_json : Codec Space
  pub text_json : Codec Text
  pub network : Network S
  pub decode_token : Text → Option Text × Result (Unit {0})
  pub git : GitLibrary Url Repository Worktree S
  pub extraction : ExtractLibrary File S
  -- How deep the directories below a path are nested.
  pub depth : Text → S → ℕ
  pub docker : Docker S
  pub synth_yaml : Chart → Panicking Text
  pub kube : KubeLibrary Object Resource S
  pub oauth2 : Oauth2 S
  pub user_json : Codec GithubUser
  pub mails_json : Codec (List Mail)
  pub jwt : Auth.JwtLibrary

-- What `vel.Register` knows of the types of each operation.
pub record Signatures : Type 0 where
  pub error_json : Codec VelError
  pub health : Signature (Unit {0}) (Unit {0})
  pub github_webhook : Signature GithubWebhookRequest (Unit {0})
  pub info : Signature (Unit {0}) Text
  pub get_profile : Signature (Unit {0}) UserInfo
  pub get_repos : Signature (Unit {0}) (List InstalledRepository)

-- The variable of the package that has GitHub's client is out of reach of all else.
abbrev pub outside {ℓ} : {A : Type ℓ} {S : Type 0} → (S → A × S) → Memory S → A × Memory S
outside op m = let (a, s) = op m.world in (a, record m { world = s })

abbrev issuing : {S : Type 0} → Auth.JwtLibrary → Auth.JwtIssuer → (S → ℕ) → JwtIssuer S
issuing lib j clock = record {
  generate_jwt_token = λ claims s. (Auth.generate_jwt_token lib j (clock s) claims, s);
}

abbrev pub github_issuer : Config → Auth.JwtIssuer
github_issuer conf = record {
  issuer = conf.github_client_id;
  secret = conf.github_private_key;
  public = [];
  ttl = conf.jwt_ttl;
}

abbrev pub mux_of : {H T : Type 0} → Panicking (Router H T) → Panicking (Mux H)
mux_of (returns r) = returns r.mux
mux_of (panics m) = panics m

module _ {S : Type 0} (out : Outside S) where
  abbrev pub with_migrations : {A : Type 0} → A → UpEnd × S → Result A × S
  with_migrations db (up, s) = (ok db, s)
  with_migrations db (no_change, s) = (ok db, s)
  with_migrations db (not_up e, s) = (err (bytes "failed to run migrations: " ++ e), s)

  unfoldable pub open_db : Text → Text → Op S (Sql S out.Cell)
  unfolding join
  open_db db_dsn migrations_dir_name = do
    wd ← out.getwd
    db ← within (bytes "failed to connect to postgres: ") (out.connect db_dsn)
    let path = join (join (bytes "file:///") wd) migrations_dir_name
    m ← within (bytes "failed to create migration instance: ") (out.new_migrate path db_dsn)
    λ s. with_migrations db (out.migrate_up m s)

  -- What an extraction ends with; `none` is for want of fuel.
  abbrev or_unended : S → Option (Result Space × S) → Result Space × S
  or_unended s none = (err [], s)
  or_unended s (some r) = r

  abbrev pub enough_fuel : BuilderConfig → Text → Text → S → ℕ
  enough_fuel e id repo_dir s =
      let target = join (builder_path out.extraction e id) tq_relative_path in
      out.depth (join repo_dir tq_relative_path) (out.extraction.mkdir_all target s).1 + 1

  unfoldable pub extract : BuilderConfig → Text → Text → Op S Space
  unfolding extract_config builder_path
  extract e id repo_dir s =
      or_unended s (extract_config out.extraction e (enough_fuel e id repo_dir s) id repo_dir s)

  module _ (conf : Config) where
    -- `domain.NewHandler` with the components that `New` makes, in the directory `wd`.
    unfoldable pub handlers_in : Text → Sql S out.Cell → Handler (Memory S)
    unfolding get_or_create_user save_deployment get_deployment_history link_github
        save_github_repos remove_github_repos get_github_repos connect_repo_branch
        issue_access_token clone image build open_builder close_builder extract define_app apply
        exchange_code fetch_user
    handlers_in wd db =
        let docker : DockerArtifact = record { registry = conf.docker_registry } in
        let builders : BuilderConfig = record {
          builder_dir_prefix = join wd (bytes "builder");
          builder_package = conf.builder_package;
        } in
        let provider =
          new_provider conf.github_client_id conf.github_secret conf.github_redirect_url [] in
        record {
          db = record {
            get_or_create_user = λ user. outside (get_or_create_user db user);
            save_deployment = λ def. outside (save_deployment db out.space_json def);
            get_deployment_history =
                λ app_id. outside (get_deployment_history db out.text_json app_id);
            link_github = λ id login repos. outside (link_github db id login repos);
            save_github_repos = λ user_id id repos. outside (save_github_repos db user_id id repos);
            remove_github_repos = λ id repos. outside (remove_github_repos db id repos);
            get_github_repos = λ email. outside (get_github_repos db email);
            connect_repo_branch = λ id branch. outside (connect_repo_branch db id branch);
          };
          github_client = record {
            issue_access_token =
                issue_access_token (issuing out.jwt (github_issuer conf) out.os.now) out.network
                  out.decode_token;
          };
          git = record {
            clone = λ url installation_id repo_id token.
                outside (clone out.git (join wd (bytes "gits")) url installation_id repo_id token);
          };
          extractor = record {
            open_builder = outside (open_builder out.extraction builders);
            extract_config = λ id repo_dir. outside (extract builders id repo_dir);
            close_builder = λ id. outside (close_builder out.extraction builders id);
          };
          docker = record {
            image = image docker;
            build = λ args. outside (build out.docker docker args);
          };
          kube = record {
            define_app = define_app out.synth_yaml;
            apply = λ config manifest. outside (apply out.kube config manifest);
          };
          kube_config = conf.kube_config;
          oauth_provider = record {
            auth_url = auth_url out.oauth2 provider;
            exchange_code = λ code. outside (exchange_code out.oauth2 provider code);
            fetch_user = λ token.
                outside (fetch_user out.network out.user_json out.mails_json provider token);
          };
          jwt_issuer = issuing out.jwt (auth_issuer conf) (λ m. out.os.now m.world);
          os = record {
            new_uuid = outside out.os.new_uuid;
            now = λ m. out.os.now m.world;
            remove_all = λ path m. record m { world = out.os.remove_all path m.world };
          };
        }

    -- The handlers as `NewRouter` registers them. The log of a webhook's calls is not answered.
    unfoldable pub endpoints_of : Signatures → Handler (Memory S) → Endpoints (Serve (Memory S))
    unfolding new_handler github_webhook github_auth_handler github_callback_handler get_profile
        get_repos info
    endpoints_of sigs h = record {
      health = new_handler sigs.health (λ r _ m. (done tt, m));
      github_auth = github_auth_handler h;
      github_callback = github_callback_handler h out.text_json;
      github_webhook =
          new_handler sigs.github_webhook
            (λ r req m. let (outcome, _, m') = github_webhook h req m in (outcome, m'));
      info = new_handler sigs.info (λ r _ m. info m);
      get_profile = new_handler sigs.get_profile (λ r _ m. (get_profile r, m));
      get_repos = new_handler sigs.get_repos (λ r _ m. get_repos h r m);
    }

    module _ (hmac : Text → Text → Text) (conflicts : Text → Text → Bool) (sigs : Signatures) where
      -- The routes around the handlers, or the panic of a registration.
      unfoldable pub site : Handler (Memory S) → Panicking (Mux (Serve (Memory S)))
      unfolding new_api endpoints_of
      site h = mux_of (
          new_api out.jwt hmac sigs.error_json conflicts (λ m. out.os.now m.world) conf tt
            (endpoints_of sigs h))

      unfoldable pub new : Op S (Panicking (Mux (Serve (Memory S))))
      unfolding open_db handlers_in site
      new = do
        wd ← out.getwd
        db ← open_db conf.db_dsn conf.migrations_dir
        pure (site (handlers_in wd db))
