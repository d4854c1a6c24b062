-- ===== src/Tests/Demo.antt =====
-- A handler over a counter of calls: every interface answers, and each call counts.
use treenq.Base.{ℕ, ◌+◌, Bool, true, false, [], ◌∷◌, bytes, ok, err, returns}
use treenq.Go.{pos}
use treenq.Sdk.{Space, size_slug_s}
use treenq.Domain.Types.{
  InstalledRepository, GithubWebhookRequest, Image, UserInfo, BuildArtifactRequest,
}
use treenq.Domain.Handler.{Handler, Op}

abbrev pub give : {A : Type 0} → A → Op ℕ A
give a s = (ok a, s + 1)

abbrev pub space : Space
space = record {
  key = bytes "space";
  region = bytes "fra1";
  service = record {
    key = bytes "service";
    dockerfile_path = bytes "Dockerfile";
    build_envs = [];
    runtime_envs = [];
    build_secrets = [];
    runtime_secrets = [];
    http_port = pos 8000;
    replicas = pos 1;
    host = bytes "treenq.local";
    name = bytes "app";
    size_slug = size_slug_s;
  };
}

abbrev pub image_of : BuildArtifactRequest → Image
image_of args = record { registry = bytes "registry:5000"; repository = args.name; tag = args.tag }

abbrev pub user : UserInfo
user = record { id = bytes "u1"; email = bytes "a@b.c"; display_name = bytes "ann" }

abbrev pub handler : Handler ℕ
handler = record {
  db = record {
    get_or_create_user = λ u. give user;
    save_deployment = λ def. give (record def { id = bytes "d1" });
    get_deployment_history = λ app_id. give [];
    link_github = λ id login repos. give tt;
    save_github_repos = λ user id repos. give tt;
    remove_github_repos = λ id repos. give tt;
    get_github_repos = λ email. give [];
    connect_repo_branch = λ id branch. give tt;
  };
  github_client = record { issue_access_token = λ id. give (bytes "token") };
  git = record { clone = λ url installation id token. give (bytes "/gits/1/2") };
  extractor = record {
    open_builder = give (bytes "b1");
    extract_config = λ id dir. give space;
    close_builder = λ id. give tt;
  };
  docker = record { image = image_of; build = λ args. give (image_of args) };
  kube = record {
    define_app = λ id app image. returns (bytes "kind: Namespace");
    apply = λ config manifest. give tt;
  };
  kube_config = bytes "config";
  oauth_provider = record {
    auth_url = λ state. bytes "https://github.com/login";
    exchange_code = λ code. give (bytes "gh");
    fetch_user = λ token s. (returns (ok (record user { id = [] })), s + 1);
  };
  jwt_issuer = record { generate_jwt_token = λ claims. give (bytes "jwt") };
  os = record { new_uuid = λ s. (bytes "uuid", s + 1); now = λ s. s; remove_all = λ dir s. s + 1 };
}

-- Builds fail.
abbrev pub broken_handler : Handler ℕ
broken_handler = record handler {
  docker = record { image = image_of; build = λ args s. (err (bytes "no space left"), s + 1) };
}

abbrev pub repo : ℕ → Bool → InstalledRepository
repo id private = record {
  id = pos id;
  full_name = bytes "treenq/poc";
  private = private;
  branch = [];
}

abbrev pub install : GithubWebhookRequest
install = record {
  after = bytes "c0ffee";
  installation = record {
    id = pos 7;
    account = record { id = pos 1; kind = bytes "User"; login = bytes "ann" };
  };
  sender = record { login = bytes "ann" };
  action = bytes "created";
  repositories = repo 1 true ∷ repo 2 false ∷ [];
  repositories_added = [];
  repositories_removed = [];
  ref = [];
  repository = record { id = pos 0; clone_url = []; full_name = []; private = false };
}
