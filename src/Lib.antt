-- ===== src/Lib.antt =====
-- Treenq, a platform as code: GitHub tells the program of pushes and installations, and the program
-- clones each repository, extracts its configuration, builds its image and applies it to a cluster.
--
-- The parts and the files that model them; paths are from the repository's root.
--
-- - Base: shared names, texts as lists of bytes (a Go string), results, and predicates on lists.
-- - Go: what the program uses of the standard library: strings.Split, strconv.Atoi,
--   strings.CutPrefix, strings.TrimSpace on ASCII, hex.EncodeToString; Go/Path has filepath.Clean
--   and filepath.Join, Go/Decimal strconv.Itoa, Go/Utf8 utf8.ValidString.
-- - Sdk (pkg/sdk): Space, Service and SizeSlug.ToComputationResource, whose panics are values.
-- - Vel (pkg/vel): Error is the RPC error and the end of a call; Http is the seam to net/http,
--   where a handler is a function of a request and a state to an end, the calls of its
--   ResponseWriter and a state; Rpc is NewHandler; Router is the router and its registration; Auth
--   is pkg/vel/auth/jwt.go; Log is pkg/vel/log/log.go; Gen is New of pkg/vel/gen/client.go, which
--   collects the types that a client declares, over the fields of the program's struct types.
-- - Crypto (pkg/crypto/signature.go): the signature of a webhook and its middleware.
-- - Client (client/client.go): the generated client, over a network parameter.
-- - Domain (src/domain): Types has the data, Handler the interfaces of handler.go as records of
--   operations over a state S, Run the way a handler runs, Webhook the handler GithubWebhook,
--   Profile GetProfile and GetRepos, Deployments Rollback and the small handlers, Session the two
--   handlers of the login.
-- - Repo (src/repo): Docker is src/repo/artifacts/docker.go, Github is src/repo/github.go, Git is
--   src/repo/git.go, and Store is src/repo/store.go: Store itself has the statements and the
--   database as a parameter, Scan the reading of rows, Users, Deployments and Installations the
--   operations, Transactions what a transaction is, and Schema the columns of
--   migrations/0001_users_table.up.sql. Extract is src/repo/extract/extractor.go, with its copying
--   of directories in Extract/Copy.
-- - Services (src/services): Kube is Apply of src/services/cdk/kube.go and Kube/Chart its DefineApp,
--   Oauth is src/services/auth/github.go.
-- - Api (src/api): NewRouter, and the middlewares that New chooses by the configuration; Assembly is
--   New and OpenDB, which put all parts together over a record of what is outside the program, with
--   its start in Assembly/Started, its login in Assembly/Session, its webhooks in Assembly/Stopped and
--   its histories in Assembly/Unread; Deploying and Charting are the webhook's handler with the program's own store
--   and charts in it.
-- - Cmd (cmd/gen): Sizes is the generator of the SDK's sizes, cmd/gen/sizes/size_slug.go.
-- - Tests: concrete parameters, runs, and the theorems at these.
--
-- How they fit together: Api puts the handlers of Domain, made HTTP handlers by Vel.Rpc, behind the
-- middlewares of Vel.Auth, Crypto and Vel.Log; Client meets the other end of Vel.Rpc. The
-- operations of Repo.Store are those of the interface Database in Domain.Handler, those of
-- Repo.Extract of Extractor, and Services.Kube.Chart defines the manifests of its Kube.
--
-- A handler of the domain is a function of the state S of everything outside it. Every interface
-- operation returns a result and the next state, so theorems over all handlers hold for all answers
-- of the database, the network and the cluster. A run keeps the log of its calls with their results
-- and the stack of its deferred calls; a panic is an end of the run like an error, and the deferred
-- calls run after it. Go maps are association lists, an int is an integer, times and durations are
-- seconds. Recursion is structural but in three places: the digits of a number are counted down
-- from 19, as many as an int can have; the calls of collectTypes count the depth of their nesting,
-- which is at most the number of the names of struct types, since every call that goes on adds a
-- name; and the calls of copyDirectory count theirs, which is the depth of the directories that are
-- copied, since copying makes no directory.
--
-- Parameters with stated laws: golang-jwt (Vel.Auth.Tokens.HasKeys) and encoding/json at a
-- type (Client.RoundTrip.IsFaithful), both for what JSON brings back as it was: texts that are UTF-8
-- (Go/Utf8), the network between client and server (Client.RoundTrip.Connects),
-- the pattern language of http.ServeMux (Api.Routes.IsMuxRule), the cluster's API as a store
-- (Services.Kube.Applied.IsStore), and of the database its transactions
-- (Repo.Store.Transactions.IsTransactional), its tables as lists of rows
-- (Repo.Store.Users.Found.IsRelational) and the columns that its inserts have to fit
-- (Repo.Store.Schema.Refused.IsMigrated); of its driver that it takes no slice for a
-- compared parameter (Api.Assembly.Unread.TakesNoSlice); of the file system its list of open files
-- (Repo.Extract.Closed.IsListed), what its files hold (Repo.Extract.Copied.IsDisk) and the depth of
-- its directories (Repo.Extract.Ends.IsNested). The HMAC, the decoding of YAML, cdk8s's writing of it,
-- go-git, net/url, oauth2, text/template, the docker and go commands, the case of runes and GitHub's
-- answers are functions without any law. Tests has values for all of them.
--
-- Not modelled: how a database runs a statement; the rights of the files the program makes; the
-- templates of the generators and the command that formats their output; reading the environment;
-- the contexts of a request; failing writes to a connection; the line of HTML that http.Redirect
-- writes; the exact texts of runtime panics and of the errors of Atoi.
pub mod Base
pub mod Go
pub mod Sdk
pub mod Vel
pub mod Crypto
pub mod Client
pub mod Cmd
pub mod Repo
pub mod Services
pub mod Domain
pub mod Api
pub mod Tests
