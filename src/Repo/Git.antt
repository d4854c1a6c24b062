-- ===== src/Repo/Git.antt =====
-- src/repo/git.go: the clone of a repository, or the pull into one that is there. The file system,
-- net/url and go-git are parameters.
pub mod Fetched
pub mod Directories
use treenq.Base.{List, [], ◌∷◌, Text, bytes, Result, ok, err, ◌++◌}
use treenq.Go.{ℤ}
use treenq.Go.Decimal.{itoa}
use treenq.Go.Path.{join_all}
use treenq.Domain.Handler.{Op}
use treenq.Repo.Store.{◌>>=◌, ◌>>◌, pure, within}

-- `os.Stat`; `unreadable` is any other error than that nothing is there.
pub data Stat : Type 0 where
  there missing unreadable : Stat

pub data CloneEnd : Type 0 where
  cloned already_exists : CloneEnd
  not_cloned : Text → CloneEnd

pub data PullEnd : Type 0 where
  pulled up_to_date : PullEnd
  not_pulled : Text → PullEnd

pub record GitLibrary (Url Repository Worktree S : Type 0) : Type 0 where
  pub stat : Text → S → Stat
  pub mkdir_all : Text → Op S (Unit {0})
  pub parse_url : Text → Result Url
  pub set_user : Text → Text → Url → Url
  pub url_text : Url → Text
  pub plain_clone : Text → Text → S → CloneEnd × S
  pub plain_open : Text → Op S Repository
  pub worktree : Repository → Op S Worktree
  pub pull : Text → Worktree → S → PullEnd × S

unfoldable pub clone_dir : Text → ℤ → ℤ → Text
unfolding itoa join_all
clone_dir dir installation_id repo_id = join_all (dir ∷ itoa installation_id ∷ itoa repo_id ∷ [])

module _ {Url Repository Worktree S : Type 0} (lib : GitLibrary Url Repository Worktree S) where
  abbrev pub made_dir : Text → Stat → Op S (Unit {0})
  made_dir path missing = within (bytes "failed to create clone directory: ") (lib.mkdir_all path)
  made_dir path there = pure tt
  made_dir path unreadable = pure tt

  abbrev pub with_access : Text → Url → Url
  with_access [] url = url
  with_access (c ∷ token) url = lib.set_user (bytes "x-access-token") (c ∷ token) url

  abbrev pub pull_ended : PullEnd × S → Result (Unit {0}) × S
  pull_ended (pulled, s) = (ok tt, s)
  pull_ended (up_to_date, s) = (ok tt, s)
  pull_ended (not_pulled e, s) = (err (bytes "error while pulling latest: " ++ e), s)

  unfoldable pub pull_existing : Text → Op S (Unit {0})
  pull_existing path = do
    r ← within (bytes "error while opening the repo: ") (lib.plain_open path)
    w ← within (bytes "error while getting worktree: ") (lib.worktree r)
    λ s. pull_ended (lib.pull (bytes "origin") w s)

  abbrev pub clone_ended : Text → CloneEnd × S → Result (Unit {0}) × S
  clone_ended path (cloned, s) = (ok tt, s)
  clone_ended path (already_exists, s) = pull_existing path s
  clone_ended path (not_cloned e, s) = (err (bytes "error while cloning the repo: " ++ e), s)

  unfoldable pub clone : Text → Text → ℤ → ℤ → Text → Op S Text
  clone dir url_str installation_id repo_id access_token = do
    let path = clone_dir dir installation_id repo_id
    (λ s. made_dir path (lib.stat path s) s)
    url ← (λ s. (lib.parse_url url_str, s))
    (λ s. clone_ended path (lib.plain_clone path (lib.url_text (with_access access_token url)) s))
    pure path
