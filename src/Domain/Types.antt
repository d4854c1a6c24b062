-- ===== src/Domain/Types.antt =====
-- src/domain/githubWebhook.go and src/domain/auth.go: the data of the domain.
use treenq.Base.{Bool, List, [], ◌∷◌, Text, bytes, ◌++◌, text_eq, if◌then◌else◌, not, ◌&&◌}
use treenq.Go.{ℤ}
use treenq.Sdk.{Space}

pub record Sender : Type 0 where
  pub login : Text

pub record InstallationAccount : Type 0 where
  pub id : ℤ
  pub kind : Text
  pub login : Text

pub record Installation : Type 0 where
  pub id : ℤ
  pub account : InstallationAccount

pub record Repository : Type 0 where
  pub id : ℤ
  pub clone_url : Text
  pub full_name : Text
  pub private : Bool

pub record InstalledRepository : Type 0 where
  pub id : ℤ
  pub full_name : Text
  pub private : Bool
  pub branch : Text

pub record GithubWebhookRequest : Type 0 where
  pub after : Text
  pub installation : Installation
  pub sender : Sender
  pub action : Text
  pub repositories : List InstalledRepository
  pub repositories_added : List InstalledRepository
  pub repositories_removed : List InstalledRepository
  pub ref : Text
  pub repository : Repository

-- The repository of a push, without its branch.
abbrev pub pushed : Repository → InstalledRepository
pushed r = record { id = r.id; full_name = r.full_name; private = r.private; branch = [] }

unfoldable pub repos_to_process : GithubWebhookRequest → List InstalledRepository
repos_to_process g =
    if text_eq g.action (bytes "created")
    then g.repositories
    else if text_eq g.action (bytes "added")
    then g.repositories_added
    else if text_eq g.action []
    then (if not (text_eq g.ref (bytes "refs/heads/master"))
          && not (text_eq g.ref (bytes "refs/heads/main"))
        then []
        else pushed g.repository ∷ [])
    else []

unfoldable pub clone_url : InstalledRepository → Text
clone_url r = bytes "https://github.com/" ++ r.full_name ++ bytes ".git"

pub record BuildArtifactRequest : Type 0 where
  pub name : Text
  pub path : Text
  pub dockerfile : Text
  pub tag : Text

pub record Image : Type 0 where
  pub registry : Text
  pub repository : Text
  pub tag : Text

unfoldable pub image_name : Image → Text
image_name i = i.repository ++ bytes ":" ++ i.tag

unfoldable pub full_path : Image → Text
full_path i = i.registry ++ bytes "/" ++ i.repository ++ bytes ":" ++ i.tag

-- `created_at` is a time of the caller's clock, as text; "" is Go's zero time.
pub record AppDefinition : Type 0 where
  pub id : Text
  pub app_id : Text
  pub app : Space
  pub tag : Text
  pub sha : Text
  pub user : Text
  pub created_at : Text

pub record UserInfo : Type 0 where
  pub id : Text
  pub email : Text
  pub display_name : Text
