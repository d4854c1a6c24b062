-- ===== src/Repo/Docker.antt =====
-- src/repo/artifacts/docker.go: an image is built, tagged and pushed by the docker command. The
-- command is a parameter: its arguments and the state give its output, an error or none, and the
-- next state.
pub mod Pushed
use treenq.Base.{List, [], ◌∷◌, ◌++◌, Text, bytes, Option, none, some, Result, ok, err}
use treenq.Domain.Types.{BuildArtifactRequest, Image, image_name, full_path}

pub record DockerArtifact : Type 0 where
  pub registry : Text

unfoldable pub image : DockerArtifact → BuildArtifactRequest → Image
image a args = record { registry = a.registry; repository = args.name; tag = args.tag }

-- `exec.Command("docker", args...).CombinedOutput()`.
abbrev pub Docker : Type 0 → Type 0
Docker S = List Text → S → (Text × Option Text) × S

abbrev pub build_command : Image → BuildArtifactRequest → List Text
build_command image args =
    bytes "build" ∷ bytes "-t" ∷ image_name image ∷ bytes "-f" ∷ args.dockerfile ∷ args.path ∷ []

abbrev pub tag_command : Image → List Text
tag_command image = bytes "tag" ∷ image_name image ∷ full_path image ∷ []

abbrev pub push_command : Image → List Text
push_command image = bytes "push" ∷ full_path image ∷ []

module _ {S : Type 0} where
  -- One command: its error ends `Build`.
  abbrev pub checked : Text → (S → Result Image × S) → (Text × Option Text) × S → Result Image × S
  checked context rest ((out, none), s) = rest s
  checked context rest ((out, some e), s) = (err (context ++ out ++ bytes ": " ++ e), s)

  module _ (docker : Docker S) (a : DockerArtifact) (args : BuildArtifactRequest) where
    abbrev pub push : S → Result Image × S
    push s =
        checked (bytes "failed to push docker image: ") (λ s. (ok (image a args), s))
          (docker (push_command (image a args)) s)

    abbrev pub tag : S → Result Image × S
    tag s =
        checked (bytes "failed to tag docker image: ") push (docker (tag_command (image a args)) s)

    unfoldable pub build : S → Result Image × S
    unfolding image
    build s =
        checked (bytes "failed to build docker image: ") tag
          (docker (build_command (image a args) args) s)
