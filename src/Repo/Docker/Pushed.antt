-- ===== src/Repo/Docker/Pushed.antt =====
-- When a build succeeds, and what was run for it.
use treenq.Base.{
  sym, List, [], ◌∷◌, ◌++◌, Text, bytes, Option, none, some, Result, ok, ◌≡◌, ◌↔◌, refl, ap, subst,
  inl, inr, ◌⊎◌, arith,
}
use treenq.Domain.Types.{BuildArtifactRequest, Image, image_name, full_path}
use treenq.Repo.Docker.{
  DockerArtifact, Docker, image, build_command, tag_command, push_command, checked, push, tag,
  build,
}

-- A command that ends without an error.
abbrev pub Runs : {S : Type 0} → Docker S → List Text → S → S → Type 0
Runs docker command s s' = (out : Text) × (docker command s ≡ ((out, none), s'))

Command-cases :
    {S : Type 0} (p : (Text × Option Text) × S)
    → ((out : Text) × (s : S) × (p ≡ ((out, none), s)))
      ⊎ ((out : Text) × (e : Text) × (s : S) × (p ≡ ((out, some e), s)))
Command-cases ((out, none), s) = inl (out, s, refl)
Command-cases ((out, some e), s) = inr (out, e, s, refl)

checked-ok :
    {S : Type 0} (docker : Docker S) (command : List Text) (context : Text)
    (rest : S → Result Image × S) (s s' : S) {i : Image}
    → checked context rest (docker command s) ≡ (ok i, s')
    → (s₁ : S) × Runs docker command s s₁ × (rest s₁ ≡ (ok i, s'))
checked-ok docker command context rest s s' e = elim (Command-cases (docker command s)) [
  | inl (out, s₁, ran) ↦ (s₁, (out, ran), rw ran at e)
  | inr (out, m, s₁, bad) ↦ let never = rw bad at e in ground arith
]

-- What an image is called on the machine that builds it: its name and its tag.
abbrev pub local_name : BuildArtifactRequest → Text
local_name args = args.name ++ bytes ":" ++ args.tag

-- What it is called everywhere: behind the registry.
abbrev pub pushed_name : DockerArtifact → BuildArtifactRequest → Text
pushed_name a args = a.registry ++ bytes "/" ++ args.name ++ bytes ":" ++ args.tag

abbrev pub builds : BuildArtifactRequest → List Text
builds args =
    bytes "build" ∷ bytes "-t" ∷ local_name args ∷ bytes "-f" ∷ args.dockerfile ∷ args.path ∷ []

-- A build succeeds exactly when docker builds the path with the dockerfile under the name and the
-- tag, tags the outcome with the registry before these, and pushes what it is called then, each
-- command without an error and from the state that the one before it left. The image that is
-- returned has this registry, name and tag.
pub build_iff :
    {S : Type 0} (docker : Docker S) (a : DockerArtifact) (args : BuildArtifactRequest) (s s' : S)
    (i : Image)
    → (build docker a args s ≡ (ok i, s')) ↔ (
        (i ≡ record { registry = a.registry; repository = args.name; tag = args.tag })
        × ((s₁ : S) × (s₂ : S) × Runs docker (builds args) s s₁
            × Runs docker (bytes "tag" ∷ local_name args ∷ pushed_name a args ∷ []) s₁ s₂
            × Runs docker (bytes "push" ∷ pushed_name a args ∷ []) s₂ s'))
unfolding build image image_name full_path
build_iff docker a args s s' i = (
  λ e.
      let (s₁, built, more) =
        checked-ok docker (build_command (image a args) args)
          (bytes "failed to build docker image: ") (tag docker a args) s s' e in
      let (s₂, tagged, last) =
        checked-ok docker (tag_command (image a args)) (bytes "failed to tag docker image: ")
          (push docker a args) s₁ s' more in
      let (s₃, pushed, end) =
        checked-ok docker (push_command (image a args)) (bytes "failed to push docker image: ")
          (λ s. (ok (image a args), s)) s₂ s' last in
      let same : i ≡ image a args = cc in
      (
        same,
        (
          s₁,
          s₂,
          built,
          tagged,
          subst (Runs docker (push_command (image a args)) s₂) (ap (λ q. q.1) end) pushed,
        ),
      ),
  λ (same, (s₁, s₂, (_, built), (_, tagged), (_, pushed))).
      rw (built, tagged, pushed, sym same) refl,
)
