-- ===== src/Tests/Artifacts.antt =====
-- An image that is built, and two installations of which the second gets the token of the first.
use treenq.Base.{
  ℕ, ◌+◌, ◌==◌, [], ◌∷◌, Text, bytes, Option, none, some, Result, ok, if◌then◌else◌, ◌≡◌, ◌↔◌, refl,
  arith,
}
use treenq.Go.{pos}
use treenq.Client.{Network}
use treenq.Domain.Types.{BuildArtifactRequest, Image}
use treenq.Domain.Handler.{JwtIssuer}
use treenq.Repo.Docker.{Docker, DockerArtifact, build}
use treenq.Repo.Docker.Pushed.{Runs, builds, local_name, pushed_name, build_iff}
use treenq.Repo.Github.{Memory, issue_access_token}
use treenq.Repo.Github.Kept.{issue_access_token_kept}

abbrev counting : Docker ℕ
counting command s = (([], none), s + 1)

abbrev artifactory : DockerArtifact
artifactory = record { registry = bytes "registry:5000" }

abbrev args : BuildArtifactRequest
args = record {
  name = bytes "app";
  path = bytes "/gits/1/2";
  dockerfile = bytes "/gits/1/2/Dockerfile";
  tag = bytes "latest";
}

abbrev app_image : Image
app_image = record {
  registry = bytes "registry:5000";
  repository = bytes "app";
  tag = bytes "latest";
}

build_iff_example : (build counting artifactory args 0 ≡ (ok app_image, 3)) ↔ (
    (app_image
      ≡ record { registry = bytes "registry:5000"; repository = bytes "app"; tag = bytes "latest" })
    × ((s₁ : ℕ) × (s₂ : ℕ) × Runs counting (builds args) 0 s₁
        × Runs counting (bytes "tag" ∷ local_name args ∷ pushed_name artifactory args ∷ []) s₁ s₂
        × Runs counting (bytes "push" ∷ pushed_name artifactory args ∷ []) s₂ 3))
build_iff_example = build_iff counting artifactory args 0 3 app_image

abbrev issuer : JwtIssuer ℕ
issuer = record { generate_jwt_token = λ claims s. (ok (bytes "jwt"), s + 1) }

-- Only the first answer has a token in it.
abbrev github : Network ℕ
github = record {
  new_request_error = λ url. none;
  exchange = λ out s.
      (ok (record { status_code = 201; body = if s == 1 then bytes "ghs" else [] }), s + 1);
}

abbrev decode_token : Text → Option Text × Result (Unit {0})
decode_token [] = (none, ok tt)
decode_token (c ∷ s) = (some (c ∷ s), ok tt)

abbrev fresh : Memory ℕ
fresh = record { token = []; world = 0 }

first_issued :
    issue_access_token issuer github decode_token (pos 7) fresh
    ≡ (ok (bytes "ghs"), record { token = bytes "ghs"; world = 2 })
unfolding issue_access_token
first_issued = refl

issue_access_token_kept_example :
    issue_access_token issuer github decode_token
      (pos 8)
      (record { token = bytes "ghs"; world = 2 })
    ≡ (ok (bytes "ghs"), record { token = bytes "ghs"; world = 4 })
issue_access_token_kept_example =
    issue_access_token_kept issuer github decode_token (pos 7) (pos 8) fresh
      (record { token = bytes "ghs"; world = 2 }) (bytes "ghs") (bytes "jwt") 3 4
      (record { status_code = 201; body = [] }) first_issued refl refl refl (omega arith) refl
