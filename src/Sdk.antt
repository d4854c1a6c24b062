-- ===== src/Sdk.antt =====
-- pkg/sdk/space.go and pkg/sdk/sizes.go: the configuration that a repository declares, and the
-- size slug with its conversion to amounts of CPU, memory and disk. A failed conversion panics.
pub mod Slugs
use treenq.Base.{List, [], ◌∷◌, Text, bytes, ◌++◌, Result, ok, err, Panicking, returns, panics}
use treenq.Go.{ℤ, pos, split, atoi}

abbrev pub SizeSlug : Type 0
SizeSlug = Text

pub record Service : Type 0 where
  pub key : Text
  pub dockerfile_path : Text
  pub build_envs : List (Text × Text)
  pub runtime_envs : List (Text × Text)
  pub build_secrets : List Text
  pub runtime_secrets : List Text
  pub http_port : ℤ
  pub replicas : ℤ
  pub host : Text
  pub name : Text
  pub size_slug : SizeSlug

pub record Space : Type 0 where
  pub key : Text
  pub region : Text
  pub service : Service

-- The zero value of a Space.
abbrev pub zero_space : Space
zero_space = record {
  key = [];
  region = [];
  service = record {
    key = [];
    dockerfile_path = [];
    build_envs = [];
    runtime_envs = [];
    build_secrets = [];
    runtime_secrets = [];
    http_port = pos 0;
    replicas = pos 0;
    host = [];
    name = [];
    size_slug = [];
  };
}

pub record ComputationResource : Type 0 where
  pub cpu_units : ℤ
  pub memory_mibs : ℤ
  pub disk_gibs : ℤ

abbrev pub size_slug_s : SizeSlug
size_slug_s = bytes "500-1024-2"

infixl 5 ◌>>=◌
abbrev ◌>>=◌ {ℓ κ} : {A : Type ℓ} {B : Type κ} → Result A → (A → Panicking B) → Panicking B
ok a >>= f = f a
err e >>= f = panics e

-- The conversions of the three parts, in the order of the source; `panic(err)` ends each.
abbrev pub convert : Text → Text → Text → Panicking ComputationResource
convert cpu_str mem_str disk_str = do
  cpu ← atoi cpu_str
  mem ← atoi mem_str
  disk ← atoi disk_str
  returns (record { cpu_units = cpu; memory_mibs = mem; disk_gibs = disk })

abbrev bad_parts : SizeSlug → Panicking ComputationResource
bad_parts s = panics (bytes "expected 3 parts in SizeSlug value, given=" ++ s)

abbrev pub of_parts : SizeSlug → List Text → Panicking ComputationResource
of_parts s (cpu_str ∷ mem_str ∷ disk_str ∷ []) = convert cpu_str mem_str disk_str
of_parts s _ = bad_parts s

unfoldable pub to_computation_resource : SizeSlug → Panicking ComputationResource
unfolding split
to_computation_resource s = of_parts s (split s b'-')
