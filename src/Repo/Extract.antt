-- ===== src/Repo/Extract.antt =====
-- src/repo/extract/extractor.go: a builder is a directory with a Go program, into which the
-- configuration of a repository is copied, and which is run to print the configuration's JSON. The
-- file system, the `go` command, the template and JSON are parameters.
pub mod Copy
pub mod Related
pub mod Closed
pub mod Copied
pub mod Ends
use treenq.Base.{
  ℕ, zero, suc, Bool, true, false, List, [], ◌∷◌, ◌++◌, Text, bytes, Option, none, some, Result, ok,
  err,
}
use treenq.Go.Path.{join}
use treenq.Sdk.{Space}
use treenq.Domain.Handler.{Op}
use treenq.Repo.Store.{◌>>=◌, ◌>>◌, pure, within, wrapped}
use treenq.Repo.Extract.Copy.{Files, closing, copy_directory}

pub record ExtractLibrary (File S : Type 0) : Type 0 where
  pub files : Files File S
  pub new_uuid : S → Text × S
  pub mkdir_all : Text → Op S (Unit {0})
  pub remove_all : Text → Op S (Unit {0})
  -- The template of the builder's program, for its id and package.
  pub execute : File → Text → Text → Op S (Unit {0})
  pub go_run : Text → Op S Text
  pub unmarshal : Text → Result Space

pub record BuilderConfig : Type 0 where
  pub builder_dir_prefix : Text
  pub builder_package : Text

abbrev pub tq_relative_path : Text
tq_relative_path = bytes "tq"

abbrev pub tq_build_launcher_file : Text
tq_build_launcher_file = bytes "builder.go"

module _ {File S : Type 0} (lib : ExtractLibrary File S) (e : BuilderConfig) where
  unfoldable pub builder_path : Text → Text
  unfolding join
  builder_path id = join e.builder_dir_prefix id

  unfoldable pub create_builder : Text → Op S (Unit {0})
  unfolding builder_path closing
  create_builder id = do
    within (bytes "failed to create builder dir: ") (lib.mkdir_all (builder_path id))
    f ←
        within (bytes "failed to create builder file: ")
          (lib.files.create (join (builder_path id) tq_build_launcher_file))
    closing lib.files f
        (within (bytes "failed to write builder template: ") (lib.execute f id e.builder_package))

  unfoldable pub open_builder : Op S Text
  unfolding create_builder
  open_builder = (λ s. let (id, s') = lib.new_uuid s in (ok id, s')) >>= λ id.
      within (bytes "failed to open new builder: ") (create_builder id) >> pure id

  unfoldable pub close_builder : Text → Op S (Unit {0})
  unfolding builder_path
  close_builder id =
      within (bytes "failed to close builder: ")
        (within (bytes "failed to remove builder dir: ") (lib.remove_all (builder_path id)))

  -- The deferred removal, whose error is dropped.
  abbrev pub removing : {A : Type 0} → Text → Op S A → Op S A
  removing target m s = let (r, s') = m s in (r, (lib.remove_all target s').1)

  abbrev pub run_builder : Text → Op S Space
  run_builder id = do
    output ←
        within (bytes "failed to exctract build config: ")
          (lib.go_run (join (builder_path id) tq_build_launcher_file))
    λ s. (wrapped (bytes "failed to unmarshal resource: ") (lib.unmarshal output), s)

  abbrev pub after_copy : Text → Text → Option (Result (Unit {0}) × S) → Option (Result Space × S)
  after_copy id target none = none
  after_copy id target (some (err m, s)) = some (err m, s)
  after_copy id target (some (ok _, s)) = some (removing target (run_builder id) s)

  abbrev pub copy_context : Option (Result (Unit {0}) × S) → Option (Result (Unit {0}) × S)
  copy_context none = none
  copy_context (some (r, s)) = some (wrapped (bytes "failed to copy build config: ") r, s)

  abbrev pub with_target :
      ℕ → Text → Text → Text → Result (Unit {0}) × S → Option (Result Space × S)
  with_target fuel id config target (err m, s) =
      some (err (bytes "failed to create tq module dir: " ++ m), s)
  with_target fuel id config target (ok _, s) =
      after_copy id target (copy_context (copy_directory lib.files fuel config target s))

  -- `none` is for want of fuel, which is the depth of the directories that are copied.
  unfoldable pub extract_config : ℕ → Text → Text → S → Option (Result Space × S)
  unfolding builder_path copy_directory
  extract_config fuel id repo_dir s =
      let target = join (builder_path id) tq_relative_path in
      with_target fuel id (join repo_dir tq_relative_path) target (lib.mkdir_all target s)
