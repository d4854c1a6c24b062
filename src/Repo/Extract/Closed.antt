-- ===== src/Repo/Extract/Closed.antt =====
-- Which files are open around the operations of src/repo/extract/extractor.go.
use treenq.Base.{List, ◌∷◌, ℕ, Text, bytes, Option, none, some, Result, ok, err, ◌≡◌, refl, ◌∙◌}
use treenq.Go.Path.{join}
use treenq.Sdk.{Space}
use treenq.Domain.Handler.{Op}
use treenq.Repo.Store.{◌>>=◌, ◌>>◌, then_on, pure, within, wrapped}
use treenq.Repo.Extract.Copy.{closing, copy_file, Copying, copy_directory}
use treenq.Repo.Extract.Related.{Relates, copy_directory-Relates}
use treenq.Repo.Extract.{
  ExtractLibrary, BuilderConfig, create_builder, open_builder, close_builder, run_builder,
  after_copy, copy_context, with_target, extract_config, builder_path, tq_build_launcher_file,
  tq_relative_path,
}

-- The state that an extraction ends in, or the one it starts in where its fuel does not do.
abbrev pub ended_in : {S : Type 0} → S → Option (Result Space × S) → S
ended_in s none = s
ended_in s (some (r, s')) = s'

module _ {File S : Type 0} (open_files : S → List File) where
  -- An operation behind which the same files are open as before it.
  abbrev pub Keeps : {A : Type 0} → Op S A → Type 0
  Keeps m = (s : S) → open_files (m s).1 ≡ open_files s

  -- A call that opens one file, or none where it fails.
  abbrev pub Opened : S → Result File × S → Type 0
  Opened s (ok f, s') = open_files s' ≡ f ∷ open_files s
  Opened s (err m, s') = open_files s' ≡ open_files s

  abbrev pub Opens : Op S File → Type 0
  Opens m = (s : S) → Opened s (m s)

  then-Keeps :
      {A B : Type 0} (m : Op S A) (f : A → Op S B)
      → Keeps m
      → ((a : A) → Keeps (f a))
      → Keeps (m >>= f)
  then-Keeps m f km kf s = go (m s) (km s)
    where
      go :
          (p : Result _ × S)
          → open_files p.1 ≡ open_files s
          → open_files (then_on f p).1 ≡ open_files s
      go (ok a, s') e = kf a s' ∙ e
      go (err m', s') e = e

  within-Opened :
      (context : Text) (s : S) (p : Result File × S)
      → Opened s p
      → Opened s (wrapped context p.0, p.1)
  within-Opened context s (ok f, s') h = h
  within-Opened context s (err m, s') h = h

  -- The files that are open, the last one first: a call that opens a file puts it before those that
  -- are, and a close of the last one that was opened takes it from them. Of closing another file,
  -- or one that is closed, nothing is said.
  pub record IsListed (lib : ExtractLibrary File S) : Type 0 where
    pub open_file-Opens : (path : Text) → Opens (lib.files.open_file path)
    pub create-Opens : (path : Text) → Opens (lib.files.create path)
    pub close_listed :
        (f : File) (s : S) (fs : List File)
        → open_files s ≡ f ∷ fs
        → open_files (lib.files.close f s) ≡ fs
    pub copy-Keeps : (dst src : File) → Keeps (lib.files.copy dst src)
    pub sync-Keeps : (f : File) → Keeps (lib.files.sync f)
    pub new_uuid_listed : (s : S) → open_files (lib.new_uuid s).1 ≡ open_files s
    pub mkdir_all-Keeps : (path : Text) → Keeps (lib.mkdir_all path)
    pub remove_all-Keeps : (path : Text) → Keeps (lib.remove_all path)
    pub execute-Keeps : (f : File) (id package_name : Text) → Keeps (lib.execute f id package_name)
    pub go_run-Keeps : (path : Text) → Keeps (lib.go_run path)

  module _ (lib : ExtractLibrary File S) (listed : IsListed lib) where
    -- What is opened is closed at the end, however the part between ends.
    closing-Keeps :
        {A : Type 0} (opening : Op S File) (body : File → Op S A)
        → Opens opening
        → ((f : File) → Keeps (body f))
        → Keeps (opening >>= λ f. closing lib.files f (body f))
    unfolding closing
    closing-Keeps opening body opens keeps s = go (opening s) (opens s)
      where
        go :
            (p : Result File × S)
            → Opened s p
            → open_files (then_on (λ f. closing lib.files f (body f)) p).1 ≡ open_files s
        go (ok f, s') e = listed.close_listed f (body f s').1 (open_files s) (keeps f s' ∙ e)
        go (err m, s') e = e

    copy_file-Keeps : (src dst : Text) → Keeps (copy_file lib.files src dst)
    unfolding copy_file
    copy_file-Keeps src dst =
        closing-Keeps (lib.files.open_file src)
          (λ src_file. lib.files.create dst >>= λ dst_file.
            closing lib.files dst_file
              (lib.files.copy dst_file src_file >> lib.files.sync dst_file))
          (listed.open_file-Opens src)
          λ src_file.
            closing-Keeps (lib.files.create dst)
              (λ dst_file. lib.files.copy dst_file src_file >> lib.files.sync dst_file)
              (listed.create-Opens dst)
              λ dst_file.
                then-Keeps (lib.files.copy dst_file src_file) (λ _. lib.files.sync dst_file)
                  (listed.copy-Keeps dst_file src_file) (λ _. listed.sync-Keeps dst_file)

    abbrev SameFiles : S → S → Type 0
    SameFiles s s' = open_files s' ≡ open_files s

    copy_directory-SameFiles :
        (fuel : ℕ) (src dst : Text) (s : S)
        → Relates lib.files SameFiles s (copy_directory lib.files fuel src dst s)
    copy_directory-SameFiles =
        copy_directory-Relates lib.files SameFiles (λ s. refl) (λ s t u h k. k ∙ h) copy_file-Keeps

    run_builder-Keeps : (e : BuilderConfig) (id : Text) → Keeps (run_builder lib e id)
    run_builder-Keeps e id =
        then-Keeps
          (within (bytes "failed to exctract build config: ")
            (lib.go_run (join (builder_path lib e id) tq_build_launcher_file)))
          (λ output s. (wrapped (bytes "failed to unmarshal resource: ") (lib.unmarshal output), s))
          (listed.go_run-Keeps (join (builder_path lib e id) tq_build_launcher_file))
          (λ output s. refl)

    with_target-ended_in :
        (e : BuilderConfig) (fuel : ℕ) (id config target : Text) (s : S) (p : Result (Unit {0}) × S)
        → open_files p.1 ≡ open_files s
        → open_files (ended_in s (with_target lib e fuel id config target p)) ≡ open_files s
    with_target-ended_in e fuel id config target s (err m, s') h = h
    with_target-ended_in e fuel id config target s (ok _, s') h =
        go (copy_directory lib.files fuel config target s')
          (copy_directory-SameFiles fuel config target s')
      where
        go :
            (c : Copying lib.files)
            → Relates lib.files SameFiles s' c
            → open_files (ended_in s (after_copy lib e id target (copy_context lib e c)))
              ≡ open_files s
        go none k = refl
        go (some (err m, s'')) k = k ∙ h
        go (some (ok _, s'')) k =
            listed.remove_all-Keeps target (run_builder lib e id s'').1
            ∙ (run_builder-Keeps e id s'' ∙ (k ∙ h))

    create_builder-Keeps : (e : BuilderConfig) (id : Text) → Keeps (create_builder lib e id)
    unfolding create_builder
    create_builder-Keeps e id =
        let launcher = join (builder_path lib e id) tq_build_launcher_file in
        let creating = bytes "failed to create builder file: " in
        let write : File → Op S (Unit {0}) = λ f.
          within (bytes "failed to write builder template: ")
            (lib.execute f id e.builder_package) in
        then-Keeps
          (within (bytes "failed to create builder dir: ") (lib.mkdir_all (builder_path lib e id)))
          (λ _. within creating (lib.files.create launcher) >>= λ f. closing lib.files f (write f))
          (listed.mkdir_all-Keeps (builder_path lib e id))
          (λ _.
            closing-Keeps (within creating (lib.files.create launcher)) write
              (λ s.
                within-Opened creating s (lib.files.create launcher s)
                  (listed.create-Opens launcher s))
              (λ f. listed.execute-Keeps f id e.builder_package))

-- No operation of the extractor leaves a file open or closes another one, however it ends: behind the
-- opening of a builder, an extraction that ends and the closing of a builder the same files are open
-- as before, where the operating system lists a file from the call that opened it to its close, if
-- files are closed in the reverse order of their opening.
pub extractor-Keeps :
    {File S : Type 0} (open_files : S → List File) (lib : ExtractLibrary File S)
    → IsListed open_files lib
    → (e : BuilderConfig) (fuel : ℕ) (id repo_dir : Text) (s : S)
    → (open_files (open_builder lib e s).1 ≡ open_files s)
      × (open_files (ended_in s (extract_config lib e fuel id repo_dir s)) ≡ open_files s)
      × (open_files (close_builder lib e id s).1 ≡ open_files s)
unfolding open_builder extract_config close_builder
extractor-Keeps {File} {S} open_files lib listed e fuel id repo_dir s = (
  then-Keeps open_files (λ s. let (id, s') = lib.new_uuid s in (ok id, s'))
      (λ id. within (bytes "failed to open new builder: ") (create_builder lib e id) >> pure id)
      listed.new_uuid_listed
      (λ id.
        then-Keeps open_files
          (within (bytes "failed to open new builder: ") (create_builder lib e id)) (λ _. pure id)
          (create_builder-Keeps open_files lib listed e id) (λ _ s. refl))
      s,
  with_target-ended_in open_files lib listed e fuel id (join repo_dir tq_relative_path)
      (join (builder_path lib e id) tq_relative_path) s
      (lib.mkdir_all (join (builder_path lib e id) tq_relative_path) s)
      (listed.mkdir_all-Keeps (join (builder_path lib e id) tq_relative_path) s),
  listed.remove_all-Keeps (builder_path lib e id) s,
)
