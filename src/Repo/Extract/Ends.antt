-- ===== src/Repo/Extract/Ends.antt =====
-- The recursion of `copyDirectory` in src/repo/extract/extractor.go: directories are nested to some
-- depth, and copying makes none.
use treenq.Base.{
  ℕ, zero, suc, ◌<◌, Bool, true, false, List, [], ◌∷◌, Text, none, some, Result, ok, err, All, ◌≡◌,
  refl, ◌∙◌, arith,
}
use treenq.Go.Path.{join}
use treenq.Sdk.{Space}
use treenq.Domain.Handler.{Op}
use treenq.Repo.Store.{◌>>=◌, ◌>>◌, then_on}
use treenq.Repo.Extract.Copy.{
  Files, closing, copy_file, Copying, copy_next, copy_entry, copy_entries, with_entries,
  copy_directory,
}
use treenq.Repo.Extract.{
  ExtractLibrary, BuilderConfig, builder_path, tq_relative_path, after_copy, copy_context,
  with_target, extract_config,
}

-- How deep the directories below a path are nested.
pub record IsNested {File S : Type 0} (files : Files File S) (depth : Text → S → ℕ) : Type 0 where
  pub read_dir_falls :
      (path : Text) (s : S) (entries : List (Text × Bool))
      → files.read_dir path s ≡ ok entries
      → All (λ e. e.1 ≡ true → depth (join path e.0) s < depth path s) entries
  pub open_file_kept : (p q : Text) (s : S) → depth q (files.open_file p s).1 ≡ depth q s
  pub create_kept : (p q : Text) (s : S) → depth q (files.create p s).1 ≡ depth q s
  pub copy_kept : (f g : File) (q : Text) (s : S) → depth q (files.copy g f s).1 ≡ depth q s
  pub sync_kept : (f : File) (q : Text) (s : S) → depth q (files.sync f s).1 ≡ depth q s
  pub close_kept : (f : File) (q : Text) (s : S) → depth q (files.close f s) ≡ depth q s

module _ {File S : Type 0} (files : Files File S) (depth : Text → S → ℕ)
    (nested : IsNested files depth) where
  abbrev SameDepth : S → S → Type 0
  SameDepth s s' = (q : Text) → depth q s' ≡ depth q s

  abbrev Kept : {A : Type 0} → Op S A → Type 0
  Kept m = (s : S) → SameDepth s (m s).1

  then-Kept :
      {A B : Type 0} (m : Op S A) (f : A → Op S B)
      → Kept m
      → ((a : A) → Kept (f a))
      → Kept (m >>= f)
  then-Kept {A} {B} m f km kf s q = go (m s) (km s q)
    where
      go : (p : Result A × S) → depth q p.1 ≡ depth q s → depth q (then_on f p).1 ≡ depth q s
      go (ok a, s') e = kf a s' q ∙ e
      go (err m', s') e = e

  closing-Kept : {A : Type 0} (f : File) (m : Op S A) → Kept m → Kept (closing files f m)
  unfolding closing
  closing-Kept f m km s q = nested.close_kept f q (m s).1 ∙ km s q

  copy_file-Kept : (src dst : Text) → Kept (copy_file files src dst)
  unfolding copy_file
  copy_file-Kept src dst =
      let write : File → File → Op S (Unit {0}) = λ f g. files.copy g f >> files.sync g in
      let into : File → Op S (Unit {0}) =
        λ f. files.create dst >>= λ g. closing files g (write f g) in
      then-Kept (files.open_file src) (λ f. closing files f (into f))
        (λ s q. nested.open_file_kept src q s)
        λ f. closing-Kept f (into f) (
          then-Kept (files.create dst) (λ g. closing files g (write f g))
            (λ s q. nested.create_kept dst q s)
            λ g. closing-Kept g (write f g) (
              then-Kept (files.copy g f) (λ _. files.sync g) (λ s q. nested.copy_kept f g q s)
                (λ _ s q. nested.sync_kept g q s)))

  -- A copy that ends, with the directories as deep as before.
  abbrev Ends : S → Copying files → Type 0
  Ends s none = ⊥
  Ends s (some (r, s')) = SameDepth s s'

  Ends-next :
      (s : S) (c : Copying files) (rest : S → Copying files)
      → Ends s c
      → ((t : S) → SameDepth s t → Ends t (rest t))
      → Ends s (copy_next files rest c)
  Ends-next s none rest h k = absurd h
  Ends-next s (some (err m, t)) rest h k = h
  Ends-next s (some (ok _, t)) rest h k = go (rest t) (k t h)
    where
      go : (c : Copying files) → Ends t c → Ends s c
      go none l = absurd l
      go (some (r, u)) l = λ q. l q ∙ h q

  -- A visit of a directory that is less than `n` deep.
  abbrev Visits : ℕ → (Text → Text → S → Copying files) → Type 0
  Visits n visit = (src dst : Text) (s : S) → depth src s < n → Ends s (visit src dst s)

  abbrev Shallow : ℕ → Text → S → List (Text × Bool) → Type 0
  Shallow n src s = All (λ e. e.1 ≡ true → depth (join src e.0) s < n)

  Shallow-SameDepth :
      (n : ℕ) (src : Text) (s t : S) (entries : List (Text × Bool))
      → SameDepth s t
      → Shallow n src s entries
      → Shallow n src t entries
  Shallow-SameDepth n src s t [] same h = tt
  Shallow-SameDepth n src s t ((name, d) ∷ entries) same (h, hs) = (
    λ is_dir. let deep = h is_dir in let here = same (join src name) in omega arith,
    Shallow-SameDepth n src s t entries same hs,
  )

  copy_entries-Ends :
      (n : ℕ) (visit : Text → Text → S → Copying files)
      → Visits n visit
      → (src dst : Text) (entries : List (Text × Bool)) (s : S) → Shallow n src s entries
      → Ends s (copy_entries files visit src dst entries s)
  unfolding copy_entries
  copy_entries-Ends n visit visits src dst [] s h = λ q. refl
  copy_entries-Ends n visit visits src dst ((name, d) ∷ entries) s (h, hs) =
      Ends-next s (copy_entry files visit d (join src name) (join dst name) s)
        (copy_entries files visit src dst entries) (entry d h)
        (λ t same.
          copy_entries-Ends n visit visits src dst entries t
            (Shallow-SameDepth n src s t entries same hs))
    where
      entry :
          (d : Bool)
          → (d ≡ true → depth (join src name) s < n)
          → Ends s (copy_entry files visit d (join src name) (join dst name) s)
      entry true deep = visits (join src name) (join dst name) s (deep refl)
      entry false _ = copy_file-Kept (join src name) (join dst name) s

  Shallow-suc :
      (n m : ℕ) (src : Text) (s : S) (entries : List (Text × Bool))
      → m < suc n
      → Shallow m src s entries
      → Shallow n src s entries
  Shallow-suc n m src s [] le h = tt
  Shallow-suc n m src s ((name, d) ∷ entries) le (h, hs) =
      (λ is_dir. let deep = h is_dir in omega arith, Shallow-suc n m src s entries le hs)

  with_entries-Ends :
      (n : ℕ)
      → Visits n (copy_directory files n)
      → (src dst : Text) (s : S) (r : Result (List (Text × Bool))) → files.read_dir src s ≡ r
      → depth src s < suc n
      → Ends s (with_entries files (copy_directory files n) src dst r s)
  with_entries-Ends n visits src dst s (err m) listed enough = λ q. refl
  with_entries-Ends n visits src dst s (ok entries) listed enough =
      copy_entries-Ends n (copy_directory files n) visits src dst entries s (
        Shallow-suc n (depth src s) src s entries enough
          (nested.read_dir_falls src s entries listed))

  copy_directory-Ends : (fuel : ℕ) → Visits fuel (copy_directory files fuel)
  unfolding copy_directory
  copy_directory-Ends zero src dst s enough = absurd (omega arith)
  copy_directory-Ends (suc fuel) src dst s enough =
      with_entries-Ends fuel (copy_directory-Ends fuel) src dst s (files.read_dir src s) refl enough

after_copy-Ends :
    {File S : Type 0} (lib : ExtractLibrary File S) (depth : Text → S → ℕ)
    (nested : IsNested lib.files depth) (e : BuilderConfig) (id target : Text) (s : S)
    (c : Copying lib.files)
    → Ends lib.files depth nested s c
    → (r : Result Space × S) × (after_copy lib e id target (copy_context lib e c) ≡ some r)
after_copy-Ends lib depth nested e id target s none h = absurd h
after_copy-Ends lib depth nested e id target s (some (err m, t)) h = (_, refl)
after_copy-Ends lib depth nested e id target s (some (ok _, t)) h = (_, refl)

with_target-Ends :
    {File S : Type 0} (lib : ExtractLibrary File S) (depth : Text → S → ℕ)
    (nested : IsNested lib.files depth) (e : BuilderConfig) (fuel : ℕ) (id config target : Text)
    (p : Result (Unit {0}) × S)
    → depth config p.1 < fuel
    → (r : Result Space × S) × (with_target lib e fuel id config target p ≡ some r)
with_target-Ends lib depth nested e fuel id config target (err m, s) enough = (_, refl)
with_target-Ends lib depth nested e fuel id config target (ok _, s) enough =
    after_copy-Ends lib depth nested e id target s (copy_directory lib.files fuel config target s)
      (copy_directory-Ends lib.files depth nested fuel config target s enough)

-- An extraction ends, with a configuration or an error: calls nested one deeper than the directories
-- of the configuration, when the directory for its copy has been made, are enough, on a disk where a
-- directory is nested deeper than those in it and where writing a file makes no directory.
pub extract_config-Ends :
    {File S : Type 0} (lib : ExtractLibrary File S) (depth : Text → S → ℕ) (e : BuilderConfig)
    (fuel : ℕ) (id repo_dir : Text) (s : S)
    → IsNested lib.files depth
    → depth
        (join repo_dir tq_relative_path)
        (lib.mkdir_all (join (builder_path lib e id) tq_relative_path) s).1
      < fuel
    → (r : Result Space × S) × (extract_config lib e fuel id repo_dir s ≡ some r)
unfolding extract_config
extract_config-Ends lib depth e fuel id repo_dir s nested enough =
    with_target-Ends lib depth nested e fuel id (join repo_dir tq_relative_path)
      (join (builder_path lib e id) tq_relative_path)
      (lib.mkdir_all (join (builder_path lib e id) tq_relative_path) s) enough
