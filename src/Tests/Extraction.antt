-- ===== src/Tests/Extraction.antt =====
-- A builder over a list of open files.
use treenq.Base.{
  ◌==◌, length, ℕ, ◌<◌, Bool, true, false, List, [], ◌∷◌, Text, bytes, text_eq, text_eq_iff, some,
  Result, ok, err, All, if◌then◌else◌, ◌≡◌, refl, sym, ap, subst, arith,
}
use treenq.Go.Path.{join}
use treenq.Sdk.{Space}
use treenq.Repo.Extract.{ExtractLibrary, BuilderConfig, open_builder, extract_config, close_builder}
use treenq.Repo.Extract.Copy.{Files}
use treenq.Repo.Extract.Closed.{IsListed, ended_in, extractor-Keeps}
use treenq.Repo.Extract.Ends.{IsNested, extract_config-Ends}
use treenq.Tests.Demo.{space}

-- `repo/tq` holds a file and a directory, which holds nothing.
abbrev config : Text
config = bytes "repo/tq"

abbrev listing : Bool → List (Text × Bool)
listing true = (bytes "main.go", false) ∷ (bytes "sub", true) ∷ []
listing false = []

-- Files are numbers, and the state is the list of those that are open.
abbrev close_one : ℕ → List ℕ → List ℕ
close_one f [] = []
close_one f (g ∷ s) = if f == g then s else g ∷ close_one f s

close_one-first : (f : ℕ) (fs s : List ℕ) → s ≡ f ∷ fs → close_one f s ≡ fs
close_one-first f fs [] e = ground arith
close_one-first f fs (g ∷ s) e = ground arith

abbrev listed_files : Files ℕ (List ℕ)
listed_files = record {
  read_dir = λ path s. ok (listing (text_eq path config));
  open_file = λ path s. (ok (length s), length s ∷ s);
  create = λ path s. (ok (length s), length s ∷ s);
  copy = λ dst src s. (ok tt, s);
  sync = λ f s. (ok tt, s);
  close = λ f s. close_one f s;
}

abbrev library : ExtractLibrary ℕ (List ℕ)
library = record {
  files = listed_files;
  new_uuid = λ s. (bytes "b1", s);
  mkdir_all = λ path s. (ok tt, s);
  remove_all = λ path s. (ok tt, s);
  execute = λ f id package_name s. (ok tt, s);
  go_run = λ path s. (ok (bytes "{}"), s);
  unmarshal = λ output. ok space;
}

abbrev builders : BuilderConfig
builders = record { builder_dir_prefix = bytes "/work/builder"; builder_package = [] }

listed : IsListed (λ s. s) library
listed = record {
  open_file-Opens = λ path s. refl;
  create-Opens = λ path s. refl;
  close_listed = λ f s fs e. close_one-first f fs s e;
  copy-Keeps = λ dst src s. refl;
  sync-Keeps = λ f s. refl;
  new_uuid_listed = λ s. refl;
  mkdir_all-Keeps = λ path s. refl;
  remove_all-Keeps = λ path s. refl;
  execute-Keeps = λ f id package_name s. refl;
  go_run-Keeps = λ path s. refl;
}

extractor-Keeps_example :
    ((open_builder library builders (9 ∷ [])).1 ≡ 9 ∷ [])
    × (ended_in (9 ∷ []) (extract_config library builders 2 (bytes "b1") (bytes "repo") (9 ∷ []))
        ≡ 9 ∷ [])
    × ((close_builder library builders (bytes "b1") (9 ∷ [])).1 ≡ 9 ∷ [])
extractor-Keeps_example =
    extractor-Keeps (λ s. s) library listed builders 2 (bytes "b1") (bytes "repo") (9 ∷ [])

extracted_run :
    extract_config library builders 2 (bytes "b1") (bytes "repo") (9 ∷ []) ≡ some (ok space, 9 ∷ [])
unfolding extract_config
extracted_run = refl

abbrev depth : Text → List ℕ → ℕ
depth path s = if text_eq path config then 1 else 0

listing_falls :
    (path : Text) (s : List ℕ) (here : Bool)
    → text_eq path config ≡ here
    → All (λ e. e.1 ≡ true → depth (join path e.0) s < depth path s) (listing here)
unfolding join
listing_falls path s false e = tt
listing_falls path s true e =
    subst (λ p. All (λ e. e.1 ≡ true → depth (join p e.0) s < depth p s) (listing true))
      (sym ((text_eq_iff path config).0 e)) (at_config s)
  where
    at_config :
        (s : List ℕ)
        → All (λ e. e.1 ≡ true → depth (join config e.0) s < depth config s) (listing true)
    at_config s = ((λ never. absurd (ground arith)), ((λ _. omega arith), tt))

same_listing : (xs ys : List (Text × Bool)) → ok xs ≡ ok ys → xs ≡ ys
same_listing xs ys e = ap value e
  where
    value : Result (List (Text × Bool)) → List (Text × Bool)
    value (ok zs) = zs
    value (err _) = xs

nested : IsNested listed_files depth
nested = record {
  read_dir_falls = λ path s entries e.
      subst (All (λ f. f.1 ≡ true → depth (join path f.0) s < depth path s))
        (same_listing (listing (text_eq path config)) entries e)
        (listing_falls path s (text_eq path config) refl);
  open_file_kept = λ p q s. refl;
  create_kept = λ p q s. refl;
  copy_kept = λ f g q s. refl;
  sync_kept = λ f q s. refl;
  close_kept = λ f q s. refl;
}

extract_config-Ends_example :
    (r : Result Space × List ℕ) × (extract_config library builders 2
        (bytes "b1")
        (bytes "repo")
        (9 ∷ [])
      ≡ some r)
unfolding join
extract_config-Ends_example =
    extract_config-Ends library depth builders 2 (bytes "b1") (bytes "repo") (9 ∷ []) nested
      (omega arith)
