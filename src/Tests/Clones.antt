-- ===== src/Tests/Clones.antt =====
-- Clones into a state that counts the calls, where a second clone finds the first one.
use treenq.Base.{zero, suc, ◌∷◌, ◌++◌, ℕ, ◌+◌, ◌≡◌, ◌↔◌, Text, bytes, ok, refl, arith}
use treenq.Go.{pos}
use treenq.Repo.Git.{
  GitLibrary, there, missing, cloned, already_exists, pulled, Stat, CloneEnd, clone, clone_dir,
  with_access, pull_existing,
}
use treenq.Repo.Git.Fetched.{Ready, Fetched, clone_iff}
use treenq.Repo.Git.Directories.{clone_dir-injective}

abbrev found_at : ℕ → Stat
found_at zero = missing
found_at (suc n) = there

abbrev cloned_at : ℕ → CloneEnd
cloned_at (suc zero) = cloned
cloned_at _ = already_exists

abbrev library : GitLibrary Text (Unit {0}) (Unit {0}) ℕ
library = record {
  stat = λ path s. found_at s;
  mkdir_all = λ path s. (ok tt, s + 1);
  parse_url = λ text. ok text;
  set_user = λ user password url. user ++ b':' ∷ password ++ b'@' ∷ url;
  url_text = λ url. url;
  plain_clone = λ path url s. (cloned_at s, s + 1);
  plain_open = λ path s. (ok tt, s + 1);
  worktree = λ r s. (ok tt, s + 1);
  pull = λ remote w s. (pulled, s + 1);
}

clone_iff_example :
    (clone library (bytes "gits") (bytes "github.com/treenq/poc") (pos 7) (pos 1) (bytes "t") 0
      ≡ (ok (bytes "gits/7/1"), 2))
    ↔ ((bytes "gits/7/1" ≡ clone_dir (bytes "gits") (pos 7) (pos 1))
        × (url : Text) × (s₁ : ℕ) × (library.parse_url (bytes "github.com/treenq/poc") ≡ ok url)
        × Ready library (clone_dir (bytes "gits") (pos 7) (pos 1)) 0 s₁
        × Fetched library
            (clone_dir (bytes "gits") (pos 7) (pos 1))
            (library.url_text (with_access library (bytes "t") url))
            s₁
            2)
clone_iff_example =
    clone_iff library (bytes "gits") (bytes "github.com/treenq/poc") (bytes "t") (bytes "gits/7/1")
      (pos 7) (pos 1) 0 2

cloned_once :
    clone library (bytes "gits") (bytes "github.com/treenq/poc") (pos 7) (pos 1) (bytes "t") 0
    ≡ (ok (bytes "gits/7/1"), 2)
unfolding clone clone_dir
cloned_once = refl

cloned_again :
    clone library (bytes "gits") (bytes "github.com/treenq/poc") (pos 7) (pos 1) (bytes "t") 2
    ≡ (ok (bytes "gits/7/1"), 6)
unfolding clone clone_dir pull_existing
cloned_again = refl

clone_dir-injective_example : (◌≡◌ {A = ℕ} 7 7) × (◌≡◌ {A = ℕ} 1 1)
clone_dir-injective_example =
    clone_dir-injective (bytes "./a/../gits") 7 1 7 1 (omega arith) (omega arith) (omega arith)
      (omega arith) refl
