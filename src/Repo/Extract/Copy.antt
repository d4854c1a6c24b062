-- ===== src/Repo/Extract/Copy.antt =====
-- `copyDirectory` and `copyFile` of src/repo/extract/extractor.go, over an operating system's files.
use treenq.Base.{
  ℕ, zero, suc, Bool, true, false, List, [], ◌∷◌, Text, Option, none, some, Result, ok, err,
}
use treenq.Go.Path.{join}
use treenq.Domain.Handler.{Op}
use treenq.Repo.Store.{◌>>=◌, ◌>>◌}

-- `os.ReadDir` gives the names of a directory's entries, and which of them are directories.
pub record Files (File S : Type 0) : Type 0 where
  pub read_dir : Text → S → Result (List (Text × Bool))
  pub open_file : Text → Op S File
  pub create : Text → Op S File
  pub copy : File → File → Op S (Unit {0})
  pub sync : File → Op S (Unit {0})
  pub close : File → S → S

module _ {File S : Type 0} (files : Files File S) where
  -- The deferred `Close`, whose error is dropped.
  unfoldable pub closing : {A : Type 0} → File → Op S A → Op S A
  closing f m s = let (r, s') = m s in (r, files.close f s')

  unfoldable pub copy_file : Text → Text → Op S (Unit {0})
  unfolding closing
  copy_file src dst = do
    src_file ← files.open_file src
    closing src_file do
      dst_file ← files.create dst
      closing dst_file (do files.copy dst_file src_file; files.sync dst_file)

  -- What a copy of directories ends with; `none` is for want of fuel.
  abbrev pub Copying : Type 0
  Copying = Option (Result (Unit {0}) × S)

  abbrev pub copy_next : (S → Copying) → Copying → Copying
  copy_next rest none = none
  copy_next rest (some (err m, s)) = some (err m, s)
  copy_next rest (some (ok _, s)) = rest s

  abbrev pub copy_entry : (Text → Text → S → Copying) → Bool → Text → Text → S → Copying
  copy_entry visit true src dst s = visit src dst s
  copy_entry visit false src dst s = some (copy_file src dst s)

  unfoldable pub copy_entries :
      (Text → Text → S → Copying) → Text → Text → List (Text × Bool) → S → Copying
  unfolding copy_file join
  copy_entries visit src dst [] s = some (ok tt, s)
  copy_entries visit src dst ((name, is_dir) ∷ entries) s =
      copy_next (copy_entries visit src dst entries)
        (copy_entry visit is_dir (join src name) (join dst name) s)

  abbrev pub with_entries :
      (Text → Text → S → Copying) → Text → Text → Result (List (Text × Bool)) → S → Copying
  with_entries visit src dst (err m) s = some (err m, s)
  with_entries visit src dst (ok entries) s = copy_entries visit src dst entries s

  -- On the depth of the directories.
  unfoldable pub copy_directory : ℕ → Text → Text → S → Copying
  unfolding copy_entries
  copy_directory zero src dst s = none
  copy_directory (suc fuel) src dst s =
      with_entries (copy_directory fuel) src dst (files.read_dir src s) s
