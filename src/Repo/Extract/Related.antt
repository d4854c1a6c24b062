-- ===== src/Repo/Extract/Related.antt =====
-- What holds of every copy of a file holds of a copy of directories.
use treenq.Base.{ℕ, zero, suc, Bool, true, false, List, [], ◌∷◌, Text, none, some, Result, ok, err}
use treenq.Go.Path.{join}
use treenq.Repo.Extract.Copy.{
  Files, copy_file, Copying, copy_next, copy_entry, copy_entries, with_entries, copy_directory,
}

module _ {File S : Type 0} (files : Files File S) (R : S → S → Type 0) where
  -- A copy that ends is related to its start.
  abbrev pub Relates : S → Copying files → Type 0
  Relates s none = Unit
  Relates s (some (r, s')) = R s s'

  module _ (reflexive : (s : S) → R s s) (transitive : (s t u : S) → R s t → R t u → R s u)
      (copied : (src dst : Text) (s : S) → R s (copy_file files src dst s).1) where
    next-Relates :
        (s : S) (c : Copying files) (rest : S → Copying files)
        → Relates s c
        → ((t : S) → Relates t (rest t))
        → Relates s (copy_next files rest c)
    next-Relates s none rest h k = tt
    next-Relates s (some (err m, t)) rest h k = h
    next-Relates s (some (ok _, t)) rest h k = go (rest t) (k t)
      where
        go : (c : Copying files) → Relates t c → Relates s c
        go none l = tt
        go (some (r, u)) l = transitive s t u h l

    copy_entries-Relates :
        (visit : Text → Text → S → Copying files)
        → ((src dst : Text) (s : S) → Relates s (visit src dst s))
        → (src dst : Text) (entries : List (Text × Bool)) (s : S)
        → Relates s (copy_entries files visit src dst entries s)
    unfolding copy_entries
    copy_entries-Relates visit visited src dst [] s = reflexive s
    copy_entries-Relates visit visited src dst ((name, is_dir) ∷ entries) s =
        next-Relates s (copy_entry files visit is_dir (join src name) (join dst name) s)
          (copy_entries files visit src dst entries) (entry is_dir)
          (copy_entries-Relates visit visited src dst entries)
      where
        entry :
            (is_dir : Bool)
            → Relates s (copy_entry files visit is_dir (join src name) (join dst name) s)
        entry true = visited (join src name) (join dst name) s
        entry false = copied (join src name) (join dst name) s

    with_entries-Relates :
        (visit : Text → Text → S → Copying files)
        → ((src dst : Text) (s : S) → Relates s (visit src dst s))
        → (src dst : Text) (r : Result (List (Text × Bool))) (s : S)
        → Relates s (with_entries files visit src dst r s)
    with_entries-Relates visit visited src dst (err m) s = reflexive s
    with_entries-Relates visit visited src dst (ok entries) s =
        copy_entries-Relates visit visited src dst entries s

    pub copy_directory-Relates :
        (fuel : ℕ) (src dst : Text) (s : S) → Relates s (copy_directory files fuel src dst s)
    unfolding copy_directory
    copy_directory-Relates zero src dst s = tt
    copy_directory-Relates (suc fuel) src dst s =
        with_entries-Relates (copy_directory files fuel) (copy_directory-Relates fuel) src dst
          (files.read_dir src s) s
