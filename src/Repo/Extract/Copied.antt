-- ===== src/Repo/Extract/Copied.antt =====
-- What `copyDirectory` of src/repo/extract/extractor.go leaves behind.
use treenq.Base.{
  ℕ, zero, suc, Bool, false, List, [], ◌∷◌, Text, Option, none, some, Result, ok, err, All, ◌≡◌,
  ◌≢◌, refl, sym, ap, ◌∙◌, subst, arith,
}
use treenq.Go.Path.{join}
use treenq.Go.Path.Plain.{IsPlain, join-injective}
use treenq.Domain.Handler.{Op}
use treenq.Repo.Store.{◌>>=◌, ◌>>◌, then_on-ok}
use treenq.Repo.Extract.Copy.{
  Files, closing, copy_file, Copying, copy_next, copy_entry, copy_entries, with_entries,
  copy_directory,
}

-- A disk without links: a path names one file, and a file is changed through its own path only.
pub record IsDisk {File S : Type 0} (files : Files File S) (content : Text → S → Option Text)
    : Type 0 where
  pub open_file_kept : (p q : Text) (s : S) → content q (files.open_file p s).1 ≡ content q s
  pub create_kept : (p q : Text) (s : S) → q ≢ p → content q (files.create p s).1 ≡ content q s
  pub copied :
      (src dst : Text) (f g : File) (s s₁ s₂ s₃ : S)
      → src ≢ dst
      → files.open_file src s ≡ (ok f, s₁)
      → files.create dst s₁ ≡ (ok g, s₂)
      → files.copy g f s₂ ≡ (ok tt, s₃)
      → content dst s₃ ≡ content src s
  pub copy_kept :
      (dst q : Text) (f g : File) (s s₁ : S)
      → q ≢ dst
      → files.create dst s ≡ (ok g, s₁)
      → content q (files.copy g f s₁).1 ≡ content q s₁
  pub sync_kept : (f : File) (q : Text) (s : S) → content q (files.sync f s).1 ≡ content q s
  pub close_kept : (f : File) (q : Text) (s : S) → content q (files.close f s) ≡ content q s

-- The entries are files with plain and different names.
abbrev pub FlatNames : List (Text × Bool) → Type 0
FlatNames [] = Unit
FlatNames ((name, is_dir) ∷ entries) =
    (is_dir ≡ false) × IsPlain name × All (λ e. e.0 ≢ name) entries × FlatNames entries

-- Every file of the list has its copy, and nothing else is changed.
abbrev pub AllCopied :
    {S : Type 0} → (Text → S → Option Text) → Text → Text → List (Text × Bool) → S → S → Type 0
AllCopied content src dst entries s s' =
    All (λ e. content (join dst e.0) s' ≡ content (join src e.0) s) entries
    × ((q : Text) → All (λ e. q ≢ join dst e.0) entries → content q s' ≡ content q s)

module _ {File S : Type 0} (files : Files File S) (content : Text → S → Option Text)
    (disk : IsDisk files content) where
  -- A file is copied to its place, and no other is changed.
  abbrev FileCopied : Text → Text → S → S → Type 0
  FileCopied src dst s s' =
      (content dst s' ≡ content src s) × ((q : Text) → q ≢ dst → content q s' ≡ content q s)

  closing-ok :
      (f : File) (m : Op S (Unit {0})) (s s' : S)
      → closing files f m s ≡ (ok tt, s')
      → (t : S) × (m s ≡ (ok tt, t)) × (files.close f t ≡ s')
  unfolding closing
  closing-ok f m s s' = go (m s) refl
    where
      go :
          (p : Result (Unit {0}) × S)
          → m s ≡ p
          → ◌≡◌ {A = Result (Unit {0}) × S} (p.0, files.close f p.1) (ok tt, s')
          → (t : S) × (m s ≡ (ok tt, t)) × (files.close f t ≡ s')
      go (ok _, t) at e = (t, at, ap (λ p. p.1) e)
      go (err m', t) at e = ground arith

  copy_file-FileCopied :
      (src dst : Text) (s s' : S)
      → src ≢ dst
      → copy_file files src dst s ≡ (ok tt, s')
      → FileCopied src dst s s'
  unfolding copy_file
  copy_file-FileCopied src dst s s' apart e =
      let write : File → File → Op S (Unit {0}) = λ f g. files.copy g f >> files.sync g in
      let into : File → Op S (Unit {0}) =
        λ f. files.create dst >>= λ g. closing files g (write f g) in
      let (f, s₁, opened, e₁) =
        then_on-ok (λ f. closing files f (into f)) (files.open_file src s) tt s' e in
      let (s₅, e₂, closed_src) = closing-ok f (into f) s₁ s' e₁ in
      let (g, s₂, made, e₃) =
        then_on-ok (λ g. closing files g (write f g)) (files.create dst s₁) tt s₅ e₂ in
      let (s₄, e₄, closed_dst) = closing-ok g (write f g) s₂ s₅ e₃ in
      let (_, s₃, written, synced) = then_on-ok (λ _. files.sync g) (files.copy g f s₂) tt s₄ e₄ in
      let last = λ (q : Text).
        sym (ap (content q) closed_src)
        ∙ (disk.close_kept f q s₅
            ∙ (sym (ap (content q) closed_dst)
                ∙ (disk.close_kept g q s₄
                    ∙ (sym (ap (λ p. content q p.1) synced) ∙ disk.sync_kept g q s₃)))) in
      (
        last dst ∙ disk.copied src dst f g s s₁ s₂ s₃ apart opened made written,
        λ q other.
            last q
            ∙ (sym (ap (λ p. content q p.1) written)
                ∙ (disk.copy_kept dst q f g s₁ s₂ other made
                    ∙ (sym (ap (λ p. content q p.1) made)
                        ∙ (disk.create_kept dst q s₁ other
                            ∙ (sym (ap (λ p. content q p.1) opened)
                                ∙ disk.open_file_kept src q s))))),
      )

  ended : S → Copying files → S
  ended s none = s
  ended s (some (r, t)) = t

  module _ (src dst : Text) (some_dst : dst ≢ [])
      (apart : (m n : Text) → IsPlain m → IsPlain n → join src m ≢ join dst n) where
    others_apart :
        (name : Text) (entries : List (Text × Bool))
        → IsPlain name
        → All (λ e. e.0 ≢ name) entries
        → FlatNames entries
        → All (λ e. join dst name ≢ join dst e.0) entries
    others_apart name [] plain others flat = tt
    others_apart name ((m, d) ∷ entries) plain (other, others) (_, plain', _, flat) = (
      λ same. other (sym (join-injective dst name m some_dst plain plain' same)),
      others_apart name entries plain others flat,
    )

    sources_kept :
        (s t : S) (name : Text) (entries : List (Text × Bool)) (s' : S)
        → IsPlain name
        → FlatNames entries
        → FileCopied (join src name) (join dst name) s t
        → All (λ e. content (join dst e.0) s' ≡ content (join src e.0) t) entries
        → All (λ e. content (join dst e.0) s' ≡ content (join src e.0) s) entries
    sources_kept s t name [] s' plain flat copied h = tt
    sources_kept s t name ((m, d) ∷ entries) s' plain (_, plain', _, flat) copied (here, rest) = (
      here ∙ copied.1 (join src m) (apart m name plain' plain),
      sources_kept s t name entries s' plain flat copied rest,
    )

    copy_entries-AllCopied :
        (visit : Text → Text → S → Copying files) (entries : List (Text × Bool)) (s s' : S)
        → FlatNames entries
        → copy_entries files visit src dst entries s ≡ some (ok tt, s')
        → AllCopied content src dst entries s s'
    unfolding copy_entries ended
    copy_entries-AllCopied visit [] s s' flat e =
        let same : s ≡ s' = ap (ended s) e in (tt, λ q h. ap (content q) (sym same))
    copy_entries-AllCopied visit ((name, is_dir) ∷ entries) s s' (file, plain, others, flat) e =
        let (t, copied, rest) = first (copy_file files (join src name) (join dst name) s) refl (
          subst
            (λ d.
              copy_next files (copy_entries files visit src dst entries)
                (copy_entry files visit d (join src name) (join dst name) s)
              ≡ some (ok tt, s'))
            file e) in
        let one =
          copy_file-FileCopied (join src name) (join dst name) s t (apart name name plain plain)
            copied in
        let (all, kept) = copy_entries-AllCopied visit entries t s' flat rest in
        (
          (
            kept (join dst name) (others_apart name entries plain others flat) ∙ one.0,
            sources_kept s t name entries s' plain flat one all,
          ),
          λ q (here, there). kept q there ∙ one.1 q here,
        )
      where
        first :
            (p : Result (Unit {0}) × S)
            → copy_file files (join src name) (join dst name) s ≡ p
            → copy_next files (copy_entries files visit src dst entries) (some p) ≡ some (ok tt, s')
            → (t : S) × (copy_file files (join src name) (join dst name) s ≡ (ok tt, t))
              × (copy_entries files visit src dst entries t ≡ some (ok tt, s'))
        first (ok _, t) at e = (t, at, e)
        first (err m, t) at e = ground arith

-- A directory without subdirectories is copied as a whole: where a copy of it ends without an error,
-- each of its files has its content at the destination, and no other file is changed. The
-- destination has a path, no path of a plain name in it is one in the source, and the directory's
-- names are plain and different, as those that are read from a disk are.
pub copy_directory-AllCopied :
    {File S : Type 0} (files : Files File S) (content : Text → S → Option Text)
    (disk : IsDisk files content) (fuel : ℕ) (src dst : Text) (entries : List (Text × Bool))
    (s s' : S)
    → dst ≢ []
    → ((m n : Text) → IsPlain m → IsPlain n → join src m ≢ join dst n)
    → files.read_dir src s ≡ ok entries
    → FlatNames entries
    → copy_directory files fuel src dst s ≡ some (ok tt, s')
    → AllCopied content src dst entries s s'
unfolding copy_directory
copy_directory-AllCopied files content disk zero src dst entries s s' some_dst apart listed flat e =
    ground arith
copy_directory-AllCopied files content disk (suc fuel) src dst entries s s' some_dst apart listed
      flat e =
    copy_entries-AllCopied files content disk src dst some_dst apart (copy_directory files fuel)
      entries s s' flat
      (subst (λ r. with_entries files (copy_directory files fuel) src dst r s ≡ some (ok tt, s'))
        listed e)
