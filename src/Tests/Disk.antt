-- ===== src/Tests/Disk.antt =====
-- A copy of a directory on a disk that is a function of paths.
use treenq.Base.{
  true, false, [], ◌∷◌, Text, bytes, text_eq, text_eq_iff, text_eq_refl, Option, none, some, Result,
  ok, err, if◌then◌else◌, ◌≡◌, ◌≢◌, ◌++◌, refl, sym, ap, subst, ◌∙◌, arith,
}
use treenq.Go.{split}
use treenq.Go.Path.{join, resolve, slashed}
use treenq.Go.Path.Plain.{IsPlain, clean-rooted, split-part}
use treenq.Repo.Extract.Copy.{Files, copy_directory, copy_file, copy_entries, closing}
use treenq.Repo.Extract.Copied.{IsDisk, AllCopied, copy_directory-AllCopied}

abbrev Disk : Type 0
Disk = Text → Option Text

abbrev put : Text → Option Text → Disk → Disk
put p v d q = if text_eq q p then v else d q

put_self : (p : Text) (v : Option Text) (d : Disk) → put p v d p ≡ v
put_self p v d = rw (text_eq_refl p) refl

put_other : (p q : Text) (v : Option Text) (d : Disk) → q ≢ p → put p v d q ≡ d q
put_other p q v d other = ground (arith, text_eq_iff q p)

abbrev disk_files : Files Text Disk
disk_files = record {
  read_dir = λ path d. ok ((bytes "main.go", false) ∷ (bytes "go.mod", false) ∷ []);
  open_file = λ path d. (ok path, d);
  create = λ path d. (ok path, put path (some []) d);
  copy = λ dst src d. (ok tt, put dst (d src) d);
  sync = λ f d. (ok tt, d);
  close = λ f d. d;
}

abbrev content : Text → Disk → Option Text
content path d = d path

value_or : Text → Result Text → Text
value_or t (ok f) = f
value_or t (err _) = t

copied_lem :
    (src dst : Text) (f g : Text) (s s₁ s₂ s₃ : Disk)
    → src ≢ dst
    → disk_files.open_file src s ≡ (ok f, s₁)
    → disk_files.create dst s₁ ≡ (ok g, s₂)
    → disk_files.copy g f s₂ ≡ (ok tt, s₃)
    → s₃ dst ≡ s src
unfolding value_or
copied_lem src dst f g s s₁ s₂ s₃ apart opened made written =
    let from : src ≡ f = ap (λ p. value_or src p.0) opened in
    let into : dst ≡ g = ap (λ p. value_or dst p.0) made in
    ap (λ p. p.1 dst) (sym written)
    ∙ (subst (λ x. put x (s₂ f) s₂ dst ≡ s₂ f) into (put_self dst (s₂ f) s₂)
        ∙ (ap s₂ (sym from)
            ∙ (ap (λ p. p.1 src) (sym made)
                ∙ (put_other dst src (some []) s₁ apart ∙ ap (λ p. p.1 src) (sym opened)))))

disk : IsDisk disk_files content
unfolding value_or
disk = record {
  open_file_kept = λ p q s. refl;
  create_kept = λ p q s other. put_other p q (some []) s other;
  copied = copied_lem;
  copy_kept = λ dst q f g s s₁ other made.
      let into : dst ≡ g = ap (λ p. value_or dst p.0) made in
      put_other g q (s₁ f) s₁ (subst (λ x. q ≢ x) into other);
  sync_kept = λ f q s. refl;
  close_kept = λ f q s. refl;
}

abbrev before : Disk
before path =
    if text_eq path (bytes "/gits/7/1/tq/main.go")
    then some (bytes "package tq")
    else if text_eq path (bytes "/gits/7/1/tq/go.mod")
    then some (bytes "module tq")
    else none

abbrev from_dir : Text
from_dir = bytes "/gits/7/1/tq"

abbrev into_dir : Text
into_dir = bytes "/builder/b1/tq"

abbrev main_go : Text
main_go = bytes "main.go"

abbrev go_mod : Text
go_mod = bytes "go.mod"

abbrev after : Disk
after =
    let first = put (join into_dir main_go) (some []) before in
    let second = put (join into_dir main_go) (first (join from_dir main_go)) first in
    let third = put (join into_dir go_mod) (some []) second in
    put (join into_dir go_mod) (third (join from_dir go_mod)) third

copied_run : copy_directory disk_files 1 from_dir into_dir before ≡ some (ok tt, after)
unfolding copy_directory copy_entries copy_file closing
copied_run = refl

join_from : (m : Text) → IsPlain m → join from_dir m ≡ bytes "/gits/7/1/tq/" ++ m
unfolding join resolve split
join_from m pm =
    let (a, b, c, _) = pm in
    clean-rooted b'/' (bytes "gits/7/1/tq/" ++ m) refl
    ∙ (ap (λ parts. b'/' ∷ slashed (resolve true [] parts)) (split-part (bytes "gits/7/1/tq") m pm)
        ∙ (rw (a, b, c) refl))

join_into : (m : Text) → IsPlain m → join into_dir m ≡ bytes "/builder/b1/tq/" ++ m
unfolding join resolve split
join_into m pm =
    let (a, b, c, _) = pm in
    clean-rooted b'/' (bytes "builder/b1/tq/" ++ m) refl
    ∙ (ap (λ parts. b'/' ∷ slashed (resolve true [] parts))
          (split-part (bytes "builder/b1/tq") m pm)
        ∙ (rw (a, b, c) refl))

apart : (m n : Text) → IsPlain m → IsPlain n → join from_dir m ≢ join into_dir n
apart m n pm pn e =
    let same : bytes "/gits/7/1/tq/" ++ m ≡ bytes "/builder/b1/tq/" ++ n =
      sym (join_from m pm) ∙ (e ∙ join_into n pn) in
    ground arith

copy_directory-AllCopied_example :
    AllCopied content from_dir into_dir ((main_go, false) ∷ (go_mod, false) ∷ []) before after
copy_directory-AllCopied_example =
    copy_directory-AllCopied disk_files content disk 1 from_dir into_dir
      ((main_go, false) ∷ (go_mod, false) ∷ []) before after (λ e. ground arith) apart refl
      (
        refl,
        (refl, refl, refl, omega arith),
        ((λ same. ground arith), tt),
        (refl, (refl, refl, refl, omega arith), tt, tt),
      )
      copied_run
