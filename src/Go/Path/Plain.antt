-- ===== src/Go/Path/Plain.antt =====
-- Path parts that `filepath.Join` keeps as they are.
use treenq.Base.{
  ℕ, Bool, true, false, Bool-cases, List, [], ◌∷◌, ◌++◌, append_assoc, Text, bytes, text_eq, ◌==◌,
  Lacks, ◌≡◌, ◌≢◌, refl, sym, ap, ◌∙◌, inl, inr, arith,
}
use treenq.Go.{split, push_head}
use treenq.Go.Decimal.{split-last}
use treenq.Go.Path.{resolve, visit, slashed, clean, or_dot, join}
use mathlib.Core.List.{reverse, reverse_aux-eq, append_cancel_left}

push_head-append :
    (c : ℕ) (ps qs : List Text) → ps ≢ [] → push_head c (ps ++ qs) ≡ push_head c ps ++ qs
push_head-append c [] qs h = absurd (h refl)
push_head-append c (p ∷ ps) qs h = refl

pub split-ne-nil : (s : Text) (sep : ℕ) → split s sep ≢ []
unfolding split
split-ne-nil [] sep = λ e. ground arith
split-ne-nil (c ∷ s) sep = elim (Bool-cases (c == sep)) [
  | inl same ↦ rw same (λ e. ground arith)
  | inr apart ↦ rw apart (push (split s sep))
]
  where
    push : (ps : List Text) → push_head c ps ≢ []
    push [] = λ e. ground arith
    push (p ∷ ps) = λ e. ground arith

pub split-at : (p s : Text) (sep : ℕ) → split (p ++ sep ∷ s) sep ≡ split p sep ++ split s sep
unfolding split
split-at [] s sep = ground arith
split-at (c ∷ p) s sep = elim (Bool-cases (c == sep)) [
  | inl same ↦ rw (same, split-at p s sep) refl
  | inr apart ↦
      rw (apart, split-at p s sep)
        (push_head-append c (split p sep) (split s sep) (split-ne-nil p sep))
]

-- A part that a path keeps as it is.
abbrev pub IsPlain : Text → Type 0
IsPlain part =
    (text_eq part [] ≡ false)
    × (text_eq part (bytes ".") ≡ false)
    × (text_eq part (bytes "..") ≡ false)
    × Lacks b'/' part

-- The text of a path's parts in front of others.
abbrev pub dirs : List Text → Text
dirs [] = []
dirs (x ∷ xs) = x ++ b'/' ∷ dirs xs

pub clean-rooted :
    (c : ℕ) (p : Text)
    → (c == b'/') ≡ true
    → clean (c ∷ p) ≡ b'/' ∷ slashed (resolve true [] (split p b'/'))
unfolding clean
clean-rooted c p h = rw h refl

pub clean-relative :
    (c : ℕ) (p : Text)
    → (c == b'/') ≡ false
    → clean (c ∷ p) ≡ or_dot (slashed (resolve false [] (split (c ∷ p) b'/')))
unfolding clean
clean-relative c p h = rw h refl

resolve_part :
    (rooted : Bool) (parts stack : List Text)
    → (stack' : List Text) × ((a : Text)
        → IsPlain a
        → resolve rooted stack (parts ++ a ∷ []) ≡ reverse (a ∷ stack'))
unfolding resolve
resolve_part rooted [] stack = (stack, λ a (a₁, a₂, a₃, _). rw (a₁, a₂, a₃) refl)
resolve_part rooted (p ∷ ps) stack = resolve_part rooted ps (visit rooted stack p)

slashed-snoc : (xs : List Text) (a : Text) → slashed (xs ++ a ∷ []) ≡ dirs xs ++ a
slashed-snoc [] a = refl
slashed-snoc (x ∷ []) a = sym (append_assoc x (b'/' ∷ []) a)
slashed-snoc (x ∷ y ∷ ys) a =
    ap (λ t. x ++ b'/' ∷ t) (slashed-snoc (y ∷ ys) a)
    ∙ sym (append_assoc x (b'/' ∷ dirs (y ∷ ys)) a)

-- What stands before a plain part does not depend on it.
abbrev Fixed : (Text → Text) → Type 0
Fixed path = (before : Text) × ((a : Text) → IsPlain a → path a ≡ before ++ a)

resolved :
    (rooted : Bool) (parts : List Text) → Fixed (λ a. slashed (resolve rooted [] (parts ++ a ∷ [])))
resolved rooted parts =
    let (stack, same) = resolve_part rooted parts [] in
    (
      dirs (reverse stack),
      λ a pa.
          ap slashed (same a pa ∙ reverse_aux-eq stack (a ∷ [])) ∙ slashed-snoc (reverse stack) a,
    )

or_dot-append : (before a : Text) → IsPlain a → or_dot (before ++ a) ≡ before ++ a
or_dot-append [] [] (some_part, _, _, _) = ground arith
or_dot-append [] (c ∷ a) pa = refl
or_dot-append (c ∷ before) a pa = refl

pub split-part : (p a : Text) → IsPlain a → split (p ++ b'/' ∷ a) b'/' ≡ split p b'/' ++ a ∷ []
split-part p a (_, _, _, la) =
    split-at p a b'/' ∙ ap (λ ps. split p b'/' ++ ps) (split-last a b'/' la)

cleaned : (p : Text) → p ≢ [] → Fixed (λ a. clean (p ++ b'/' ∷ a))
cleaned [] h = absurd (h refl)
cleaned (c ∷ p) h = elim (Bool-cases (c == b'/')) [
  | inl rooted ↦
      let (before, same) = resolved true (split p b'/') in
      (
        b'/' ∷ before,
        λ a pa.
            clean-rooted c (p ++ b'/' ∷ a) rooted
            ∙ ap (λ t. b'/' ∷ t)
                (ap (λ parts. slashed (resolve true [] parts)) (split-part p a pa) ∙ same a pa),
      )
  | inr relative ↦
      let (before, same) = resolved false (split (c ∷ p) b'/') in
      (
        before,
        λ a pa.
            clean-relative c (p ++ b'/' ∷ a) relative
            ∙ (ap (λ parts. or_dot (slashed (resolve false [] parts))) (split-part (c ∷ p) a pa)
                ∙ (ap or_dot (same a pa) ∙ or_dot-append before a pa)),
      )
]

joined : (dir : Text) → dir ≢ [] → Fixed (join dir)
unfolding join
joined [] h = absurd (h refl)
joined (c ∷ dir) h = cleaned (c ∷ dir) h

-- Two plain names in one directory have different paths.
pub join-injective :
    (dir a b : Text) → dir ≢ [] → IsPlain a → IsPlain b → join dir a ≡ join dir b → a ≡ b
join-injective dir a b h pa pb e =
    let (before, same) = joined dir h in
    append_cancel_left before a b (sym (same a pa) ∙ (e ∙ same b pb))
