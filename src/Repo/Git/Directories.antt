-- ===== src/Repo/Git/Directories.antt =====
-- The directories that repositories are cloned into.
use treenq.Base.{
  ℕ, ◌<◌, ◌^◌, Bool, true, false, Bool-cases, List, [], ◌∷◌, ◌++◌, append_assoc, Text, ◌==◌, Lacks,
  ◌≡◌, ◌≢◌, refl, sym, ap, ◌∙◌, inl, inr, ok, arith, All,
}
use treenq.Go.{pos, split, atoi}
use treenq.Go.Decimal.{
  itoa, itoa-IsDigit, itoa-ne-nil, IsDigit, atoi-itoa, split-append, split-last,
}
use treenq.Go.Path.{resolve, visit, slashed, clean, or_dot, join_all}
use treenq.Go.Path.Plain.{split-at, IsPlain, dirs, clean-rooted, clean-relative}
use treenq.Repo.Git.{clone_dir}
use mathlib.Core.List.{
  reverse, reverse_aux-eq, append_cancel_left, head-eq_of_cons-eq, tail-eq_of_cons-eq,
}

resolve-IsPlain :
    (rooted : Bool) (parts stack : List Text)
    → (stack' : List Text) × ((a b : Text)
        → IsPlain a
        → IsPlain b
        → resolve rooted stack (parts ++ a ∷ b ∷ []) ≡ reverse (b ∷ a ∷ stack'))
unfolding resolve
resolve-IsPlain rooted [] stack =
    (stack, λ a b (a₁, a₂, a₃, _) (b₁, b₂, b₃, _). rw (a₁, a₂, a₃, b₁, b₂, b₃) refl)
resolve-IsPlain rooted (p ∷ ps) stack = resolve-IsPlain rooted ps (visit rooted stack p)

slashed-pair :
    (xs : List Text) (a b : Text) → slashed (xs ++ a ∷ b ∷ []) ≡ dirs xs ++ (a ++ b'/' ∷ b)
slashed-pair [] a b = refl
slashed-pair (x ∷ []) a b = sym (append_assoc x (b'/' ∷ []) (a ++ b'/' ∷ b))
slashed-pair (x ∷ y ∷ ys) a b =
    ap (λ t. x ++ b'/' ∷ t) (slashed-pair (y ∷ ys) a b)
    ∙ sym (append_assoc x (b'/' ∷ dirs (y ∷ ys)) (a ++ b'/' ∷ b))

-- What stands before two plain parts does not depend on them.
abbrev Fixed : (Text → Text → Text) → Type 0
Fixed path =
    (before : Text) × ((a b : Text) → IsPlain a → IsPlain b → path a b ≡ before ++ (a ++ b'/' ∷ b))

resolved :
    (rooted : Bool) (parts : List Text)
    → Fixed (λ a b. slashed (resolve rooted [] (parts ++ a ∷ b ∷ [])))
resolved rooted parts =
    let (stack, same) = resolve-IsPlain rooted parts [] in
    (
      dirs (reverse stack),
      λ a b pa pb.
          ap slashed (same a b pa pb ∙ reverse_aux-eq stack (a ∷ b ∷ []))
          ∙ slashed-pair (reverse stack) a b,
    )

split-pair :
    (p a b : Text)
    → IsPlain a
    → IsPlain b
    → split (p ++ b'/' ∷ (a ++ b'/' ∷ b)) b'/' ≡ split p b'/' ++ a ∷ b ∷ []
split-pair p a b (_, _, _, la) (_, _, _, lb) =
    split-at p (a ++ b'/' ∷ b) b'/'
    ∙ ap (λ ps. split p b'/' ++ ps)
        (split-append a b b'/' la ∙ ap (λ ps. a ∷ ps) (split-last b b'/' lb))

or_dot-pair : (p a b : Text) → or_dot (p ++ (a ++ b'/' ∷ b)) ≡ p ++ (a ++ b'/' ∷ b)
or_dot-pair [] [] b = refl
or_dot-pair [] (c ∷ a) b = refl
or_dot-pair (c ∷ p) a b = refl

cleaned : (p : Text) → p ≢ [] → Fixed (λ a b. clean (p ++ b'/' ∷ (a ++ b'/' ∷ b)))
cleaned [] h = absurd (h refl)
cleaned (c ∷ p) h = elim (Bool-cases (c == b'/')) [
  | inl rooted ↦
      let (before, same) = resolved true (split p b'/') in
      (
        b'/' ∷ before,
        λ a b pa pb.
            clean-rooted c (p ++ b'/' ∷ (a ++ b'/' ∷ b)) rooted
            ∙ ap (λ t. b'/' ∷ t)
                (ap (λ parts. slashed (resolve true [] parts)) (split-pair p a b pa pb)
                  ∙ same a b pa pb),
      )
  | inr relative ↦
      let (before, same) = resolved false (split (c ∷ p) b'/') in
      (
        before,
        λ a b pa pb.
            clean-relative c (p ++ b'/' ∷ (a ++ b'/' ∷ b)) relative
            ∙ (ap (λ parts. or_dot (slashed (resolve false [] parts)))
                  (split-pair (c ∷ p) a b pa pb)
                ∙ (ap or_dot (same a b pa pb) ∙ or_dot-pair before a b)),
      )
]

joined : (dir : Text) → Fixed (λ a b. join_all (dir ∷ a ∷ b ∷ []))
unfolding join_all
joined [] =
    let (before, same) = resolved false [] in
    (before, λ a b pa pb. relative a b before pa pb (same a b pa pb))
  where
    relative :
        (a b before : Text)
        → IsPlain a
        → IsPlain b
        → slashed (resolve false [] (a ∷ b ∷ [])) ≡ before ++ (a ++ b'/' ∷ b)
        → join_all (a ∷ b ∷ []) ≡ before ++ (a ++ b'/' ∷ b)
    relative [] b before (some_part, _, _, _) pb same = ground arith
    relative (c ∷ a) b before (_, _, _, (apart, la)) (_, _, _, lb) same =
        clean-relative c (a ++ b'/' ∷ b) (ground arith)
        ∙ (ap (λ ps. or_dot (slashed (resolve false [] ps)))
              (split-append (c ∷ a) b b'/' (apart, la)
                ∙ ap (λ ps. (c ∷ a) ∷ ps) (split-last b b'/' lb))
            ∙ (ap or_dot same ∙ or_dot-pair before (c ∷ a) b))
joined (c ∷ dir) = cleaned (c ∷ dir) (λ e. ground arith)

itoa-IsPlain : (n : ℕ) → IsPlain (itoa (pos n))
itoa-IsPlain n = plain (itoa (pos n)) (itoa-ne-nil n) (itoa-IsDigit n)
  where
    lacks : (s : Text) → All IsDigit s → Lacks b'/' s
    lacks [] h = tt
    lacks (c ∷ s) (d, h) = (omega arith, lacks s h)

    plain : (s : Text) → s ≢ [] → All IsDigit s → IsPlain s
    plain [] some_digit h = absurd (some_digit refl)
    plain (c ∷ s) _ (d, h) = (refl, ground arith, ground arith, lacks (c ∷ s) (d, h))

itoa-injective : (m n : ℕ) → m < 2 ^ 63 → n < 2 ^ 63 → itoa (pos m) ≡ itoa (pos n) → m ≡ n
itoa-injective m n hm hn e =
    let same : ok (pos m) ≡ ok (pos n) = sym (atoi-itoa m hm) ∙ (ap atoi e ∙ atoi-itoa n hn) in
    ground arith

-- No two repositories share a directory: whatever the directory for clones is, also a relative or
-- an empty one or one with "." and ".." in it, two clones with the same path are of the same
-- installation and the same repository, for identifiers that are not negative and fit an int.
pub clone_dir-injective :
    (dir : Text) (i r j q : ℕ)
    → i < 2 ^ 63
    → r < 2 ^ 63
    → j < 2 ^ 63
    → q < 2 ^ 63
    → clone_dir dir (pos i) (pos r) ≡ clone_dir dir (pos j) (pos q)
    → (i ≡ j) × (r ≡ q)
unfolding clone_dir
clone_dir-injective dir i r j q hi hr hj hq e =
    let (before, path) = joined dir in
    let pi = itoa-IsPlain i in
    let pr = itoa-IsPlain r in
    let pj = itoa-IsPlain j in
    let pq = itoa-IsPlain q in
    let tails = append_cancel_left before _ _ (
      sym (path (itoa (pos i)) (itoa (pos r)) pi pr)
      ∙ (e ∙ path (itoa (pos j)) (itoa (pos q)) pj pq)) in
    let parts : itoa (pos i) ∷ itoa (pos r) ∷ [] ≡ itoa (pos j) ∷ itoa (pos q) ∷ [] =
      sym (two (itoa (pos i)) (itoa (pos r)) pi pr)
      ∙ (ap (λ t. split t b'/') tails ∙ two (itoa (pos j)) (itoa (pos q)) pj pq) in
    (
      itoa-injective i j hi hj (head-eq_of_cons-eq parts),
      itoa-injective r q hr hq (head-eq_of_cons-eq (tail-eq_of_cons-eq parts)),
    )
  where
    two : (a b : Text) → IsPlain a → IsPlain b → split (a ++ b'/' ∷ b) b'/' ≡ a ∷ b ∷ []
    two a b (_, _, _, la) (_, _, _, lb) =
        split-append a b b'/' la ∙ ap (λ ps. a ∷ ps) (split-last b b'/' lb)
