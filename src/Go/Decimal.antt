-- ===== src/Go/Decimal.antt =====
-- `strconv.Itoa`, and what `strconv.Atoi` reads back. An `int` of 64 bits has at most 19 digits.
use treenq.Base.{
  ℕ, zero, suc, ◌+◌, ◌-◌, ◌*◌, ◌/◌, ◌%◌, ◌^◌, ◌≤◌, ◌<◌, List, [], ◌∷◌, ◌++◌, Text, ltb, Lacks,
  if◌then◌else◌, ◌==◌, Result, ok, err, All, All-append, false, Bool-cases, ◌≡◌, ◌≢◌, inl, inr,
  refl, ◌∙◌, arith,
}
use treenq.Go.{ℤ, pos, negsuc, atoi, scan_digits, signed, unsigned_part, split, push_head}

-- The decimal digits of a number below 10 ^ count.
unfoldable digits : ℕ → ℕ → Text
digits zero n = []
digits (suc count) n =
    let rest = digits count (n / 10) in
    if ltb n 10 then (b'0' + n) ∷ [] else rest ++ (b'0' + n % 10) ∷ []

unfoldable pub itoa : ℤ → Text
unfolding digits
itoa (pos n) = digits 19 n
itoa (negsuc n) = b'-' ∷ digits 19 (n + 1)

abbrev pub IsDigit : ℕ → Type 0
IsDigit c = (b'0' ≤ c) × (c ≤ b'9')

digits-IsDigit : (count n : ℕ) → All IsDigit (digits count n)
unfolding digits
digits-IsDigit zero n = tt
digits-IsDigit (suc count) n = elim (Bool-cases (ltb n 10)) [
  | inl small ↦ rw small ground arith
  | inr large ↦
      rw large
        (All-append IsDigit (digits count (n / 10)) _ (digits-IsDigit count (n / 10)) ground arith)
]

scan_digits-snoc :
    (m v c : ℕ) (s : Text)
    → scan_digits m s ≡ ok v
    → scan_digits m (s ++ c ∷ []) ≡ scan_digits v (c ∷ [])
unfolding scan_digits
scan_digits-snoc m v c [] e = ground arith
scan_digits-snoc m v c (d ∷ s) e = ground (arith, scan_digits-snoc (m * 10 + (d - b'0')) v c s)

scan_digits-digits :
    (count n : ℕ) → n < 10 ^ count → n < 2 ^ 63 → scan_digits 0 (digits count n) ≡ ok n
unfolding digits scan_digits
scan_digits-digits zero n h k = ground arith
scan_digits-digits (suc count) n h k = elim (Bool-cases (ltb n 10)) [
  | inl small ↦ rw small ground arith
  | inr large ↦
      let tens : n / 10 < 10 ^ count = omega arith in
      let fits : n / 10 < 2 ^ 63 = omega arith in
      rw
        (
          large,
          scan_digits-snoc 0 (n / 10) (b'0' + n % 10) (digits count (n / 10))
              (scan_digits-digits count (n / 10) tens fits),
        )
        (ground arith)
]

-- A decimal text has no sign.
IsDigit-Lacks : (s : Text) → All IsDigit s → Lacks b'-' s
IsDigit-Lacks [] h = tt
IsDigit-Lacks (c ∷ s) (d, h) = (omega arith, IsDigit-Lacks s h)

pub itoa-Lacks : (n : ℕ) → Lacks b'-' (itoa (pos n))
unfolding itoa
itoa-Lacks n = IsDigit-Lacks (digits 19 n) (digits-IsDigit 19 n)

unsigned :
    (s : Text) {n : ℕ}
    → s ≢ []
    → All IsDigit s
    → scan_digits 0 s ≡ ok n
    → atoi s ≡ signed false (ok n)
unfolding atoi
unsigned [] h _ e = absurd (h refl)
unsigned (c ∷ s) h (d, _) e = ground arith

snoc-ne-nil : (s : Text) (c : ℕ) → s ++ c ∷ [] ≢ []
snoc-ne-nil [] c e = ground arith
snoc-ne-nil (d ∷ s) c e = ground arith

digits-ne-nil : (count n : ℕ) → digits (suc count) n ≢ []
unfolding digits
digits-ne-nil count n = elim (Bool-cases (ltb n 10)) [
  | inl small ↦ rw small (λ e. ground arith)
  | inr large ↦ rw large (snoc-ne-nil (digits count (n / 10)) (b'0' + n % 10))
]

pub itoa-IsDigit : (n : ℕ) → All IsDigit (itoa (pos n))
unfolding itoa
itoa-IsDigit n = digits-IsDigit 19 n

pub itoa-ne-nil : (n : ℕ) → itoa (pos n) ≢ []
unfolding itoa
itoa-ne-nil n = digits-ne-nil 18 n

pub atoi-itoa : (n : ℕ) → n < 2 ^ 63 → atoi (itoa (pos n)) ≡ ok (pos n)
unfolding itoa
atoi-itoa n h =
    unsigned (digits 19 n) (digits-ne-nil 18 n) (digits-IsDigit 19 n)
      (scan_digits-digits 19 n (omega arith) h)
    ∙ (ground arith)

signed-pos : (r : Result ℕ) {z : ℤ} → signed false r ≡ ok z → (n : ℕ) × (z ≡ pos n) × (n < 2 ^ 63)
signed-pos (err m) e = ground arith
signed-pos (ok n) e = (n, ground arith, ground arith)

-- What is read without a sign is a number below 2 ^ 63.
pub atoi-Lacks :
    (s : Text) {z : ℤ} → Lacks b'-' s → atoi s ≡ ok z → (n : ℕ) × (z ≡ pos n) × (n < 2 ^ 63)
unfolding atoi
atoi-Lacks [] h e = ground arith
atoi-Lacks (c ∷ s) h e = elim (Bool-cases (c == b'+')) [
  | inl plus ↦ signed-pos (unsigned_part s) (ground arith)
  | inr other ↦ signed-pos (unsigned_part (c ∷ s)) (ground arith)
]

push_head-Lacks :
    (c sep : ℕ) (parts : List Text)
    → c ≢ sep
    → All (Lacks sep) parts
    → All (Lacks sep) (push_head c parts)
push_head-Lacks c sep [] h k = ((h, tt), tt)
push_head-Lacks c sep (p ∷ ps) h (k, ks) = ((h, k), ks)

pub split-Lacks : (s : Text) (sep : ℕ) → All (Lacks sep) (split s sep)
unfolding split
split-Lacks [] sep = (tt, tt)
split-Lacks (c ∷ s) sep = elim (Bool-cases (c == sep)) [
  | inl same ↦ rw same (tt, split-Lacks s sep)
  | inr apart ↦ rw apart (push_head-Lacks c sep (split s sep) (ground arith) (split-Lacks s sep))
]

pub split-append : (p s : Text) (sep : ℕ) → Lacks sep p → split (p ++ sep ∷ s) sep ≡ p ∷ split s sep
unfolding split
split-append [] s sep h = ground arith
split-append (c ∷ p) s sep (h, hs) = rw (split-append p s sep hs) (ground arith)

pub split-last : (p : Text) (sep : ℕ) → Lacks sep p → split p sep ≡ p ∷ []
unfolding split
split-last [] sep h = refl
split-last (c ∷ p) sep (h, hs) = rw (split-last p sep hs) (ground arith)
