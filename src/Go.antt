-- ===== src/Go.antt =====
-- What the program uses of Go's standard library on strings and numbers: `strings.Split` with a
-- separator of one byte, and `strconv.Atoi`. An `int` has 64 bits.
pub mod Utf8
pub mod Path
pub mod Prefix
pub mod Decimal
use mathlib.Core.List.{reverse}
use treenq.Base.{
  ℕ, zero, suc, ◌+◌, ◌-◌, ◌*◌, ◌/◌, ◌%◌, ◌^◌, Bool, true, false, ◌&&◌, ◌||◌, List, [], ◌∷◌, Text,
  bytes, ltb, leb, ◌==◌, length, if◌then◌else◌, Result, ok, err, Option, none, some,
}

-- A Go `int`; `negsuc n` is -(n + 1).
pub data ℤ : Type 0 where
  pos : ℕ → ℤ
  negsuc : ℕ → ℤ

-- `strings.Split(s, sep)` for a separator of one byte.
abbrev pub push_head : ℕ → List Text → List Text
push_head c [] = (c ∷ []) ∷ []
push_head c (p ∷ ps) = (c ∷ p) ∷ ps

unfoldable pub split : Text → ℕ → List Text
split [] sep = [] ∷ []
split (c ∷ s) sep = let rest = split s sep in if c == sep then [] ∷ rest else push_head c rest

-- `strings.Split` for a longer separator: behind one that is found, its other bytes are skipped.
abbrev pub starts_with : Text → Text → Bool
starts_with s [] = true
starts_with [] (p ∷ prefix) = false
starts_with (c ∷ s) (p ∷ prefix) = c == p && starts_with s prefix

unfoldable pub split_text : Text → ℕ → Text → List Text
split_text sep skip [] = [] ∷ []
split_text sep (suc skip) (c ∷ s) = split_text sep skip s
split_text sep zero (c ∷ s) =
    let found = starts_with (c ∷ s) sep in
    let rest = split_text sep (if found then length sep - 1 else 0) s in
    if found then [] ∷ rest else push_head c rest

abbrev pub is_digit : ℕ → Bool
is_digit c = leb b'0' c && leb c b'9'

abbrev pub syntax_error : Text
syntax_error = bytes "invalid syntax"

abbrev pub range_error : Text
range_error = bytes "value out of range"

-- The loop of `strconv.ParseUint` in base 10, behind the value read so far.
unfoldable pub scan_digits : ℕ → Text → Result ℕ
scan_digits n [] = ok n
scan_digits n (c ∷ s) =
    let m = n * 10 + (c - b'0') in
    let rest = scan_digits m s in
    if is_digit c then (if ltb m (2 ^ 64) then rest else err range_error) else err syntax_error

abbrev pub max_int : ℕ
max_int = 2 ^ 63 - 1

abbrev pub signed : Bool → Result ℕ → Result ℤ
signed negative (err e) = err e
signed false (ok n) = if leb n max_int then ok (pos n) else err range_error
signed true (ok zero) = ok (pos 0)
signed true (ok (suc n)) = if leb n max_int then ok (negsuc n) else err range_error

abbrev pub unsigned_part : Text → Result ℕ
unsigned_part [] = err syntax_error
unsigned_part (c ∷ s) = scan_digits 0 (c ∷ s)

-- `strconv.Atoi`; the error's text is the `Err` part of Go's `NumError`.
unfoldable pub atoi : Text → Result ℤ
unfolding scan_digits
atoi [] = err syntax_error
atoi (c ∷ s) =
    if c == b'-'
    then signed true (unsigned_part s)
    else if c == b'+'
    then signed false (unsigned_part s)
    else signed false (unsigned_part (c ∷ s))

-- `strings.CutPrefix`: the rest of the text behind the prefix, if it starts with that.
unfoldable pub cut_prefix : Text → Text → Option Text
cut_prefix s [] = some s
cut_prefix [] (p ∷ prefix) = none
cut_prefix (c ∷ s) (p ∷ prefix) = let rest = cut_prefix s prefix in if c == p then rest else none

abbrev pub hex_digit : ℕ → ℕ
hex_digit d = if ltb d 10 then b'0' + d else b'a' + (d - 10)

-- `hex.EncodeToString`.
unfoldable pub hex : Text → Text
hex [] = []
hex (c ∷ s) = hex_digit (c / 16) ∷ hex_digit (c % 16) ∷ hex s

-- `strings.TrimSpace` on ASCII.
abbrev is_space : ℕ → Bool
is_space c = c == 32 || leb 9 c && leb c 13

unfoldable pub trim_left : Text → Text
trim_left [] = []
trim_left (c ∷ s) = let rest = trim_left s in if is_space c then rest else c ∷ s

unfoldable pub trim_space : Text → Text
unfolding trim_left
trim_space s = reverse (trim_left (reverse (trim_left s)))
