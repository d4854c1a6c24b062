-- ===== src/Go/Utf8.antt =====
-- Which texts are valid UTF-8, as `utf8.ValidString` tells: those that encoding/json writes and reads
-- back as they are.
use treenq.Base.{
  ℕ, zero, suc, Bool, true, false, ◌&&◌, leb, ltb, [], ◌∷◌, Text, if◌then◌else◌, ◌==◌, ◌≡◌,
}

-- What may come next: a first byte, or so many more bytes, the next of which is between two bounds.
pub data Expected : Type 0 where
  first : Expected
  more : ℕ → ℕ → ℕ → Expected
  never : Expected

abbrev from_first : ℕ → Expected
from_first c =
    if ltb c 128
    then first
    else if leb 194 c && leb c 223
    then more 0 128 191
    else if c == 224
    then more 1 160 191
    else if c == 237
    then more 1 128 159
    else if leb 225 c && leb c 239
    then more 1 128 191
    else if c == 240
    then more 2 144 191
    else if leb 241 c && leb c 243
    then more 2 128 191
    else if c == 244
    then more 2 128 143
    else never

abbrev next : Expected → ℕ → Expected
next first c = from_first c
next (more zero low high) c = if leb low c && leb c high then first else never
next (more (suc n) low high) c = if leb low c && leb c high then more n 128 191 else never
next never c = never

abbrev is_complete : Expected → Bool
is_complete first = true
is_complete _ = false

unfoldable pub utf8_from : Expected → Text → Bool
utf8_from e [] = is_complete e
utf8_from e (c ∷ s) = utf8_from (next e c) s

abbrev pub IsUtf8 : Text → Type 0
IsUtf8 t = utf8_from first t ≡ true
