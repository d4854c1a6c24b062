-- ===== src/Go/Path.antt =====
-- `filepath.Clean` and `filepath.Join` on Unix, which resolve "." and ".." and drop empty parts.
pub mod Plain
use mathlib.Core.List.{reverse}
use treenq.Base.{
  Bool, true, false, List, [], ◌∷◌, ◌++◌, Text, bytes, text_eq, ◌==◌, ◌||◌, if◌then◌else◌,
}
use treenq.Go.{split}

abbrev dot_dot : Text
dot_dot = bytes ".."

-- The stack has its top at the head. At the root ".." is dropped, in a relative path it is kept.
abbrev climb : Bool → List Text → List Text
climb true [] = []
climb false [] = dot_dot ∷ []
climb rooted (top ∷ stack) = if text_eq top dot_dot then dot_dot ∷ top ∷ stack else stack

abbrev pub visit : Bool → List Text → Text → List Text
visit rooted stack part =
    if text_eq part [] || text_eq part (bytes ".")
    then stack
    else if text_eq part dot_dot
    then climb rooted stack
    else part ∷ stack

unfoldable pub resolve : Bool → List Text → List Text → List Text
resolve rooted stack [] = reverse stack
resolve rooted stack (part ∷ parts) = resolve rooted (visit rooted stack part) parts

abbrev pub slashed : List Text → Text
slashed [] = []
slashed (p ∷ []) = p
slashed (p ∷ q ∷ ps) = p ++ b'/' ∷ slashed (q ∷ ps)

abbrev pub or_dot : Text → Text
or_dot [] = bytes "."
or_dot (c ∷ s) = c ∷ s

unfoldable pub clean : Text → Text
unfolding resolve split
clean [] = bytes "."
clean (c ∷ s) =
    if c == b'/'
    then b'/' ∷ slashed (resolve true [] (split s b'/'))
    else or_dot (slashed (resolve false [] (split (c ∷ s) b'/')))

-- `filepath.Join` of two elements; empty ones in front are left out.
unfoldable pub join : Text → Text → Text
unfolding clean
join [] [] = []
join [] (c ∷ s) = clean (c ∷ s)
join (c ∷ s) b = clean ((c ∷ s) ++ b'/' ∷ b)

-- `filepath.Join` of any number of elements.
unfoldable pub join_all : List Text → Text
unfolding clean
join_all [] = []
join_all ([] ∷ parts) = join_all parts
join_all ((c ∷ s) ∷ parts) = clean (slashed ((c ∷ s) ∷ parts))
