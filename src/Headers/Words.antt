-- ===== src/Headers/Words.antt =====
-- Python's `str.strip`, `str.split(None, 1)` and `str.split(":")`, and the tests of a text in
-- lower case, as src/gafaelfawr/auth.py uses them.
use Prim.Native.Char.{Char, code}
use gafaelfawr.Prelude.{
  ℕ, ◌+◌, String, Bool, true, false, ◌&&◌, ◌||◌, Option, none, some, List, [], ◌∷◌, ◌==◌, nat_eq,
  contains, leb, if◌then◌else◌,
}
use gafaelfawr.Prelude.Text.{char_eq}

-- The code points for which `str.isspace` holds and that `strip` and `split` therefore drop.
abbrev spaces : List ℕ
spaces = 32 ∷ 133 ∷ 160 ∷ 5760 ∷ 8232 ∷ 8233 ∷ 8239 ∷ 8287 ∷ 12288 ∷ []

abbrev between : ℕ → ℕ → ℕ → Bool
between low high n = leb low n && leb n high

unfoldable pub is_space : Char → Bool
is_space c =
    between 9 13 (code c)
    || between 28 31 (code c)
    || between 8192 8202 (code c)
    || contains spaces (code c)

-- `s.lstrip()`
unfoldable pub strip_left : String → String
strip_left String.[] = String.[]
strip_left (String.◌∷◌ c s) = let rest = strip_left s in if is_space c then rest else String.◌∷◌ c s

abbrev unless_blank : Char → String → String
unless_blank c String.[] = if is_space c then String.[] else String.◌∷◌ c String.[]
unless_blank c (String.◌∷◌ d s) = String.◌∷◌ c (String.◌∷◌ d s)

-- `s.rstrip()`
unfoldable pub strip_right : String → String
strip_right String.[] = String.[]
strip_right (String.◌∷◌ c s) = unless_blank c (strip_right s)

-- `s.strip()`
unfoldable pub strip : String → String
strip s = strip_right (strip_left s)

-- The text before the first space, and what follows from there.
unfoldable pub first_word : String → String × String
first_word String.[] = (String.[], String.[])
first_word (String.◌∷◌ c s) =
    let (word, rest) = first_word s in
    if is_space c then (String.[], String.◌∷◌ c s) else (String.◌∷◌ c word, rest)

abbrev two_words : String → String → Option (String × String)
two_words word String.[] = none
two_words word (String.◌∷◌ c s) = some (word, String.◌∷◌ c s)

-- `a, b = s.split(None, 1)`, with `none` where that has fewer than two pieces.
unfoldable pub split_word : String → Option (String × String)
split_word s = let (word, rest) = first_word (strip_left s) in two_words word (strip_left rest)

-- The pieces of `s.split(c)`: the first one and the others.
unfoldable pub split_char : Char → String → String × List String
split_char d String.[] = (String.[], [])
split_char d (String.◌∷◌ c s) =
    let (x, xs) = split_char d s in if c == d then (String.[], x ∷ xs) else (String.◌∷◌ c x, xs)

-- A letter that `lower` makes this lower-case ASCII letter.
unfoldable pub lowers_to : Char → Char → Bool
lowers_to c d = c == d || (between 65 90 (code c) && code c + 32 == code d)

-- `s.lower() == word`, for a word of lower-case ASCII letters without `i` before a combining dot
-- and without `k`: no other letters become those.
unfoldable pub lower_is : String → String → Bool
lower_is String.[] String.[] = true
lower_is String.[] (String.◌∷◌ d word) = false
lower_is (String.◌∷◌ c s) String.[] = false
lower_is (String.◌∷◌ c s) (String.◌∷◌ d word) = lowers_to c d && lower_is s word
