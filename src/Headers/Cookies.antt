-- ===== src/Headers/Cookies.antt =====
-- `clean_cookies` of src/gafaelfawr/auth.py.
pub mod Named
pub mod Kept
use Prim.Native.Char.{Char}
use gafaelfawr.Prelude.{
  ℕ, String, ◌<>◌, Bool, true, false, not, ◌&&◌, Option, none, some, List, [], ◌∷◌, ◌++◌, filter,
  ◌==◌, string_eq, if◌then◌else◌,
}
use gafaelfawr.Prelude.Text.{char_eq, starts_with, drop, split_once}

abbrev semicolon : Char
semicolon = ";"

abbrev equals : Char
equals = "="

-- `COOKIE_NAME` of src/gafaelfawr/constants.py
abbrev pub cookie_name : String
cookie_name = "gafaelfawr"

-- Whether a piece behind this character starts behind the separator.
abbrev pub separates : Char → String → Bool
separates c x = c == semicolon && starts_with x " "

unfoldable pub extend : Char → String → List String → String × List String
extend c x xs = if separates c x then ("", drop 1 x ∷ xs) else (String.◌∷◌ c x, xs)

-- The pieces of `header.split("; ")`: the first one and the others. A text starts with a space
-- exactly if its first piece does.
unfoldable pub split_cookies : String → String × List String
split_cookies String.[] = ("", [])
split_cookies (String.◌∷◌ c s) = let (x, xs) = split_cookies s in extend c x xs

abbrev pub pieces : String → List String
pieces header = let (x, xs) = split_cookies header in x ∷ xs

-- `"; ".join(xs)`
unfoldable pub join_cookies : List String → String
join_cookies [] = ""
join_cookies (x ∷ []) = x
join_cookies (x ∷ y ∷ ys) = x <> ("; " <> join_cookies (y ∷ ys))

abbrev pub is_other_name : Option (String × String) → Bool
is_other_name none = true
is_other_name (some (name, value)) = not (name == cookie_name)

-- A piece without `=`, or with another name before it.
unfoldable pub is_kept : String → Bool
is_kept cookie = is_other_name (split_once equals cookie)

-- `if keep: output.append("; ".join(keep))`
unfoldable pub rejoin : List String → List String
rejoin [] = []
rejoin (x ∷ xs) = join_cookies (x ∷ xs) ∷ []

unfoldable pub clean_cookies : List String → List String
clean_cookies [] = []
clean_cookies (header ∷ headers) = rejoin (filter is_kept (pieces header)) ++ clean_cookies headers
