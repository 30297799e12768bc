-- ===== src/Models/Scopes.antt =====
-- Scope lists and the column that holds them: `",".join(sorted(scopes))` and `normalize_scopes`
-- of src/gafaelfawr/util.py.
pub mod Roundtrip
mod Examples
use Prim.Native.Char.{Char}
use Prim.Native.String.{compare}
use Prim.Native.Nat.{Ordering}
use gafaelfawr.Prelude.{
  String, ◌<>◌, Bool, true, false, List, [], ◌∷◌, contains, string_eq, Eq, ◌==◌, if◌then◌else◌,
}
use gafaelfawr.Prelude.Text.{char_eq}

-- Python compares texts by code points.
abbrev pub text_le : String → String → Bool
text_le s t = elim (compare s t) [ Ordering.gt ↦ false | _ ↦ true ]

unfoldable pub insert : String → List String → List String
insert x [] = x ∷ []
insert x (y ∷ ys) = if text_le x y then x ∷ y ∷ ys else y ∷ insert x ys

-- `sorted(xs)`
unfoldable pub sorted : List String → List String
unfolding insert
sorted [] = []
sorted (x ∷ xs) = insert x (sorted xs)

-- `",".join(xs)`
unfoldable pub join : List String → String
join [] = ""
join (x ∷ []) = x
join (x ∷ y ∷ ys) = x <> ("," <> join (y ∷ ys))

abbrev pub comma : Char
comma = ","

-- The pieces of `s.split(",")`: the first one and the others.
unfoldable pub split_commas : String → String × List String
split_commas String.[] = ("", [])
split_commas (String.◌∷◌ c s) =
    let (x, xs) = split_commas s in if c == comma then ("", x ∷ xs) else (String.◌∷◌ c x, xs)

unfoldable pub normalize_scopes : String → List String
unfolding split_commas
normalize_scopes String.[] = []
normalize_scopes (String.◌∷◌ c s) = let (x, xs) = split_commas (String.◌∷◌ c s) in x ∷ xs

-- `",".join(sorted(scopes))`
unfoldable pub join_scopes : List String → String
join_scopes scopes = join (sorted scopes)

-- `set(xs)`
unfoldable pub to_set : List String → List String
to_set [] = []
to_set (x ∷ xs) = let rest = to_set xs in if contains rest x then rest else x ∷ rest
