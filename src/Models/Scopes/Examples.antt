-- ===== src/Models/Scopes/Examples.antt =====
-- The column of scopes, at concrete scopes.
use gafaelfawr.Prelude.{String, ◌≡◌, refl, List, [], ◌∷◌, contains, All, string_eq, ==_false→≢}
use gafaelfawr.Prelude.Text.{has_char, char_eq}
use gafaelfawr.Models.Scopes.{normalize_scopes, join_scopes, sorted}
use gafaelfawr.Models.Scopes.Roundtrip.{IsScope, normalize_scopes-join_scopes}

abbrev scopes : List String
scopes = "user:token" ∷ "read:all" ∷ []

are_scopes : All IsScope scopes
unfolding string_eq has_char char_eq
are_scopes = ((==_false→≢ "user:token" "" refl, refl), ((==_false→≢ "read:all" "" refl, refl), tt))

normalize_scopes-join_scopes_example :
    (normalize_scopes (join_scopes scopes) ≡ sorted scopes)
    × ((a : String) → contains (sorted scopes) a ≡ contains scopes a)
normalize_scopes-join_scopes_example = normalize_scopes-join_scopes scopes are_scopes
