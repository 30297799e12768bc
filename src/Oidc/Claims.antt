-- ===== src/Oidc/Claims.antt =====
-- Scopes and claims of ID tokens: `OIDCScope` of src/gafaelfawr/models/oidc.py and the parts of
-- `OIDCService` in src/gafaelfawr/services/oidc.py that build and filter claims.
use gafaelfawr.Prelude.{
  ℕ, String, ◌<>◌, Bool, Option, none, some, List, [], ◌∷◌, any, contains, ◌==◌, string_eq,
  if◌then◌else◌,
}
use gafaelfawr.Models.{Group}
use gafaelfawr.Models.Scopes.{sorted}
use gafaelfawr.Headers.Words.{is_space}

pub data OidcScope : Type 0 where
  openid profile email rubin : OidcScope

abbrev pub scope_name : OidcScope → String
scope_name openid = "openid"
scope_name profile = "profile"
scope_name email = "email"
scope_name rubin = "rubin"

-- `cls[scope]`, or `none` for a `KeyError`.
unfoldable pub scope_of : String → Option OidcScope
scope_of name =
    if name == "openid"
    then some openid
    else if name == "profile"
    then some profile
    else if name == "email"
    then some email
    else if name == "rubin"
    then some rubin
    else none

-- `_SCOPE_CLAIMS`
abbrev pub scope_claims : OidcScope → List String
scope_claims openid = "aud" ∷ "iat" ∷ "iss" ∷ "exp" ∷ "jti" ∷ "nonce" ∷ "scope" ∷ "sub" ∷ []
scope_claims profile = "name" ∷ "preferred_username" ∷ []
scope_claims email = "email" ∷ []
scope_claims rubin = "data_rights" ∷ []

pub data Claim : Type 0 where
  text : String → Claim
  number : ℕ → Claim

abbrev pub Payload : Type 0
Payload = List (String × Option Claim)

-- Whether one of the scopes has the claim.
unfoldable pub is_wanted : List OidcScope → String → Bool
is_wanted scopes name = any (λ scope. contains (scope_claims scope) name) scopes

-- `_filter_claims`
unfoldable pub filter_claims : List OidcScope → Payload → List (String × Claim)
filter_claims scopes [] = []
filter_claims scopes ((name, none) ∷ payload) = filter_claims scopes payload
filter_claims scopes ((name, some claim) ∷ payload) =
    let rest = filter_claims scopes payload in
    if is_wanted scopes name then (name, claim) ∷ rest else rest

unfoldable pub get_claim : String → List (String × Claim) → Option Claim
get_claim name [] = none
get_claim name ((other, claim) ∷ claims) =
    if name == other then some claim else get_claim name claims

-- `" ".join(xs)`
unfoldable pub join_words : List String → String
join_words [] = ""
join_words (x ∷ []) = x
join_words (x ∷ y ∷ ys) = x <> (" " <> join_words (y ∷ ys))

-- `releases.update(mapping)`: a set as a list without duplicates.
unfoldable pub update : List String → List String → List String
update releases [] = releases
update releases (x ∷ xs) =
    let more = update releases xs in if contains more x then more else x ∷ more

unfoldable pub releases_of : (String → List String) → List Group → List String
releases_of mapping [] = []
releases_of mapping (group ∷ groups) = update (releases_of mapping groups) (mapping group.name)

-- `_build_data_rights_for_user`
unfoldable pub build_data_rights : (String → List String) → List Group → Option String
build_data_rights mapping [] = none
build_data_rights mapping (group ∷ groups) =
    some (join_words (sorted (releases_of mapping (group ∷ groups))))

abbrev unless_empty : String → List String → List String
unless_empty x xs = if x == "" then xs else x ∷ xs

-- The first word and the others, where the first is empty if the text starts with a space.
unfoldable pub split_spaces : String → String × List String
split_spaces String.[] = ("", [])
split_spaces (String.◌∷◌ c s) =
    let (x, xs) = split_spaces s in
    if is_space c then ("", unless_empty x xs) else (String.◌∷◌ c x, xs)

unfoldable pub known_scopes : List String → List OidcScope
known_scopes [] = []
known_scopes (name ∷ names) = elim (scope_of name) [
  | none ↦ known_scopes names
  | some scope ↦ scope ∷ known_scopes names
]

-- `OIDCScope.parse_scopes`. The names are sorted before the unknown ones are dropped.
unfoldable pub parse_scopes : String → List OidcScope
parse_scopes scopes = let (x, xs) = split_spaces scopes in known_scopes (sorted (unless_empty x xs))
