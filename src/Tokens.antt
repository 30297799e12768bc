-- ===== src/Tokens.antt =====
-- `TokenService` of src/gafaelfawr/services/token.py: its checks. The operations are in the
-- children. A call reads the clock once, as `now`.
pub mod Authorization
pub mod Checks
pub mod Create
pub mod Delete
pub mod Modify
pub mod Examples
use gafaelfawr.Prelude.{
  ℕ, ◌+◌, ◌*◌, String, Bool, true, false, not, ◌&&◌, ◌||◌, Option, none, some, List, [], ◌∷◌, ◌==◌,
  contains, is_subset, string_eq, option_eq, if◌then◌else◌, ltb, is_some,
}
use gafaelfawr.Prelude.Result.{Result, ok, err, guard, ◌>>=◌, ◌>>◌}
use gafaelfawr.Errors.{Error, permission_denied, invalid_expires, invalid_scopes}
use gafaelfawr.Models.{TokenData, second}
use gafaelfawr.Usernames.{valid_username}

-- What the service reads of src/gafaelfawr/config.py. The lifetime is in microseconds.
pub record Config : Type 0 where
  pub token_lifetime : ℕ
  pub known_scopes : List String

-- `MINIMUM_LIFETIME`
abbrev pub minimum_lifetime : ℕ
minimum_lifetime = 5 * 60 * second

abbrev pub is_admin : TokenData → Bool
is_admin auth = contains auth.scopes "admin:token"

-- `username is not None and username != auth_data.username`
abbrev pub is_other : Option String → TokenData → Bool
is_other username auth = is_some username && not (username == some auth.username)

-- `_check_authorization`
unfoldable pub check_authorization :
    Option String → TokenData → Bool → Bool → Result Error (Unit {0})
check_authorization username auth require_admin require_same_user = do
  guard (not ((not (is_some username) || require_admin) && not (is_admin auth))) permission_denied
  guard (not (is_other username auth && (require_same_user || not (is_admin auth))))
      permission_denied
  guard (not (not (is_admin auth) && not (contains auth.scopes "user:token"))) permission_denied

-- `_validate_username`
unfoldable pub validate_username : String → Result Error (Unit {0})
validate_username username = guard (valid_username username) permission_denied

-- `_validate_expires`
unfoldable pub validate_expires : ℕ → Option ℕ → Result Error (Unit {0})
validate_expires now none = ok tt
validate_expires now (some expires) =
    guard (not (ltb expires (now + minimum_lifetime))) invalid_expires

abbrev within_own_scopes : List String → Option TokenData → Bool
within_own_scopes scopes none = true
within_own_scopes scopes (some auth) = is_admin auth || is_subset scopes auth.scopes

-- `_validate_scopes`
unfoldable pub validate_scopes : Config → List String → Option TokenData → Result Error (Unit {0})
validate_scopes config [] auth = ok tt
validate_scopes config (x ∷ xs) auth = do
  guard (within_own_scopes (x ∷ xs) auth) invalid_scopes
  guard (is_subset (x ∷ xs) config.known_scopes) invalid_scopes
