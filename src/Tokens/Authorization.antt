-- ===== src/Tokens/Authorization.antt =====
-- What the checks of `TokenService` let through.
use gafaelfawr.Prelude.{
  ℕ, ◌+◌, ◌≤◌, String, ◌≡◌, refl, ◌↔◌, ◌⊎◌, inr, Bool, true, false, Option, none, some, List, [],
  ◌∷◌, arith, contains, is_subset, string_eq, option_eq,
}
use gafaelfawr.Prelude.Result.{ok, err}
use gafaelfawr.Errors.{permission_denied}
use gafaelfawr.Models.{TokenData}
use gafaelfawr.Tokens.{
  Config, is_admin, minimum_lifetime, check_authorization, validate_expires, validate_scopes,
}

-- Who may act on the tokens of a user, or list all tokens (`none`): a token administrator, unless
-- only the user may and is someone else; and the user with the scope `user:token`, unless an
-- administrator is required.
abbrev pub MayAct : Option String → TokenData → Bool → Bool → Type 0
MayAct username auth require_admin require_same_user =
    (is_admin auth ≡ true)
      × ((require_same_user ≡ false) ⊎ (username ≡ none) ⊎ (username ≡ some auth.username))
    ⊎ (is_admin auth ≡ false)
      × (username ≡ some auth.username)
      × (contains auth.scopes "user:token" ≡ true)
      × (require_admin ≡ false)

-- `_check_authorization` passes exactly for those who may act, and otherwise raises
-- `PermissionDeniedError`.
pub check_authorization-MayAct :
    (username : Option String) (auth : TokenData) (require_admin require_same_user : Bool)
    → ((check_authorization username auth require_admin require_same_user ≡ ok tt)
        ↔ MayAct username auth require_admin require_same_user)
      × ((check_authorization username auth require_admin require_same_user ≡ ok tt)
          ⊎ (check_authorization username auth require_admin require_same_user
              ≡ err permission_denied))
unfolding check_authorization
check_authorization-MayAct none auth ra rs = ((λ h. ground arith, λ m. ground arith), ground arith)
check_authorization-MayAct (some u) auth ra rs =
    ((λ h. ground arith, λ m. ground arith), ground arith)

-- The scopes that `_validate_scopes` lets through: known ones, and, for anybody who is not a token
-- administrator, some of their own.
abbrev pub MayGrant : Config → List String → TokenData → Type 0
MayGrant config scopes auth =
    (is_subset scopes config.known_scopes ≡ true)
    × ((is_admin auth ≡ true) ⊎ (is_subset scopes auth.scopes ≡ true))

pub validate_scopes-MayGrant :
    (config : Config) (scopes : List String) (auth : TokenData)
    → validate_scopes config scopes (some auth) ≡ ok tt
    → MayGrant config scopes auth
unfolding validate_scopes
validate_scopes-MayGrant config [] auth h = (refl, inr refl)
validate_scopes-MayGrant config (x ∷ xs) auth h = ground arith

pub validate_expires-eq_ok :
    (now t : ℕ) → validate_expires now (some t) ≡ ok tt → now + minimum_lifetime ≤ t
unfolding validate_expires
validate_expires-eq_ok now t h = ground arith
