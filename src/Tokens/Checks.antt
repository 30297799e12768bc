-- ===== src/Tokens/Checks.antt =====
-- The checks at the heads of `create_user_token` and `create_token_from_admin_request`.
use gafaelfawr.Prelude.{ℕ, String, true, false, not, ◌&&◌, Option, none, some, List, ◌==◌}
use gafaelfawr.Prelude.Result.{Result, guard, ◌>>◌}
use gafaelfawr.Errors.{Error, permission_denied}
use gafaelfawr.Models.{TokenData, AdminTokenRequest, service, type_eq}
use gafaelfawr.Usernames.{is_bot_user}
use gafaelfawr.Tokens.{
  Config, check_authorization, validate_username, validate_expires, validate_scopes,
}

module _ (config : Config) (now : ℕ) where
  unfoldable pub check_user_request :
      TokenData → String → List String → Option ℕ → Result Error (Unit {0})
  check_user_request auth username scopes expires = do
    check_authorization (some username) auth false true
    validate_username username
    validate_expires now expires
    validate_scopes config scopes (some auth)

  -- Service tokens must be for bot users.
  unfoldable pub check_admin_request : AdminTokenRequest → TokenData → Result Error (Unit {0})
  check_admin_request request auth = do
    check_authorization (some request.username) auth true false
    validate_username request.username
    validate_scopes config request.scopes none
    validate_expires now request.expires
    guard (not (request.token_type == service && not (is_bot_user request.username)))
        permission_denied
