-- ===== src/Delegation/Service.antt =====
-- `TokenService.get_internal_token` and `TokenService.get_notebook_token` of
-- src/gafaelfawr/services/token.py: the checks before the caches are asked.
use gafaelfawr.Prelude.{ℕ, String, Option, some, List}
use gafaelfawr.Prelude.Exec.{lift, ◌>>◌}
use gafaelfawr.Credential.{Token}
use gafaelfawr.Models.{TokenData}
use gafaelfawr.Models.Scopes.{sorted}
use gafaelfawr.Storage.Redis.{Storage}
use gafaelfawr.Tokens.{Config, validate_scopes, validate_username}
use gafaelfawr.Delegation.{
  Cache, InternalKey, NotebookKey, Request, get_internal_token, get_notebook_token,
}

module _ (R : Storage TokenData) (config : Config) (now : ℕ) (token : Token) (parent : TokenData)
    (ip_address : String) (minimum_lifetime : Option ℕ) where
  unfoldable pub checked_internal_token :
      (C : Cache InternalKey Token) → String → List String → Request R C
  checked_internal_token C for_service scopes = do
    lift (validate_scopes config scopes (some parent))
    lift (validate_username parent.username)
    get_internal_token R config now token parent ip_address minimum_lifetime C for_service
        (sorted scopes)

  unfoldable pub checked_notebook_token : (C : Cache NotebookKey Token) → Request R C
  checked_notebook_token C = do
    lift (validate_username parent.username)
    get_notebook_token R config now token parent ip_address minimum_lifetime C
