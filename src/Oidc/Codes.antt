-- ===== src/Oidc/Codes.antt =====
-- `OIDCAuthorization` of src/gafaelfawr/models/oidc.py and `OIDCAuthorizationStore` of
-- src/gafaelfawr/storage/oidc.py, over any Redis storage, beside the stores of tokens.
use gafaelfawr.Prelude.{
  ℕ, ◌*◌, String, Bool, ◌&&◌, Option, none, some, List, ◌==◌, string_eq, if◌then◌else◌,
}
use gafaelfawr.Prelude.Result.{Result, ok, err}
use gafaelfawr.Prelude.Exec.{Exec}
use gafaelfawr.Errors.{Error, invalid_grant, redis_error}
use gafaelfawr.Credential.{Token, AuthorizationCode}
use gafaelfawr.Models.{TokenData, whole_seconds}
use gafaelfawr.Storage.Redis.{Fetched, missing, corrupt, found, Storage}
use gafaelfawr.Storage.World.{World, Action}
use gafaelfawr.Oidc.Claims.{OidcScope}

pub record OidcAuthorization : Type 0 where
  pub code : AuthorizationCode
  pub client_id : String
  pub redirect_uri : String
  pub token : Token
  pub created_at : ℕ
  pub scopes : List OidcScope
  pub nonce : Option String

-- `OIDC_AUTHORIZATION_LIFETIME`, in seconds.
abbrev pub authorization_lifetime : ℕ
authorization_lifetime = 60 * 60

abbrev pub same_code : AuthorizationCode → AuthorizationCode → Bool
same_code c d = c.key == d.key && c.secret == d.secret

-- The value that comes back from its JSON.
abbrev pub on_wire : OidcAuthorization → OidcAuthorization
on_wire a = record a { created_at = whole_seconds a.created_at }

-- What `redeem_code` makes of `get`: a missing value, one that cannot be read (`DeserializeError`) and
-- one with another secret all make it raise `InvalidGrantError`.
unfoldable pub check_code :
    AuthorizationCode → Fetched OidcAuthorization → Result Error OidcAuthorization
check_code code missing = err invalid_grant
check_code code corrupt = err invalid_grant
check_code code (found a) = if same_code a.code code then ok a else err invalid_grant

module _ (R : Storage TokenData) (A : Storage OidcAuthorization) where
  pub record OidcWorld : Type 0 where
    pub tokens : World R
    pub codes : A.State

  abbrev pub OidcAction : Type 0 → Type 0
  OidcAction B = Exec OidcWorld Error B

  abbrev pub on_tokens : {B : Type 0} → Action R B → OidcAction B
  on_tokens m w = let (r, v) = m w.tokens in (r, record w { tokens = v })

  abbrev stored : Option A.State → OidcAction (Unit {0})
  stored none w = (err redis_error, w)
  stored (some codes) w = (ok tt, record w { codes = codes })

  -- `create`
  unfoldable pub create_code : ℕ → OidcAuthorization → OidcAction (Unit {0})
  create_code now a w =
      stored (A.store now w.codes a.code.key (on_wire a) (some authorization_lifetime)) w

  -- `delete`
  unfoldable pub delete_code : AuthorizationCode → OidcAction (Unit {0})
  delete_code code w = (ok tt, record w { codes = A.delete w.codes code.key })

  -- `delete_all`
  unfoldable pub delete_all_codes : OidcAction (Unit {0})
  delete_all_codes w = (ok tt, record w { codes = A.delete_all w.codes })

  unfoldable pub get_code : ℕ → AuthorizationCode → OidcWorld → Result Error OidcAuthorization
  get_code now code w = check_code code (A.get now w.codes code.key)
