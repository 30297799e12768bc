-- ===== src/Ingress/Request.antt =====
-- `auth_config` of src/gafaelfawr/handlers/auth.py: what an ingress asks for in its query.
use Prim.Native.Char.{Char}
use gafaelfawr.Prelude.{
  ℕ, ◌*◌, String, Bool, not, ◌&&◌, ◌||◌, Option, none, some, List, [], ◌∷◌, ◌==◌, nat_eq, string_eq,
  option_eq, if◌then◌else◌,
}
use gafaelfawr.Prelude.Result.{Result, ok, guard, ◌>>◌}
use gafaelfawr.Errors.{Error, invalid_delegate_to, invalid_service}
use gafaelfawr.Models.{second}
use gafaelfawr.Models.Scopes.{to_set}
use gafaelfawr.Tokens
use gafaelfawr.Headers.Words.{strip, split_char}
use gafaelfawr.Headers.Challenges.{AuthType}
use gafaelfawr.Authenticate.{is_given}

pub data Satisfy : Type 0 where
  any all : Satisfy

-- The query, after FastAPI read it. `minimum_lifetime` is in seconds.
pub record AuthQuery : Type 0 where
  pub auth_type : AuthType
  pub delegate_to : Option String
  pub delegate_scope : Option String
  pub minimum_lifetime : Option ℕ
  pub notebook : Bool
  pub satisfy : Satisfy
  pub scope : List String
  pub service : Option String
  pub use_authorization : Bool
  pub username : Option String

-- `AuthConfig`. `minimum_lifetime` is in microseconds. A set is a list of its items, in any order.
pub record AuthConfig : Type 0 where
  pub auth_type : AuthType
  pub delegate_scopes : List String
  pub delegate_to : Option String
  pub minimum_lifetime : Option ℕ
  pub notebook : Bool
  pub satisfy : Satisfy
  pub scopes : List String
  pub service : Option String
  pub use_authorization : Bool
  pub username : Option String

abbrev comma : Char
comma = ","

unfoldable pub strip_all : List String → List String
strip_all [] = []
strip_all (x ∷ xs) = strip x ∷ strip_all xs

-- `{s.strip() for s in delegate_scope.split(",")}`, if there is a text.
unfoldable pub parse_delegate_scopes : Option String → List String
parse_delegate_scopes none = []
parse_delegate_scopes (some delegate_scope) =
    let (x, xs) = split_char comma delegate_scope in
    if delegate_scope == "" then [] else to_set (strip_all (x ∷ xs))

unfoldable pub parse_lifetime : Option ℕ → Bool → Option ℕ
parse_lifetime none delegates = if delegates then some Tokens.minimum_lifetime else none
parse_lifetime (some seconds) delegates =
    if seconds == 0
    then if delegates then some Tokens.minimum_lifetime else none
    else some (seconds * second)

unfoldable pub config_of : AuthQuery → AuthConfig
config_of query = record {
  auth_type = query.auth_type;
  delegate_scopes = parse_delegate_scopes query.delegate_scope;
  delegate_to = query.delegate_to;
  minimum_lifetime =
      parse_lifetime query.minimum_lifetime (query.notebook || is_given query.delegate_to);
  notebook = query.notebook;
  satisfy = query.satisfy;
  scopes = to_set query.scope;
  service = query.service;
  use_authorization = query.use_authorization;
  username = query.username;
}

unfoldable pub auth_config : AuthQuery → Result Error AuthConfig
auth_config query = do
  guard (not (query.notebook && is_given query.delegate_to)) invalid_delegate_to
  guard
      (not (
        is_given query.service
        && is_given query.delegate_to
        && not (query.service == query.delegate_to)))
      invalid_service
  ok (config_of query)
