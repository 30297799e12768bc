-- ===== src/Tokens/Create.antt =====
-- The operations of `TokenService` that create a token. `token` is the one that `Token()` draws.
pub mod Outcome
pub mod Atomic
pub mod Granted
pub mod Stored
use mathlib.Core.Option
use gafaelfawr.Prelude.{
  ℕ, ◌+◌, String, Bool, true, false, not, ◌&&◌, Option, none, some, List, [], ◌==◌, if◌then◌else◌,
  or_else,
}
use gafaelfawr.Prelude.Exec.{Exec, pure, lift, on_error, ◌>>=◌, ◌>>◌}
use gafaelfawr.Errors.{Error, permission_denied}
use gafaelfawr.Credential.{Token}
use gafaelfawr.Models.{
  TokenType, session, user, service, oidc, Metadata, TokenData, AdminTokenRequest, TokenChange,
  create, TokenChangeHistoryEntry, whole_seconds, type_eq,
}
use gafaelfawr.Models.Scopes.{sorted}
use gafaelfawr.Usernames.{is_bot_user}
use gafaelfawr.Storage.Redis.{Storage}
use gafaelfawr.Storage.Database.{add}
use gafaelfawr.Storage.Queries.{add_change}
use gafaelfawr.Storage.World.{World, Action, in_db, delete_data, store_data}
use gafaelfawr.Tokens.{Config, validate_username}
use gafaelfawr.Tokens.Checks.{check_user_request, check_admin_request}

-- The history entry of a new token.
abbrev pub creation :
    TokenData
    → Option String
    → Option String
    → Option String
    → String
    → Option String
    → TokenChangeHistoryEntry
creation d token_name parent for_service actor ip_address = record {
  token = d.token.key;
  username = d.username;
  token_type = d.token_type;
  token_name = token_name;
  parent = parent;
  scopes = d.scopes;
  service = for_service;
  expires = d.expires;
  actor = actor;
  action = create;
  old_token_name = none;
  old_scopes = none;
  old_expires = none;
  ip_address = ip_address;
  event_time = d.created;
}

module _ (R : Storage TokenData) (now : ℕ) where
  -- The end that every creation has: Redis, then the database, and Redis again if that raises.
  unfoldable pub store_new :
      TokenData
      → Option String
      → Option String
      → Option String
      → TokenChangeHistoryEntry
      → Action R Token
  store_new d token_name for_service parent entry = do
    store_data R now d
    on_error (do in_db R (add d token_name for_service parent); in_db R (add_change entry))
        (delete_data R d.token.key)
    pure d.token

module _ (R : Storage TokenData) (config : Config) (now : ℕ) (token : Token) where
  abbrev pub session_data : String → Metadata → List String → TokenData
  session_data username metadata scopes = record {
    token = token;
    username = username;
    token_type = session;
    scopes = sorted scopes;
    created = now;
    expires = some (now + config.token_lifetime);
    metadata = metadata;
  }

  unfoldable pub create_session_token : String → Metadata → List String → String → Action R Token
  create_session_token username metadata scopes ip_address = do
    lift (validate_username username)
    let d = session_data username metadata scopes
    store_new R now d none none none (creation d none none none username (some ip_address))

  abbrev pub oidc_data : TokenData → TokenData
  oidc_data auth = record {
    token = token;
    username = auth.username;
    token_type = oidc;
    scopes = [];
    created = now;
    expires = or_else auth.expires (some (now + config.token_lifetime));
    metadata = auth.metadata;
  }

  unfoldable pub create_oidc_token : TokenData → String → Action R Token
  create_oidc_token auth ip_address = do
    let d = oidc_data auth
    store_new R now d none none (some auth.token.key)
        (creation d none none none auth.username (some ip_address))

  abbrev pub user_data : TokenData → String → List String → Option ℕ → TokenData
  user_data auth username scopes expires = record {
    token = token;
    username = username;
    token_type = user;
    scopes = sorted scopes;
    created = now;
    expires = Option.map whole_seconds expires;
    metadata = auth.metadata;
  }

  unfoldable pub create_user_token :
      TokenData → String → String → List String → Option ℕ → String → Action R Token
  create_user_token auth username token_name scopes expires ip_address = do
    lift (check_user_request config now auth username scopes expires)
    let d = user_data auth username scopes expires
    store_new R now d (some token_name) none none
        (creation d (some token_name) none none auth.username (some ip_address))

  abbrev pub admin_data : AdminTokenRequest → TokenData
  admin_data request = record {
    token = token;
    username = request.username;
    token_type = request.token_type;
    scopes = sorted request.scopes;
    created = now;
    expires = Option.map whole_seconds request.expires;
    metadata = request.metadata;
  }

  unfoldable pub create_token_from_admin_request :
      AdminTokenRequest → TokenData → Option String → Action R Token
  create_token_from_admin_request request auth ip_address = do
    lift (check_admin_request config now request auth)
    let d = admin_data request
    store_new R now d request.token_name none none
        (creation d request.token_name none none auth.username ip_address)
