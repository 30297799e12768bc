-- ===== src/Authenticate.antt =====
-- `Authenticate` of src/gafaelfawr/dependencies/auth.py: who sent a request. What is written to the
-- log is left out.
pub mod Accepted
pub mod Examples
use gafaelfawr.Prelude.{
  ℕ, String, Bool, true, false, not, ◌&&◌, ◌||◌, Option, none, some, List, [], ◌∷◌, ◌==◌, string_eq,
  option_eq, contains, if◌then◌else◌,
}
use gafaelfawr.Prelude.Result.{Result, ok, err, guard, ◌>>=◌, ◌>>◌}
use gafaelfawr.Errors.{Error, invalid_csrf, invalid_request, invalid_token, permission_denied}
use gafaelfawr.Credential.{Token, token_to_str, token_from_str}
use gafaelfawr.Models.{TokenData, TokenType, service}
use gafaelfawr.Storage.Redis.{Storage}
use gafaelfawr.Storage.World.{World, get_data}
use gafaelfawr.Headers.Authorization.{parse_authorization}
use gafaelfawr.Headers.Challenges.{
  AuthType, Failure, raised, redirected, generate_challenge, generate_unauthorized_challenge,
}

-- The parameters of the class.
pub record Policy : Type 0 where
  pub require_session : Bool
  pub require_bearer_token : Bool
  pub require_scope : Option String
  pub redirect_if_unauthenticated : Bool
  pub allow_bootstrap_token : Bool
  pub auth_type : AuthType
  pub ajax_forbidden : Bool

-- What is read of `RequestContext`: the request with all headers of the two names, the decrypted
-- cookie and the configuration.
pub record RequestContext : Type 0 where
  pub method : String
  pub url : String
  pub authorizations : List String
  pub cookies : List String
  pub ip_address : String
  pub requested_with : Option String
  pub state_token : Option Token
  pub state_csrf : Option String
  pub realm : String
  pub bootstrap_token : String

-- `context.request.headers.get("Authorization")`
abbrev pub first_header : List String → Option String
first_header [] = none
first_header (header ∷ headers) = some header

-- `_redirect_or_error`
unfoldable pub redirect_or_error : Policy → RequestContext → Failure
redirect_or_error policy context =
    if not policy.redirect_if_unauthenticated
    then generate_unauthorized_challenge context.realm context.requested_with policy.auth_type none
        policy.ajax_forbidden
    else redirected context.url

abbrev pub is_given : Option String → Bool
is_given none = false
is_given (some s) = not (s == "")

-- `_verify_csrf`
unfoldable pub verify_csrf : RequestContext → Option String → Result Failure (Unit {0})
verify_csrf context csrf =
    if context.method == "GET" || context.method == "OPTIONS"
    then ok tt
    else guard (is_given csrf && csrf == context.state_csrf) (raised invalid_csrf)

-- `if context.state.token:`
abbrev pub verify_cookie : Option Token → RequestContext → Option String → Result Failure (Unit {0})
verify_cookie none context csrf = ok tt
verify_cookie (some token) context csrf = verify_csrf context csrf

-- `TokenData.bootstrap_token`, which draws a token of its own.
unfoldable pub bootstrap_data : ℕ → Token → TokenData
bootstrap_data now drawn = record {
  token = drawn;
  username = "<bootstrap>";
  token_type = service;
  scopes = "admin:token" ∷ [];
  created = now;
  expires = none;
  metadata = record { name = none; email = none; uid = none; gid = none; groups = none };
}

module _ (policy : Policy) (context : RequestContext) where
  -- `except (InvalidRequestError, InvalidTokenError)`
  unfoldable pub challenge_for : Error → Failure
  challenge_for e =
      let challenge = generate_challenge context.realm policy.auth_type e [] true in
      elim e [ invalid_request ↦ challenge | invalid_token ↦ challenge | other ↦ raised other ]

  abbrev pub challenge_error : {A : Type 0} → Result Error A → Result Failure A
  challenge_error (ok a) = ok a
  challenge_error (err e) = err (challenge_for e)

  -- `if token_str: return Token.from_str(token_str)`
  unfoldable pub token_of : Option String → Result Failure Token
  token_of none = err (redirect_or_error policy context)
  token_of (some text) =
      if text == ""
      then err (redirect_or_error policy context)
      else challenge_error (token_from_str text)

  -- `if self.require_scope and self.require_scope not in data.scopes`
  unfoldable pub check_scope : Option String → TokenData → Result Failure TokenData
  check_scope none d = ok d
  check_scope (some scope) d =
      if not (scope == "") && not (contains d.scopes scope)
      then err (raised permission_denied)
      else ok d

  unfoldable pub not_found : Option Token → Failure
  not_found none = generate_challenge context.realm policy.auth_type invalid_token [] true
  not_found (some token) = redirect_or_error policy context

  unfoldable pub check_data : Option TokenData → Result Failure TokenData
  check_data none = err (not_found context.state_token)
  check_data (some d) = check_scope policy.require_scope d

  module _ (decode : String → Option String) where
    unfoldable pub find_in_header : Result Failure Token
    find_in_header =
        if policy.require_session
        then err (redirect_or_error policy context)
        else challenge_error (
            parse_authorization decode policy.require_bearer_token
              (first_header context.authorizations))
          >>= token_of

    -- `_find_token`
    unfoldable pub find_token : Option Token → Result Failure Token
    find_token none = find_in_header
    find_token (some token) = if not policy.require_bearer_token then ok token else find_in_header

    module _ (R : Storage TokenData) (now : ℕ) (drawn : Token) where
      unfoldable pub look_up : World R → Token → Result Failure TokenData
      look_up w token =
          if policy.allow_bootstrap_token && token_to_str token == context.bootstrap_token
          then ok (bootstrap_data now drawn)
          else check_data (get_data R now token w)

      unfoldable pub authenticate : Option String → World R → Result Failure TokenData
      authenticate csrf w = do
        token ← find_token context.state_token
        verify_cookie context.state_token context csrf
        look_up w token

      -- `AuthenticateRead` and `AuthenticateWrite`
      unfoldable pub authenticate_read : World R → Result Failure TokenData
      authenticate_read = authenticate none

      unfoldable pub authenticate_write : Option String → World R → Result Failure TokenData
      authenticate_write csrf = authenticate csrf
