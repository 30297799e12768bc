-- ===== src/Ingress.antt =====
-- The handlers that NGINX asks about each request: src/gafaelfawr/handlers/auth.py. Logs and
-- metrics are left out. The user information and the base64 decoder are parameters.
pub mod Request
pub mod Lifetime
pub mod Access
pub mod Reflected
pub mod Delegated
mod Examples
use gafaelfawr.Prelude.{
  ℕ, ◌+◌, String, ◌<>◌, Bool, true, false, not, ◌&&◌, ◌||◌, Option, none, some, List, [], ◌∷◌, ◌++◌,
  filter, any, all, is_some, ◌==◌, string_eq, option_eq, contains, ltb, if◌then◌else◌,
}
use mathlib.Core.List.{map}
use gafaelfawr.Prelude.Result.{Result, ok, err}
use gafaelfawr.Prelude.Exec.{Exec, pure, raise, lift, ◌>>=◌, ◌>>◌}
use gafaelfawr.Errors.{Error, insufficient_scope, invalid_token, invalid_minimum_lifetime}
use gafaelfawr.Credential.{Token, token_to_str}
use gafaelfawr.Models.{TokenData}
use gafaelfawr.Models.Scopes.{sorted}
use gafaelfawr.Storage.Redis.{Storage}
use gafaelfawr.Storage.World.{World, close}
use gafaelfawr.Tokens.{Config, minimum_lifetime}
use gafaelfawr.Delegation.{Cache, InternalKey, NotebookKey, Process, Request as Call, given}
use gafaelfawr.Delegation.Service.{checked_internal_token, checked_notebook_token}
use gafaelfawr.Headers.Cookies.{clean_cookies}
use gafaelfawr.Headers.Authorization.{clean_authorization}
use gafaelfawr.Headers.Challenges.{
  AuthType, Failure, raised, failed, generate_challenge, generate_unauthorized_challenge,
}
use gafaelfawr.Authenticate.{Policy, RequestContext, is_given, authenticate_read}
use gafaelfawr.Ingress.Request.{AuthQuery, AuthConfig, Satisfy, auth_config}

-- The policy of `authenticate_with_type`
abbrev pub policy_of : AuthType → Policy
policy_of auth_type = record {
  require_session = false;
  require_bearer_token = false;
  require_scope = none;
  redirect_if_unauthenticated = false;
  allow_bootstrap_token = false;
  auth_type = auth_type;
  ajax_forbidden = true;
}

-- `delegate_scopes & set(token_data.scopes)`, sorted.
unfoldable pub delegated_scopes : AuthConfig → TokenData → List String
delegated_scopes auth d = sorted (filter (contains d.scopes) auth.delegate_scopes)

unfoldable pub has_scopes : AuthConfig → TokenData → Bool
has_scopes auth d = elim (auth.satisfy) [
  | Satisfy.any ↦ any (contains d.scopes) auth.scopes
  | Satisfy.all ↦ all (contains d.scopes) auth.scopes
]

abbrev pub forbidden_user : AuthConfig → TokenData → Bool
forbidden_user auth d = is_given auth.username && not (auth.username == some d.username)

abbrev is_over : Option ℕ → ℕ → Bool
is_over none t = false
is_over (some expires) t = ltb expires t

module _ (config : Config) (now : ℕ) (context : RequestContext) (auth : AuthConfig)
    (d : TokenData) where
  -- The comparisons of `check_lifetime`, with sums in place of the differences.
  unfoldable pub check_given_lifetime : Option ℕ → Result Failure (Unit {0})
  check_given_lifetime none = ok tt
  check_given_lifetime (some lifetime) =
      if ltb config.token_lifetime (lifetime + minimum_lifetime)
      then err (raised invalid_minimum_lifetime)
      else if is_over d.expires (now + lifetime)
      then err (
          generate_unauthorized_challenge context.realm context.requested_with auth.auth_type
            (some invalid_token) true)
      else ok tt

  unfoldable pub check_lifetime : Result Failure (Unit {0})
  check_lifetime = check_given_lifetime (given auth.minimum_lifetime)

  -- The two tests of `get_auth`.
  unfoldable pub check_access : Result Failure (Unit {0})
  check_access =
      let refused =
        generate_challenge context.realm auth.auth_type insufficient_scope auth.scopes true in
      if not (has_scopes auth d)
      then err refused
      else if forbidden_user auth d
      then err refused
      else ok tt

abbrev pub named : String → List String → List (String × String)
named name values = map (λ value. (name, value)) values

abbrev pub raise_errors : {A : Type 0} → Result Error A → Result Failure A
raise_errors (ok a) = ok a
raise_errors (err e) = err (raised e)

abbrev pub email_header : Option String → List (String × String)
email_header none = []
email_header (some email) = if email == "" then [] else ("X-Auth-Request-Email", email) ∷ []

abbrev pub token_header : Option String → List (String × String)
token_header none = []
token_header (some delegated) = ("X-Auth-Request-Token", delegated) ∷ []

abbrev pub bearer_header : Option String → List (String × String)
bearer_header none = []
bearer_header (some delegated) = ("Authorization", "Bearer " <> delegated) ∷ []

-- The cleaned headers, under their name.
unfoldable pub reflect : Result Error (List String) → Result Failure (List (String × String))
reflect (ok kept) = ok (named "Authorization" kept)
reflect (err e) = err (raised e)

unfoldable pub with_cookies :
    List String → Result Failure (List (String × String)) → Result Failure (List (String × String))
with_cookies raw (err e) = err e
with_cookies raw (ok kept) = ok (kept ++ named "Cookie" (clean_cookies raw))

module _ (decode : String → Option String) where
  unfoldable pub authorization_headers :
      Bool → Option String → List String → Result Failure (List (String × String))
  authorization_headers true delegated raw = ok (bearer_header delegated)
  authorization_headers false delegated raw = reflect (clean_authorization decode raw)

  -- `get_anonymous`
  unfoldable pub get_anonymous : RequestContext → Result Failure (List (String × String))
  get_anonymous context =
      with_cookies context.cookies (authorization_headers false none context.authorizations)

module _ (R : Storage TokenData) (CI : Cache InternalKey Token) (CN : Cache NotebookKey Token) where
  -- The stores and the two caches.
  pub record Server : Type 0 where
    pub world : World R
    pub internal_tokens : CI.State
    pub notebook_tokens : CN.State

  abbrev pub Handler : Type 0 → Type 0
  Handler A = Exec Server Failure A

  -- `async with context.session.begin()`
  abbrev pub end_transaction : World R → Result Error Token → Server → Result Failure Token × Server
  end_transaction before r t =
      let (q, w) = close R before.db r t.world in (raise_errors q, record t { world = w })

  unfoldable pub with_internal : Call R CI → Handler Token
  with_internal m s =
      let (r, p) = m (record { world = s.world; cache = s.internal_tokens }) in
      end_transaction s.world r (record s { world = p.world; internal_tokens = p.cache })

  unfoldable pub with_notebook : Call R CN → Handler Token
  with_notebook m s =
      let (r, p) = m (record { world = s.world; cache = s.notebook_tokens }) in
      end_transaction s.world r (record s { world = p.world; notebook_tokens = p.cache })

  module _ (config : Config) (now : ℕ) (drawn : Token) (decode : String → Option String)
      (user_email : TokenData → Option (Option String)) (context : RequestContext) where
    abbrev pub as_text : Handler Token → Handler (Option String)
    as_text m = do token ← m; pure (some (token_to_str token))

    -- The token for `delegate_to`, if that is given.
    unfoldable pub delegate : AuthConfig → TokenData → Option String → Handler (Option String)
    delegate auth d none = pure none
    delegate auth d (some for_service) =
        if for_service == ""
        then pure none
        else as_text (
            with_internal (
              checked_internal_token R config now drawn d context.ip_address auth.minimum_lifetime
                CI for_service (delegated_scopes auth d)))

    unfoldable pub build_delegated_token : AuthConfig → TokenData → Handler (Option String)
    build_delegated_token auth d =
        if auth.notebook
        then as_text (
            with_notebook (
              checked_notebook_token R config now drawn d context.ip_address auth.minimum_lifetime
                CN))
        else delegate auth d auth.delegate_to

    -- The headers for this answer of `get_user_info_from_token`, which may have raised.
    unfoldable pub success_headers :
        AuthConfig → TokenData → Option (Option String) → Handler (List (String × String))
    success_headers auth d none = raise (failed 500)
    success_headers auth d (some email) = do
      delegated ← build_delegated_token auth d
      authorization ←
          lift
            (authorization_headers decode auth.use_authorization delegated context.authorizations)
      pure (
          (("X-Auth-Request-User", d.username) ∷ email_header email)
          ++ (token_header delegated
              ++ (authorization ++ named "Cookie" (clean_cookies context.cookies))))

    unfoldable pub build_success_headers : AuthConfig → TokenData → Handler (List (String × String))
    build_success_headers auth d = success_headers auth d (user_email d)

    unfoldable pub get_auth_for : AuthConfig → TokenData → Handler (List (String × String))
    get_auth_for auth d = do
      lift (check_lifetime config now context auth d)
      lift (check_access config now context auth d)
      build_success_headers auth d

    -- `get_auth` behind its dependencies.
    unfoldable pub get_auth : AuthQuery → Handler (List (String × String))
    get_auth query s =
        (do
          auth ← lift (raise_errors (auth_config query))
          d ←
              lift
                (authenticate_read (policy_of query.auth_type) context decode R now drawn s.world)
          get_auth_for auth d)
          s
