-- ===== src/Login.antt =====
-- The routes of src/gafaelfawr/handlers/login.py and src/gafaelfawr/handlers/logout.py, over an interface
-- of login providers. What is written to the log, to Slack and to the metrics is left out.
pub mod Session
pub mod Middleware
pub mod ReturnUrl
pub mod Providers
pub mod Accepted
pub mod Outcome
pub mod Returned
pub mod Local
pub mod Once
pub mod Http
pub mod OpenId
mod Examples
use gafaelfawr.Prelude.{
  ℕ, String, not, Option, none, some, List, [], ◌∷◌, ◌++◌, ◌==◌, string_eq, option_eq,
  if◌then◌else◌,
}
use gafaelfawr.Prelude.Result.{Result, ok, err}
use gafaelfawr.Prelude.Exec.{Exec, pure, raise, lift, gets, modify, ◌>>=◌, ◌>>◌}
use gafaelfawr.Errors.{
  Error, firestore_not_initialized, no_available_gid, no_available_uid, invalid_return_url,
  ldap_error, no_scopes, github_error, github_web_error, oidc_error, oidc_not_enrolled,
  oidc_web_error, permission_denied,
}
use gafaelfawr.Credential.{Token}
use gafaelfawr.Models.{TokenData}
use gafaelfawr.Models.Scopes.{sorted}
use gafaelfawr.Admins.{AdminDatabase, is_admin_in}
use gafaelfawr.Storage.Redis.{Storage}
use gafaelfawr.Storage.World.{World, Action, transaction}
use gafaelfawr.Tokens.{Config}
use gafaelfawr.Tokens.Create.{create_session_token}
use gafaelfawr.Userinfo.{Sources, InfoConfig, Lookup, groups_or_empty, get_scopes, invalidate_cache}
use gafaelfawr.Login.Session.{State, new_state, given}
use gafaelfawr.Login.ReturnUrl.{Host, return_url, return_url_with_header}
use gafaelfawr.Login.Providers.{Provider, TokenUserInfo}

pub data LoginError : Type 0 where
  groups_missing invalid_username not_enrolled firestore_failed ldap_failed : LoginError
  provider_failed provider_network return_url_missing state_invalid state_missing : LoginError

-- A redirect, or the error page with status 403 (`_error_user`) or 500 (`_error_system`).
pub data Answer : Type 0 where
  redirect : String → Answer
  error_user error_system : LoginError → Answer

-- The clause of `handle_provider_return` that takes the exception.
pub data Caught : Type 0 where
  enrollment uncaught : Caught
  system : LoginError → Caught
  user_logged_out : LoginError → Caught

unfoldable pub caught : Error → Caught
caught e = elim e [
  | oidc_not_enrolled ↦ enrollment
  | firestore_not_initialized ↦ system firestore_failed
  | no_available_gid ↦ system firestore_failed
  | no_available_uid ↦ system firestore_failed
  | github_web_error ↦ system provider_network
  | oidc_web_error ↦ system provider_network
  | ldap_error ↦ system ldap_failed
  | no_scopes ↦ user_logged_out groups_missing
  | github_error ↦ system provider_failed
  | oidc_error ↦ system provider_failed
  | permission_denied ↦ user_logged_out invalid_username
  | _ ↦ uncaught
]

-- What is read of the configuration.
pub record LoginConfig : Type 0 where
  pub enrollment_url : Option String
  pub after_logout_url : String

-- The end of a login that is over.
abbrev pub without_login : State → State
without_login s = record s { state = none; return_url = none; login_start = none }

abbrev pub logged_in_as : Token → State → State
logged_in_as token s = record (without_login s) { token = some token }

abbrev pub with_return_url : String → State → State
with_return_url url s = record s { return_url = some url }

abbrev pub add_admin_scope : List String → List String
add_admin_scope scopes = sorted (scopes ++ "admin:token" ∷ [])

unfoldable pub login_scopes : AdminDatabase → String → List String → List String
login_scopes admins username scopes =
    if is_admin_in admins username then add_admin_scope scopes else scopes

abbrev pub with_revoked : Option String → List String → List String
with_revoked none tokens = tokens
with_revoked (some token) tokens = token ∷ tokens

abbrev pub or_default : String → Option String → String
or_default default none = default
or_default default (some url) = url

-- The state of the login, which is the text drawn now if there is none.
abbrev pub state_or : ℕ → String → Option String → State → String × State
state_or now random (some state) s = (state, s)
state_or now random none s = (random, record s { state = some random; login_start = some now })

module _ {Q : Type 0} (plus : Q → Q → Q) (S : Sources) (info : InfoConfig Q)
    (R : Storage TokenData) where
  -- The cookie, the stores of tokens, the sources of user information, and the access tokens that the
  -- provider was asked to revoke.
  pub record LoginWorld : Type 0 where
    pub session : State
    pub tokens : World R
    pub sources : S.State
    pub revoked : List String

  abbrev pub LoginAction : Type 0 → Type 0
  LoginAction B = Exec LoginWorld Error B

  abbrev pub on_session : {B : Type 0} → (State → Result Error B × State) → LoginAction B
  on_session m w = let (r, s) = m w.session in (r, record w { session = s })

  abbrev pub on_tokens : {B : Type 0} → Action R B → LoginAction B
  on_tokens m w = let (r, v) = m w.tokens in (r, record w { tokens = v })

  abbrev pub on_sources : {B : Type 0} → Lookup plus S info B → LoginAction B
  on_sources m w = let (r, s) = m w.sources in (r, record w { sources = s })

  abbrev pub with_session : (State → State) → LoginAction (Unit {0})
  with_session f = modify (λ w. record w { session = f w.session })

  -- `_error_user` and `_error_system`
  unfoldable pub fail_with : Answer → LoginAction Answer
  fail_with answer = do with_session without_login; pure answer

  module _ (provider : Provider) (config : Config) (login : LoginConfig) (admins : AdminDatabase)
      (now : ℕ) (drawn : Token) (ip_address : String) where
    unfoldable pub log_out : LoginAction (Unit {0})
    log_out w = (ok tt, record w { revoked = with_revoked (provider.logout w.session) w.revoked })

    unfoldable pub token_with : TokenUserInfo → Option (List String) → LoginAction Token
    token_with user_info none = do
      on_sources (invalidate_cache plus S info user_info.username)
      raise no_scopes
    token_with user_info (some scopes) = on_tokens (
        transaction R (
          create_session_token R config now drawn user_info.username user_info.metadata
            (login_scopes admins user_info.username scopes) ip_address))

    -- `_construct_token`
    unfoldable pub construct_token : TokenUserInfo → LoginAction Token
    construct_token user_info = do
      scopes ← on_sources (
          get_scopes plus S info user_info.username user_info.metadata.gid
            (groups_or_empty user_info.metadata.groups))
      token_with user_info scopes

    -- `_construct_login_response` behind its two checks.
    unfoldable pub log_in : String → String → String → LoginAction Answer
    log_in code state return_url = do
      user_info ← on_session (provider.create_user_info code state)
      token ← construct_token user_info
      with_session (logged_in_as token)
      pure (redirect return_url)

    unfoldable pub log_in_to : String → String → Option String → LoginAction Answer
    log_in_to code state none = fail_with (error_user return_url_missing)
    log_in_to code state (some return_url) = log_in code state return_url

    -- `_construct_login_response`
    unfoldable pub construct_login_response : String → String → LoginAction Answer
    construct_login_response code state w =
        if not (some state == w.session.state)
        then fail_with (error_user state_invalid) w
        else log_in_to code state (given w.session.return_url) w

    unfoldable pub enroll : Option String → LoginAction Answer
    enroll none = fail_with (error_user not_enrolled)
    enroll (some url) = pure (redirect url)

    unfoldable pub handle : Error → Caught → LoginAction Answer
    handle e enrollment = enroll login.enrollment_url
    handle e (system error) = fail_with (error_system error)
    handle e (user_logged_out error) = do log_out; fail_with (error_user error)
    handle e uncaught = raise e

    abbrev pub handled : Result Error Answer → LoginAction Answer
    handled (ok answer) = pure answer
    handled (err e) = handle e (caught e)

    unfoldable pub handle_provider_return : String → String → LoginAction Answer
    handle_provider_return code state w =
        let (r, t) = construct_login_response code state w in handled r t

    unfoldable pub start_login : String → LoginAction Answer
    start_login random w =
        let (state, s) = state_or now random (given w.session.state) w.session in
        (ok (redirect (provider.get_redirect_url state)), record w { session = s })

    unfoldable pub redirect_to_provider : String → Option String → LoginAction Answer
    redirect_to_provider random none = raise invalid_return_url
    redirect_to_provider random (some return_url) = do
      with_session (with_return_url return_url)
      start_login random

    unfoldable pub return_from : String → Option String → LoginAction Answer
    return_from code none = fail_with (error_user state_missing)
    return_from code (some state) = handle_provider_return code state

    -- `get_login` behind the dependency that checks the return URL.
    unfoldable pub answer_login :
        String → Option String → Option String → Option String → LoginAction Answer
    answer_login random none state return_url = redirect_to_provider random return_url
    answer_login random (some code) state return_url = return_from code state

    module _ (hostname : String → Result Error (Option String)) (host : Host) where
      -- The route `/login`.
      unfoldable pub get_login :
          String
          → Option String
          → Option String
          → Option String
          → Option String
          → LoginAction Answer
      get_login random code state rd x_auth_request_redirect = do
        url ← lift (return_url_with_header hostname host rd x_auth_request_redirect)
        answer_login random (given code) (given state) url

      abbrev pub log_out_session : Option Token → LoginAction (Unit {0})
      log_out_session none = pure tt
      log_out_session (some token) = log_out

      unfoldable pub leave_from : Option Token → Option String → LoginAction Answer
      leave_from token url = do
        log_out_session token
        with_session (λ s. new_state)
        pure (redirect (or_default login.after_logout_url url))

      unfoldable pub leave : Option String → LoginAction Answer
      leave url w = leave_from w.session.token url w

      -- The route `/logout`.
      unfoldable pub get_logout : Option String → LoginAction Answer
      get_logout rd = do url ← lift (return_url hostname host rd); leave url
