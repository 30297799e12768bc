-- ===== src/Oidc/Handlers.antt =====
-- The routes of src/gafaelfawr/handlers/oidc.py. The log and the fixed headers are left out.
pub mod Login
use gafaelfawr.Prelude.{
  ℕ, String, Bool, true, false, not, ◌||◌, Option, none, some, List, [], ◌∷◌, contains, ◌==◌,
  string_eq, option_eq, if◌then◌else◌,
}
use gafaelfawr.Prelude.Result.{Result, ok, err}
use gafaelfawr.Prelude.Exec.{Exec, pure, raise, lift, ◌>>=◌, ◌>>◌}
use gafaelfawr.Errors.{
  Error, invalid_client, invalid_grant, unsupported_grant_type, invalid_request, invalid_token,
  insufficient_scope,
}
use gafaelfawr.Credential.{Token, AuthorizationCode, code_to_str}
use gafaelfawr.Models.{TokenData, TokenType, oidc}
use gafaelfawr.Storage.Redis.{Storage}
use gafaelfawr.Storage.World.{World, close}
use gafaelfawr.Tokens.{Config}
use gafaelfawr.Headers.Challenges.{AuthType, bearer, Failure, raised, generate_challenge}
use gafaelfawr.Authenticate.{Policy, RequestContext, is_given, authenticate_read}
use gafaelfawr.Oidc.Clients.{ParsedUrl, validate_client}
use gafaelfawr.Oidc.Claims.{OidcScope, openid, scope_name, Claim, Payload, parse_scopes}
use gafaelfawr.Oidc.Codes.{OidcAuthorization, OidcWorld, OidcAction}
use gafaelfawr.Oidc.IdToken.{OidcConfig, UserInfo, TokenRequest, OidcTokenReply, user_claims}
use gafaelfawr.Oidc.Redeem.{issue_code, redeem_code}

-- The parameters of `get_login`.
pub record LoginQuery : Type 0 where
  pub client_id : String
  pub redirect_uri : String
  pub response_type : Option String
  pub scope : Option String
  pub state : Option String
  pub nonce : Option String

-- The redirect URI, and what `build_return_url` adds to its query.
pub record ReturnUrl : Type 0 where
  pub redirect_uri : String
  pub params : List (String × String)

-- `AuthenticateRead(require_session=True, redirect_if_unauthenticated=True)`
abbrev pub login_policy : Policy
login_policy = record {
  require_session = true;
  require_bearer_token = false;
  require_scope = none;
  redirect_if_unauthenticated = true;
  allow_bootstrap_token = false;
  auth_type = bearer;
  ajax_forbidden = false;
}

-- `AuthenticateRead(require_bearer_token=True)`
abbrev pub bearer_policy : Policy
bearer_policy = record {
  require_session = false;
  require_bearer_token = true;
  require_scope = none;
  redirect_if_unauthenticated = false;
  allow_bootstrap_token = false;
  auth_type = bearer;
  ajax_forbidden = false;
}

unfoldable pub given_params : List (String × Option String) → List (String × String)
given_params [] = []
given_params ((name, none) ∷ params) = given_params params
given_params ((name, some value) ∷ params) = (name, value) ∷ given_params params

-- `build_return_url`; `parse_qsl` and `urlencode` do the rest.
unfoldable pub build_return_url : String → List (String × Option String) → ReturnUrl
build_return_url redirect_uri params = record {
  redirect_uri = redirect_uri;
  params = given_params params;
}

unfoldable pub has_openid : List OidcScope → Bool
has_openid [] = false
has_openid (openid ∷ scopes) = true
has_openid (other ∷ scopes) = has_openid scopes

-- The scopes of a request for a code, or the description of its error.
unfoldable pub code_scopes : Option String → Result String (List OidcScope)
code_scopes none = err "Missing scope parameter"
code_scopes (some scope) =
    if scope == ""
    then err "Missing scope parameter"
    else if not (has_openid (parse_scopes scope))
    then err "Only OpenID Connect supported (openid not in scope)"
    else ok (parse_scopes scope)

unfoldable pub login_scopes : Option String → Option String → Result String (List OidcScope)
login_scopes response_type scope =
    if not (is_given response_type)
    then err "Missing response_type parameter"
    else if not (response_type == some "code")
    then err "code is the only supported response_type"
    else code_scopes scope

-- `except OAuthError`
abbrev pub is_oauth_error : Error → Bool
is_oauth_error e = elim e [
  | invalid_client ↦ true
  | invalid_grant ↦ true
  | unsupported_grant_type ↦ true
  | invalid_request ↦ true
  | invalid_token ↦ true
  | insufficient_scope ↦ true
  | _ ↦ false
]

-- The answer of `post_token`: a token, or status 400 with the code of an error.
pub data TokenAnswer : Type 0 where
  granted : OidcTokenReply → TokenAnswer
  refused : Error → TokenAnswer

unfoldable pub catch_oauth : Result Error OidcTokenReply → Result Error TokenAnswer
catch_oauth (ok reply) = ok (granted reply)
catch_oauth (err e) = if is_oauth_error e then ok (refused e) else err e

-- `{k: v for k, v in claims.items() if v is not None}`
unfoldable pub known_claims : Payload → List (String × Claim)
known_claims [] = []
known_claims ((name, none) ∷ payload) = known_claims payload
known_claims ((name, some claim) ∷ payload) = (name, claim) ∷ known_claims payload

abbrev pub as_failure : {B : Type 0} → Result Error B → Result Failure B
as_failure (ok b) = ok b
as_failure (err e) = err (raised e)

module _ (urlparse : String → ParsedUrl) (encode : List (String × Claim) → String)
    (user_info : TokenData → Result Error UserInfo) (decode : String → Option String)
    (config : Config) (server : OidcConfig) (R : Storage TokenData) (A : Storage OidcAuthorization)
    (now : ℕ) (context : RequestContext) (drawn : Token) where
  abbrev pub Route : Type 0 → Type 0
  Route B = Exec (OidcWorld R A) Failure B

  abbrev raising : {B : Type 0} → OidcAction R A B → Route B
  raising m w = let (r, v) = m w in (as_failure r, v)

  unfoldable pub answer_login :
      AuthorizationCode → LoginQuery → TokenData → Result String (List OidcScope) → Route ReturnUrl
  answer_login code query d (err description) = pure (
      build_return_url query.redirect_uri (
        ("state", query.state)
        ∷ ("error", some "invalid_request")
        ∷ ("error_description", some description)
        ∷ []))
  answer_login code query d (ok scopes) = do
    issued ← raising (
        issue_code urlparse encode user_info config server R A now code query.client_id
          query.redirect_uri d.token scopes query.nonce)
    pure (
        build_return_url query.redirect_uri
          (("state", query.state) ∷ ("code", some (code_to_str issued)) ∷ []))

  -- `get_login`, with the code that is drawn.
  unfoldable pub get_login : AuthorizationCode → LoginQuery → Route ReturnUrl
  get_login code query w =
      (do
        d ← lift (authenticate_read login_policy context decode R now drawn w.tokens)
        lift (
            as_failure (validate_client urlparse server.clients query.client_id query.redirect_uri))
        answer_login code query d (login_scopes query.response_type query.scope))
        w

  -- The end of the database transaction of `post_token`.
  unfoldable pub end_request :
      World R → Result Error TokenAnswer → OidcWorld R A → Result Error TokenAnswer × OidcWorld R A
  end_request before r w = let (q, v) = close R before.db r w.tokens in (q, record w { tokens = v })

  unfoldable pub post_token : TokenRequest → OidcAction R A TokenAnswer
  post_token request w =
      let (r, v) =
        redeem_code urlparse encode user_info config server R A now drawn context.ip_address request
          w in
      end_request w.tokens (catch_oauth r) v

  unfoldable pub userinfo_for : TokenData → Result Failure (List (String × Claim))
  userinfo_for d = elim (d.token_type) [
    | oidc ↦ elim (user_info d) [
      | ok info ↦ ok (known_claims (user_claims server d info))
      | err e ↦ err (raised e)
    ]
    | _ ↦ err (generate_challenge context.realm bearer invalid_token [] true)
  ]

  unfoldable pub get_userinfo : Route (List (String × Claim))
  get_userinfo w =
      (do
        d ← lift (authenticate_read bearer_policy context decode R now drawn w.tokens)
        lift (userinfo_for d))
        w
