-- ===== src/Oidc/IdToken.antt =====
-- The requests, ID tokens and replies of `redeem_code` in src/gafaelfawr/services/oidc.py, and its
-- checks of a request.
use gafaelfawr.Prelude.{
  ℕ, ◌+◌, ◌-◌, ◌*◌, ◌/◌, String, Option, none, some, List, [], ◌∷◌, ◌==◌, string_eq, leb,
  if◌then◌else◌,
}
use mathlib.Core.Option
use gafaelfawr.Prelude.Result.{Result, ok, err, guard, ◌>>=◌, ◌>>◌}
use gafaelfawr.Errors.{Error, invalid_request, invalid_grant, unsupported_grant_type, key_error}
use gafaelfawr.Credential.{Token, AuthorizationCode, code_from_str, token_to_str}
use gafaelfawr.Models.{TokenData, Group, second}
use gafaelfawr.Tokens.{Config}
use gafaelfawr.Oidc.Clients.{OidcClient, ParsedUrl, check_client_secret}
use gafaelfawr.Oidc.Claims.{
  OidcScope, scope_name, Claim, text, number, Payload, get_claim, join_words, build_data_rights,
}
use gafaelfawr.Oidc.Codes.{OidcAuthorization}

-- What the service reads of its configuration.
pub record OidcConfig : Type 0 where
  pub issuer : String
  pub clients : List OidcClient
  pub data_rights_mapping : String → List String

-- The part of `UserInfo` that claims are made of.
pub record UserInfo : Type 0 where
  pub name : Option String
  pub email : Option String
  pub groups : List Group

pub record OidcVerifiedToken : Type 0 where
  pub encoded : String
  pub claims : List (String × Claim)

-- The arguments of `redeem_code` but the address.
pub record TokenRequest : Type 0 where
  pub grant_type : Option String
  pub client_id : Option String
  pub client_secret : Option String
  pub redirect_uri : Option String
  pub code : Option String

-- `int(exp - time.time())`, which may be negative.
pub data Remaining : Type 0 where
  left overdue : ℕ → Remaining

pub record OidcTokenReply : Type 0 where
  pub access_token : String
  pub id_token : String
  pub expires_in : Remaining
  pub scope : String

unfoldable pub seconds_left : ℕ → ℕ → Remaining
seconds_left now exp =
    let t = exp * second in
    if leb now t then left ((t - now) / second) else overdue ((now - t) / second)

-- `if not value`
unfoldable pub required : Option String → Result Error String
required none = err invalid_request
required (some value) = if value == "" then err invalid_request else ok value

-- The claims that the reply needs: `claims[name]` raises `KeyError` without them.
unfoldable pub text_claim : Option Claim → Result Error String
text_claim (some (text value)) = ok value
text_claim (some (number n)) = err key_error
text_claim none = err key_error

unfoldable pub number_claim : Option Claim → Result Error ℕ
number_claim (some (number n)) = ok n
number_claim (some (text value)) = err key_error
number_claim none = err key_error

unfoldable pub present : Option TokenData → Result Error TokenData
present none = err invalid_grant
present (some d) = ok d

abbrev pub scope_names : List OidcScope → List String
scope_names [] = []
scope_names (scope ∷ scopes) = scope_name scope ∷ scope_names scopes

-- `token_to_userinfo_claims` for this user information, before it drops what is `None`.
abbrev pub user_claims : OidcConfig → TokenData → UserInfo → Payload
user_claims oidc d info =
    ("data_rights", Option.map text (build_data_rights oidc.data_rights_mapping info.groups))
    ∷ ("email", Option.map text info.email)
    ∷ ("name", Option.map text info.name)
    ∷ ("preferred_username", some (text d.username))
    ∷ ("sub", some (text d.username))
    ∷ []

abbrev expires_at : Config → ℕ → Option ℕ → ℕ
expires_at config now none = now + config.token_lifetime
expires_at config now (some expires) = expires

-- The payload of `issue_id_token` before it is filtered.
unfoldable pub id_claims :
    Config → OidcConfig → ℕ → OidcAuthorization → TokenData → UserInfo → Payload
id_claims config oidc now a d info =
    ("aud", some (text a.client_id))
    ∷ ("auth_time", some (number (d.created / second)))
    ∷ ("iat", some (number (now / second)))
    ∷ ("iss", some (text oidc.issuer))
    ∷ ("exp", some (number (expires_at config now d.expires / second)))
    ∷ ("jti", some (text a.code.key))
    ∷ ("nonce", Option.map text a.nonce)
    ∷ ("scope", some (text (join_words (scope_names a.scopes))))
    ∷ user_claims oidc d info

-- `if authorization.client_id != client_id` and the same for the URI.
unfoldable pub check_authorized : OidcAuthorization → String → String → Result Error (Unit {0})
check_authorized a client_id redirect_uri = do
  guard (a.client_id == client_id) invalid_grant
  guard (a.redirect_uri == redirect_uri) invalid_grant

-- The checks of the request itself, before the code is looked up.
unfoldable pub check_request :
    (String → ParsedUrl)
    → List OidcClient
    → TokenRequest
    → Result Error (AuthorizationCode × String × String)
check_request urlparse clients request = do
  grant_type ← required request.grant_type
  client_id ← required request.client_id
  code ← required request.code
  redirect_uri ← required request.redirect_uri
  guard (grant_type == "authorization_code") unsupported_grant_type
  auth_code ← code_from_str code
  check_client_secret urlparse clients client_id request.client_secret redirect_uri
  ok (auth_code, client_id, redirect_uri)

unfoldable pub reply_of : ℕ → Token → OidcVerifiedToken → Result Error OidcTokenReply
reply_of now access_token id_token = do
  exp ← number_claim (get_claim "exp" id_token.claims)
  scope ← text_claim (get_claim "scope" id_token.claims)
  ok (record {
    access_token = token_to_str access_token;
    id_token = id_token.encoded;
    expires_in = seconds_left now exp;
    scope = scope;
  })
