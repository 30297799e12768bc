-- ===== src/Oidc/Redeem.antt =====
-- `issue_code` and `redeem_code` of `OIDCService` in src/gafaelfawr/services/oidc.py.
pub mod Checked
pub mod Once
pub mod Issued
use gafaelfawr.Prelude.{ℕ, String, Option, List}
use gafaelfawr.Prelude.Result.{Result}
use gafaelfawr.Prelude.Exec.{pure, lift, ◌>>=◌, ◌>>◌}
use gafaelfawr.Errors.{Error}
use gafaelfawr.Credential.{Token, AuthorizationCode}
use gafaelfawr.Models.{TokenData}
use gafaelfawr.Storage.Redis.{Storage}
use gafaelfawr.Storage.World.{get_data}
use gafaelfawr.Tokens.{Config}
use gafaelfawr.Tokens.Create.{create_oidc_token}
use gafaelfawr.Oidc.Clients.{ParsedUrl, validate_client}
use gafaelfawr.Oidc.Claims.{OidcScope, Claim, filter_claims, get_claim}
use gafaelfawr.Oidc.Codes.{
  OidcAuthorization, OidcWorld, OidcAction, on_tokens, create_code, delete_code, get_code,
}
use gafaelfawr.Oidc.IdToken.{
  OidcConfig, UserInfo, OidcVerifiedToken, TokenRequest, OidcTokenReply, present, text_claim,
  id_claims, check_authorized, check_request, reply_of,
}

module _ (urlparse : String → ParsedUrl) (encode : List (String × Claim) → String)
    (user_info : TokenData → Result Error UserInfo) (config : Config) (oidc : OidcConfig)
    (R : Storage TokenData) (A : Storage OidcAuthorization) (now : ℕ) where
  -- A value that is only read.
  abbrev read : {B : Type 0} → (OidcWorld R A → Result Error B) → OidcAction R A B
  read f w = (f w, w)

  -- `issue_code`, with the code that is drawn.
  unfoldable pub issue_code :
      AuthorizationCode
      → String
      → String
      → Token
      → List OidcScope
      → Option String
      → OidcAction R A AuthorizationCode
  issue_code drawn client_id redirect_uri token scopes nonce = do
    lift (validate_client urlparse oidc.clients client_id redirect_uri)
    create_code R A now (record {
      code = drawn;
      client_id = client_id;
      redirect_uri = redirect_uri;
      token = token;
      created_at = now;
      scopes = scopes;
      nonce = nonce;
    })
    pure drawn

  unfoldable pub signed : OidcAuthorization → TokenData → UserInfo → OidcVerifiedToken
  signed a d info =
      let claims = filter_claims a.scopes (id_claims config oidc now a d info) in
      record { encoded = encode claims; claims = claims }

  -- The data of the token on which the authorization is based.
  unfoldable pub token_data_of : OidcAuthorization → OidcAction R A TokenData
  token_data_of a = read (λ w. present (get_data R now a.token w.tokens))

  unfoldable pub issue_id_token : OidcAuthorization → OidcAction R A OidcVerifiedToken
  issue_id_token a = do d ← token_data_of a; info ← lift (user_info d); pure (signed a d info)

  module _ (drawn : Token) (ip_address : String) where
    -- From the check of the authorization to the reply.
    unfoldable pub grant :
        AuthorizationCode
        → String
        → String
        → OidcAuthorization
        → TokenData
        → OidcAction R A OidcTokenReply
    grant auth_code client_id redirect_uri a d = do
      lift (check_authorized a client_id redirect_uri)
      id_token ← issue_id_token a
      access_token ← on_tokens R A (create_oidc_token R config now drawn d ip_address)
      lift (text_claim (get_claim "sub" id_token.claims))
      delete_code R A auth_code
      lift (reply_of now access_token id_token)

    unfoldable pub redeem_code : TokenRequest → OidcAction R A OidcTokenReply
    redeem_code request = do
      (auth_code, client_id, redirect_uri) ← lift (check_request urlparse oidc.clients request)
      a ← read (get_code R A now auth_code)
      d ← token_data_of a
      grant auth_code client_id redirect_uri a d
