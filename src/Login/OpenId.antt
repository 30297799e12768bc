-- ===== src/Login/OpenId.antt =====
-- The provider of src/gafaelfawr/providers/oidc.py: `OIDCProvider` and `OIDCTokenVerifier`. The requests
-- over HTTP, the library for JWTs and the conversion of a key to PEM are parameters.
pub mod Verified
mod Examples
use Prim.Native.Char.{Char}
use gafaelfawr.Prelude.{
  ℕ, String, ◌<>◌, Bool, true, false, not, ◌&&◌, Option, none, some, List, [], ◌∷◌, ◌++◌, ◌==◌,
  nat_eq, string_eq, option_eq, if◌then◌else◌,
}
use gafaelfawr.Prelude.Result.{Result, ok, err, guard, ◌>>=◌, ◌>>◌}
use gafaelfawr.Prelude.Text.{char_eq}
use gafaelfawr.Prelude.Dict.{update}
use gafaelfawr.Errors.{
  Error, fetch_keys, invalid_token_claims, missing_username_claim, unknown_algorithm,
  unknown_key_id, jwt_error, key_error, oidc_error, oidc_not_enrolled, oidc_web_error,
  permission_denied,
}
use gafaelfawr.Models.{Metadata}
use gafaelfawr.Usernames.{valid_username}
use gafaelfawr.Login.Http.{Http, unreachable, reply, is_success}
use gafaelfawr.Login.Session.{State, given}
use gafaelfawr.Login.Providers.{Provider, TokenUserInfo}

pub record OidcProviderConfig : Type 0 where
  pub client_id : String
  pub redirect_url : String
  pub login_url : String
  pub login_params : List (String × String)
  pub scopes : List String
  pub issuer : String
  pub audience : String
  pub username_claim : String

-- The JSON objects that are read, each key missing or a text.
pub record TokenReply : Type 0 where
  pub error : Option String
  pub error_description : Option String
  pub id_token : Option String

pub record ServerMetadata : Type 0 where
  pub jwks_uri : Option String

pub record Jwk : Type 0 where
  pub kid : Option String
  pub alg : Option String
  pub n : Option String
  pub e : Option String

pub record KeySet : Type 0 where
  pub keys : Option (List Jwk)

pub data ClaimValue : Type 0 where
  text : String → ClaimValue
  other : ClaimValue

abbrev pub Claims : Type 0
Claims = List (String × ClaimValue)

-- What the provider calls: the token endpoint for a code, the two documents of the issuer, PyJWT, and
-- the key in PEM from its modulus and exponent.
pub record Calls : Type 0 where
  pub post_token : String → Http TokenReply
  pub get_metadata : String → Http ServerMetadata
  pub get_keys : String → Http KeySet
  pub get_unverified_kid : String → Result Error (Option String)
  pub get_unverified_iss : String → Result Error (Option String)
  pub decode : String → String → String → Result Error Claims
  pub build_public_key : String → String → Result Error String
  pub urlencode : List (String × String) → String

-- `" ".join(scopes)`
unfoldable pub join_words : List String → String
join_words [] = ""
join_words (word ∷ []) = word
join_words (word ∷ next ∷ words) = word <> (" " <> join_words (next ∷ words))

abbrev is_empty : String → Bool
is_empty String.[] = true
is_empty (String.◌∷◌ c s) = false

abbrev slash : Char
slash = "/"

-- `text.rstrip("/")`
unfoldable pub rstrip_slash : String → String
rstrip_slash String.[] = String.[]
rstrip_slash (String.◌∷◌ c s) =
    let rest = rstrip_slash s in
    if c == slash && is_empty rest then String.[] else String.◌∷◌ c rest

abbrev pub field_of : Error → Option String → Result Error String
field_of e none = err e
field_of e (some value) = ok value

unfoldable pub claim_of : String → Claims → Option ClaimValue
claim_of name [] = none
claim_of name ((key, value) ∷ claims) = if key == name then some value else claim_of name claims

-- The key of this id that stands last; a key without `kid` makes the loop raise `KeyError`.
unfoldable pub find_key : String → List Jwk → Option Jwk → Result Error (Option Jwk)
find_key key_id [] found = ok found
find_key key_id (k ∷ keys) found = do
  kid ← field_of key_error k.kid
  find_key key_id keys (if key_id == kid then some k else found)

-- The exceptions that `create_user_info` turns into others.
unfoldable pub as_oidc_error : Error → Error
as_oidc_error e = elim e as (λ d. Error) [
  | missing_username_claim ↦ oidc_not_enrolled
  | jwt_error ↦ oidc_error
  | fetch_keys ↦ oidc_error
  | invalid_token_claims ↦ oidc_error
  | unknown_algorithm ↦ oidc_error
  | unknown_key_id ↦ oidc_error
  | same ↦ same
]

abbrev pub no_metadata : Metadata
no_metadata = record { name = none; email = none; uid = none; gid = none; groups = none }

module _ (config : OidcProviderConfig) (calls : Calls) where
  -- `get_redirect_url`
  unfoldable pub redirect_params : String → List (String × String)
  redirect_params state =
      update
        (("response_type", "code")
          ∷ ("client_id", config.client_id)
          ∷ ("redirect_uri", config.redirect_url)
          ∷ ("scope", join_words ("openid" ∷ config.scopes))
          ∷ ("state", state)
          ∷ [])
        config.login_params

  unfoldable pub get_redirect_url : String → String
  get_redirect_url state = config.login_url <> ("?" <> calls.urlencode (redirect_params state))

  -- The answer of the token endpoint.
  unfoldable pub id_token_of : Http TokenReply → Result Error String
  id_token_of unreachable = err oidc_web_error
  id_token_of (reply status none) = err oidc_error
  id_token_of (reply status (some body)) =
      if is_success status
      then field_of oidc_error body.id_token
      else elim (body.error) [ none ↦ err oidc_web_error | some error ↦ err oidc_error ]

  abbrev uri_in : Option String → Result Error (Option String)
  uri_in none = err fetch_keys
  uri_in (some uri) = ok (some uri)

  abbrev no_document : ℕ → Result Error (Option String)
  no_document status = if status == 404 then ok none else err oidc_web_error

  unfoldable pub jwks_uri_of : Http ServerMetadata → Result Error (Option String)
  jwks_uri_of unreachable = err oidc_web_error
  jwks_uri_of (reply status none) = if is_success status then err fetch_keys else no_document status
  jwks_uri_of (reply status (some body)) =
      if is_success status then uri_in body.jwks_uri else no_document status

  -- `_get_jwks_uri`
  unfoldable pub get_jwks_uri : String → Result Error (Option String)
  get_jwks_uri issuer_url =
      jwks_uri_of
        (calls.get_metadata (rstrip_slash issuer_url <> "/.well-known/openid-configuration"))

  abbrev keys_in : Option (List Jwk) → Result Error (List Jwk)
  keys_in none = err fetch_keys
  keys_in (some keys) = ok keys

  unfoldable pub keys_of : Http KeySet → Result Error (List Jwk)
  keys_of unreachable = err oidc_web_error
  keys_of (reply status none) = if is_success status then err fetch_keys else err oidc_web_error
  keys_of (reply status (some body)) =
      if is_success status then keys_in body.keys else err oidc_web_error

  abbrev pub or_jwks : String → Option String → String
  or_jwks issuer_url none = rstrip_slash issuer_url <> "/.well-known/jwks.json"
  or_jwks issuer_url (some url) = url

  -- `_get_keys`
  unfoldable pub get_keys : String → Result Error (List Jwk)
  get_keys issuer_url = do
    url ← get_jwks_uri issuer_url
    keys_of (calls.get_keys (or_jwks issuer_url (given url)))

  unfoldable pub key_as_pem : Option Jwk → Result Error String
  key_as_pem none = err unknown_key_id
  key_as_pem (some key) = do
    alg ← field_of key_error key.alg
    guard (alg == "RS256") unknown_algorithm
    e ← field_of key_error key.e
    n ← field_of key_error key.n
    calls.build_public_key e n

  -- `_get_key_as_pem`
  unfoldable pub get_key_as_pem : String → String → Result Error String
  get_key_as_pem issuer_url key_id = do
    keys ← get_keys issuer_url
    key ← find_key key_id keys none
    key_as_pem key

  -- `verify_token`
  unfoldable pub verify_token : String → Result Error Claims
  verify_token encoded = do
    kid ← calls.get_unverified_kid encoded
    iss ← calls.get_unverified_iss encoded
    issuer_url ← field_of jwt_error iss
    key_id ← field_of unknown_key_id kid
    guard (issuer_url == config.issuer) jwt_error
    key ← get_key_as_pem issuer_url key_id
    calls.decode encoded key config.audience

  unfoldable pub username_in : Option ClaimValue → Result Error String
  username_in none = err missing_username_claim
  username_in (some other) = err invalid_token_claims
  username_in (some (text username)) =
      if valid_username username then ok username else err permission_denied

  -- `_get_username_from_oidc_token`
  unfoldable pub get_username : Claims → Result Error String
  get_username claims = username_in (claim_of config.username_claim claims)

  unfoldable pub username_of : String → Result Error String
  username_of encoded = verify_token encoded >>= get_username

  abbrev pub translated : Result Error String → Result Error TokenUserInfo
  translated (ok username) = ok (record { username = username; metadata = no_metadata })
  translated (err e) = err (as_oidc_error e)

  unfoldable pub user_info_of : String → Result Error TokenUserInfo
  user_info_of code = do
    id_token ← id_token_of (calls.post_token code)
    translated (username_of id_token)

  -- The provider, which leaves the session alone and has nothing to revoke.
  unfoldable pub oidc_provider : Provider
  oidc_provider = record {
    get_redirect_url = get_redirect_url;
    create_user_info = λ code state s. (user_info_of code, s);
    logout = λ s. none;
  }
