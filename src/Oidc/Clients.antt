-- ===== src/Oidc/Clients.antt =====
-- The registered clients of src/gafaelfawr/config.py, and the checks of `OIDCService` in
-- src/gafaelfawr/services/oidc.py that concern them.
use gafaelfawr.Prelude.{
  String, Bool, not, ◌&&◌, Option, none, some, List, [], ◌∷◌, filter, ◌==◌, string_eq,
  if◌then◌else◌,
}
use gafaelfawr.Prelude.Result.{Result, err, guard}
use gafaelfawr.Errors.{Error, invalid_client, invalid_client_id, invalid_grant, return_uri_mismatch}

pub record OidcClient : Type 0 where
  pub id : String
  pub secret : String
  pub return_uri : String

-- What `urlparse` makes of a URL.
pub record ParsedUrl : Type 0 where
  pub scheme : String
  pub netloc : String
  pub path : String
  pub params : String

abbrev pub has_id : String → OidcClient → Bool
has_id client_id client = client.id == client_id

module _ (urlparse : String → ParsedUrl) where
  -- `_return_uri_matches`
  unfoldable pub return_uri_matches : String → String → Bool
  return_uri_matches allowed_str given_str =
      let allowed = urlparse allowed_str in
      let given = urlparse given_str in
      given.scheme == "https"
      && given.params == ""
      && allowed.netloc == given.netloc
      && allowed.path == given.path

  -- `validate_client`, on the clients of this id.
  unfoldable pub validate_only : String → List OidcClient → Result Error (Unit {0})
  validate_only redirect_uri [] = err invalid_client_id
  validate_only redirect_uri (client ∷ []) =
      guard (return_uri_matches client.return_uri redirect_uri) return_uri_mismatch
  validate_only redirect_uri (client ∷ other ∷ others) = err invalid_client_id

  unfoldable pub validate_client : List OidcClient → String → String → Result Error (Unit {0})
  validate_client clients client_id redirect_uri =
      validate_only redirect_uri (filter (has_id client_id) clients)

  -- The loop of `_check_client_secret`, which ends at the first client of the id.
  unfoldable pub check_secret_of :
      List OidcClient → String → String → String → Result Error (Unit {0})
  check_secret_of [] client_id client_secret return_uri = err invalid_client
  check_secret_of (client ∷ clients) client_id client_secret return_uri =
      let others = check_secret_of clients client_id client_secret return_uri in
      if not (has_id client_id client)
      then others
      else if client.secret == client_secret
      then guard (return_uri_matches client.return_uri return_uri) invalid_grant
      else err invalid_client

  unfoldable pub check_client_secret :
      List OidcClient → String → Option String → String → Result Error (Unit {0})
  check_client_secret clients client_id none return_uri = err invalid_client
  check_client_secret clients client_id (some client_secret) return_uri =
      if client_secret == ""
      then err invalid_client
      else check_secret_of clients client_id client_secret return_uri
