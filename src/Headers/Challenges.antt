-- ===== src/Headers/Challenges.antt =====
-- The `WWW-Authenticate` challenges: `generate_challenge` and `generate_unauthorized_challenge` of
-- src/gafaelfawr/auth.py over the data of src/gafaelfawr/models/auth.py. The wording of the
-- messages is left out.
use gafaelfawr.Prelude.{
  ℕ, String, Bool, false, ◌&&◌, ◌||◌, Option, none, some, List, [], ◌==◌, nat_eq, string_eq,
  if◌then◌else◌,
}
use gafaelfawr.Errors.{Error, invalid_token, insufficient_scope}
use gafaelfawr.Headers.Words.{lower_is}

pub data AuthType : Type 0 where
  basic bearer : AuthType

-- `AuthChallenge`, which has no error, and `AuthErrorChallenge`.
pub record AuthChallenge : Type 0 where
  pub auth_type : AuthType
  pub realm : String
  pub error : Option Error
  pub scopes : List String

-- What a dependency or a handler raises: an exception as it is; an `HTTPException` with a challenge,
-- its status code, and the status code for NGINX to restore in `X-Error-Status`; one that sends the
-- browser to `/login`, with the URL to come back to; and one with just a status code.
pub data Failure : Type 0 where
  raised : Error → Failure
  challenged : ℕ → AuthChallenge → Option ℕ → Failure
  redirected : String → Failure
  failed : ℕ → Failure

-- `status_code` of the subclasses of `OAuthBearerError`
abbrev pub status_code : Error → ℕ
status_code e = elim e [ invalid_token ↦ 401 | insufficient_scope ↦ 403 | _ ↦ 400 ]

-- `exc.status_code if exc.status_code in (401, 403) else 403`
abbrev nginx_status : ℕ → ℕ
nginx_status code = if code == 401 || code == 403 then code else 403

unfoldable pub generate_challenge : String → AuthType → Error → List String → Bool → Failure
generate_challenge realm auth_type exc scopes error_in_headers =
    let challenge : AuthChallenge = record {
      auth_type = auth_type;
      realm = realm;
      error = some exc;
      scopes = scopes;
    } in
    if error_in_headers
    then challenged (nginx_status (status_code exc)) challenge (some (status_code exc))
    else challenged (status_code exc) challenge none

-- `requested_with and requested_with.lower() == "xmlhttprequest"`
abbrev pub is_ajax : Option String → Bool
is_ajax none = false
is_ajax (some requested_with) = lower_is requested_with "xmlhttprequest"

unfoldable pub generate_unauthorized_challenge :
    String → Option String → AuthType → Option Error → Bool → Failure
generate_unauthorized_challenge realm requested_with auth_type exc ajax_forbidden =
    let challenge : AuthChallenge = record {
      auth_type = auth_type;
      realm = realm;
      error = exc;
      scopes = [];
    } in
    challenged (if ajax_forbidden && is_ajax requested_with then 403 else 401) challenge none
