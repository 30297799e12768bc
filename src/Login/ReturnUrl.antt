-- ===== src/Login/ReturnUrl.antt =====
-- The dependencies of src/gafaelfawr/dependencies/return_url.py.
use gafaelfawr.Prelude.{String, Option, none, some, ◌==◌, string_eq, option_eq}
use gafaelfawr.Prelude.Result.{Result, ok, guard, ◌>>=◌, ◌>>◌}
use gafaelfawr.Errors.{Error, invalid_return_url}
use gafaelfawr.Login.Session.{given}

-- The host of the request: `X-Forwarded-Host` where the middleware has set it, and the realm.
pub record Host : Type 0 where
  pub forwarded_host : Option String
  pub realm : String

abbrev pub or_realm : String → Option String → String
or_realm realm none = realm
or_realm realm (some hostname) = hostname

unfoldable pub hostname_of : Host → String
hostname_of host = or_realm host.realm (given host.forwarded_host)

abbrev pub or_header : Option String → Option String → Option String → Option String
or_header rd (some url) header = rd
or_header rd none none = rd
or_header rd none (some redirect) = some redirect

-- `urlparse(url).hostname`, which raises `ValueError` for some texts.
module _ (hostname : String → Result Error (Option String)) (host : Host) where
  unfoldable pub check_url : String → Result Error (Unit {0})
  check_url url = do
    found ← hostname url
    guard (found == some (hostname_of host)) invalid_return_url

  unfoldable pub checked : Option String → Result Error (Option String)
  checked none = ok none
  checked (some rd) = do check_url rd; ok (some rd)

  unfoldable pub return_url : Option String → Result Error (Option String)
  return_url rd = checked (given rd)

  -- The parameter `rd`, or else the header `X-Auth-Request-Redirect`.
  unfoldable pub return_url_with_header :
      Option String → Option String → Result Error (Option String)
  return_url_with_header rd x_auth_request_redirect =
      return_url (or_header rd (given rd) (given x_auth_request_redirect))
