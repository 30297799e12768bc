-- ===== src/Authenticate/Examples.antt =====
-- Requests that `Authenticate` lets through and refuses.
use gafaelfawr.Prelude.{
  ==_false→≢, String, ◌≡◌, ◌⊎◌, inl, refl, true, false, Option, none, some, [], ◌∷◌, ◌==◌,
  string_eq, nat_eq, option_eq, if◌then◌else◌,
}
use gafaelfawr.Prelude.Text.{char_eq, starts_with, drop, split_once, has_char}
use gafaelfawr.Prelude.Result.{ok, err}
use gafaelfawr.Errors.{invalid_csrf}
use gafaelfawr.Credential.{Token, token_from_str, parse, parse_trimmed, malformed, token_to_str}
use gafaelfawr.Storage.Redis.{missing, found}
use gafaelfawr.Storage.World.{World, get_data, get_data_by_key}
use gafaelfawr.Tokens.Examples.{R, now, drawn, own, someone, start}
use gafaelfawr.Headers.Words.{is_space, strip_left, first_word, split_word, lowers_to, lower_is}
use gafaelfawr.Headers.Authorization.{parse_authorization, parse_words}
use gafaelfawr.Headers.Challenges.{raised, bearer}
use gafaelfawr.Authenticate.{
  Policy, RequestContext, token_of, check_scope, check_data, find_in_header, find_token, look_up,
  verify_csrf, authenticate,
}
use gafaelfawr.Authenticate.Accepted.{
  IsPresented, IsDataOf, IsCsrfSafe, authenticate-eq_ok, authenticate-invalid_csrf,
}

abbrev policy : Policy
policy = record {
  require_session = false;
  require_bearer_token = false;
  require_scope = some "read:all";
  redirect_if_unauthenticated = false;
  allow_bootstrap_token = true;
  auth_type = bearer;
  ajax_forbidden = false;
}

abbrev pub in_header : RequestContext
in_header = record {
  method = "POST";
  url = "https://example.org/";
  authorizations = "Bearer gt-DGO1OnPohl0r3C7wqhzRgQ.2T1RHkIi4b14JzswnXfCsQ" ∷ [];
  cookies = [];
  ip_address = "192.0.2.1";
  requested_with = none;
  state_token = none;
  state_csrf = none;
  realm = "example.org";
  bootstrap_token = "gt-bm9tb3JlYm9vdHN0cmFwc3.R1aGVyZWlzb25seXRoaXMxMg";
}

abbrev in_cookie : RequestContext
in_cookie = record in_header { state_token = some own; state_csrf = some "OmNdVTtKKuK_VuJsGFdrqg" }

abbrev pub logged_in : World R
logged_in = record start { redis = λ t k. if k == own.key then found someone else missing }

abbrev decode : String → Option String
decode text = none

-- A form of a browser with a session, and a request with a token in its header.
accepted :
    authenticate policy in_cookie decode R now drawn in_cookie.state_csrf logged_in ≡ ok someone
unfolding authenticate find_token verify_csrf look_up check_data check_scope token_to_str get_data
    get_data_by_key string_eq option_eq char_eq nat_eq
accepted = refl

bearer_accepted : authenticate policy in_header decode R now drawn none logged_in ≡ ok someone
unfolding authenticate find_token find_in_header token_of look_up check_data check_scope
    parse_authorization parse_words split_word first_word strip_left is_space lower_is lowers_to
    has_char token_from_str parse parse_trimmed malformed starts_with drop split_once token_to_str
    get_data get_data_by_key string_eq char_eq nat_eq
bearer_accepted = refl

authenticate-eq_ok_example :
    (token : Token) × IsPresented policy in_cookie decode token
    × IsDataOf policy in_cookie decode R now drawn token logged_in someone
    × (policy.require_bearer_token ≡ false
        → (in_cookie.state_token ≡ none) ⊎ IsCsrfSafe in_cookie in_cookie.state_csrf)
authenticate-eq_ok_example =
    authenticate-eq_ok policy in_cookie decode R now drawn in_cookie.state_csrf logged_in someone
      accepted

authenticate-invalid_csrf_example :
    authenticate policy in_cookie decode R now drawn (some "guess") logged_in
    ≡ err (raised invalid_csrf)
unfolding string_eq option_eq
authenticate-invalid_csrf_example =
    authenticate-invalid_csrf policy in_cookie decode R now drawn (some "guess") logged_in own refl
      refl (==_false→≢ "POST" "GET" refl) (==_false→≢ "POST" "OPTIONS" refl)
      (inl (==_false→≢ (some "guess") (some "OmNdVTtKKuK_VuJsGFdrqg") refl))
