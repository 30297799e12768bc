-- ===== src/Oidc/Examples.antt =====
-- A code that is issued and redeemed, at concrete values.
use mathlib.Core.Option
use gafaelfawr.Prelude.{
  false, Option, ℕ, ◌+◌, ◌*◌, ◌≤◌, ◌<◌, String, ◌≡◌, ◌≢◌, ◌⊎◌, refl, none, some, List, [], ◌∷◌,
  ◌==◌, string_eq, nat_eq, option_eq, if◌then◌else◌,
}
use gafaelfawr.Prelude.Text.{char_eq, starts_with, drop, split_once}
use gafaelfawr.Prelude.Result.{Result, ok}
use gafaelfawr.Errors.{Error}
use gafaelfawr.Credential.{
  Token, code_to_str, AuthorizationCode, code_from_str, token_to_str, parse, parse_trimmed,
  malformed,
}
use gafaelfawr.Models.{TokenData, second}
use gafaelfawr.Storage.Redis.{Storage, missing}
use gafaelfawr.Storage.Redis.Memory.{memory, memory-IsLawful}
use gafaelfawr.Storage.World.{get_data, get_data_by_key, store_data}
use gafaelfawr.Storage.Queries.{add_change}
use gafaelfawr.Storage.Database.{
  add, insert_token, insert_subtoken, check_name_conflict, name_taken,
}
use gafaelfawr.Tokens.Create.{store_new, create_oidc_token}
use gafaelfawr.Tokens.Examples.{R, config, now, drawn, own, someone}
use gafaelfawr.Models.Scopes.{sorted, insert}
use gafaelfawr.Headers.Words.{is_space}
use gafaelfawr.Headers.Challenges.{Failure}
use gafaelfawr.Authenticate.{
  RequestContext, authenticate_read, authenticate, find_token, verify_csrf, look_up, check_data,
  check_scope,
}
use gafaelfawr.Authenticate.Examples.{in_header, logged_in}
use gafaelfawr.Oidc.Clients.{
  ParsedUrl, return_uri_matches, validate_only, validate_client, check_secret_of,
  check_client_secret,
}
use gafaelfawr.Oidc.Claims.{
  openid, email, Claim, is_wanted, filter_claims, get_claim, join_words, build_data_rights,
  scope_of, split_spaces, known_scopes, parse_scopes,
}
use gafaelfawr.Oidc.Filtered.{is_released, signed-claims}
use gafaelfawr.Oidc.Codes.{
  OidcAuthorization, OidcWorld, authorization_lifetime, on_wire, check_code, get_code, create_code,
  delete_code,
}
use gafaelfawr.Oidc.IdToken.{
  OidcConfig, UserInfo, TokenRequest, OidcTokenReply, left, seconds_left, required, text_claim,
  number_claim, present, id_claims, check_authorized, check_request, reply_of,
}
use gafaelfawr.Oidc.Redeem.{issue_code, signed, token_data_of, issue_id_token, grant, redeem_code}
use gafaelfawr.Oidc.Handlers.{
  LoginQuery, ReturnUrl, given_params, build_return_url, has_openid, code_scopes, login_scopes,
  answer_login, get_login,
}
use gafaelfawr.Oidc.Handlers.Login.{IsRefused, IsCodeFor, get_login-IsAnswer}
use gafaelfawr.Oidc.Redeem.Checked.{IsRedeemed, redeem_code-IsRedeemed}
use gafaelfawr.Oidc.Redeem.Once.{redeem_code_once}
use gafaelfawr.Oidc.Redeem.Issued.{issue_code-get_code}

abbrev A : Storage OidcAuthorization
A = memory OidcAuthorization

abbrev return_uri : String
return_uri = "https://example.org/app"

-- A splitter that knows one URL.
abbrev urlparse : String → ParsedUrl
urlparse url =
    if url == return_uri
    then record { scheme = "https"; netloc = "example.org"; path = "/app"; params = "" }
    else record { scheme = ""; netloc = ""; path = url; params = "" }

abbrev encode : List (String × Claim) → String
encode claims = "eyJ0eXAiOiJKV1QifQ"

abbrev someuser : UserInfo
someuser = record { name = some "Some User"; email = none; groups = [] }

abbrev user_info : TokenData → Result Error UserInfo
user_info d = ok someuser

abbrev oidc : OidcConfig
oidc = record {
  issuer = "https://example.org/";
  clients = record { id = "app"; secret = "hunter2"; return_uri = return_uri } ∷ [];
  data_rights_mapping = λ group. [];
}

abbrev code : AuthorizationCode
code = record { key = "W74I5HltJZRc0fOUAapgVQ"; secret = "3T1xQQgeD063KgmNinw-tA" }

abbrev before : OidcWorld R A
before = record { tokens = logged_in; codes = λ t k. missing }

abbrev issued : Result Error AuthorizationCode × OidcWorld R A
issued =
    issue_code urlparse encode user_info config oidc R A now code "app" return_uri own
      (email ∷ openid ∷ []) none before

valid : validate_client urlparse oidc.clients "app" return_uri ≡ ok tt
unfolding validate_client validate_only return_uri_matches string_eq
valid = refl

issue_code-get_code_example :
    (t : OidcWorld R A) × (issued ≡ (ok code, t))
    × ((later : ℕ)
        → now ≤ later
        → later < now + authorization_lifetime * second
        → get_code R A later code t
          ≡ ok (
              on_wire (record {
                code = code;
                client_id = "app";
                redirect_uri = return_uri;
                token = own;
                created_at = now;
                scopes = email ∷ openid ∷ [];
                nonce = none;
              })))
issue_code-get_code_example =
    issue_code-get_code urlparse encode user_info config oidc R A
      (memory-IsLawful OidcAuthorization) now code "app" return_uri own (email ∷ openid ∷ []) none
      before valid

abbrev request : TokenRequest
request = record {
  grant_type = some "authorization_code";
  client_id = some "app";
  client_secret = some "hunter2";
  redirect_uri = some return_uri;
  code = some "gc-W74I5HltJZRc0fOUAapgVQ.3T1xQQgeD063KgmNinw-tA";
}

abbrev redeemed : Result Error OidcTokenReply × OidcWorld R A
redeemed =
    redeem_code urlparse encode user_info config oidc R A now drawn "192.0.2.1" request issued.1

abbrev reply : OidcTokenReply
reply = record {
  access_token = "gt-5KVApqcVbSQWtO3VIRgOhQ.8t5XdPSYTrteD0pDB15zqQ";
  id_token = "eyJ0eXAiOiJKV1QifQ";
  expires_in = left 3600;
  scope = "email openid";
}

redeems : redeemed ≡ (ok reply, redeemed.1)
unfolding valid issue_code create_code redeem_code check_request required code_from_str parse
    parse_trimmed malformed starts_with drop split_once check_client_secret check_secret_of get_code
    check_code token_data_of present get_data get_data_by_key grant check_authorized issue_id_token
    signed id_claims filter_claims is_wanted get_claim join_words build_data_rights
    create_oidc_token store_new store_data add insert_token insert_subtoken check_name_conflict
    name_taken add_change text_claim number_claim delete_code reply_of seconds_left token_to_str
    return_uri_matches validate_client validate_only string_eq char_eq nat_eq option_eq
redeems = refl

redeem_code-IsRedeemed_example :
    IsRedeemed urlparse encode user_info config oidc R A now drawn "192.0.2.1" request issued.1
      redeemed.1
redeem_code-IsRedeemed_example =
    redeem_code-IsRedeemed urlparse encode user_info config oidc R A now drawn "192.0.2.1" request
      issued.1 redeemed.1 reply redeems

-- The same request again, a second later.
abbrev repeated : Result Error OidcTokenReply × OidcWorld R A
repeated =
    redeem_code urlparse encode user_info config oidc R A (now + second) drawn "192.0.2.7" request
      redeemed.1

redeem_code_once_example : repeated ≢ (ok reply, redeemed.1)
redeem_code_once_example =
    redeem_code_once urlparse encode user_info config oidc R A (memory-IsLawful OidcAuthorization)
      now (now + second) drawn drawn "192.0.2.1" "192.0.2.7" request request issued.1 redeemed.1
      redeemed.1 redeemed.1 reply reply redeems refl (λ c same. refl)

abbrev authorization : OidcAuthorization
authorization = record {
  code = code;
  client_id = "app";
  redirect_uri = return_uri;
  token = own;
  created_at = now;
  scopes = email ∷ openid ∷ [];
  nonce = none;
}

signed-claims_example :
    let claims =
      (signed urlparse encode user_info config oidc R A now authorization someone
        someuser).claims in
    (get_claim "aud" claims
      ≡ (if is_released (email ∷ openid ∷ []) "aud" then some (Claim.text "app") else none))
    × (get_claim "sub" claims ≡ (
        if is_released (email ∷ openid ∷ []) "sub"
        then some (Claim.text someone.username)
        else none))
    × (get_claim "data_rights" claims ≡ (
        if is_released (email ∷ openid ∷ []) "data_rights"
        then Option.map Claim.text (build_data_rights oidc.data_rights_mapping someuser.groups)
        else none))
    × (get_claim "email" claims ≡ (
        if is_released (email ∷ openid ∷ []) "email"
        then Option.map Claim.text someuser.email
        else none))
    × ((name : String)
        → is_released (email ∷ openid ∷ []) name ≡ false
        → get_claim name claims ≡ none)
    × (get_claim "auth_time" claims ≡ none)
signed-claims_example =
    signed-claims urlparse encode user_info config oidc R A now authorization someone someuser

abbrev browser : RequestContext
browser = record in_header { method = "GET"; authorizations = []; state_token = some own }

abbrev query : LoginQuery
query = record {
  client_id = "app";
  redirect_uri = return_uri;
  response_type = some "code";
  scope = some "openid email";
  state = some "omeKJ7MNv_9dKSKnVNjxMQ";
  nonce = none;
}

abbrev no_decode : String → Option String
no_decode text = none

abbrev login : Result Failure ReturnUrl × OidcWorld R A
login =
    get_login urlparse encode user_info no_decode config oidc R A now browser drawn code query
      before

abbrev url : ReturnUrl
url = record {
  redirect_uri = return_uri;
  params =
      ("state", "omeKJ7MNv_9dKSKnVNjxMQ")
      ∷ ("code", "gc-W74I5HltJZRc0fOUAapgVQ.3T1xQQgeD063KgmNinw-tA")
      ∷ [];
}

logs_in : login ≡ (ok url, login.1)
unfolding get_login authenticate_read authenticate find_token verify_csrf look_up check_data
    check_scope get_data get_data_by_key answer_login login_scopes code_scopes has_openid
    parse_scopes split_spaces known_scopes scope_of sorted insert is_space issue_code create_code
    build_return_url given_params code_to_str validate_client validate_only return_uri_matches
    string_eq char_eq nat_eq option_eq
logs_in = refl

get_login-IsAnswer_example :
    (token : Token) × (d : TokenData) × (browser.state_token ≡ some token)
    × (get_data R now token before.tokens ≡ some d)
    × (validate_client urlparse oidc.clients "app" return_uri ≡ ok tt)
    × (IsRefused urlparse encode user_info no_decode config oidc R A
          (memory-IsLawful OidcAuthorization)
          now
          browser
          drawn
          query
          before
          url
          login.1
        ⊎ IsCodeFor urlparse encode user_info no_decode config oidc R A
            (memory-IsLawful OidcAuthorization)
            now
            browser
            drawn
            code
            query
            d
            url
            login.1)
get_login-IsAnswer_example =
    get_login-IsAnswer urlparse encode user_info no_decode config oidc R A
      (memory-IsLawful OidcAuthorization) now browser drawn code query before login.1 url logs_in
