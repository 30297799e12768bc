-- ===== src/Oidc/Handlers/Login.antt =====
-- What `get_login` of src/gafaelfawr/handlers/oidc.py answers.
use gafaelfawr.Prelude.{
  ℕ, ◌+◌, ◌*◌, ◌≤◌, ◌<◌, String, ◌≡◌, ◌⊎◌, inl, inr, refl, ap, sym, ◌∙◌, true, Option, none, some,
  List, [], ◌∷◌, arith, ◌==◌, string_eq, option_eq, Bool-cases, ==→≡,
}
use gafaelfawr.Prelude.Result.{Result, ok, err}
use gafaelfawr.Prelude.Exec.{continue-eq_ok}
use gafaelfawr.Errors.{Error}
use gafaelfawr.Credential.{Token, AuthorizationCode, code_to_str}
use gafaelfawr.Models.{TokenData, second}
use gafaelfawr.Storage.Redis.{Storage, IsLawful}
use gafaelfawr.Storage.World.{get_data}
use gafaelfawr.Tokens.{Config}
use gafaelfawr.Authenticate.{RequestContext, authenticate_read}
use gafaelfawr.Authenticate.Accepted.{authenticate-eq_ok}
use gafaelfawr.Oidc.Clients.{ParsedUrl, validate_client}
use gafaelfawr.Oidc.Claims.{OidcScope, Claim, parse_scopes}
use gafaelfawr.Oidc.Codes.{OidcAuthorization, OidcWorld, authorization_lifetime, on_wire, get_code}
use gafaelfawr.Oidc.IdToken.{OidcConfig, UserInfo}
use gafaelfawr.Oidc.Redeem.{issue_code}
use gafaelfawr.Oidc.Redeem.Issued.{issue_code-get_code}
use gafaelfawr.Oidc.Handlers.{
  LoginQuery, ReturnUrl, login_policy, build_return_url, has_openid, code_scopes, login_scopes,
  as_failure, answer_login, get_login,
}

code_scopes-has_openid :
    (scope : Option String) (scopes : List OidcScope)
    → code_scopes scope ≡ ok scopes
    → has_openid scopes ≡ true
unfolding code_scopes
code_scopes-has_openid none scopes h = absurd (ground arith)
code_scopes-has_openid (some scope) scopes h = elim (Bool-cases (has_openid (parse_scopes scope))) [
  | inl holds ↦
      let same : parse_scopes scope ≡ scopes = ground arith in ap has_openid (sym same) ∙ holds
  | inr fails ↦ absurd (ground arith)
]

login_scopes-has_openid :
    (response_type scope : Option String) (scopes : List OidcScope)
    → login_scopes response_type scope ≡ ok scopes
    → (response_type ≡ some "code") × (has_openid scopes ≡ true)
unfolding login_scopes
login_scopes-has_openid response_type scope scopes h =
    elim (Bool-cases (response_type == some "code")) [
      | inl code ↦ (
        ==→≡ response_type (some "code") code,
        code_scopes-has_openid scope scopes (ground arith),
      )
      | inr other ↦ absurd (ground arith)
    ]

as_failure-eq_ok : {B : Type 0} (r : Result Error B) (b : B) → as_failure r ≡ ok b → r ≡ ok b
as_failure-eq_ok (ok a) b h = ground arith
as_failure-eq_ok (err e) b h = absurd (ground arith)

drawn_code :
    (r : Result Error AuthorizationCode) (code issued : AuthorizationCode)
    → r ≡ ok code
    → r ≡ ok issued
    → code ≡ issued
drawn_code r code issued h g = ground arith

module _ (urlparse : String → ParsedUrl) (encode : List (String × Claim) → String)
    (user_info : TokenData → Result Error UserInfo) (decode : String → Option String)
    (config : Config) (server : OidcConfig) (R : Storage TokenData) (A : Storage OidcAuthorization)
    (L : IsLawful A) (now : ℕ) (context : RequestContext) (drawn : Token) where
  -- The session of the browser, whatever headers the request has.
  session_of :
      (w : OidcWorld R A) (d : TokenData)
      → authenticate_read login_policy context decode R now drawn w.tokens ≡ ok d
      → (token : Token) × (context.state_token ≡ some token)
        × (get_data R now token w.tokens ≡ some d)
  unfolding authenticate_read
  session_of w d h =
      let (token, presented, known, safe) =
        authenticate-eq_ok login_policy context decode R now drawn none w.tokens d h in
      elim presented [
        | inl (cookie, any) ↦ elim known [
          | inl (bootstrap, is, made) ↦ absurd (ground arith)
          | inr (has, scope) ↦ (token, cookie, has)
        ]
        | inr (text, any, found, parsed) ↦ absurd (ground arith)
      ]

  -- The browser goes back with an error, and nothing has changed.
  abbrev pub IsRefused : LoginQuery → OidcWorld R A → ReturnUrl → OidcWorld R A → Type 0
  IsRefused query w url t =
      (description : String) × (t ≡ w)
      × (login_scopes query.response_type query.scope ≡ err description)
      × (url
          ≡ build_return_url query.redirect_uri (
              ("state", query.state)
              ∷ ("error", some "invalid_request")
              ∷ ("error_description", some description)
              ∷ []))

  -- The browser goes back with a code for the token of its session, which is good for an hour.
  abbrev pub IsCodeFor :
      AuthorizationCode → LoginQuery → TokenData → ReturnUrl → OidcWorld R A → Type 0
  IsCodeFor code query d url t =
      (scopes : List OidcScope) × (query.response_type ≡ some "code")
      × (login_scopes query.response_type query.scope ≡ ok scopes)
      × (has_openid scopes ≡ true)
      × (url
          ≡ build_return_url query.redirect_uri
              (("state", query.state) ∷ ("code", some (code_to_str code)) ∷ []))
      × ((later : ℕ)
          → now ≤ later
          → later < now + authorization_lifetime * second
          → get_code R A later code t
            ≡ ok (
                on_wire (record {
                  code = code;
                  client_id = query.client_id;
                  redirect_uri = query.redirect_uri;
                  token = d.token;
                  created_at = now;
                  scopes = scopes;
                  nonce = query.nonce;
                })))

  answer_login-ok :
      (code : AuthorizationCode) (query : LoginQuery) (d : TokenData)
      (scopes : Result String (List OidcScope)) (w t : OidcWorld R A) (url : ReturnUrl)
      → login_scopes query.response_type query.scope ≡ scopes
      → validate_client urlparse server.clients query.client_id query.redirect_uri ≡ ok tt
      → answer_login urlparse encode user_info decode config server R A now context drawn code query
          d scopes w
        ≡ (ok url, t)
      → IsRefused query w url t ⊎ IsCodeFor code query d url t
  unfolding answer_login
  answer_login-ok code query d (err description) w t url is valid h =
      inl (description, ground arith, is, ground arith)
  answer_login-ok code query d (ok scopes) w t url is valid h =
      let (typed, with_openid) =
        login_scopes-has_openid query.response_type query.scope scopes is in
      let (u, made, lasts) =
        issue_code-get_code urlparse encode user_info config server R A L now code query.client_id
          query.redirect_uri d.token scopes query.nonce w valid in
      let (first, after) =
        issue_code urlparse encode user_info config server R A now code query.client_id
          query.redirect_uri d.token scopes query.nonce w in
      let (issued, is_issued, rest) = continue-eq_ok (as_failure first) _ after t url h in
      let same : code ≡ issued =
        drawn_code first code issued (λ i. (made i).0) (as_failure-eq_ok first issued is_issued) in
      let whole : u ≡ t = sym (λ i. (made i).1) ∙ (λ i. (rest i).1) in
      inr (
        scopes,
        typed,
        is,
        with_openid,
        ground (arith, same),
        λ later le before. ap (get_code R A later code) (sym whole) ∙ lasts later le before,
      )

  -- When `get_login` answers, the browser has a session whose token has data in Redis, and the client is
  -- registered with this return URI. The browser goes back there with an error, and nothing has changed;
  -- or it asked for a code with a scope that has `openid`, and it goes back with the drawn code,
  -- which for an hour gives the authorization of this client for the token of the session. This
  -- supposes that the Redis storage of the codes meets its assumptions.
  pub get_login-IsAnswer :
      (code : AuthorizationCode) (query : LoginQuery) (w t : OidcWorld R A) (url : ReturnUrl)
      → get_login urlparse encode user_info decode config server R A now context drawn code query w
        ≡ (ok url, t)
      → (token : Token) × (d : TokenData) × (context.state_token ≡ some token)
        × (get_data R now token w.tokens ≡ some d)
        × (validate_client urlparse server.clients query.client_id query.redirect_uri ≡ ok tt)
        × (IsRefused query w url t ⊎ IsCodeFor code query d url t)
  unfolding get_login
  get_login-IsAnswer code query w t url h =
      let known = authenticate_read login_policy context decode R now drawn w.tokens in
      let (d, is_known, h1) = continue-eq_ok known _ w t url h in
      let checked = validate_client urlparse server.clients query.client_id query.redirect_uri in
      let (u, is_checked, h2) = continue-eq_ok (as_failure checked) _ w t url h1 in
      let valid = as_failure-eq_ok checked tt is_checked in
      let (token, cookie, has) = session_of w d is_known in
      let asked = login_scopes query.response_type query.scope in
      (token, d, cookie, has, valid, answer_login-ok code query d asked w t url refl valid h2)
