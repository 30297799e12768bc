-- ===== src/Oidc/Registered.antt =====
-- What the checks of a token request in src/gafaelfawr/services/oidc.py let through.
use gafaelfawr.Prelude.{
  String, ◌≡◌, ◌≢◌, refl, ap, sym, ◌∙◌, true, Option, none, some, List, [], ◌∷◌, find, arith, ◌==◌,
  string_eq, Bool-cases, inl, inr,
}
use gafaelfawr.Prelude.Result.{Result, ok, err, guard, ◌>>=◌}
use gafaelfawr.Errors.{Error}
use gafaelfawr.Credential.{AuthorizationCode, code_from_str, code_to_str}
use gafaelfawr.Credential.Format.{IsWellFormed, code_from_str-eq_ok_iff}
use gafaelfawr.Oidc.Clients.{
  OidcClient, ParsedUrl, has_id, return_uri_matches, check_secret_of, check_client_secret,
}
use gafaelfawr.Oidc.IdToken.{TokenRequest, required, check_request}

required-eq_ok :
    (value : Option String) (s : String) → required value ≡ ok s → (value ≡ some s) × (s ≢ "")
unfolding required
required-eq_ok none s h = absurd (ground arith)
required-eq_ok (some held) s h = elim (string_eq.dec held "") [
  | yes empty ↦ absurd (ground arith)
  | no given ↦ let same : held ≡ s = ground arith in (ap some same, λ e. given (rw same e))
]

then_ok :
    {A B : Type 0} (r : Result Error A) (f : A → Result Error B) (b : B)
    → (r >>= f) ≡ ok b
    → (a : A) × (r ≡ ok a) × (f a ≡ ok b)
then_ok (err e) f b h = absurd (ground arith)
then_ok (ok a) f b h = (a, refl, h)

module _ (urlparse : String → ParsedUrl) where
  -- A URL with the host and the path of the other one, over HTTPS and without parameters.
  abbrev pub IsReturnUri : String → String → Type 0
  IsReturnUri allowed given =
      ((urlparse given).scheme ≡ "https")
      × ((urlparse given).params ≡ "")
      × ((urlparse allowed).netloc ≡ (urlparse given).netloc)
      × ((urlparse allowed).path ≡ (urlparse given).path)

  return_uri_matches-IsReturnUri :
      (allowed given : String)
      → return_uri_matches urlparse allowed given ≡ true
      → IsReturnUri allowed given
  unfolding return_uri_matches
  return_uri_matches-IsReturnUri allowed given h =
      (ground arith, ground arith, ground arith, ground arith)

  -- The first client of this id has this secret, which is not empty, and this return URI.
  abbrev pub IsRegistered : List OidcClient → String → Option String → String → Type 0
  IsRegistered clients client_id client_secret return_uri =
      (client : OidcClient) × (find (has_id client_id) clients ≡ some client)
      × (client_secret ≡ some client.secret)
      × (client.secret ≢ "")
      × IsReturnUri client.return_uri return_uri

  check_secret_of-eq_ok :
      (clients : List OidcClient) (client_id client_secret return_uri : String)
      → check_secret_of urlparse clients client_id client_secret return_uri ≡ ok tt
      → (client : OidcClient) × (find (has_id client_id) clients ≡ some client)
        × (client_secret ≡ client.secret)
        × IsReturnUri client.return_uri return_uri
  unfolding check_secret_of
  check_secret_of-eq_ok [] client_id client_secret return_uri h = absurd (ground arith)
  check_secret_of-eq_ok (client ∷ clients) client_id client_secret return_uri h =
      elim (Bool-cases (has_id client_id client)) [
        | inl same ↦ (
          client,
          ground arith,
          ground arith,
          return_uri_matches-IsReturnUri client.return_uri return_uri (ground arith),
        )
        | inr other ↦
            let (found, is, secret, matches) =
              check_secret_of-eq_ok clients client_id client_secret return_uri (ground arith) in
            (found, ground arith, secret, matches)
      ]

  check_client_secret-eq_ok :
      (clients : List OidcClient) (client_id : String) (client_secret : Option String)
      (return_uri : String)
      → check_client_secret urlparse clients client_id client_secret return_uri ≡ ok tt
      → IsRegistered clients client_id client_secret return_uri
  unfolding check_client_secret
  check_client_secret-eq_ok clients client_id none return_uri h = absurd (ground arith)
  check_client_secret-eq_ok clients client_id (some secret) return_uri h =
      elim (string_eq.dec secret "") [
        | yes empty ↦ absurd (ground arith)
        | no given ↦
            let (client, is, same, matches) =
              check_secret_of-eq_ok clients client_id secret return_uri (ground arith) in
            (client, is, ap some same, (λ e. given (rw same e)), matches)
      ]

  -- A request for the code, from a registered client that knows its secret.
  pub record IsRequestOf (clients : List OidcClient) (request : TokenRequest)
      (code : AuthorizationCode) (client_id redirect_uri : String) : Type 0 where
    pub has_grant_type : request.grant_type ≡ some "authorization_code"
    pub has_code : request.code ≡ some (code_to_str code)
    pub is_well_formed : IsWellFormed code.key code.secret
    pub has_client_id : request.client_id ≡ some client_id
    pub has_redirect_uri : request.redirect_uri ≡ some redirect_uri
    pub is_registered : IsRegistered clients client_id request.client_secret redirect_uri

  request_of :
      (clients : List OidcClient) (request : TokenRequest) (code made : AuthorizationCode)
      (client_id id redirect_uri uri grant_type held : String)
      → made ≡ code
      → id ≡ client_id
      → uri ≡ redirect_uri
      → grant_type ≡ "authorization_code"
      → code_to_str made ≡ held
      → IsWellFormed made.key made.secret
      → request.grant_type ≡ some grant_type
      → request.code ≡ some held
      → request.client_id ≡ some id
      → request.redirect_uri ≡ some uri
      → IsRegistered clients id request.client_secret uri
      → IsRequestOf clients request code client_id redirect_uri
  request_of clients request code made client_id id redirect_uri uri grant_type held c i u g p
        formed has_g has_c has_i has_u known =
      record {
        has_grant_type = has_g ∙ ap some g;
        has_code = has_c ∙ ap some (sym p ∙ ap code_to_str c);
        is_well_formed = rw c at formed;
        has_client_id = has_i ∙ ap some i;
        has_redirect_uri = has_u ∙ ap some u;
        is_registered = rw (i, u) at known;
      }

  pub check_request-IsRequestOf :
      (clients : List OidcClient) (request : TokenRequest) (code : AuthorizationCode)
      (client_id redirect_uri : String)
      → check_request urlparse clients request ≡ ok (code, client_id, redirect_uri)
      → IsRequestOf clients request code client_id redirect_uri
  unfolding check_request
  check_request-IsRequestOf clients request code client_id redirect_uri h =
      let (grant_type, has_grant, h1) = then_ok (required request.grant_type) _ _ h in
      let (id, has_id, h2) = then_ok (required request.client_id) _ _ h1 in
      let (held, has_code, h3) = then_ok (required request.code) _ _ h2 in
      let (uri, has_uri, h4) = then_ok (required request.redirect_uri) _ _ h3 in
      let (u, supported, h5) = then_ok (guard (grant_type == "authorization_code") _) _ _ h4 in
      let (made, parsed, h6) = then_ok (code_from_str held) _ _ h5 in
      let (v, registered, h7) =
        then_ok (check_client_secret urlparse clients id request.client_secret uri) _ _ h6 in
      let code_eq : made ≡ code = ground arith in
      let id_eq : id ≡ client_id = ground arith in
      let uri_eq : uri ≡ redirect_uri = ground arith in
      let type_eq : grant_type ≡ "authorization_code" = ground arith in
      let known = check_client_secret-eq_ok clients id request.client_secret uri registered in
      let (printed, formed) = (code_from_str-eq_ok_iff held made).0 parsed in
      request_of clients request code made client_id id redirect_uri uri grant_type held code_eq
        id_eq uri_eq type_eq printed formed
        (required-eq_ok request.grant_type grant_type has_grant).0
        (required-eq_ok request.code held has_code).0 (required-eq_ok request.client_id id has_id).0
        (required-eq_ok request.redirect_uri uri has_uri).0 known
