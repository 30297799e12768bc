-- ===== src/Oidc/Redeem/Issued.antt =====
-- What `issue_code` of src/gafaelfawr/services/oidc.py stores for `redeem_code`.
use gafaelfawr.Prelude.{
  ℕ, ◌+◌, ◌*◌, ◌≤◌, ◌<◌, String, ◌≡◌, refl, ◌∙◌, Option, some, List, arith, string_eq, ==_refl,
}
use gafaelfawr.Prelude.Result.{Result, ok}
use gafaelfawr.Errors.{Error}
use gafaelfawr.Credential.{Token, AuthorizationCode}
use gafaelfawr.Models.{TokenData, second}
use gafaelfawr.Storage.Redis.{found, Storage, IsLawful}
use gafaelfawr.Tokens.{Config}
use gafaelfawr.Oidc.Clients.{ParsedUrl, validate_client}
use gafaelfawr.Oidc.Claims.{OidcScope, Claim}
use gafaelfawr.Oidc.Codes.{
  OidcAuthorization, OidcWorld, authorization_lifetime, on_wire, check_code, create_code, get_code,
}
use gafaelfawr.Oidc.IdToken.{OidcConfig, UserInfo}
use gafaelfawr.Oidc.Redeem.{issue_code}

module _ (urlparse : String → ParsedUrl) (encode : List (String × Claim) → String)
    (user_info : TokenData → Result Error UserInfo) (config : Config) (oidc : OidcConfig)
    (R : Storage TokenData) (A : Storage OidcAuthorization) (L : IsLawful A) (now : ℕ)
    (drawn : AuthorizationCode) (client_id redirect_uri : String) (token : Token)
    (scopes : List OidcScope) (nonce : Option String) where
  abbrev authorization : OidcAuthorization
  authorization = record {
    code = drawn;
    client_id = client_id;
    redirect_uri = redirect_uri;
    token = token;
    created_at = now;
    scopes = scopes;
    nonce = nonce;
  }

  check_code-same : check_code drawn (found (on_wire authorization)) ≡ ok (on_wire authorization)
  unfolding check_code
  check_code-same = ground (arith, ==_refl drawn.key, ==_refl drawn.secret)

  found_alive :
      (later : ℕ) (s t : A.State)
      → A.store now s drawn.key (on_wire authorization) (some authorization_lifetime) ≡ some t
      → now ≤ later
      → later < now + authorization_lifetime * second
      → A.get later t drawn.key ≡ found (on_wire authorization)
  found_alive later s t stored le before =
      L.get-store now later s t drawn.key drawn.key (on_wire authorization)
        (some authorization_lifetime) stored le
      ∙ ground (arith, ==_refl drawn.key)

  -- If the client is registered with this return URI, `issue_code` answers with the drawn code, and
  -- until an hour has passed the code then gives the authorization with the client, the URI, the
  -- token, the scopes and the nonce of the request. This supposes that the Redis storage of the
  -- codes meets its assumptions.
  pub issue_code-get_code :
      (w : OidcWorld R A)
      → validate_client urlparse oidc.clients client_id redirect_uri ≡ ok tt
      → (t : OidcWorld R A) × (issue_code urlparse encode user_info config oidc R A now drawn
            client_id redirect_uri token scopes nonce w
          ≡ (ok drawn, t))
        × ((later : ℕ)
            → now ≤ later
            → later < now + authorization_lifetime * second
            → get_code R A later drawn t ≡ ok (on_wire authorization))
  unfolding issue_code create_code get_code
  issue_code-get_code w valid =
      let (s, is) =
        L.store_total now w.codes drawn.key (on_wire authorization) (some authorization_lifetime)
          (omega arith) in
      (
        record w { codes = s },
        rw (valid, is) refl,
        λ later le before. rw (found_alive later w.codes s is le before) check_code-same,
      )
