-- ===== src/Oidc/Redeem/Checked.antt =====
-- What `redeem_code` of src/gafaelfawr/services/oidc.py has checked, and changed, when it answers.
use gafaelfawr.Prelude.{
  ℕ, String, ◌≡◌, ap, sym, ◌∙◌, Option, none, some, List, arith, string_eq, Bool-cases, inl, inr,
}
use gafaelfawr.Prelude.Result.{Result, ok}
use gafaelfawr.Prelude.Exec.{continue-eq_ok}
use gafaelfawr.Errors.{Error}
use gafaelfawr.Credential.{Token, AuthorizationCode}
use gafaelfawr.Models.{TokenData}
use gafaelfawr.Storage.Redis.{Fetched, missing, corrupt, found, Storage}
use gafaelfawr.Storage.World.{get_data}
use gafaelfawr.Tokens.{Config}
use gafaelfawr.Tokens.Create.{create_oidc_token}
use gafaelfawr.Oidc.Clients.{ParsedUrl}
use gafaelfawr.Oidc.Claims.{Claim, get_claim}
use gafaelfawr.Oidc.Registered.{IsRequestOf, check_request-IsRequestOf}
use gafaelfawr.Oidc.Codes.{
  OidcAuthorization, OidcWorld, same_code, check_code, get_code, delete_code,
}
use gafaelfawr.Oidc.IdToken.{
  OidcConfig, UserInfo, OidcVerifiedToken, TokenRequest, OidcTokenReply, present, text_claim,
  check_authorized, check_request,
}
use gafaelfawr.Oidc.Redeem.{token_data_of, issue_id_token, grant, redeem_code}

check_code-eq_ok :
    (code : AuthorizationCode) (f : Fetched OidcAuthorization) (a : OidcAuthorization)
    → check_code code f ≡ ok a
    → (f ≡ found a) × (a.code ≡ code)
unfolding check_code
check_code-eq_ok code missing a h = absurd (ground arith)
check_code-eq_ok code corrupt a h = absurd (ground arith)
check_code-eq_ok code (found b) a h = elim (Bool-cases (same_code b.code code)) [
  | inl same ↦ let whole : b ≡ a = ground arith in (ap found whole, ground arith)
  | inr other ↦ absurd (ground arith)
]

present-eq_ok : (o : Option TokenData) (d : TokenData) → present o ≡ ok d → o ≡ some d
unfolding present
present-eq_ok none d h = absurd (ground arith)
present-eq_ok (some held) d h = ground arith

module _ (urlparse : String → ParsedUrl) (encode : List (String × Claim) → String)
    (user_info : TokenData → Result Error UserInfo) (config : Config) (oidc : OidcConfig)
    (R : Storage TokenData) (A : Storage OidcAuthorization) (now : ℕ) (drawn : Token)
    (ip_address : String) where
  -- The grant of a request: who asks and for what, the authorization, the data of the token of the
  -- user who authorized it, and what became of the code.
  pub record IsRedeemed (request : TokenRequest) (w t : OidcWorld R A) : Type 0 where
    pub authorization : OidcAuthorization
    pub token_data : TokenData
    pub is_request :
        IsRequestOf urlparse oidc.clients request authorization.code authorization.client_id
          authorization.redirect_uri
    pub is_stored : A.get now w.codes authorization.code.key ≡ found authorization
    pub has_data : get_data R now authorization.token w.tokens ≡ some token_data
    pub is_deleted : t.codes ≡ A.delete w.codes authorization.code.key

  redeemed :
      (request : TokenRequest) (w t : OidcWorld R A) (code : AuthorizationCode)
      (client_id redirect_uri : String) (a : OidcAuthorization) (d : TokenData)
      → a.client_id ≡ client_id
      → a.redirect_uri ≡ redirect_uri
      → a.code ≡ code
      → IsRequestOf urlparse oidc.clients request code client_id redirect_uri
      → A.get now w.codes code.key ≡ found a
      → get_data R now a.token w.tokens ≡ some d
      → t.codes ≡ A.delete w.codes code.key
      → IsRedeemed request w t
  redeemed request w t code client_id redirect_uri a d client_eq uri_eq code_eq asked stored has
        deleted =
      record {
        authorization = a;
        token_data = d;
        is_request = rw (code_eq, client_eq, uri_eq) asked;
        is_stored = ap (λ c. A.get now w.codes c.key) code_eq ∙ stored;
        has_data = has;
        is_deleted = rw code_eq deleted;
      }

  issue_id_token-eq_ok :
      (a : OidcAuthorization) (w t : OidcWorld R A) (id_token : OidcVerifiedToken)
      → issue_id_token urlparse encode user_info config oidc R A now a w ≡ (ok id_token, t)
      → w ≡ t
  unfolding issue_id_token token_data_of
  issue_id_token-eq_ok a w t id_token h =
      let (d, has, rest) =
        continue-eq_ok (present (get_data R now a.token w.tokens)) _ w t id_token h in
      let (info, is, answer) = continue-eq_ok (user_info d) _ w t id_token rest in ground arith

  grant-eq_ok :
      (code : AuthorizationCode) (client_id redirect_uri : String) (a : OidcAuthorization)
      (d : TokenData) (w t : OidcWorld R A) (reply : OidcTokenReply)
      → grant urlparse encode user_info config oidc R A now drawn ip_address code client_id
          redirect_uri a d w
        ≡ (ok reply, t)
      → (a.client_id ≡ client_id)
        × (a.redirect_uri ≡ redirect_uri)
        × (t.codes ≡ A.delete w.codes code.key)
  unfolding grant delete_code check_authorized
  grant-eq_ok code client_id redirect_uri a d w t reply h =
      let (u, allowed, h1) =
        continue-eq_ok (check_authorized a client_id redirect_uri) _ w t reply h in
      let issue = issue_id_token urlparse encode user_info config oidc R A now a in
      let (id_token, issued, h2) = continue-eq_ok (issue w).0 _ (issue w).1 t reply h1 in
      let same = issue_id_token-eq_ok a w (issue w).1 id_token (λ i. (issued i, (issue w).1)) in
      let (created, tokens) =
        create_oidc_token R config now drawn d ip_address (issue w).1.tokens in
      let after : OidcWorld R A = record (issue w).1 { tokens = tokens } in
      let (access_token, made, h3) = continue-eq_ok created _ after t reply h2 in
      let (sub, has_sub, h4) =
        continue-eq_ok (text_claim (get_claim "sub" id_token.claims)) _ after t reply h3 in
      let deleted : A.delete (issue w).1.codes code.key ≡ t.codes = λ i. (h4 i).1.codes in
      (ground arith, ground arith, sym deleted ∙ ap (λ v. A.delete v.codes code.key) (sym same))

  -- When `redeem_code` answers, the request was for a code, with the grant type for codes, by a client
  -- that is registered first under its id with its secret, over HTTPS at the registered host and path; the
  -- code is stored with its secret for this client and this URI; the token of the user who authorized it
  -- still has data in Redis; and the code has been deleted.
  pub redeem_code-IsRedeemed :
      (request : TokenRequest) (w t : OidcWorld R A) (reply : OidcTokenReply)
      → redeem_code urlparse encode user_info config oidc R A now drawn ip_address request w
        ≡ (ok reply, t)
      → IsRedeemed request w t
  unfolding redeem_code token_data_of get_code
  redeem_code-IsRedeemed request w t reply h =
      let ((code, client_id, redirect_uri), asked, h1) =
        continue-eq_ok (check_request urlparse oidc.clients request) _ w t reply h in
      let (a, stored, h2) =
        continue-eq_ok (check_code code (A.get now w.codes code.key)) _ w t reply h1 in
      let (d, has, h3) =
        continue-eq_ok (present (get_data R now a.token w.tokens)) _ w t reply h2 in
      let (client_eq, uri_eq, deleted) = grant-eq_ok code client_id redirect_uri a d w t reply h3 in
      let (held, code_eq) = check_code-eq_ok code (A.get now w.codes code.key) a stored in
      redeemed request w t code client_id redirect_uri a d client_eq uri_eq code_eq
        (check_request-IsRequestOf urlparse oidc.clients request code client_id redirect_uri asked)
        held (present-eq_ok (get_data R now a.token w.tokens) d has) deleted
