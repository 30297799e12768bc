-- ===== src/Oidc/Redeem/Once.antt =====
-- Two requests with the same code: `redeem_code` of src/gafaelfawr/services/oidc.py.
use mathlib.Core.Option.{some-injective}
use gafaelfawr.Prelude.{
  ℕ, String, ◌≡◌, ◌≢◌, refl, ap, sym, ◌∙◌, some, List, arith, string_eq, ==_refl,
}
use gafaelfawr.Prelude.Result.{Result, ok}
use gafaelfawr.Errors.{Error}
use gafaelfawr.Credential.{Token, AuthorizationCode, code_to_str}
use gafaelfawr.Credential.Format.{IsWellFormed, code_from_str-eq_ok_iff}
use gafaelfawr.Models.{TokenData}
use gafaelfawr.Storage.Redis.{missing, found, Storage, IsLawful}
use gafaelfawr.Tokens.{Config}
use gafaelfawr.Oidc.Clients.{ParsedUrl}
use gafaelfawr.Oidc.Claims.{Claim}
use gafaelfawr.Oidc.Codes.{OidcAuthorization, OidcWorld}
use gafaelfawr.Oidc.IdToken.{OidcConfig, UserInfo, TokenRequest, OidcTokenReply}
use gafaelfawr.Oidc.Redeem.{redeem_code}
use gafaelfawr.Oidc.Redeem.Checked.{redeem_code-IsRedeemed}

code_to_str-injective :
    (c d : AuthorizationCode)
    → IsWellFormed c.key c.secret
    → IsWellFormed d.key d.secret
    → code_to_str c ≡ code_to_str d
    → c ≡ d
code_to_str-injective c d formed other same =
    let first = (code_from_str-eq_ok_iff (code_to_str c) c).1 (refl, formed) in
    let second = (code_from_str-eq_ok_iff (code_to_str c) d).1 (sym same, other) in
    ground (arith, first, second)

module _ (urlparse : String → ParsedUrl) (encode : List (String × Claim) → String)
    (user_info : TokenData → Result Error UserInfo) (config : Config) (oidc : OidcConfig)
    (R : Storage TokenData) (A : Storage OidcAuthorization) (L : IsLawful A) where
  deleted : (later : ℕ) (s : A.State) (key : String) → A.get later (A.delete s key) key ≡ missing
  deleted later s key = L.get-delete later s key key ∙ ground (arith, ==_refl key)

  found_missing : (a : OidcAuthorization) → found a ≢ missing
  found_missing a e = absurd (ground arith)

  -- A code that was redeemed is not redeemed again: once `redeem_code` has answered a request, it
  -- answers no other request with the same code, at any time, from any address and in any state in
  -- which nothing was stored under the key of the code since. This supposes that the Redis storage of
  -- the codes meets its assumptions.
  pub redeem_code_once :
      (now later : ℕ) (drawn other : Token) (ip_address address : String)
      (request again : TokenRequest) (w t u v : OidcWorld R A) (reply answer : OidcTokenReply)
      → redeem_code urlparse encode user_info config oidc R A now drawn ip_address request w
        ≡ (ok reply, t)
      → again.code ≡ request.code
      → ((code : AuthorizationCode)
          → request.code ≡ some (code_to_str code)
          → A.get later u.codes code.key ≡ A.get later t.codes code.key)
      → redeem_code urlparse encode user_info config oidc R A later other address again u
        ≢ (ok answer, v)
  redeem_code_once now later drawn other ip_address address request again w t u v reply answer h
        same kept second =
      let first =
        redeem_code-IsRedeemed urlparse encode user_info config oidc R A now drawn ip_address
          request w t reply h in
      let next =
        redeem_code-IsRedeemed urlparse encode user_info config oidc R A later other address again u
          v answer second in
      let texts : code_to_str next.authorization.code ≡ code_to_str first.authorization.code =
        some-injective _ _ (sym next.is_request.has_code ∙ same ∙ first.is_request.has_code) in
      let codes =
        code_to_str-injective next.authorization.code first.authorization.code
          next.is_request.is_well_formed first.is_request.is_well_formed texts in
      let gone =
        kept first.authorization.code first.is_request.has_code
        ∙ ap (λ s. A.get later s first.authorization.code.key) first.is_deleted
        ∙ deleted later w.codes first.authorization.code.key in
      found_missing next.authorization
        (sym next.is_stored ∙ ap (λ c. A.get later u.codes c.key) codes ∙ gone)
