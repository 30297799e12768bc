-- ===== src/Oidc/Filtered.antt =====
-- The claims that `_filter_claims` of src/gafaelfawr/services/oidc.py leaves in an ID token.
use gafaelfawr.Prelude.{
  ℕ, String, ◌≡◌, refl, ap, ◌∙◌, ==_refl, Bool, ◌||◌, true, false, Option, none, some, List, [],
  ◌∷◌, arith, ◌==◌, string_eq, Bool-cases, inl, inr, if◌then◌else◌,
}
use mathlib.Core.Option
use gafaelfawr.Prelude.Result.{Result}
use gafaelfawr.Errors.{Error}
use gafaelfawr.Models.{TokenData}
use gafaelfawr.Tokens.{Config}
use gafaelfawr.Storage.Redis.{Storage}
use gafaelfawr.Oidc.Clients.{ParsedUrl}
use gafaelfawr.Oidc.Claims.{
  OidcScope, openid, profile, email, rubin, Claim, text, Payload, is_wanted, filter_claims,
  get_claim, build_data_rights, join_words,
}
use gafaelfawr.Oidc.Codes.{OidcAuthorization}
use gafaelfawr.Oidc.IdToken.{OidcConfig, UserInfo, id_claims, user_claims, scope_names}
use gafaelfawr.Oidc.Redeem.{signed}

-- The first value of this name that is not `None`.
unfoldable pub value_of : String → Payload → Option Claim
value_of name [] = none
value_of name ((other, none) ∷ payload) = value_of name payload
value_of name ((other, some claim) ∷ payload) =
    if name == other then some claim else value_of name payload

get_claim-filter_claims :
    (scopes : List OidcScope) (name : String) (payload : Payload)
    → get_claim name (filter_claims scopes payload)
      ≡ (if is_wanted scopes name then value_of name payload else none)
unfolding filter_claims get_claim value_of
get_claim-filter_claims scopes name [] = ground arith
get_claim-filter_claims scopes name ((other, none) ∷ payload) =
    get_claim-filter_claims scopes name payload
get_claim-filter_claims scopes name ((other, some claim) ∷ payload) =
    elim (string_eq.dec name other) [
      | yes same ↦ elim (Bool-cases (is_wanted scopes other)) [
        | inl wanted ↦
            let asked : is_wanted scopes name ≡ true = rw same wanted in
            rw (wanted, asked) (ground arith)
        | inr unwanted ↦
            let refused : is_wanted scopes name ≡ false = rw same unwanted in
            rw (unwanted, get_claim-filter_claims scopes name payload, refused) refl
      ]
      | no differ ↦ elim (Bool-cases (is_wanted scopes other)) [
        | inl wanted ↦ rw wanted (ground (arith, get_claim-filter_claims scopes name payload))
        | inr unwanted ↦ rw unwanted (ground (arith, get_claim-filter_claims scopes name payload))
      ]
    ]

-- The claims that a scope is to release.
unfoldable pub releases : OidcScope → String → Bool
releases openid name =
    name == "aud"
    || name == "iat"
    || name == "iss"
    || name == "exp"
    || name == "jti"
    || name == "nonce"
    || name == "scope"
    || name == "sub"
releases profile name = name == "name" || name == "preferred_username"
releases email name = name == "email"
releases rubin name = name == "data_rights"

-- Whether one of the scopes releases the claim.
unfoldable pub is_released : List OidcScope → String → Bool
is_released [] name = false
is_released (scope ∷ scopes) name = releases scope name || is_released scopes name

is_wanted-is_released :
    (scopes : List OidcScope) (name : String) → is_wanted scopes name ≡ is_released scopes name
unfolding is_wanted is_released releases
is_wanted-is_released [] name = refl
is_wanted-is_released (openid ∷ scopes) name = ground (arith, is_wanted-is_released scopes name)
is_wanted-is_released (profile ∷ scopes) name = ground (arith, is_wanted-is_released scopes name)
is_wanted-is_released (email ∷ scopes) name = ground (arith, is_wanted-is_released scopes name)
is_wanted-is_released (rubin ∷ scopes) name = ground (arith, is_wanted-is_released scopes name)

value_of-skip :
    (name other : String) (o : Option Claim) (payload : Payload)
    → (name == other) ≡ false
    → value_of name ((other, o) ∷ payload) ≡ value_of name payload
unfolding value_of
value_of-skip name other none payload h = refl
value_of-skip name other (some claim) payload h = rw h refl

value_of-here :
    (name : String) (o : Option Claim) (payload : Payload)
    → value_of name payload ≡ none
    → value_of name ((name, o) ∷ payload) ≡ o
unfolding value_of
value_of-here name none payload h = h
value_of-here name (some claim) payload h = ground (arith, ==_refl name)

no_auth_time : (scopes : List OidcScope) → is_released scopes "auth_time" ≡ false
unfolding is_released releases string_eq
no_auth_time [] = refl
no_auth_time (openid ∷ scopes) = no_auth_time scopes
no_auth_time (profile ∷ scopes) = no_auth_time scopes
no_auth_time (email ∷ scopes) = no_auth_time scopes
no_auth_time (rubin ∷ scopes) = no_auth_time scopes

module _ (config : Config) (oidc : OidcConfig) (now : ℕ) (a : OidcAuthorization) (d : TokenData)
    (info : UserInfo) where
  abbrev payload : Payload
  payload = id_claims config oidc now a d info

  -- The claims behind `nonce`.
  abbrev behind : Payload
  behind = ("scope", some (text (join_words (scope_names a.scopes)))) ∷ user_claims oidc d info

  value_of-data_rights :
      value_of "data_rights" payload
      ≡ Option.map text (build_data_rights oidc.data_rights_mapping info.groups)
  unfolding id_claims value_of string_eq
  value_of-data_rights =
      value_of-skip "data_rights" "nonce" (Option.map text a.nonce) behind refl
      ∙ value_of-here "data_rights" _ _ (
          value_of-skip "data_rights" "email" (Option.map text info.email) _ refl
          ∙ value_of-skip "data_rights" "name" (Option.map text info.name) _ refl)

  value_of-email : value_of "email" payload ≡ Option.map text info.email
  unfolding id_claims value_of string_eq
  value_of-email =
      value_of-skip "email" "nonce" (Option.map text a.nonce) behind refl
      ∙ (value_of-skip "email" "data_rights"
            (Option.map text (build_data_rights oidc.data_rights_mapping info.groups)) _ refl
          ∙ value_of-here "email" _ _
              (value_of-skip "email" "name" (Option.map text info.name) _ refl))

  value_of-sub : value_of "sub" payload ≡ some (text d.username)
  unfolding id_claims value_of string_eq
  value_of-sub =
      value_of-skip "sub" "nonce" (Option.map text a.nonce) behind refl
      ∙ (value_of-skip "sub" "data_rights"
            (Option.map text (build_data_rights oidc.data_rights_mapping info.groups)) _ refl
          ∙ (value_of-skip "sub" "email" (Option.map text info.email) _ refl
              ∙ value_of-skip "sub" "name" (Option.map text info.name) _ refl))

  value_of-aud : value_of "aud" payload ≡ some (text a.client_id)
  unfolding id_claims value_of string_eq
  value_of-aud = refl

module _ (urlparse : String → ParsedUrl) (encode : List (String × Claim) → String)
    (user_info : TokenData → Result Error UserInfo) (config : Config) (oidc : OidcConfig)
    (R : Storage TokenData) (A : Storage OidcAuthorization) (now : ℕ) where
  claim_in :
      (a : OidcAuthorization) (d : TokenData) (info : UserInfo) (name : String)
      → get_claim name (signed urlparse encode user_info config oidc R A now a d info).claims ≡ (
          if is_released a.scopes name
          then value_of name (id_claims config oidc now a d info)
          else none)
  unfolding signed
  claim_in a d info name =
      get_claim-filter_claims a.scopes name (id_claims config oidc now a d info)
      ∙ ap (λ b. if b then value_of name (id_claims config oidc now a d info) else none)
          (is_wanted-is_released a.scopes name)

  pub signed-claims :
      (a : OidcAuthorization) (d : TokenData) (info : UserInfo)
      → let claims = (signed urlparse encode user_info config oidc R A now a d info).claims in
        (get_claim "aud" claims
          ≡ (if is_released a.scopes "aud" then some (text a.client_id) else none))
        × (get_claim "sub" claims
            ≡ (if is_released a.scopes "sub" then some (text d.username) else none))
        × (get_claim "data_rights" claims ≡ (
            if is_released a.scopes "data_rights"
            then Option.map text (build_data_rights oidc.data_rights_mapping info.groups)
            else none))
        × (get_claim "email" claims
            ≡ (if is_released a.scopes "email" then Option.map text info.email else none))
        × ((name : String) → is_released a.scopes name ≡ false → get_claim name claims ≡ none)
        × (get_claim "auth_time" claims ≡ none)
  signed-claims a d info = (
    claim_in a d info "aud"
        ∙ ap (λ v. if is_released a.scopes "aud" then v else none)
            (value_of-aud config oidc now a d info),
    claim_in a d info "sub"
        ∙ ap (λ v. if is_released a.scopes "sub" then v else none)
            (value_of-sub config oidc now a d info),
    claim_in a d info "data_rights"
        ∙ ap (λ v. if is_released a.scopes "data_rights" then v else none)
            (value_of-data_rights config oidc now a d info),
    claim_in a d info "email"
        ∙ ap (λ v. if is_released a.scopes "email" then v else none)
            (value_of-email config oidc now a d info),
    λ name kept. claim_in a d info name ∙ rw kept refl,
    claim_in a d info "auth_time" ∙ rw (no_auth_time a.scopes) refl,
  )
