-- ===== src/Login/OpenId/Verified.antt =====
-- Which users the provider of src/gafaelfawr/providers/oidc.py identifies.
use gafaelfawr.Prelude.{
  String, ◌≡◌, ◌⊎◌, refl, inl, inr, ap, sym, ◌∙◌, Bool, true, false, Option, none, some, List, [],
  ◌∷◌, arith, ◌==◌, string_eq, option_eq, if◌then◌else◌, Bool-cases, ==→≡,
}
use gafaelfawr.Prelude.Result.{Result, ok, err, guard, ◌>>=◌}
use gafaelfawr.Errors.{Error, jwt_error, key_error, unknown_algorithm, unknown_key_id}
use gafaelfawr.Usernames.{valid_username}
use gafaelfawr.Login.Session.{State}
use gafaelfawr.Login.Providers.{TokenUserInfo, IsDiscreet}
use gafaelfawr.Login.OpenId.{
  OidcProviderConfig, Calls, Claims, ClaimValue, Jwk, text, translated, no_metadata, field_of,
  claim_of, find_key, id_token_of, get_keys, key_as_pem, get_key_as_pem, verify_token, username_in,
  get_username, username_of, user_info_of, oidc_provider,
}

module _ (config : OidcProviderConfig) (calls : Calls) where
  pub oidc_provider-IsDiscreet : IsDiscreet (oidc_provider config calls)
  unfolding oidc_provider
  oidc_provider-IsDiscreet = record {
    keeps_token = λ code state s. refl;
    keeps_return_url = λ code state s. refl;
  }

-- A step of a `do` block that gave a result.
>>=-eq_ok :
    {A B : Type 0} (r : Result Error A) (f : A → Result Error B) (b : B)
    → (r >>= f) ≡ ok b
    → (a : A) × (r ≡ ok a) × (f a ≡ ok b)
>>=-eq_ok (ok a) f b h = (a, refl, h)
>>=-eq_ok (err e) f b h = absurd (ground arith)

guard-eq_ok :
    {B : Type 0} (test : Bool) (e : Error) (m : Result Error B) (b : B)
    → (guard test e >>= λ _. m) ≡ ok b
    → (test ≡ true) × (m ≡ ok b)
guard-eq_ok true e m b h = (refl, h)
guard-eq_ok false e m b h = absurd (ground arith)

abbrev pub IsIn : Jwk → List Jwk → Type 0
IsIn k [] = ⊥
IsIn k (key ∷ keys) = (k ≡ key) ⊎ IsIn k keys

-- A key of this id that stands in the list.
abbrev pub IsKeyIn : String → List Jwk → Jwk → Type 0
IsKeyIn key_id keys k = (k.kid ≡ some key_id) × IsIn k keys

field_of-eq_ok : (e : Error) (o : Option String) (s : String) → field_of e o ≡ ok s → o ≡ some s
field_of-eq_ok e none s h = absurd (ground arith)
field_of-eq_ok e (some value) s h = ground arith

find_key-IsKeyIn :
    (key_id : String) (keys : List Jwk) (found : Option Jwk) (k : Jwk)
    → find_key key_id keys found ≡ ok (some k)
    → (found ≡ some k) ⊎ IsKeyIn key_id keys k
unfolding find_key
find_key-IsKeyIn key_id [] found k h = inl (ground arith)
find_key-IsKeyIn key_id (key ∷ keys) found k h =
    let (kid, is_kid, h1) = >>=-eq_ok (field_of key_error key.kid) _ (some k) h in
    let has = field_of-eq_ok key_error key.kid kid is_kid in
    elim (find_key-IsKeyIn key_id keys (if key_id == kid then some key else found) k h1) [
      | inl last ↦ elim (Bool-cases (key_id == kid)) [
        | inl same ↦
            let this : k ≡ key = ground arith in
            let is = ==→≡ key_id kid same in inr (ground arith, inl this)
        | inr differ ↦ inl (ground arith)
      ]
      | inr (is, later) ↦ inr (is, inr later)
    ]

module _ (config : OidcProviderConfig) (calls : Calls) where
  -- The key in PEM of the issuer of the configuration, for RS256 and with this id.
  abbrev pub IsIssuerKey : String → String → Type 0
  IsIssuerKey key_id key =
      (keys : List Jwk) × (k : Jwk) × (e n : String) × (get_keys config calls config.issuer
        ≡ ok keys)
      × IsKeyIn key_id keys k
      × (k.alg ≡ some "RS256")
      × (k.e ≡ some e)
      × (k.n ≡ some n)
      × (calls.build_public_key e n ≡ ok key)

  -- PyJWT accepts the token with such a key and our audience, and its claims have the username.
  abbrev pub IsVerified : String → String → Type 0
  IsVerified encoded username =
      (key_id key : String) × (claims : Claims) × (calls.get_unverified_kid encoded
        ≡ ok (some key_id))
      × (calls.get_unverified_iss encoded ≡ ok (some config.issuer))
      × IsIssuerKey key_id key
      × (calls.decode encoded key config.audience ≡ ok claims)
      × (claim_of config.username_claim claims ≡ some (text username))
      × (valid_username username ≡ true)

  key_as_pem-eq_ok :
      (found : Option Jwk) (key : String)
      → key_as_pem config calls found ≡ ok key
      → (k : Jwk) × (e n : String) × (found ≡ some k)
        × (k.alg ≡ some "RS256")
        × (k.e ≡ some e)
        × (k.n ≡ some n)
        × (calls.build_public_key e n ≡ ok key)
  unfolding key_as_pem
  key_as_pem-eq_ok none key h = absurd (ground arith)
  key_as_pem-eq_ok (some k) key h =
      let (alg, is_alg, h1) = >>=-eq_ok (field_of key_error k.alg) _ key h in
      let (same, h2) = guard-eq_ok (alg == "RS256") unknown_algorithm _ key h1 in
      let (e, is_e, h3) = >>=-eq_ok (field_of key_error k.e) _ key h2 in
      let (n, is_n, built) = >>=-eq_ok (field_of key_error k.n) _ key h3 in
      (
        k,
        e,
        n,
        refl,
        field_of-eq_ok key_error k.alg alg is_alg ∙ ap some (==→≡ alg "RS256" same),
        field_of-eq_ok key_error k.e e is_e,
        field_of-eq_ok key_error k.n n is_n,
        built,
      )

  get_key_as_pem-IsIssuerKey :
      (key_id key : String)
      → get_key_as_pem config calls config.issuer key_id ≡ ok key
      → IsIssuerKey key_id key
  unfolding get_key_as_pem
  get_key_as_pem-IsIssuerKey key_id key h =
      let (keys, is_keys, h1) = >>=-eq_ok (get_keys config calls config.issuer) _ key h in
      let (found, is_found, h2) = >>=-eq_ok (find_key key_id keys none) _ key h1 in
      let (k, e, n, same, alg, is_e, is_n, built) = key_as_pem-eq_ok found key h2 in
      let first : ◌≡◌ {A = Result Error (Option Jwk)} (find_key key_id keys none) (ok (some k)) =
        is_found ∙ ap ok same in
      elim (find_key-IsKeyIn key_id keys none k first) [
        | inl nothing ↦ absurd (ground arith)
        | inr is_key ↦ (keys, k, e, n, is_keys, is_key, alg, is_e, is_n, built)
      ]

  username_in-eq_ok :
      (o : Option ClaimValue) (username : String)
      → username_in config calls o ≡ ok username
      → (o ≡ some (text username)) × (valid_username username ≡ true)
  unfolding username_in
  username_in-eq_ok none username h = absurd (ground arith)
  username_in-eq_ok (some ClaimValue.other) username h = absurd (ground arith)
  username_in-eq_ok (some (text claimed)) username h = ground arith

  username_of-IsVerified :
      (encoded username : String)
      → username_of config calls encoded ≡ ok username
      → IsVerified encoded username
  unfolding username_of verify_token get_username
  username_of-IsVerified encoded username h =
      let (claims, is_claims, h1) = >>=-eq_ok (verify_token config calls encoded) _ username h in
      let (kid, is_kid, h2) = >>=-eq_ok (calls.get_unverified_kid encoded) _ claims is_claims in
      let (iss, is_iss, h3) = >>=-eq_ok (calls.get_unverified_iss encoded) _ claims h2 in
      let (issuer_url, is_url, h4) = >>=-eq_ok (field_of jwt_error iss) _ claims h3 in
      let (key_id, is_id, h5) = >>=-eq_ok (field_of unknown_key_id kid) _ claims h4 in
      let (same, h6) = guard-eq_ok (issuer_url == config.issuer) jwt_error _ claims h5 in
      let (key, is_key, decoded) =
        >>=-eq_ok (get_key_as_pem config calls issuer_url key_id) _ claims h6 in
      let ours : issuer_url ≡ config.issuer = ==→≡ issuer_url config.issuer same in
      let (named, valid) = username_in-eq_ok (claim_of config.username_claim claims) username h1 in
      (
        key_id,
        key,
        claims,
        is_kid ∙ ap ok (field_of-eq_ok unknown_key_id kid key_id is_id),
        is_iss ∙ ap ok (field_of-eq_ok jwt_error iss issuer_url is_url ∙ ap some ours),
        get_key_as_pem-IsIssuerKey key_id key
            (ap (λ url. get_key_as_pem config calls url key_id) (sym ours) ∙ is_key),
        decoded,
        named,
        valid,
      )

  translated-eq_ok :
      (r : Result Error String) (user : TokenUserInfo)
      → translated config calls r ≡ ok user
      → (r ≡ ok user.username) × (user.metadata ≡ no_metadata)
  translated-eq_ok (ok username) user h = ground arith
  translated-eq_ok (err e) user h = absurd (ground arith)

  -- When the OpenID Connect provider identifies a user for a code, the token endpoint has answered
  -- the code with an ID token, whose issuer, before it is verified, is that of the configuration;
  -- PyJWT accepts it for our audience, with a key for RS256 that stands under the key id of the
  -- token among the keys of that issuer; and its username claim is the username, which is valid.
  -- Nothing else is known of the user, and the session is unchanged.
  pub create_user_info-IsVerified :
      (code state : String) (s t : State) (user : TokenUserInfo)
      → (oidc_provider config calls).create_user_info code state s ≡ (ok user, t)
      → (encoded : String) × (id_token_of config calls (calls.post_token code) ≡ ok encoded)
        × IsVerified encoded user.username
        × (user.metadata ≡ no_metadata)
        × (t ≡ s)
  unfolding oidc_provider user_info_of
  create_user_info-IsVerified code state s t user h =
      let (encoded, is_token, h1) =
        >>=-eq_ok (id_token_of config calls (calls.post_token code)) _ user (λ i. (h i).0) in
      let (named, bare) = translated-eq_ok (username_of config calls encoded) user h1 in
      (
        encoded,
        is_token,
        username_of-IsVerified encoded user.username named,
        bare,
        λ i. (sym h i).1,
      )
