-- ===== src/Tokens/Create/Granted.antt =====
-- What a creation of `TokenService` that returns a token has checked.
use gafaelfawr.Prelude.{
  ℕ, ◌+◌, ◌≤◌, String, ◌≡◌, refl, ◌≢◌, ◌⊎◌, true, false, Option, none, some, List, [], ◌∷◌, arith,
  string_eq, is_subset,
}
use gafaelfawr.Prelude.Result.{ok}
use gafaelfawr.Prelude.Exec.{lift->>-eq-ok}
use gafaelfawr.Credential.{Token}
use gafaelfawr.Models.{TokenData, AdminTokenRequest, service, type_eq}
use gafaelfawr.Usernames.{valid_username, is_bot_user}
use gafaelfawr.Storage.Redis.{Storage}
use gafaelfawr.Storage.World.{World}
use gafaelfawr.Tokens.{
  Config, is_admin, minimum_lifetime, check_authorization, validate_username, validate_expires,
  validate_scopes,
}
use gafaelfawr.Tokens.Authorization.{
  MayGrant, check_authorization-MayAct, validate_scopes-MayGrant, validate_expires-eq_ok,
}
use gafaelfawr.Tokens.Checks.{check_user_request, check_admin_request}
use gafaelfawr.Tokens.Create.{
  store_new, creation, user_data, admin_data, create_user_token, create_token_from_admin_request,
}
use gafaelfawr.Tokens.Create.Outcome.{store_new_ok}

-- An expiration that a request may ask for.
abbrev pub IsLongEnough : ℕ → Option ℕ → Type 0
IsLongEnough now none = Unit
IsLongEnough now (some t) = now + minimum_lifetime ≤ t

pub validate_expires-IsLongEnough :
    (now : ℕ) (expires : Option ℕ) → validate_expires now expires ≡ ok tt → IsLongEnough now expires
validate_expires-IsLongEnough now none h = tt
validate_expires-IsLongEnough now (some t) h = validate_expires-eq_ok now t h

validate_scopes-known :
    (config : Config) (scopes : List String)
    → validate_scopes config scopes none ≡ ok tt
    → is_subset scopes config.known_scopes ≡ true
unfolding validate_scopes
validate_scopes-known config [] h = refl
validate_scopes-known config (x ∷ xs) h = ground arith

module _ (config : Config) (now : ℕ) where
  user_request_parts :
      (auth : TokenData) (username : String) (scopes : List String) (expires : Option ℕ)
      → check_user_request config now auth username scopes expires ≡ ok tt
      → (check_authorization (some username) auth false true ≡ ok tt)
        × (validate_username username ≡ ok tt)
        × (validate_expires now expires ≡ ok tt)
        × (validate_scopes config scopes (some auth) ≡ ok tt)
  unfolding check_user_request
  user_request_parts auth username scopes expires h = ground arith

  check_user_request-eq_ok :
      (auth : TokenData) (username : String) (scopes : List String) (expires : Option ℕ)
      → check_user_request config now auth username scopes expires ≡ ok tt
      → (username ≡ auth.username)
        × (valid_username username ≡ true)
        × IsLongEnough now expires
        × MayGrant config scopes auth
  unfolding validate_username
  check_user_request-eq_ok auth username scopes expires h =
      let (authorized, valid, long, granted) = user_request_parts auth username scopes expires h in
      let may = (check_authorization-MayAct (some username) auth false true).0.0 authorized in
      (
        ground arith,
        ground arith,
        validate_expires-IsLongEnough now expires long,
        validate_scopes-MayGrant config scopes auth granted,
      )

  admin_request_parts :
      (request : AdminTokenRequest) (auth : TokenData)
      → check_admin_request config now request auth ≡ ok tt
      → (check_authorization (some request.username) auth true false ≡ ok tt)
        × (validate_username request.username ≡ ok tt)
        × (validate_scopes config request.scopes none ≡ ok tt)
        × (validate_expires now request.expires ≡ ok tt)
        × ((request.token_type ≢ service) ⊎ (is_bot_user request.username ≡ true))
  unfolding check_admin_request
  admin_request_parts request auth h = ground arith

module _ (R : Storage TokenData) (config : Config) (now : ℕ) (token : Token) where
  -- A user token is created only by the user that it is for, with a valid username and scopes that
  -- are known; its expiration, if it has one, is at least five minutes away; its scopes are among
  -- the creator's own, unless the creator is a token administrator. The result is the drawn token.
  pub create_user_token_grants :
      (auth : TokenData) (username token_name : String) (scopes : List String) (expires : Option ℕ)
      (ip_address : String) (w t : World R) (made : Token)
      → create_user_token R config now token auth username token_name scopes expires ip_address w
        ≡ (ok made, t)
      → (made ≡ token)
        × (username ≡ auth.username)
        × (valid_username username ≡ true)
        × IsLongEnough now expires
        × MayGrant config scopes auth
  unfolding create_user_token
  create_user_token_grants auth username token_name scopes expires ip_address w t made h =
      let d = user_data R config now token auth username scopes expires in
      let entry = creation d (some token_name) none none auth.username (some ip_address) in
      let (checked, stored) =
        lift->>-eq-ok (check_user_request config now auth username scopes expires)
          (store_new R now d (some token_name) none none entry) w t made h in
      let (same, valid, long, granted) =
        check_user_request-eq_ok config now auth username scopes expires checked in
      let (drawn, _, _, _) =
        store_new_ok R now d (some token_name) none none entry w t made stored in
      (drawn, same, valid, long, granted)

  -- A token of an administrator's request is created only by a token administrator, for a valid
  -- username, with known scopes; its expiration, if it has one, is at least five minutes away; a
  -- service token is only created for a bot user. The result is the drawn token.
  pub create_token_from_admin_request_grants :
      (request : AdminTokenRequest) (auth : TokenData) (ip_address : Option String) (w t : World R)
      (made : Token)
      → create_token_from_admin_request R config now token request auth ip_address w ≡ (ok made, t)
      → (made ≡ token)
        × (is_admin auth ≡ true)
        × (valid_username request.username ≡ true)
        × (is_subset request.scopes config.known_scopes ≡ true)
        × IsLongEnough now request.expires
        × ((request.token_type ≢ service) ⊎ (is_bot_user request.username ≡ true))
  unfolding create_token_from_admin_request validate_username
  create_token_from_admin_request_grants request auth ip_address w t made h =
      let d = admin_data R config now token request in
      let entry = creation d request.token_name none none auth.username ip_address in
      let (checked, stored) =
        lift->>-eq-ok (check_admin_request config now request auth)
          (store_new R now d request.token_name none none entry) w t made h in
      let (authorized, valid, granted, long, bot) =
        admin_request_parts config now request auth checked in
      let may =
        (check_authorization-MayAct (some request.username) auth true false).0.0 authorized in
      let (drawn, _, _, _) =
        store_new_ok R now d request.token_name none none entry w t made stored in
      (
        drawn,
        ground arith,
        ground arith,
        validate_scopes-known config request.scopes granted,
        validate_expires-IsLongEnough now request.expires long,
        bot,
      )
