-- ===== src/Tokens/Modify/Granted.antt =====
-- What `TokenService.modify_token` of src/gafaelfawr/services/token.py has checked.
use gafaelfawr.Prelude.{
  ℕ, String, ◌≡◌, inl, inr, refl, true, false, Option, none, some, List, arith, Option-cases, ◌==◌,
}
use gafaelfawr.Prelude.Result.{Result, ok, err, guard}
use gafaelfawr.Prelude.Exec.{Exec, continue}
use gafaelfawr.Errors.{permission_denied}
use gafaelfawr.Models.{TokenData, TokenInfo, user, type_eq}
use gafaelfawr.Storage.Redis.{Storage}
use gafaelfawr.Storage.World.{World}
use gafaelfawr.Tokens.{Config, is_admin, check_authorization, validate_expires}
use gafaelfawr.Tokens.Authorization.{MayGrant, check_authorization-MayAct, validate_scopes-MayGrant}
use gafaelfawr.Tokens.Create.Granted.{IsLongEnough, validate_expires-IsLongEnough}
use gafaelfawr.Tokens.Delete.{get_token_info_unchecked}
use gafaelfawr.Tokens.Modify.{Change, modify_token, modify_owned, check_modify, check_scopes}

-- The new scopes, if any are given, may be granted.
abbrev pub MayScope : Config → Option (List String) → TokenData → Type 0
MayScope config none auth = Unit
MayScope config (some scopes) auth = MayGrant config scopes auth

scopes-MayScope :
    (config : Config) (scopes : Option (List String)) (auth : TokenData)
    → check_scopes config scopes auth ≡ ok tt
    → MayScope config scopes auth
scopes-MayScope config none auth h = tt
scopes-MayScope config (some scopes) auth h = validate_scopes-MayGrant config scopes auth h

-- The first of two actions has returned if both have.
first-ok :
    {S E A B : Type 0} (r : Result E A) (f : A → Exec S E B) (s t : S) (b : B)
    → continue r f s ≡ (ok b, t)
    → (a : A) × (r ≡ ok a)
first-ok (ok a) f s t b h = (a, refl)
first-ok (err e) f s t b h = absurd (ground arith)

is_user :
    (old : TokenInfo)
    → guard (old.token_type == user) permission_denied ≡ ok tt
    → old.token_type ≡ user
is_user old h = ground arith

module _ (R : Storage TokenData) (now : ℕ) (auth : TokenData) (ip_address : String)
    (config : Config) (key : String) (c : Change) where
  check_modify-ok :
      (old : TokenInfo) (w t : World R)
      → check_modify R now auth ip_address config key c old w ≡ (ok tt, t)
      → (check_authorization (some old.username) auth true false ≡ ok tt)
        × (old.token_type ≡ user)
        × MayScope config c.scopes auth
        × (validate_expires now c.expires ≡ ok tt)
  unfolding check_modify
  check_modify-ok old w t h =
      let (a, kind, scopes, expires) = parts in
      (a, is_user old kind, scopes-MayScope config c.scopes auth scopes, expires)
    where
      parts :
          (check_authorization (some old.username) auth true false ≡ ok tt)
          × (guard (old.token_type == user) permission_denied ≡ ok tt)
          × (check_scopes config c.scopes auth ≡ ok tt)
          × (validate_expires now c.expires ≡ ok tt)
      parts = ground arith

  is_administrator :
      (username : String)
      → check_authorization (some username) auth true false ≡ ok tt
      → is_admin auth ≡ true
  is_administrator username a =
      let may = (check_authorization-MayAct (some username) auth true false).0.0 a in ground arith

  -- `modify_token` returns a token only if it was found under the name, if one is given, as a user
  -- token; a token administrator asks; the new scopes are known; and the new expiration, if there is
  -- one, is at least five minutes away.
  pub modify_token_grants :
      (username : Option String) (info : TokenInfo) (w t : World R)
      → modify_token R now auth ip_address config key c username w ≡ (ok (some info), t)
      → (old : TokenInfo) × (get_token_info_unchecked key username w.db ≡ some old)
        × (old.token_type ≡ user)
        × (is_admin auth ≡ true)
        × MayScope config c.scopes auth
        × IsLongEnough now c.expires
  unfolding modify_token modify_owned
  modify_token_grants username info w t h =
      elim (Option-cases (get_token_info_unchecked key username w.db)) [
        | inl absent ↦ absurd (ground arith)
        | inr (old, there) ↦
            let checks = check_modify R now auth ip_address config key c old w in
            let went : modify_owned R now auth ip_address config key c (some old) w
                ≡ (ok (some info), t) =
              ground arith in
            let (passed, is) = first-ok checks.0 _ checks.1 t (some info) went in
            let (a, kind, scopes, expires) = check_modify-ok old w checks.1 (ground arith) in
            (
              old,
              there,
              kind,
              is_administrator old.username a,
              scopes,
              validate_expires-IsLongEnough now c.expires expires,
            )
      ]
