-- ===== src/Ingress/Lifetime.antt =====
-- `check_lifetime` of src/gafaelfawr/handlers/auth.py against the lifetime of a delegated token.
use gafaelfawr.Prelude.{
  ℕ, ◌+◌, ◌≤◌, ◌≡◌, refl, List, String, Option, none, some, arith, ltb, Bool-cases, inl, inr,
}
use gafaelfawr.Prelude.Result.{ok}
use gafaelfawr.Credential.{Token}
use gafaelfawr.Models.{TokenData, TokenType}
use gafaelfawr.Tokens.{Config, minimum_lifetime}
use gafaelfawr.Delegation.{given, capped, minimum_expiration, child_data}
use gafaelfawr.Authenticate.{RequestContext}
use gafaelfawr.Ingress.{check_given_lifetime, check_lifetime}
use gafaelfawr.Ingress.Request.{AuthConfig}

capped-late :
    (n t : ℕ) (limit : Option ℕ) → n ≤ t → ((e : ℕ) → limit ≡ some e → n ≤ e) → n ≤ capped t limit
capped-late n t none le late = le
capped-late n t (some e) le late = elim (Bool-cases (ltb e t)) [
  | inl cut ↦ rw cut (late e refl)
  | inr whole ↦ rw whole le
]

capped-same : (t : ℕ) (limit : Option ℕ) → ((e : ℕ) → limit ≡ some e → t ≤ e) → capped t limit ≡ t
capped-same t none late = refl
capped-same t (some e) late = elim (Bool-cases (ltb e t)) [
  | inl cut ↦ absurd (ground (arith, late e refl))
  | inr whole ↦ rw whole refl
]

module _ (config : Config) (now : ℕ) (context : RequestContext) (auth : AuthConfig)
    (d : TokenData) where
  check_given_lifetime-eq_ok :
      (lifetime : ℕ)
      → check_given_lifetime config now context auth d (some lifetime) ≡ ok tt
      → (lifetime + minimum_lifetime ≤ config.token_lifetime)
        × ((e : ℕ) → d.expires ≡ some e → now + lifetime ≤ e)
  unfolding check_given_lifetime
  check_given_lifetime-eq_ok lifetime h = (ground arith, λ e is. ground arith)

  -- When `check_lifetime` passes for a positive minimum lifetime, neither the configured lifetime of
  -- tokens nor the parent's expiration shortens what a delegated token needs: the least expiration
  -- that a token found in the database must have is the one asked for, and a token created now
  -- expires at that time or later. At least five minutes of the configured lifetime are then left.
  pub check_lifetime-lasts :
      (lifetime : ℕ) (token : Token) (token_type : TokenType) (scopes : List String)
      → given auth.minimum_lifetime ≡ some lifetime
      → check_lifetime config now context auth d ≡ ok tt
      → (minimum_expiration config now d auth.minimum_lifetime ≡ now + lifetime)
        × ((e : ℕ) × ((child_data config now token token_type scopes d).expires ≡ some e)
            × (now + lifetime ≤ e))
        × (lifetime + minimum_lifetime ≤ config.token_lifetime)
  unfolding check_lifetime minimum_expiration
  check_lifetime-lasts lifetime token token_type scopes is h =
      let (short, late) = check_given_lifetime-eq_ok lifetime (rw is at h) in
      (
        rw is (capped-same (now + lifetime) d.expires late),
        (
          capped (now + config.token_lifetime) d.expires,
          refl,
          capped-late _ (now + config.token_lifetime) d.expires (omega arith) late,
        ),
        short,
      )
