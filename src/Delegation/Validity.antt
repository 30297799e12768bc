-- ===== src/Delegation/Validity.antt =====
-- Which cached tokens `_is_token_valid` of src/gafaelfawr/services/token_cache.py accepts.
use gafaelfawr.Prelude.{
  ℕ, ◌+◌, ◌*◌, ◌≤◌, ◌≡◌, ◌≢◌, ◌↔◌, refl, true, String, Option, none, some, List, arith, nat_eq,
  string_eq,
}
use gafaelfawr.Credential.{Token}
use gafaelfawr.Models.{TokenData}
use gafaelfawr.Storage.Redis.{Storage}
use gafaelfawr.Storage.World.{World, get_data}
use gafaelfawr.Delegation.{within, given, lasts, is_data_valid, is_token_valid}

-- A positive minimum lifetime is left, or else at least half of the token's lifetime.
abbrev pub IsLasting : ℕ → Option ℕ → ℕ → Option ℕ → Type 0
IsLasting now minimum_lifetime created none = Unit
IsLasting now none created (some expires) = 2 * now ≤ expires + created
IsLasting now (some lifetime) created (some expires) =
    (lifetime ≢ 0 → now + lifetime ≤ expires) × (lifetime ≡ 0 → 2 * now ≤ expires + created)

lasts-IsLasting :
    (now : ℕ) (minimum_lifetime : Option ℕ) (created : ℕ) (expires : Option ℕ)
    → (lasts now (given minimum_lifetime) created expires ≡ true)
      ↔ IsLasting now minimum_lifetime created expires
lasts-IsLasting now minimum_lifetime created none = (λ h. tt, λ h. refl)
lasts-IsLasting now none created (some expires) = (λ h. ground arith, λ h. ground arith)
lasts-IsLasting now (some lifetime) created (some expires) = elim (nat_eq.dec lifetime 0) [
  | yes zero ↦
      (λ h. (λ positive. absurd (positive zero), λ e. ground arith), λ h. ground (arith, h.1 zero))
  | no positive ↦
      (λ h. (λ other. ground arith, λ e. absurd (positive e)), λ h. ground (arith, h.0 positive))
]

valid_data :
    (now : ℕ) (minimum_lifetime : Option ℕ) (scopes : Option (List String)) (o : Option TokenData)
    → (is_data_valid now minimum_lifetime scopes o ≡ true) ↔ (
        (d : TokenData) × (o ≡ some d)
        × (within scopes d.scopes ≡ true)
        × IsLasting now minimum_lifetime d.created d.expires)
valid_data now minimum_lifetime scopes none =
    (λ h. absurd (ground arith), λ h. absurd (let (c, same, inside, left) = h in ground arith))
valid_data now minimum_lifetime scopes (some d) = (
  λ h. (
    d,
    refl,
    ground arith,
    (lasts-IsLasting now minimum_lifetime d.created d.expires).0 (ground arith),
  ),
  λ h.
      let (c, same, inside, left) = h in
      let data_eq : d ≡ c = ground arith in
      rw (data_eq, inside) ((lasts-IsLasting now minimum_lifetime c.created c.expires).1 left),
)

module _ (R : Storage TokenData) (now : ℕ) where
  -- A token is valid exactly if Redis has data for it, with the same secret, the scopes of that data
  -- are among those given, if any are, and the data does not expire, or the positive minimum
  -- lifetime is left of it, or at least half of its lifetime if no such minimum is given.
  pub is_token_valid-IsLasting :
      (token : Token) (minimum_lifetime : Option ℕ) (scopes : Option (List String)) (w : World R)
      → (is_token_valid R now (some token) minimum_lifetime scopes w ≡ true) ↔ (
          (d : TokenData) × (get_data R now token w ≡ some d)
          × (within scopes d.scopes ≡ true)
          × IsLasting now minimum_lifetime d.created d.expires)
  unfolding is_token_valid
  is_token_valid-IsLasting token minimum_lifetime scopes w =
      valid_data now minimum_lifetime scopes (get_data R now token w)
