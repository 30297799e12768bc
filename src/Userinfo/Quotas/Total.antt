-- ===== src/Userinfo/Quotas/Total.antt =====
-- The API quotas of `_calculate_quota` in src/gafaelfawr/services/userinfo.py as sums.
use gafaelfawr.Prelude.{
  ℕ, ◌+◌, String, ◌≡◌, Option, none, some, List, [], ◌∷◌, arith, ◌==◌, string_eq, if◌then◌else◌,
}
use gafaelfawr.Userinfo.Quotas.{
  Quota, QuotaConfig, add_api, add_all, add_extra, add_groups, calculate_quota,
}

-- What a dictionary has for a service, zero if it has nothing: no key comes twice.
unfoldable pub amount : String → List (String × ℕ) → ℕ
amount service [] = 0
amount service ((other, n) ∷ api) =
    let rest = amount service api in if service == other then n + rest else rest

abbrev pub extra_of : {Q : Type 0} → String → Option (Quota Q) → ℕ
extra_of service none = 0
extra_of service (some extra) = amount service extra.api

-- What the groups add for a service.
unfoldable pub total : {Q : Type 0} → String → (String → Option (Quota Q)) → List String → ℕ
total service extras [] = 0
total service extras (group ∷ groups) =
    extra_of service (extras group) + total service extras groups

amount-add_api :
    (service other : String) (n : ℕ) (api : List (String × ℕ))
    → amount service (add_api other n api)
      ≡ amount service api + (if service == other then n else 0)
unfolding add_api amount
amount-add_api service other n [] = ground arith
amount-add_api service other n ((key, m) ∷ api) = elim (string_eq.dec other key) [
  | yes same ↦ elim (string_eq.dec service key) [
    | yes this ↦ ground arith
    | no differ ↦ ground arith
  ]
  | no differ ↦ ground (arith, amount-add_api service other n api)
]

amount-add_all :
    (service : String) (extra api : List (String × ℕ))
    → amount service (add_all extra api) ≡ amount service api + amount service extra
unfolding add_all amount
amount-add_all service [] api = omega arith
amount-add_all service ((other, n) ∷ extra) api =
    ground (
      arith,
      amount-add_all service extra (add_api other n api),
      amount-add_api service other n api,
    )

module _ {Q : Type 0} (plus : Q → Q → Q) where
  amount-add_extra :
      (service : String) (q : Quota Q) (extra : Option (Quota Q))
      → amount service (add_extra plus q extra).api ≡ amount service q.api + extra_of service extra
  unfolding add_extra
  amount-add_extra service q none = omega arith
  amount-add_extra service q (some extra) = amount-add_all service extra.api q.api

  amount-add_groups :
      (service : String) (extras : String → Option (Quota Q)) (groups : List String) (q : Quota Q)
      → amount service (add_groups plus extras groups q).api
        ≡ amount service q.api + total service extras groups
  unfolding add_groups total
  amount-add_groups service extras [] q = omega arith
  amount-add_groups service extras (group ∷ groups) q = omega (
    arith,
    amount-add_groups service extras groups (add_extra plus q (extras group)),
    amount-add_extra service q (extras group),
  )

  -- For each service, the API quota is that of the configuration's default and those of all groups
  -- of the user added up, where what is not set counts as zero.
  pub calculate_quota-total :
      (service : String) (config : QuotaConfig Q) (groups : List String) (q : Quota Q)
      → calculate_quota plus (some config) groups ≡ some q
      → amount service q.api
        ≡ amount service config.default.api + total service config.groups groups
  unfolding calculate_quota
  calculate_quota-total service config groups q h =
      let same : add_groups plus config.groups groups config.default ≡ q = ground arith in
      rw same at (amount-add_groups service config.groups groups config.default)
