-- ===== src/Userinfo/Examples.antt =====
-- The scopes and quotas of a user in two groups.
use gafaelfawr.Prelude.{
  ℕ, ◌+◌, String, ◌≡◌, refl, true, false, Option, none, some, List, [], ◌∷◌, ◌==◌, string_eq,
  if◌then◌else◌,
}
use gafaelfawr.Prelude.Result.{ok, err}
use gafaelfawr.Prelude.Text.{char_eq}
use gafaelfawr.Errors.{runtime_error}
use gafaelfawr.Models.{Group}
use gafaelfawr.Models.Scopes.{sorted, insert, to_set}
use gafaelfawr.Userinfo.{
  Sources, InfoConfig, no_data, names_of, scopes_of, with_user_token, scope_gid, group_names,
  get_scopes,
}
use gafaelfawr.Userinfo.Granted.{IsGranted, get_scopes-IsGranted}
use gafaelfawr.Userinfo.Quotas.{
  Quota, QuotaConfig, add_api, add_all, add_notebook, add_extra, add_groups, calculate_quota,
}
use gafaelfawr.Userinfo.Quotas.Total.{amount, total, calculate_quota-total}

-- Services that know two groups of every user.
abbrev pub sources : Sources
sources = record {
  State = Unit {0};
  get_uid = λ username s. (err runtime_error, s);
  get_gid = λ name s. (err runtime_error, s);
  get_data = λ username s. (ok no_data, s);
  get_group_names = λ username gid s. (ok ("admins" ∷ "users" ∷ []), s);
  get_groups = λ username gid s. (ok [], s);
  invalidate_cache = λ username s. s;
}

abbrev pub quotas : QuotaConfig ℕ
quotas = record {
  default = record { api = ("tap", 500) ∷ []; notebook = none };
  groups = λ group.
      if group == "admins"
      then some (record { api = ("tap", 100) ∷ ("hips", 2000) ∷ []; notebook = none })
      else none;
}

abbrev pub config : InfoConfig ℕ
config = record {
  has_firestore = false;
  has_ldap = true;
  has_gid_attr = false;
  add_user_group = false;
  scopes_for_group = λ group. if group == "admins" then "admin:token" ∷ [] else "read:all" ∷ [];
  quota = some quotas;
}

abbrev scopes : Option (List String)
scopes = some ("admin:token" ∷ "read:all" ∷ "user:token" ∷ [])

grants : get_scopes (λ m n. m + n) sources config "someuser" none [] tt ≡ (ok scopes, tt)
unfolding get_scopes group_names scope_gid with_user_token scopes_of sorted insert to_set string_eq
    char_eq
grants = refl

get_scopes-IsGranted_example :
    (names : List String) × (group_names (λ m n. m + n) sources config "someuser" none [] tt
      ≡ (ok names, tt))
    × ((g : Group) (gs : List Group) → ◌≡◌ {A = List Group} [] (g ∷ gs) → names ≡ names_of [])
    × IsGranted config.scopes_for_group names scopes
get_scopes-IsGranted_example =
    get_scopes-IsGranted (λ m n. m + n) sources config "someuser" none [] tt tt scopes grants

abbrev quota : Quota ℕ
quota = record { api = ("tap", 600) ∷ ("hips", 2000) ∷ []; notebook = none }

allows : calculate_quota (λ m n. m + n) (some quotas) ("admins" ∷ "users" ∷ []) ≡ some quota
unfolding calculate_quota add_groups add_extra add_all add_api add_notebook string_eq
allows = refl

calculate_quota-total_example :
    amount "tap" quota.api
    ≡ amount "tap" quotas.default.api + total "tap" quotas.groups ("admins" ∷ "users" ∷ [])
calculate_quota-total_example =
    calculate_quota-total (λ m n. m + n) "tap" quotas ("admins" ∷ "users" ∷ []) quota allows
