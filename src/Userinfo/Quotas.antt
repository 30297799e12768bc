-- ===== src/Userinfo/Quotas.antt =====
-- `_calculate_quota` of src/gafaelfawr/services/userinfo.py. A dictionary is a list of keys and values
-- in which no key comes twice.
pub mod Total
use gafaelfawr.Prelude.{
  ℕ, ◌+◌, String, Option, none, some, List, [], ◌∷◌, ◌==◌, string_eq, if◌then◌else◌,
}

pub record NotebookQuota (Q : Type 0) : Type 0 where
  pub cpu : Q
  pub memory : Q

pub record Quota (Q : Type 0) : Type 0 where
  pub api : List (String × ℕ)
  pub notebook : Option (NotebookQuota Q)

pub record QuotaConfig (Q : Type 0) : Type 0 where
  pub default : Quota Q
  pub groups : String → Option (Quota Q)

-- `api[service] += n`, or `api[service] = n` for a new one.
unfoldable pub add_api : String → ℕ → List (String × ℕ) → List (String × ℕ)
add_api service n [] = (service, n) ∷ []
add_api service n ((other, m) ∷ api) =
    let rest = add_api service n api in
    if service == other then (other, m + n) ∷ api else (other, m) ∷ rest

unfoldable pub add_all : List (String × ℕ) → List (String × ℕ) → List (String × ℕ)
add_all [] api = api
add_all ((service, n) ∷ extra) api = add_all extra (add_api service n api)

module _ {Q : Type 0} (plus : Q → Q → Q) where
  unfoldable pub add_notebook :
      Option (NotebookQuota Q) → Option (NotebookQuota Q) → Option (NotebookQuota Q)
  add_notebook notebook none = notebook
  add_notebook none (some extra) = some extra
  add_notebook (some notebook) (some extra) =
      some
        (record { cpu = plus notebook.cpu extra.cpu; memory = plus notebook.memory extra.memory })

  unfoldable pub add_extra : Quota Q → Option (Quota Q) → Quota Q
  add_extra quota none = quota
  add_extra quota (some extra) = record {
    api = add_all extra.api quota.api;
    notebook = add_notebook quota.notebook extra.notebook;
  }

  unfoldable pub add_groups : (String → Option (Quota Q)) → List String → Quota Q → Quota Q
  add_groups extras [] quota = quota
  add_groups extras (group ∷ groups) quota =
      add_groups extras groups (add_extra quota (extras group))

  -- `_calculate_quota`, for the names of the groups.
  unfoldable pub calculate_quota : Option (QuotaConfig Q) → List String → Option (Quota Q)
  calculate_quota none groups = none
  calculate_quota (some config) groups = some (add_groups config.groups groups config.default)
