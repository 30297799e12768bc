-- ===== src/Admins/Examples.antt =====
-- Runs of the administrator service.
use gafaelfawr.Prelude.{
  String, ◌≡◌, ◌⊎◌, refl, true, false, not, ◌&&◌, ◌∷◌, [], arith, string_eq, ◌==◌, if◌then◌else◌,
}
use gafaelfawr.Prelude.Result.{ok, err}
use gafaelfawr.Errors.{permission_denied, value_error}
use gafaelfawr.Models.Scopes.{sorted, insert}
use gafaelfawr.Admins.{
  AdminDatabase, remove, get_admins, is_admin_in, may_change, is_only, is_entry, admin_entry,
  delete_admin, delete_row, noted, record_change,
}
use gafaelfawr.Admins.Laws.{delete_admin_lem}
use gafaelfawr.Admins.Last.{HasAdmin, none, after_delete, Changes-HasAdmin}

abbrev two : AdminDatabase
two = record { admins = "rra" ∷ "ops" ∷ []; history = [] }

-- The second removal is refused, as it would remove the last administrator.
refused :
    (delete_admin "ops" "ops" "192.0.2.1" 2 (delete_admin "rra" "ops" "192.0.2.1" 1 two).1).0
    ≡ err permission_denied
unfolding delete_admin delete_row noted record_change is_admin_in get_admins sorted insert string_eq
refused = refl

two-HasAdmin : HasAdmin two
unfolding string_eq
two-HasAdmin = (λ e. ground arith, (refl, (refl, tt)))

abbrev one : AdminDatabase
one = (delete_admin "rra" "ops" "192.0.2.1" 1 two).1

Changes-HasAdmin_example : HasAdmin (delete_admin "ops" "ops" "192.0.2.1" 2 one).1
Changes-HasAdmin_example =
    Changes-HasAdmin two-HasAdmin
      (after_delete "ops" "ops" "192.0.2.1" 2 (after_delete "rra" "ops" "192.0.2.1" 1 none))

delete_admin_lem_example :
    ((may_change two "ops" ≡ false)
      × (delete_admin "rra" "ops" "192.0.2.1" 1 two ≡ (err permission_denied, two)))
    ⊎ ((may_change two "ops" ≡ true)
        × (is_entry "rra" "ops" ≡ false)
        × (delete_admin "rra" "ops" "192.0.2.1" 1 two ≡ (err value_error, two)))
    ⊎ ((may_change two "ops" ≡ true)
        × (is_entry "rra" "ops" ≡ true)
        × (is_only (get_admins two) "rra" ≡ true)
        × (delete_admin "rra" "ops" "192.0.2.1" 1 two ≡ (err permission_denied, two)))
    ⊎ ((may_change two "ops" ≡ true)
        × (is_entry "rra" "ops" ≡ true)
        × (is_only (get_admins two) "rra" ≡ false)
        × (t : AdminDatabase) × (delete_admin "rra" "ops" "192.0.2.1" 1 two
            ≡ (ok (is_admin_in two "rra"), t))
        × ((u : String) → is_admin_in t u ≡ (is_admin_in two u && not (u == "rra")))
        × (t.history ≡ (
            if is_admin_in two "rra"
            then admin_entry "rra" "ops" "192.0.2.1" 1 remove ∷ two.history
            else two.history)))
delete_admin_lem_example = delete_admin_lem "rra" "ops" "192.0.2.1" 1 two
