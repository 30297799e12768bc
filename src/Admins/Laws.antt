-- ===== src/Admins/Laws.antt =====
-- What each operation of src/gafaelfawr/services/admin.py does to the administrators.
use gafaelfawr.Prelude.{
  ℕ, String, ◌≡◌, ◌⊎◌, inl, inr, refl, sym, true, false, not, ◌&&◌, ◌||◌, List, ◌∷◌, [], arith,
  ◌==◌, string_eq, if◌then◌else◌, contains, filter, Bool-cases,
}
use gafaelfawr.Prelude.Result.{ok, err}
use gafaelfawr.Errors.{duplicate_admin, permission_denied, value_error}
use gafaelfawr.Models.Scopes.Roundtrip.{contains-sorted}
use gafaelfawr.Admins.{
  AdminDatabase, add, remove, add_row, delete_row, get_admins, is_admin_in, may_change, is_only,
  is_entry, admin_entry, add_admin, noted, delete_admin, record_change,
}

pub contains-filter :
    (xs : List String) (u x : String)
    → contains (filter (λ a. not (a == u)) xs) x ≡ (contains xs x && not (x == u))
contains-filter [] u x = refl
contains-filter (y ∷ xs) u x = ground (arith, contains-filter xs u x)

is_admin-contains : (db : AdminDatabase) (u : String) → is_admin_in db u ≡ contains db.admins u
unfolding is_admin_in get_admins
is_admin-contains db u = contains-sorted u db.admins

module _ (username actor ip_address : String) (now : ℕ) (db : AdminDatabase) where
  -- `add_admin` changes something only if it succeeds, and it does exactly if the actor may change
  -- the administrators, the user is not one, and both usernames have 1 to 64 characters. Then the
  -- user is an administrator, the others are as before, and the history has one more entry. It
  -- raises `PermissionDeniedError` for another actor, `DuplicateAdminError` for an administrator,
  -- and otherwise a `ValidationError`.
  add_admin_lem :
      ((may_change db actor ≡ false)
        × (add_admin username actor ip_address now db ≡ (err permission_denied, db)))
      ⊎ (((may_change db actor ≡ true)
            × (is_admin_in db username ≡ true)
            × (add_admin username actor ip_address now db ≡ (err duplicate_admin, db)))
          ⊎ ((may_change db actor ≡ true)
              × (is_admin_in db username ≡ false)
              × (is_entry username actor ≡ false)
              × (add_admin username actor ip_address now db ≡ (err value_error, db)))
          ⊎ ((may_change db actor ≡ true)
              × (is_admin_in db username ≡ false)
              × (is_entry username actor ≡ true)
              × (t : AdminDatabase) × (add_admin username actor ip_address now db ≡ (ok tt, t))
              × ((u : String) → is_admin_in t u ≡ (u == username || is_admin_in db u))
              × (t.history ≡ admin_entry username actor ip_address now add ∷ db.history)))
  unfolding add_admin add_row record_change
  add_admin_lem = elim (Bool-cases (may_change db actor)) [
    | inr denied ↦ inl (denied, rw denied refl)
    | inl allowed ↦ elim (Bool-cases (is_admin_in db username)) [
      | inl present ↦ inr (inl (allowed, present, rw (allowed, present) refl))
      | inr absent ↦
          let new : contains db.admins username ≡ false =
            rw (sym (is_admin-contains db username)) absent in
          elim (Bool-cases (is_entry username actor)) [
            | inr bad ↦ inr (inr (inl (allowed, absent, bad, rw (allowed, absent, bad) refl)))
            | inl fit ↦ inr (
                inr (
                  inr (
                    allowed,
                    absent,
                    fit,
                    record {
                      admins = username ∷ db.admins;
                      history = admin_entry username actor ip_address now add ∷ db.history;
                    },
                    rw (allowed, absent, fit, new) refl,
                    λ u. rw (is_admin-contains db u, is_admin-contains _ u) refl,
                    refl,
                  )))
          ]
    ]
  ]

  -- `delete_admin` changes something only if it succeeds, and it does exactly if the actor may
  -- change the administrators, both usernames have 1 to 64 characters, and the user is not the only
  -- administrator. Then it returns whether the user was one, the user is none, the others are as
  -- before, and the history has one more entry if the user was one. It raises
  -- `PermissionDeniedError` for another actor and for the only administrator, and a
  -- `ValidationError` for a username of another length.
  pub delete_admin_lem :
      ((may_change db actor ≡ false)
        × (delete_admin username actor ip_address now db ≡ (err permission_denied, db)))
      ⊎ ((may_change db actor ≡ true)
          × (is_entry username actor ≡ false)
          × (delete_admin username actor ip_address now db ≡ (err value_error, db)))
      ⊎ ((may_change db actor ≡ true)
          × (is_entry username actor ≡ true)
          × (is_only (get_admins db) username ≡ true)
          × (delete_admin username actor ip_address now db ≡ (err permission_denied, db)))
      ⊎ ((may_change db actor ≡ true)
          × (is_entry username actor ≡ true)
          × (is_only (get_admins db) username ≡ false)
          × (t : AdminDatabase) × (delete_admin username actor ip_address now db
              ≡ (ok (is_admin_in db username), t))
          × ((u : String) → is_admin_in t u ≡ (is_admin_in db u && not (u == username)))
          × (t.history ≡ (
              if is_admin_in db username
              then admin_entry username actor ip_address now remove ∷ db.history
              else db.history)))
  unfolding delete_admin delete_row noted record_change
  delete_admin_lem = elim (Bool-cases (may_change db actor)) [
    | inr denied ↦ inl (denied, rw denied refl)
    | inl allowed ↦ elim (Bool-cases (is_entry username actor)) [
      | inr bad ↦ inr (inl (allowed, bad, rw (allowed, bad) refl))
      | inl fit ↦ elim (Bool-cases (is_only (get_admins db) username)) [
        | inl last ↦ inr (inr (inl (allowed, fit, last, rw (allowed, fit, last) refl)))
        | inr several ↦ elim (Bool-cases (contains db.admins username)) [
          | inl present ↦ inr (
              inr (
                inr (
                  allowed,
                  fit,
                  several,
                  record {
                    admins = filter (λ a. not (a == username)) db.admins;
                    history = admin_entry username actor ip_address now remove ∷ db.history;
                  },
                  rw (is_admin-contains db username, allowed, fit, several, present) refl,
                  λ u.
                      rw (is_admin-contains db u, is_admin-contains _ u)
                        (contains-filter db.admins username u),
                  rw (is_admin-contains db username, present) refl,
                )))
          | inr absent ↦ inr (
              inr (
                inr (
                  allowed,
                  fit,
                  several,
                  record {
                    admins = filter (λ a. not (a == username)) db.admins;
                    history = db.history;
                  },
                  rw (is_admin-contains db username, allowed, fit, several, absent) refl,
                  λ u.
                      rw (is_admin-contains db u, is_admin-contains _ u)
                        (contains-filter db.admins username u),
                  rw (is_admin-contains db username, absent) refl,
                )))
        ]
      ]
    ]
  ]
