-- ===== src/Admins.antt =====
-- The token administrators: `AdminService` of src/gafaelfawr/services/admin.py, over `AdminStore`
-- and `AdminHistoryStore` of src/gafaelfawr/storage.
pub mod Laws
pub mod Last
mod Examples
use Prim.Native.String.{count}
use gafaelfawr.Prelude.{
  ℕ, String, Bool, true, false, not, ◌&&◌, ◌||◌, List, ◌∷◌, [], ◌==◌, string_eq, if◌then◌else◌,
  contains, filter, is_nonempty, leb,
}
use gafaelfawr.Prelude.Result.{Result, ok, err, guard}
use gafaelfawr.Prelude.Exec.{Exec, pure, lift, ◌>>=◌, ◌>>◌}
use gafaelfawr.Errors.{Error, duplicate_admin, permission_denied, integrity_error, value_error}
use gafaelfawr.Models.Scopes.{sorted}

pub data AdminChange : Type 0 where
  add remove : AdminChange

pub record AdminHistoryEntry : Type 0 where
  pub username : String
  pub action : AdminChange
  pub actor : String
  pub ip_address : String
  pub event_time : ℕ

-- The tables `admin`, whose primary key is the username, and `admin_history`.
pub record AdminDatabase : Type 0 where
  pub admins : List String
  pub history : List AdminHistoryEntry

abbrev pub AdminQuery : Type 0 → Type 0
AdminQuery = Exec AdminDatabase Error

-- `AdminStore.add`, `delete` and `list`. A row for a username that has one is refused when it is
-- written.
unfoldable pub add_row : String → AdminQuery (Unit {0})
add_row username db =
    if contains db.admins username
    then (err integrity_error, db)
    else (ok tt, record db { admins = username ∷ db.admins })

unfoldable pub delete_row : String → AdminQuery Bool
delete_row username db = (
  ok (contains db.admins username),
  record db { admins = filter (λ a. not (a == username)) db.admins },
)

unfoldable pub get_admins : AdminDatabase → List String
get_admins db = sorted db.admins

-- `AdminHistoryStore.add`
unfoldable pub record_change : AdminHistoryEntry → AdminQuery (Unit {0})
record_change entry db = (ok tt, record db { history = entry ∷ db.history })

-- `any(username == a.username for a in await self.get_admins())`
unfoldable pub is_admin_in : AdminDatabase → String → Bool
is_admin_in db username = contains (get_admins db) username

abbrev pub may_change : AdminDatabase → String → Bool
may_change db actor = is_admin_in db actor || actor == "<bootstrap>"

abbrev pub is_only : List String → String → Bool
is_only [] username = false
is_only (a ∷ []) username = a == username
is_only (a ∷ b ∷ rest) username = false

-- The usernames that `AdminHistoryEntry` takes; for others it raises a `ValidationError`, which is a
-- `ValueError`.
abbrev pub fits : String → Bool
fits username = leb 1 (count username) && leb (count username) 64

abbrev pub is_entry : String → String → Bool
is_entry username actor = fits username && fits actor

abbrev pub check_add : AdminDatabase → String → String → Result Error (Unit {0})
check_add db username actor =
    if may_change db actor
    then (if is_admin_in db username
        then err duplicate_admin
        else if is_entry username actor
        then ok tt
        else err value_error)
    else err permission_denied

abbrev pub check_delete : AdminDatabase → String → String → Result Error (Unit {0})
check_delete db username actor =
    if may_change db actor
    then (if is_entry username actor
        then (if is_only (get_admins db) username then err permission_denied else ok tt)
        else err value_error)
    else err permission_denied

unfoldable pub add_each : List String → AdminQuery (Unit {0})
add_each [] = pure tt
add_each (username ∷ usernames) = do add_row username; add_each usernames

-- `if not await self._admin_store.list():`
unfoldable pub add_initial_admins : List String → AdminQuery (Unit {0})
add_initial_admins usernames db = add_if_empty (get_admins db) db
  where
    add_if_empty : List String → AdminQuery (Unit {0})
    add_if_empty [] = add_each usernames
    add_if_empty (a ∷ rest) = pure tt

module _ (username actor ip_address : String) (now : ℕ) where
  abbrev pub admin_entry : AdminChange → AdminHistoryEntry
  admin_entry action = record {
    username = username;
    action = action;
    actor = actor;
    ip_address = ip_address;
    event_time = now;
  }

  unfoldable pub add_admin : AdminQuery (Unit {0})
  add_admin db =
      (do lift (check_add db username actor); add_row username; record_change (admin_entry add)) db

  unfoldable pub noted : Bool → AdminQuery Bool
  noted false = pure false
  noted true = do record_change (admin_entry remove); pure true

  unfoldable pub delete_admin : AdminQuery Bool
  delete_admin db =
      (do lift (check_delete db username actor); result ← delete_row username; noted result) db
