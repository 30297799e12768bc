-- ===== src/Firestore.antt =====
-- The assignment of UIDs and GIDs in src/gafaelfawr/storage/firestore.py. A collection is the list
-- of its documents, newest first, and each function is one Firestore transaction.
pub mod Invariant
pub mod Unique
pub mod Service
mod Examples
use gafaelfawr.Prelude.{
  ℕ, suc, String, Bool, true, false, Option, none, some, List, ◌∷◌, [], ◌==◌, string_eq, leb,
  if◌then◌else◌, ◌&&◌,
}
use gafaelfawr.Prelude.Result.{ok, err}
use gafaelfawr.Prelude.Exec.{Exec}
use gafaelfawr.Errors.{Error, firestore_not_initialized, no_available_gid, no_available_uid}

abbrev pub uid_bot_min : ℕ
uid_bot_min = 100_000

abbrev pub uid_bot_max : ℕ
uid_bot_max = 199_999

abbrev pub uid_user_min : ℕ
uid_user_min = 3_000_000

abbrev pub gid_min : ℕ
gid_min = 2_000_000

abbrev pub gid_max : ℕ
gid_max = 2_999_999

-- A document of the collection `users` or `groups`.
pub record Assigned : Type 0 where
  pub name : String
  pub id : ℕ

-- The documents `uid`, `bot-uid` and `gid` of the collection `counters`, if they exist.
pub record Firestore : Type 0 where
  pub users : List Assigned
  pub groups : List Assigned
  pub uid : Option ℕ
  pub bot_uid : Option ℕ
  pub gid : Option ℕ

abbrev pub Allocation : Type 0
Allocation = Exec Firestore Error ℕ

unfoldable pub lookup : List Assigned → String → Option ℕ
lookup [] name = none
lookup (r ∷ rows) name = if name == r.name then some r.id else lookup rows name

unfoldable pub assign_gid : String → Option ℕ → Allocation
assign_gid group none fs = (err firestore_not_initialized, fs)
assign_gid group (some next) fs = if leb gid_max next then (err no_available_gid, fs) else (
  ok next,
  record fs { groups = record { name = group; id = next } ∷ fs.groups; gid = some (suc next) },
)

abbrev gid_of : String → Option ℕ → Allocation
gid_of group (some gid) fs = (ok gid, fs)
gid_of group none fs = assign_gid group fs.gid fs

-- `get_gid`, with `_get_or_assign_gid`
unfoldable pub get_gid : String → Allocation
get_gid group fs = gid_of group (lookup fs.groups group) fs

-- `transaction.update(counter_ref, {"next": next_uid + 1})`
abbrev pub count_uid : Bool → ℕ → Firestore → Firestore
count_uid true next fs = record fs { bot_uid = some (suc next) }
count_uid false next fs = record fs { uid = some (suc next) }

unfoldable pub assign_uid : String → Bool → Option ℕ → Allocation
assign_uid username bot none fs = (err firestore_not_initialized, fs)
assign_uid username bot (some next) fs =
    if bot && leb uid_bot_max next then (err no_available_uid, fs) else (
      ok next,
      count_uid bot next (record fs { users = record { name = username; id = next } ∷ fs.users }),
    )

abbrev pub uid_of : String → Bool → Option ℕ → Allocation
uid_of username bot (some uid) fs = (ok uid, fs)
uid_of username true none fs = assign_uid username true fs.bot_uid fs
uid_of username false none fs = assign_uid username false fs.uid fs

-- `get_uid`, with `_get_or_assign_uid`
unfoldable pub get_uid : String → Bool → Allocation
get_uid username bot fs = uid_of username bot (lookup fs.users username) fs

abbrev pub counter_or : ℕ → Option ℕ → ℕ
counter_or first none = first
counter_or first (some next) = next

-- `initialize`, with `_initialize_in_transaction`: it creates the counters that are missing.
unfoldable pub initialize : Firestore → Firestore
initialize fs = record fs {
  uid = some (counter_or uid_user_min fs.uid);
  bot_uid = some (counter_or uid_bot_min fs.bot_uid);
  gid = some (counter_or gid_min fs.gid);
}

abbrev pub empty : Firestore
empty = record { users = []; groups = []; uid = none; bot_uid = none; gid = none }
