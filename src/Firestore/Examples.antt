-- ===== src/Firestore/Examples.antt =====
-- UIDs and GIDs of a few users and groups.
use gafaelfawr.Prelude.{
  if◌then◌else◌, ◌==◌, inl, ℕ, Option, none, arith, ◌≤◌, ◌<◌, String, ◌≡◌, ◌≢◌, ◌⊎◌, refl, Bool,
  true, false, some, string_eq,
}
use gafaelfawr.Prelude.Result.{ok, err}
use gafaelfawr.Errors.{firestore_not_initialized, no_available_uid}
use gafaelfawr.Firestore.{
  uid_bot_min, uid_bot_max, uid_user_min, Firestore, lookup, get_gid, get_uid, initialize, empty,
  assign_uid, assign_gid,
}
use gafaelfawr.Prelude.Text.{char_eq, starts_with}
use gafaelfawr.Usernames.{is_bot_user, valid_username}
use gafaelfawr.Firestore.Service.{
  IdCache, IsFaithful, Service, get_uid_cached, id_on_miss, id_under_lock, IsAnswer,
  get_uid_cached-IsAnswer,
}
use gafaelfawr.Firestore.Unique.{
  Reachable, start, initialized, after_uid, after_gid, Reachable-uid, Later, at_once,
  later_initialized, later_uid, later_gid, get_uid_stable,
}

abbrev set_up : Firestore
set_up = initialize empty

abbrev in_use : Firestore
in_use = (get_gid "g_users" (get_uid "bot-ci" true (get_uid "someuser" false set_up).1).1).1

in_use-Reachable : Reachable in_use
in_use-Reachable =
    after_gid "g_users" (after_uid "bot-ci" true (after_uid "someuser" false (initialized start)))

Reachable-uid_example :
    ((uid_bot_min ≤ 100_000 × 100_000 < uid_bot_max) ⊎ (uid_user_min ≤ 100_000))
    × ((b : String) → lookup in_use.users b ≡ some 100_000 → "bot-ci" ≡ b)
unfolding lookup get_gid get_uid initialize assign_uid assign_gid string_eq
Reachable-uid_example = Reachable-uid in_use "bot-ci" 100_000 in_use-Reachable refl

abbrev after : Firestore
after = (get_uid "otheruser" false in_use).1

assigned : get_uid "otheruser" false in_use ≡ (ok 3_000_001, after)
unfolding lookup get_gid get_uid initialize assign_uid assign_gid string_eq
assigned = refl

-- Calls for another user, for a group and for the same user follow.
abbrev at_end : Firestore
at_end =
    (get_uid "otheruser" true
      (get_gid "g_other" (get_uid "thirduser" false (initialize after)).1).1).1

at_end-Later : Later after at_end
at_end-Later =
    later_uid "otheruser" true
      (later_gid "g_other" (later_uid "thirduser" false (later_initialized at_once)))

get_uid_stable_example :
    (lookup at_end.users "otheruser" ≡ some 3_000_001)
    × ((again : Bool) → get_uid "otheruser" again at_end ≡ (ok 3_000_001, at_end))
    × ((other : String)
        → other ≢ "otheruser"
        → lookup after.users other ≡ lookup in_use.users other)
get_uid_stable_example =
    get_uid_stable "otheruser" false in_use after at_end 3_000_001 assigned at_end-Later

-- Before `initialize`, and when the bots' range is full.
refused : get_uid "someuser" false empty ≡ (err firestore_not_initialized, empty)
unfolding get_uid lookup assign_uid
refused = refl

abbrev full : Firestore
full = record set_up { bot_uid = some 199_999 }

exhausted : get_uid "bot-ci" true full ≡ (err no_available_uid, full)
unfolding get_uid lookup assign_uid initialize
exhausted = refl

-- A cache of one name.
abbrev one_name : IdCache
one_name = record {
  State = Option (String × ℕ);
  get = λ s name. elim s [
    | none ↦ none
    | some (held_name, id) ↦ if name == held_name then some id else none
  ];
  put = λ s name id. some (name, id);
}

one_name-IsFaithful : IsFaithful one_name
one_name-IsFaithful = record {
  get-put = λ s name other id found e. elim (string_eq.dec other name) [
    | yes same ↦ inl (same, ground arith)
    | no apart ↦ absurd (ground arith)
  ];
}

abbrev asking : Service one_name
asking = record { store = in_use; cache = none }

abbrev answered : Service one_name
answered = (get_uid_cached one_name "someuser" false asking).1

answers : get_uid_cached one_name "someuser" false asking ≡ (ok 3_000_000, answered)
unfolding get_uid_cached id_on_miss id_under_lock is_bot_user valid_username lookup get_gid get_uid
    initialize assign_uid assign_gid string_eq char_eq starts_with
answers = refl

get_uid_cached-IsAnswer_example :
    IsAnswer one_name one_name-IsFaithful "someuser" asking answered 3_000_000
get_uid_cached-IsAnswer_example =
    get_uid_cached-IsAnswer one_name one_name-IsFaithful "someuser" false asking answered 3_000_000
      (λ name id e. absurd (ground arith)) answers
