-- ===== src/Firestore/Invariant.antt =====
-- What the operations on UIDs and GIDs of src/gafaelfawr/storage/firestore.py keep.
use mathlib.Core.Path.{subst}
use gafaelfawr.Prelude.{
  ℕ, suc, ◌≤◌, ◌<◌, String, ◌≡◌, ◌≢◌, ◌⊎◌, inl, inr, refl, Bool, true, false, Option, none, some,
  List, ◌∷◌, [], arith, string_eq, leb, All, Bool-cases, Option-cases,
}
use gafaelfawr.Firestore.{
  uid_bot_min, uid_bot_max, uid_user_min, gid_min, gid_max, Assigned, Firestore, lookup, assign_gid,
  get_gid, assign_uid, get_uid, counter_or, initialize, uid_of,
}

-- An id is that of one document only.
abbrev pub IsDistinct : List Assigned → Type 0
IsDistinct [] = Unit
IsDistinct (r ∷ rows) = All (λ (q : Assigned). q.id ≢ r.id) rows × IsDistinct rows

-- Below the counter of regular users or that of bots, and in that range.
abbrev pub IsUid : ℕ → ℕ → Assigned → Type 0
IsUid uid bot r = (uid_user_min ≤ r.id × r.id < uid) ⊎ (uid_bot_min ≤ r.id × r.id < bot)

abbrev pub IsUsers : ℕ → ℕ → List Assigned → Type 0
IsUsers uid bot users =
    uid_user_min ≤ uid
    × uid_bot_min ≤ bot
    × bot ≤ uid_bot_max
    × All (IsUid uid bot) users
    × IsDistinct users

abbrev pub IsGid : ℕ → Assigned → Type 0
IsGid gid r = gid_min ≤ r.id × r.id < gid

abbrev pub IsGroups : ℕ → List Assigned → Type 0
IsGroups gid groups = gid_min ≤ gid × gid ≤ gid_max × All (IsGid gid) groups × IsDistinct groups

abbrev pub IsSound : Firestore → Type 0
IsSound fs =
    IsUsers (counter_or uid_user_min fs.uid) (counter_or uid_bot_min fs.bot_uid) fs.users
    × IsGroups (counter_or gid_min fs.gid) fs.groups

module _ {ℓ κ} {P : Assigned → Type ℓ} {Q : Assigned → Type κ} where
  All-each : ((r : Assigned) → P r → Q r) → (rows : List Assigned) → All P rows → All Q rows
  All-each f [] h = tt
  All-each f (r ∷ rows) h = (f r h.0, All-each f rows h.1)

IsUsers-user :
    (uid bot : ℕ) (name : String) (users : List Assigned)
    → IsUsers uid bot users
    → IsUsers (suc uid) bot (record { name = name; id = uid } ∷ users)
IsUsers-user uid bot name users (low, bot_low, bot_high, ids, distinct) = (
  omega arith,
  bot_low,
  bot_high,
  (inl (low, omega arith), All-each (λ r h. ground arith) users ids),
  (All-each (λ r h. ground arith) users ids, distinct),
)

IsUsers-bot :
    (uid bot : ℕ) (name : String) (users : List Assigned)
    → bot < uid_bot_max
    → IsUsers uid bot users
    → IsUsers uid (suc bot) (record { name = name; id = bot } ∷ users)
IsUsers-bot uid bot name users free (low, bot_low, bot_high, ids, distinct) = (
  low,
  omega arith,
  omega arith,
  (inr (bot_low, omega arith), All-each (λ r h. ground arith) users ids),
  (All-each (λ r h. ground arith) users ids, distinct),
)

IsGroups-group :
    (gid : ℕ) (name : String) (groups : List Assigned)
    → gid < gid_max
    → IsGroups gid groups
    → IsGroups (suc gid) (record { name = name; id = gid } ∷ groups)
IsGroups-group gid name groups free (low, high, ids, distinct) = (
  omega arith,
  omega arith,
  ((low, omega arith), All-each (λ r h. (h.0, omega arith)) groups ids),
  (All-each (λ r h. omega arith) groups ids, distinct),
)

assign_gid-IsSound :
    (group : String) (counter : Option ℕ) (fs : Firestore)
    → fs.gid ≡ counter
    → IsSound fs
    → IsSound (assign_gid group counter fs).1
unfolding assign_gid
assign_gid-IsSound group none fs e h = h
assign_gid-IsSound group (some next) fs e h = elim (Bool-cases (leb gid_max next)) [
  | inl full ↦ rw full h
  | inr free ↦ rw free (
    h.0,
    IsGroups-group next group fs.groups (ground arith)
        (subst (λ o. IsGroups (counter_or gid_min o) fs.groups) e h.1),
  )
]

pub get_gid-IsSound : (group : String) (fs : Firestore) → IsSound fs → IsSound (get_gid group fs).1
unfolding get_gid
get_gid-IsSound group fs h = elim (Option-cases (lookup fs.groups group)) [
  | inl new ↦ rw new (assign_gid-IsSound group fs.gid fs refl h)
  | inr (gid, known) ↦ rw known h
]

assign_bot-IsSound :
    (username : String) (counter : Option ℕ) (fs : Firestore)
    → fs.bot_uid ≡ counter
    → IsSound fs
    → IsSound (assign_uid username true counter fs).1
unfolding assign_uid
assign_bot-IsSound username none fs e h = h
assign_bot-IsSound username (some next) fs e h = elim (Bool-cases (leb uid_bot_max next)) [
  | inl full ↦ rw full h
  | inr free ↦ rw free (
    IsUsers-bot (counter_or uid_user_min fs.uid) next username fs.users (ground arith) (
        subst (λ o. IsUsers (counter_or uid_user_min fs.uid) (counter_or uid_bot_min o) fs.users) e
          h.0),
    h.1,
  )
]

assign_user-IsSound :
    (username : String) (counter : Option ℕ) (fs : Firestore)
    → fs.uid ≡ counter
    → IsSound fs
    → IsSound (assign_uid username false counter fs).1
unfolding assign_uid
assign_user-IsSound username none fs e h = h
assign_user-IsSound username (some next) fs e h = (
  IsUsers-user next (counter_or uid_bot_min fs.bot_uid) username fs.users (
      subst (λ o. IsUsers (counter_or uid_user_min o) (counter_or uid_bot_min fs.bot_uid) fs.users)
        e h.0),
  h.1,
)

pub get_uid-IsSound :
    (username : String) (bot : Bool) (fs : Firestore)
    → IsSound fs
    → IsSound (get_uid username bot fs).1
unfolding get_uid
get_uid-IsSound username bot fs h = elim (Option-cases (lookup fs.users username)) [
  | inr (uid, known) ↦ rw known h
  | inl new ↦ rw new (fresh bot)
]
  where
    fresh : (b : Bool) → IsSound (uid_of username b none fs).1
    fresh true = assign_bot-IsSound username fs.bot_uid fs refl h
    fresh false = assign_user-IsSound username fs.uid fs refl h

pub initialize-IsSound : (fs : Firestore) → IsSound fs → IsSound (initialize fs)
unfolding initialize
initialize-IsSound fs h = h
