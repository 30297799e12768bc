-- ===== src/Firestore/Unique.antt =====
-- UIDs and GIDs over the whole run of a Firestore database: src/gafaelfawr/storage/firestore.py.
use mathlib.Core.Path.{subst}
use gafaelfawr.Prelude.{
  ℕ, ◌≤◌, ◌<◌, String, ◌≡◌, ◌≢◌, ◌⊎◌, inl, inr, refl, Bool, true, false, Option, none, some, List,
  ◌∷◌, [], arith, string_eq, All, Option-cases, Bool-cases, sym, ap, ◌∙◌, ==_refl, leb, ◌&&◌,
}
use gafaelfawr.Prelude.Result.{Result, ok, err}
use gafaelfawr.Errors.{Error}
use gafaelfawr.Firestore.{
  uid_bot_min, uid_bot_max, uid_user_min, gid_min, gid_max, Assigned, Firestore, lookup, get_gid,
  assign_gid, assign_uid, get_uid, counter_or, initialize, uid_of, empty,
}
use gafaelfawr.Firestore.Invariant.{
  IsDistinct, IsSound, get_uid-IsSound, get_gid-IsSound, initialize-IsSound,
}

-- What calls in any order make of an empty database.
pub data Reachable : Firestore → Type 0 where
  start : Reachable empty
  initialized : {fs : Firestore} → Reachable fs → Reachable (initialize fs)
  after_uid :
      {fs : Firestore} (username : String) (bot : Bool)
      → Reachable fs
      → Reachable (get_uid username bot fs).1
  after_gid : {fs : Firestore} (group : String) → Reachable fs → Reachable (get_gid group fs).1

Reachable-IsSound : {fs : Firestore} → Reachable fs → IsSound fs
Reachable-IsSound start =
    ((omega arith, omega arith, omega arith, tt, tt), (omega arith, omega arith, tt, tt))
Reachable-IsSound (initialized {fs} h) = initialize-IsSound fs (Reachable-IsSound h)
Reachable-IsSound (after_uid {fs} username bot h) =
    get_uid-IsSound username bot fs (Reachable-IsSound h)
Reachable-IsSound (after_gid {fs} group h) = get_gid-IsSound group fs (Reachable-IsSound h)

module _ {ℓ} (P : ℕ → Type ℓ) where
  -- The document that answers a lookup.
  lookup-All :
      (rows : List Assigned) (name : String) (id : ℕ)
      → All (λ (r : Assigned). P r.id) rows
      → lookup rows name ≡ some id
      → P id
  unfolding lookup
  lookup-All [] name id h e = absurd (ground arith)
  lookup-All (r ∷ rows) name id h e = elim (string_eq.dec name r.name) [
    | yes same ↦ let found : r.id ≡ id = ground arith in subst P found h.0
    | no other ↦ lookup-All rows name id h.1 (ground arith)
  ]

lookup_injective :
    (rows : List Assigned) (a b : String) (id : ℕ)
    → IsDistinct rows
    → lookup rows a ≡ some id
    → lookup rows b ≡ some id
    → a ≡ b
unfolding lookup
lookup_injective [] a b id d ea eb = absurd (ground arith)
lookup_injective (r ∷ rows) a b id d ea eb = elim (string_eq.dec a r.name) [
  | yes here ↦ elim (string_eq.dec b r.name) [
    | yes also ↦ here ∙ sym also
    | no other ↦
        let apart : id ≢ r.id = lookup-All (λ n. n ≢ r.id) rows b id d.0 (ground arith) in
        absurd (ground arith)
  ]
  | no there ↦ elim (string_eq.dec b r.name) [
    | yes here ↦
        let apart : id ≢ r.id = lookup-All (λ n. n ≢ r.id) rows a id d.0 (ground arith) in
        absurd (ground arith)
    | no other ↦ lookup_injective rows a b id d.1 (ground arith) (ground arith)
  ]
]

-- Whatever calls were made before, no two users have the same UID, and a UID is in the range of
-- bots, below its maximum, or at least the first of the regular users.
pub Reachable-uid :
    (fs : Firestore) (a : String) (uid : ℕ)
    → Reachable fs
    → lookup fs.users a ≡ some uid
    → ((uid_bot_min ≤ uid × uid < uid_bot_max) ⊎ (uid_user_min ≤ uid))
      × ((b : String) → lookup fs.users b ≡ some uid → a ≡ b)
Reachable-uid fs a uid run e =
    let ((low, bot_low, bot_high, ids, distinct), groups) = Reachable-IsSound run in
    let uids = counter_or uid_user_min fs.uid in
    let bots = counter_or uid_bot_min fs.bot_uid in
    let placed : (uid_user_min ≤ uid × uid < uids) ⊎ (uid_bot_min ≤ uid × uid < bots) =
      lookup-All (λ n. (uid_user_min ≤ n × n < uids) ⊎ (uid_bot_min ≤ n × n < bots)) fs.users a uid
        ids e in
    (
      elim placed [ inl regular ↦ inr regular.0 | inr of_bot ↦ inl (of_bot.0, omega arith) ],
      λ b eb. lookup_injective fs.users a b uid distinct e eb,
    )

-- Whatever calls were made before, no two groups have the same GID, and a GID is in the range,
-- below its maximum.
Reachable-gid :
    (fs : Firestore) (a : String) (gid : ℕ)
    → Reachable fs
    → lookup fs.groups a ≡ some gid
    → (gid_min ≤ gid × gid < gid_max) × ((b : String) → lookup fs.groups b ≡ some gid → a ≡ b)
Reachable-gid fs a gid run e =
    let (users, (low, high, ids, distinct)) = Reachable-IsSound run in
    let gids = counter_or gid_min fs.gid in
    let placed : gid_min ≤ gid × gid < gids =
      lookup-All (λ n. gid_min ≤ n × n < gids) fs.groups a gid ids e in
    ((placed.0, omega arith), λ b eb. lookup_injective fs.groups a b gid distinct e eb)

assign_uid-users :
    (username : String) (bot : Bool) (counter : Option ℕ) (fs t : Firestore) (uid : ℕ)
    → assign_uid username bot counter fs ≡ (ok uid, t)
    → t.users ≡ record { name = username; id = uid } ∷ fs.users
unfolding assign_uid
assign_uid-users username bot none fs t uid h = absurd (ground arith)
assign_uid-users username true (some next) fs t uid h = ground arith
assign_uid-users username false (some next) fs t uid h = ground arith

get_uid-users :
    (username : String) (bot : Bool) (fs t : Firestore) (uid : ℕ)
    → get_uid username bot fs ≡ (ok uid, t)
    → ((lookup fs.users username ≡ some uid) × (t.users ≡ fs.users))
      ⊎ ((lookup fs.users username ≡ none)
          × (t.users ≡ record { name = username; id = uid } ∷ fs.users))
unfolding get_uid
get_uid-users username bot fs t uid h = elim (Option-cases (lookup fs.users username)) [
  | inr (known, e) ↦ inl (ground arith)
  | inl new ↦ inr (new, added bot (ground arith))
]
  where
    added :
        (b : Bool)
        → uid_of username b none fs ≡ (ok uid, t)
        → t.users ≡ record { name = username; id = uid } ∷ fs.users
    added true e = assign_uid-users username true fs.bot_uid fs t uid e
    added false e = assign_uid-users username false fs.uid fs t uid e

-- The UID is on record, and the other users keep what they have.
pub get_uid-lookup :
    (username : String) (bot : Bool) (fs t : Firestore) (uid : ℕ)
    → get_uid username bot fs ≡ (ok uid, t)
    → (lookup t.users username ≡ some uid)
      × ((other : String) → other ≢ username → lookup t.users other ≡ lookup fs.users other)
unfolding lookup
get_uid-lookup username bot fs t uid h = elim (get_uid-users username bot fs t uid h) [
  | inl (known, same) ↦ (rw same known, λ other apart. rw same refl)
  | inr (new, added) ↦
      (rw added (ground (arith, ==_refl username)), λ other apart. rw added (ground arith))
]

-- What is on record stays there.
pub get_uid_keeps :
    (username : String) (bot : Bool) (fs t : Firestore) (uid : ℕ) (name : String) (id : ℕ)
    → get_uid username bot fs ≡ (ok uid, t)
    → lookup fs.users name ≡ some id
    → lookup t.users name ≡ some id
unfolding lookup
get_uid_keeps username bot fs t uid name id h known = elim (get_uid-users username bot fs t uid h) [
  | inl (before, same) ↦ rw same known
  | inr (new, added) ↦ elim (string_eq.dec name username) [
    | yes here ↦ let absent : lookup fs.users name ≡ none = rw here new in absurd (ground arith)
    | no other ↦ rw added (ground arith)
  ]
]

-- Calls in any order, whatever they return.
pub data Later : Firestore → Firestore → Type 0 where
  at_once : {fs : Firestore} → Later fs fs
  later_initialized : {fs t : Firestore} → Later fs t → Later fs (initialize t)
  later_uid :
      {fs t : Firestore} (username : String) (bot : Bool)
      → Later fs t
      → Later fs (get_uid username bot t).1
  later_gid : {fs t : Firestore} (group : String) → Later fs t → Later fs (get_gid group t).1

get_gid-users : (group : String) (fs : Firestore) → (get_gid group fs).1.users ≡ fs.users
unfolding get_gid assign_gid
get_gid-users group fs = elim (Option-cases (lookup fs.groups group)) [
  | inr (gid, known) ↦ rw known refl
  | inl new ↦ elim (Option-cases fs.gid) [
    | inl missing ↦ rw (new, missing) refl
    | inr (next, there) ↦ elim (Bool-cases (leb gid_max next)) [
      | inl full ↦ rw (new, there, full) refl
      | inr room ↦ rw (new, there, room) refl
    ]
  ]
]

assign_uid-err :
    (username : String) (bot : Bool) (counter : Option ℕ) (fs t : Firestore) (e : Error)
    → assign_uid username bot counter fs ≡ (err e, t)
    → t ≡ fs
unfolding assign_uid
assign_uid-err username bot none fs t e h = sym (ap (λ out. out.1) h)
assign_uid-err username bot (some next) fs t e h = elim (Bool-cases (bot && leb uid_bot_max next)) [
  | inl full ↦ sym (ap (λ out. out.1) (rw full at h))
  | inr room ↦ absurd (ground arith)
]

get_uid-err :
    (username : String) (bot : Bool) (fs t : Firestore) (e : Error)
    → get_uid username bot fs ≡ (err e, t)
    → t ≡ fs
unfolding get_uid
get_uid-err username bot fs t e h = elim (Option-cases (lookup fs.users username)) [
  | inr (known, there) ↦ absurd (ground arith)
  | inl new ↦ refused bot (rw new at h)
]
  where
    refused : (b : Bool) → uid_of username b none fs ≡ (err e, t) → t ≡ fs
    refused true g = assign_uid-err username true fs.bot_uid fs t e g
    refused false g = assign_uid-err username false fs.uid fs t e g

after_uid-keeps :
    (username : String) (bot : Bool) (fs t : Firestore) (r : Result Error ℕ) (name : String)
    (id : ℕ)
    → get_uid username bot fs ≡ (r, t)
    → lookup fs.users name ≡ some id
    → lookup t.users name ≡ some id
after_uid-keeps username bot fs t (ok uid) name id h known =
    get_uid_keeps username bot fs t uid name id h known
after_uid-keeps username bot fs t (err e) name id h known =
    ap (λ (s : Firestore). lookup s.users name) (get_uid-err username bot fs t e h) ∙ known

Later-keeps :
    {fs t : Firestore} (name : String) (id : ℕ)
    → Later fs t
    → lookup fs.users name ≡ some id
    → lookup t.users name ≡ some id
unfolding initialize
Later-keeps name id at_once known = known
Later-keeps name id (later_initialized run) known = Later-keeps name id run known
Later-keeps name id (later_uid {fs} {t} username bot run) known =
    let (r, u) = get_uid username bot t in
    after_uid-keeps username bot t u r name id refl (Later-keeps name id run known)
Later-keeps name id (later_gid {fs} {t} group run) known =
    ap (λ users. lookup users name) (get_gid-users group t) ∙ Later-keeps name id run known

-- The UID that `get_uid` returns stays with the user: after any later calls for any users and groups,
-- whatever they return, it is on record for the user, and another call for the user returns it
-- and changes nothing. The other users keep what they have when it is assigned.
pub get_uid_stable :
    (username : String) (bot : Bool) (fs t u : Firestore) (uid : ℕ)
    → get_uid username bot fs ≡ (ok uid, t)
    → Later t u
    → (lookup u.users username ≡ some uid)
      × ((again : Bool) → get_uid username again u ≡ (ok uid, u))
      × ((other : String) → other ≢ username → lookup t.users other ≡ lookup fs.users other)
unfolding get_uid
get_uid_stable username bot fs t u uid h run =
    let (recorded, others) = get_uid-lookup username bot fs t uid h in
    let kept = Later-keeps username uid run recorded in (kept, λ again. rw kept refl, others)
