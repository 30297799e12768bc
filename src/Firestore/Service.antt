-- ===== src/Firestore/Service.antt =====
-- `FirestoreService.get_uid` of src/gafaelfawr/services/firestore.py, with the cache of UIDs of
-- src/gafaelfawr/cache.py. A request runs alone; the check of the cache is repeated under its lock.
use mathlib.Core.Path.{subst}
use gafaelfawr.Prelude.{
  ℕ, String, ◌≡◌, ◌≢◌, ◌⊎◌, inl, inr, refl, Bool, true, false, Option, none, some, arith, ◌==◌,
  nat_eq, string_eq, if◌then◌else◌, Option-cases,
}
use gafaelfawr.Prelude.Result.{ok}
use gafaelfawr.Prelude.Exec.{Exec, pure, gets, modify, ◌>>=◌, ◌>>◌}
use gafaelfawr.Errors.{Error}
use gafaelfawr.Usernames.{is_bot_user}
use gafaelfawr.Firestore.{Firestore, Allocation, lookup, get_uid}
use gafaelfawr.Firestore.Unique.{get_uid-lookup, get_uid_keeps}

-- `cachetools.LRUCache`, which the program only calls.
pub record IdCache : Type 1 where
  pub State : Type 0
  pub get : State → String → Option ℕ
  pub put : State → String → ℕ → State

-- It may drop what it holds, but makes nothing up.
pub record IsFaithful (C : IdCache) : Type 0 where
  pub get-put :
      (s : C.State) (name other : String) (id found : ℕ)
      → C.get (C.put s name id) other ≡ some found
      → ((other ≡ name) × (found ≡ id)) ⊎ (C.get s other ≡ some found)

-- `if uid:`, which is false for zero too.
abbrev pub nonzero : Option ℕ → Option ℕ
nonzero none = none
nonzero (some id) = if id == 0 then none else some id

nonzero-some : (o : Option ℕ) (id : ℕ) → nonzero o ≡ some id → o ≡ some id
nonzero-some none id e = e
nonzero-some (some n) id e = ground arith

module _ (C : IdCache) where
  pub record Service : Type 0 where
    pub store : Firestore
    pub cache : C.State

  abbrev pub Lookup : Type 0
  Lookup = Exec Service Error ℕ

  abbrev pub in_store : Allocation → Lookup
  in_store m p = let (r, fs) = m p.store in (r, record p { store = fs })

  module _ (username : String) where
    abbrev pub held : Service → Option ℕ
    held p = nonzero (C.get p.cache username)

    abbrev pub assigned : Lookup
    assigned = in_store (get_uid username (is_bot_user username))

    unfoldable pub id_under_lock : Option ℕ → Lookup
    id_under_lock (some id) = pure id
    id_under_lock none = do
      id ← assigned
      modify (λ p. record p { cache = C.put p.cache username id })
      pure id

    unfoldable pub id_on_miss : Option ℕ → Lookup
    id_on_miss (some id) = pure id
    id_on_miss none = do again ← gets held; id_under_lock again

    -- `get_uid`
    unfoldable pub get_uid_cached : Bool → Lookup
    get_uid_cached true = assigned
    get_uid_cached false = do id ← gets held; id_on_miss id

  -- The cache holds what the store has.
  abbrev pub IsAgreed : Service → Type 0
  IsAgreed p =
      (name : String) (id : ℕ) → C.get p.cache name ≡ some id → lookup p.store.users name ≡ some id

  module _ (F : IsFaithful C) (username : String) where
    -- The answer is on record, nothing on record changes, and the cache still agrees.
    abbrev pub IsAnswer : Service → Service → ℕ → Type 0
    IsAnswer p t uid =
        (lookup t.store.users username ≡ some uid)
        × ((other : String)
            → other ≢ username
            → lookup t.store.users other ≡ lookup p.store.users other)
        × IsAgreed t

    held-IsAnswer :
        (p t : Service) (uid : ℕ)
        → IsAgreed p
        → held username p ≡ some uid
        → t ≡ p
        → IsAnswer p t uid
    held-IsAnswer p t uid agreed e same =
        let cached : C.get p.cache username ≡ some uid =
          nonzero-some (C.get p.cache username) uid e in
        rw same (agreed username uid cached, λ other apart. refl, agreed)

    assigned-IsAnswer :
        (p t : Service) (uid : ℕ)
        → IsAgreed p
        → assigned username p ≡ (ok uid, t)
        → IsAnswer p t uid × (t.cache ≡ p.cache)
    assigned-IsAnswer p t uid agreed h =
        let bot = is_bot_user username in
        let asked : get_uid username bot p.store ≡ (ok uid, t.store) = ground arith in
        let same : t.cache ≡ p.cache = ground arith in
        let (now, others) = get_uid-lookup username bot p.store t.store uid asked in
        (
          (
            now,
            others,
            λ name id e.
                get_uid_keeps username bot p.store t.store uid name id asked
                  (agreed name id (subst (λ c. C.get c name ≡ some id) same e)),
          ),
          same,
        )

    id_under_lock-IsAnswer :
        (o : Option ℕ) (p t : Service) (uid : ℕ)
        → IsAgreed p
        → held username p ≡ o
        → id_under_lock username o p ≡ (ok uid, t)
        → IsAnswer p t uid
    unfolding id_under_lock
    id_under_lock-IsAnswer (some id) p t uid agreed e h =
        held-IsAnswer p t uid agreed (ground arith) (ground arith)
    id_under_lock-IsAnswer none p t uid agreed e h =
        let asked : assigned username p ≡ (ok uid, record t { cache = p.cache }) = ground arith in
        let told : t.cache ≡ C.put p.cache username uid = ground arith in
        let ((now, others, agrees), same) =
          assigned-IsAnswer p (record t { cache = p.cache }) uid agreed asked in
        (
          now,
          others,
          λ name id e'.
              elim (F.get-put p.cache username name uid id
                (subst (λ c. C.get c name ≡ some id) told e')) [
                  | inl (here, is) ↦ rw (here, is) now
                  | inr before ↦ agrees name id before
                ],
        )

    -- If the cache makes nothing up and holds what the store has, then a UID that `get_uid` returns,
    -- from the cache or not, is on record for the user after it, the other users keep what they
    -- have, and the cache still holds what the store has.
    pub get_uid_cached-IsAnswer :
        (uncached : Bool) (p t : Service) (uid : ℕ)
        → IsAgreed p
        → get_uid_cached username uncached p ≡ (ok uid, t)
        → IsAnswer p t uid
    unfolding get_uid_cached id_on_miss
    get_uid_cached-IsAnswer true p t uid agreed h = (assigned-IsAnswer p t uid agreed h).0
    get_uid_cached-IsAnswer false p t uid agreed h = elim (Option-cases (held username p)) [
      | inr (id, e) ↦ held-IsAnswer p t uid agreed (ground arith) (ground arith)
      | inl e ↦ id_under_lock-IsAnswer (held username p) p t uid agreed refl (ground arith)
    ]
