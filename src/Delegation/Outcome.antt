-- ===== src/Delegation/Outcome.antt =====
-- What `get_internal_token` and `get_notebook_token` of src/gafaelfawr/services/token_cache.py
-- answer with, and leave in the stores and the cache.
use gafaelfawr.Prelude.{
  ℕ, ◌+◌, ◌≤◌, ◌≡◌, ◌≢◌, ◌⊎◌, inl, inr, refl, Bool, true, String, Option, none, some, List, arith,
  ltb, Bool-cases,
}
use gafaelfawr.Prelude.Result.{ok}
use gafaelfawr.Credential.{Token}
use gafaelfawr.Models.{TokenData, TokenType, internal, notebook}
use gafaelfawr.Storage.Redis.{Storage, IsLawful}
use gafaelfawr.Storage.Queries.{get_internal_token_key, get_notebook_token_key}
use gafaelfawr.Storage.World.{World, Action, get_data_by_key}
use gafaelfawr.Tokens.{Config}
use gafaelfawr.Tokens.Create.{creation}
use gafaelfawr.Tokens.Create.Outcome.{store_new_ok}
use gafaelfawr.Tokens.Create.Stored.{IsStored, store_new-IsStored, linked}
use gafaelfawr.Delegation.{
  Cache, InternalKey, NotebookKey, internal_key, notebook_key, capped, minimum_expiration,
  child_data, is_token_valid, data_for, reuse_or, new_child, create_internal_token,
  create_notebook_token, Process, usable, under_lock, on_miss, cached_or_created,
  get_internal_token, get_notebook_token,
}

-- A time that is not after either of the two.
abbrev pub IsCapped : ℕ → Option ℕ → Option ℕ → Type 0
IsCapped t limit none = ⊥
IsCapped t none (some e) = e ≤ t
IsCapped t (some limit) (some e) = (e ≤ t) × (e ≤ limit)

capped-IsCapped : (t : ℕ) (limit : Option ℕ) → IsCapped t limit (some (capped t limit))
capped-IsCapped t none = omega arith
capped-IsCapped t (some limit) = elim (Bool-cases (ltb limit t)) [
  | inl later ↦ rw later (ground arith, omega arith)
  | inr earlier ↦ rw earlier (omega arith, ground arith)
]

module _ (R : Storage TokenData) {K : Type 0} (C : Cache K Token) where
  module _ (key : K) (is_valid : Option Token → World R → Bool) (create : Action R Token) where
    abbrev Kept : Process R C → Process R C → Token → Type 0
    Kept p t made = (create p.world ≡ (ok made, t.world)) × (t.cache ≡ C.put p.cache key made)

    under_lock-ok :
        (o : Option Token) (p t : Process R C) (made : Token)
        → under_lock R C key is_valid create o p ≡ (ok made, t)
        → ((o ≡ some made) × (t ≡ p)) ⊎ ((o ≡ none) × Kept p t made)
    unfolding under_lock
    under_lock-ok (some cached) p t made h = inl (ground arith, ground arith)
    under_lock-ok none p t made h = inr (refl, ground arith)

    on_miss-ok :
        (o : Option Token) (p t : Process R C) (made : Token)
        → on_miss R C key is_valid create o p ≡ (ok made, t)
        → usable R C key is_valid create p ≡ o
        → ((o ≡ some made) × (t ≡ p)) ⊎ Kept p t made
    unfolding on_miss
    on_miss-ok (some cached) p t made h e = inl (ground arith, ground arith)
    on_miss-ok none p t made h e =
        elim (under_lock-ok (usable R C key is_valid create p) p t made h) [
          | inl (again, same) ↦ absurd (ground arith)
          | inr (missed, kept) ↦ inr kept
        ]

    usable-valid :
        (p : Process R C) (cached : Token)
        → usable R C key is_valid create p ≡ some cached
        → (C.get p.cache key ≡ some cached) × (is_valid (some cached) p.world ≡ true)
    usable-valid p cached e = elim (Bool-cases (is_valid (C.get p.cache key) p.world)) [
      | inl valid ↦
          let held : C.get p.cache key ≡ some cached = ground arith in (held, rw held at valid)
      | inr stale ↦ absurd (ground arith)
    ]

    cached_or_created-ok :
        (p t : Process R C) (made : Token)
        → cached_or_created R C key is_valid create p ≡ (ok made, t)
        → ((C.get p.cache key ≡ some made) × (is_valid (some made) p.world ≡ true) × (t ≡ p))
          ⊎ Kept p t made
    unfolding cached_or_created
    cached_or_created-ok p t made h =
        elim (on_miss-ok (usable R C key is_valid create p) p t made h refl) [
          | inl (found, same) ↦
              let (held, valid) = usable-valid p made found in inl (held, valid, same)
          | inr kept ↦ inr kept
        ]

module _ (R : Storage TokenData) (L : IsLawful R) (config : Config) (now : ℕ) (token : Token)
    (parent : TokenData) (ip_address : String) (minimum_lifetime : Option ℕ) where
  -- The database found a key, and Redis the data for it; nothing changes.
  abbrev pub IsReused : Option String → World R → World R → Token → Type 0
  IsReused found w t made =
      (key : String) × (d : TokenData) × (found ≡ some key)
      × (get_data_by_key R now key w ≡ some d)
      × (made ≡ d.token)
      × (t ≡ w)

  -- The token is the one drawn, and is stored as a child of the parent, which it does not outlive.
  abbrev pub IsChild : TokenType → List String → Option String → World R → Token → ℕ → Type 0
  IsChild token_type scopes for_service t made later =
      let d = child_data config now token token_type scopes parent in
      (made ≡ token)
      × IsStored R L now d none for_service (some parent.token.key) t later
      × IsCapped (now + config.token_lifetime) parent.expires d.expires

  reuse_or-ok :
      (o : Option TokenData) (create : Action R Token) (w t : World R) (made : Token)
      → reuse_or R config now token o create w ≡ (ok made, t)
      → ((d : TokenData) × (o ≡ some d) × (made ≡ d.token) × (t ≡ w)) ⊎ (create w ≡ (ok made, t))
  unfolding reuse_or
  reuse_or-ok none create w t made h = inr h
  reuse_or-ok (some d) create w t made h = inl (d, refl, ground arith, ground arith)

  data_for-some :
      (found : Option String) (w : World R) (d : TokenData)
      → data_for R now found w ≡ some d
      → (key : String) × (found ≡ some key) × (get_data_by_key R now key w ≡ some d)
  data_for-some none w d e = absurd (ground arith)
  data_for-some (some key) w d e = (key, refl, e)

  new_child-ok :
      (token_type : TokenType) (scopes : List String) (for_service : Option String) (w t : World R)
      (made : Token) (later : ℕ)
      → new_child R config now token parent ip_address minimum_lifetime token_type scopes
          for_service w
        ≡ (ok made, t)
      → now ≤ later
      → parent.token.key ≢ ""
      → IsChild token_type scopes for_service t made later
  unfolding new_child
  new_child-ok token_type scopes for_service w t made later h le text =
      let d = child_data config now token token_type scopes parent in
      let key = some parent.token.key in
      let entry = creation d none key for_service parent.username (some ip_address) in
      (
        (store_new_ok R now d none for_service key entry w t made h).0,
        rw (linked d for_service parent.token.key w.db text) at
            (store_new-IsStored R L now d none for_service key entry w t made later h le),
        capped-IsCapped (now + config.token_lifetime) parent.expires,
      )

  IsReused-or_IsChild :
      (found : Option String) (token_type : TokenType) (scopes : List String)
      (for_service : Option String) (w t : World R) (made : Token) (later : ℕ)
      → reuse_or R config now token
          (data_for R now found w)
          (new_child R config now token parent ip_address minimum_lifetime token_type scopes
            for_service)
          w
        ≡ (ok made, t)
      → now ≤ later
      → parent.token.key ≢ ""
      → IsReused found w t made ⊎ IsChild token_type scopes for_service t made later
  IsReused-or_IsChild found token_type scopes for_service w t made later h le text =
      elim (reuse_or-ok (data_for R now found w) _ w t made h) [
        | inl (d, e, same, kept) ↦
            let (key, is, has) = data_for-some found w d e in inl (key, d, is, has, same, kept)
        | inr created ↦
            inr (new_child-ok token_type scopes for_service w t made later created le text)
      ]

  -- When `get_internal_token` returns a token, either it is the cached one for the same parent,
  -- expiration, service and scopes, which is valid for the request, and nothing changes; or the
  -- cache is told of it, and it is one that the database found and Redis has, or the drawn one. That
  -- one is stored in Redis and in the database as a child of the parent with the scopes of the
  -- request, and it does not outlive the parent or the configured lifetime. This supposes that the
  -- Redis storage meets its assumptions and that the parent's key is not empty.
  pub get_internal_token_lem :
      (C : Cache InternalKey Token) (for_service : String) (scopes : List String)
      (p t : Process R C) (made : Token) (later : ℕ)
      → get_internal_token R config now token parent ip_address minimum_lifetime C for_service
          scopes p
        ≡ (ok made, t)
      → now ≤ later
      → parent.token.key ≢ ""
      → ((C.get p.cache (internal_key parent for_service scopes) ≡ some made)
          × (is_token_valid R now (some made) minimum_lifetime (some scopes) p.world ≡ true)
          × (t ≡ p))
        ⊎ ((t.cache ≡ C.put p.cache (internal_key parent for_service scopes) made)
            × (IsReused
                  (get_internal_token_key parent for_service scopes
                    (minimum_expiration config now parent minimum_lifetime)
                    p.world.db)
                  p.world
                  t.world
                  made
                ⊎ IsChild internal scopes (some for_service) t.world made later))
  unfolding get_internal_token create_internal_token
  get_internal_token_lem C for_service scopes p t made later h le text =
      elim (cached_or_created-ok R C _ _ _ p t made h) [
        | inl cached ↦ inl cached
        | inr (created, told) ↦ inr (
          told,
          IsReused-or_IsChild _ internal scopes (some for_service) p.world t.world made later
              created le text,
        )
      ]

  -- When `get_notebook_token` returns a token, either it is the cached one for the same parent and
  -- expiration, which is valid for the request, and nothing changes; or the cache is told of it,
  -- and it is one that the database found and Redis has, or the drawn one. That one is stored in
  -- Redis and in the database as a child of the parent with all of its scopes, and it does not
  -- outlive the parent or the configured lifetime. This supposes that the Redis storage meets its
  -- assumptions and that the parent's key is not empty.
  get_notebook_token_lem :
      (C : Cache NotebookKey Token) (p t : Process R C) (made : Token) (later : ℕ)
      → get_notebook_token R config now token parent ip_address minimum_lifetime C p ≡ (ok made, t)
      → now ≤ later
      → parent.token.key ≢ ""
      → ((C.get p.cache (notebook_key parent) ≡ some made)
          × (is_token_valid R now (some made) minimum_lifetime none p.world ≡ true)
          × (t ≡ p))
        ⊎ ((t.cache ≡ C.put p.cache (notebook_key parent) made)
            × (IsReused
                  (get_notebook_token_key parent
                    (minimum_expiration config now parent minimum_lifetime)
                    p.world.db)
                  p.world
                  t.world
                  made
                ⊎ IsChild notebook parent.scopes none t.world made later))
  unfolding get_notebook_token create_notebook_token
  get_notebook_token_lem C p t made later h le text =
      elim (cached_or_created-ok R C _ _ _ p t made h) [
        | inl cached ↦ inl cached
        | inr (created, told) ↦ inr (
          told,
          IsReused-or_IsChild _ notebook parent.scopes none p.world t.world made later created le
              text,
        )
      ]
