-- ===== src/Delegation.antt =====
-- Internal and notebook tokens: `TokenCacheService` of src/gafaelfawr/services/token_cache.py, and
-- the keys of the caches in src/gafaelfawr/cache.py. A request runs alone: the lock of the user
-- keeps other requests for the user out, and the check of the cache is repeated under it.
pub mod Validity
pub mod Outcome
pub mod Service
pub mod Examples
use gafaelfawr.Prelude.{
  ℕ, ◌+◌, ◌*◌, ◌/◌, String, Bool, true, false, not, ◌&&◌, Option, none, some, List, ◌==◌, nat_eq,
  string_eq, ltb, is_subset, if◌then◌else◌,
}
use gafaelfawr.Prelude.Result.{ok}
use gafaelfawr.Prelude.Exec.{Exec, pure, gets, modify, ◌>>=◌, ◌>>◌}
use gafaelfawr.Errors.{Error}
use gafaelfawr.Credential.{Token}
use gafaelfawr.Models.{TokenData, TokenType, internal, notebook}
use gafaelfawr.Models.Scopes.{join_scopes}
use gafaelfawr.Storage.Redis.{Storage}
use gafaelfawr.Storage.Queries.{get_internal_token_key, get_notebook_token_key}
use gafaelfawr.Storage.World.{World, Action, get_data, get_data_by_key}
use gafaelfawr.Tokens.{Config}
use gafaelfawr.Tokens.Create.{creation, store_new}

-- `cachetools.LRUCache`, which the program only calls. It may drop what it holds.
pub record Cache (K V : Type 0) : Type 1 where
  pub State : Type 0
  pub get : State → K → Option V
  pub put : State → K → V → State

-- `_build_key` of both caches.
pub record InternalKey : Type 0 where
  pub parent : String
  pub expires : Option ℕ
  pub for_service : String
  pub scope : String

pub record NotebookKey : Type 0 where
  pub parent : String
  pub expires : Option ℕ

abbrev pub internal_key : TokenData → String → List String → InternalKey
internal_key parent for_service scopes = record {
  parent = parent.token.key;
  expires = parent.expires;
  for_service = for_service;
  scope = join_scopes scopes;
}

abbrev pub notebook_key : TokenData → NotebookKey
notebook_key parent = record { parent = parent.token.key; expires = parent.expires }

-- `set(data.scopes) <= set(scopes)`, if scopes are given.
abbrev pub within : Option (List String) → List String → Bool
within none granted = true
within (some scopes) granted = is_subset granted scopes

-- `if minimum_lifetime:`, which a lifetime of zero is not.
abbrev pub given : Option ℕ → Option ℕ
given none = none
given (some lifetime) = if lifetime == 0 then none else some lifetime

-- `remaining.total_seconds() < required`, without the subtractions and the halving.
abbrev pub is_short : ℕ → Option ℕ → ℕ → ℕ → Bool
is_short now (some lifetime) created expires = ltb expires (now + lifetime)
is_short now none created expires = ltb (expires + created) (2 * now)

abbrev pub lasts : ℕ → Option ℕ → ℕ → Option ℕ → Bool
lasts now minimum created none = true
lasts now minimum created (some expires) = not (is_short now minimum created expires)

abbrev pub is_data_valid : ℕ → Option ℕ → Option (List String) → Option TokenData → Bool
is_data_valid now minimum_lifetime scopes none = false
is_data_valid now minimum_lifetime scopes (some d) =
    within scopes d.scopes && lasts now (given minimum_lifetime) d.created d.expires

-- The earlier of two times, if there is a second.
abbrev pub capped : ℕ → Option ℕ → ℕ
capped t none = t
capped t (some limit) = if ltb limit t then limit else t

abbrev pub wanted : Config → ℕ → Option ℕ → ℕ
wanted config now (some lifetime) = now + lifetime
wanted config now none = now + config.token_lifetime / 2

-- `_minimum_expiration`
unfoldable pub minimum_expiration : Config → ℕ → TokenData → Option ℕ → ℕ
minimum_expiration config now parent minimum_lifetime =
    capped (wanted config now (given minimum_lifetime)) parent.expires

-- The data of a new internal or notebook token.
abbrev pub child_data : Config → ℕ → Token → TokenType → List String → TokenData → TokenData
child_data config now token token_type scopes parent = record {
  token = token;
  username = parent.username;
  token_type = token_type;
  scopes = scopes;
  created = now;
  expires = some (capped (now + config.token_lifetime) parent.expires);
  metadata = parent.metadata;
}

module _ (R : Storage TokenData) (now : ℕ) where
  -- `_is_token_valid`
  unfoldable pub is_token_valid : Option Token → Option ℕ → Option (List String) → World R → Bool
  is_token_valid none minimum_lifetime scopes w = false
  is_token_valid (some cached) minimum_lifetime scopes w =
      is_data_valid now minimum_lifetime scopes (get_data R now cached w)

  -- The data in Redis for the key that the database found.
  abbrev pub data_for : Option String → World R → Option TokenData
  data_for none w = none
  data_for (some key) w = get_data_by_key R now key w

module _ (R : Storage TokenData) (config : Config) (now : ℕ) (token : Token) where
  unfoldable pub reuse_or : Option TokenData → Action R Token → Action R Token
  reuse_or none create = create
  reuse_or (some d) create = pure d.token

  module _ (parent : TokenData) (ip_address : String) (minimum_lifetime : Option ℕ) where
    unfoldable pub new_child : TokenType → List String → Option String → Action R Token
    new_child token_type scopes for_service =
        let d = child_data config now token token_type scopes parent in
        store_new R now d none for_service (some parent.token.key)
          (creation d none (some parent.token.key) for_service parent.username (some ip_address))

    -- `_create_internal_token` and `_create_notebook_token`
    unfoldable pub create_internal_token : String → List String → Action R Token
    create_internal_token for_service scopes w =
        let minimum = minimum_expiration config now parent minimum_lifetime in
        let key = get_internal_token_key parent for_service scopes minimum w.db in
        reuse_or (data_for R now key w) (new_child internal scopes (some for_service)) w

    unfoldable pub create_notebook_token : Action R Token
    create_notebook_token w =
        let minimum = minimum_expiration config now parent minimum_lifetime in
        let key = get_notebook_token_key parent minimum w.db in
        reuse_or (data_for R now key w) (new_child notebook parent.scopes none) w

module _ (R : Storage TokenData) {K : Type 0} (C : Cache K Token) where
  -- The stores and one cache of the process.
  pub record Process : Type 0 where
    pub world : World R
    pub cache : C.State

  abbrev pub Request : Type 0
  Request = Exec Process Error Token

  abbrev on_world : Action R Token → Request
  on_world m p = let (r, w) = m p.world in (r, record p { world = w })

  abbrev remember : K → Token → Exec Process Error (Unit {0})
  remember key token = modify (λ p. record p { cache = C.put p.cache key token })

  module _ (key : K) (is_valid : Option Token → World R → Bool) (create : Action R Token) where
    -- The cached token, if it is valid.
    abbrev pub usable : Process → Option Token
    usable p = let cached = C.get p.cache key in if is_valid cached p.world then cached else none

    unfoldable pub under_lock : Option Token → Request
    under_lock (some token) = pure token
    under_lock none = do token ← on_world create; remember key token; pure token

    unfoldable pub on_miss : Option Token → Request
    on_miss (some token) = pure token
    on_miss none = do again ← gets usable; under_lock again

    -- The body that `get_internal_token` and `get_notebook_token` share.
    unfoldable pub cached_or_created : Request
    cached_or_created = do cached ← gets usable; on_miss cached

module _ (R : Storage TokenData) (config : Config) (now : ℕ) (token : Token) (parent : TokenData)
    (ip_address : String) (minimum_lifetime : Option ℕ) where
  unfoldable pub get_internal_token :
      (C : Cache InternalKey Token) → String → List String → Request R C
  get_internal_token C for_service scopes =
      cached_or_created R C (internal_key parent for_service scopes)
        (λ cached. is_token_valid R now cached minimum_lifetime (some scopes))
        (create_internal_token R config now token parent ip_address minimum_lifetime for_service
          scopes)

  unfoldable pub get_notebook_token : (C : Cache NotebookKey Token) → Request R C
  get_notebook_token C =
      cached_or_created R C (notebook_key parent)
        (λ cached. is_token_valid R now cached minimum_lifetime none)
        (create_notebook_token R config now token parent ip_address minimum_lifetime)
