-- ===== src/Storage/Redis.antt =====
-- The interface of `safir.redis.EncryptedPydanticRedisStorage`, which the program only calls, and
-- what it relies on. Redis drops a value when its lifetime has passed.
pub mod Memory
use gafaelfawr.Prelude.{
  ℕ, ◌+◌, ◌*◌, ◌≤◌, ◌<◌, String, ◌≡◌, Bool, true, Option, none, some, List, ◌==◌, ltb, string_eq,
  if◌then◌else◌,
}
use gafaelfawr.Models.{second}

-- What reading a key gives. A value that cannot be decrypted or parsed is `corrupt`: then the
-- library raises `DeserializeError`.
pub data Fetched (V : Type 0) : Type 0 where
  missing corrupt : Fetched V
  found : V → Fetched V

-- `get` and `store` take the time. `store` takes a lifetime in seconds; its result is
-- `none` if Redis answers with an error.
pub record Storage (V : Type 0) : Type 1 where
  pub State : Type 0
  pub get : ℕ → State → String → Fetched V
  pub store : ℕ → State → String → V → Option ℕ → Option State
  pub delete : State → String → State
  pub delete_all : State → State

-- A value stored at `now` is there at `later`.
abbrev pub is_live : ℕ → Option ℕ → ℕ → Bool
is_live now none later = true
is_live now (some lifetime) later = ltb later (now + lifetime * second)

-- Redis refuses a lifetime that is not positive.
abbrev pub IsLifetime : Option ℕ → Type 0
IsLifetime none = Unit
IsLifetime (some lifetime) = 0 < lifetime

pub record IsLawful {V : Type 0} (S : Storage V) : Type 0 where
  pub store_total :
      (now : ℕ) (s : S.State) (k : String) (v : V) (lifetime : Option ℕ)
      → IsLifetime lifetime
      → (t : S.State) × (S.store now s k v lifetime ≡ some t)
  pub get-store :
      (now later : ℕ) (s t : S.State) (k j : String) (v : V) (lifetime : Option ℕ)
      → S.store now s k v lifetime ≡ some t
      → now ≤ later
      → S.get later t j ≡ (
          if j == k
          then (if is_live now lifetime later then found v else missing)
          else S.get later s j)
  pub get-delete :
      (now : ℕ) (s : S.State) (k j : String)
      → S.get now (S.delete s k) j ≡ (if j == k then missing else S.get now s j)
  pub get-delete_all : (now : ℕ) (s : S.State) (j : String) → S.get now (S.delete_all s) j ≡ missing
