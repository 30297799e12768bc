-- ===== src/Storage/Redis/Memory.antt =====
-- A storage that meets the assumptions: what each key holds at each time.
use gafaelfawr.Prelude.{
  ℕ, zero, suc, ◌≤◌, String, ◌≡◌, refl, Option, none, some, arith, ◌==◌, string_eq, if◌then◌else◌,
}
use mathlib.Core.Option.{some-injective}
use gafaelfawr.Storage.Redis.{Fetched, missing, found, Storage, IsLawful, is_live, IsLifetime}

module _ (V : Type 0) where
  abbrev Contents : Type 0
  Contents = ℕ → String → Fetched V

  abbrev put : ℕ → Contents → String → V → Option ℕ → Contents
  put now s k v lifetime later j =
      if j == k then (if is_live now lifetime later then found v else missing) else s later j

  abbrev store : ℕ → Contents → String → V → Option ℕ → Option Contents
  store now s k v (some zero) = none
  store now s k v (some (suc n)) = some (put now s k v (some (suc n)))
  store now s k v none = some (put now s k v none)

  abbrev pub memory : Storage V
  memory = record {
    State = Contents;
    get = λ now s k. s now k;
    store = store;
    delete = λ s k now j. if j == k then missing else s now j;
    delete_all = λ s now j. missing;
  }

  store_total :
      (now : ℕ) (s : Contents) (k : String) (v : V) (lifetime : Option ℕ)
      → IsLifetime lifetime
      → (t : Contents) × (store now s k v lifetime ≡ some t)
  store_total now s k v none h = (put now s k v none, refl)
  store_total now s k v (some zero) h = absurd (omega arith)
  store_total now s k v (some (suc n)) h = (put now s k v (some (suc n)), refl)

  get-store :
      (now later : ℕ) (s t : Contents) (k j : String) (v : V) (lifetime : Option ℕ)
      → store now s k v lifetime ≡ some t
      → now ≤ later
      → t later j
        ≡ (if j == k then (if is_live now lifetime later then found v else missing) else s later j)
  get-store now later s t k j v none e h = rw (← some-injective _ _ e) refl
  get-store now later s t k j v (some zero) e h = cc
  get-store now later s t k j v (some (suc n)) e h = rw (← some-injective _ _ e) refl

  pub memory-IsLawful : IsLawful memory
  memory-IsLawful = record {
    store_total = store_total;
    get-store = get-store;
    get-delete = λ now s k j. refl;
    get-delete_all = λ now s j. refl;
  }
