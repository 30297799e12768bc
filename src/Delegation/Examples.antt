-- ===== src/Delegation/Examples.antt =====
-- Delegated tokens over stores and caches in memory.
use gafaelfawr.Prelude.{
  ◌+◌, ◌≡◌, ◌≢◌, ◌⊎◌, refl, true, none, some, [], ◌∷◌, arith, string_eq, nat_eq, option_eq,
  ==_false→≢,
}
use gafaelfawr.Prelude.Result.{ok}
use gafaelfawr.Credential.{Token}
use gafaelfawr.Models.{TokenData, internal, second}
use gafaelfawr.Storage.Redis.Memory.{memory-IsLawful}
use gafaelfawr.Storage.Queries.{
  first_child, add_change, get_internal_token_key, get_notebook_token_key,
}
use gafaelfawr.Storage.World.{store_data}
use gafaelfawr.Storage.Database.{
  add, insert_token, insert_subtoken, check_name_conflict, name_taken,
}
use gafaelfawr.Tokens.Create.{store_new}
use gafaelfawr.Tokens.Examples.{R, config, now, drawn, someone, start}
use gafaelfawr.Delegation.{
  cached_or_created, on_miss, under_lock, create_internal_token, create_notebook_token, reuse_or,
  new_child, Cache, InternalKey, NotebookKey, internal_key, minimum_expiration, is_token_valid,
  Process, get_internal_token, get_notebook_token,
}
use gafaelfawr.Delegation.Outcome.{IsReused, IsChild, get_internal_token_lem}

-- Caches that drop what they are told at once.
abbrev pub internal_cache : Cache InternalKey Token
internal_cache = record { State = Unit {0}; get = λ s k. none; put = λ s k v. s }

abbrev pub notebook_cache : Cache NotebookKey Token
notebook_cache = record { State = Unit {0}; get = λ s k. none; put = λ s k v. s }

abbrev before : Process R internal_cache
before = record { world = start; cache = tt }

abbrev notebook_before : Process R notebook_cache
notebook_before = record { world = start; cache = tt }

abbrev after : Process R internal_cache
after =
    (get_internal_token R config now drawn someone "192.0.2.1" none internal_cache "portal"
      ("read:all" ∷ []) before).1

abbrev notebook_after : Process R notebook_cache
notebook_after =
    (get_notebook_token R config now drawn someone "192.0.2.1" none notebook_cache
      notebook_before).1

internal_made :
    get_internal_token R config now drawn someone "192.0.2.1" none internal_cache "portal"
      ("read:all" ∷ [])
      before
    ≡ (ok drawn, after)
unfolding get_internal_token cached_or_created on_miss is_token_valid under_lock
    create_internal_token reuse_or get_internal_token_key first_child new_child store_new store_data
    add insert_token insert_subtoken check_name_conflict name_taken add_change string_eq option_eq
internal_made = refl

notebook_made :
    get_notebook_token R config now drawn someone "192.0.2.1" none notebook_cache notebook_before
    ≡ (ok drawn, notebook_after)
unfolding get_notebook_token cached_or_created on_miss is_token_valid under_lock
    create_notebook_token reuse_or get_notebook_token_key first_child new_child store_new store_data
    add insert_token insert_subtoken check_name_conflict name_taken add_change string_eq option_eq
notebook_made = refl

has_key : someone.token.key ≢ ""
unfolding string_eq
has_key = ==_false→≢ someone.token.key "" refl

get_internal_token_lem_example :
    ((internal_cache.get before.cache (internal_key someone "portal" ("read:all" ∷ []))
        ≡ some drawn)
      × (is_token_valid R now (some drawn) none (some ("read:all" ∷ [])) before.world ≡ true)
      × (after ≡ before))
    ⊎ ((after.cache
          ≡ internal_cache.put before.cache (internal_key someone "portal" ("read:all" ∷ [])) drawn)
        × (IsReused R
              (memory-IsLawful TokenData)
              config
              now
              drawn
              someone
              "192.0.2.1"
              none
              (get_internal_token_key someone "portal"
                ("read:all" ∷ [])
                (minimum_expiration config now someone none)
                before.world.db)
              before.world
              after.world
              drawn
            ⊎ IsChild R
                (memory-IsLawful TokenData)
                config
                now
                drawn
                someone
                "192.0.2.1"
                none
                internal
                ("read:all" ∷ [])
                (some "portal")
                after.world
                drawn
                (now + second)))
get_internal_token_lem_example =
    get_internal_token_lem R (memory-IsLawful TokenData) config now drawn someone "192.0.2.1" none
      internal_cache "portal" ("read:all" ∷ []) before after drawn (now + second) internal_made
      (omega arith) has_key
