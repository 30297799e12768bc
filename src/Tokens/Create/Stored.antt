-- ===== src/Tokens/Create/Stored.antt =====
-- What both stores hold of a token just created.
use gafaelfawr.Prelude.{
  ℕ, ◌≤◌, String, ◌≡◌, ◌≢◌, Option, none, some, List, arith, string_eq, if◌then◌else◌,
}
use gafaelfawr.Prelude.Result.{ok}
use gafaelfawr.Prelude.Exec.{lift->>-eq-ok}
use gafaelfawr.Credential.{Token}
use gafaelfawr.Models.{TokenData, TokenChangeHistoryEntry, type_eq}
use gafaelfawr.Storage.Redis.{Storage, IsLawful, is_live}
use gafaelfawr.Storage.Database.{Database, get_info, info_of, parent_of, row_of}
use gafaelfawr.Storage.Queries.{add_change}
use gafaelfawr.Storage.Consistency.{add_ok, with_token}
use gafaelfawr.Storage.World.{World, get_data, get_data_by_key, on_wire, lifetime_of}
use gafaelfawr.Tokens.{Config}
use gafaelfawr.Tokens.Checks.{check_user_request}
use gafaelfawr.Tokens.Create.{
  store_new, creation, user_data, oidc_data, create_oidc_token, create_user_token,
}
use gafaelfawr.Tokens.Create.Outcome.{store_new_ok, store_new_ok-get}

pub linked :
    (d : TokenData) (for_service : Option String) (parent : String) (db : Database)
    → parent ≢ ""
    → parent_of (with_token d none for_service (some parent) db).subtokens d.token.key ≡ some parent
unfolding parent_of
linked d for_service parent db text = ground arith

module _ (R : Storage TokenData) (L : IsLawful R) (now : ℕ) where
  -- Redis gives the data until its lifetime has passed, and the database describes the token.
  abbrev pub IsStored :
      TokenData → Option String → Option String → Option String → World R → ℕ → Type 0
  IsStored d token_name for_service parent t later =
      (get_data R later d.token t
        ≡ (if is_live now (lifetime_of now d.expires) later then some (on_wire d) else none))
      × (get_info d.token.key t.db ≡ some (info_of parent (row_of d token_name for_service)))

  pub store_new-get_data :
      (d : TokenData) (token_name for_service parent : Option String)
      (entry : TokenChangeHistoryEntry) (w t : World R) (made : Token) (later : ℕ)
      → store_new R now d token_name for_service parent entry w ≡ (ok made, t)
      → now ≤ later
      → get_data R later d.token t
        ≡ (if is_live now (lifetime_of now d.expires) later then some (on_wire d) else none)
  unfolding get_data get_data_by_key
  store_new-get_data d token_name for_service parent entry w t made later h le = ground (
    arith,
    store_new_ok-get R now d token_name for_service parent entry L w t made h later d.token.key le,
  )

  store_new-get_info :
      (d : TokenData) (token_name for_service parent : Option String)
      (entry : TokenChangeHistoryEntry) (w t : World R) (made : Token)
      → store_new R now d token_name for_service parent entry w ≡ (ok made, t)
      → get_info d.token.key t.db
        ≡ some (
            info_of
              (parent_of (with_token d token_name for_service parent w.db).subtokens d.token.key)
              (row_of d token_name for_service))
  unfolding get_info add_change
  store_new-get_info d token_name for_service parent entry w t made h =
      let (_, _, accepted, tables) =
        store_new_ok R now d token_name for_service parent entry w t made h in
      rw (tables, add_ok d token_name for_service parent w.db accepted) (ground arith)

  pub store_new-IsStored :
      (d : TokenData) (token_name for_service parent : Option String)
      (entry : TokenChangeHistoryEntry) (w t : World R) (made : Token) (later : ℕ)
      → store_new R now d token_name for_service parent entry w ≡ (ok made, t)
      → now ≤ later
      → IsStored d token_name for_service
          (parent_of (with_token d token_name for_service parent w.db).subtokens d.token.key)
          t
          later
  store_new-IsStored d token_name for_service parent entry w t made later h le = (
    store_new-get_data d token_name for_service parent entry w t made later h le,
    store_new-get_info d token_name for_service parent entry w t made h,
  )

  module _ (config : Config) (token : Token) where
    pub create_user_token_stores :
        (auth : TokenData) (username token_name : String) (scopes : List String)
        (expires : Option ℕ) (ip_address : String) (w t : World R) (made : Token) (later : ℕ)
        → create_user_token R config now token auth username token_name scopes expires ip_address w
          ≡ (ok made, t)
        → now ≤ later
        → parent_of w.db.subtokens token.key ≡ none
        → IsStored
            (user_data R config now token auth username scopes expires)
            (some token_name)
            none
            none
            t
            later
    unfolding create_user_token
    create_user_token_stores auth username token_name scopes expires ip_address w t made later h le
          unlinked =
        let d = user_data R config now token auth username scopes expires in
        let entry = creation d (some token_name) none none auth.username (some ip_address) in
        let (_, stored) =
          lift->>-eq-ok (check_user_request config now auth username scopes expires)
            (store_new R now d (some token_name) none none entry) w t made h in
        rw unlinked at
          (store_new-IsStored d (some token_name) none none entry w t made later stored le)

    -- After `create_oidc_token` returns, reading the token from Redis gives a token of the same user
    -- with no scopes, which expires with the token that it is made from, or after the configured
    -- lifetime if that one does not expire; and the database has it as a child of that token. This
    -- supposes that the Redis storage meets its assumptions, and that the parent's key is not empty.
    create_oidc_token_stores :
        (auth : TokenData) (ip_address : String) (w t : World R) (made : Token) (later : ℕ)
        → create_oidc_token R config now token auth ip_address w ≡ (ok made, t)
        → now ≤ later
        → auth.token.key ≢ ""
        → IsStored (oidc_data R config now token auth) none none (some auth.token.key) t later
    unfolding create_oidc_token parent_of
    create_oidc_token_stores auth ip_address w t made later h le text =
        let d = oidc_data R config now token auth in
        let entry = creation d none none none auth.username (some ip_address) in
        rw (linked d none auth.token.key w.db text) at
          (store_new-IsStored d none none (some auth.token.key) entry w t made later h le)
