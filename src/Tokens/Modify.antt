-- ===== src/Tokens/Modify.antt =====
-- `TokenService.modify_token` and the update of subtokens behind it.
pub mod Granted
mod Examples
use mathlib.Core.Option
use gafaelfawr.Prelude.{
  ℕ, String, Bool, true, false, ◌||◌, Option, none, some, List, [], ◌∷◌, ◌==◌, string_eq, leb,
  is_nonempty, is_some, if◌then◌else◌,
}
use gafaelfawr.Prelude.Result.{Result, guard, ok}
use gafaelfawr.Prelude.Exec.{pure, lift, raise, gets, ◌>>=◌, ◌>>◌}
use gafaelfawr.Errors.{Error, permission_denied, runtime_error}
use gafaelfawr.Models.{TokenData, TokenInfo, user, type_eq, edit, TokenChangeHistoryEntry}
use gafaelfawr.Models.Scopes.{sorted}
use gafaelfawr.Storage.Redis.{Storage}
use gafaelfawr.Storage.Database.{is_text}
use gafaelfawr.Storage.Queries.{modify, add_change, get_children}
use gafaelfawr.Storage.World.{Action, in_db, get_data_by_key, store_data}
use gafaelfawr.Tokens.{Config, check_authorization, validate_expires, validate_scopes}
use gafaelfawr.Tokens.Delete.{get_token_info_unchecked}

-- The parameters of the request that say what to change.
pub record Change : Type 0 where
  pub token_name : Option String
  pub scopes : Option (List String)
  pub expires : Option ℕ
  pub no_expire : Bool

-- `if scopes: self._validate_scopes(scopes, auth_data)`, where no scopes pass both.
abbrev pub check_scopes : Config → Option (List String) → TokenData → Result Error (Unit {0})
check_scopes config none auth = ok tt
check_scopes config (some scopes) auth = validate_scopes config scopes (some auth)

-- `sorted(scopes) if scopes else scopes`
abbrev pub sorted_option : Option (List String) → Option (List String)
sorted_option = Option.map sorted

-- `info.expires and info.expires <= expires`
abbrev pub ends_by : Option ℕ → ℕ → Bool
ends_by none t = false
ends_by (some e) t = leb e t

-- `expires and (not info.expires or expires <= info.expires)`
abbrev pub shortens : Option ℕ → Option ℕ → Bool
shortens none old = false
shortens (some t) none = true
shortens (some t) (some e) = leb t e

module _ (R : Storage TokenData) (now : ℕ) (auth : TokenData) (ip_address : String) where
  -- The history entry of `_modify_expires`
  abbrev pub shortening : TokenInfo → ℕ → TokenChangeHistoryEntry
  shortening info expires = record {
    token = info.token;
    username = info.username;
    token_type = info.token_type;
    token_name = info.token_name;
    parent = info.parent;
    scopes = info.scopes;
    service = info.service;
    expires = some expires;
    actor = auth.username;
    action = edit;
    old_token_name = none;
    old_scopes = none;
    old_expires = info.expires;
    ip_address = some ip_address;
    event_time = now;
  }

  unfoldable pub store_expires : ℕ → Option TokenData → Action R (Unit {0})
  store_expires expires none = pure tt
  store_expires expires (some d) = store_data R now (record d { expires = some expires })

  unfoldable pub shorten_known : String → ℕ → TokenInfo → Action R (Unit {0})
  shorten_known key expires info = do
    in_db R (modify key none none (some expires) false)
    in_db R (add_change (shortening info expires))
    found ← gets (get_data_by_key R now key)
    store_expires expires found

  unfoldable pub shorten : String → ℕ → Option TokenInfo → Action R (Unit {0})
  shorten key expires none w = (ok tt, w)
  shorten key expires (some info) w =
      if ends_by info.expires expires then (ok tt, w) else shorten_known key expires info w

  -- `_modify_expires`
  unfoldable pub modify_expires : String → ℕ → Action R (Unit {0})
  modify_expires key expires = do
    info ← gets (λ w. get_token_info_unchecked key none w.db)
    shorten key expires info

  unfoldable pub modify_each : List String → ℕ → Action R (Unit {0})
  modify_each [] expires = pure tt
  modify_each (key ∷ keys) expires = do modify_expires key expires; modify_each keys expires

  unfoldable pub update_subtokens : String → Bool → Option ℕ → Action R (Unit {0})
  update_subtokens key false expires = pure tt
  update_subtokens key true none = raise runtime_error
  update_subtokens key true (some expires) = do
    children ← in_db R (get_children key)
    modify_each children expires

  module _ (config : Config) (key : String) (c : Change) where
    abbrev pub edition : TokenInfo → TokenChangeHistoryEntry
    edition info = record {
      token = key;
      username = info.username;
      token_type = user;
      token_name = if is_text c.token_name then c.token_name else info.token_name;
      parent = none;
      scopes = elim (c.scopes) [ none ↦ info.scopes | some s ↦ sorted s ];
      service = none;
      expires = if is_some c.expires || c.no_expire then c.expires else info.expires;
      actor = auth.username;
      action = edit;
      old_token_name = if is_text c.token_name then info.token_name else none;
      old_scopes = if is_some c.scopes then some info.scopes else none;
      old_expires = if is_some c.expires || c.no_expire then info.expires else none;
      ip_address = some ip_address;
      event_time = now;
    }

    -- The checks behind the lookup.
    unfoldable pub check_modify : TokenInfo → Action R (Unit {0})
    check_modify info = do
      lift (check_authorization (some info.username) auth true false)
      lift (guard (info.token_type == user) permission_denied)
      lift (check_scopes config c.scopes auth)
      lift (validate_expires now c.expires)

    unfoldable pub rewrite_data : TokenInfo → Option TokenData → Action R Bool
    rewrite_data info none = pure false
    rewrite_data info (some d) = do
      store_data R now (record d { scopes = info.scopes; expires = info.expires })
      pure true

    unfoldable pub rewrite_redis : TokenInfo → Action R Bool
    rewrite_redis info = do found ← gets (get_data_by_key R now key); rewrite_data info found

    -- Rewrites the data in Redis if it changed; `false` if there is none, where the source returns.
    unfoldable pub update_redis : TokenInfo → Action R Bool
    update_redis info w =
        if is_nonempty c.scopes || c.no_expire || is_some c.expires
        then rewrite_redis info w
        else (ok true, w)

    unfoldable pub finish : Bool → TokenInfo → Bool → Action R (Option TokenInfo)
    finish shortened info false = pure none
    finish shortened info true = do update_subtokens key shortened c.expires; pure (some info)

    unfoldable pub record_change : TokenInfo → Option TokenInfo → Action R (Option TokenInfo)
    record_change old none = pure none
    record_change old (some info) = do
      in_db R (add_change (edition old))
      written ← update_redis info
      finish (shortens c.expires old.expires) info written

    unfoldable pub modify_owned : Option TokenInfo → Action R (Option TokenInfo)
    modify_owned none = pure none
    modify_owned (some old) = do
      check_modify old
      info ← in_db R (modify key c.token_name (sorted_option c.scopes) c.expires c.no_expire)
      record_change old info

    unfoldable pub modify_token : Option String → Action R (Option TokenInfo)
    modify_token username = do
      info ← gets (λ w. get_token_info_unchecked key username w.db)
      modify_owned info
