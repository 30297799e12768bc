-- ===== src/Tokens/Delete.antt =====
-- The operations of `TokenService` of src/gafaelfawr/services/token.py that look up and remove tokens.
pub mod Removed
pub mod Cascade
mod Examples
use mathlib.Core.List.{reverse}
use gafaelfawr.Prelude.{
  ℕ, ◌-◌, ◌*◌, String, Bool, true, false, not, ◌&&◌, Option, none, some, List, [], ◌∷◌, ◌==◌,
  string_eq, option_eq, if◌then◌else◌, filter,
}
use gafaelfawr.Prelude.Result.{ok}
use gafaelfawr.Prelude.Exec.{Exec, pure, lift, gets, ◌>>=◌, ◌>>◌}
use gafaelfawr.Errors.{Error}
use gafaelfawr.Models.{
  TokenData, TokenInfo, TokenChange, revoke, expire, TokenChangeHistoryEntry, second,
}
use gafaelfawr.Storage.Redis.{Storage}
use gafaelfawr.Storage.Database.{Database, Query, is_text, get_info, delete, delete_expired}
use gafaelfawr.Storage.Queries.{add_change, get_children}
use gafaelfawr.Storage.World.{World, Action, in_db, delete_data}
use gafaelfawr.Tokens.{check_authorization}

abbrev pub owned_by : Option String → Option TokenInfo → Option TokenInfo
owned_by username none = none
owned_by username (some info) =
    if is_text username && not (username == some info.username) then none else some info

-- `get_token_info_unchecked`
unfoldable pub get_token_info_unchecked : String → Option String → Database → Option TokenInfo
get_token_info_unchecked key username db = owned_by username (get_info key db)

-- The history entry for a token that is gone, from what the database knew of it.
abbrev pub removal : TokenInfo → String → TokenChange → Option String → ℕ → TokenChangeHistoryEntry
removal info actor action ip_address event_time = record {
  token = info.token;
  username = info.username;
  token_type = info.token_type;
  token_name = info.token_name;
  parent = info.parent;
  scopes = info.scopes;
  service = info.service;
  expires = info.expires;
  actor = actor;
  action = action;
  old_token_name = none;
  old_scopes = none;
  old_expires = none;
  ip_address = ip_address;
  event_time = event_time;
}

-- The loop of `expire_tokens` over the tokens that the database dropped.
unfoldable pub record_expired : ℕ → List TokenInfo → Query (Unit {0})
record_expired now [] = pure tt
record_expired now (info ∷ infos) = do
  add_change (removal info "<internal>" expire none now)
  record_expired now infos

unfoldable pub expire_tokens : ℕ → Query (Unit {0})
expire_tokens now = do expired ← delete_expired now; record_expired now expired

module _ (R : Storage TokenData) where
  unfoldable pub checked_info : Option TokenInfo → TokenData → Action R (Option TokenInfo)
  checked_info none auth = pure none
  checked_info (some info) auth = do
    lift (check_authorization (some info.username) auth false false)
    pure (some info)

  unfoldable pub get_token_info : String → TokenData → String → Action R (Option TokenInfo)
  get_token_info key auth username = do
    info ← gets (λ w. get_token_info_unchecked key (some username) w.db)
    checked_info info auth

  module _ (now : ℕ) (auth : TokenData) (ip_address : String) where
    unfoldable pub recorded : Bool → TokenInfo → Action R Bool
    recorded false info = pure false
    recorded true info = do
      in_db R (add_change (removal info auth.username revoke (some ip_address) now))
      pure true

    unfoldable pub remove_known : String → Option TokenInfo → Action R Bool
    remove_known key none = pure false
    remove_known key (some info) = do
      delete_data R key
      success ← in_db R (delete key)
      recorded success info

    -- `_delete_one_token`
    unfoldable pub delete_one_token : String → Action R Bool
    delete_one_token key = do
      info ← gets (λ w. get_token_info_unchecked key none w.db)
      remove_known key info

    -- `for child in children: await self._delete_one_token(...)`
    unfoldable pub delete_each : List String → Action R (Unit {0})
    delete_each [] = pure tt
    delete_each (key ∷ keys) = do delete_one_token key; delete_each keys

    unfoldable pub delete_owned : String → Option TokenInfo → Action R Bool
    delete_owned key none = pure false
    delete_owned key (some info) = do
      lift (check_authorization (some info.username) auth false false)
      children ← in_db R (get_children key)
      delete_each (reverse children)
      delete_one_token key

    unfoldable pub delete_token : String → String → Action R Bool
    delete_token key username = do
      info ← gets (λ w. get_token_info_unchecked key (some username) w.db)
      delete_owned key info
