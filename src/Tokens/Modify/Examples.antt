-- ===== src/Tokens/Modify/Examples.antt =====
-- The change of a token, at concrete data.
use gafaelfawr.Prelude.{◌≡◌, refl, true, false, none, some, [], ◌∷◌, string_eq, option_eq, nat_eq}
use gafaelfawr.Prelude.Result.{ok}
use gafaelfawr.Models.{TokenInfo, user, type_eq}
use gafaelfawr.Models.Scopes.{sorted, insert, join, join_scopes, normalize_scopes, split_commas}
use gafaelfawr.Storage.Redis.{found}
use gafaelfawr.Storage.Database.{TokenRow, info_of, get_info, parent_of}
use gafaelfawr.Storage.Queries.{
  modify, modify_found, modify_row, rename, rescope, reexpire, put_row, add_change,
}
use gafaelfawr.Storage.World.{World, get_data_by_key, store_data}
use gafaelfawr.Tokens.{check_authorization, validate_expires, validate_scopes, is_admin}
use gafaelfawr.Tokens.Examples.{R, config, now, someone, own_row, administrator}
use gafaelfawr.Tokens.Create.Granted.{IsLongEnough}
use gafaelfawr.Tokens.Delete.{get_token_info_unchecked}
use gafaelfawr.Tokens.Modify.{
  Change, modify_token, modify_owned, check_modify, record_change, update_redis, rewrite_redis,
  rewrite_data, finish, update_subtokens,
}
use gafaelfawr.Tokens.Modify.Granted.{MayScope, modify_token_grants}

abbrev user_row : TokenRow
user_row = record own_row { token_type = user }

abbrev world : World R
world = record {
  db = record { tokens = user_row ∷ []; subtokens = []; changes = [] };
  redis = λ t k. found someone;
}

abbrev change : Change
change = record {
  token_name = none;
  scopes = some ("read:all" ∷ []);
  expires = none;
  no_expire = false;
}

abbrev after : World R
after = (modify_token R now administrator "192.0.2.1" config own_row.token change none world).1

abbrev new_info : TokenInfo
new_info = info_of none (record user_row { scopes = join_scopes ("read:all" ∷ []) })

changed :
    modify_token R now administrator "192.0.2.1" config own_row.token change none world
    ≡ (ok (some new_info), after)
unfolding modify_token modify_owned check_modify record_change update_redis rewrite_redis
    rewrite_data finish update_subtokens get_token_info_unchecked get_info parent_of
    check_authorization validate_expires validate_scopes modify modify_found modify_row rename
    rescope reexpire put_row add_change get_data_by_key store_data sorted insert join join_scopes
    normalize_scopes split_commas string_eq option_eq nat_eq type_eq
changed = refl

modify_token_grants_example :
    (old : TokenInfo) × (get_token_info_unchecked own_row.token none world.db ≡ some old)
    × (old.token_type ≡ user)
    × (is_admin administrator ≡ true)
    × MayScope config (some ("read:all" ∷ [])) administrator
    × IsLongEnough now none
modify_token_grants_example =
    modify_token_grants R now administrator "192.0.2.1" config own_row.token change none new_info
      world after changed
