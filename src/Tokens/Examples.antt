-- ===== src/Tokens/Examples.antt =====
-- Runs of the token service over a storage in memory, and its theorems at concrete data.
use mathlib.Core.Logic.{◌↔◌}
use gafaelfawr.Prelude.{
  ℕ, ◌+◌, ◌*◌, String, ◌≡◌, ◌≢◌, ◌⊎◌, refl, true, false, none, some, List, [], ◌∷◌, arith,
  string_eq, nat_eq, option_eq, is_subset,
}
use gafaelfawr.Prelude.Text.{char_eq, starts_with, drop}
use gafaelfawr.Prelude.Result.{Result, ok, err, is_ok}
use gafaelfawr.Errors.{Error, permission_denied}
use gafaelfawr.Credential.{Token}
use gafaelfawr.Models.{TokenData, session, service, Metadata, AdminTokenRequest, second, type_eq}
use gafaelfawr.Usernames.{valid_username, is_bot_user}
use gafaelfawr.Storage.Redis.{Storage, missing}
use gafaelfawr.Storage.Redis.Memory.{memory, memory-IsLawful}
use gafaelfawr.Storage.Database.{
  TokenRow, add, check_name_conflict, name_taken, insert_token, insert_subtoken, parent_of,
}
use gafaelfawr.Storage.Queries.{add_change}
use gafaelfawr.Storage.World.{World, store_data, transaction}
use gafaelfawr.Tokens.{
  Config, check_authorization, validate_username, validate_expires, validate_scopes, is_admin,
}
use gafaelfawr.Tokens.Authorization.{MayAct, MayGrant, check_authorization-MayAct}
use gafaelfawr.Tokens.Checks.{check_user_request, check_admin_request}
use gafaelfawr.Tokens.Create.{
  store_new, create_user_token, create_oidc_token, create_session_token,
  create_token_from_admin_request, user_data,
}
use gafaelfawr.Tokens.Create.Granted.{
  IsLongEnough, create_user_token_grants, create_token_from_admin_request_grants,
}
use gafaelfawr.Tokens.Create.Stored.{IsStored, create_user_token_stores}
use gafaelfawr.Tokens.Create.Atomic.{IsSameAt, create_user_token_atomic}

abbrev pub R : Storage TokenData
R = memory TokenData

abbrev pub config : Config
config = record {
  token_lifetime = 86_400 * second;
  known_scopes = "admin:token" ∷ "read:all" ∷ "user:token" ∷ [];
}

abbrev pub now : ℕ
now = 1_700_000_000 * second

abbrev pub drawn : Token
drawn = record { key = "5KVApqcVbSQWtO3VIRgOhQ"; secret = "8t5XdPSYTrteD0pDB15zqQ" }

abbrev pub own : Token
own = record { key = "DGO1OnPohl0r3C7wqhzRgQ"; secret = "2T1RHkIi4b14JzswnXfCsQ" }

abbrev pub anybody : Metadata
anybody = record {
  name = some "Some User";
  email = none;
  uid = some 4123;
  gid = none;
  groups = none;
}

abbrev pub session_of : String → List String → TokenData
session_of username scopes = record {
  token = own;
  username = username;
  token_type = session;
  scopes = scopes;
  created = now;
  expires = some (now + 3600 * second);
  metadata = anybody;
}

abbrev pub someone : TokenData
someone = session_of "someuser" ("read:all" ∷ "user:token" ∷ [])

abbrev pub own_row : TokenRow
own_row = record {
  token = "DGO1OnPohl0r3C7wqhzRgQ";
  username = "someuser";
  token_type = session;
  token_name = some "laptop";
  scopes = "read:all,user:token";
  service = none;
  created = now;
  last_used = none;
  expires = some (now + 3600 * second);
}

abbrev pub start : World R
start = record {
  db = record { tokens = own_row ∷ []; subtokens = []; changes = [] };
  redis = λ t k. missing;
}

abbrev request : String → World R → Result Error Token × World R
request name =
    create_user_token R config now drawn someone "someuser" name ("read:all" ∷ [])
      (some (now + 600 * second)) "192.0.2.1"

made : request "ci" start ≡ (ok drawn, (request "ci" start).1)
unfolding create_user_token check_user_request check_authorization validate_username
    validate_expires validate_scopes valid_username store_new store_data add check_name_conflict
    insert_token insert_subtoken name_taken add_change string_eq option_eq char_eq
made = refl

check_authorization-MayAct_example :
    ((check_authorization (some "someuser") someone false true ≡ ok tt)
      ↔ MayAct (some "someuser") someone false true)
    × ((check_authorization (some "someuser") someone false true ≡ ok tt)
        ⊎ (check_authorization (some "someuser") someone false true ≡ err permission_denied))
check_authorization-MayAct_example = check_authorization-MayAct (some "someuser") someone false true

create_user_token_grants_example :
    (drawn ≡ drawn)
    × (◌≡◌ {A = String} "someuser" "someuser")
    × (valid_username "someuser" ≡ true)
    × IsLongEnough now (some (now + 600 * second))
    × MayGrant config ("read:all" ∷ []) someone
create_user_token_grants_example =
    create_user_token_grants R config now drawn someone "someuser" "ci" ("read:all" ∷ [])
      (some (now + 600 * second)) "192.0.2.1" start (request "ci" start).1 drawn made

create_user_token_stores_example :
    IsStored R
      (memory-IsLawful TokenData)
      now
      (user_data R config now drawn someone "someuser"
        ("read:all" ∷ [])
        (some (now + 600 * second)))
      (some "ci")
      none
      none
      (request "ci" start).1
      (now + second)
create_user_token_stores_example =
    create_user_token_stores R (memory-IsLawful TokenData) now config drawn someone "someuser" "ci"
      ("read:all" ∷ []) (some (now + 600 * second)) "192.0.2.1" start (request "ci" start).1 drawn
      (now + second) made (omega arith) (unfold parent_of in refl)

-- A second token with a name that the user has given before.
refused : is_ok (request "laptop" start).0 ≡ false
unfolding made
refused = refl

create_user_token_atomic_example :
    (is_ok (transaction R (request "laptop") start).0 ≡ false)
    × IsSameAt R
        (memory-IsLawful TokenData)
        now
        start
        (now + second)
        "5KVApqcVbSQWtO3VIRgOhQ"
        (transaction R (request "laptop") start).1
create_user_token_atomic_example =
    create_user_token_atomic R (memory-IsLawful TokenData) now start config drawn (λ later. refl)
      someone "someuser" "laptop" ("read:all" ∷ []) (some (now + 600 * second)) "192.0.2.1"
      (now + second) "5KVApqcVbSQWtO3VIRgOhQ" (omega arith) refused

exchange : World R → Result Error Token × World R
exchange = create_oidc_token R config now drawn someone "192.0.2.1"

exchanged : exchange start ≡ (ok drawn, (exchange start).1)
unfolding exchange create_oidc_token store_new store_data add check_name_conflict insert_token
    insert_subtoken name_taken add_change string_eq option_eq
exchanged = refl

-- The database already has the drawn key.
abbrev clash : World R
clash = record start {
  db = record {
    tokens = record own_row { token = "5KVApqcVbSQWtO3VIRgOhQ" } ∷ own_row ∷ [];
    subtokens = [];
    changes = [];
  };
}

clashes : is_ok (transaction R exchange clash).0 ≡ false
unfolding exchanged transaction
clashes = refl

log_in : World R → Result Error Token × World R
log_in = create_session_token R config now drawn "someuser" anybody ("read:all" ∷ []) "192.0.2.1"

log_in_clashes : is_ok (transaction R log_in clash).0 ≡ false
unfolding log_in create_session_token validate_username valid_username store_new store_data add
    check_name_conflict insert_token insert_subtoken name_taken add_change transaction string_eq
    option_eq char_eq
log_in_clashes = refl

abbrev pub administrator : TokenData
administrator = session_of "admin" ("admin:token" ∷ [])

abbrev service_request : AdminTokenRequest
service_request = record {
  username = "bot-ci";
  token_type = service;
  token_name = none;
  scopes = "read:all" ∷ [];
  expires = some (now + 300 * second);
  metadata = anybody;
}

grant : World R → Result Error Token × World R
grant = create_token_from_admin_request R config now drawn service_request administrator none

granted : grant start ≡ (ok drawn, (grant start).1)
unfolding grant create_token_from_admin_request check_admin_request check_authorization
    validate_username validate_expires validate_scopes valid_username is_bot_user store_new
    store_data add check_name_conflict insert_token insert_subtoken name_taken add_change string_eq
    option_eq char_eq starts_with drop type_eq
granted = refl

create_token_from_admin_request_grants_example :
    (drawn ≡ drawn)
    × (is_admin administrator ≡ true)
    × (valid_username "bot-ci" ≡ true)
    × (is_subset ("read:all" ∷ []) config.known_scopes ≡ true)
    × IsLongEnough now (some (now + 300 * second))
    × ((service ≢ service) ⊎ (is_bot_user "bot-ci" ≡ true))
unfolding grant
create_token_from_admin_request_grants_example =
    create_token_from_admin_request_grants R config now drawn service_request administrator none
      start (grant start).1 drawn granted

grant_clashes : is_ok (transaction R grant clash).0 ≡ false
unfolding granted transaction
grant_clashes = refl
