-- ===== src/Ingress/Examples.antt =====
-- Requests of NGINX at concrete values.
use gafaelfawr.Prelude.{
  ℕ, ◌+◌, ◌*◌, String, ◌≡◌, ◌≢◌, refl, true, false, Option, none, some, List, [], ◌∷◌, ◌&&◌,
  contains, ==_false→≢, arith, All, string_eq, nat_eq, option_eq, ◌≤◌,
}
use gafaelfawr.Prelude.Text.{char_eq, starts_with, drop, split_once, has_char}
use gafaelfawr.Prelude.Result.{Result, ok}
use gafaelfawr.Credential.{
  Token, token_from_str, parse, parse_trimmed, malformed, token_to_str, is_token, is_token_trimmed,
}
use gafaelfawr.Models.{TokenData, second, internal}
use gafaelfawr.Usernames.{valid_username}
use gafaelfawr.Storage.Redis.Memory.{memory-IsLawful}
use gafaelfawr.Storage.World.{get_data, get_data_by_key, store_data}
use gafaelfawr.Storage.Queries.{first_child, add_change, get_internal_token_key}
use gafaelfawr.Storage.Database.{
  add, insert_token, insert_subtoken, check_name_conflict, name_taken,
}
use gafaelfawr.Models.Scopes.{sorted, insert, to_set}
use gafaelfawr.Tokens.{minimum_lifetime, validate_scopes, validate_username}
use gafaelfawr.Tokens.Create.{store_new}
use gafaelfawr.Tokens.Examples.{R, config, now, drawn, someone}
use gafaelfawr.Delegation.{
  cached_or_created, on_miss, under_lock, create_internal_token, reuse_or, new_child,
  is_token_valid, get_internal_token, minimum_expiration, child_data,
}
use gafaelfawr.Delegation.Examples.{internal_cache, notebook_cache}
use gafaelfawr.Delegation.Service.{checked_internal_token}
use gafaelfawr.Headers.Words.{
  is_space, strip_left, strip_right, strip, first_word, split_word, split_char, lowers_to, lower_is,
}
use gafaelfawr.Headers.Cookies.{extend, split_cookies, join_cookies, is_kept, rejoin, clean_cookies}
use gafaelfawr.Headers.Authorization.{
  has_token, clean_words, clean_header, clean_authorization, parse_authorization, parse_words,
}
use gafaelfawr.Headers.Challenges.{Failure, bearer}
use gafaelfawr.Authenticate.{
  RequestContext, token_of, check_scope, check_data, find_in_header, find_token, look_up,
  authenticate, authenticate_read,
}
use gafaelfawr.Authenticate.Examples.{in_header, logged_in}
use gafaelfawr.Ingress.{
  delegated_scopes, has_scopes, check_given_lifetime, check_lifetime, check_access, reflect,
  with_cookies, authorization_headers, get_anonymous, Server, with_internal, delegate,
  build_delegated_token, success_headers, build_success_headers, get_auth_for, get_auth,
}
use gafaelfawr.Ingress.Request.{
  AuthQuery, AuthConfig, Satisfy, strip_all, parse_delegate_scopes, parse_lifetime, config_of,
  auth_config,
}
use gafaelfawr.Ingress.Lifetime.{check_lifetime-lasts}
use gafaelfawr.Ingress.Access.{IsAuthorized, get_auth-IsAuthorized}
use gafaelfawr.Ingress.Reflected.{IsSafe, get_auth-IsSafe}
use gafaelfawr.Ingress.Delegated.{IsDelegated, build_delegated_token-IsDelegated}

abbrev query : AuthQuery
query = record {
  auth_type = bearer;
  delegate_to = some "portal";
  delegate_scope = some "read:all, write:all";
  minimum_lifetime = some 600;
  notebook = false;
  satisfy = Satisfy.any;
  scope = "admin:token" ∷ "read:all" ∷ [];
  service = none;
  use_authorization = false;
  username = some "someuser";
}

-- What `auth_config` makes of the query.
abbrev auth : AuthConfig
auth = record {
  auth_type = bearer;
  delegate_scopes = "read:all" ∷ "write:all" ∷ [];
  delegate_to = some "portal";
  minimum_lifetime = some (600 * second);
  notebook = false;
  satisfy = Satisfy.any;
  scopes = "admin:token" ∷ "read:all" ∷ [];
  service = none;
  use_authorization = false;
  username = some "someuser";
}

configured : auth_config query ≡ ok auth
unfolding auth_config config_of to_set strip_all parse_delegate_scopes parse_lifetime split_char
    strip strip_left strip_right is_space string_eq option_eq char_eq nat_eq
configured = refl

abbrev context : RequestContext
context = record in_header { cookies = "a=1; gafaelfawr=Z0FBQUFB" ∷ [] }

abbrev decode : String → Option String
decode text = none

abbrev user_email : TokenData → Option (Option String)
user_email d = some (some "someuser@example.org")

abbrev server : Server R internal_cache notebook_cache
server = record { world = logged_in; internal_tokens = tt; notebook_tokens = tt }

abbrev answer : Result Failure (List (String × String)) × Server R internal_cache notebook_cache
answer =
    get_auth R internal_cache notebook_cache config now drawn decode user_email context query server

abbrev headers : List (String × String)
headers =
    ("X-Auth-Request-User", "someuser")
    ∷ ("X-Auth-Request-Email", "someuser@example.org")
    ∷ ("X-Auth-Request-Token", "gt-5KVApqcVbSQWtO3VIRgOhQ.8t5XdPSYTrteD0pDB15zqQ")
    ∷ ("Cookie", "a=1")
    ∷ []

lasting : check_lifetime config now context auth someone ≡ ok tt
unfolding check_lifetime check_given_lifetime nat_eq
lasting = refl

check_lifetime-lasts_example :
    (minimum_expiration config now someone (some (600 * second)) ≡ now + 600 * second)
    × ((e : ℕ) × ((child_data config now drawn internal [] someone).expires ≡ some e)
        × (now + 600 * second ≤ e))
    × (600 * second + minimum_lifetime ≤ config.token_lifetime)
unfolding nat_eq
check_lifetime-lasts_example =
    check_lifetime-lasts config now context auth someone (600 * second) drawn internal [] refl
      lasting

anonymous : get_anonymous decode context ≡ ok (("Cookie", "a=1") ∷ [])
unfolding get_anonymous with_cookies authorization_headers reflect clean_authorization clean_header
    clean_words has_token is_token is_token_trimmed split_word first_word strip_left is_space
    lower_is lowers_to has_char starts_with drop split_once clean_cookies split_cookies extend
    is_kept rejoin join_cookies string_eq char_eq nat_eq
anonymous = refl

answered : answer ≡ (ok headers, answer.1)
unfolding anonymous lasting configured get_auth get_auth_for authenticate_read authenticate
    find_token find_in_header token_of look_up check_data check_scope parse_authorization
    parse_words token_from_str parse parse_trimmed malformed get_data get_data_by_key token_to_str
    check_access has_scopes build_success_headers success_headers build_delegated_token delegate
    with_internal checked_internal_token delegated_scopes sorted insert validate_scopes
    validate_username valid_username get_internal_token cached_or_created on_miss is_token_valid
    under_lock create_internal_token reuse_or get_internal_token_key first_child new_child store_new
    store_data add insert_token insert_subtoken check_name_conflict name_taken add_change
    with_cookies authorization_headers reflect clean_authorization clean_header clean_words
    has_token is_token is_token_trimmed split_word first_word strip_left is_space lower_is lowers_to
    has_char starts_with drop split_once clean_cookies split_cookies extend is_kept rejoin
    join_cookies string_eq char_eq nat_eq option_eq auth_config config_of to_set strip_all
    parse_delegate_scopes parse_lifetime split_char strip strip_right check_lifetime
    check_given_lifetime
answered = refl

get_auth-IsAuthorized_example :
    IsAuthorized R internal_cache notebook_cache config now drawn decode user_email context query
      server
get_auth-IsAuthorized_example =
    get_auth-IsAuthorized R internal_cache notebook_cache config now drawn decode user_email context
      query server answer.1 headers answered

get_auth-IsSafe_example : All (IsSafe decode false) headers
get_auth-IsSafe_example =
    get_auth-IsSafe R internal_cache notebook_cache config now drawn decode user_email context query
      server answer.1 headers answered

abbrev delegation : Result Failure (Option String) × Server R internal_cache notebook_cache
delegation =
    build_delegated_token R internal_cache notebook_cache config now drawn decode user_email context
      auth someone server

delegates :
    delegation ≡ (ok (some "gt-5KVApqcVbSQWtO3VIRgOhQ.8t5XdPSYTrteD0pDB15zqQ"), delegation.1)
unfolding build_delegated_token delegate with_internal checked_internal_token delegated_scopes
    sorted insert validate_scopes validate_username valid_username get_internal_token
    cached_or_created on_miss is_token_valid under_lock create_internal_token reuse_or
    get_internal_token_key first_child new_child store_new store_data add insert_token
    insert_subtoken check_name_conflict name_taken add_change token_to_str get_data get_data_by_key
    string_eq char_eq nat_eq option_eq
delegates = refl

portal_is_named : ◌≢◌ {A = String} "portal" ""
unfolding string_eq
portal_is_named = ==_false→≢ "portal" "" refl

has_key : someone.token.key ≢ ""
unfolding string_eq
has_key = ==_false→≢ someone.token.key "" refl

build_delegated_token-IsDelegated_example :
    (made : Token) × (some "gt-5KVApqcVbSQWtO3VIRgOhQ.8t5XdPSYTrteD0pDB15zqQ"
      ≡ some (token_to_str made))
    × (valid_username "someuser" ≡ true)
    × ((scope : String)
        → contains (sorted (delegated_scopes auth someone)) scope
          ≡ (contains auth.delegate_scopes scope && contains someone.scopes scope))
    × IsDelegated R
        (memory-IsLawful TokenData)
        internal_cache
        notebook_cache
        config
        now
        drawn
        decode
        user_email
        context
        auth
        someone
        "portal"
        server
        delegation.1
        made
        (now + second)
build_delegated_token-IsDelegated_example =
    build_delegated_token-IsDelegated R (memory-IsLawful TokenData) internal_cache notebook_cache
      config now drawn decode user_email context auth someone "portal" server delegation.1
      (some "gt-5KVApqcVbSQWtO3VIRgOhQ.8t5XdPSYTrteD0pDB15zqQ") (now + second) refl refl
      portal_is_named delegates (omega arith) has_key
