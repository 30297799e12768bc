-- ===== src/Login/Examples.antt =====
-- A browser that logs in, and logs in again with the same state.
use gafaelfawr.Prelude.{
  ℕ, ◌+◌, String, ◌≡◌, ◌≢◌, ◌⊎◌, refl, Bool, true, false, Option, none, some, [], ◌∷◌, ◌==◌,
  string_eq, nat_eq, option_eq, or_else, ==_false→≢,
}
use gafaelfawr.Prelude.Text.{char_eq, has_char}
use gafaelfawr.Prelude.Result.{Result, ok}
use gafaelfawr.Errors.{Error}
use gafaelfawr.Credential.Format.{IsWellFormed}
use gafaelfawr.Models.{TokenData, type_eq}
use gafaelfawr.Storage.Redis.{IsLawful}
use gafaelfawr.Login.Middleware.{IsWritable, load, dispatch, load-dispatch}
use gafaelfawr.Login.Once.{get_login_once, redirect_to_provider-log_in}
use gafaelfawr.Models.Scopes.{sorted, insert, to_set}
use gafaelfawr.Usernames.{valid_username}
use gafaelfawr.Admins.{AdminDatabase, is_admin_in, get_admins}
use gafaelfawr.Storage.Redis.Memory.{memory-IsLawful}
use gafaelfawr.Storage.Database.{
  add, check_name_conflict, name_taken, insert_token, insert_subtoken,
}
use gafaelfawr.Storage.Queries.{add_change}
use gafaelfawr.Storage.World.{store_data, transaction}
use gafaelfawr.Tokens.{validate_username}
use gafaelfawr.Tokens.Create.{store_new, create_session_token}
use gafaelfawr.Tokens.Examples.{R, config, now, drawn, own, anybody, start}
use gafaelfawr.Userinfo.{with_user_token, scopes_of, scope_gid, group_names, get_scopes}
use gafaelfawr.Userinfo.Examples
use gafaelfawr.Login.Session.{State, CookieData, Cipher, new_state, given}
use gafaelfawr.Login.ReturnUrl.{
  Host, hostname_of, check_url, checked, return_url, return_url_with_header,
}
use gafaelfawr.Login.Providers.{Provider, IsDiscreet}
use gafaelfawr.Login.Outcome.{IsLogin}
use gafaelfawr.Login.Returned.{get_login-IsLogin}
use gafaelfawr.Login.Local.{Reachable, get_login-local_redirect}
use gafaelfawr.Login.{
  LoginConfig, Answer, redirect, LoginWorld, login_scopes, token_with, construct_token, log_in,
  log_in_to, construct_login_response, handle_provider_return, start_login, redirect_to_provider,
  return_from, answer_login, get_login, error_user, state_invalid, without_login,
}

abbrev provider : Provider
provider = record {
  get_redirect_url = λ state. "https://provider.example.com/login";
  create_user_info = λ code state s. (ok (record { username = "someuser"; metadata = anybody }), s);
  logout = λ s. s.github;
}

provider-IsDiscreet : IsDiscreet provider
provider-IsDiscreet = record {
  keeps_token = λ code state s. refl;
  keeps_return_url = λ code state s. refl;
}

abbrev login : LoginConfig
login = record { enrollment_url = none; after_logout_url = "https://example.org/" }

abbrev admins : AdminDatabase
admins = record { admins = "admin" ∷ []; history = [] }

abbrev host : Host
host = record { forwarded_host = none; realm = "example.org" }

abbrev hostname : String → Result Error (Option String)
hostname url = ok (some "example.org")

abbrev allowed : String → Bool
allowed name = name == "example.org"

abbrev plus : ℕ → ℕ → ℕ
plus m n = m + n

abbrev Browser : Type 0
Browser = LoginWorld plus Examples.sources Examples.config R

abbrev empty : Browser
empty = record { session = new_state; tokens = start; sources = tt; revoked = [] }

visit : Option String → Option String → Option String → Browser → Result Error Answer × Browser
visit code state rd =
    get_login plus Examples.sources Examples.config R provider config login admins now drawn
      "192.0.2.1" hostname host "drawn-state" code state rd none

abbrev waiting : Browser
waiting = record empty {
  session = record new_state {
    return_url = some "https://example.org/app";
    state = some "drawn-state";
    login_start = some now;
  };
}

sent :
    visit none none (some "https://example.org/app") empty
    ≡ (ok (redirect "https://provider.example.com/login"), waiting)
unfolding visit get_login return_url_with_header return_url checked check_url hostname_of given
    answer_login redirect_to_provider start_login string_eq option_eq char_eq
sent = refl

finish : Browser → Result Error Answer × Browser
unfolding visit
finish = visit (some "code") (some "drawn-state") none

finished : finish waiting ≡ (ok (redirect "https://example.org/app"), (finish waiting).1)
unfolding finish visit get_login return_url_with_header return_url checked given answer_login
    return_from handle_provider_return construct_login_response log_in_to log_in construct_token
    token_with login_scopes get_scopes group_names scope_gid with_user_token scopes_of sorted insert
    to_set is_admin_in get_admins transaction create_session_token validate_username valid_username
    store_new store_data add check_name_conflict insert_token insert_subtoken name_taken add_change
    string_eq option_eq char_eq
finished = refl

changed : (finish waiting).1.session.token ≢ waiting.session.token
unfolding finished
changed e = cc

abbrev L : IsLawful R
L = memory-IsLawful TokenData

get_login-IsLogin_example :
    ((finish waiting).1.session.token ≡ none)
    ⊎ ((c s : String) × (given (some "code") ≡ some c)
        × (given (some "drawn-state") ≡ some s)
        × IsLogin plus Examples.sources Examples.config R L provider provider-IsDiscreet config
            login admins now drawn "192.0.2.1" c s
            (redirect "https://example.org/app")
            waiting
            (finish waiting).1)
unfolding finish visit
get_login-IsLogin_example =
    get_login-IsLogin plus Examples.sources Examples.config R L provider provider-IsDiscreet config
      login admins now drawn "192.0.2.1" "drawn-state" hostname host (some "code")
      (some "drawn-state") none none waiting (finish waiting).1 (redirect "https://example.org/app")
      finished

abbrev Sessions : State → Type 0
Sessions =
    Reachable plus Examples.sources Examples.config R L provider provider-IsDiscreet config login
      hostname allowed

allowed-host : allowed (hostname_of host) ≡ true
unfolding hostname_of given string_eq
allowed-host = refl

waits : Sessions waiting.session
unfolding visit
waits =
    Reachable.logged_in admins now drawn "192.0.2.1" host "drawn-state" none none
      (some "https://example.org/app") none empty waiting
      (ok (redirect "https://provider.example.com/login")) allowed-host sent Reachable.fresh

get_login-local_redirect_example :
    (url name : String) × ◌≡◌ {A = Answer} (redirect "https://example.org/app") (redirect url)
    × (hostname url ≡ ok (some name))
    × (allowed name ≡ true)
unfolding finish visit
get_login-local_redirect_example =
    get_login-local_redirect plus Examples.sources Examples.config R L provider provider-IsDiscreet
      config login hostname allowed admins now drawn "192.0.2.1" host "drawn-state" (some "code")
      (some "drawn-state") none none waiting (finish waiting).1 (redirect "https://example.org/app")
      waits finished changed

get_login_once_example :
    handle_provider_return plus Examples.sources Examples.config R provider config login admins
      (now + 1)
      own
      "192.0.2.1"
      "code"
      "drawn-state"
      (finish waiting).1
    ≡ (
      ok (error_user state_invalid),
      record (finish waiting).1 { session = without_login (finish waiting).1.session },
    )
unfolding finish visit
get_login_once_example =
    get_login_once plus Examples.sources Examples.config R provider config login L
      provider-IsDiscreet admins now drawn "192.0.2.1" hostname host "drawn-state" (some "code")
      (some "drawn-state") none none waiting (finish waiting).1 (redirect "https://example.org/app")
      finished changed admins (now + 1) own "192.0.2.1" "code" "drawn-state"

abbrev home : String
home = "https://example.org/"

not_empty : (home == "") ≡ false
unfolding string_eq
not_empty = refl

-- The redirect of a browser whose session has a state keeps that state.
redirect_to_provider-log_in_example :
    let (r, t) =
      redirect_to_provider plus Examples.sources Examples.config R provider config login admins now
        drawn "192.0.2.1" "other-state"
        (some "https://example.org/")
        waiting in
    (state : String) × (r ≡ ok (redirect (provider.get_redirect_url state)))
    × ((old : String) → given waiting.session.state ≡ some old → state ≡ old)
    × ((code : String) (v : Browser)
        → v.session ≡ t.session
        → construct_login_response plus Examples.sources Examples.config R provider config login
            admins now drawn "192.0.2.1" code state v
          ≡ log_in plus Examples.sources Examples.config R provider config login admins now drawn
              "192.0.2.1" code state "https://example.org/" v)
redirect_to_provider-log_in_example =
    redirect_to_provider-log_in plus Examples.sources Examples.config R provider config login admins
      now drawn "192.0.2.1" "other-state" "https://example.org/" waiting
      (==_false→≢ home "" not_empty)

-- Cookies that are not encrypted.
abbrev plain : Cipher
plain = record { Cookie = CookieData; encrypt = λ c. c; decrypt = λ cookie. some cookie }

abbrev set_token : State → ℕ × State
set_token s = (204, record s { token = some drawn })

well_formed : IsWellFormed drawn.key drawn.secret
unfolding has_char char_eq
well_formed = record { key_length = refl; secret_length = refl; key_dotless = refl }

writable : IsWritable (set_token (load plain none)).1
unfolding load given
writable = record {
  csrf_given = refl;
  github_given = refl;
  return_url_given = refl;
  state_given = refl;
  printable = well_formed;
}

load-dispatch_example :
    load plain (or_else (dispatch plain set_token none).1 none) ≡ (set_token (load plain none)).1
load-dispatch_example = load-dispatch plain (λ c. refl) set_token none writable
