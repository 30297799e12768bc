-- ===== src/Login/Session.antt =====
-- `State` of src/gafaelfawr/models/state.py, what the session cookie of a browser holds.
use gafaelfawr.Prelude.{
  ℕ, String, Bool, true, false, ◌&&◌, Option, none, some, ◌==◌, nat_eq, string_eq, option_eq,
  if◌then◌else◌,
}
use mathlib.Core.Option
use gafaelfawr.Prelude.Result.{Result, ok, err}
use gafaelfawr.Errors.{Error}
use gafaelfawr.Credential.{Token, token_from_str, token_to_str}
use gafaelfawr.Storage.World.{same_token}

pub record State : Type 0 where
  pub csrf : Option String
  pub token : Option Token
  pub github : Option String
  pub return_url : Option String
  pub state : Option String
  pub login_start : Option ℕ

-- `State()`
abbrev pub new_state : State
new_state = record {
  csrf = none;
  token = none;
  github = none;
  return_url = none;
  state = none;
  login_start = none;
}

abbrev pub same_token? : Option Token → Option Token → Bool
same_token? none none = true
same_token? none (some u) = false
same_token? (some t) none = false
same_token? (some t) (some u) = same_token t u

-- `State.__eq__`
unfoldable pub same_state : State → State → Bool
same_state s t =
    s.csrf == t.csrf
    && same_token? s.token t.token
    && s.github == t.github
    && s.return_url == t.return_url
    && s.state == t.state
    && s.login_start == t.login_start

-- The keys of the JSON object in the cookie, each missing or of the type that `to_cookie` writes. The
-- time is `timestamp()`, a float, which gives back the microseconds.
pub record CookieData : Type 0 where
  pub csrf : Option String
  pub token : Option String
  pub github : Option String
  pub return_url : Option String
  pub state : Option String
  pub login_start : Option ℕ

-- `if text:`
unfoldable pub given : Option String → Option String
given none = none
given (some text) = if text == "" then none else some text

unfoldable pub written : State → CookieData
written s = record {
  csrf = given s.csrf;
  token = Option.map token_to_str s.token;
  github = given s.github;
  return_url = given s.return_url;
  state = given s.state;
  login_start = s.login_start;
}

-- `Token.from_str`, if the key is there.
unfoldable pub read_token : Option String → Result Error (Option Token)
read_token none = ok none
read_token (some text) = elim (token_from_str text) [ ok token ↦ ok (some token) | err e ↦ err e ]

abbrev with_token : CookieData → Result Error (Option Token) → State
with_token c (err e) = new_state
with_token c (ok token) = record {
  csrf = c.csrf;
  token = token;
  github = c.github;
  return_url = c.return_url;
  state = c.state;
  login_start = c.login_start;
}

-- What cannot be decrypted or parsed is discarded.
unfoldable pub read : Option CookieData → State
read none = new_state
read (some c) = with_token c (read_token c.token)

-- Fernet with the session secret, over the text form of the object, with its own type for cookies.
pub record Cipher : Type 1 where
  pub Cookie : Type 0
  pub encrypt : CookieData → Cookie
  pub decrypt : Cookie → Option CookieData

module _ (cipher : Cipher) where
  unfoldable pub to_cookie : State → cipher.Cookie
  to_cookie s = cipher.encrypt (written s)

  unfoldable pub from_cookie : cipher.Cookie → State
  from_cookie cookie = read (cipher.decrypt cookie)
