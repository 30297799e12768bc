-- ===== src/Login/Local.antt =====
-- Where the routes of src/gafaelfawr/handlers/login.py and src/gafaelfawr/handlers/logout.py send a
-- browser after a login, over all requests that the browser has made.
use mathlib.Core.Path.{subst}
use gafaelfawr.Prelude.{
  ℕ, String, ◌≡◌, refl, ◌≢◌, inl, inr, ap, sym, ◌∙◌, Bool, true, Option, none, some, arith, ◌==◌,
  string_eq, option_eq, Bool-cases, ==→≡,
}
use gafaelfawr.Prelude.Result.{Result, ok, err, guard, ◌>>=◌}
use gafaelfawr.Prelude.Exec.{continue_cases}
use gafaelfawr.Errors.{Error, invalid_return_url}
use gafaelfawr.Credential.{Token}
use gafaelfawr.Models.{TokenData}
use gafaelfawr.Admins.{AdminDatabase}
use gafaelfawr.Storage.Redis.{Storage, IsLawful}
use gafaelfawr.Tokens.{Config}
use gafaelfawr.Userinfo.{Sources, InfoConfig}
use gafaelfawr.Login.Session.{State, new_state, given}
use gafaelfawr.Login.ReturnUrl.{
  Host, hostname_of, check_url, checked, return_url, return_url_with_header, or_header,
}
use gafaelfawr.Login.Providers.{Provider, IsDiscreet}
use gafaelfawr.Login.Returned.{IsKept, RouteOutcome, answered, get_login-IsLogin}
use gafaelfawr.Login.{
  LoginConfig, Answer, redirect, LoginWorld, get_login, get_logout, leave, leave_from, log_out,
}

host_found :
    (r : Result Error (Option String)) (name : String)
    → (r >>= λ found. guard (found == some name) invalid_return_url) ≡ ok tt
    → r ≡ ok (some name)
host_found (err e) name h = absurd (ground arith)
host_found (ok found) name h = elim (Bool-cases (found == some name)) [
  | inl same ↦ ap ok (==→≡ found (some name) same)
  | inr differ ↦ absurd (ground arith)
]

passed :
    (r : Result Error (Unit {0})) (rd : String) (url : Option String)
    → (r >>= λ _. ok (some rd)) ≡ ok url
    → (r ≡ ok tt) × (url ≡ some rd)
passed (ok u) rd url h = (refl, ground arith)
passed (err e) rd url h = absurd (ground arith)

given-eq_some : (o : Option String) (text : String) → given o ≡ some text → o ≡ some text
unfolding given
given-eq_some none text h = h
given-eq_some (some other) text h = ground arith

module _ (hostname : String → Result Error (Option String)) (allowed : String → Bool) where
  -- A URL at a host that is allowed, if there is one.
  abbrev pub IsLocal : Option String → Type 0
  IsLocal none = Unit
  IsLocal (some url) = (name : String) × (hostname url ≡ ok (some name)) × (allowed name ≡ true)

  module _ (host : Host) (own : allowed (hostname_of host) ≡ true) where
    check_url-IsLocal : (url : String) → check_url hostname host url ≡ ok tt → IsLocal (some url)
    unfolding check_url
    check_url-IsLocal url h =
        (hostname_of host, host_found (hostname url) (hostname_of host) h, own)

    checked-IsLocal : (rd url : Option String) → checked hostname host rd ≡ ok url → IsLocal url
    unfolding checked
    checked-IsLocal none none h = tt
    checked-IsLocal none (some url) h = absurd (ground arith)
    checked-IsLocal (some rd) url h =
        let (valid, same) = passed (check_url hostname host rd) rd url h in
        subst IsLocal (sym same) (check_url-IsLocal rd valid)

    return_url_with_header-IsLocal :
        (rd header url : Option String)
        → return_url_with_header hostname host rd header ≡ ok url
        → IsLocal url
    unfolding return_url_with_header return_url
    return_url_with_header-IsLocal rd header url h =
        checked-IsLocal (given (or_header rd (given rd) (given header))) url h

module _ {Q : Type 0} (plus : Q → Q → Q) (S : Sources) (info : InfoConfig Q) (R : Storage TokenData)
    (L : IsLawful R) (provider : Provider) (D : IsDiscreet provider) (config : Config)
    (login : LoginConfig) (hostname : String → Result Error (Option String))
    (allowed : String → Bool) (admins : AdminDatabase) (now : ℕ) (drawn : Token)
    (ip_address : String) where
  abbrev Logins : Type 0
  Logins = LoginWorld plus S info R

  IsKept-IsLocal :
      (url : Option String) (s t : State)
      → IsKept plus S info R L provider D config login admins now drawn ip_address url s t
      → IsLocal hostname allowed url
      → IsLocal hostname allowed s.return_url
      → IsLocal hostname allowed t.return_url
  IsKept-IsLocal url s t (same, inl gone) given before =
      subst (IsLocal hostname allowed) (sym gone) tt
  IsKept-IsLocal url s t (same, inr (inl old)) given before =
      subst (IsLocal hostname allowed) (sym old) before
  IsKept-IsLocal url s t (same, inr (inr (u, is, new))) given before =
      subst (IsLocal hostname allowed) (is ∙ sym new) given

  RouteOutcome-IsLocal :
      (code state url : Option String) (w t : Logins) (r : Result Error Answer)
      → RouteOutcome plus S info R L provider D config login admins now drawn ip_address code state
          url w r t
      → IsLocal hostname allowed url
      → IsLocal hostname allowed w.session.return_url
      → IsLocal hostname allowed t.session.return_url
  RouteOutcome-IsLocal code state url w t (err e) kept = IsKept-IsLocal url w.session t.session kept
  RouteOutcome-IsLocal code state url w t (ok answer) (inl kept) =
      IsKept-IsLocal url w.session t.session kept
  RouteOutcome-IsLocal code state url w t (ok answer)
        (inr (
          c,
          s,
          is_code,
          is_state,
          (same, known, (user, scopes, is, given_scopes, session, left)),
        )) =
      λ given before. subst (IsLocal hostname allowed) (λ i. (sym left i).return_url) tt

  get_login-IsLocal :
      (host : Host) (random : String) (code state rd header : Option String) (w t : Logins)
      (r : Result Error Answer)
      → allowed (hostname_of host) ≡ true
      → get_login plus S info R provider config login admins now drawn ip_address hostname host
          random code state rd header w
        ≡ (r, t)
      → IsLocal hostname allowed w.session.return_url
      → IsLocal hostname allowed t.session.return_url
  unfolding get_login
  get_login-IsLocal host random code state rd header w t r own h before =
      elim (continue_cases (return_url_with_header hostname host rd header) _ w t r h) [
        | inl same ↦ subst (IsLocal hostname allowed) (λ i. (sym same i).session.return_url) before
        | inr (url, is, h1) ↦
            RouteOutcome-IsLocal (given code) (given state) url w t r
              (answered plus S info R L provider D config login admins now drawn ip_address random
                hostname host (given code) (given state) url w t r h1)
              (return_url_with_header-IsLocal hostname allowed host own rd header url is) before
      ]

  leave_from-new_state :
      (host : Host) (token : Option Token) (url : Option String) (w : Logins)
      → (leave_from plus S info R provider config login admins now drawn ip_address hostname host
          token url w).1.session
        ≡ new_state
  unfolding leave_from log_out
  leave_from-new_state host none url w = refl
  leave_from-new_state host (some token) url w = refl

  get_logout-IsLocal :
      (host : Host) (rd : Option String) (w t : Logins) (r : Result Error Answer)
      → get_logout plus S info R provider config login admins now drawn ip_address hostname host rd
          w
        ≡ (r, t)
      → IsLocal hostname allowed w.session.return_url
      → IsLocal hostname allowed t.session.return_url
  unfolding get_logout leave
  get_logout-IsLocal host rd w t r h before =
      elim (continue_cases (return_url hostname host rd) _ w t r h) [
        | inl same ↦ subst (IsLocal hostname allowed) (λ i. (sym same i).session.return_url) before
        | inr (url, is, h1) ↦
            subst (IsLocal hostname allowed)
              (λ i.
                ((sym (leave_from-new_state host w.session.token url w) ∙ (λ j. (h1 j).1.session))
                  i).return_url)
              tt
      ]

module _ {Q : Type 0} (plus : Q → Q → Q) (S : Sources) (info : InfoConfig Q) (R : Storage TokenData)
    (L : IsLawful R) (provider : Provider) (D : IsDiscreet provider) (config : Config)
    (login : LoginConfig) (hostname : String → Result Error (Option String))
    (allowed : String → Bool) where
  abbrev pub Visits : Type 0
  Visits = LoginWorld plus S info R

  -- The sessions of a browser, after any requests to the two routes at allowed hosts.
  pub data Reachable : State → Type 0 where
    fresh : Reachable new_state
    logged_in :
        (admins : AdminDatabase) (now : ℕ) (drawn : Token) (ip_address : String) (host : Host)
        (random : String) (code state rd header : Option String) (w t : Visits)
        (r : Result Error Answer)
        → allowed (hostname_of host) ≡ true
        → get_login plus S info R provider config login admins now drawn ip_address hostname host
            random code state rd header w
          ≡ (r, t)
        → Reachable w.session
        → Reachable t.session
    logged_out :
        (admins : AdminDatabase) (now : ℕ) (drawn : Token) (ip_address : String) (host : Host)
        (rd : Option String) (w t : Visits) (r : Result Error Answer)
        → allowed (hostname_of host) ≡ true
        → get_logout plus S info R provider config login admins now drawn ip_address hostname host
            rd w
          ≡ (r, t)
        → Reachable w.session
        → Reachable t.session

  Reachable-IsLocal : {s : State} → Reachable s → IsLocal hostname allowed s.return_url
  Reachable-IsLocal fresh = tt
  Reachable-IsLocal
        (logged_in admins now drawn ip_address host random code state rd header w t r own h
          before) =
      get_login-IsLocal plus S info R L provider D config login hostname allowed admins now drawn
        ip_address host random code state rd header w t r own h (Reachable-IsLocal before)
  Reachable-IsLocal (logged_out admins now drawn ip_address host rd w t r own h before) =
      get_logout-IsLocal plus S info R L provider D config login hostname allowed admins now drawn
        ip_address host rd w t r h (Reachable-IsLocal before)

  -- Whatever requests a browser has made to `/login` and `/logout`, a login that gives its session
  -- another token sends it to a URL whose host is allowed, if the hosts of all these requests are.
  -- This supposes that the Redis storage meets its assumptions, and that the provider leaves the
  -- token and the return URL of the session alone.
  pub get_login-local_redirect :
      (admins : AdminDatabase) (now : ℕ) (drawn : Token) (ip_address : String) (host : Host)
      (random : String) (code state rd header : Option String) (w t : Visits) (answer : Answer)
      → Reachable w.session
      → get_login plus S info R provider config login admins now drawn ip_address hostname host
          random code state rd header w
        ≡ (ok answer, t)
      → t.session.token ≢ w.session.token
      → (url name : String) × (answer ≡ redirect url)
        × (hostname url ≡ ok (some name))
        × (allowed name ≡ true)
  get_login-local_redirect admins now drawn ip_address host random code state rd header w t answer
        before h changed =
      elim (get_login-IsLogin plus S info R L provider D config login admins now drawn ip_address
        random hostname host code state rd header w t answer h) [
          | inl same ↦ absurd (changed same)
          | inr (c, s, is_code, is_state, (same, (url, known, is), identified)) ↦
              let (name, at, own) =
                subst (IsLocal hostname allowed) (given-eq_some w.session.return_url url known)
                  (Reachable-IsLocal before) in
              (url, name, is, at, own)
        ]
