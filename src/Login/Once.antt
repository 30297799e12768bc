-- ===== src/Login/Once.antt =====
-- The state of a login of src/gafaelfawr/handlers/login.py: it lasts from the redirect to the
-- provider to the return from it, and no longer.
use gafaelfawr.Prelude.{
  ℕ, String, ◌≡◌, refl, ◌≢◌, inl, inr, ap, ◌∙◌, true, false, Option, none, some, arith, ◌==◌,
  string_eq, option_eq,
}
use gafaelfawr.Prelude.Result.{Result, ok}
use gafaelfawr.Errors.{Error}
use gafaelfawr.Credential.{Token}
use gafaelfawr.Models.{TokenData}
use gafaelfawr.Admins.{AdminDatabase}
use gafaelfawr.Storage.Redis.{Storage, IsLawful}
use gafaelfawr.Tokens.{Config}
use gafaelfawr.Userinfo.{Sources, InfoConfig}
use gafaelfawr.Login.Session.{State, given}
use gafaelfawr.Login.ReturnUrl.{Host}
use gafaelfawr.Login.Providers.{Provider, IsDiscreet}
use gafaelfawr.Login.Returned.{get_login-IsLogin}
use gafaelfawr.Login.{
  LoginConfig, Answer, redirect, LoginWorld, error_user, state_invalid, without_login,
  with_return_url, state_or, fail_with, log_in, log_in_to, handled, construct_login_response,
  handle_provider_return, start_login, redirect_to_provider, get_login,
}

differs_from_none : (state : String) (o : Option String) → o ≡ none → (some state == o) ≡ false
differs_from_none state o gone = ground arith

same_some : (state : String) (o : Option String) → o ≡ some state → (some state == o) ≡ true
same_some state o is = ground arith

given-some : (url : String) (o : Option String) → url ≢ "" → o ≡ some url → given o ≡ some url
unfolding given
given-some url none text is = cc
given-some url (some other) text is = ground arith

given-eq_some : (o : Option String) (text : String) → given o ≡ some text → o ≡ some text
unfolding given
given-eq_some none text h = h
given-eq_some (some other) text h = ground arith

-- The state that the redirect names is the one in the session, the old one if there is one.
state_or_lem :
    (now : ℕ) (random : String) (s : State) (o : Option String)
    → given s.state ≡ o
    → let (state, t) = state_or now random o s in
      (t.state ≡ some state)
      × (t.return_url ≡ s.return_url)
      × ((old : String) → given s.state ≡ some old → state ≡ old)
state_or_lem now random s none is = (refl, refl, λ old some_old. cc)
state_or_lem now random s (some state) is =
    (given-eq_some s.state state is, refl, λ old some_old. cc)

module _ {Q : Type 0} (plus : Q → Q → Q) (S : Sources) (info : InfoConfig Q) (R : Storage TokenData)
    (provider : Provider) (config : Config) (login : LoginConfig) where
  abbrev pub Visits : Type 0
  Visits = LoginWorld plus S info R

  module _ (admins : AdminDatabase) (now : ℕ) (drawn : Token) (ip_address code state : String) where
    abbrev responds : Visits → Result Error Answer × Visits
    responds =
        construct_login_response plus S info R provider config login admins now drawn ip_address
          code state

    unknown_state :
        (t : Visits)
        → t.session.state ≡ none
        → responds t
          ≡ (ok (error_user state_invalid), record t { session = without_login t.session })
    unfolding construct_login_response fail_with
    unknown_state t gone = rw (differs_from_none state t.session.state gone)

    no_state :
        (t : Visits)
        → t.session.state ≡ none
        → handle_provider_return plus S info R provider config login admins now drawn ip_address
            code state t
          ≡ (ok (error_user state_invalid), record t { session = without_login t.session })
    unfolding handle_provider_return
    no_state t gone =
        ap
          (λ (p : Result Error Answer × Visits).
            handled plus S info R provider config login admins now drawn ip_address p.0 p.1)
          (unknown_state t gone)

    known_state :
        (url : String) (v : Visits)
        → url ≢ ""
        → v.session.state ≡ some state
        → v.session.return_url ≡ some url
        → responds v
          ≡ log_in plus S info R provider config login admins now drawn ip_address code state url v
    unfolding construct_login_response log_in_to
    known_state url v text is_state is_url = rw (same_some state v.session.state is_state) (
        ap
          (λ (o : Option String).
            log_in_to plus S info R provider config login admins now drawn ip_address code state o
              v)
          (given-some url v.session.return_url text is_url))

  -- A login is finished once: when the route `/login` has answered and given the session another
  -- token, then a return from the provider with any code and any state, at any time, gets the error
  -- page for a wrong state and changes nothing but the login of the session. This supposes that the
  -- Redis storage meets its assumptions, and that the provider leaves the token and the return URL
  -- of the session alone.
  pub get_login_once :
      IsLawful R
      → IsDiscreet provider
      → (admins : AdminDatabase) (now : ℕ) (drawn : Token) (ip_address : String)
        (hostname : String → Result Error (Option String)) (host : Host) (random : String)
        (code state rd header : Option String) (w t : Visits) (answer : Answer)
      → get_login plus S info R provider config login admins now drawn ip_address hostname host
          random code state rd header w
        ≡ (ok answer, t)
      → t.session.token ≢ w.session.token
      → (admins' : AdminDatabase) (now' : ℕ) (drawn' : Token) (ip_address' code' state' : String)
      → handle_provider_return plus S info R provider config login admins' now' drawn' ip_address'
          code' state' t
        ≡ (ok (error_user state_invalid), record t { session = without_login t.session })
  get_login_once L D admins now drawn ip_address hostname host random code state rd header w t
        answer h changed admins' now' drawn' ip_address' code' state' =
      no_state admins' now' drawn' ip_address' code' state' t
        (elim (get_login-IsLogin plus S info R L provider D config login admins now drawn ip_address
          random hostname host code state rd header w t answer h) [
            | inl same ↦ absurd (changed same)
            | inr
                  (
                    c,
                    s,
                    is_code,
                    is_state,
                    (same, known, (user, scopes, is, found, session, left)),
                  ) ↦
                λ i. (left i).state
          ])

  module _ (admins : AdminDatabase) (now : ℕ) (drawn : Token) (ip_address : String) where
    -- `redirect_to_provider` always answers a return URL that is not empty, with the provider's URL
    -- for a state: that of the session, if there is one, or the one drawn. A return from the
    -- provider with this state, while the session is the same, passes the checks: it is a login
    -- that ends at the given return URL.
    pub redirect_to_provider-log_in :
        (random url : String) (w : Visits)
        → url ≢ ""
        → let (r, t) =
            redirect_to_provider plus S info R provider config login admins now drawn ip_address
              random
              (some url)
              w in
          (state : String) × (r ≡ ok (redirect (provider.get_redirect_url state)))
          × ((old : String) → given w.session.state ≡ some old → state ≡ old)
          × ((code : String) (v : Visits)
              → v.session ≡ t.session
              → construct_login_response plus S info R provider config login admins now drawn
                  ip_address code state v
                ≡ log_in plus S info R provider config login admins now drawn ip_address code state
                    url v)
    unfolding redirect_to_provider start_login
    redirect_to_provider-log_in random url w is_url =
        let before = with_return_url url w.session in
        let (is_state, is_kept, reused) =
          state_or_lem now random before (given w.session.state) refl in
        let state = (state_or now random (given w.session.state) before).0 in
        (
          state,
          refl,
          reused,
          λ code v same.
              known_state admins now drawn ip_address code state url v is_url
                ((λ i. (same i).state) ∙ is_state) ((λ i. (same i).return_url) ∙ is_kept),
        )
