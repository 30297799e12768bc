-- ===== src/Login/Returned.antt =====
-- What the route `/login` of src/gafaelfawr/handlers/login.py leaves in the session of a browser.
use mathlib.Core.Path.{subst}
use gafaelfawr.Prelude.{
  ℕ, String, ◌≡◌, refl, ◌⊎◌, inl, inr, ◌∙◌, Option, none, some, arith, string_eq, option_eq,
}
use gafaelfawr.Prelude.Result.{Result, ok, err}
use gafaelfawr.Prelude.Exec.{continue-eq_ok}
use gafaelfawr.Errors.{Error}
use gafaelfawr.Credential.{Token}
use gafaelfawr.Models.{TokenData}
use gafaelfawr.Admins.{AdminDatabase}
use gafaelfawr.Storage.Redis.{Storage, IsLawful}
use gafaelfawr.Tokens.{Config}
use gafaelfawr.Userinfo.{Sources, InfoConfig}
use gafaelfawr.Login.Session.{State, given}
use gafaelfawr.Login.ReturnUrl.{Host, return_url_with_header}
use gafaelfawr.Login.Providers.{Provider, IsDiscreet}
use gafaelfawr.Login.{
  LoginConfig, Answer, fail_with, handle_provider_return, start_login, redirect_to_provider,
  return_from, answer_login, get_login, state_or, with_return_url,
}
use gafaelfawr.Login.Outcome.{
  Logins, identity, IsLogin, IsLeft, IsLeftAs, Outcome, handle_provider_return-Outcome,
}

module _ {Q : Type 0} (plus : Q → Q → Q) (S : Sources) (info : InfoConfig Q) (R : Storage TokenData)
    (L : IsLawful R) (provider : Provider) (D : IsDiscreet provider) (config : Config)
    (login : LoginConfig) (admins : AdminDatabase) (now : ℕ) (drawn : Token)
    (ip_address : String) where
  abbrev Here : Type 0
  Here = Logins plus S info R L provider D config login admins now drawn ip_address

  -- The token is that of before, and the return URL is that of before, none or the one given.
  abbrev pub IsKept : Option String → State → State → Type 0
  IsKept url s t =
      (t.token ≡ s.token)
      × ((t.return_url ≡ none)
          ⊎ (t.return_url ≡ s.return_url)
          ⊎ ((u : String) × (url ≡ some u) × (t.return_url ≡ some u)))

  IsLeft-IsKept :
      (url : Option String) (s t : State)
      → IsLeft plus S info R L provider D config login admins now drawn ip_address s t
      → IsKept url s t
  IsLeft-IsKept url s t (inl same) = (ground arith, inr (inl (ground arith)))
  IsLeft-IsKept url s t (inr cleared) = (ground arith, inl (ground arith))

  IsKept-after :
      (url : Option String) (s u t : State)
      → u.token ≡ s.token
      → u.return_url ≡ s.return_url
      → IsKept url u t
      → IsKept url s t
  IsKept-after url s u t token kept (same, inl gone) = (same ∙ token, inl gone)
  IsKept-after url s u t token kept (same, inr (inl old)) = (same ∙ token, inr (inl (old ∙ kept)))
  IsKept-after url s u t token kept (same, inr (inr new)) = (same ∙ token, inr (inr new))

  IsLeftAs-IsKept :
      (code state : String) (url : Option String) (w t : Here)
      → IsLeftAs plus S info R L provider D config login admins now drawn ip_address code state w t
      → IsKept url w.session t.session
  IsLeftAs-IsKept code state url w t (inl before) = IsLeft-IsKept url w.session t.session before
  IsLeftAs-IsKept code state url w t (inr after) =
      IsKept-after url w.session
        (identity plus S info R L provider D config login admins now drawn ip_address code state
          w).1
        t.session (D.keeps_token code state w.session) (D.keeps_return_url code state w.session)
        (IsLeft-IsKept url
          (identity plus S info R L provider D config login admins now drawn ip_address code state
            w).1
          t.session after)

  -- What the route does to the session, for what it was given of code, state and checked return URL.
  abbrev pub RouteOutcome :
      Option String → Option String → Option String → Here → Result Error Answer → Here → Type 0
  RouteOutcome code state url w (err e) t = IsKept url w.session t.session
  RouteOutcome code state url w (ok answer) t =
      IsKept url w.session t.session
      ⊎ ((c s : String) × (code ≡ some c)
          × (state ≡ some s)
          × IsLogin plus S info R L provider D config login admins now drawn ip_address c s answer w
              t)

  Outcome-RouteOutcome :
      (code state : String) (url : Option String) (w t : Here) (r : Result Error Answer)
      → Outcome plus S info R L provider D config login admins now drawn ip_address code state w r t
      → RouteOutcome (some code) (some state) url w r t
  Outcome-RouteOutcome code state url w t (err e) left = IsLeftAs-IsKept code state url w t left
  Outcome-RouteOutcome code state url w t (ok answer) (inl login) =
      inr (code, state, refl, refl, login)
  Outcome-RouteOutcome code state url w t (ok answer) (inr left) =
      inl (IsLeftAs-IsKept code state url w t left)

  state_or_kept :
      (random : String) (o : Option String) (s : State)
      → ((state_or now random o s).1.token ≡ s.token)
        × ((state_or now random o s).1.return_url ≡ s.return_url)
  state_or_kept random none s = (refl, refl)
  state_or_kept random (some state) s = (refl, refl)

  module _ (random : String) where
    answer_login-RouteOutcome :
        (code state url : Option String) (w : Here)
        → let (r, t) =
            answer_login plus S info R provider config login admins now drawn ip_address random code
              state url w in
          RouteOutcome code state url w r t
    unfolding answer_login return_from fail_with redirect_to_provider start_login
    answer_login-RouteOutcome (some code) (some state) url w =
        let (r, t) =
          handle_provider_return plus S info R provider config login admins now drawn ip_address
            code state w in
        Outcome-RouteOutcome code state url w t r (
          handle_provider_return-Outcome plus S info R L provider D config login admins now drawn
            ip_address code state w)
    answer_login-RouteOutcome (some code) none url w = inl (refl, inl refl)
    answer_login-RouteOutcome none state none w = (refl, inr (inl refl))
    answer_login-RouteOutcome none state (some u) w =
        let kept = state_or_kept random (given w.session.state) (with_return_url u w.session) in
        inl (kept.0, inr (inr (u, refl, kept.1)))

    module _ (hostname : String → Result Error (Option String)) (host : Host) where
      pub answered :
          (code state url : Option String) (w t : Here) (r : Result Error Answer)
          → answer_login plus S info R provider config login admins now drawn ip_address random code
              state url w
            ≡ (r, t)
          → RouteOutcome code state url w r t
      answered code state url w t r h =
          subst (λ (q : Result Error Answer × Here). RouteOutcome code state url w q.0 q.1) h
            (answer_login-RouteOutcome code state url w)

      -- When the route `/login` answers, the session has the token that it had before; or the request
      -- has a code and the state of the session, the provider has identified a user with a valid
      -- username whose groups give scopes, and the session has the drawn token, for which Redis has
      -- the data of the user with these scopes, and `admin:token` for an administrator; the state is
      -- then gone from the session, and the browser goes to the return URL that the session had.
      -- This supposes that the Redis storage meets its assumptions, and that the provider leaves the
      -- token and the return URL of the session alone.
      pub get_login-IsLogin :
          (code state rd header : Option String) (w t : Here) (answer : Answer)
          → get_login plus S info R provider config login admins now drawn ip_address hostname host
              random code state rd header w
            ≡ (ok answer, t)
          → (t.session.token ≡ w.session.token)
            ⊎ ((c s : String) × (given code ≡ some c)
                × (given state ≡ some s)
                × IsLogin plus S info R L provider D config login admins now drawn ip_address c s
                    answer w t)
      unfolding get_login
      get_login-IsLogin code state rd header w t answer h =
          let checked = return_url_with_header hostname host rd header in
          let (url, is, h1) = continue-eq_ok checked _ w t answer h in
          elim (answered (given code) (given state) url w t (ok answer) h1) [
            | inl kept ↦ inl kept.0
            | inr found ↦ inr found
          ]
