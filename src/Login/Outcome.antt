-- ===== src/Login/Outcome.antt =====
-- What `handle_provider_return` of src/gafaelfawr/handlers/login.py leaves in the session of a browser.
use gafaelfawr.Prelude.{
  ℕ, String, ◌≡◌, refl, ◌⊎◌, inl, inr, sym, ◌∙◌, Option, none, some, List, arith, ◌==◌, string_eq,
  option_eq, Bool-cases, ==→≡,
}
use gafaelfawr.Prelude.Result.{Result, ok, err}
use gafaelfawr.Prelude.Exec.{continue, continue-eq_err}
use gafaelfawr.Errors.{Error}
use gafaelfawr.Credential.{Token}
use gafaelfawr.Models.{TokenData}
use gafaelfawr.Admins.{AdminDatabase}
use gafaelfawr.Storage.Redis.{Storage, IsLawful}
use gafaelfawr.Tokens.{Config}
use gafaelfawr.Userinfo.{Sources, InfoConfig, groups_or_empty, get_scopes, invalidate_cache}
use gafaelfawr.Login.Session.{State, given}
use gafaelfawr.Login.Providers.{Provider, TokenUserInfo, IsDiscreet}
use gafaelfawr.Login.Accepted.{IsIdentified, log_in-IsIdentified}
use gafaelfawr.Login.{
  LoginConfig, Answer, redirect, LoginWorld, Caught, caught, fail_with, token_with, construct_token,
  log_in, log_in_to, construct_login_response, enroll, handle, handled, handle_provider_return,
  log_out, without_login,
}

module _ {Q : Type 0} (plus : Q → Q → Q) (S : Sources) (info : InfoConfig Q) (R : Storage TokenData)
    (L : IsLawful R) (provider : Provider) (D : IsDiscreet provider) (config : Config)
    (login : LoginConfig) (admins : AdminDatabase) (now : ℕ) (drawn : Token)
    (ip_address : String) where
  abbrev pub Logins : Type 0
  Logins = LoginWorld plus S info R

  abbrev pub identity : String → String → Logins → Result Error TokenUserInfo × State
  identity code state w = provider.create_user_info code state w.session

  token_with_session :
      (user_info : TokenUserInfo) (scopes : Option (List String)) (w : Logins)
      → (token_with plus S info R provider config login admins now drawn ip_address user_info scopes
          w).1.session
        ≡ w.session
  unfolding token_with invalidate_cache
  token_with_session user_info none w = refl
  token_with_session user_info (some scopes) w = refl

  construct_token_session :
      (user_info : TokenUserInfo) (w : Logins)
      → (construct_token plus S info R provider config login admins now drawn ip_address user_info
          w).1.session
        ≡ w.session
  unfolding construct_token
  construct_token_session user_info w =
      let (r, v) =
        get_scopes plus S info user_info.username user_info.metadata.gid
          (groups_or_empty user_info.metadata.groups) w.sources in
      through r (record w { sources = v })
    where
      through :
          (r : Result Error (Option (List String))) (u : Logins)
          → (continue r
              (token_with plus S info R provider config login admins now drawn ip_address user_info)
              u).1.session
            ≡ u.session
      through (ok scopes) u = token_with_session user_info scopes u
      through (err e) u = refl

  -- A login that raises leaves the session as the provider has left it.
  log_in_raised :
      (code state return_url : String) (w t : Logins) (e : Error)
      → log_in plus S info R provider config login admins now drawn ip_address code state return_url
          w
        ≡ (err e, t)
      → t.session ≡ (identity code state w).1
  unfolding log_in
  log_in_raised code state return_url w t e h =
      let (known, after) = identity code state w in
      let w1 : Logins = record w { session = after } in
      elim (continue-eq_err known _ w1 t e h) [
        | inl (raised, same) ↦ λ i. (sym same i).session
        | inr (user_info, is_known, h1) ↦
            let (made, u) =
              construct_token plus S info R provider config login admins now drawn ip_address
                user_info w1 in
            elim (continue-eq_err made _ u t e h1) [
              | inl (raised, same) ↦
                  (λ i. (sym same i).session) ∙ construct_token_session user_info w1
              | inr (token, is_made, h2) ↦ absurd (ground arith)
            ]
      ]

  -- The login of a browser that came back with the state of its session.
  abbrev pub IsLogin : String → String → Answer → Logins → Logins → Type 0
  IsLogin code state answer w t =
      (w.session.state ≡ some state)
      × ((return_url : String) × (given w.session.return_url ≡ some return_url)
          × (answer ≡ redirect return_url))
      × IsIdentified plus S info R L provider config login admins now drawn ip_address code state w
          t

  -- The session is one of these two, or what is left of it after an error page.
  abbrev pub IsLeft : State → State → Type 0
  IsLeft s t = (t ≡ s) ⊎ (t ≡ without_login s)

  abbrev pub IsLeftAs : String → String → Logins → Logins → Type 0
  IsLeftAs code state w t = IsLeft w.session t.session ⊎ IsLeft (identity code state w).1 t.session

  abbrev pub Outcome : String → String → Logins → Result Error Answer → Logins → Type 0
  Outcome code state w (ok answer) t = IsLogin code state answer w t ⊎ IsLeftAs code state w t
  Outcome code state w (err e) t = IsLeftAs code state w t

  log_in-Outcome :
      (code state return_url : String) (w t : Logins) (r : Result Error Answer)
      → w.session.state ≡ some state
      → given w.session.return_url ≡ some return_url
      → log_in plus S info R provider config login admins now drawn ip_address code state return_url
          w
        ≡ (r, t)
      → Outcome code state w r t
  log_in-Outcome code state return_url w t (ok answer) same known h =
      let (is, identified) =
        log_in-IsIdentified plus S info R L provider config login admins now drawn ip_address code
          state return_url w t answer h in
      inl (same, (return_url, known, is), identified)
  log_in-Outcome code state return_url w t (err e) same known h =
      inr (inl (log_in_raised code state return_url w t e h))

  log_in_to-Outcome :
      (code state : String) (return_url : Option String) (w : Logins)
      → w.session.state ≡ some state
      → given w.session.return_url ≡ return_url
      → let (r, t) =
          log_in_to plus S info R provider config login admins now drawn ip_address code state
            return_url w in
        Outcome code state w r t
  unfolding log_in_to fail_with
  log_in_to-Outcome code state none w same known = inr (inl (inr refl))
  log_in_to-Outcome code state (some return_url) w same known =
      let (r, t) =
        log_in plus S info R provider config login admins now drawn ip_address code state return_url
          w in
      log_in-Outcome code state return_url w t r same known refl

  construct_login_response-Outcome :
      (code state : String) (w : Logins)
      → let (r, t) =
          construct_login_response plus S info R provider config login admins now drawn ip_address
            code state w in
        Outcome code state w r t
  unfolding construct_login_response fail_with
  construct_login_response-Outcome code state w =
      elim (Bool-cases (some state == w.session.state)) [
        | inl same ↦ rw same (
            log_in_to-Outcome code state (given w.session.return_url) w
              (sym (==→≡ (some state) w.session.state same)) refl)
        | inr differ ↦ rw differ (inr (inl (inr refl)))
      ]

  Outcome-left :
      (code state : String) (w t : Logins) (r : Result Error Answer)
      → IsLeftAs code state w t
      → Outcome code state w r t
  Outcome-left code state w t (ok answer) left = inr left
  Outcome-left code state w t (err e) left = left

  enroll-IsLeft :
      (url : Option String) (u : Logins)
      → IsLeft u.session
          (enroll plus S info R provider config login admins now drawn ip_address url u).1.session
  unfolding enroll fail_with
  enroll-IsLeft none u = inr refl
  enroll-IsLeft (some url) u = inl refl

  handle-IsLeft :
      (e : Error) (c : Caught) (u : Logins)
      → IsLeft u.session
          (handle plus S info R provider config login admins now drawn ip_address e c u).1.session
  unfolding handle fail_with log_out
  handle-IsLeft e Caught.enrollment u = enroll-IsLeft login.enrollment_url u
  handle-IsLeft e Caught.uncaught u = inl refl
  handle-IsLeft e (Caught.system error) u = inr refl
  handle-IsLeft e (Caught.user_logged_out error) u = inr refl

  IsLeft-trans : (s u t : State) → IsLeft s u → IsLeft u t → IsLeft s t
  IsLeft-trans s u t h g = ground arith

  handled-Outcome :
      (code state : String) (w u : Logins) (r : Result Error Answer)
      → Outcome code state w r u
      → let (q, t) = handled plus S info R provider config login admins now drawn ip_address r u in
        Outcome code state w q t
  handled-Outcome code state w u (ok answer) h = h
  handled-Outcome code state w u (err e) h =
      let (q, t) =
        handle plus S info R provider config login admins now drawn ip_address e (caught e) u in
      let left = handle-IsLeft e (caught e) u in
      Outcome-left code state w t q (elim h [
        | inl before ↦ inl (IsLeft-trans w.session u.session t.session before left)
        | inr after ↦ inr (IsLeft-trans (identity code state w).1 u.session t.session after left)
      ])

  pub handle_provider_return-Outcome :
      (code state : String) (w : Logins)
      → let (r, t) =
          handle_provider_return plus S info R provider config login admins now drawn ip_address
            code state w in
        Outcome code state w r t
  unfolding handle_provider_return
  handle_provider_return-Outcome code state w =
      let (r, u) =
        construct_login_response plus S info R provider config login admins now drawn ip_address
          code state w in
      handled-Outcome code state w u r (construct_login_response-Outcome code state w)
