-- ===== src/Login/Middleware.antt =====
-- `StateMiddleware` of src/gafaelfawr/middleware/state.py, which reads the session cookie before a
-- request and writes it after one that has changed the state; and what the next request sees.
use gafaelfawr.Prelude.{
  String, ◌≡◌, refl, inl, inr, Bool, true, not, Option, none, some, ◌==◌, nat_eq, string_eq,
  option_eq, if◌then◌else◌, arith, or_else, Bool-cases, ap, sym, ◌∙◌,
}
use mathlib.Core.Option
use gafaelfawr.Prelude.Result.{ok}
use gafaelfawr.Credential.{Token, token_to_str}
use gafaelfawr.Credential.Format.{IsWellFormed, token_from_str-eq_ok_iff}
use gafaelfawr.Login.Session.{
  State, CookieData, Cipher, new_state, same_state, same_token?, given, written, read_token, read,
  to_cookie, from_cookie,
}

module _ (cipher : Cipher) where
  -- The state at the start of a request, whose cookie may be missing.
  unfoldable pub load : Option cipher.Cookie → State
  load none = new_state
  load (some cookie) = from_cookie cipher cookie

  abbrev save : {A : Type 0} → State → A × State → A × Option cipher.Cookie
  save before (response, after) =
      (response, if same_state after before then none else some (to_cookie cipher after))

  -- `dispatch`; the cookie that the response sets, if it sets one.
  unfoldable pub dispatch :
      {A : Type 0} → (State → A × State) → Option cipher.Cookie → A × Option cipher.Cookie
  dispatch call_next cookie = let before = load cookie in save before (call_next before)

-- `_is_cookie_secure`
unfoldable pub is_cookie_secure : String → String → Option String → Bool
is_cookie_secure hostname scheme forwarded_proto =
    if not (hostname == "localhost")
    then true
    else if not (scheme == "http")
    then true
    else forwarded_proto == some "https"

abbrev pub IsPrintable : Option Token → Type 0
IsPrintable none = Unit
IsPrintable (some token) = IsWellFormed token.key token.secret

-- The texts are not empty, and the token is one that `from_str` reads.
pub record IsWritable (s : State) : Type 0 where
  pub csrf_given : given s.csrf ≡ s.csrf
  pub github_given : given s.github ≡ s.github
  pub return_url_given : given s.return_url ≡ s.return_url
  pub state_given : given s.state ≡ s.state
  pub printable : IsPrintable s.token

same_token?→≡ : (o p : Option Token) → same_token? o p ≡ true → o ≡ p
same_token?→≡ none none h = refl
same_token?→≡ none (some u) h = cc
same_token?→≡ (some t) none h = cc
same_token?→≡ (some t) (some u) h = ground arith

same_state→≡ : (s t : State) → same_state s t ≡ true → s ≡ t
unfolding same_state
same_state→≡ s t h = ground (arith, same_token?→≡ s.token t.token)

read_token-token_to_str :
    (o : Option Token) → IsPrintable o → read_token (Option.map token_to_str o) ≡ ok o
unfolding read_token
read_token-token_to_str none w = refl
read_token-token_to_str (some token) w =
    let parsed = (token_from_str-eq_ok_iff (token_to_str token) token).1 (refl, w) in
    rw (parsed, read_token)

read-written : (s : State) → IsWritable s → read (some (written s)) ≡ s
unfolding read written
read-written s w = ground (arith, read_token-token_to_str s.token w.printable)

module _ (cipher : Cipher)
    (decrypt-encrypt : (c : CookieData) → cipher.decrypt (cipher.encrypt c) ≡ some c) where
  from_cookie-to_cookie : (s : State) → IsWritable s → from_cookie cipher (to_cookie cipher s) ≡ s
  unfolding from_cookie to_cookie
  from_cookie-to_cookie s w = ap read (decrypt-encrypt (written s)) ∙ read-written s w

  -- A browser that keeps its cookies shows, with its next request, the state that this request
  -- left: in the cookie that the response sets, and in its old one or in none if the response sets
  -- no cookie. This supposes that the cipher gives back what it encrypts, that no text of the state
  -- is empty, and that the token in it is of the form that `from_str` reads.
  pub load-dispatch :
      {A : Type 0} (call_next : State → A × State) (cookie : Option cipher.Cookie)
      → IsWritable (call_next (load cipher cookie)).1
      → load cipher (or_else (dispatch cipher call_next cookie).1 cookie)
        ≡ (call_next (load cipher cookie)).1
  unfolding load dispatch
  load-dispatch call_next cookie w =
      let before = load cipher cookie in
      let after = (call_next before).1 in
      elim (Bool-cases (same_state after before)) [
        | inl same ↦ rw same (sym (same_state→≡ after before same))
        | inr changed ↦ rw changed (from_cookie-to_cookie after w)
      ]
