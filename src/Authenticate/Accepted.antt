-- ===== src/Authenticate/Accepted.antt =====
-- Which requests `Authenticate` of src/gafaelfawr/dependencies/auth.py lets through.
use gafaelfawr.Prelude.{
  ℕ, String, ◌≡◌, ◌≢◌, refl, ◌⊎◌, inl, inr, true, false, ◌&&◌, Option, none, some, arith, ◌==◌,
  string_eq, option_eq, contains, Bool-cases, sym, ap, ==_false→≢, ==→≡, ≢→==_false,
}
use gafaelfawr.Prelude.Result.{Result, ok, err, ◌>>=◌}
use gafaelfawr.Errors.{Error, invalid_csrf}
use gafaelfawr.Credential.{Token, token_to_str, token_from_str}
use gafaelfawr.Models.{TokenData}
use gafaelfawr.Storage.Redis.{Storage}
use gafaelfawr.Storage.World.{World, get_data}
use gafaelfawr.Headers.Authorization.{parse_authorization}
use gafaelfawr.Headers.Challenges.{Failure, raised}
use gafaelfawr.Authenticate.{
  Policy, RequestContext, is_given, first_header, verify_csrf, verify_cookie, bootstrap_data,
  challenge_error, token_of, check_scope, check_data, find_in_header, find_token, look_up,
  authenticate,
}

then_ok :
    {A B : Type 0} (r : Result Failure A) (f : A → Result Failure B) (b : B)
    → (r >>= f) ≡ ok b
    → (a : A) × (r ≡ ok a) × (f a ≡ ok b)
then_ok (err e) f b h = absurd (ground arith)
then_ok (ok a) f b h = (a, refl, h)

-- A request that changes nothing, or that comes with the CSRF token of the cookie.
abbrev pub IsCsrfSafe : RequestContext → Option String → Type 0
IsCsrfSafe context csrf =
    (context.method ≡ "GET")
    ⊎ (context.method ≡ "OPTIONS")
    ⊎ ((c : String) × (c ≢ "") × (csrf ≡ some c) × (context.state_csrf ≡ some c))

module _ (policy : Policy) (context : RequestContext) (decode : String → Option String) where
  -- The token of the request: that of the cookie, unless the policy asks for a bearer token, or
  -- the one in the `Authorization` header, unless it asks for a session.
  abbrev pub IsPresented : Token → Type 0
  IsPresented token =
      ((context.state_token ≡ some token) × (policy.require_bearer_token ≡ false))
      ⊎ ((text : String) × (policy.require_session ≡ false)
          × (parse_authorization decode policy.require_bearer_token
                (first_header context.authorizations)
              ≡ ok (some text))
          × (token_from_str text ≡ ok token))

  given_same :
      (csrf : Option String)
      → (is_given csrf && csrf == context.state_csrf) ≡ true
      → (c : String) × (c ≢ "") × (csrf ≡ some c) × (context.state_csrf ≡ some c)
  given_same none h = absurd (ground arith)
  given_same (some c) h = (
    c,
    ==_false→≢ c "" (ground arith),
    refl,
    sym (==→≡ (some c) context.state_csrf (ground arith)),
  )

  verify_csrf-IsCsrfSafe :
      (csrf : Option String) → verify_csrf context csrf ≡ ok tt → IsCsrfSafe context csrf
  unfolding verify_csrf
  verify_csrf-IsCsrfSafe csrf h = elim (string_eq.dec context.method "GET") [
    | yes get ↦ inl get
    | no other ↦ elim (string_eq.dec context.method "OPTIONS") [
      | yes options ↦ inr (inl options)
      | no unsafe ↦ inr (inr (given_same csrf (ground arith)))
    ]
  ]

  verify_cookie-IsCsrfSafe :
      (token : Option Token) (csrf : Option String)
      → verify_cookie token context csrf ≡ ok tt
      → (token ≡ none) ⊎ IsCsrfSafe context csrf
  verify_cookie-IsCsrfSafe none csrf h = inl refl
  verify_cookie-IsCsrfSafe (some token) csrf h = inr (verify_csrf-IsCsrfSafe csrf h)

  challenge_error-eq_ok :
      {A : Type 0} (r : Result Error A) (a : A) → challenge_error policy context r ≡ ok a → r ≡ ok a
  challenge_error-eq_ok (ok b) a h = ground arith
  challenge_error-eq_ok (err e) a h = absurd (ground arith)

  parsed_token :
      (r : Result Error (Option String)) (token : Token)
      → (challenge_error policy context r >>= token_of policy context) ≡ ok token
      → (text : String) × (r ≡ ok (some text)) × (token_from_str text ≡ ok token)
  unfolding token_of
  parsed_token (err e) token h = absurd (ground arith)
  parsed_token (ok none) token h = absurd (ground arith)
  parsed_token (ok (some text)) token h =
      (text, refl, challenge_error-eq_ok (token_from_str text) token (ground arith))

  find_in_header-IsPresented :
      (token : Token) → find_in_header policy context decode ≡ ok token → IsPresented token
  unfolding find_in_header
  find_in_header-IsPresented token h = elim (Bool-cases policy.require_session) [
    | inl session ↦ absurd (ground arith)
    | inr any ↦
        let (text, found, parsed) =
          parsed_token
            (parse_authorization decode policy.require_bearer_token
              (first_header context.authorizations))
            token (ground arith) in
        inr (text, any, found, parsed)
  ]

  find_token-IsPresented :
      (cookie : Option Token) (token : Token)
      → context.state_token ≡ cookie
      → find_token policy context decode cookie ≡ ok token
      → IsPresented token
  unfolding find_token
  find_token-IsPresented none token e h = find_in_header-IsPresented token h
  find_token-IsPresented (some cookie) token e h = elim (Bool-cases policy.require_bearer_token) [
    | inl bearer ↦ find_in_header-IsPresented token (ground arith)
    | inr any ↦ inl (ground arith, any)
  ]

  find_token-cookie :
      (cookie : Option Token) (token : Token)
      → cookie ≡ some token
      → policy.require_bearer_token ≡ false
      → find_token policy context decode cookie ≡ ok token
  unfolding find_token
  find_token-cookie none token e any = absurd (ground arith)
  find_token-cookie (some held) token e any = ground arith

  is_given-differs :
      (csrf : Option String)
      → (csrf ≢ context.state_csrf) ⊎ (csrf ≡ none) ⊎ (csrf ≡ some "")
      → (is_given csrf && csrf == context.state_csrf) ≡ false
  is_given-differs csrf (inl differs) =
      rw (≢→==_false csrf context.state_csrf differs) (ground arith)
  is_given-differs csrf (inr (inl absent)) = rw absent refl
  is_given-differs csrf (inr (inr empty)) = rw empty (ground arith)

  verify_csrf-invalid :
      (csrf : Option String)
      → context.method ≢ "GET"
      → context.method ≢ "OPTIONS"
      → (csrf ≢ context.state_csrf) ⊎ (csrf ≡ none) ⊎ (csrf ≡ some "")
      → verify_csrf context csrf ≡ err (raised invalid_csrf)
  unfolding verify_csrf
  verify_csrf-invalid csrf get options differs =
      rw
        (
          ≢→==_false context.method "GET" get,
          ≢→==_false context.method "OPTIONS" options,
          is_given-differs csrf differs,
        )
        refl

  verify_cookie-invalid :
      (cookie : Option Token) (token : Token) (csrf : Option String)
      → cookie ≡ some token
      → verify_csrf context csrf ≡ err (raised invalid_csrf)
      → verify_cookie cookie context csrf ≡ err (raised invalid_csrf)
  verify_cookie-invalid none token csrf e h = absurd (ground arith)
  verify_cookie-invalid (some held) token csrf e h = h

  module _ (R : Storage TokenData) (now : ℕ) (drawn : Token) where
    -- The token is the bootstrap token, where the policy allows that, and the data is made for it;
    -- or the data is what Redis has for the token, with the scope of the policy if it has one.
    abbrev pub IsDataOf : Token → World R → TokenData → Type 0
    IsDataOf token w d =
        ((policy.allow_bootstrap_token ≡ true)
          × (token_to_str token ≡ context.bootstrap_token)
          × (d ≡ bootstrap_data now drawn))
        ⊎ ((get_data R now token w ≡ some d)
            × ((scope : String)
                → policy.require_scope ≡ some scope
                → scope ≢ ""
                → contains d.scopes scope ≡ true))

    check_scope-eq_ok :
        (required : Option String) (held d : TokenData)
        → check_scope policy context required held ≡ ok d
        → (held ≡ d)
          × ((scope : String) → required ≡ some scope → scope ≢ "" → contains d.scopes scope ≡ true)
    unfolding check_scope
    check_scope-eq_ok none held d h = (ground arith, λ scope is given. absurd (ground arith))
    check_scope-eq_ok (some required) held d h =
        let same : held ≡ d = ground arith in (same, λ scope is given. rw (← same) (ground arith))

    check_data-eq_ok :
        (o : Option TokenData) (d : TokenData)
        → check_data policy context o ≡ ok d
        → (o ≡ some d)
          × ((scope : String)
              → policy.require_scope ≡ some scope
              → scope ≢ ""
              → contains d.scopes scope ≡ true)
    unfolding check_data
    check_data-eq_ok none d h = absurd (ground arith)
    check_data-eq_ok (some held) d h =
        let (same, holds) = check_scope-eq_ok policy.require_scope held d h in (ap some same, holds)

    look_up-IsDataOf :
        (token : Token) (w : World R) (d : TokenData)
        → look_up policy context decode R now drawn w token ≡ ok d
        → IsDataOf token w d
    unfolding look_up
    look_up-IsDataOf token w d h =
        elim (Bool-cases
          (policy.allow_bootstrap_token && token_to_str token == context.bootstrap_token)) [
            | inl bootstrap ↦ inl (ground arith, ground arith, ground arith)
            | inr other ↦ inr (check_data-eq_ok (get_data R now token w) d (ground arith))
          ]

    -- A request that `Authenticate` lets through has a token in the cookie or in the header,
    -- whichever the policy allows; if there is a token in the cookie and the policy does not ask for
    -- a bearer token, the method is `GET` or `OPTIONS` or the CSRF token is that of the cookie and
    -- not empty; and the data is that of the token in Redis, with the scope that the policy
    -- requires, or that of the bootstrap token.
    pub authenticate-eq_ok :
        (csrf : Option String) (w : World R) (d : TokenData)
        → authenticate policy context decode R now drawn csrf w ≡ ok d
        → (token : Token) × IsPresented token
          × IsDataOf token w d
          × (policy.require_bearer_token ≡ false
              → (context.state_token ≡ none) ⊎ IsCsrfSafe context csrf)
    unfolding authenticate
    authenticate-eq_ok csrf w d h =
        let (token, found, rest) =
          then_ok (find_token policy context decode context.state_token) _ d h in
        let (u, safe, looked_up) =
          then_ok (verify_cookie context.state_token context csrf) _ d rest in
        (
          token,
          find_token-IsPresented context.state_token token refl found,
          look_up-IsDataOf token w d looked_up,
          λ any. verify_cookie-IsCsrfSafe context.state_token csrf safe,
        )

    -- With a token in the cookie, unless the policy asks for a bearer token, and a method other than
    -- `GET` and `OPTIONS`, a CSRF token that is not the cookie's makes `Authenticate` raise
    -- `InvalidCSRFError`, and so does an empty one or none.
    pub authenticate-invalid_csrf :
        (csrf : Option String) (w : World R) (token : Token)
        → policy.require_bearer_token ≡ false
        → context.state_token ≡ some token
        → context.method ≢ "GET"
        → context.method ≢ "OPTIONS"
        → (csrf ≢ context.state_csrf) ⊎ (csrf ≡ none) ⊎ (csrf ≡ some "")
        → authenticate policy context decode R now drawn csrf w ≡ err (raised invalid_csrf)
    unfolding authenticate
    authenticate-invalid_csrf csrf w token any cookie get options differs =
        let refused = verify_csrf-invalid csrf get options differs in
        rw
          (
            find_token-cookie context.state_token token cookie any,
            verify_cookie-invalid context.state_token token csrf cookie refused,
          )
          refl
