-- ===== src/Ingress/Reflected.antt =====
-- The `Authorization` and `Cookie` headers that src/gafaelfawr/handlers/auth.py gives back to NGINX.
use mathlib.Core.Path.{subst}
use gafaelfawr.Prelude.{
  ℕ, ◌≡◌, ◌≢◌, refl, sym, Bool, true, false, List, [], ◌∷◌, ◌++◌, String, Option, none, some, arith,
  All, All-append, All-filter, Bool-cases, inl, inr, filter, string_eq, ==_false→≢, ◌==◌,
}
use gafaelfawr.Prelude.Result.{Result, ok, err}
use gafaelfawr.Prelude.Exec.{continue-eq_ok}
use gafaelfawr.Errors.{Error}
use gafaelfawr.Credential.{Token}
use gafaelfawr.Models.{TokenData}
use gafaelfawr.Storage.Redis.{Storage}
use gafaelfawr.Tokens.{Config}
use gafaelfawr.Delegation.{Cache, InternalKey, NotebookKey}
use gafaelfawr.Headers.Cookies.{pieces, join_cookies, is_kept, rejoin, clean_cookies}
use gafaelfawr.Headers.Cookies.Named.{IsForeign, IsForeign-kept}
use gafaelfawr.Headers.Cookies.Kept.{IsPiece, All-pieces, pieces-join_cookies}
use gafaelfawr.Headers.Authorization.{clean_authorization}
use gafaelfawr.Headers.Authorization.Cleaned.{IsClean, clean_authorization-IsClean}
use gafaelfawr.Headers.Challenges.{Failure}
use gafaelfawr.Authenticate.{RequestContext}
use gafaelfawr.Ingress.{
  named, email_header, token_header, bearer_header, reflect, authorization_headers, with_cookies,
  get_anonymous, Server, build_delegated_token, success_headers, build_success_headers, get_auth,
}
use gafaelfawr.Ingress.Request.{AuthQuery, AuthConfig, config_of}
use gafaelfawr.Ingress.Access.{auth_config-eq_ok, get_auth-eq_ok, get_auth_for-eq_ok}

filter-All : (p : String → Bool) (xs : List String) → All (λ x. p x ≡ true) (filter p xs)
filter-All p [] = tt
filter-All p (x ∷ xs) = elim (Bool-cases (p x)) [
  | inl e ↦ rw e (e, filter-All p xs)
  | inr e ↦ rw e (filter-All p xs)
]

rejoin-IsForeign :
    (xs : List String) → All IsPiece xs → All (λ c. is_kept c ≡ true) xs → All IsForeign (rejoin xs)
unfolding rejoin
rejoin-IsForeign [] p h = tt
rejoin-IsForeign (x ∷ xs) p h = (
  IsForeign-kept (join_cookies (x ∷ xs))
      (subst (All (λ c. is_kept c ≡ true)) (sym (pieces-join_cookies x xs p)) h),
  tt,
)

clean_cookies-IsForeign : (headers : List String) → All IsForeign (clean_cookies headers)
unfolding clean_cookies
clean_cookies-IsForeign [] = tt
clean_cookies-IsForeign (header ∷ headers) =
    let kept = All-filter IsPiece is_kept (pieces header) (All-pieces header) in
    All-append IsForeign _ (clean_cookies headers)
      (rejoin-IsForeign _ kept (filter-All is_kept (pieces header)))
      (clean_cookies-IsForeign headers)

All-named :
    (P : String × String → Type 0) (name : String) (values : List String)
    → All (λ value. P (name, value)) values
    → All P (named name values)
All-named P name [] h = tt
All-named P name (value ∷ values) h = (h.0, All-named P name values h.1)

All-imp :
    {P Q : String → Type 0} (xs : List String) → ((x : String) → P x → Q x) → All P xs → All Q xs
All-imp [] f h = tt
All-imp (x ∷ xs) f h = (f x h.0, All-imp xs f h.1)

other_names : ◌≢◌ {A = String} "Cookie" "Authorization"
unfolding string_eq
other_names = ==_false→≢ "Cookie" "Authorization" refl

module _ (decode : String → Option String) where
  -- A header for the protected service: a `Cookie` header has no Gafaelfawr cookie at its start or
  -- behind a separator, and an `Authorization` header, unless it is the delegated token, no token.
  abbrev pub IsSafe : Bool → String × String → Type 0
  IsSafe use_authorization (name, value) =
      (name ≡ "Cookie" → IsForeign value)
      × (name ≡ "Authorization" → use_authorization ≡ false → IsClean decode value)

  other-IsSafe :
      (use_authorization : Bool) (name value : String)
      → (name == "Cookie") ≡ false
      → (name == "Authorization") ≡ false
      → IsSafe use_authorization (name, value)
  other-IsSafe use_authorization name value cookie authorization = (
    λ same. absurd (==_false→≢ name "Cookie" cookie same),
    λ same. absurd (==_false→≢ name "Authorization" authorization same),
  )

  user-IsSafe :
      (use_authorization : Bool) (username email : String)
      → IsSafe use_authorization ("X-Auth-Request-User", username)
        × IsSafe use_authorization ("X-Auth-Request-Email", email)
  unfolding string_eq
  user-IsSafe use_authorization username email = (
    other-IsSafe use_authorization "X-Auth-Request-User" username refl refl,
    other-IsSafe use_authorization "X-Auth-Request-Email" email refl refl,
  )

  email-IsSafe :
      (use_authorization : Bool) (email : Option String)
      → All (IsSafe use_authorization) (email_header email)
  email-IsSafe use_authorization none = tt
  email-IsSafe use_authorization (some email) = elim (Bool-cases (email == "")) [
    | inl empty ↦ rw empty tt
    | inr given ↦ rw given ((user-IsSafe use_authorization "" email).1, tt)
  ]

  token-IsSafe :
      (use_authorization : Bool) (delegated : Option String)
      → All (IsSafe use_authorization) (token_header delegated)
  unfolding string_eq
  token-IsSafe use_authorization none = tt
  token-IsSafe use_authorization (some token) =
      (other-IsSafe use_authorization "X-Auth-Request-Token" token refl refl, tt)

  bearer-IsSafe : (delegated : Option String) → All (IsSafe true) (bearer_header delegated)
  bearer-IsSafe none = tt
  bearer-IsSafe (some token) =
      ((λ other. absurd (other_names (sym other)), λ same given. absurd (ground arith)), tt)

  reflected-IsSafe :
      (r : Result Error (List String)) (headers : List (String × String))
      → ((kept : List String) → r ≡ ok kept → All (IsClean decode) kept)
      → reflect r ≡ ok headers
      → All (IsSafe false) headers
  unfolding reflect
  reflected-IsSafe (err e) headers clean h = absurd (ground arith)
  reflected-IsSafe (ok kept) headers clean h =
      let same : named "Authorization" kept ≡ headers = ground arith in
      subst (All (IsSafe false)) same (
        All-named (IsSafe false) "Authorization" kept (
          All-imp kept (λ value is. (λ other. absurd (other_names (sym other)), λ same given. is))
            (clean kept refl)))

  cookies-IsSafe :
      (use_authorization : Bool) (raw : List String)
      → All (IsSafe use_authorization) (named "Cookie" (clean_cookies raw))
  cookies-IsSafe use_authorization raw =
      All-named (IsSafe use_authorization) "Cookie" (clean_cookies raw) (
        All-imp (clean_cookies raw)
          (λ value foreign. (λ same. foreign, λ other. absurd (other_names other)))
          (clean_cookies-IsForeign raw))

  authorization_headers-IsSafe :
      (use_authorization : Bool) (delegated : Option String) (raw : List String)
      (headers : List (String × String))
      → authorization_headers decode use_authorization delegated raw ≡ ok headers
      → All (IsSafe use_authorization) headers
  unfolding authorization_headers
  authorization_headers-IsSafe true delegated raw headers h =
      let same : bearer_header delegated ≡ headers = ground arith in
      subst (All (IsSafe true)) same (bearer-IsSafe delegated)
  authorization_headers-IsSafe false delegated raw headers h =
      reflected-IsSafe (clean_authorization decode raw) headers
        (λ kept cleaned. clean_authorization-IsClean decode raw kept cleaned) h

  with_cookies-IsSafe :
      (raw : List String) (r : Result Failure (List (String × String)))
      (headers : List (String × String))
      → ((kept : List (String × String)) → r ≡ ok kept → All (IsSafe false) kept)
      → with_cookies raw r ≡ ok headers
      → All (IsSafe false) headers
  unfolding with_cookies
  with_cookies-IsSafe raw (err e) headers safe h = absurd (ground arith)
  with_cookies-IsSafe raw (ok kept) headers safe h =
      let cookies = named "Cookie" (clean_cookies raw) in
      let whole : kept ++ cookies ≡ headers = ground arith in
      subst (All (IsSafe false)) whole
        (All-append (IsSafe false) kept cookies (safe kept refl) (cookies-IsSafe false raw))

  -- When `get_anonymous` answers, no `Cookie` header of the answer starts with `gafaelfawr=` or has it
  -- behind a `; `, and in no `Authorization` header does the program find a token.
  get_anonymous-IsSafe :
      (context : RequestContext) (headers : List (String × String))
      → get_anonymous decode context ≡ ok headers
      → All (IsSafe false) headers
  unfolding get_anonymous
  get_anonymous-IsSafe context headers h =
      with_cookies-IsSafe context.cookies
        (authorization_headers decode false none context.authorizations) headers
        (λ kept is. authorization_headers-IsSafe false none context.authorizations kept is) h

module _ (R : Storage TokenData) (CI : Cache InternalKey Token) (CN : Cache NotebookKey Token)
    (config : Config) (now : ℕ) (drawn : Token) (decode : String → Option String)
    (user_email : TokenData → Option (Option String)) (context : RequestContext) where
  success_headers-IsSafe :
      (auth : AuthConfig) (d : TokenData) (email : Option (Option String)) (s t : Server R CI CN)
      (headers : List (String × String))
      → success_headers R CI CN config now drawn decode user_email context auth d email s
        ≡ (ok headers, t)
      → All (IsSafe decode auth.use_authorization) headers
  unfolding success_headers
  success_headers-IsSafe auth d none s t headers h = absurd (ground arith)
  success_headers-IsSafe auth d (some email) s t headers h =
      let (r, u) =
        build_delegated_token R CI CN config now drawn decode user_email context auth d s in
      let (delegated, made, rest) = continue-eq_ok r _ u t headers h in
      let cleaned =
        authorization_headers decode auth.use_authorization delegated context.authorizations in
      let (authorization, is, answer) = continue-eq_ok cleaned _ u t headers rest in
      let cookies = named "Cookie" (clean_cookies context.cookies) in
      let whole : (("X-Auth-Request-User", d.username) ∷ email_header email)
            ++ (token_header delegated ++ (authorization ++ cookies))
          ≡ headers =
        ground arith in
      subst (All (IsSafe decode auth.use_authorization)) whole (
        (user-IsSafe decode auth.use_authorization d.username "").0,
        All-append _ (email_header email) _ (email-IsSafe decode auth.use_authorization email) (
            All-append _ (token_header delegated) _
              (token-IsSafe decode auth.use_authorization delegated)
              (All-append _ authorization cookies
                (authorization_headers-IsSafe decode auth.use_authorization delegated
                  context.authorizations authorization is)
                (cookies-IsSafe decode auth.use_authorization context.cookies))),
      )

  -- When `get_auth` answers, no `Cookie` header of the answer starts with `gafaelfawr=` or has it
  -- behind a `; `, and in no `Authorization` header does the program find a token, unless the query
  -- asks for the delegated token there.
  pub get_auth-IsSafe :
      (query : AuthQuery) (s t : Server R CI CN) (headers : List (String × String))
      → get_auth R CI CN config now drawn decode user_email context query s ≡ (ok headers, t)
      → All (IsSafe decode query.use_authorization) headers
  unfolding build_success_headers config_of
  get_auth-IsSafe query s t headers h =
      let (auth, d, made, known, rest) =
        get_auth-eq_ok R CI CN config now drawn decode user_email context query s t headers h in
      let (lasts, may, answered) =
        get_auth_for-eq_ok R CI CN config now drawn decode user_email context auth d s t headers
          rest in
      let safe = success_headers-IsSafe auth d (user_email d) s t headers answered in
      rw (auth_config-eq_ok query auth made) at safe
