-- ===== src/Ingress/Access.antt =====
-- What `get_auth` of src/gafaelfawr/handlers/auth.py has checked when it answers.
use gafaelfawr.Prelude.{
  ℕ, ◌≡◌, ◌≢◌, Bool, true, false, not, ◌&&◌, List, [], ◌∷◌, String, Option, none, some, arith,
  Bool-cases, inl, inr, contains, string_eq, option_eq, any, all, ◌==◌,
}
use gafaelfawr.Prelude.Result.{Result, ok, err}
use gafaelfawr.Prelude.Exec.{continue-eq_ok, lift->>-eq-ok}
use gafaelfawr.Errors.{Error}
use gafaelfawr.Credential.{Token}
use gafaelfawr.Models.{TokenData}
use gafaelfawr.Models.Scopes.Roundtrip.{contains-to_set}
use gafaelfawr.Storage.Redis.{Storage}
use gafaelfawr.Tokens.{Config}
use gafaelfawr.Delegation.{Cache, InternalKey, NotebookKey}
use gafaelfawr.Authenticate.{RequestContext, authenticate_read, is_given}
use gafaelfawr.Ingress.{
  raise_errors, policy_of, has_scopes, check_lifetime, check_access, Server, build_success_headers,
  get_auth_for, get_auth,
}
use gafaelfawr.Ingress.Request.{AuthQuery, AuthConfig, Satisfy, config_of, auth_config}

all-contains :
    (p : String → Bool) (xs : List String) (a : String)
    → all p xs ≡ true
    → contains xs a ≡ true
    → p a ≡ true
all-contains p [] a h c = absurd (ground arith)
all-contains p (x ∷ xs) a h c = elim (string_eq.dec a x) [
  | yes same ↦ rw same (ground arith)
  | no differ ↦ all-contains p xs a (ground arith) (ground arith)
]

any-contains :
    (p : String → Bool) (xs : List String)
    → any p xs ≡ true
    → (a : String) × (contains xs a ≡ true) × (p a ≡ true)
any-contains p [] h = absurd (ground arith)
any-contains p (x ∷ xs) h = elim (Bool-cases (p x)) [
  | inl holds ↦ (x, ground arith, holds)
  | inr fails ↦ let (a, c, holds) = any-contains p xs (ground arith) in (a, ground arith, holds)
]

-- The scopes that the query asks for, any of them or all, and the user, if it names one.
abbrev pub HasAccess : AuthQuery → TokenData → Type 0
HasAccess query d =
    (query.satisfy ≡ Satisfy.any
      → (scope : String) × (contains query.scope scope ≡ true) × (contains d.scopes scope ≡ true))
    × (query.satisfy ≡ Satisfy.all
        → (scope : String) → contains query.scope scope ≡ true
        → contains d.scopes scope ≡ true)
    × ((username : String) → query.username ≡ some username → username ≢ "" → d.username ≡ username)

pub auth_config-eq_ok :
    (query : AuthQuery) (auth : AuthConfig) → auth_config query ≡ ok auth → auth ≡ config_of query
unfolding auth_config
auth_config-eq_ok query auth h = ground arith

has_scopes-any :
    (auth : AuthConfig) (d : TokenData)
    → has_scopes auth d ≡ true
    → auth.satisfy ≡ Satisfy.any
    → any (contains d.scopes) auth.scopes ≡ true
unfolding has_scopes
has_scopes-any auth d h is = rw is at h

has_scopes-all :
    (auth : AuthConfig) (d : TokenData)
    → has_scopes auth d ≡ true
    → auth.satisfy ≡ Satisfy.all
    → all (contains d.scopes) auth.scopes ≡ true
unfolding has_scopes
has_scopes-all auth d h is = rw is at h

allowed_user :
    (required : Option String) (held : String)
    → (is_given required && not (required == some held)) ≡ false
    → (username : String) → required ≡ some username
    → username ≢ ""
    → held ≡ username
allowed_user none held h username is given = absurd (ground arith)
allowed_user (some name) held h username is given = elim (string_eq.dec name held) [
  | yes same ↦ ground arith
  | no differ ↦ absurd (given (ground arith))
]

module _ (config : Config) (now : ℕ) (context : RequestContext) (auth : AuthConfig)
    (d : TokenData) where
  check_access-eq_ok :
      check_access config now context auth d ≡ ok tt
      → (has_scopes auth d ≡ true)
        × ((username : String)
            → auth.username ≡ some username
            → username ≢ ""
            → d.username ≡ username)
  unfolding check_access
  check_access-eq_ok h = (
    ground arith,
    λ username is given. allowed_user auth.username d.username (ground arith) username is given,
  )

  check_access-HasAccess :
      (query : AuthQuery)
      → auth_config query ≡ ok auth
      → check_access config now context auth d ≡ ok tt
      → HasAccess query d
  unfolding config_of
  check_access-HasAccess query made h =
      let same = auth_config-eq_ok query auth made in
      let (held, user) = check_access-eq_ok h in
      (
        λ is.
            let some_of = has_scopes-any auth d held (rw same is) in
            let (a, inside, has) = any-contains (contains d.scopes) auth.scopes some_of in
            (a, rw (same, contains-to_set query.scope a) at inside, has),
        λ is scope asked.
            all-contains (contains d.scopes) auth.scopes scope
              (has_scopes-all auth d held (rw same is))
              (rw (same, contains-to_set query.scope scope) asked),
        λ username is. user username (rw same is),
      )

raise_errors-eq_ok : {A : Type 0} (r : Result Error A) (a : A) → raise_errors r ≡ ok a → r ≡ ok a
raise_errors-eq_ok (ok b) a h = ground arith
raise_errors-eq_ok (err e) a h = absurd (ground arith)

module _ (R : Storage TokenData) (CI : Cache InternalKey Token) (CN : Cache NotebookKey Token)
    (config : Config) (now : ℕ) (drawn : Token) (decode : String → Option String)
    (user_email : TokenData → Option (Option String)) (context : RequestContext) where
  -- What has been found out about a request that `get_auth` answers.
  pub record IsAuthorized (query : AuthQuery) (s : Server R CI CN) : Type 0 where
    pub auth : AuthConfig
    pub token_data : TokenData
    pub is_configured : auth_config query ≡ ok auth
    pub is_authenticated :
        authenticate_read (policy_of query.auth_type) context decode R now drawn s.world
        ≡ ok token_data
    pub has_lifetime : check_lifetime config now context auth token_data ≡ ok tt
    pub has_access : HasAccess query token_data

  pub get_auth_for-eq_ok :
      (auth : AuthConfig) (d : TokenData) (s t : Server R CI CN) (headers : List (String × String))
      → get_auth_for R CI CN config now drawn decode user_email context auth d s ≡ (ok headers, t)
      → (check_lifetime config now context auth d ≡ ok tt)
        × (check_access config now context auth d ≡ ok tt)
        × (build_success_headers R CI CN config now drawn decode user_email context auth d s
            ≡ (ok headers, t))
  unfolding get_auth_for
  get_auth_for-eq_ok auth d s t headers h =
      let lasting = check_lifetime config now context auth d in
      let allowed = check_access config now context auth d in
      let (lasts, rest) = lift->>-eq-ok lasting _ s t headers h in
      let (may, answered) = lift->>-eq-ok allowed _ s t headers rest in (lasts, may, answered)

  pub get_auth-eq_ok :
      (query : AuthQuery) (s t : Server R CI CN) (headers : List (String × String))
      → get_auth R CI CN config now drawn decode user_email context query s ≡ (ok headers, t)
      → (auth : AuthConfig) × (d : TokenData) × (auth_config query ≡ ok auth)
        × (authenticate_read (policy_of query.auth_type) context decode R now drawn s.world ≡ ok d)
        × (get_auth_for R CI CN config now drawn decode user_email context auth d s
            ≡ (ok headers, t))
  unfolding get_auth
  get_auth-eq_ok query s t headers h =
      let (auth, made, after) = continue-eq_ok (raise_errors (auth_config query)) _ s t headers h in
      let known =
        authenticate_read (policy_of query.auth_type) context decode R now drawn s.world in
      let (d, is_known, rest) = continue-eq_ok known _ s t headers after in
      (auth, d, raise_errors-eq_ok (auth_config query) auth made, is_known, rest)

  -- `get_auth` answers only if the query makes sense, the request is authenticated, the token is
  -- long-lived enough, it has one or all of the scopes of the query, whichever that asks for, and its
  -- user is the one whom the query names, if it names one.
  pub get_auth-IsAuthorized :
      (query : AuthQuery) (s t : Server R CI CN) (headers : List (String × String))
      → get_auth R CI CN config now drawn decode user_email context query s ≡ (ok headers, t)
      → IsAuthorized query s
  get_auth-IsAuthorized query s t headers h =
      let (auth, d, made, known, rest) = get_auth-eq_ok query s t headers h in
      let (lasts, may, answered) = get_auth_for-eq_ok auth d s t headers rest in
      record {
        auth = auth;
        token_data = d;
        is_configured = made;
        is_authenticated = known;
        has_lifetime = lasts;
        has_access = check_access-HasAccess config now context auth d query made may;
      }
