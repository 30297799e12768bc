-- ===== src/Ingress/Delegated.antt =====
-- The internal token that `build_delegated_token` of src/gafaelfawr/handlers/auth.py adds.
use gafaelfawr.Prelude.{
  ℕ, ◌≡◌, ◌≢◌, ◌≤◌, ◌⊎◌, refl, if◌then◌else◌, Bool, true, false, ◌&&◌, List, [], ◌∷◌, String,
  Option, some, arith, contains, filter, find, all, string_eq, option_eq, Bool-cases, Option-cases,
  inl, inr, ◌==◌, ap, sym, ◌∙◌, ==→≡, ≢→==_false, is_subset,
}
use gafaelfawr.Prelude.Result.{Result, ok, err}
use gafaelfawr.Prelude.Exec.{continue-eq_ok, lift->>-eq-ok}
use gafaelfawr.Errors.{Error}
use gafaelfawr.Credential.{Token, token_to_str}
use gafaelfawr.Models.{TokenData, internal}
use gafaelfawr.Models.Scopes.{sorted, join_scopes}
use gafaelfawr.Models.Scopes.Roundtrip.{contains-sorted}
use gafaelfawr.Usernames.{valid_username}
use gafaelfawr.Storage.Redis.{Storage, IsLawful}
use gafaelfawr.Storage.Database.{Database, TokenRow, SubtokenRow, has_key}
use gafaelfawr.Storage.Queries.{first_child, is_internal_match, get_internal_token_key}
use gafaelfawr.Storage.World.{World, close, parent_exists, get_data}
use gafaelfawr.Tokens.{Config, validate_scopes, validate_username}
use gafaelfawr.Delegation.{
  Cache, InternalKey, NotebookKey, Process, Request as Call, internal_key, is_token_valid,
  minimum_expiration,
}
use gafaelfawr.Delegation.Validity.{IsLasting, is_token_valid-IsLasting}
use gafaelfawr.Delegation.Outcome.{IsReused, IsChild, get_internal_token_lem}
use gafaelfawr.Delegation.Service.{checked_internal_token, checked_notebook_token}
use gafaelfawr.Authenticate.{RequestContext}
use gafaelfawr.Ingress.{
  end_transaction, Server, Handler, as_text, with_internal, with_notebook, delegated_scopes,
  delegate, build_delegated_token,
}
use gafaelfawr.Ingress.Request.{AuthConfig}

contains-filter :
    (p : String → Bool) (xs : List String) (a : String)
    → contains (filter p xs) a ≡ (contains xs a && p a)
contains-filter p [] a = refl
contains-filter p (x ∷ xs) a = elim (string_eq.dec a x) [
  | yes same ↦ elim (Bool-cases (p x)) [
    | inl kept ↦ let holds : p a ≡ true = rw same kept in rw kept (ground arith)
    | inr dropped ↦
        let fails : p a ≡ false = rw same dropped in
        rw dropped (ground (arith, contains-filter p xs a))
  ]
  | no differ ↦ elim (Bool-cases (p x)) [
    | inl kept ↦ rw kept (ground (arith, contains-filter p xs a))
    | inr dropped ↦ rw dropped (ground (arith, contains-filter p xs a))
  ]
]

contains-is_subset :
    (xs ys : List String) (a : String)
    → is_subset xs ys ≡ true
    → contains xs a ≡ true
    → contains ys a ≡ true
contains-is_subset [] ys a h c = absurd (ground arith)
contains-is_subset (x ∷ xs) ys a h c = elim (string_eq.dec a x) [
  | yes same ↦ rw same (ground arith)
  | no differ ↦ contains-is_subset xs ys a (ground arith) (ground arith)
]

-- The row of the token that the database finds.
first_child-row :
    (test : TokenRow → Bool) (parent : String) (db : Database) (rows : List SubtokenRow)
    (key : String)
    → first_child test parent db rows ≡ some key
    → (row : TokenRow) × (find (has_key key) db.tokens ≡ some row) × (test row ≡ true)
unfolding first_child
first_child-row test parent db [] key h = absurd (ground arith)
first_child-row test parent db (r ∷ rows) key h =
    elim (Option-cases (find (has_key r.child) db.tokens)) [
      | inl missing ↦ first_child-row test parent db rows key (ground arith)
      | inr (row, there) ↦ elim (Bool-cases (r.parent == some parent && test row)) [
        | inl passed ↦
            let same : r.child ≡ key = ground arith in
            (row, ap (λ k. find (has_key k) db.tokens) (sym same) ∙ there, ground arith)
        | inr failed ↦ first_child-row test parent db rows key (ground arith)
      ]
    ]

key-scopes :
    (d : TokenData) (for_service : String) (scopes : List String) (expires : ℕ) (db : Database)
    (key : String)
    → get_internal_token_key d for_service scopes expires db ≡ some key
    → (row : TokenRow) × (find (has_key key) db.tokens ≡ some row)
      × (row.scopes ≡ join_scopes scopes)
unfolding get_internal_token_key is_internal_match
key-scopes d for_service scopes expires db key h =
    let (row, there, passed) = first_child-row _ d.token.key db db.subtokens key h in
    (row, there, ==→≡ row.scopes (join_scopes scopes) (ground arith))

contains-delegated_scopes :
    (auth : AuthConfig) (d : TokenData) (a : String)
    → contains (sorted (delegated_scopes auth d)) a
      ≡ (contains auth.delegate_scopes a && contains d.scopes a)
unfolding delegated_scopes
contains-delegated_scopes auth d a =
    rw
      (
        contains-sorted a (sorted (filter (contains d.scopes) auth.delegate_scopes)),
        contains-sorted a (filter (contains d.scopes) auth.delegate_scopes),
      )
      (contains-filter (contains d.scopes) auth.delegate_scopes a)

module _ (R : Storage TokenData) (CI : Cache InternalKey Token) (CN : Cache NotebookKey Token) where
  close-eq_ok :
      (before : World R) (r : Result Error Token) (w v : World R) (token : Token)
      → close R before.db r w ≡ (ok token, v)
      → (r ≡ ok token) × (w ≡ v)
  close-eq_ok before (err e) w v token h = absurd (ground arith)
  close-eq_ok before (ok made) w v token h = ground arith

  end_transaction-eq_ok :
      (s : Server R CI CN) (r : Result Error Token) (p : Process R CI) (t : Server R CI CN)
      (token : Token)
      → end_transaction R CI CN s.world r (record s { world = p.world; internal_tokens = p.cache })
        ≡ (ok token, t)
      → ◌≡◌ {A = Result Error Token × Process R CI}
          (r, p)
          (ok token, record { world = t.world; cache = t.internal_tokens })
  end_transaction-eq_ok s (err e) p t token h = absurd (ground arith)
  end_transaction-eq_ok s (ok made) p t token h =
      elim (Bool-cases (all (parent_exists p.world.db) p.world.db.subtokens)) [
        | inl linked ↦
            let answer : ◌≡◌ {A = Result Error Token} (ok made) (ok token) = ground arith in
            let after : record s { world = p.world; internal_tokens = p.cache } ≡ t =
              ground arith in
            λ i. (answer i, record { world = (after i).world; cache = (after i).internal_tokens })
        | inr broken ↦ absurd (ground arith)
      ]

  with_internal-eq_ok :
      (m : Call R CI) (s t : Server R CI CN) (token : Token)
      → with_internal R CI CN m s ≡ (ok token, t)
      → m (record { world = s.world; cache = s.internal_tokens })
        ≡ (ok token, record { world = t.world; cache = t.internal_tokens })
  unfolding with_internal
  with_internal-eq_ok m s t token h =
      let (r, p) = m (record { world = s.world; cache = s.internal_tokens }) in
      end_transaction-eq_ok s r p t token h

module _ (R : Storage TokenData) (CI : Cache InternalKey Token) (CN : Cache NotebookKey Token)
    (config : Config) (now : ℕ) (drawn : Token) (decode : String → Option String)
    (user_email : TokenData → Option (Option String)) (context : RequestContext) where
  as_text-eq_ok :
      (m : Handler R CI CN Token) (s t : Server R CI CN) (answer : Option String)
      → as_text R CI CN config now drawn decode user_email context m s ≡ (ok answer, t)
      → (made : Token) × (m s ≡ (ok made, t)) × (answer ≡ some (token_to_str made))
  as_text-eq_ok m s t answer h =
      let (r, u) = m s in
      let (made, is, rest) = continue-eq_ok r _ u t answer h in (made, ground arith, ground arith)

module _ (R : Storage TokenData) (L : IsLawful R) (CI : Cache InternalKey Token)
    (CN : Cache NotebookKey Token) (config : Config) (now : ℕ) (drawn : Token)
    (decode : String → Option String) (user_email : TokenData → Option (Option String))
    (context : RequestContext) (auth : AuthConfig) (d : TokenData) where
  abbrev scopes : List String
  scopes = sorted (delegated_scopes auth d)

  abbrev from_database : String → Server R CI CN → Option String
  from_database for_service s =
      get_internal_token_key d for_service scopes
        (minimum_expiration config now d auth.minimum_lifetime) s.world.db

  -- The token is the cached one, with data in Redis that has none but the scopes of the query and of
  -- the request's token; or one that the database found, whose row has exactly these; or a new one,
  -- a child of the request's token with exactly these scopes, which it does not outlive.
  abbrev pub IsDelegated : String → Server R CI CN → Server R CI CN → Token → ℕ → Type 0
  IsDelegated for_service s t made later =
      ((CI.get s.internal_tokens (internal_key d for_service scopes) ≡ some made)
        × ((c : TokenData) × (get_data R now made s.world ≡ some c)
            × ((scope : String)
                → contains c.scopes scope ≡ true
                → (contains auth.delegate_scopes scope && contains d.scopes scope) ≡ true)
            × IsLasting now auth.minimum_lifetime c.created c.expires))
      ⊎ (IsReused R L config now drawn d context.ip_address auth.minimum_lifetime
            (from_database for_service s) s.world t.world made
          × ((key : String)
              → from_database for_service s ≡ some key
              → (row : TokenRow) × (find (has_key key) s.world.db.tokens ≡ some row)
                × (row.scopes ≡ join_scopes scopes)))
      ⊎ IsChild R L config now drawn d context.ip_address auth.minimum_lifetime internal scopes
          (some for_service) t.world made later

  cached-scopes :
      (made : Token) (w : World R)
      → is_token_valid R now (some made) auth.minimum_lifetime (some scopes) w ≡ true
      → (c : TokenData) × (get_data R now made w ≡ some c)
        × ((scope : String)
            → contains c.scopes scope ≡ true
            → (contains auth.delegate_scopes scope && contains d.scopes scope) ≡ true)
        × IsLasting now auth.minimum_lifetime c.created c.expires
  cached-scopes made w h =
      let (c, there, inside, lasting) =
        (is_token_valid-IsLasting R now made auth.minimum_lifetime (some scopes) w).0 h in
      (
        c,
        there,
        λ scope held.
            sym (contains-delegated_scopes auth d scope)
            ∙ contains-is_subset c.scopes scopes scope inside held,
        lasting,
      )

  checked-IsDelegated :
      (for_service : String) (s t : Server R CI CN) (made : Token) (later : ℕ)
      → checked_internal_token R config now drawn d context.ip_address auth.minimum_lifetime CI
          for_service
          (delegated_scopes auth d)
          (record { world = s.world; cache = s.internal_tokens })
        ≡ (ok made, record { world = t.world; cache = t.internal_tokens })
      → now ≤ later
      → d.token.key ≢ ""
      → (valid_username d.username ≡ true) × IsDelegated for_service s t made later
  unfolding checked_internal_token validate_username
  checked-IsDelegated for_service s t made later h le text =
      let before : Process R CI = record { world = s.world; cache = s.internal_tokens } in
      let after : Process R CI = record { world = t.world; cache = t.internal_tokens } in
      let allowed = validate_scopes config (delegated_scopes auth d) (some d) in
      let named = validate_username d.username in
      let (granted, checked) = lift->>-eq-ok allowed _ before after made h in
      let (valid, got) = lift->>-eq-ok named _ before after made checked in
      (
        ground arith,
        elim (get_internal_token_lem R L config now drawn d context.ip_address auth.minimum_lifetime
            CI for_service scopes before after made later got le text) [
              | inl (cached, lasts, same) ↦ inl (cached, cached-scopes made s.world lasts)
              | inr (told, inl reused) ↦ inr (
                  inl (reused, λ key found. key-scopes d for_service scopes _ s.world.db key found))
              | inr (told, inr child) ↦ inr (inr child)
            ],
      )

  -- What `build_delegated_token` answers for the service of a query, if the query does not ask for a
  -- notebook token: always a token, made for a valid username, for the scopes that both the query and
  -- the token of the request have. It is the cached token, whose data in Redis has no other scopes
  -- and lasts long enough; or one that the database found, whose row has exactly these scopes, and
  -- that Redis has; or a new child of the token of the request with exactly these scopes, stored in
  -- Redis and in the database, which it does not outlive. This supposes that the Redis storage meets
  -- its assumptions and that the key of the request's token is not empty.
  pub build_delegated_token-IsDelegated :
      (for_service : String) (s t : Server R CI CN) (answer : Option String) (later : ℕ)
      → auth.notebook ≡ false
      → auth.delegate_to ≡ some for_service
      → for_service ≢ ""
      → build_delegated_token R CI CN config now drawn decode user_email context auth d s
        ≡ (ok answer, t)
      → now ≤ later
      → d.token.key ≢ ""
      → (made : Token) × (answer ≡ some (token_to_str made))
        × (valid_username d.username ≡ true)
        × ((scope : String)
            → contains scopes scope
              ≡ (contains auth.delegate_scopes scope && contains d.scopes scope))
        × IsDelegated for_service s t made later
  unfolding build_delegated_token delegate
  build_delegated_token-IsDelegated for_service s t answer later internal_only asked named h le
        key =
      let call =
        checked_internal_token R config now drawn d context.ip_address auth.minimum_lifetime CI
          for_service (delegated_scopes auth d) in
      let given = ≢→==_false for_service "" named in
      let passed_on : build_delegated_token R CI CN config now drawn decode user_email context auth
            d s
          ≡ delegate R CI CN config now drawn decode user_email context auth d (some for_service)
              s =
        ap
          (λ b.
            (if b
                then as_text R CI CN config now drawn decode user_email context (
                    with_notebook R CI CN (
                      checked_notebook_token R config now drawn d context.ip_address
                        auth.minimum_lifetime CN))
                else delegate R CI CN config now drawn decode user_email context auth d
                    auth.delegate_to)
              s)
          internal_only
        ∙ ap (λ o. delegate R CI CN config now drawn decode user_email context auth d o s) asked in
      let (made, is, answered) =
        as_text-eq_ok R CI CN config now drawn decode user_email context
          (with_internal R CI CN call) s t answer (rw given at (sym passed_on ∙ h)) in
      let inside = with_internal-eq_ok R CI CN call s t made is in
      let (valid, delegated) = checked-IsDelegated for_service s t made later inside le key in
      (made, answered, valid, contains-delegated_scopes auth d, delegated)
