-- ===== src/Login/Accepted.antt =====
-- What a login of src/gafaelfawr/handlers/login.py that gives a browser a token has checked.
use mathlib.Core.Path.{subst}
use gafaelfawr.Prelude.{
  ℕ, ◌≤◌, String, ◌≡◌, refl, ap, sym, ◌∙◌, true, Option, none, some, List, arith, string_eq,
  option_eq, if◌then◌else◌,
}
use gafaelfawr.Prelude.Result.{Result, ok, err}
use gafaelfawr.Prelude.Exec.{continue-eq_ok, lift->>-eq-ok}
use gafaelfawr.Errors.{Error}
use gafaelfawr.Credential.{Token}
use gafaelfawr.Models.{TokenData, Metadata}
use gafaelfawr.Usernames.{valid_username}
use gafaelfawr.Admins.{AdminDatabase}
use gafaelfawr.Storage.Redis.{Storage, IsLawful, is_live}
use gafaelfawr.Storage.World.{World, Action, get_data, transaction, close, on_wire, lifetime_of}
use gafaelfawr.Tokens.{Config, validate_username}
use gafaelfawr.Tokens.Create.{store_new, creation, session_data, create_session_token}
use gafaelfawr.Tokens.Create.Outcome.{store_new_ok}
use gafaelfawr.Tokens.Create.Stored.{store_new-get_data}
use gafaelfawr.Userinfo.{Sources, InfoConfig, groups_or_empty, get_scopes}
use gafaelfawr.Login.Providers.{Provider, TokenUserInfo}
use gafaelfawr.Login.{
  LoginConfig, Answer, redirect, LoginWorld, logged_in_as, login_scopes, token_with,
  construct_token, log_in,
}

module _ (R : Storage TokenData) where
  close-eq_ok :
      {A : Type 0} (r : Result Error A) (w t u : World R) (a : A)
      → close R w.db r t ≡ (ok a, u)
      → (r ≡ ok a) × (t ≡ u)
  close-eq_ok (ok b) w t u a h = ground arith
  close-eq_ok (err e) w t u a h = absurd (ground arith)

  pub transaction-eq_ok :
      {A : Type 0} (m : Action R A) (w t : World R) (a : A)
      → transaction R m w ≡ (ok a, t)
      → m w ≡ (ok a, t)
  unfolding transaction
  transaction-eq_ok m w t a h =
      let (r, u) = m w in let (is, same) = close-eq_ok r w u t a h in λ i. (is i, same i)

  module _ (L : IsLawful R) (config : Config) (now : ℕ) (drawn : Token) where
    -- A token of a session is made for a valid username, and Redis has its data for its lifetime.
    abbrev pub IsSession : String → Metadata → List String → World R → Type 0
    IsSession username metadata scopes t =
        let d = session_data R config now drawn username metadata scopes in
        (valid_username username ≡ true)
        × ((later : ℕ)
            → now ≤ later
            → get_data R later drawn t
              ≡ (if is_live now (lifetime_of now d.expires) later then some (on_wire d) else none))

    create_session_token-IsSession :
        (username : String) (metadata : Metadata) (scopes : List String) (ip_address : String)
        (w t : World R) (made : Token)
        → transaction R
            (create_session_token R config now drawn username metadata scopes ip_address)
            w
          ≡ (ok made, t)
        → (made ≡ drawn) × IsSession username metadata scopes t
    unfolding create_session_token validate_username
    create_session_token-IsSession username metadata scopes ip_address w t made h =
        let d = session_data R config now drawn username metadata scopes in
        let entry = creation d none none none username (some ip_address) in
        let (valid, stored) =
          lift->>-eq-ok (validate_username username) (store_new R now d none none none entry) w t
            made (transaction-eq_ok _ w t made h) in
        let (is, _, _, _) = store_new_ok R now d none none none entry w t made stored in
        (
          is,
          (
            ground arith,
            λ later le. store_new-get_data R L now d none none none entry w t made later stored le,
          ),
        )

module _ {Q : Type 0} (plus : Q → Q → Q) (S : Sources) (info : InfoConfig Q) (R : Storage TokenData)
    (L : IsLawful R) (provider : Provider) (config : Config) (login : LoginConfig)
    (admins : AdminDatabase) (now : ℕ) (drawn : Token) (ip_address : String) where
  abbrev pub Browser : Type 0
  Browser = LoginWorld plus S info R

  -- The provider has identified a user whose groups give scopes, and the token of the session, with these
  -- scopes, and `admin:token` for an administrator, is the drawn one.
  abbrev pub IsIdentified : String → String → Browser → Browser → Type 0
  IsIdentified code state w t =
      (user_info : TokenUserInfo) × (scopes : List String) × ((provider.create_user_info code state
          w.session).0
        ≡ ok user_info)
      × ((get_scopes plus S info user_info.username user_info.metadata.gid
            (groups_or_empty user_info.metadata.groups) w.sources).0
          ≡ ok (some scopes))
      × IsSession R L config now drawn user_info.username user_info.metadata
          (login_scopes admins user_info.username scopes) t.tokens
      × (t.session ≡ logged_in_as drawn (provider.create_user_info code state w.session).1)

  token_with-eq_ok :
      (user_info : TokenUserInfo) (scopes : Option (List String)) (w t : Browser) (made : Token)
      → token_with plus S info R provider config login admins now drawn ip_address user_info scopes
          w
        ≡ (ok made, t)
      → (granted : List String) × (scopes ≡ some granted)
        × (made ≡ drawn)
        × IsSession R L config now drawn user_info.username user_info.metadata
            (login_scopes admins user_info.username granted)
            t.tokens
        × (t.session ≡ w.session)
  unfolding token_with
  token_with-eq_ok user_info none w t made h = absurd (ground arith)
  token_with-eq_ok user_info (some scopes) w t made h =
      let created : transaction R
            (create_session_token R config now drawn user_info.username user_info.metadata
              (login_scopes admins user_info.username scopes) ip_address)
            w.tokens
          ≡ (ok made, t.tokens) =
        λ i. ((h i).0, (h i).1.tokens) in
      let (is, session) =
        create_session_token-IsSession R L config now drawn user_info.username user_info.metadata
          (login_scopes admins user_info.username scopes) ip_address w.tokens t.tokens made
          created in
      (scopes, refl, is, session, λ i. (sym h i).1.session)

  pub log_in-IsIdentified :
      (code state return_url : String) (w t : Browser) (answer : Answer)
      → log_in plus S info R provider config login admins now drawn ip_address code state return_url
          w
        ≡ (ok answer, t)
      → (answer ≡ redirect return_url) × IsIdentified code state w t
  unfolding log_in construct_token
  log_in-IsIdentified code state return_url w t answer h =
      let (known, after) = provider.create_user_info code state w.session in
      let w1 : Browser = record w { session = after } in
      let (user_info, is_known, h1) = continue-eq_ok known _ w1 t answer h in
      let (made, u) =
        construct_token plus S info R provider config login admins now drawn ip_address user_info
          w1 in
      let (token, is_made, h2) = continue-eq_ok made _ u t answer h1 in
      let (given_scopes, v) =
        get_scopes plus S info user_info.username user_info.metadata.gid
          (groups_or_empty user_info.metadata.groups) w.sources in
      let (scopes, is_given, h3) =
        continue-eq_ok given_scopes _ (record w1 { sources = v }) u token (λ i. (is_made i, u)) in
      let (granted, some_scopes, is_drawn, session, kept) =
        token_with-eq_ok user_info scopes (record w1 { sources = v }) u token h3 in
      (
        ground arith,
        (
          user_info,
          granted,
          is_known,
          is_given ∙ ap ok some_scopes,
          subst
              (IsSession R L config now drawn user_info.username user_info.metadata
                (login_scopes admins user_info.username granted))
              (λ i. (h2 i).1.tokens) session,
          ground arith,
        ),
      )
