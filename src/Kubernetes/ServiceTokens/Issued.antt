-- ===== src/Kubernetes/ServiceTokens/Issued.antt =====
-- The tokens that the operator of src/gafaelfawr/services/kubernetes.py makes.
use mathlib.Core.Option
use gafaelfawr.Prelude.{
  ℕ, ◌≡◌, ap, sym, ◌∙◌, inl, inr, true, ◌&&◌, Option, none, some, nat_eq, string_eq, is_subset, leb,
  arith, if◌then◌else◌, Bool-cases,
}
use Prim.Native.String.{count}
use gafaelfawr.Prelude.Result.{ok}
use gafaelfawr.Prelude.Exec.{continue-eq_ok, lift->>-eq-ok}
use gafaelfawr.Credential.{Token}
use gafaelfawr.Models.{TokenData, AdminTokenRequest, service, type_eq, whole_seconds}
use gafaelfawr.Models.Scopes.{sorted}
use gafaelfawr.Usernames.{is_bot_user}
use gafaelfawr.Storage.Redis.{Storage, IsLawful, is_live}
use gafaelfawr.Storage.World.{World, get_data, on_wire, lifetime_of}
use gafaelfawr.Tokens.{Config}
use gafaelfawr.Tokens.Checks.{check_admin_request}
use gafaelfawr.Tokens.Create.{store_new, creation, admin_data, create_token_from_admin_request}
use gafaelfawr.Tokens.Create.Granted.{create_token_from_admin_request_grants}
use gafaelfawr.Tokens.Create.Stored.{store_new-get_data}
use gafaelfawr.Login.Accepted.{transaction-eq_ok}
use gafaelfawr.Kubernetes.ServiceTokens.{
  GafaelfawrServiceToken, SecretApi, Base64, internal_token, is_username, service_request,
  OperatorWorld, create_token,
}

module _ (R : Storage TokenData) (L : IsLawful R) (K : SecretApi) (base64 : Base64)
    (config : Config) (now : ℕ) (internal drawn : Token) (parent : GafaelfawrServiceToken) where
  abbrev Operator : Type 0
  Operator = OperatorWorld R K

  -- The drawn token has been made for the service, a bot user, with known scopes, and does not expire.
  abbrev pub IsIssued : World R → Type 0
  IsIssued v =
      (is_bot_user parent.service ≡ true)
      × (is_subset parent.scopes config.known_scopes ≡ true)
      × ((d : TokenData) × (get_data R now drawn v ≡ some d)
          × (d.username ≡ parent.service)
          × (d.scopes ≡ sorted parent.scopes)
          × (d.expires ≡ none))

  service_request-eq_ok :
      (request : AdminTokenRequest)
      → service_request parent ≡ ok request
      → (request.username ≡ parent.service)
        × (request.token_type ≡ service)
        × (request.scopes ≡ parent.scopes)
        × (request.expires ≡ none)
  unfolding service_request
  service_request-eq_ok request h =
      elim (Bool-cases (is_username parent.service && leb (count parent.service) 64)) [
        | inl fits ↦ ground arith
        | inr bad ↦ absurd (ground arith)
      ]

  created_data :
      (request : AdminTokenRequest) (v u : World R) (made : Token)
      → create_token_from_admin_request R config now drawn request
          (internal_token now internal)
          none
          v
        ≡ (ok made, u)
      → request.expires ≡ none
      → get_data R now drawn u ≡ some (on_wire (admin_data R config now drawn request))
  unfolding create_token_from_admin_request
  created_data request v u made h forever =
      let d = admin_data R config now drawn request in
      let entry =
        creation d request.token_name none none (internal_token now internal).username none in
      let (checked, stored) =
        lift->>-eq-ok (check_admin_request config now request (internal_token now internal))
          (store_new R now d request.token_name none none entry) v u made h in
      let lasting =
        store_new-get_data R L now d request.token_name none none entry v u made now stored
          (omega arith) in
      lasting
      ∙ ap
          (λ (o : Option ℕ).
            if is_live now (lifetime_of now (Option.map whole_seconds o)) now
            then some (on_wire d)
            else none)
          forever

  pub create_token-IsIssued :
      (w t : Operator) (made : Token)
      → create_token R K base64 config now internal drawn parent w ≡ (ok made, t)
      → (made ≡ drawn) × IsIssued t.tokens × (t.cluster ≡ w.cluster)
  unfolding create_token
  create_token-IsIssued w t made h =
      let (request, is, h1) = continue-eq_ok (service_request parent) _ w t made h in
      let (named, typed, scoped, forever) = service_request-eq_ok request is in
      let stored =
        transaction-eq_ok R
          (create_token_from_admin_request R config now drawn request (internal_token now internal)
            none)
          w.tokens t.tokens made (λ i. ((h1 i).0, (h1 i).1.tokens)) in
      let (is_drawn, admin, valid, known, long, bot) =
        create_token_from_admin_request_grants R config now drawn request
          (internal_token now internal) none w.tokens t.tokens made stored in
      let d = on_wire (admin_data R config now drawn request) in
      let is_bot : is_bot_user request.username ≡ true = elim bot [
        | inl other ↦ absurd (other typed)
        | inr yes_bot ↦ yes_bot
      ] in
      (
        is_drawn,
        (
          ap is_bot_user (sym named) ∙ is_bot,
          ap (λ scopes. is_subset scopes config.known_scopes) (sym scoped) ∙ known,
          (
            d,
            created_data request w.tokens t.tokens made stored forever,
            named,
            ap sorted scoped,
            ap (λ o. Option.map whole_seconds (Option.map whole_seconds o)) forever,
          ),
        ),
        λ i. (sym h1 i).1.cluster,
      )
