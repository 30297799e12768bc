-- ===== src/Kubernetes/ServiceTokens/Served.antt =====
-- Which token the secret of a service has after src/gafaelfawr/services/kubernetes.py has seen to
-- it.
use mathlib.Core.Path.{subst}
use gafaelfawr.Prelude.{
  ℕ, String, ◌≡◌, refl, ap, sym, ◌∙◌, ◌⊎◌, inl, inr, Bool, true, false, Option, none, some, ◌==◌,
  nat_eq, string_eq, arith, Bool-cases,
}
use gafaelfawr.Prelude.Result.{Result, ok, err}
use gafaelfawr.Prelude.Exec.{continue, continue-eq_ok, continue-eq_err}
use gafaelfawr.Errors.{Error}
use gafaelfawr.Credential.{Token, token_from_str}
use gafaelfawr.Models.{TokenData, AdminTokenRequest, type_eq}
use gafaelfawr.Storage.Redis.{Storage, IsLawful}
use gafaelfawr.Storage.World.{get_data, transaction}
use gafaelfawr.Tokens.{Config}
use gafaelfawr.Tokens.Create.{create_token_from_admin_request}
use gafaelfawr.Kubernetes.{ResourceStatus, failed, status_of}
use gafaelfawr.Kubernetes.ServiceTokens.{
  GafaelfawrServiceToken, Secret, SecretApi, Base64, is_reported, internal_token, service_request,
  build_secret, found_secret, secret_needs_metadata_update, OperatorWorld, on_tokens, written_as,
  is_value_valid, secret_needs_update, create_token, create_secret, replace_secret,
  update_secret_metadata, write_secret, make_secret, reported, refresh_metadata, refresh, renew,
  update_secret, update_token,
}
use gafaelfawr.Kubernetes.ServiceTokens.Valid.{IsFor, value_valid}
use gafaelfawr.Kubernetes.ServiceTokens.Issued.{IsIssued, create_token-IsIssued}

found_some :
    (r : Result ℕ Secret) (secret : Secret) → found_secret r ≡ ok (some secret) → r ≡ ok secret
unfolding found_secret
found_some (ok other) secret h = ground arith
found_some (err status) secret h = elim (Bool-cases (status == 404)) [
  | inl missing ↦ absurd (ground arith)
  | inr other ↦ absurd (ground arith)
]

module _ (R : Storage TokenData) (L : IsLawful R) (K : SecretApi) (base64 : Base64)
    (config : Config) (now : ℕ) (internal drawn : Token) (parent : GafaelfawrServiceToken) where
  abbrev Operator : Type 0
  Operator = OperatorWorld R K

  -- The API gives back the secret that it was told to write.
  pub record IsFaithful : Type 0 where
    pub read-create :
        (s t : K.State) (namespace name : String) (secret : Secret)
        → K.create s namespace name secret ≡ ok t
        → K.read t namespace name ≡ ok secret
    pub read-replace :
        (s t : K.State) (namespace name : String) (secret : Secret)
        → K.replace s namespace name secret ≡ ok t
        → K.read t namespace name ≡ ok secret

  -- The secret has had a token, whose data in Redis is for the service with its scopes.
  abbrev pub IsValidIn : Operator → Type 0
  IsValidIn w =
      (secret : Secret) × (value text : String) × (token : Token) × (K.read w.cluster
          parent.metadata.namespace parent.metadata.name
        ≡ ok secret)
      × (secret.token ≡ some value)
      × (base64.decode value ≡ some text)
      × (token_from_str text ≡ ok token)
      × IsFor parent (get_data R now token w.tokens)

  -- What `update_token` says and what it leaves.
  abbrev pub IsServed : Operator → Option ResourceStatus → Operator → Type 0
  IsServed w r t =
      ((r ≡ none) × (t.tokens ≡ w.tokens) × IsValidIn w)
      ⊎ ((status : ResourceStatus) × (r ≡ some status)
          × IsIssued R L K base64 config now internal drawn parent t.tokens
          × (K.read t.cluster parent.metadata.namespace parent.metadata.name
              ≡ ok (build_secret base64 parent drawn)))
      ⊎ ((r ≡ some (status_of parent.metadata failed)) × (t.cluster ≡ w.cluster))

  module _ {B : Type 0} (b : B) where
    written_as_tokens :
        (r : Result ℕ K.State) (w : Operator) → (written_as R K b r w).1.tokens ≡ w.tokens
    unfolding written_as
    written_as_tokens (ok cluster) w = refl
    written_as_tokens (err status) w = refl

    written_as_ok :
        (r : Result ℕ K.State) (w t : Operator) (c : B)
        → written_as R K b r w ≡ (ok c, t)
        → (r ≡ ok t.cluster) × (t.tokens ≡ w.tokens)
    unfolding written_as
    written_as_ok (ok cluster) w t c h = (ap ok (λ i. (h i).1.cluster), λ i. (sym h i).1.tokens)
    written_as_ok (err status) w t c h = absurd (ground arith)

    written_as_err :
        (r : Result ℕ K.State) (w t : Operator) (e : Error)
        → written_as R K b r w ≡ (err e, t)
        → t.cluster ≡ w.cluster
    unfolding written_as
    written_as_err (ok cluster) w t e h = absurd (ground arith)
    written_as_err (err status) w t e h = λ i. (sym h i).1.cluster

  refreshed :
      (stale : Bool) (w t : Operator) (r : Option ResourceStatus)
      → refresh_metadata R K base64 config now internal drawn parent stale w ≡ (ok r, t)
      → (r ≡ none) × (t.tokens ≡ w.tokens)
  unfolding refresh_metadata update_secret_metadata
  refreshed false w t r h = (ground arith, λ i. (sym h i).1.tokens)
  refreshed true w t r h = (
    ground arith,
    (λ i. (sym h i).1.tokens)
        ∙ written_as_tokens tt
            (K.patch w.cluster parent.metadata.namespace parent.metadata.name
              parent.metadata.annotations parent.metadata.labels)
            w,
  )

  create_token_cluster :
      (w : Operator)
      → (create_token R K base64 config now internal drawn parent w).1.cluster ≡ w.cluster
  unfolding create_token
  create_token_cluster w = through (service_request parent)
    where
      through :
          (r : Result Error AdminTokenRequest)
          → (continue r
              (λ request. on_tokens R K (
                transaction R (
                  create_token_from_admin_request R config now drawn request
                    (internal_token now internal)
                    none)))
              w).1.cluster
            ≡ w.cluster
      through (ok request) = refl
      through (err e) = refl

  write_secret_err :
      (secret : Option Secret) (w t : Operator) (token : Token) (e : Error)
      → write_secret R K base64 config now internal drawn parent secret token w ≡ (err e, t)
      → t.cluster ≡ w.cluster
  unfolding write_secret create_secret replace_secret
  write_secret_err none w t token e h = written_as_err _ _ w t e h
  write_secret_err (some secret) w t token e h = written_as_err _ _ w t e h

  -- A failure to make or to write the secret leaves the cluster alone.
  unwritten :
      (secret : Option Secret) (w t : Operator) (e : Error)
      → make_secret R K base64 config now internal drawn parent secret w ≡ (err e, t)
      → t.cluster ≡ w.cluster
  unfolding make_secret
  unwritten secret w t e h =
      let (made, u) = create_token R K base64 config now internal drawn parent w in
      elim (continue-eq_err made _ u t e h) [
        | inl (raised, same) ↦ (λ i. (sym same i).cluster) ∙ create_token_cluster w
        | inr (token, is, h1) ↦ write_secret_err secret u t token e h1 ∙ create_token_cluster w
      ]

  module _ (F : IsFaithful) where
    written :
        (secret : Option Secret) (w t : Operator) (token : Token) (status : ResourceStatus)
        → write_secret R K base64 config now internal drawn parent secret token w ≡ (ok status, t)
        → (t.tokens ≡ w.tokens)
          × (K.read t.cluster parent.metadata.namespace parent.metadata.name
              ≡ ok (build_secret base64 parent token))
    unfolding write_secret create_secret replace_secret
    written none w t token status h =
        let (wrote, same) = written_as_ok _ _ w t status h in
        (same, F.read-create w.cluster t.cluster _ _ (build_secret base64 parent token) wrote)
    written (some secret) w t token status h =
        let (wrote, same) = written_as_ok _ _ w t status h in
        (same, F.read-replace w.cluster t.cluster _ _ (build_secret base64 parent token) wrote)

    made :
        (secret : Option Secret) (w t : Operator) (status : ResourceStatus)
        → make_secret R K base64 config now internal drawn parent secret w ≡ (ok status, t)
        → IsIssued R L K base64 config now internal drawn parent t.tokens
          × (K.read t.cluster parent.metadata.namespace parent.metadata.name
              ≡ ok (build_secret base64 parent drawn))
    unfolding make_secret
    made secret w t status h =
        let (first, u) = create_token R K base64 config now internal drawn parent w in
        let (token, is, h1) = continue-eq_ok first _ u t status h in
        let (is_drawn, issued, cluster) =
          create_token-IsIssued R L K base64 config now internal drawn parent w u token
            (λ i. (is i, u)) in
        let (same, reads) = written secret u t token status h1 in
        (
          subst (IsIssued R L K base64 config now internal drawn parent) (sym same) issued,
          reads ∙ ap (λ k. ok (build_secret base64 parent k)) is_drawn,
        )

    reported-IsServed :
        (w u t : Operator) (q : Result Error ResourceStatus) (r : Option ResourceStatus)
        (secret : Option Secret)
        → make_secret R K base64 config now internal drawn parent secret w ≡ (q, u)
        → reported R K base64 config now internal drawn parent q u ≡ (ok r, t)
        → IsServed w r t
    reported-IsServed w u t (ok status) r secret h g =
        let (issued, reads) = made secret w u status h in
        let same : u ≡ t = λ i. (g i).1 in
        inr (
          inl (
            status,
            ground arith,
            subst (λ v. IsIssued R L K base64 config now internal drawn parent v.tokens) same
                issued,
            subst
                (λ (v : Operator).
                  K.read v.cluster parent.metadata.namespace parent.metadata.name
                  ≡ ok (build_secret base64 parent drawn))
                same reads,
          ))
    reported-IsServed w u t (err e) r secret h g = elim (Bool-cases (is_reported e)) [
      | inl shown ↦
          let ended = rw shown at g in
          inr (inr (ground arith, (λ i. (sym ended i).1.cluster) ∙ unwritten secret w u e h))
      | inr raised ↦ absurd (ground arith)
    ]

    update_secret-IsServed :
        (secret : Option Secret) (w t : Operator) (r : Option ResourceStatus)
        → found_secret (K.read w.cluster parent.metadata.namespace parent.metadata.name) ≡ ok secret
        → update_secret R K base64 config now internal drawn parent secret w ≡ (ok r, t)
        → IsServed w r t
    unfolding update_secret secret_needs_update renew refresh
    update_secret-IsServed none w t r found h =
        let (q, u) = make_secret R K base64 config now internal drawn parent none w in
        reported-IsServed w u t q r none refl h
    update_secret-IsServed (some secret) w t r found h =
        elim (Bool-cases
          (is_value_valid R K base64 config now internal drawn parent secret.token w.tokens)) [
            | inl valid ↦
                let kept =
                  refreshed (secret_needs_metadata_update parent secret) w t r (rw valid at h) in
                let (value, text, token, has, decoded, parsed, is_for) =
                  value_valid R K base64 config now internal drawn parent secret.token w.tokens
                    valid in
                inl (
                  kept.0,
                  kept.1,
                  (
                    secret,
                    value,
                    text,
                    token,
                    found_some (K.read w.cluster parent.metadata.namespace parent.metadata.name)
                        secret found,
                    has,
                    decoded,
                    parsed,
                    is_for,
                  ),
                )
            | inr stale ↦
                let (q, u) =
                  make_secret R K base64 config now internal drawn parent (some secret) w in
                reported-IsServed w u t q r (some secret) refl (rw stale at h)
          ]

    -- When the operator's `update` for a service token ends without an exception, one of three
    -- holds. It asks for no new status, the stores of tokens are unchanged, and the secret had a
    -- token whose data in Redis is for this service with its scopes. Or it reports a status, the
    -- secret in the cluster is the one built for the drawn token, the service is a bot user, the
    -- scopes are known, and Redis has data for the drawn token, with this user and these scopes,
    -- sorted, that does not expire. Or it reports a failure, and the cluster is unchanged. This
    -- supposes that the Redis storage meets its assumptions, and that the API gives back what it
    -- was told to write.
    pub update_token-IsServed :
        (w t : Operator) (r : Option ResourceStatus)
        → update_token R K base64 config now internal drawn parent w ≡ (ok r, t)
        → IsServed w r t
    unfolding update_token
    update_token-IsServed w t r h =
        let found =
          found_secret (K.read w.cluster parent.metadata.namespace parent.metadata.name) in
        let (secret, is, rest) = continue-eq_ok found _ w t r h in
        update_secret-IsServed secret w t r is rest
