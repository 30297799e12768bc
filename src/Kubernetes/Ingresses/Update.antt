-- ===== src/Kubernetes/Ingresses/Update.antt =====
-- What `KubernetesIngressService.update` of src/gafaelfawr/services/kubernetes.py leaves in the
-- cluster.
use mathlib.Core.Path.{subst}
use gafaelfawr.Prelude.{
  ℕ, String, ◌≡◌, refl, ap, ◌∙◌, ==→≡, inl, inr, true, false, Option, none, some, Eq, ◌==◌, nat_eq,
  option_eq, arith, Bool-cases, ==_refl,
}
use gafaelfawr.Prelude.Result.{Result, ok, err}
use gafaelfawr.Prelude.Exec.{continue-eq_ok}
use gafaelfawr.Prelude.Dict.{
  Dict, IsDict, SameEntries, get, same_dict, update-IsDict, same_dict_refl, same_dict-SameEntries,
}
use gafaelfawr.Tokens.{Config}
use gafaelfawr.Kubernetes.{ResourceStatus, created, updated, status_of}
use gafaelfawr.Kubernetes.Annotations.{
  Params, is_anonymous, annotations_for, build_annotations, build_anonymous_annotations,
}
use gafaelfawr.Kubernetes.Annotations.Guarded.{auth_url_key, auth_url_of, annotations_for-auth_url}
use gafaelfawr.Kubernetes.Ingresses.{
  GafaelfawrIngress, KubernetesIngress, IngressApi, same_labels, ingress_needs_update, add_owner,
  build_kubernetes_ingress, found_ingress, get_ingress, written_as, create_ingress, replace_ingress,
  update_ingress, update_valid, update_checked, update_for, validate_ingress_scopes,
}

abbrev pub AreLabels : Option Dict → Type 0
AreLabels none = Unit
AreLabels (some labels) = IsDict labels

same_labels_refl : (labels : Option Dict) → AreLabels labels → same_labels labels labels ≡ true
same_labels_refl none h = refl
same_labels_refl (some labels) h = same_dict_refl labels h

abbrev pub SameLabels : Option Dict → Option Dict → Type 0
SameLabels none none = Unit
SameLabels none (some e) = ⊥
SameLabels (some d) none = ⊥
SameLabels (some d) (some e) = SameEntries d e

same_labels-SameLabels :
    (labels others : Option Dict) → same_labels labels others ≡ true → SameLabels labels others
same_labels-SameLabels none none h = tt
same_labels-SameLabels none (some e) h = absurd (ground arith)
same_labels-SameLabels (some d) none h = absurd (ground arith)
same_labels-SameLabels (some d) (some e) h = same_dict-SameEntries d e h

module _ (Rules Tls : Type 0) ⦃rules_eq : Eq Rules⦄ ⦃tls_eq : Eq Tls⦄ where
  -- The API gives back the ingress that it was told to write.
  pub record IsFaithful (A : IngressApi Rules Tls) : Type 0 where
    pub read-create :
        (s t : A.State) (namespace : String) (i : KubernetesIngress Rules Tls)
        → A.create s namespace i ≡ ok t
        → A.read t namespace i.name ≡ ok i
    pub read-replace :
        (s t : A.State) (namespace name : String) (i : KubernetesIngress Rules Tls)
        → A.replace s namespace name i ≡ ok t
        → A.read t namespace name ≡ ok i

  module _ (urlencode : Params → String) (A : IngressApi Rules Tls) (F : IsFaithful A)
      (config : Config) (parent : GafaelfawrIngress Rules Tls) (proper : IsDict parent.annotations)
      (labelled : AreLabels parent.labels) where
    abbrev new : KubernetesIngress Rules Tls
    new = build_kubernetes_ingress Rules Tls urlencode A config parent

    annotations-IsDict : IsDict new.annotations
    unfolding build_kubernetes_ingress annotations_for build_annotations build_anonymous_annotations
    annotations-IsDict = elim (Bool-cases (is_anonymous parent.config.scopes)) [
      | inl anyone ↦ rw anyone (update-IsDict parent.annotations _ proper)
      | inr closed ↦ rw closed (update-IsDict parent.annotations _ proper)
    ]

    owned : ingress_needs_update Rules Tls (add_owner Rules Tls parent new) new ≡ false
    unfolding ingress_needs_update add_owner build_kubernetes_ingress
    owned = ground (
      arith,
      same_dict_refl new.annotations annotations-IsDict,
      same_labels_refl parent.labels labelled,
      ==_refl parent.rules,
      ==_refl parent.tls,
    )

    -- The cluster has an ingress that needs no update.
    abbrev IsFresh : A.State → Type 0
    IsFresh t =
        (i : KubernetesIngress Rules Tls) × (A.read t parent.metadata.namespace parent.name ≡ ok i)
        × (ingress_needs_update Rules Tls i new ≡ false)

    found_some :
        (r : Result ℕ (KubernetesIngress Rules Tls)) (old : KubernetesIngress Rules Tls)
        → found_ingress Rules Tls urlencode A config r ≡ ok (some old)
        → r ≡ ok old
    unfolding found_ingress
    found_some (ok i) old h = ground arith
    found_some (err status) old h = elim (Bool-cases (status == 404)) [
      | inl missing ↦ absurd (ground arith)
      | inr other ↦ absurd (ground arith)
    ]

    written_ok :
        (status : ResourceStatus) (r : Result ℕ A.State) (s t : A.State) (q : ResourceStatus)
        → written_as Rules Tls urlencode A config status r s ≡ (ok q, t)
        → r ≡ ok t
    unfolding written_as
    written_ok status (ok u) s t q h = ap ok (λ i. (h i).1)
    written_ok status (err code) s t q h = absurd (ground arith)

    written_as-IsFresh_created :
        (s t : A.State) (status : ResourceStatus)
        → written_as Rules Tls urlencode A config
            (status_of parent.metadata created)
            (A.create s parent.metadata.namespace (add_owner Rules Tls parent new))
            s
          ≡ (ok status, t)
        → IsFresh t
    unfolding add_owner build_kubernetes_ingress
    written_as-IsFresh_created s t status h =
        let wrote =
          written_ok (status_of parent.metadata created)
            (A.create s parent.metadata.namespace (add_owner Rules Tls parent new)) s t status h in
        (
          add_owner Rules Tls parent new,
          F.read-create s t parent.metadata.namespace (add_owner Rules Tls parent new) wrote,
          owned,
        )

    written_as-IsFresh_replaced :
        (s t : A.State) (status : ResourceStatus)
        → written_as Rules Tls urlencode A config
            (status_of parent.metadata updated)
            (A.replace s parent.metadata.namespace parent.name (add_owner Rules Tls parent new))
            s
          ≡ (ok status, t)
        → IsFresh t
    unfolding add_owner build_kubernetes_ingress
    written_as-IsFresh_replaced s t status h =
        let wrote =
          written_ok (status_of parent.metadata updated)
            (A.replace s parent.metadata.namespace parent.name (add_owner Rules Tls parent new)) s t
            status h in
        (
          add_owner Rules Tls parent new,
          F.read-replace s t parent.metadata.namespace parent.name (add_owner Rules Tls parent new)
              wrote,
          owned,
        )

    update_ingress-IsFresh :
        (old : Option (KubernetesIngress Rules Tls)) (s t : A.State) (r : Option ResourceStatus)
        → found_ingress Rules Tls urlencode A config
            (A.read s parent.metadata.namespace parent.name)
          ≡ ok old
        → update_ingress Rules Tls urlencode A config old new parent s ≡ (ok r, t)
        → IsFresh t
    unfolding update_ingress create_ingress replace_ingress build_kubernetes_ingress
    update_ingress-IsFresh none s t r found h =
        let wrote = A.create s parent.metadata.namespace (add_owner Rules Tls parent new) in
        let (status, is, rest) =
          continue-eq_ok
            (written_as Rules Tls urlencode A config (status_of parent.metadata created) wrote s).0
            _
            (written_as Rules Tls urlencode A config (status_of parent.metadata created) wrote s).1
            t r h in
        written_as-IsFresh_created s t status (λ i. (is i, (rest i).1))
    update_ingress-IsFresh (some old) s t r found h =
        elim (Bool-cases (ingress_needs_update Rules Tls old new)) [
          | inl stale ↦
              let wrote =
                A.replace s parent.metadata.namespace parent.name
                  (add_owner Rules Tls parent new) in
              let (status, is, rest) =
                continue-eq_ok
                  (written_as Rules Tls urlencode A config (status_of parent.metadata updated) wrote
                    s).0
                  _
                  (written_as Rules Tls urlencode A config (status_of parent.metadata updated) wrote
                    s).1
                  t r (rw stale at h) in
              written_as-IsFresh_replaced s t status (λ i. (is i, (rest i).1))
          | inr fresh ↦
              let same : s ≡ t = λ i. ((rw fresh at h) i).1 in
              subst IsFresh same (old, found_some _ old found, fresh)
        ]

    second :
        (t : A.State) (i : KubernetesIngress Rules Tls)
        → A.read t parent.metadata.namespace parent.name ≡ ok i
        → ingress_needs_update Rules Tls i new ≡ false
        → update_valid Rules Tls urlencode A config parent t ≡ (ok none, t)
    unfolding update_valid get_ingress found_ingress update_ingress
    second t i has fresh = rw has (rw fresh refl)

    -- The ingress has the annotations that are built for the parent, with the URL that NGINX asks, and
    -- the parent's labels, rules and TLS section.
    abbrev pub Agrees : KubernetesIngress Rules Tls → Type 0
    Agrees i =
        SameEntries i.annotations (annotations_for urlencode parent.config parent.annotations)
        × (get i.annotations auth_url_key ≡ some (auth_url_of urlencode parent.config))
        × SameLabels i.labels parent.labels
        × (i.rules ≡ parent.rules)
        × (i.tls ≡ parent.tls)

    fresh-Agrees :
        (i : KubernetesIngress Rules Tls) → ingress_needs_update Rules Tls i new ≡ false → Agrees i
    unfolding ingress_needs_update build_kubernetes_ingress
    fresh-Agrees i h =
        let annotations : same_dict i.annotations new.annotations ≡ true = ground arith in
        let entries = same_dict-SameEntries i.annotations new.annotations annotations in
        (
          entries,
          entries auth_url_key
              ∙ annotations_for-auth_url urlencode parent.config parent.annotations,
          same_labels-SameLabels i.labels parent.labels (ground arith),
          ==→≡ i.rules parent.rules (ground arith),
          ==→≡ i.tls parent.tls (ground arith),
        )

    -- The cluster has an ingress under this name that agrees.
    abbrev pub IsCurrent : A.State → Type 0
    IsCurrent t =
        (i : KubernetesIngress Rules Tls) × (A.read t parent.metadata.namespace parent.name ≡ ok i)
        × Agrees i

    -- When the operator's `update` for an ingress whose scopes are known ends without an exception,
    -- the cluster has an ingress of this name that has, under every key, the annotation that is built
    -- for the parent, with the URL of the authorization handler for its configuration, and the
    -- parent's labels, rules and TLS section; and a second `update` changes nothing and asks for no
    -- new status. This supposes that the API gives back what it was told to write, and that no key
    -- stands twice in the annotations and in the labels of the template.
    pub update_for_settles :
        (s t : A.State) (r : Option ResourceStatus)
        → validate_ingress_scopes config parent.config.scopes ≡ ok tt
        → update_for Rules Tls urlencode A config parent s ≡ (ok r, t)
        → IsCurrent t × (update_for Rules Tls urlencode A config parent t ≡ (ok none, t))
    unfolding update_for update_checked update_valid get_ingress
    update_for_settles s t r valid h =
        let found =
          found_ingress Rules Tls urlencode A config
            (A.read s parent.metadata.namespace parent.name) in
        let (old, is, rest) = continue-eq_ok found _ s t r (rw valid at h) in
        let (i, has, fresh) = update_ingress-IsFresh old s t r is rest in
        ((i, has, fresh-Agrees i fresh), rw valid (second t i has fresh))
