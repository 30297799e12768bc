-- ===== src/Kubernetes/Ingresses.antt =====
-- `KubernetesIngressService` of src/gafaelfawr/services/kubernetes.py over `KubernetesIngressStorage` of
-- src/gafaelfawr/storage/kubernetes.py. The rules and the TLS section of an ingress, which are copied from
-- the template, are of any types with an equality.
pub mod Update
use Prim.Native.Char.{Char}
use gafaelfawr.Prelude.{
  ℕ, ◌/◌, String, ◌<>◌, Bool, true, false, not, ◌&&◌, ◌||◌, Option, none, some, List, [], ◌∷◌, ◌++◌,
  is_subset, is_some, Eq, ◌==◌, nat_eq, string_eq, option_eq, if◌then◌else◌,
}
use mathlib.Core.List.{map}
use gafaelfawr.Prelude.Result.{Result, ok, err, guard, ◌>>◌}
use gafaelfawr.Prelude.Exec.{Exec, pure, lift, ◌>>=◌}
use gafaelfawr.Prelude.Text.{char_eq}
use gafaelfawr.Prelude.Dict.{Dict, get, set_item, update, same_dict}
use gafaelfawr.Errors.{Error, invalid_scopes, kubernetes_error, value_error}
use gafaelfawr.Models.{second}
use gafaelfawr.Models.Scopes.{join}
use gafaelfawr.Tokens.{Config}
use gafaelfawr.Headers.Challenges.{AuthType, basic, bearer}
use gafaelfawr.Login.Session.{given}
use gafaelfawr.Login.OpenId.{rstrip_slash}
use gafaelfawr.Kubernetes.{
  ParentMetadata, ResourceStatus, created, updated, failed, status_of, OwnerReference, owner_of,
}
use gafaelfawr.Kubernetes.Annotations.{
  IngressScopes, IngressConfig, Params, scopes_in, annotations_for,
}

-- `_validate_scopes`
unfoldable pub validate_ingress_scopes : Config → IngressScopes → Result Error (Unit {0})
validate_ingress_scopes config scopes =
    guard (is_subset (scopes_in scopes) config.known_scopes) invalid_scopes

abbrev pub same_labels : Option Dict → Option Dict → Bool
same_labels none none = true
same_labels none (some e) = false
same_labels (some d) none = false
same_labels (some d) (some e) = same_dict d e

module _ (Rules Tls : Type 0) ⦃rules_eq : Eq Rules⦄ ⦃tls_eq : Eq Tls⦄ where
  -- `GafaelfawrIngress`, with its template.
  pub record GafaelfawrIngress : Type 0 where
    pub metadata : ParentMetadata
    pub config : IngressConfig
    pub name : String
    pub annotations : Dict
    pub labels : Option Dict
    pub rules : Rules
    pub tls : Option Tls

  -- `V1Ingress`; its class is always `nginx`.
  pub record KubernetesIngress : Type 0 where
    pub name : String
    pub namespace : String
    pub annotations : Dict
    pub labels : Option Dict
    pub rules : Rules
    pub tls : Option Tls
    pub owner : Option OwnerReference

  -- The API for ingresses, by namespace and name; an `ApiException` has a status.
  pub record IngressApi : Type 1 where
    pub State : Type 0
    pub read : State → String → String → Result ℕ KubernetesIngress
    pub create : State → String → KubernetesIngress → Result ℕ State
    pub replace : State → String → String → KubernetesIngress → Result ℕ State

  -- `_ingress_needs_update`
  unfoldable pub ingress_needs_update : KubernetesIngress → KubernetesIngress → Bool
  ingress_needs_update old new =
      not (same_dict old.annotations new.annotations)
      || not (same_labels old.labels new.labels)
      || not (old.rules == new.rules)
      || not (old.tls == new.tls)

  -- `_add_owner`
  unfoldable pub add_owner : GafaelfawrIngress → KubernetesIngress → KubernetesIngress
  add_owner parent ingress = record ingress {
    owner = some (owner_of "GafaelfawrIngress" parent.metadata);
  }

  module _ (urlencode : Params → String) (A : IngressApi) (config : Config) where
    abbrev pub IngressAction : Type 0 → Type 0
    IngressAction B = Exec A.State Error B

    -- `_build_kubernetes_ingress`
    unfoldable pub build_kubernetes_ingress : GafaelfawrIngress → KubernetesIngress
    build_kubernetes_ingress parent = record {
      name = parent.name;
      namespace = parent.metadata.namespace;
      annotations = annotations_for urlencode parent.config parent.annotations;
      labels = parent.labels;
      rules = parent.rules;
      tls = parent.tls;
      owner = none;
    }

    -- `get_ingress`, of what the API has answered.
    unfoldable pub found_ingress :
        Result ℕ KubernetesIngress → Result Error (Option KubernetesIngress)
    found_ingress (ok ingress) = ok (some ingress)
    found_ingress (err status) = if status == 404 then ok none else err kubernetes_error

    unfoldable pub get_ingress : String → String → IngressAction (Option KubernetesIngress)
    get_ingress name namespace s = (found_ingress (A.read s namespace name), s)

    unfoldable pub written_as : ResourceStatus → Result ℕ A.State → IngressAction ResourceStatus
    written_as status (ok t) s = (ok status, t)
    written_as status (err code) s = (err kubernetes_error, s)

    unfoldable pub create_ingress :
        KubernetesIngress → GafaelfawrIngress → IngressAction ResourceStatus
    create_ingress ingress parent s =
        written_as (status_of parent.metadata created)
          (A.create s ingress.namespace (add_owner parent ingress)) s

    unfoldable pub replace_ingress :
        KubernetesIngress → GafaelfawrIngress → IngressAction ResourceStatus
    replace_ingress ingress parent s =
        written_as (status_of parent.metadata updated)
          (A.replace s ingress.namespace ingress.name (add_owner parent ingress)) s

    -- `_update_ingress`
    unfoldable pub update_ingress :
        Option KubernetesIngress
        → KubernetesIngress
        → GafaelfawrIngress
        → IngressAction (Option ResourceStatus)
    update_ingress none new parent = do status ← create_ingress new parent; pure (some status)
    update_ingress (some old) new parent =
        if ingress_needs_update old new
        then (do status ← replace_ingress new parent; pure (some status))
        else pure none

    unfoldable pub update_valid : GafaelfawrIngress → IngressAction (Option ResourceStatus)
    update_valid parent = do
      old ← get_ingress parent.name parent.metadata.namespace
      update_ingress old (build_kubernetes_ingress parent) parent

    unfoldable pub update_checked :
        Result Error (Unit {0}) → GafaelfawrIngress → IngressAction (Option ResourceStatus)
    update_checked (ok u) parent = update_valid parent
    update_checked (err e) parent = pure (some (status_of parent.metadata failed))

    -- `KubernetesIngressService.update`
    unfoldable pub update_for : GafaelfawrIngress → IngressAction (Option ResourceStatus)
    update_for parent = update_checked (validate_ingress_scopes config parent.config.scopes) parent
