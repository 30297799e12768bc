-- ===== src/Kubernetes.antt =====
-- The operator's services of src/gafaelfawr/services/kubernetes.py, over the stores of
-- src/gafaelfawr/storage/kubernetes.py and the models of src/gafaelfawr/models/kubernetes.py. The API of
-- the cluster is an interface.
pub mod Annotations
pub mod Ingresses
pub mod ServiceTokens
mod Examples
use gafaelfawr.Prelude.{ℕ, String, not, Option, none, some, filter}
use gafaelfawr.Prelude.Text.{starts_with}
use gafaelfawr.Prelude.Dict.{Dict}

-- `KubernetesMetadata`
pub record ParentMetadata : Type 0 where
  pub name : String
  pub namespace : String
  pub annotations : Option Dict
  pub labels : Option Dict
  pub uid : String
  pub generation : ℕ

-- `_filter_kopf_annotations`
unfoldable pub filter_kopf_annotations : Option Dict → Option Dict
filter_kopf_annotations none = none
filter_kopf_annotations (some annotations) =
    some (filter (λ (key, value). not (starts_with key "kopf.zalando.org/")) annotations)

pub data StatusReason : Type 0 where
  created updated failed : StatusReason

-- `KubernetesResourceStatus` without its message and its time.
pub record ResourceStatus : Type 0 where
  pub generation : ℕ
  pub reason : StatusReason

abbrev pub status_of : ParentMetadata → StatusReason → ResourceStatus
status_of parent reason = record { generation = parent.generation; reason = reason }

-- `V1OwnerReference`; its API version and the two flags are always the same.
pub record OwnerReference : Type 0 where
  pub kind : String
  pub name : String
  pub uid : String

abbrev pub owner_of : String → ParentMetadata → OwnerReference
owner_of kind parent = record { kind = kind; name = parent.name; uid = parent.uid }
