-- ===== src/Api/Meta.antt =====
-- metav1.ObjectMeta, owner references and kinds, the label keys of api/apps/v1/types.go and the
-- two kinds that the controller owns objects under (xstateful_set.go).
use xstatefulset.Base.{ℕ, List, Option, some, Bool, true, Text, codes}

abbrev pub Labels : Type 0
Labels = List (Text × Text)

pub record OwnerReference : Type 0 where
  pub api_version : Text
  pub kind : Text
  pub name : Text
  pub uid : Text
  pub controller : Option Bool
  pub block_owner_deletion : Option Bool

-- `none` for labels is the nil map; `none` for a time is the zero time.
pub record ObjectMeta : Type 0 where
  pub name : Text
  pub namespace : Text
  pub uid : Text
  pub generation : ℕ
  pub resource_version : Text
  pub labels : Option Labels
  pub owner_references : List OwnerReference
  pub deletion_timestamp : Option ℕ
  pub creation_timestamp : Option ℕ

-- A schema.GroupVersionKind, with its group and version as the one string that
-- `GroupVersion().String()` gives.
pub record GroupVersionKind : Type 0 where
  pub group_version : Text
  pub kind : Text

abbrev pub controller_kind : GroupVersionKind
controller_kind = record { group_version = codes "apps.x-k8s.io/v1"; kind = codes "XStatefulSet" }

abbrev pub pod_kind : GroupVersionKind
pod_kind = record { group_version = codes "v1"; kind = codes "Pod" }

abbrev pub stateful_set_revision_label : Text
stateful_set_revision_label = codes "controller-revision-hash"

abbrev pub stateful_set_pod_name_label : Text
stateful_set_pod_name_label = codes "xstatefulset.x-k8s.io/pod-name"

abbrev pub pod_index_label : Text
pod_index_label = codes "apps.x-k8s.io/pod-index"

-- metav1.NewControllerRef: a reference to the owner as controller, blocking its deletion.
abbrev pub new_controller_ref : ObjectMeta → GroupVersionKind → OwnerReference
new_controller_ref owner gvk = record {
  api_version = gvk.group_version;
  kind = gvk.kind;
  name = owner.name;
  uid = owner.uid;
  controller = some true;
  block_owner_deletion = some true;
}
