-- ===== src/PodIndex.antt =====
-- Looking pods up by their controller: PodControllerIndexKey, the index function of
-- AddPodControllerIndexer, and FilterPodsByOwner (pkg/controller/controller_utils.go).
pub mod Lookup
use xstatefulset.Base.{
  Bool, true, false, Option, none, some, List, [], ◌∷◌, ◌++◌, Text, if◌then◌else◌,
}
use xstatefulset.Api.{Error, message, Result, ok, err, ObjectMeta, OwnerReference, Pod}

unfoldable pub pod_controller_index_key : Text → Option OwnerReference → Text
pod_controller_index_key namespace none = namespace
pod_controller_index_key namespace (some ref) =
    namespace ++ (b'/' ∷ (ref.kind ++ (b'/' ∷ (ref.name ++ (b'/' ∷ ref.uid)))))

-- The keys under which the indexer keeps a pod.
unfoldable pub pod_index_keys : (ObjectMeta → Option OwnerReference) → Pod → List Text
pod_index_keys get_controller_of pod =
    pod_controller_index_key pod.meta.namespace (get_controller_of pod.meta) ∷ []

abbrev pub is_empty : Text → Bool
is_empty [] = true
is_empty (_ ∷ _) = false

-- The reference that names the owner: kind, name and UID.
abbrev pub owner_key_ref : ObjectMeta → Text → OwnerReference
owner_key_ref owner kind = record {
  api_version = [];
  kind = kind;
  name = owner.name;
  uid = owner.uid;
  controller = none;
  block_owner_deletion = none;
}

module _ (by_index : Text → Result (List Pod)) where
  unfoldable pub look_up : List Text → Result (List Pod)
  look_up [] = ok []
  look_up (key ∷ keys) = elim (by_index key) [
    | err e ↦ err e
    | ok pods ↦ elim (look_up keys) [ err e ↦ err e | ok more ↦ ok (pods ++ more) ]
  ]

  unfoldable pub filter_pods_by_owner : ObjectMeta → Text → Bool → Result (List Pod)
  unfolding look_up
  filter_pods_by_owner owner kind include_orphaned =
      let owned = pod_controller_index_key owner.namespace (some (owner_key_ref owner kind)) in
      let orphaned =
        if include_orphaned then pod_controller_index_key owner.namespace none ∷ [] else [] in
      if is_empty owner.namespace
      then err message
      else if is_empty owner.name
      then err message
      else if is_empty owner.uid
      then err message
      else if is_empty kind
      then err message
      else look_up (owned ∷ orphaned)
