-- ===== src/Controller/Handlers.antt =====
-- addPod, updatePod and deletePod.
use xstatefulset.Base.{
  ◌+◌, ◌*◌, Bool, true, false, not, ◌&&◌, ◌||◌, Option, none, some, Text, text_eq, if◌then◌else◌,
  all, lookup, ltb,
}
use xstatefulset.Api.{Labels, OwnerReference, Pod, XStatefulSet}
use xstatefulset.PodUtil.{is_pod_ready, is_terminating, nanos_per_second}
use xstatefulset.Controller.{
  Cluster, ControllerState, get_stateful_sets_for_pod, resolve_controller_ref, enqueue_stateful_set,
  enqueue_ss_after, enqueue_all,
}

-- reflect.DeepEqual on texts, maps and references; a nil map is not an empty one.
abbrev pub same_text : Option Text → Option Text → Bool
same_text none none = true
same_text (some a) (some b) = text_eq a b
same_text _ _ = false

abbrev pub within : Labels → Labels → Bool
within a b = all (λ (e : Text × Text). same_text (lookup e.0 a) (lookup e.0 b)) a

unfoldable pub same_labels : Option Labels → Option Labels → Bool
same_labels none none = true
same_labels (some a) (some b) = within a b && within b a
same_labels _ _ = false

abbrev pub same_flag : Option Bool → Option Bool → Bool
same_flag none none = true
same_flag (some true) (some true) = true
same_flag (some false) (some false) = true
same_flag _ _ = false

unfoldable pub same_ref : Option OwnerReference → Option OwnerReference → Bool
same_ref none none = true
same_ref (some a) (some b) =
    text_eq a.api_version b.api_version
    && text_eq a.kind b.kind
    && text_eq a.name b.name
    && text_eq a.uid b.uid
    && same_flag a.controller b.controller
    && same_flag a.block_owner_deletion b.block_owner_deletion
same_ref _ _ = false

-- What a delete event carries: a pod, a tombstone, or something else.
pub data Deleted : Type 0 where
  a_pod : Pod → Deleted
  a_tombstone : Option Pod → Deleted
  unknown_object : Deleted

module _ {W : Type 0} (k : Cluster W) where
  abbrev pub controller_of : Pod → Option OwnerReference
  controller_of pod = k.pods.get_controller_of pod.meta

  -- The set of a reference is enqueued, if there is one.
  unfoldable pub enqueue_owner :
      Text → Option OwnerReference → ControllerState W → ControllerState W
  unfolding resolve_controller_ref enqueue_stateful_set
  enqueue_owner namespace none st = st
  enqueue_owner namespace (some ref) st =
      elim (resolve_controller_ref k namespace ref st.env.world) [
        | none ↦ st
        | some set ↦ enqueue_stateful_set k set.meta st
      ]

  unfoldable pub delete_live_pod : Pod → ControllerState W → ControllerState W
  unfolding enqueue_owner
  delete_live_pod pod st = enqueue_owner pod.meta.namespace (controller_of pod) st

  unfoldable pub delete_pod : Deleted → ControllerState W → ControllerState W
  unfolding delete_live_pod
  delete_pod (a_pod pod) st = delete_live_pod pod st
  delete_pod (a_tombstone (some pod)) st = delete_live_pod pod st
  delete_pod (a_tombstone none) st = st
  delete_pod unknown_object st = st

  abbrev pub enqueue_matching : Pod → ControllerState W → ControllerState W
  enqueue_matching pod st = enqueue_all k (get_stateful_sets_for_pod k pod st.env.world) st

  unfoldable pub add_pod : Pod → ControllerState W → ControllerState W
  unfolding delete_live_pod
  add_pod pod st = if is_terminating pod then delete_live_pod pod st else elim (controller_of pod) [
    | some ref ↦ enqueue_owner pod.meta.namespace (some ref) st
    | none ↦ enqueue_matching pod st
  ]

  -- A pod that became ready is looked at again once it may be available, with a second to spare.
  abbrev pub enqueue_when_available :
      (old cur : Pod) → XStatefulSet → ControllerState W → ControllerState W
  enqueue_when_available old cur set st =
      if not (is_pod_ready old) && is_pod_ready cur && ltb 0 set.spec.min_ready_seconds
      then enqueue_ss_after k set (set.spec.min_ready_seconds * nanos_per_second + nanos_per_second)
          st
      else st

  unfoldable pub update_owned :
      (old cur : Pod) → OwnerReference → ControllerState W → ControllerState W
  unfolding resolve_controller_ref enqueue_stateful_set enqueue_ss_after
  update_owned old cur ref st =
      elim (resolve_controller_ref k cur.meta.namespace ref st.env.world) [
        | none ↦ st
        | some set ↦ enqueue_when_available old cur set (enqueue_stateful_set k set.meta st)
      ]

  unfoldable pub update_pod : (old cur : Pod) → ControllerState W → ControllerState W
  unfolding enqueue_owner update_owned
  update_pod old cur st =
      let ref_changed = not (same_ref (controller_of cur) (controller_of old)) in
      let label_changed = not (same_labels cur.meta.labels old.meta.labels) in
      let st1 =
        if ref_changed then enqueue_owner old.meta.namespace (controller_of old) st else st in
      if text_eq cur.meta.resource_version old.meta.resource_version
      then st
      else elim (controller_of cur) [
        | some ref ↦ update_owned old cur ref st1
        | none ↦ if label_changed || ref_changed then enqueue_matching cur st1 else st1
      ]
