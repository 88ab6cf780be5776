-- ===== src/Controller.antt =====
-- The controller around the control loop (pkg/controller/xstatefulset/xstateful_set.go): pod events
-- and keys go into the work queue, and a worker syncs the sets of the keys. The queue of client-go is
-- the log of the calls that it gets, the last one first; which key it delivers is an input.
pub mod Handlers
pub mod Syncing
pub mod Routing
pub mod Events
pub mod Notices
pub mod Passes
pub mod Settling
use xstatefulset.Base.{
  ℕ, Bool, true, false, not, ◌&&◌, ◌||◌, Option, none, some, List, [], ◌∷◌, Text, text_eq,
  if◌then◌else◌,
}
use xstatefulset.Api.{
  Error, message, Result, ok, err, ObjectMeta, Labels, OwnerReference, Pod, XStatefulSet,
  controller_kind,
}
use xstatefulset.PodControl.Platform.{Env}
use xstatefulset.PodUtil.{labels_of}
use xstatefulset.RefManager.{ObjectControl}

pub data QueueCall : Type 0 where
  add add_rate_limited forget done : (key : Text) → QueueCall
  add_after : (key : Text) → (nanos : ℕ) → QueueCall

-- labels.Selector
pub record Selector : Type 0 where
  pub empty : Bool
  pub matches : Labels → Bool

-- The listers, the client, and the functions of apimachinery and client-go on keys and selectors.
pub record Cluster (W : Type 0) : Type 0 where
  pub get_set : (namespace name : Text) → W → Result XStatefulSet
  pub list_sets : (namespace : Text) → W → Result (List XStatefulSet)
  pub get_live_set : (namespace name : Text) → W → Result XStatefulSet × W
  pub as_selector : XStatefulSet → Result Selector
  pub key_of : ObjectMeta → Result Text
  pub split_key : Text → Result (Text × Text)
  pub pods_by_index : Text → W → Result (List Pod)
  pub pods : ObjectControl W Pod
  pub revision_controller : ObjectMeta → Option OwnerReference

pub record ControllerState (W : Type 0) : Type 0 where
  pub env : Env W
  pub queue : List QueueCall

module _ {W : Type 0} (k : Cluster W) where
  -- The selector is valid, not empty, and matches the labels.
  abbrev pub selects : Result Selector → Labels → Bool
  selects (err e) labels = false
  selects (ok s) labels = not s.empty && s.matches labels

  unfoldable pub matching_sets : Pod → List XStatefulSet → List XStatefulSet
  matching_sets pod [] = []
  matching_sets pod (set ∷ sets) =
      let rest = matching_sets pod sets in
      if not (text_eq set.meta.namespace pod.meta.namespace)
      then rest
      else if selects (k.as_selector set) (labels_of pod.meta.labels)
      then set ∷ rest
      else rest

  abbrev pub some_sets : List XStatefulSet → Result (List XStatefulSet)
  some_sets [] = err message
  some_sets (set ∷ sets) = ok (set ∷ sets)

  -- GetPodStatefulSets of the lister (client-go/listers/apps/v1/xstatefulset_expansion.go)
  unfoldable pub get_pod_stateful_sets : Pod → W → Result (List XStatefulSet)
  unfolding matching_sets
  get_pod_stateful_sets pod world = elim (labels_of pod.meta.labels) [
    | [] ↦ err message
    | _ ∷ _ ↦ elim (k.list_sets pod.meta.namespace world) [
      | err e ↦ err e
      | ok sets ↦ some_sets (matching_sets pod sets)
    ]
  ]

  unfoldable pub get_stateful_sets_for_pod : Pod → W → List XStatefulSet
  unfolding get_pod_stateful_sets
  get_stateful_sets_for_pod pod world = elim (get_pod_stateful_sets pod world) [
    | err e ↦ []
    | ok sets ↦ sets
  ]

  unfoldable pub resolve_controller_ref : Text → OwnerReference → W → Option XStatefulSet
  resolve_controller_ref namespace ref world =
      if not (text_eq ref.kind controller_kind.kind)
      then none
      else elim (k.get_set namespace ref.name world) [
        | err e ↦ none
        | ok set ↦ if not (text_eq set.meta.uid ref.uid) then none else some set
      ]

  abbrev pub push : QueueCall → ControllerState W → ControllerState W
  push call st = record st { queue = call ∷ st.queue }

  unfoldable pub enqueue_stateful_set : ObjectMeta → ControllerState W → ControllerState W
  enqueue_stateful_set obj st = elim (k.key_of obj) [ err e ↦ st | ok key ↦ push (add key) st ]

  unfoldable pub enqueue_ss_after : XStatefulSet → ℕ → ControllerState W → ControllerState W
  enqueue_ss_after set nanos st = elim (k.key_of set.meta) [
    | err e ↦ st
    | ok key ↦ push (add_after key nanos) st
  ]

  unfoldable pub enqueue_all : List XStatefulSet → ControllerState W → ControllerState W
  unfolding enqueue_stateful_set
  enqueue_all [] st = st
  enqueue_all (set ∷ sets) st = enqueue_all sets (enqueue_stateful_set set.meta st)
