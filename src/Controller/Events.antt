-- ===== src/Controller/Events.antt =====
-- The sets that addPod, updatePod and deletePod bring into the queue.
use xstatefulset.Base.{
  ℕ, Text, ◌≡◌, refl, sym, ap, subst, ◌∙◌, inl, inr, true, not, ◌&&◌, List, [], ◌∷◌, Bool-cases,
  Option-cases, In, text_eq, ltb,
}
use xstatefulset.Api.{Labels, ok, Result-cases, OwnerReference, Pod, XStatefulSet}
use xstatefulset.PodUtil.{labels_of, is_pod_ready}
use xstatefulset.Controller.{
  QueueCall, add, Cluster, ControllerState, selects, matching_sets, get_pod_stateful_sets,
  get_stateful_sets_for_pod, some_sets, resolve_controller_ref, enqueue_ss_after, enqueue_all,
}
use xstatefulset.Controller.Handlers.{enqueue_matching, enqueue_when_available, update_owned}
use xstatefulset.Controller.Routing.{
  Names, Names-resolve_controller_ref, Has, enqueue_stateful_set-adds, enqueue_stateful_set-keeps,
  enqueue_all-adds,
}

module _ {W : Type 0} (k : Cluster W) where
  -- The labels of a pod are not empty, and the set stands in the list of the pod's namespace with a
  -- valid selector, not empty, that matches them.
  pub record IsMatched (pod : Pod) (world : W) (set : XStatefulSet) : Type 0 where
    pub label : Text × Text
    pub labels : Labels
    pub labelled : labels_of pod.meta.labels ≡ label ∷ labels
    pub sets : List XStatefulSet
    pub listed : k.list_sets pod.meta.namespace world ≡ ok sets
    pub member : In set sets
    pub namespace : text_eq set.meta.namespace pod.meta.namespace ≡ true
    pub selected : selects k (k.as_selector set) (labels_of pod.meta.labels) ≡ true

  matching_sets-In :
      (pod : Pod) (sets : List XStatefulSet) (set : XStatefulSet)
      → In set sets
      → text_eq set.meta.namespace pod.meta.namespace ≡ true
      → selects k (k.as_selector set) (labels_of pod.meta.labels) ≡ true
      → In set (matching_sets k pod sets)
  unfolding matching_sets
  matching_sets-In pod [] set i e f = elim i [ ]
  matching_sets-In pod (s ∷ sets) set (In.here x) e f =
      subst (λ (a : XStatefulSet). In set (matching_sets k pod (a ∷ sets))) x
        (rw (e, f, matching_sets) (In.here refl))
  matching_sets-In pod (s ∷ sets) set (In.there i) e f =
      let rest = matching_sets-In pod sets set i e f in
      elim (Bool-cases (text_eq s.meta.namespace pod.meta.namespace)) [
        | inr x ↦ rw (x, matching_sets) rest
        | inl x ↦ elim (Bool-cases (selects k (k.as_selector s) (labels_of pod.meta.labels))) [
          | inl y ↦ rw (x, y, matching_sets) (In.there rest)
          | inr y ↦ rw (x, y, matching_sets) rest
        ]
      ]

  some_sets-In :
      (set : XStatefulSet) (sets : List XStatefulSet) → In set sets → some_sets k sets ≡ ok sets
  some_sets-In set [] i = elim i [ ]
  some_sets-In set (s ∷ sets) i = refl

  get_pod_stateful_sets-ok :
      (pod : Pod) (world : W) (set : XStatefulSet) (m : IsMatched pod world set)
      → get_stateful_sets_for_pod k pod world ≡ matching_sets k pod m.sets
  unfolding get_stateful_sets_for_pod get_pod_stateful_sets
  get_pod_stateful_sets-ok pod world set m =
      let among = matching_sets-In pod m.sets set m.member m.namespace m.selected in
      rw (m.labelled, m.listed, some_sets-In set _ among, get_stateful_sets_for_pod) refl

  pub enqueue_matching-adds :
      (pod : Pod) (set : XStatefulSet) (key : Text) (world : W) (st : ControllerState W)
      → world ≡ st.env.world
      → IsMatched pod world set
      → k.key_of set.meta ≡ ok key
      → Has k (add key) (enqueue_matching k pod st)
  enqueue_matching-adds pod set key world st w m e =
      subst (λ (sets : List XStatefulSet). Has k (add key) (enqueue_all k sets st))
        (sym (get_pod_stateful_sets-ok pod world set m) ∙ ap (get_stateful_sets_for_pod k pod) w)
        (enqueue_all-adds k (matching_sets k pod m.sets) set key st
          (matching_sets-In pod m.sets set m.member m.namespace m.selected) e)

  enqueue_ss_after-keeps :
      (set : XStatefulSet) (nanos : ℕ) (call : QueueCall) (st : ControllerState W)
      → Has k call st
      → Has k call (enqueue_ss_after k set nanos st)
  unfolding enqueue_ss_after
  enqueue_ss_after-keeps set nanos call st i = elim (Result-cases (k.key_of set.meta)) [
    | inl (key, q) ↦ rw (q, enqueue_ss_after) (In.there i)
    | inr (e, q) ↦ rw (q, enqueue_ss_after) i
  ]

  enqueue_when_available-keeps :
      (old cur : Pod) (set : XStatefulSet) (call : QueueCall) (st : ControllerState W)
      → Has k call st
      → Has k call (enqueue_when_available k old cur set st)
  enqueue_when_available-keeps old cur set call st i =
      elim (Bool-cases
        (not (is_pod_ready old) && is_pod_ready cur && ltb 0 set.spec.min_ready_seconds)) [
          | inl x ↦ rw (x, enqueue_when_available) (enqueue_ss_after-keeps set _ call st i)
          | inr x ↦ rw (x, enqueue_when_available) i
        ]

  pub update_owned-keeps :
      (old cur : Pod) (ref : OwnerReference) (call : QueueCall) (st : ControllerState W)
      → Has k call st
      → Has k call (update_owned k old cur ref st)
  unfolding update_owned
  update_owned-keeps old cur ref call st i =
      elim (Option-cases (resolve_controller_ref k cur.meta.namespace ref st.env.world)) [
        | inl n ↦ rw (n, update_owned) i
        | inr (set, q) ↦
            rw (q, update_owned)
              (enqueue_when_available-keeps old cur set call _
                (enqueue_stateful_set-keeps k set.meta call st i))
      ]

  pub update_owned-adds :
      (old cur : Pod) (ref : OwnerReference) (set : XStatefulSet) (key : Text)
      (st : ControllerState W)
      → Names k cur.meta.namespace ref st.env.world set
      → k.key_of set.meta ≡ ok key
      → Has k (add key) (update_owned k old cur ref st)
  unfolding update_owned
  update_owned-adds old cur ref set key st n e =
      rw (Names-resolve_controller_ref k cur.meta.namespace ref st.env.world set n, update_owned)
        (enqueue_when_available-keeps old cur set (add key) _
          (enqueue_stateful_set-adds k set key st e))
