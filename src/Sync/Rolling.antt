-- ===== src/Sync/Rolling.antt =====
-- The destructive part of a rolling update: the pods that are deleted because they are not at the
-- update revision, one at a time or, behind the MaxUnavailableStatefulSet gate, up to a bound.
use xstatefulset.Base.{
  ℕ, zero, suc, ◌-◌, Bool, false, not, ◌&&◌, Option, none, some, List, [], ◌∷◌, Text, text_eq, ltb,
  leb, if◌then◌else◌, drop, reverse, count, ℤ, pos, negsuc,
}
use xstatefulset.Api.{
  Error, Result, ok, err, nil_pointer, is_not_found, IntOrPercent, int, Pod, XStatefulSet,
  XStatefulSetStatus,
}
use xstatefulset.PodUtil.{get_pod_revision, is_terminating, is_unavailable}
use xstatefulset.Status.{decrement}
use xstatefulset.PodControl.Platform.{Action}
use xstatefulset.PodControl.Pods.{delete_stateful_pod}
use xstatefulset.Sync.Config.{Config}

-- `err != nil && !errors.IsNotFound(err)`
abbrev pub real_error : Option Error → Option Error
real_error none = none
real_error (some e) = if is_not_found e then none else some e

abbrev pub value_or_default : Option IntOrPercent → IntOrPercent
value_or_default none = int (pos 1)
value_or_default (some v) = v

abbrev pub at_least_one : ℤ → ℕ
at_least_one (pos n) = if ltb n 1 then 1 else n
at_least_one (negsuc n) = 1

-- The pod is to be deleted: it is not at the update revision and not terminating.
unfoldable pub is_outdated : Text → Pod → Bool
is_outdated update_revision pod =
    not (text_eq (get_pod_revision pod) update_revision) && not (is_terminating pod)

-- The targets of an update, from the largest ordinal down to the partition.
abbrev pub targets : List Pod → ℕ → List Pod
targets replicas update_min = reverse (drop update_min replicas)

abbrev pub lower : XStatefulSetStatus → XStatefulSetStatus
lower status = record status { current_replicas = decrement status.current_replicas }

-- The partition of the strategy: 0 without one, and a fault at a nil pointer.
unfoldable pub get_update_min : XStatefulSet → Result ℕ
get_update_min set = elim set.spec.rolling [
  | none ↦ ok 0
  | some strategy ↦ elim strategy.partition [ none ↦ err nil_pointer | some n ↦ ok n ]
]

module _ {W : Type 0} (c : Config W) where
  unfoldable pub get_stateful_set_max_unavailable : Option IntOrPercent → ℕ → Result ℕ
  get_stateful_set_max_unavailable max_unavailable replica_count =
      elim (c.scaled_value (value_or_default max_unavailable) replica_count false) [
        | err e ↦ err e
        | ok n ↦ ok (at_least_one n)
      ]

  unfoldable pub get_max_unavailable : XStatefulSet → Result ℕ
  get_max_unavailable set = elim set.spec.rolling [
    | none ↦ ok 1
    | some strategy ↦ get_stateful_set_max_unavailable strategy.max_unavailable set.spec.replicas
  ]

  module _ (set : XStatefulSet) (update_revision : Text) where
    -- One pod at a time: the first outdated target is deleted, and an unavailable one is waited for.
    unfoldable pub delete_one :
        List Pod → XStatefulSetStatus → Action W (XStatefulSetStatus × Option Error)
    delete_one [] status env = ((status, none), env)
    delete_one (pod ∷ pods) status env =
        let rest = delete_one pods status env in
        if is_outdated update_revision pod
        then (let (error, after) = delete_stateful_pod c.platform set pod env in
            elim (real_error error) [
              | some e ↦ ((status, some e), after)
              | none ↦ ((lower status, none), after)
            ])
        else if is_unavailable pod set.spec.min_ready_seconds c.now
        then ((status, none), env)
        else rest

    -- Up to `left` outdated targets are deleted.
    unfoldable pub delete_up_to :
        List Pod → ℕ → XStatefulSetStatus → Action W (XStatefulSetStatus × Option Error)
    delete_up_to [] left status env = ((status, none), env)
    delete_up_to (pod ∷ pods) zero status env = ((status, none), env)
    delete_up_to (pod ∷ pods) (suc left) status env =
        let (error, after) = delete_stateful_pod c.platform set pod env in
        let rest = delete_up_to pods left (lower status) after in
        let skip = delete_up_to pods (suc left) status env in
        if is_outdated update_revision pod
        then elim (real_error error) [ some e ↦ ((status, some e), after) | none ↦ rest ]
        else skip

    unfoldable pub delete_outdated :
        List Pod → ℕ → ℕ → XStatefulSetStatus → Action W (XStatefulSetStatus × Option Error)
    unfolding delete_up_to
    delete_outdated replicas first bound status env =
        let unavailable =
          count (λ pod. is_unavailable pod set.spec.min_ready_seconds c.now) replicas in
        if leb bound unavailable
        then ((status, none), env)
        else delete_up_to (targets replicas first) (bound - unavailable) status env

    unfoldable pub update_stateful_set_after_invariant_established :
        List Pod → XStatefulSetStatus → Action W (XStatefulSetStatus × Option Error)
    update_stateful_set_after_invariant_established replicas status env =
        elim (get_update_min set) [
          | err e ↦ ((status, some e), env)
          | ok first ↦ elim (get_max_unavailable set) [
            | err e ↦ ((status, some e), env)
            | ok bound ↦ delete_outdated replicas first bound status env
          ]
        ]

    unfoldable pub update_one_at_a_time :
        List Pod → XStatefulSetStatus → Action W (XStatefulSetStatus × Option Error)
    unfolding delete_one
    update_one_at_a_time replicas status env = elim (get_update_min set) [
      | err e ↦ ((status, some e), env)
      | ok first ↦ delete_one (targets replicas first) status env
    ]

    -- The end of updateStatefulSet, for a strategy that is not OnDelete.
    unfoldable pub update_outdated :
        List Pod → XStatefulSetStatus → Action W (XStatefulSetStatus × Option Error)
    update_outdated replicas status =
        if c.max_unavailable_gate
        then update_stateful_set_after_invariant_established replicas status
        else update_one_at_a_time replicas status
