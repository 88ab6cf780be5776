-- ===== src/Ordering.antt =====
-- The orders by which pods are picked (pkg/controller/controller_utils.go): ActivePods for deletion and
-- ByLogging for logs. A pod carries here what only the orders read: its node and its containers.
pub mod Criteria
pub mod Strict
use xstatefulset.Base.{
  ℕ, ◌-◌, Bool, true, false, not, ◌&&◌, ◌||◌, Option, none, some, List, [], ◌∷◌, Text, text_eq,
  codes, if◌then◌else◌, ltb, ◌==◌, max, any, find?,
}
use xstatefulset.Api.{Phase, unset, pending, running, succeeded, failed, unknown, Pod, PodCondition}
use xstatefulset.PodUtil.{is_pod_ready, pod_ready, is_condition_true}

pub record RankedPod : Type 0 where
  pub pod : Pod
  pub node_name : Text
  -- The restart counts of the containers.
  pub container_restarts : List ℕ
  -- The init containers, with whether they always restart, and the restart counts of their statuses.
  pub init_containers : List (Text × Bool)
  pub init_container_restarts : List (Text × ℕ)

-- podPhaseToOrdinal: a phase that it lacks reads as 0.
abbrev pub pod_phase_to_ordinal : Phase → ℕ
pod_phase_to_ordinal pending = 0
pod_phase_to_ordinal unknown = 1
pod_phase_to_ordinal running = 2
pod_phase_to_ordinal _ = 0

-- A time that is not set is zero.
unfoldable pub after_or_zero : Option ℕ → Option ℕ → Bool
after_or_zero none t = true
after_or_zero (some a) none = false
after_or_zero (some a) (some b) = ltb b a

abbrev pub same_time : Option ℕ → Option ℕ → Bool
same_time none none = true
same_time (some a) (some b) = a == b
same_time _ _ = false

unfoldable pub pod_ready_time : Pod → Option ℕ
pod_ready_time pod =
    if is_pod_ready pod
    then elim (find? (λ (c : PodCondition). text_eq c.type pod_ready && is_condition_true c.status)
        pod.conditions) [ none ↦ none | some c ↦ c.last_transition_time ]
    else none

abbrev pub largest : List ℕ → ℕ
largest [] = 0
largest (n ∷ ns) = max n (largest ns)

abbrev pub sidecar_restarts : List (Text × Bool) → List (Text × ℕ) → ℕ
sidecar_restarts containers [] = 0
sidecar_restarts containers ((name, count) ∷ statuses) =
    let rest = sidecar_restarts containers statuses in
    if any (λ (c : Text × Bool). c.1 && text_eq c.0 name) containers then max count rest else rest

unfoldable pub max_container_restarts : RankedPod → ℕ × ℕ
max_container_restarts p =
    (largest p.container_restarts, sidecar_restarts p.init_containers p.init_container_restarts)

unfoldable pub compare_max_container_restarts : RankedPod → RankedPod → Option Bool
unfolding max_container_restarts
compare_max_container_restarts a b =
    let (regular_a, sidecar_a) = max_container_restarts a in
    let (regular_b, sidecar_b) = max_container_restarts b in
    if not (regular_a == regular_b)
    then some (ltb regular_b regular_a)
    else if not (sidecar_a == sidecar_b)
    then some (ltb sidecar_b sidecar_a)
    else none

abbrev pub is_unassigned : RankedPod → Bool
is_unassigned p = elim p.node_name [ [] ↦ true | _ ∷ _ ↦ false ]

-- The last two criteria: restarts, and creation times.
abbrev pub by_restarts : Option Bool → Bool → Bool
by_restarts (some less) other = less
by_restarts none other = other

unfoldable pub active_less : RankedPod → RankedPod → Bool
unfolding after_or_zero pod_ready_time compare_max_container_restarts
active_less a b =
    let ready_a = is_pod_ready a.pod in
    let ready_b = is_pod_ready b.pod in
    let rest = by_restarts (compare_max_container_restarts a b) (
      not (same_time a.pod.meta.creation_timestamp b.pod.meta.creation_timestamp)
      && after_or_zero a.pod.meta.creation_timestamp b.pod.meta.creation_timestamp) in
    if not (text_eq a.node_name b.node_name) && (is_unassigned a || is_unassigned b)
    then is_unassigned a
    else if not (pod_phase_to_ordinal a.pod.phase == pod_phase_to_ordinal b.pod.phase)
    then ltb (pod_phase_to_ordinal a.pod.phase) (pod_phase_to_ordinal b.pod.phase)
    else if not (ready_a && ready_b || not ready_a && not ready_b)
    then not ready_a
    else if ready_a && ready_b && not (same_time (pod_ready_time a.pod) (pod_ready_time b.pod))
    then after_or_zero (pod_ready_time a.pod) (pod_ready_time b.pod)
    else rest

abbrev pub same_phase : Phase → Phase → Bool
same_phase unset unset = true
same_phase pending pending = true
same_phase running running = true
same_phase succeeded succeeded = true
same_phase failed failed = true
same_phase unknown unknown = true
same_phase _ _ = false

unfoldable pub by_logging_less : RankedPod → RankedPod → Bool
unfolding after_or_zero pod_ready_time compare_max_container_restarts
by_logging_less a b =
    let ready_a = is_pod_ready a.pod in
    let ready_b = is_pod_ready b.pod in
    let rest = by_restarts (compare_max_container_restarts a b) (
      not (same_time a.pod.meta.creation_timestamp b.pod.meta.creation_timestamp)
      && after_or_zero b.pod.meta.creation_timestamp a.pod.meta.creation_timestamp) in
    if not (text_eq a.node_name b.node_name) && (is_unassigned a || is_unassigned b)
    then not (is_unassigned a)
    else if not (same_phase a.pod.phase b.pod.phase)
    then ltb (pod_phase_to_ordinal b.pod.phase) (pod_phase_to_ordinal a.pod.phase)
    else if not (ready_a && ready_b || not ready_a && not ready_b)
    then ready_a
    else if ready_a && ready_b && not (same_time (pod_ready_time a.pod) (pod_ready_time b.pod))
    then after_or_zero (pod_ready_time b.pod) (pod_ready_time a.pod)
    else rest
