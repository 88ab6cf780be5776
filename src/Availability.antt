-- ===== src/Availability.antt =====
-- Filters on pods, and when pods become available (pkg/controller/controller_utils.go). Times are in
-- nanoseconds; a time that is not set is none.
pub mod Minimum
pub mod Checks
pub mod Changes
use xstatefulset.Base.{
  ℕ, ◌+◌, ◌-◌, ◌*◌, Bool, true, false, not, ◌&&◌, ◌||◌, Option, none, some, List, [], ◌∷◌, Text,
  text_eq, if◌then◌else◌, ltb, ◌==◌, keep, length, suc,
}
use xstatefulset.Api.{Labels, ObjectMeta, OwnerReference, Pod}
use xstatefulset.PodUtil.{
  is_pod_ready, get_pod_ready_condition, nanos_per_second, is_phase_terminal, is_terminating,
  is_succeeded, is_failed, labels_of,
}

unfoldable pub is_pod_active : Pod → Bool
is_pod_active pod = not (is_succeeded pod) && not (is_failed pod) && not (is_terminating pod)

unfoldable pub is_pod_terminating : Pod → Bool
is_pod_terminating pod = not (is_phase_terminal pod.phase) && is_terminating pod

unfoldable pub filter_active_pods : List Pod → List Pod
filter_active_pods pods = keep is_pod_active pods

unfoldable pub filter_terminating_pods : List Pod → List Pod
filter_terminating_pods pods = keep is_pod_terminating pods

unfoldable pub count_terminating_pods : List Pod → ℕ
count_terminating_pods [] = 0
count_terminating_pods (pod ∷ pods) =
    let rest = count_terminating_pods pods in if is_pod_terminating pod then suc rest else rest

-- metav1.IsControlledBy is a parameter.
unfoldable pub filter_claimed_pods :
    (is_controlled_by : ObjectMeta → ObjectMeta → Bool)
    → ObjectMeta
    → (Labels → Bool)
    → List Pod
    → List Pod
filter_claimed_pods is_controlled_by controller matches [] = []
filter_claimed_pods is_controlled_by controller matches (pod ∷ pods) =
    let rest = filter_claimed_pods is_controlled_by controller matches pods in
    if not (is_controlled_by pod.meta controller)
    then rest
    else if matches (labels_of pod.meta.labels)
    then pod ∷ rest
    else rest

-- How long until a condition has lasted for the wanted seconds, if that is still to come.
abbrev pub remaining : Option ℕ → ℕ → ℕ → Option ℕ
remaining none seconds now = none
remaining (some t) seconds now =
    let due = t + seconds * nanos_per_second in if ltb now due then some (due - now) else none

unfoldable pub next_pod_availability_check : Pod → ℕ → ℕ → Option ℕ
next_pod_availability_check pod min_ready_seconds now =
    if not (is_pod_ready pod) || (min_ready_seconds == 0)
    then none
    else elim (get_pod_ready_condition pod) [
      | none ↦ none
      | some c ↦ remaining c.last_transition_time min_ready_seconds now
    ]

-- A check that is due sooner than the best one so far takes its place.
abbrev pub better : Option ℕ → Pod → Option (ℕ × Pod) → Option (ℕ × Pod)
better none pod best = best
better (some check) pod none = some (check, pod)
better (some check) pod (some (least, first)) =
    if ltb check least then some (check, pod) else some (least, first)

unfoldable pub least_check : List Pod → ℕ → ℕ → Option (ℕ × Pod) → Option (ℕ × Pod)
least_check [] min_ready_seconds now best = best
least_check (pod ∷ pods) min_ready_seconds now best =
    least_check pods min_ready_seconds now
      (better (next_pod_availability_check pod min_ready_seconds now) pod best)

unfoldable pub find_min_next_pod_availability_simple_check : List Pod → ℕ → ℕ → Option (ℕ × Pod)
unfolding least_check
find_min_next_pod_availability_simple_check pods min_ready_seconds now =
    least_check pods min_ready_seconds now none

-- `clock` is the time that the clock shows when it is read.
unfoldable pub find_min_next_pod_availability_check :
    List Pod → ℕ → (last_owner_status_evaluation clock : ℕ) → Option ℕ
unfolding find_min_next_pod_availability_simple_check
find_min_next_pod_availability_check pods min_ready_seconds last clock =
    elim (find_min_next_pod_availability_simple_check pods min_ready_seconds last) [
      | none ↦ none
      | some (check, pod) ↦ elim (next_pod_availability_check pod min_ready_seconds clock) [
        | none ↦ some 0
        | some updated ↦ some updated
      ]
    ]
