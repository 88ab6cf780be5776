-- ===== src/PodUtil.antt =====
-- pkg/controller/utils/pod.go and the pod predicates of xstateful_set_utils.go: phases, the Ready
-- condition and availability. The code reads the clock with metav1.Now(); here `now` is an argument,
-- in nanoseconds.
use xstatefulset.Base.{
  ℕ, ◌+◌, ◌*◌, Bool, true, false, not, ◌&&◌, ◌||◌, Option, none, some, List, [], Text, codes,
  text_eq, leb, ◌==◌, if◌then◌else◌, find?, lookup, insert,
}
use xstatefulset.Api.{
  Phase, unset, pending, running, succeeded, failed, ConditionStatus, cond_true, PodCondition, Pod,
  stateful_set_revision_label, Labels,
}

abbrev pub pod_ready : Text
pod_ready = codes "Ready"

abbrev pub nanos_per_second : ℕ
nanos_per_second = 1_000_000_000

-- The condition of a type, with its index left out: the first one in the list.
unfoldable pub get_pod_condition : List PodCondition → Text → Option PodCondition
get_pod_condition conditions type = find? (λ c. text_eq c.type type) conditions

abbrev pub is_condition_true : ConditionStatus → Bool
is_condition_true cond_true = true
is_condition_true _ = false

unfoldable pub get_pod_ready_condition : Pod → Option PodCondition
unfolding get_pod_condition
get_pod_ready_condition pod = get_pod_condition pod.conditions pod_ready

unfoldable pub is_pod_ready : Pod → Bool
is_pod_ready pod = elim (get_pod_ready_condition pod) [
  | none ↦ false
  | some c ↦ is_condition_true c.status
]

-- The time at which a condition has lasted for the wanted seconds is not after `now`.
abbrev pub lasted : Option ℕ → ℕ → ℕ → Bool
lasted none seconds now = false
lasted (some t) seconds now = leb (t + seconds * nanos_per_second) now

unfoldable pub is_pod_available : Pod → ℕ → ℕ → Bool
is_pod_available pod min_ready_seconds now =
    if not (is_pod_ready pod)
    then false
    else min_ready_seconds == 0 || elim (get_pod_ready_condition pod) [
      | none ↦ false
      | some c ↦ lasted c.last_transition_time min_ready_seconds now
    ]

abbrev pub is_phase_terminal : Phase → Bool
is_phase_terminal failed = true
is_phase_terminal succeeded = true
is_phase_terminal _ = false

unfoldable pub is_running : Pod → Bool
is_running pod = elim pod.phase [ running ↦ true | _ ↦ false ]

unfoldable pub is_created : Pod → Bool
is_created pod = elim pod.phase [ unset ↦ false | _ ↦ true ]

unfoldable pub is_pending : Pod → Bool
is_pending pod = elim pod.phase [ pending ↦ true | _ ↦ false ]

unfoldable pub is_failed : Pod → Bool
is_failed pod = elim pod.phase [ failed ↦ true | _ ↦ false ]

unfoldable pub is_succeeded : Pod → Bool
is_succeeded pod = elim pod.phase [ succeeded ↦ true | _ ↦ false ]

unfoldable pub is_running_and_ready : Pod → Bool
is_running_and_ready pod = is_running pod && is_pod_ready pod

unfoldable pub is_running_and_available : Pod → ℕ → ℕ → Bool
is_running_and_available pod min_ready_seconds now = is_pod_available pod min_ready_seconds now

unfoldable pub is_terminating : Pod → Bool
is_terminating pod = elim pod.meta.deletion_timestamp [ none ↦ false | some _ ↦ true ]

unfoldable pub is_unavailable : Pod → ℕ → ℕ → Bool
is_unavailable pod min_ready_seconds now =
    not (is_running_and_available pod min_ready_seconds now) || is_terminating pod

-- A nil map reads as an empty one, and a write makes it.
abbrev pub labels_of : Option Labels → Labels
labels_of none = []
labels_of (some m) = m

-- An absent key reads as the empty text.
abbrev pub text_or_empty : Option Text → Text
text_or_empty none = []
text_or_empty (some t) = t

unfoldable pub get_pod_revision : Pod → Text
get_pod_revision pod =
    text_or_empty (lookup stateful_set_revision_label (labels_of pod.meta.labels))

unfoldable pub set_pod_revision : Pod → Text → Pod
set_pod_revision pod revision = record pod {
  meta = record pod.meta {
    labels = some (insert stateful_set_revision_label revision (labels_of pod.meta.labels));
  };
}
