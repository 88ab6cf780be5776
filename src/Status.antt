-- ===== src/Status.antt =====
-- Replica counts and the set's status: computeReplicaStatus and updateStatus
-- (xstateful_set_control.go), inconsistentStatus and completeRollingUpdate (xstateful_set_utils.go).
-- The counters are int32 in the code; they count the pods of one set, far below 2^31.
pub mod Counts
pub mod Completion
use xstatefulset.Base.{
  ℕ, ◌+◌, ◌-◌, Bool, true, false, not, ◌&&◌, ◌||◌, List, [], ◌∷◌, Text, text_eq, ltb, ◌==◌,
  if◌then◌else◌, ℤ, pos, negsuc, pos_part, neg_part, eqb_ℤ, some,
}
use xstatefulset.Api.{
  Pod, ControllerRevision, XStatefulSet, XStatefulSetStatus, UpdateStrategyType, rolling_update,
  on_delete,
}
use xstatefulset.PodUtil.{
  is_created, is_running_and_ready, is_running_and_available, is_terminating, get_pod_revision,
}

pub record ReplicaStatus : Type 0 where
  pub replicas : ℕ
  pub ready_replicas : ℕ
  pub available_replicas : ℕ
  pub current_replicas : ℕ
  pub updated_replicas : ℕ

abbrev pub one_if : Bool → ℕ
one_if true = 1
one_if false = 0

-- The body of the loop: what one pod adds to the counters.
unfoldable pub count_pod :
    ℕ → ℕ → (current_revision update_revision : Text) → Pod → ReplicaStatus → ReplicaStatus
count_pod now min_ready_seconds current_revision update_revision pod status =
    let ready = is_running_and_ready pod in
    let live = is_created pod && not (is_terminating pod) in
    let revision = get_pod_revision pod in
    record {
      replicas = status.replicas + one_if (is_created pod);
      ready_replicas = status.ready_replicas + one_if ready;
      available_replicas =
          status.available_replicas
          + one_if (ready && is_running_and_available pod min_ready_seconds now);
      current_replicas =
          status.current_replicas + one_if (live && text_eq revision current_revision);
      updated_replicas =
          status.updated_replicas + one_if (live && text_eq revision update_revision);
    }

abbrev pub no_replicas : ReplicaStatus
no_replicas = record {
  replicas = 0;
  ready_replicas = 0;
  available_replicas = 0;
  current_replicas = 0;
  updated_replicas = 0;
}

unfoldable pub count_pods :
    ℕ → ℕ → (current_revision update_revision : Text) → List Pod → ReplicaStatus → ReplicaStatus
unfolding count_pod
count_pods now seconds current_revision update_revision [] status = status
count_pods now seconds current_revision update_revision (pod ∷ pods) status =
    count_pods now seconds current_revision update_revision pods
      (count_pod now seconds current_revision update_revision pod status)

unfoldable pub compute_replica_status :
    ℕ → List Pod → ℕ → (current_revision update_revision : Text) → ReplicaStatus
unfolding count_pods
compute_replica_status now pods min_ready_seconds current_revision update_revision =
    count_pods now min_ready_seconds current_revision update_revision pods no_replicas

-- `status.CurrentReplicas += n` and `--`, on a counter that may be negative.
abbrev pub add_count : ℤ → ℕ → ℤ
add_count (pos a) n = pos (a + n)
add_count (negsuc a) n = if ltb a n then pos (n - a - 1) else negsuc (a - n)

unfoldable pub decrement : ℤ → ℤ
decrement (pos a) = if a == 0 then negsuc 0 else pos (a - 1)
decrement (negsuc a) = negsuc (a + 1)

unfoldable pub add_lists :
    ℕ
    → ℕ
    → (current_revision update_revision : Text) → List (List Pod)
    → XStatefulSetStatus
    → XStatefulSetStatus
add_lists now seconds current_revision update_revision [] status = status
add_lists now seconds current_revision update_revision (list ∷ lists) status =
    let counts = compute_replica_status now list seconds current_revision update_revision in
    add_lists now seconds current_revision update_revision lists (record status {
      replicas = status.replicas + counts.replicas;
      ready_replicas = status.ready_replicas + counts.ready_replicas;
      available_replicas = status.available_replicas + counts.available_replicas;
      current_replicas = add_count status.current_replicas counts.current_replicas;
      updated_replicas = status.updated_replicas + counts.updated_replicas;
    })

unfoldable pub update_status :
    ℕ
    → XStatefulSetStatus
    → ℕ
    → (current_revision update_revision : Text) → List (List Pod)
    → XStatefulSetStatus
unfolding add_lists
update_status now status min_ready_seconds current_revision update_revision pod_lists =
    add_lists now min_ready_seconds current_revision update_revision pod_lists (record status {
      replicas = 0;
      ready_replicas = 0;
      available_replicas = 0;
      current_replicas = pos 0;
      updated_replicas = 0;
    })

unfoldable pub inconsistent_status : XStatefulSet → XStatefulSetStatus → Bool
inconsistent_status set status =
    ltb set.status.observed_generation status.observed_generation
    || not (status.replicas == set.status.replicas)
    || not (eqb_ℤ status.current_replicas set.status.current_replicas)
    || not (status.ready_replicas == set.status.ready_replicas)
    || not (status.updated_replicas == set.status.updated_replicas)
    || not (text_eq status.current_revision set.status.current_revision)
    || not (status.available_replicas == set.status.available_replicas)
    || not (text_eq status.update_revision set.status.update_revision)

abbrev pub is_rolling_update : UpdateStrategyType → Bool
is_rolling_update rolling_update = true
is_rolling_update on_delete = false

-- The condition of completeRollingUpdate.
unfoldable pub is_complete : XStatefulSet → XStatefulSetStatus → Bool
is_complete set status =
    is_rolling_update set.spec.strategy_type
    && status.updated_replicas == set.spec.replicas
    && status.ready_replicas == set.spec.replicas
    && status.replicas == set.spec.replicas

unfoldable pub complete_rolling_update : XStatefulSet → XStatefulSetStatus → XStatefulSetStatus
complete_rolling_update set status =
    if is_complete set status
    then record status {
      current_replicas = pos status.updated_replicas;
      current_revision = status.update_revision;
    }
    else status
