-- ===== src/Sync/Replica.antt =====
-- processReplica and processCondemned: what the loop does with one pod. They return whether to
-- stop, and an error.
use xstatefulset.Base.{Bool, true, false, not, ◌&&◌, ◌||◌, Option, none, some, if◌then◌else◌}
use xstatefulset.Api.{Error, ok, err, Pod, XStatefulSet}
use xstatefulset.PodUtil.{
  is_failed, is_succeeded, is_created, is_pending, is_terminating, is_running_and_ready,
  is_running_and_available,
}
use xstatefulset.Identity.Names.{identity_matches}
use xstatefulset.Claims.Storage.{storage_matches}
use xstatefulset.PodControl.Platform.{Action, ◌>>=◌, return}
use xstatefulset.PodControl.Claims.{
  claims_match_retention_policy, pod_claim_is_stale, update_pod_claim_for_retention_policy,
}
use xstatefulset.PodControl.Pods.{
  create_stateful_pod, update_stateful_pod, delete_stateful_pod,
  create_missing_persistent_volume_claims,
}
use xstatefulset.Sync.Config.{Config}

-- Whether to stop, and the error.
abbrev pub Exit : Type 0
Exit = Bool × Option Error

abbrev pub go_on : Exit
go_on = (false, none)

abbrev pub stop : Exit
stop = (true, none)

-- `return true, err` where an error is there, and the next step where none is.
abbrev pub or_stop : {W : Type 0} → Option Error → Action W Exit → Action W Exit
or_stop none next = next
or_stop (some e) next = return (true, some e)

module _ {W : Type 0} (c : Config W) (set update_set : XStatefulSet) (monotonic : Bool) where
  -- The end of processReplica: the invariants of a pod that is there.
  unfoldable pub enforce_replica : Pod → Action W Exit
  enforce_replica pod env =
      let retention : Bool =
        elim (claims_match_retention_policy c.platform update_set pod env.world) [
          | ok b ↦ b
          | err _ ↦ true
        ] in
      if identity_matches set pod && storage_matches set pod && retention
      then (go_on, env)
      else (do error ← update_stateful_pod c.platform update_set pod; or_stop error (return go_on))
          env

  -- In the ordered mode the loop waits for a pod that is not running, ready and available.
  unfoldable pub wait_for_replica : Pod → Action W Exit
  wait_for_replica pod =
      if is_terminating pod && monotonic
      then return stop
      else if not (is_running_and_ready pod) && monotonic
      then return stop
      else if not (is_running_and_available pod set.spec.min_ready_seconds c.now) && monotonic
      then return stop
      else enforce_replica pod

  unfoldable pub check_pending : Pod → Action W Exit
  check_pending pod =
      if is_pending pod
      then (do
        error ← create_missing_persistent_volume_claims c.platform set pod
        or_stop error (wait_for_replica pod))
      else wait_for_replica pod

  -- A pod that is not there is created, unless a claim of its predecessor is stale.
  unfoldable pub create_replica : Pod → Action W Exit
  create_replica pod env = elim (pod_claim_is_stale c.platform set pod env.world) [
    | err e ↦ ((true, some e), env)
    | ok true ↦ (stop, env)
    | ok false ↦
        (do
          error ← create_stateful_pod c.platform set pod
          or_stop error (if monotonic then return stop else check_pending pod))
          env
  ]

  unfoldable pub process_replica : Pod → Action W Exit
  process_replica pod =
      if is_failed pod || is_succeeded pod
      then (if is_terminating pod
          then return stop
          else (do error ← delete_stateful_pod c.platform set pod; or_stop error (return stop)))
      else if not (is_created pod)
      then create_replica pod
      else check_pending pod

  -- The claims of a pod that is to go.
  unfoldable pub fix_pod_claim : Pod → Action W Exit
  fix_pod_claim pod env = elim (claims_match_retention_policy c.platform update_set pod env.world) [
    | err e ↦ ((true, some e), env)
    | ok true ↦ (go_on, env)
    | ok false ↦
        (do
          error ← update_pod_claim_for_retention_policy c.platform update_set pod
          or_stop error (return go_on))
          env
  ]

  -- `is_first` says that the pod is the first unhealthy one.
  unfoldable pub process_condemned : Bool → Pod → Action W Exit
  process_condemned is_first pod =
      if is_terminating pod
      then (if monotonic then return stop else return go_on)
      else if not (is_running_and_ready pod) && monotonic && not is_first
      then return stop
      else if not (is_running_and_available pod set.spec.min_ready_seconds c.now)
          && monotonic
          && not is_first
      then return stop
      else (do error ← delete_stateful_pod c.platform set pod; return (true, error))
