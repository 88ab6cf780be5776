-- ===== src/Sync/Steps.antt =====
-- What one step of the ordered loop does to the pods: processReplica and processCondemned with
-- `monotonic` set.
use xstatefulset.Base.{
  ◌≡◌, refl, ap, ◌∙◌, ◌⊎◌, inl, inr, Bool, true, false, not, ◌&&◌, ◌||◌, List, ◌∷◌, arith,
  Bool-cases, Option-cases, ℕ,
}
use xstatefulset.Api.{Result-cases, Pod, XStatefulSet}
use xstatefulset.PodUtil.{
  is_failed, is_succeeded, is_created, is_pending, is_terminating, is_running_and_ready,
  is_running_and_available,
}
use xstatefulset.Batch.Runs.{wants_exit}
use xstatefulset.PodControl.Platform.{Call, create_pod, delete_pod, IsPlatform, Env}
use xstatefulset.PodControl.Claims.{pod_claim_is_stale}
use xstatefulset.PodControl.Pods.{
  create_stateful_pod, delete_stateful_pod, create_missing_persistent_volume_claims,
}
use xstatefulset.PodControl.Writes.{
  pod_log, IsQuiet, pod_log-create_stateful_pod, pod_log-delete_stateful_pod,
  update_stateful_pod-IsQuiet, create_missing_persistent_volume_claims-IsQuiet,
  update_pod_claim_for_retention_policy-IsQuiet,
}
use xstatefulset.Sync.Config.{Config}
use xstatefulset.Sync.Replica.{
  Exit, enforce_replica, wait_for_replica, check_pending, create_replica, process_replica,
  fix_pod_claim, process_condemned,
}

-- Running, ready for the wanted time, and not terminating.
unfoldable pub is_healthy : ℕ → ℕ → Pod → Bool
is_healthy now seconds pod =
    not (is_terminating pod) && is_running_and_ready pod && is_running_and_available pod seconds now

unfoldable pub is_finished : Pod → Bool
is_finished pod = is_failed pod || is_succeeded pod

-- What processReplica did with a pod, by its result and the logs before and after.
pub data ReplicaStep (healthy : Bool) (pod : Pod) (result : Exit) (before after : List Call)
    : Type 0 where
  passed :
      wants_exit result ≡ false
      → healthy ≡ true
      → pod_log after ≡ pod_log before
      → ReplicaStep healthy pod result before after
  waited :
      wants_exit result ≡ true
      → pod_log after ≡ pod_log before
      → ReplicaStep healthy pod result before after
  created :
      wants_exit result ≡ true
      → is_created pod ≡ false
      → pod_log after ≡ create_pod pod ∷ pod_log before
      → ReplicaStep healthy pod result before after
  restarted :
      wants_exit result ≡ true
      → is_finished pod ≡ true
      → is_terminating pod ≡ false
      → pod_log after ≡ delete_pod pod ∷ pod_log before
      → ReplicaStep healthy pod result before after

module _ {W : Type 0} (c : Config W) (law : IsPlatform c.platform)
    (set update_set : XStatefulSet) where
  enforce_replica-IsQuiet : (pod : Pod) → IsQuiet (enforce_replica c set update_set true pod)
  unfolding enforce_replica
  enforce_replica-IsQuiet pod env =
      ground (arith, update_stateful_pod-IsQuiet c.platform update_set law pod env)

  abbrev healthy : Pod → Bool
  healthy pod = is_healthy c.now set.spec.min_ready_seconds pod

  abbrev Step : Pod → Env W → Exit × Env W → Type 0
  Step pod env out = ReplicaStep (healthy pod) pod out.0 env.calls out.1.calls

  -- A quiet result on a healthy pod, whatever it says.
  quiet_step :
      {ok : Bool} (pod : Pod) (env : Env W) (out : Exit × Env W)
      → ok ≡ true
      → pod_log out.1.calls ≡ pod_log env.calls
      → ReplicaStep ok pod out.0 env.calls out.1.calls
  quiet_step pod env out h q = elim (Bool-cases (wants_exit out.0)) [
    | inl e ↦ waited e q
    | inr e ↦ passed e h q
  ]

  wait_for_replica-Step :
      (pod : Pod) (env : Env W) → Step pod env (wait_for_replica c set update_set true pod env)
  unfolding wait_for_replica is_healthy
  wait_for_replica-Step pod env = elim (Bool-cases (is_terminating pod)) [
    | inl t ↦ rw (t, wait_for_replica) (waited refl refl)
    | inr t ↦ elim (Bool-cases (is_running_and_ready pod)) [
      | inr r ↦ rw (t, r, wait_for_replica) (waited refl refl)
      | inl r ↦ elim (Bool-cases (is_running_and_available pod set.spec.min_ready_seconds c.now)) [
        | inr a ↦ rw (t, r, a, wait_for_replica) (waited refl refl)
        | inl a ↦
            rw (t, r, a, wait_for_replica)
              (quiet_step pod env (enforce_replica c set update_set true pod env) refl
                (enforce_replica-IsQuiet pod env))
      ]
    ]
  ]

  quieter :
      (pod : Pod) (env env' : Env W) (out : Exit × Env W)
      → pod_log env'.calls ≡ pod_log env.calls
      → Step pod env' out
      → Step pod env out
  quieter pod env env' out q (passed x h l) = passed x h (l ∙ q)
  quieter pod env env' out q (waited x l) = waited x (l ∙ q)
  quieter pod env env' out q (created x h l) =
      created x h (l ∙ ap (λ (m : List Call). create_pod pod ∷ m) q)
  quieter pod env env' out q (restarted x h t l) =
      restarted x h t (l ∙ ap (λ (m : List Call). delete_pod pod ∷ m) q)

  check_pending-Step :
      (pod : Pod) (env : Env W) → Step pod env (check_pending c set update_set true pod env)
  unfolding check_pending
  check_pending-Step pod env =
      let filled = create_missing_persistent_volume_claims c.platform set pod env in
      let quiet = create_missing_persistent_volume_claims-IsQuiet c.platform set pod env in
      elim (Bool-cases (is_pending pod)) [
        | inr p ↦ rw (p, check_pending) (wait_for_replica-Step pod env)
        | inl p ↦ elim (Option-cases filled.0) [
          | inr (e, q) ↦ rw (p, q, check_pending) (waited refl quiet)
          | inl q ↦
              rw (p, q, check_pending)
                (quieter pod env filled.1 (wait_for_replica c set update_set true pod filled.1)
                  quiet (wait_for_replica-Step pod filled.1))
        ]
      ]

  create_replica-Step :
      (pod : Pod) (env : Env W)
      → is_created pod ≡ false
      → Step pod env (create_replica c set update_set true pod env)
  unfolding create_replica
  create_replica-Step pod env new =
      let made = create_stateful_pod c.platform set pod env in
      elim (Result-cases (pod_claim_is_stale c.platform set pod env.world)) [
        | inr (e, q) ↦ rw (q, create_replica) (waited refl refl)
        | inl (true, q) ↦ rw (q, create_replica) (waited refl refl)
        | inl (false, q) ↦ elim (Option-cases made.0) [
          | inl n ↦ elim (pod_log-create_stateful_pod c.platform set pod env) [
            | inl l ↦ rw (q, n, create_replica) (created refl new l)
            | inr (l, x) ↦ absurd (let (e, y) = x in cc)
          ]
          | inr (e, x) ↦ elim (pod_log-create_stateful_pod c.platform set pod env) [
            | inl l ↦ rw (q, x, create_replica) (created refl new l)
            | inr (l, _) ↦ rw (q, x, create_replica) (waited refl l)
          ]
        ]
      ]

  -- On a platform that retries as IsPlatform says, processReplica in the ordered mode creates the pod
  -- where it is not there, deletes it where it has finished and is not terminating, or does neither;
  -- and it lets the loop go on only past a healthy pod, without having created or deleted one.
  pub process_replica-Step :
      (pod : Pod) (env : Env W) → Step pod env (process_replica c set update_set true pod env)
  unfolding process_replica is_finished
  process_replica-Step pod env =
      let gone = delete_stateful_pod c.platform set pod env in
      let log = pod_log-delete_stateful_pod c.platform set pod env in
      elim (Bool-cases (is_failed pod || is_succeeded pod)) [
        | inl f ↦ elim (Bool-cases (is_terminating pod)) [
          | inl t ↦ rw (f, t, process_replica) (waited refl refl)
          | inr t ↦ elim (Option-cases gone.0) [
            | inl q ↦ rw (f, t, q, process_replica) (restarted refl f t log)
            | inr (e, q) ↦ rw (f, t, q, process_replica) (restarted refl f t log)
          ]
        ]
        | inr f ↦ elim (Bool-cases (is_created pod)) [
          | inl k ↦ rw (f, k, process_replica) (check_pending-Step pod env)
          | inr k ↦ rw (f, k, process_replica) (create_replica-Step pod env k)
        ]
      ]

  -- processCondemned in the ordered mode always ends the loop. It creates and deletes no pod, or deletes this one,
  -- which then is not terminating, and is ready and available or the first unhealthy one.
  pub process_condemned-Step :
      (first : Bool) (pod : Pod) (env : Env W)
      → (wants_exit (process_condemned c set update_set true first pod env).0 ≡ true)
        × ((pod_log (process_condemned c set update_set true first pod env).1.calls
              ≡ pod_log env.calls)
            ⊎ ((is_terminating pod ≡ false)
                × ((first
                      || is_running_and_ready pod
                        && is_running_and_available pod set.spec.min_ready_seconds c.now)
                    ≡ true)
                × (pod_log (process_condemned c set update_set true first pod env).1.calls
                    ≡ delete_pod pod ∷ pod_log env.calls)))
  unfolding process_condemned
  process_condemned-Step first pod env =
      let log = pod_log-delete_stateful_pod c.platform set pod env in
      elim (Option-cases (delete_stateful_pod c.platform set pod env).0) [
        | inl q ↦ ground (arith, log, q)
        | inr (e, q) ↦ ground (arith, log, q)
      ]

  pub fix_pod_claim-IsQuiet : (pod : Pod) → IsQuiet (fix_pod_claim c set update_set true pod)
  unfolding fix_pod_claim
  fix_pod_claim-IsQuiet pod env =
      ground (arith, update_pod_claim_for_retention_policy-IsQuiet c.platform update_set pod env)
