-- ===== src/PodControl/Writes.antt =====
-- Which operations create or delete pods: the claims and the updates never do.
use xstatefulset.Base.{
  Bool, true, false, ◌≡◌, refl, ◌∙◌, ◌⊎◌, inl, inr, Option, some, List, [], ◌∷◌, keep, arith,
  Option-cases,
}
use xstatefulset.Api.{Error, Result-cases, Pod, PersistentVolumeClaim, XStatefulSet}
use xstatefulset.Identity.Names.{get_ordinal, get_persistent_volume_claim_name}
use xstatefulset.Claims.Storage.{ClaimMap, get_persistent_volume_claims, update_storage}
use xstatefulset.PodControl.Platform.{
  Call, create_pod, delete_pod, Platform, IsPlatform, Env, Attempt, Action,
}
use xstatefulset.PodControl.Claims.{
  create_claim_step, create_claims, create_persistent_volume_claims, update_claim_step,
  update_claims, update_pod_claim_for_retention_policy,
}
use xstatefulset.PodControl.Pods.{
  finish_creation, create_pod_step, create_stateful_pod, delete_stateful_pod,
  create_missing_persistent_volume_claims, conform_storage, conform_claims, commit, update_attempt,
  update_stateful_pod, identified, stored,
}

abbrev pub is_pod_write : Call → Bool
is_pod_write (create_pod _) = true
is_pod_write (delete_pod _) = true
is_pod_write _ = false

-- The pods created and deleted so far, the last one first.
abbrev pub pod_log : List Call → List Call
pod_log calls = keep is_pod_write calls

-- An action that creates and deletes no pod.
abbrev pub IsQuiet : {W A : Type 0} → Action W A → Type 0
IsQuiet {W = W} m = (env : Env W) → pod_log (m env).1.calls ≡ pod_log env.calls

module _ {W : Type 0} (p : Platform W) (set : XStatefulSet) (pod : Pod) where
  create_claim_step-IsQuiet :
      (claim : PersistentVolumeClaim) → IsQuiet (create_claim_step p set pod claim)
  unfolding create_claim_step
  create_claim_step-IsQuiet claim env = ground arith

  create_claims-IsQuiet : (claims : ClaimMap) → IsQuiet (create_claims p set pod claims)
  unfolding create_claims
  create_claims-IsQuiet [] env = refl
  create_claims-IsQuiet ((name, claim) ∷ claims) env =
      create_claims-IsQuiet claims (create_claim_step p set pod claim env).1
      ∙ create_claim_step-IsQuiet claim env

  pub create_persistent_volume_claims-IsQuiet : IsQuiet (create_persistent_volume_claims p set pod)
  unfolding create_persistent_volume_claims
  create_persistent_volume_claims-IsQuiet env =
      create_claims-IsQuiet (p.range (get_persistent_volume_claims set pod)) env

  update_claim_step-IsQuiet :
      (claim : PersistentVolumeClaim) → IsQuiet (update_claim_step p set pod claim)
  unfolding update_claim_step
  update_claim_step-IsQuiet claim env = ground arith

  update_claims-IsQuiet : (ts : List PersistentVolumeClaim) → IsQuiet (update_claims p set pod ts)
  unfolding update_claims
  update_claims-IsQuiet [] env = refl
  update_claims-IsQuiet (t ∷ ts) env =
      elim (Result-cases (
        p.manager.get_claim set.meta.namespace
          (get_persistent_volume_claim_name set t (get_ordinal pod)) env.world)) [
            | inl (claim, e) ↦
                rw (e, update_claims)
                  (ground (
                    arith,
                    update_claim_step-IsQuiet claim env,
                    update_claims-IsQuiet ts (update_claim_step p set pod claim env).1,
                  ))
            | inr (e, q) ↦ rw (q, update_claims) (ground (arith, update_claims-IsQuiet ts env))
          ]

  pub update_pod_claim_for_retention_policy-IsQuiet :
      IsQuiet (update_pod_claim_for_retention_policy p set pod)
  unfolding update_pod_claim_for_retention_policy
  update_pod_claim_for_retention_policy-IsQuiet env =
      update_claims-IsQuiet set.spec.volume_claim_templates env

module _ {W : Type 0} (p : Platform W) (set : XStatefulSet) where
  finish_creation-IsQuiet :
      (pod : Pod) (error : Option Error) → IsQuiet (finish_creation p set pod error)
  unfolding finish_creation
  finish_creation-IsQuiet pod error env =
      ground (arith, update_pod_claim_for_retention_policy-IsQuiet p set pod env)

  pub pod_log-create_pod_step :
      (pod : Pod) (env : Env W)
      → pod_log (create_pod_step p set pod env).1.calls ≡ create_pod pod ∷ pod_log env.calls
  unfolding create_pod_step
  pod_log-create_pod_step pod env =
      let created = p.manager.do_create_pod pod env.world in
      ground (
        arith,
        finish_creation-IsQuiet pod created.0
            (record { world = created.1; calls = create_pod pod ∷ env.calls }),
      )

  -- CreateStatefulPod creates the pod once, or fails before it does; it deletes nothing.
  pub pod_log-create_stateful_pod :
      (pod : Pod) (env : Env W)
      → (pod_log (create_stateful_pod p set pod env).1.calls ≡ create_pod pod ∷ pod_log env.calls)
        ⊎ ((pod_log (create_stateful_pod p set pod env).1.calls ≡ pod_log env.calls)
            × ((e : Error) × ((create_stateful_pod p set pod env).0 ≡ some e)))
  unfolding create_stateful_pod
  pod_log-create_stateful_pod pod env =
      let claims = create_persistent_volume_claims p set pod env in
      let quiet = create_persistent_volume_claims-IsQuiet p set pod env in
      elim (Option-cases claims.0) [
        | inl e ↦ inl (ground (arith, e, quiet, pod_log-create_pod_step pod claims.1))
        | inr (e, h) ↦ inr (ground (arith, h, quiet), (e, ground (arith, h)))
      ]

  pub pod_log-delete_stateful_pod :
      (pod : Pod) (env : Env W)
      → pod_log (delete_stateful_pod p set pod env).1.calls ≡ delete_pod pod ∷ pod_log env.calls
  unfolding delete_stateful_pod
  pod_log-delete_stateful_pod pod env = refl

  pub create_missing_persistent_volume_claims-IsQuiet :
      (pod : Pod) → IsQuiet (create_missing_persistent_volume_claims p set pod)
  unfolding create_missing_persistent_volume_claims
  create_missing_persistent_volume_claims-IsQuiet pod env = ground (
    arith,
    create_persistent_volume_claims-IsQuiet p set pod env,
    update_pod_claim_for_retention_policy-IsQuiet p set pod
        (create_persistent_volume_claims p set pod env).1,
  )

  conform_storage-IsQuiet : (pod : Pod) → IsQuiet (conform_storage p set pod)
  unfolding conform_storage
  conform_storage-IsQuiet pod env =
      ground
        (arith, create_persistent_volume_claims-IsQuiet p set (update_storage p.range set pod) env)

  conform_claims-IsQuiet : (pod : Pod) → IsQuiet (conform_claims p set pod)
  unfolding conform_claims
  conform_claims-IsQuiet pod env =
      ground (arith, update_pod_claim_for_retention_policy-IsQuiet p set pod env)

  commit-quiet :
      (pod : Pod) (env : Env W) → pod_log (commit p set pod env).1.env.calls ≡ pod_log env.calls
  unfolding commit
  commit-quiet pod env = ground arith

  update_attempt-quiet :
      (a : Attempt W) → pod_log (update_attempt p set a).1.env.calls ≡ pod_log a.env.calls
  unfolding update_attempt
  update_attempt-quiet a =
      let named = identified p set a.pod in
      let pod = stored p set named in
      let started = (conform_storage p set named a.env).1 in
      let checked = (conform_claims p set pod started).1 in
      ground (
        arith,
        conform_storage-IsQuiet named a.env,
        conform_claims-IsQuiet pod started,
        commit-quiet pod checked,
      )

  -- However often it is retried on a platform as IsPlatform says, UpdateStatefulPod creates and deletes no pod.
  pub update_stateful_pod-IsQuiet :
      IsPlatform p → (pod : Pod) → IsQuiet (update_stateful_pod p set pod)
  unfolding update_stateful_pod
  update_stateful_pod-IsQuiet law pod env =
      let (b, kept, same) =
        law.retries (update_attempt p set) (λ a. pod_log a.env.calls ≡ pod_log env.calls)
          (record { pod = pod; attempted = false; env = env }) (λ a h. update_attempt-quiet a ∙ h)
          refl in
      ground (arith, same, kept, update_attempt-quiet b)
