-- ===== src/PodControl/Pods.antt =====
-- The pods: CreateStatefulPod, UpdateStatefulPod, DeleteStatefulPod and
-- createMissingPersistentVolumeClaims, with the events that they record.
use xstatefulset.Base.{Bool, true, false, ◌&&◌, Option, none, some, if◌then◌else◌}
use xstatefulset.Api.{Error, Result, ok, err, is_already_exists, Pod, XStatefulSet}
use xstatefulset.Identity.Names.{identity_matches, update_identity}
use xstatefulset.Claims.Storage.{storage_matches, update_storage}
use xstatefulset.PodControl.Platform.{
  Verb, create, update, deletion, create_pod, update_pod, delete_pod, pod_event, Platform, Env,
  Attempt, Action, log, call, ◌>>=◌, ◌>>◌, return, is_error,
}
use xstatefulset.PodControl.Claims.{
  create_persistent_volume_claims, claims_match_retention_policy,
  update_pod_claim_for_retention_policy,
}

module _ {W : Type 0} (p : Platform W) (set : XStatefulSet) where
  abbrev pub record_pod_event : Verb → Pod → Option Error → Action W (Unit {0})
  record_pod_event verb pod error = log (pod_event verb pod (is_error error))

  abbrev pub exists_already : Option Error → Bool
  exists_already none = false
  exists_already (some e) = is_already_exists e

  -- The end of CreateStatefulPod, behind the call that creates the pod.
  unfoldable pub finish_creation : Pod → Option Error → Action W (Option Error)
  finish_creation pod error = do
    refs ← update_pod_claim_for_retention_policy p set pod
    elim refs [
      | some e ↦ record_pod_event update pod (some e) >> return (some e)
      | none ↦ record_pod_event create pod error >> return error
    ]

  -- The call that creates the pod, and what follows it.
  unfoldable pub create_pod_step : Pod → Action W (Option Error)
  create_pod_step pod = do
    error ← call (create_pod pod) (p.manager.do_create_pod pod)
    if exists_already error then return error else finish_creation pod error

  -- A failure to create the pod is reported unless the pod exists already; the claims' owners are
  -- updated in both the other cases.
  unfoldable pub create_stateful_pod : Pod → Action W (Option Error)
  create_stateful_pod pod = do
    claims ← create_persistent_volume_claims p set pod
    elim claims [
      | some e ↦ record_pod_event create pod (some e) >> return (some e)
      | none ↦ create_pod_step pod
    ]

  unfoldable pub delete_stateful_pod : Pod → Action W (Option Error)
  delete_stateful_pod pod = do
    error ← call (delete_pod pod) (p.manager.do_delete_pod pod)
    record_pod_event deletion pod error
    return error

  unfoldable pub create_missing_persistent_volume_claims : Pod → Action W (Option Error)
  create_missing_persistent_volume_claims pod = do
    claims ← create_persistent_volume_claims p set pod
    elim claims [
      | some e ↦ return (some e)
      | none ↦ (do
        refs ← update_pod_claim_for_retention_policy p set pod
        elim refs [
          | some e ↦ record_pod_event update pod (some e) >> return (some e)
          | none ↦ return none
        ])
    ]

  -- The parts of UpdateStatefulPod's closure. Each returns the error that ends the closure, or
  -- whether the pod is still consistent.
  unfoldable pub conform_storage : Pod → Action W (Result Bool)
  conform_storage pod = if storage_matches set pod then return (ok true) else (do
    error ← create_persistent_volume_claims p set (update_storage p.range set pod)
    elim error [
      | none ↦ return (ok false)
      | some e ↦ record_pod_event update (update_storage p.range set pod) (some e) >> return (err e)
    ])

  unfoldable pub conform_claims : Pod → Action W (Result Bool)
  conform_claims pod env = elim (claims_match_retention_policy p set pod env.world) [
    | err e ↦ (record_pod_event update pod (some e) >> return (err e)) env
    | ok true ↦ (ok true, env)
    | ok false ↦
        (do
          error ← update_pod_claim_for_retention_policy p set pod
          elim error [
            | none ↦ return (ok false)
            | some e ↦ record_pod_event update pod (some e) >> return (err e)
          ])
          env
  ]

  -- The write at the end of the closure; after a failure the pod is read again.
  unfoldable pub commit : Pod → Env W → Option Error × Attempt W
  commit pod env =
      let (error, after) = call (update_pod pod) (p.manager.do_update_pod pod) env in
      elim error [
        | none ↦ (none, record { pod = pod; attempted = true; env = after })
        | some e ↦
            let pod' : Pod = elim (p.manager.get_pod set.meta.namespace pod.meta.name after.world) [
              | ok updated ↦ updated
              | err _ ↦ pod
            ] in
            (some e, record { pod = pod'; attempted = true; env = after })
      ]

  abbrev pub identified : Pod → Pod
  identified pod = if identity_matches set pod then pod else update_identity set pod

  abbrev pub stored : Pod → Pod
  stored pod = if storage_matches set pod then pod else update_storage p.range set pod

  -- The closure that UpdateStatefulPod retries on a conflict.
  unfoldable pub update_attempt : Attempt W → Option Error × Attempt W
  update_attempt a =
      let same = identity_matches set a.pod in
      let named = identified a.pod in
      let pod = stored named in
      let (storage, started) = conform_storage named a.env in
      elim storage [
        | err e ↦ (some e, record a { pod = pod; env = started })
        | ok stored_well ↦
            let (claims, checked) = conform_claims pod started in
            elim claims [
              | err e ↦ (some e, record a { pod = pod; env = checked })
              | ok owned_well ↦
                  if same && stored_well && owned_well
                  then (none, record a { pod = pod; env = checked })
                  else commit pod checked
            ]
      ]

  unfoldable pub update_stateful_pod : Pod → Action W (Option Error)
  update_stateful_pod pod env =
      let (error, a) =
        p.retry_on_conflict update_attempt (record { pod = pod; attempted = false; env = env }) in
      if a.attempted
      then (record_pod_event update a.pod error >> return error) a.env
      else (error, a.env)
