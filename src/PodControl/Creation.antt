-- ===== src/PodControl/Creation.antt =====
-- What CreateStatefulPod does with the errors of its calls.
use xstatefulset.Base.{false, ◌≡◌, Option, none, some, ◌∷◌}
use xstatefulset.Api.{Error, Pod, XStatefulSet}
use xstatefulset.PodControl.Platform.{create_pod, Platform, Env}
use xstatefulset.PodControl.Claims.{
  create_persistent_volume_claims, update_pod_claim_for_retention_policy,
}
use xstatefulset.PodControl.Pods.{exists_already}
use xstatefulset.PodControl.Writes.{pod_log}

module _ {W : Type 0} (p : Platform W) (set : XStatefulSet) (pod : Pod) where
  -- The world and the calls after the API server was asked to create the pod.
  abbrev pub asked : Env W → Env W
  asked env = record {
    world = (p.manager.do_create_pod pod env.world).1;
    calls = create_pod pod ∷ env.calls;
  }

  abbrev pub answer : Env W → Option Error
  answer env = (p.manager.do_create_pod pod env.world).0

  -- The result is the API server's answer, or the error of the claims' owners, which are looked at
  -- unless the pod exists already.
  pub data Reports (env : Env W) (result : Option Error) : Type 0 where
    answered : result ≡ answer env → Reports env result
    owners_failed :
        (e : Error)
        → exists_already p set (answer env) ≡ false
        → (update_pod_claim_for_retention_policy p set pod (asked env)).0 ≡ some e
        → result ≡ some e
        → Reports env result

  -- Where the claims fail, nothing more is done: their error is the result, the world is as they left
  -- it, and no pod is written. Otherwise the API server is asked once, and its answer is reported.
  pub data Creation (env : Env W) (out : Option Error × Env W) : Type 0 where
    refused :
        (e : Error)
        → (create_persistent_volume_claims p set pod env).0 ≡ some e
        → out.0 ≡ some e
        → out.1.world ≡ (create_persistent_volume_claims p set pod env).1.world
        → pod_log out.1.calls ≡ pod_log env.calls
        → Creation env out
    made :
        (create_persistent_volume_claims p set pod env).0 ≡ none
        → pod_log out.1.calls ≡ create_pod pod ∷ pod_log env.calls
        → Reports (create_persistent_volume_claims p set pod env).1 out.0
        → Creation env out
