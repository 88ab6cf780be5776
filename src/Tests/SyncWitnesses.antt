-- ===== src/Tests/SyncWitnesses.antt =====
-- The theorems of the control loop at concrete inputs, and a run of a batch.
use xstatefulset.Base.{In, keep, ◌↔◌}
use xstatefulset.Sync.Descending.{IsDescending, is_outside, make_plan-IsDescending}
use xstatefulset.Api.{Result, err, XStatefulSet, Pod}
use xstatefulset.Base.{ap}
use xstatefulset.Base.{
  ℕ, zero, suc, ◌-◌, ◌≡◌, ◌⊎◌, refl, Bool, true, false, ◌&&◌, ◌||◌, Option, none, some, List, [],
  ◌∷◌, codes, length, arith, count,
}
use xstatefulset.Api.{Error, message, ok}
use xstatefulset.PodUtil.{
  is_unavailable, is_running_and_ready, is_running_and_available, is_terminating,
}
use xstatefulset.Identity.Names.{pod_in_ordinal_range, get_start_ordinal, get_ordinal}
use xstatefulset.Batch.{slow_start_batch}
use xstatefulset.Batch.Runs.{wants_exit}
use xstatefulset.Batch.SlowStart.{Outcome, slow_start_batch-Outcome}
use xstatefulset.PodControl.Platform.{delete_pod}
use xstatefulset.PodControl.Pods.{update_stateful_pod}
use xstatefulset.PodControl.Writes.{pod_log, update_stateful_pod-IsQuiet}
use xstatefulset.PodControl.Creation.{Creation}
use xstatefulset.Sync.Rolling.{
  get_update_min, get_max_unavailable, get_stateful_set_max_unavailable,
  update_stateful_set_after_invariant_established, update_outdated,
}
use xstatefulset.Sync.Deletions.{
  Deletes, IsUpdatable, update_stateful_set_after_invariant_established-Deletes,
  update_outdated-Deletes,
}
use xstatefulset.Sync.Replica.{process_replica, process_condemned}
use xstatefulset.Sync.Steps.{ReplicaStep, is_healthy, process_replica-Step, process_condemned-Step}
use xstatefulset.Sync.Update.{Plan, make_plan, update_stateful_set}
use xstatefulset.Sync.Partition.{fill, partition_pods}
use xstatefulset.Sync.Ordinals.{InOrder, make_plan-InOrder}
use xstatefulset.Sync.Pass.{Effect, update_stateful_set-Effect}
use xstatefulset.Tests.Samples.{
  no_status, web, web_0, web_1, web_5, platform, platform_law, same_order, config, env, revision,
  plan,
}

ok_web : {s : XStatefulSet} → ok web ≡ ok s → s ≡ web
ok_web e = cc

-- Call 2 of five fails.
abbrev fails_at_two : ℕ → ℕ → (Bool × Option Error) × ℕ
fails_at_two zero s = ((false, none), suc s)
fails_at_two (suc zero) s = ((false, none), suc s)
fails_at_two (suc (suc zero)) s = ((true, some message), suc s)
fails_at_two (suc (suc (suc n))) s = ((false, none), suc s)

run_of_five : slow_start_batch fails_at_two (λ ks. ks) 1 5 0 ≡ ((2, message ∷ []), 3)
unfolding slow_start_batch
run_of_five = refl

slow_start_batch-Outcome_example :
    Outcome fails_at_two
      (λ ks. ks)
      same_order
      0
      5
      0
      (slow_start_batch fails_at_two (λ ks. ks) 1 5 0)
      0
slow_start_batch-Outcome_example = slow_start_batch-Outcome fails_at_two (λ ks. ks) same_order 5 0

update_stateful_set-Effect_example :
    ((p : Plan) × (make_plan
          (config false)
          web
          (revision (codes "web-1"))
          (revision (codes "web-2"))
          (web_0 ∷ [])
        ≡ ok p)
      × Effect
          (config false)
          web
          (codes "web-2")
          p.replicas
          p.condemned
          []
          (update_stateful_set
            (config false)
            web
            (revision (codes "web-1"))
            (revision (codes "web-2"))
            0
            (web_0 ∷ [])
            env).1.calls)
    ⊎ ((update_stateful_set
          (config false)
          web
          (revision (codes "web-1"))
          (revision (codes "web-2"))
          0
          (web_0 ∷ [])
          env).1
        ≡ env)
update_stateful_set-Effect_example =
    update_stateful_set-Effect (config false) platform_law web (revision (codes "web-1"))
      (revision (codes "web-2")) 0 (web_0 ∷ []) env refl refl

abbrev pods : List Pod
pods = web_0 ∷ (web_5 ∷ (web_1 ∷ []))

abbrev plan_of : Result Plan → Plan
plan_of (ok p) = p
plan_of (err e) = plan

abbrev sample_plan : Plan
sample_plan =
    plan_of
      (make_plan (config false) web (revision (codes "web-1")) (revision (codes "web-2")) pods)

make_plan-InOrder_example :
    InOrder (get_start_ordinal web) sample_plan.replicas × (length sample_plan.replicas ≡ 2)
unfolding make_plan fill partition_pods pod_in_ordinal_range get_ordinal get_start_ordinal
make_plan-InOrder_example =
    make_plan-InOrder (config false) web (revision (codes "web-1")) (revision (codes "web-2")) pods
      sample_plan refl (λ r s e. ap (λ (x : XStatefulSet). x.meta.name) (ok_web e)) (omega arith)
      refl

process_replica-Step_example :
    ReplicaStep
      (is_healthy 10 0 web_1)
      web_1
      (process_replica (config false) web web true web_1 env).0
      []
      (process_replica (config false) web web true web_1 env).1.calls
process_replica-Step_example = process_replica-Step (config false) platform_law web web web_1 env

process_condemned-Step_example :
    (wants_exit (process_condemned (config false) web web true false web_5 env).0 ≡ true)
    × ((pod_log (process_condemned (config false) web web true false web_5 env).1.calls ≡ [])
        ⊎ ((is_terminating web_5 ≡ false)
            × ((false || is_running_and_ready web_5 && is_running_and_available web_5 0 10) ≡ true)
            × (pod_log (process_condemned (config false) web web true false web_5 env).1.calls
                ≡ delete_pod web_5 ∷ [])))
process_condemned-Step_example =
    process_condemned-Step (config false) platform_law web web false web_5 env

update_outdated-Deletes_example :
    Deletes
      (IsUpdatable (config false) web (codes "web-2") (web_0 ∷ (web_0 ∷ [])) 0)
      1
      []
      (update_outdated
        (config false)
        web
        (codes "web-2")
        (web_0 ∷ (web_0 ∷ []))
        no_status
        env).1.calls
unfolding get_update_min
update_outdated-Deletes_example =
    update_outdated-Deletes (config false) web (codes "web-2") (web_0 ∷ (web_0 ∷ [])) no_status env
      0 refl refl

update_stateful_set_after_invariant_established-Deletes_example :
    Deletes
      (IsUpdatable (config true) web (codes "web-2") (web_0 ∷ (web_0 ∷ [])) 0)
      (2 - count (λ pod. is_unavailable pod 0 10) (web_0 ∷ (web_0 ∷ [])))
      []
      (update_stateful_set_after_invariant_established
        (config true)
        web
        (codes "web-2")
        (web_0 ∷ (web_0 ∷ []))
        no_status
        env).1.calls
unfolding get_update_min get_max_unavailable get_stateful_set_max_unavailable
update_stateful_set_after_invariant_established-Deletes_example =
    update_stateful_set_after_invariant_established-Deletes (config true) web (codes "web-2")
      (web_0 ∷ (web_0 ∷ [])) no_status env 0 2 refl refl

update_stateful_pod-IsQuiet_example :
    pod_log (update_stateful_pod platform web web_0 env).1.calls ≡ []
update_stateful_pod-IsQuiet_example =
    update_stateful_pod-IsQuiet platform web platform_law web_0 env

make_plan-IsDescending_example :
    IsDescending sample_plan.condemned
    × ((pod : Pod) → In pod sample_plan.condemned ↔ In pod (keep (is_outside web) pods))
unfolding make_plan fill partition_pods pod_in_ordinal_range get_ordinal get_start_ordinal
make_plan-IsDescending_example =
    make_plan-IsDescending (config false) web (revision (codes "web-1")) (revision (codes "web-2"))
      pods sample_plan refl
