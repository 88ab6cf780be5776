-- ===== src/Sync/Ordered.antt =====
-- One pass of the control loop in the OrderedReady mode: what it may do to the pods.
use xstatefulset.Base.{
  ℕ, suc, ◌≡◌, ◌<◌, refl, sym, ap, subst, ◌∙◌, ◌⊎◌, inl, inr, Bool, true, false, Option, none, some,
  List, ◌∷◌, length, get_elem?, arith, Bool-cases, Option-cases, ltb,
}
use xstatefulset.Api.{Pod, XStatefulSet}
use xstatefulset.PodUtil.{is_created, is_terminating}
use xstatefulset.Batch.{run_in_order, run_for_all}
use xstatefulset.Batch.Runs.{wants_exit, run_in_order-rule}
use xstatefulset.PodControl.Platform.{Call, create_pod, delete_pod, IsPlatform, Env}
use xstatefulset.PodControl.Writes.{pod_log}
use xstatefulset.Sync.Config.{Config}
use xstatefulset.Sync.Replica.{Exit, process_replica}
use xstatefulset.Sync.Steps.{
  is_healthy, is_finished, passed, waited, created, restarted, process_replica-Step,
}
use xstatefulset.Sync.Update.{on_pod, at}

module _ {W : Type 0} (c : Config W) (set : XStatefulSet) where
  abbrev pub healthy : Pod → Bool
  healthy pod = is_healthy c.now set.spec.min_ready_seconds pod

  some_inj : {a b : Pod} → some a ≡ some b → a ≡ b
  some_inj e = cc

  -- Every pod in front of the index is healthy.
  pub AllHealthyBefore : List Pod → ℕ → Type 0
  AllHealthyBefore pods i =
      (j : ℕ) (pod : Pod) → j < i → get_elem? pods j ≡ some pod → healthy pod ≡ true

  -- What the pass over the replicas may do.
  pub data ReplicaEffect (replicas : List Pod) (before after : List Call) : Type 0 where
    unchanged : pod_log after ≡ pod_log before → ReplicaEffect replicas before after
    creates :
        (i : ℕ) (pod : Pod)
        → get_elem? replicas i ≡ some pod
        → is_created pod ≡ false
        → AllHealthyBefore replicas i
        → pod_log after ≡ create_pod pod ∷ pod_log before
        → ReplicaEffect replicas before after
    restarts :
        (i : ℕ) (pod : Pod)
        → get_elem? replicas i ≡ some pod
        → is_finished pod ≡ true
        → is_terminating pod ≡ false
        → AllHealthyBefore replicas i
        → pod_log after ≡ delete_pod pod ∷ pod_log before
        → ReplicaEffect replicas before after

  module _ (law : IsPlatform c.platform) (update_set : XStatefulSet) (replicas : List Pod)
      (env : Env W) where
    abbrev step : ℕ → Env W → Exit × Env W
    step = at replicas (λ i. process_replica c set update_set true)

    abbrev Before : ℕ → Env W → Type 0
    Before i s = AllHealthyBefore replicas i × (pod_log s.calls ≡ pod_log env.calls)

    one_more :
        (i : ℕ)
        → AllHealthyBefore replicas i
        → ((pod : Pod) → get_elem? replicas i ≡ some pod → healthy pod ≡ true)
        → AllHealthyBefore replicas (suc i)
    unfolding AllHealthyBefore
    one_more i h k j pod lt e = elim (Bool-cases (ltb j i)) [
      | inl t ↦ h j pod (ground arith) e
      | inr f ↦ k pod (ap (λ (n : ℕ). get_elem? replicas n) (ground arith) ∙ e)
    ]

    -- What is shown of the step on a pod holds of the step at its index.
    at_pod {κ} :
        (P : Exit × Env W → Type κ) (i : ℕ) (s : Env W) (o : Option Pod)
        → get_elem? replicas i ≡ o
        → P (on_pod (process_replica c set update_set true) o s)
        → P (step i s)
    at_pod P i s o e h =
        subst (λ o'. P (on_pod (process_replica c set update_set true) o' s)) (sym e) h

    step_ends :
        (i : ℕ) (s : Env W)
        → Before i s
        → wants_exit (step i s).0 ≡ true
        → ReplicaEffect replicas env.calls (step i s).1.calls
    step_ends i s (h, q) x =
        let P : Exit × Env W → Type 0 = λ out. ReplicaEffect replicas env.calls out.1.calls in
        elim (Option-cases (get_elem? replicas i)) [
          | inl e ↦ at_pod P i s none e (unchanged q)
          | inr (pod, e) ↦
              at_pod P i s (some pod) e (elim (process_replica-Step c law set update_set pod s) [
                | passed y _ l ↦ unchanged (l ∙ q)
                | waited y l ↦ unchanged (l ∙ q)
                | created y n l ↦
                    creates i pod e n h (l ∙ ap (λ (m : List Call). create_pod pod ∷ m) q)
                | restarted y f t l ↦
                    restarts i pod e f t h (l ∙ ap (λ (m : List Call). delete_pod pod ∷ m) q)
              ])
        ]

    step_passes :
        (i : ℕ) (s : Env W)
        → Before i s
        → wants_exit (step i s).0 ≡ false
        → Before (suc i) (step i s).1
    step_passes i s (h, q) x = elim (Option-cases (get_elem? replicas i)) [
      | inl e ↦ (
        one_more i h (λ pod e'. absurd (cc)),
        at_pod (λ out. pod_log out.1.calls ≡ pod_log env.calls) i s none e q,
      )
      | inr (pod, e) ↦
          let y =
            subst (λ o. wants_exit (on_pod (process_replica c set update_set true) o s).0 ≡ false) e
              x in
          elim (process_replica-Step c law set update_set pod s) [
            | passed _ k l ↦ (
              one_more i h (λ pod' e'. ap healthy (some_inj (sym e' ∙ e)) ∙ k),
              at_pod (λ out. pod_log out.1.calls ≡ pod_log env.calls) i s (some pod) e (l ∙ q),
            )
            | waited z _ ↦ absurd (cc)
            | created z _ _ ↦ absurd (cc)
            | restarted z _ _ _ ↦ absurd (cc)
          ]
    ]

    none_before : AllHealthyBefore replicas 0
    unfolding AllHealthyBefore
    none_before j pod lt e = absurd (omega arith)

    -- The pass over the replicas: it ends with an effect, or leaves all replicas healthy.
    pub replica_pass-Effect :
        (schedule : List ℕ → List ℕ)
        → (((run_for_all step schedule (length replicas) true env).0.0 ≡ true)
            × ReplicaEffect replicas env.calls
                (run_for_all step schedule (length replicas) true env).1.calls)
          ⊎ (((run_for_all step schedule (length replicas) true env).0 ≡ (false, none))
              × Before (length replicas) (run_for_all step schedule (length replicas) true env).1)
    unfolding run_for_all
    replica_pass-Effect schedule =
        elim (run_in_order-rule step Before (λ s. ReplicaEffect replicas env.calls s.calls)
          step_passes step_ends (length replicas) 0 env (none_before, refl)) [
            | inl out ↦ inl out
            | inr (e, b) ↦ inr (
              e,
              subst (λ n. Before n (run_in_order step (length replicas) 0 env).1) (omega arith) b,
            )
          ]
