-- ===== src/Sync/Condemned.antt =====
-- The passes over the condemned pods in the ordered mode: the one over their claims changes no pod,
-- and the last one deletes at most the first of them.
use xstatefulset.Base.{
  ℕ, ◌≡◌, refl, sym, ap, subst, ◌∙◌, ◌⊎◌, inl, inr, true, false, Option, none, some, List, [], ◌∷◌,
  length, get_elem?, Option-cases,
}
use xstatefulset.Api.{Pod, XStatefulSet}
use xstatefulset.PodUtil.{is_terminating}
use xstatefulset.Batch.{run_in_order, run_for_all}
use xstatefulset.Batch.Runs.{run_in_order-rule, run_in_order-exit}
use xstatefulset.PodControl.Platform.{delete_pod, IsPlatform, Env}
use xstatefulset.PodControl.Writes.{pod_log}
use xstatefulset.Sync.Config.{Config}
use xstatefulset.Sync.Replica.{Exit, fix_pod_claim, process_condemned}
use xstatefulset.Sync.Steps.{process_condemned-Step, fix_pod_claim-IsQuiet}
use xstatefulset.Sync.Partition.{Position}
use xstatefulset.Sync.Update.{on_pod, at, is_condemned_at}

module _ {W : Type 0} (c : Config W) (set : XStatefulSet) where
  module _ (law : IsPlatform c.platform) (update_set : XStatefulSet) (condemned : List Pod) where
    abbrev pub claim_step : ℕ → Env W → Exit × Env W
    claim_step = at condemned (λ i. fix_pod_claim c set update_set true)

    claim_step-quiet : (i : ℕ) (s : Env W) → pod_log (claim_step i s).1.calls ≡ pod_log s.calls
    claim_step-quiet i s = elim (Option-cases (get_elem? condemned i)) [
      | inl e ↦
          subst
            (λ o.
              pod_log (on_pod (fix_pod_claim c set update_set true) o s).1.calls ≡ pod_log s.calls)
            (sym e) refl
      | inr (pod, e) ↦
          subst
            (λ o.
              pod_log (on_pod (fix_pod_claim c set update_set true) o s).1.calls ≡ pod_log s.calls)
            (sym e) (fix_pod_claim-IsQuiet c law set update_set pod s)
    ]

    pub claim_pass-quiet :
        (schedule : List ℕ → List ℕ) (n : ℕ) (env : Env W)
        → pod_log (run_for_all claim_step schedule n true env).1.calls ≡ pod_log env.calls
    unfolding run_for_all
    claim_pass-quiet schedule n env =
        elim (run_in_order-rule claim_step (λ _ s. pod_log s.calls ≡ pod_log env.calls)
          (λ s. pod_log s.calls ≡ pod_log env.calls) (λ i s h _. claim_step-quiet i s ∙ h)
          (λ i s h _. claim_step-quiet i s ∙ h) n 0 env refl) [ inl (_, h) ↦ h | inr (_, h) ↦ h ]

  module _ (law : IsPlatform c.platform) (update_set : XStatefulSet) (first : Option Position) where
    abbrev pub condemned_step : List Pod → ℕ → Env W → Exit × Env W
    condemned_step pods =
        at pods (λ i. process_condemned c set update_set true (is_condemned_at first i))

    pub condemned_pass-Effect :
        (schedule : List ℕ → List ℕ) (pods : List Pod) (env : Env W)
        → ((pods ≡ [])
            × (run_for_all (condemned_step pods) schedule (length pods) true env
                ≡ ((false, none), env)))
          ⊎ (((run_for_all (condemned_step pods) schedule (length pods) true env).0.0 ≡ true)
              × ((pod_log
                      (run_for_all (condemned_step pods) schedule (length pods) true env).1.calls
                    ≡ pod_log env.calls)
                  ⊎ ((pod : Pod) × (get_elem? pods 0 ≡ some pod)
                      × (is_terminating pod ≡ false)
                      × (pod_log
                            (run_for_all
                              (condemned_step pods)
                              schedule
                              (length pods)
                              true
                              env).1.calls
                          ≡ delete_pod pod ∷ pod_log env.calls))))
    unfolding run_for_all run_in_order
    condemned_pass-Effect schedule [] env = inl (refl, refl)
    condemned_pass-Effect schedule (pod ∷ pods) env =
        let (x, l) =
          process_condemned-Step c law set update_set (is_condemned_at first 0) pod env in
        let (exits, same) = run_in_order-exit (condemned_step (pod ∷ pods)) (length pods) 0 env x in
        inr (
          exits,
          elim l [
            | inl quiet ↦ inl (ap (λ (s : Env W). pod_log s.calls) same ∙ quiet)
            | inr (t, _, gone) ↦ inr (pod, refl, t, ap (λ (s : Env W). pod_log s.calls) same ∙ gone)
          ],
        )
