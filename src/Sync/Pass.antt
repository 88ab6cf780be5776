-- ===== src/Sync/Pass.antt =====
-- updateStatefulSet in the OrderedReady mode, from the deletion test to the end: the passes put
-- together.
use xstatefulset.Base.{
  Text, ℕ, ◌+◌, ◌≡◌, refl, sym, ap, subst, ◌∙◌, ◌⊎◌, inl, inr, true, false, not, Option, some, List,
  [], ◌∷◌, length, get_elem?, arith, Bool-cases,
}
use xstatefulset.Api.{
  Error, ok, Result-cases, Pod, ControllerRevision, XStatefulSet, XStatefulSetStatus, ordered_ready,
  parallel,
}
use xstatefulset.PodUtil.{is_terminating}
use xstatefulset.PodControl.Platform.{Call, delete_pod, IsPlatform, Env, Action}
use xstatefulset.PodControl.Writes.{pod_log}
use xstatefulset.Sync.Config.{Config}
use xstatefulset.Sync.Rolling.{get_update_min, update_outdated}
use xstatefulset.Sync.Deletions.{
  Deletes, IsUpdatable, update_outdated-Deletes, update_outdated-fault, weaken-Deletes,
  then-Deletes,
}
use xstatefulset.Sync.Replica.{Exit}
use xstatefulset.Sync.Ordered.{AllHealthyBefore, ReplicaEffect, unchanged, replica_pass-Effect}
use xstatefulset.Sync.Update.{
  unless_exit, Plan, allows_burst, is_deleted, is_on_delete, all_passes, finish, enforce, make_plan,
  update_stateful_set, initial_status, recount, replica_pass, claim_pass, condemned_pass,
}
use xstatefulset.Sync.Condemned.{claim_pass-quiet, condemned_pass-Effect}

module _ {W : Type 0} (first next : Action W Exit) (env : Env W) where
  unless_exit-stops : (first env).0.0 ≡ true → unless_exit first next env ≡ first env
  unfolding unless_exit
  unless_exit-stops x = rw (x, unless_exit) refl

  unless_exit-goes_on : (first env).0.0 ≡ false → unless_exit first next env ≡ next (first env).1
  unfolding unless_exit
  unless_exit-goes_on x = rw (x, unless_exit) refl

module _ {W : Type 0} (c : Config W) (set : XStatefulSet) where
  -- What one pass of the control loop may do to the pods.
  pub data Effect (update_revision : Text) (replicas condemned : List Pod)
      (before after : List Call) : Type 0 where
    on_replicas :
        ReplicaEffect c set replicas before after
        → Effect update_revision replicas condemned before after
    scales_down :
        (pod : Pod)
        → get_elem? condemned 0 ≡ some pod
        → is_terminating pod ≡ false
        → AllHealthyBefore c set replicas (length replicas)
        → pod_log after ≡ delete_pod pod ∷ pod_log before
        → Effect update_revision replicas condemned before after
    updates :
        (partition : ℕ)
        → get_update_min set ≡ ok partition
        → condemned ≡ []
        → AllHealthyBefore c set replicas (length replicas)
        → Deletes (IsUpdatable c set update_revision replicas partition) 1 before after
        → Effect update_revision replicas condemned before after

  module _ (current update : ControllerRevision) (law : IsPlatform c.platform) (plan : Plan) where
    abbrev Done : Env W → Env W → Type 0
    Done env after = Effect update.meta.name plan.replicas plan.condemned env.calls after.calls

    -- The passes leave nothing to do, or their effect is that of the whole.
    abbrev Ready : Env W → Env W → Type 0
    Ready env after =
        AllHealthyBefore c set plan.replicas (length plan.replicas)
        × (plan.condemned ≡ [])
        × (pod_log after.calls ≡ pod_log env.calls)

    later :
        (env mid after : Env W)
        → pod_log mid.calls ≡ pod_log env.calls
        → AllHealthyBefore c set plan.replicas (length plan.replicas)
        → (pod : Pod) → get_elem? plan.condemned 0 ≡ some pod
        → is_terminating pod ≡ false
        → pod_log after.calls ≡ delete_pod pod ∷ pod_log mid.calls
        → Done env after
    later env mid after q h pod e t l =
        scales_down pod e t h (l ∙ ap (λ (m : List Call). delete_pod pod ∷ m) q)

    abbrev Passed : Env W → Exit × Env W → Type 0
    Passed env out = ((out.0.0 ≡ true) × Done env out.1) ⊎ ((out.0.0 ≡ false) × Ready env out.1)

    abbrev first_pass : Action W Exit
    first_pass = replica_pass c set current update plan true

    abbrev claims : Action W Exit
    claims = claim_pass c set current update plan true

    abbrev last_pass : Action W Exit
    last_pass = condemned_pass c set current update plan true

    last_pass-Effect :
        (env mid : Env W)
        → pod_log mid.calls ≡ pod_log env.calls
        → AllHealthyBefore c set plan.replicas (length plan.replicas)
        → Passed env (last_pass mid)
    last_pass-Effect env mid q h =
        elim (condemned_pass-Effect c set law plan.update_set plan.first c.schedule plan.condemned
          mid) [
            | inl (none_left, y) ↦ inr (
              ap (λ (out : Exit × Env W). out.0.0) y,
              (h, none_left, ap (λ (out : Exit × Env W). pod_log out.1.calls) y ∙ q),
            )
            | inr (y, inl l) ↦ inl (y, on_replicas (unchanged (l ∙ q)))
            | inr (y, inr (pod, e, t, l)) ↦ inl (y, later env mid (last_pass mid).1 q h pod e t l)
          ]

    all_passes-Effect : (env : Env W) → Passed env (all_passes c set current update plan true env)
    unfolding all_passes
    all_passes-Effect env =
        let rest = unless_exit claims last_pass in
        let mid = (first_pass env).1 in
        let quiet =
          claim_pass-quiet c set law plan.update_set plan.condemned c.schedule
            (length plan.condemned) mid in
        elim (replica_pass-Effect c set law plan.update_set plan.replicas env c.schedule) [
          | inl (x, effect) ↦
              subst (Passed env) (sym (unless_exit-stops first_pass rest env x))
                (inl (x, on_replicas effect))
          | inr (e, (h, q)) ↦
              subst (Passed env)
                (sym (unless_exit-goes_on first_pass rest env (ap (λ (x : Exit). x.0) e)))
                (elim (Bool-cases (claims mid).0.0) [
                  | inl x ↦
                      subst (Passed env) (sym (unless_exit-stops claims last_pass mid x))
                        (inl (x, on_replicas (unchanged (quiet ∙ q))))
                  | inr x ↦
                      subst (Passed env) (sym (unless_exit-goes_on claims last_pass mid x))
                        (last_pass-Effect env (claims mid).1 (quiet ∙ q) h)
                ])
        ]

    rolling-Effect :
        (env mid : Env W) (status : XStatefulSetStatus)
        → c.max_unavailable_gate ≡ false
        → Ready env mid
        → Done env (update_outdated c set update.meta.name plan.replicas status mid).1
    rolling-Effect env mid status gate (h, none_left, q) =
        elim (Result-cases (get_update_min set)) [
          | inr (e, f) ↦ on_replicas (
              unchanged (
                ap (λ (out : (XStatefulSetStatus × Option Error) × Env W). pod_log out.1.calls)
                  (update_outdated-fault c set update.meta.name plan.replicas status mid e gate f)
                ∙ q))
          | inl (partition, m) ↦ updates partition m none_left h (
              weaken-Deletes _ _ (0 + 1) 1 _ _ (λ _ t. t) (omega arith)
                (then-Deletes _ 0 1 env.calls mid.calls _
                  (record { pods = []; few = omega arith; each = tt; log = q })
                  (update_outdated-Deletes c set update.meta.name plan.replicas status mid partition
                    gate m)))
        ]

    finish-Effect :
        (env mid : Env W) (status : XStatefulSetStatus) (exit : Exit)
        → c.max_unavailable_gate ≡ false
        → Passed env (exit, mid)
        → Done env (finish c set current update plan status exit mid).1
    unfolding finish
    finish-Effect env mid status exit gate passed = elim passed [
      | inl (x, done) ↦ rw (x, finish) done
      | inr (x, (h, none_left, q)) ↦ elim (Bool-cases (is_on_delete set)) [
        | inl d ↦ rw (x, d, finish) (on_replicas (unchanged q))
        | inr d ↦
            rw (x, d, finish)
              (rolling-Effect env mid
                (recount c set current update status (plan.replicas ∷ (plan.condemned ∷ []))) gate
                (h, none_left, q))
      ]
    ]

    -- From the deletion test to the end, in the ordered mode with the gate off.
    pub enforce-Effect :
        (status : XStatefulSetStatus) (env : Env W)
        → set.spec.pod_management_policy ≡ ordered_ready
        → c.max_unavailable_gate ≡ false
        → Done env (enforce c set current update plan status env).1
    unfolding enforce allows_burst
    enforce-Effect status env ordered gate =
        let out = all_passes c set current update plan true env in
        let is_ordered : not (allows_burst set) ≡ true =
          ap (λ p. not (elim p [ ordered_ready ↦ false | parallel ↦ true ])) ordered in
        elim (Bool-cases (is_deleted set)) [
          | inl d ↦ rw (d, enforce) (on_replicas (unchanged refl))
          | inr d ↦
              rw (d, enforce)
                (subst
                  (λ b.
                    let (exit, after) = all_passes c set current update plan b env in
                    Done env (finish c set current update plan status exit after).1)
                  (sym is_ordered)
                  (finish-Effect env out.1 status out.0 gate (all_passes-Effect env)))
        ]

-- On a platform that retries as IsPlatform says, one pass of updateStatefulSet over an OrderedReady
-- set, with the MaxUnavailableStatefulSet gate
-- off, makes at most one of these writes, and no other pod is created or deleted: it creates a
-- missing replica, or deletes a finished one that is not terminating, with all the replicas in
-- front of it healthy; it deletes the first condemned pod, which is not terminating, with all
-- replicas healthy; or, with no condemned pod left and all replicas healthy, it deletes one replica
-- at or above the partition that is not at the update revision. Where the replicas cannot be worked
-- out, nothing is called at all.
pub update_stateful_set-Effect :
    {W : Type 0} (c : Config W) (law : IsPlatform c.platform) (set : XStatefulSet)
    (current update : ControllerRevision) (collision_count : ℕ) (pods : List Pod) (env : Env W)
    → set.spec.pod_management_policy ≡ ordered_ready
    → c.max_unavailable_gate ≡ false
    → ((plan : Plan) × (make_plan c set current update pods ≡ ok plan)
        × Effect c set update.meta.name plan.replicas plan.condemned env.calls
            (update_stateful_set c set current update collision_count pods env).1.calls)
      ⊎ ((update_stateful_set c set current update collision_count pods env).1 ≡ env)
unfolding update_stateful_set
update_stateful_set-Effect c law set current update collision_count pods env ordered gate =
    let status =
      recount c set current update
        (initial_status set current.meta.name update.meta.name collision_count) (pods ∷ []) in
    elim (Result-cases (make_plan c set current update pods)) [
      | inr (e, q) ↦ inr (rw (q, update_stateful_set) refl)
      | inl (plan, q) ↦ inl (
        plan,
        q,
        rw (q, update_stateful_set)
            (enforce-Effect c set current update law plan status env ordered gate),
      )
    ]
