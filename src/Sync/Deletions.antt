-- ===== src/Sync/Deletions.antt =====
-- What a rolling update deletes: the deletions that are left in the log.
use xstatefulset.Base.{
  text_eq_iff, ◌≢◌, ℕ, zero, suc, ◌+◌, ◌-◌, ◌≡◌, ◌≤◌, subst, refl, sym, ap, ◌∙◌, inl, inr, true,
  false, some, List, [], ◌∷◌, ◌++◌, map, Text, length, length-append, append_assoc, get_elem?, drop,
  count, All, All-append, All-map, In, reverse-In, In-get_elem?, get_elem?-drop, leb, arith,
  if◌then◌else◌, Bool-cases, Option-cases,
}
use mathlib.Core.List.{map-append}
use xstatefulset.Api.{Error, ok, err, Pod, XStatefulSet, XStatefulSetStatus}
use xstatefulset.PodUtil.{is_unavailable, is_terminating, get_pod_revision}
use xstatefulset.PodControl.Platform.{Call, delete_pod, Env}
use xstatefulset.PodControl.Pods.{delete_stateful_pod}
use xstatefulset.PodControl.Writes.{pod_log, pod_log-delete_stateful_pod}
use xstatefulset.Sync.Config.{Config}
use xstatefulset.Sync.Rolling.{
  is_outdated, targets, lower, real_error, delete_one, delete_up_to, get_update_min,
  get_max_unavailable, delete_outdated, update_one_at_a_time,
  update_stateful_set_after_invariant_established, update_outdated,
}

-- Between the two logs at most `bound` pods were deleted, each of which satisfies P, and no pod was
-- created. The pods are listed with the last one first.
pub record Deletes (P : Pod → Type 0) (bound : ℕ) (before after : List Call) : Type 0 where
  pub pods : List Pod
  pub few : length pods ≤ bound
  pub each : All P pods
  pub log : pod_log after ≡ map delete_pod pods ++ pod_log before

module _ (P : Pod → Type 0) where
  pub no-Deletes : (bound : ℕ) (calls : List Call) → Deletes P bound calls calls
  no-Deletes bound calls = record { pods = []; few = omega arith; each = tt; log = refl }

  pub one_delete :
      (pod : Pod) (before after : List Call)
      → P pod
      → pod_log after ≡ delete_pod pod ∷ pod_log before
      → Deletes P 1 before after
  one_delete pod before after h e = record {
    pods = pod ∷ [];
    few = omega arith;
    each = (h, tt);
    log = e;
  }

  pub then-Deletes :
      (m n : ℕ) (a b c : List Call) → Deletes P m a b → Deletes P n b c → Deletes P (m + n) a c
  then-Deletes m n a b c d e = record {
    pods = e.pods ++ d.pods;
    few = omega (arith, length-append e.pods d.pods, d.few, e.few);
    each = All-append P e.pods d.pods e.each d.each;
    log =
        e.log
        ∙ ap (λ (l : List Call). map delete_pod e.pods ++ l) d.log
        ∙ sym (append_assoc (map delete_pod e.pods) (map delete_pod d.pods) (pod_log a))
        ∙ ap (λ (l : List Call). l ++ pod_log a) (sym (map-append delete_pod e.pods d.pods));
  }

pub weaken-Deletes :
    (P Q : Pod → Type 0) (m n : ℕ) (a b : List Call)
    → ((pod : Pod) → P pod → Q pod)
    → m ≤ n
    → Deletes P m a b
    → Deletes Q n a b
weaken-Deletes P Q m n a b f le d = record {
  pods = d.pods;
  few = omega (arith, d.few);
  each = All-map P Q d.pods f d.each;
  log = d.log;
}

module _ {W : Type 0} (c : Config W) (set : XStatefulSet) (update_revision : Text) where
  -- A pod that the update may delete: it stands in the list and is outdated.
  abbrev Target : List Pod → Pod → Type 0
  Target pods pod = In pod pods × (is_outdated update_revision pod ≡ true)

  widen : (x : Pod) (xs : List Pod) (pod : Pod) → Target xs pod → Target (x ∷ xs) pod
  widen x xs pod (m, h) = (In.there m, h)

  deleted :
      (pod : Pod) (xs : List Pod) (env : Env W)
      → is_outdated update_revision pod ≡ true
      → Deletes (Target (pod ∷ xs)) 1 env.calls (delete_stateful_pod c.platform set pod env).1.calls
  deleted pod xs env h =
      one_delete (Target (pod ∷ xs)) pod _ _ (In.here refl, h)
        (pod_log-delete_stateful_pod c.platform set pod env)

  delete_up_to-Deletes :
      (pods : List Pod) (left : ℕ) (status : XStatefulSetStatus) (env : Env W)
      → Deletes
          (Target pods)
          left
          env.calls
          (delete_up_to c set update_revision pods left status env).1.calls
  unfolding delete_up_to
  delete_up_to-Deletes [] left status env = no-Deletes _ _ _
  delete_up_to-Deletes (pod ∷ pods) zero status env = no-Deletes _ _ _
  delete_up_to-Deletes (pod ∷ pods) (suc left) status env =
      let gone = delete_stateful_pod c.platform set pod env in
      elim (Bool-cases (is_outdated update_revision pod)) [
        | inr e ↦ rw e (
            weaken-Deletes _ _ (suc left) (suc left) _ _ (widen pod pods) (omega arith)
              (delete_up_to-Deletes pods (suc left) status env))
        | inl e ↦ elim (Option-cases (real_error gone.0)) [
          | inr (bad, q) ↦
              rw (e, q)
                (weaken-Deletes _ _ 1 (suc left) _ _ (λ _ t. t) (omega arith)
                  (deleted pod pods env e))
          | inl q ↦
              rw (e, q)
                (weaken-Deletes _ _ (1 + left) (suc left) _ _ (λ _ t. t) (omega arith)
                  (then-Deletes _ 1 left _ _ _ (deleted pod pods env e) (
                    weaken-Deletes _ _ left left _ _ (widen pod pods) (omega arith)
                      (delete_up_to-Deletes pods left (lower status) gone.1))))
        ]
      ]

  delete_one-Deletes :
      (pods : List Pod) (status : XStatefulSetStatus) (env : Env W)
      → Deletes (Target pods) 1 env.calls (delete_one c set update_revision pods status env).1.calls
  unfolding delete_one
  delete_one-Deletes [] status env = no-Deletes _ _ _
  delete_one-Deletes (pod ∷ pods) status env =
      let gone = delete_stateful_pod c.platform set pod env in
      elim (Bool-cases (is_outdated update_revision pod)) [
        | inl e ↦ elim (Option-cases (real_error gone.0)) [
          | inr (bad, q) ↦ rw (e, q) (deleted pod pods env e)
          | inl q ↦ rw (e, q) (deleted pod pods env e)
        ]
        | inr e ↦ elim (Bool-cases (is_unavailable pod set.spec.min_ready_seconds c.now)) [
          | inl u ↦ rw (e, u) (no-Deletes _ _ _)
          | inr u ↦
              rw (e, u)
                (weaken-Deletes _ _ 1 1 _ _ (widen pod pods) (omega arith)
                  (delete_one-Deletes pods status env))
        ]
      ]

  -- A replica at or above the partition, `partition` places being below it, that is not at the update
  -- revision and not terminating.
  pub IsUpdatable : List Pod → ℕ → Pod → Type 0
  IsUpdatable replicas partition pod =
      (i : ℕ) × (get_elem? replicas (partition + i) ≡ some pod)
      × (get_pod_revision pod ≢ update_revision)
      × (is_terminating pod ≡ false)

  outdated-means :
      (pod : Pod)
      → is_outdated update_revision pod ≡ true
      → (get_pod_revision pod ≢ update_revision) × (is_terminating pod ≡ false)
  unfolding is_outdated
  outdated-means pod h = (
    λ e. absurd (ground (arith, h, (text_eq_iff (get_pod_revision pod) update_revision).1 e)),
    ground (arith, h),
  )

  updatable :
      (replicas : List Pod) (partition : ℕ) (pod : Pod)
      → Target (targets replicas partition) pod
      → IsUpdatable replicas partition pod
  unfolding IsUpdatable
  updatable replicas partition pod (m, h) =
      let (i, e) =
        In-get_elem? pod (drop partition replicas) (reverse-In pod (drop partition replicas) m) in
      let (differs, alive) = outdated-means pod h in
      (i, sym (get_elem?-drop partition i replicas) ∙ e, differs, alive)

  abbrev unavailable : List Pod → ℕ
  unavailable replicas = count (λ pod. is_unavailable pod set.spec.min_ready_seconds c.now) replicas

  -- With the MaxUnavailableStatefulSet gate on, and where the partition and maxUnavailable can be
  -- read, a rolling update deletes only replicas that stand at or above the partition, are not at the update revision and are not terminating; and not more of
  -- them than maxUnavailable exceeds the number of replicas that are unavailable already. It creates
  -- no pod.
  pub update_stateful_set_after_invariant_established-Deletes :
      (replicas : List Pod) (status : XStatefulSetStatus) (env : Env W) (partition bound : ℕ)
      → get_update_min set ≡ ok partition
      → get_max_unavailable c set ≡ ok bound
      → Deletes
          (IsUpdatable replicas partition)
          (bound - unavailable replicas)
          env.calls
          (update_stateful_set_after_invariant_established c set update_revision replicas status
            env).1.calls
  unfolding update_stateful_set_after_invariant_established delete_outdated
  update_stateful_set_after_invariant_established-Deletes replicas status env partition bound h k =
      rw (h, k, update_stateful_set_after_invariant_established)
        (elim (Bool-cases (leb bound (unavailable replicas))) [
          | inl e ↦ rw (e, delete_outdated) (no-Deletes _ _ _)
          | inr e ↦
              rw (e, delete_outdated)
                (weaken-Deletes _ _ _ _ _ _ (updatable replicas partition) (omega arith) (
                  delete_up_to-Deletes (targets replicas partition) (bound - unavailable replicas)
                    status env))
        ])

  -- With the gate off, and where the partition can be read, a rolling update deletes at most one pod, which is a replica at or above the
  -- partition, is not at the update revision and is not terminating. It creates no pod.
  pub update_outdated-Deletes :
      (replicas : List Pod) (status : XStatefulSetStatus) (env : Env W) (partition : ℕ)
      → c.max_unavailable_gate ≡ false
      → get_update_min set ≡ ok partition
      → Deletes
          (IsUpdatable replicas partition)
          1
          env.calls
          (update_outdated c set update_revision replicas status env).1.calls
  unfolding update_outdated update_one_at_a_time
  update_outdated-Deletes replicas status env partition gate h =
      subst
        (λ b.
          Deletes (IsUpdatable replicas partition) 1 env.calls
            ((if b
                then update_stateful_set_after_invariant_established c set update_revision replicas
                    status
                else update_one_at_a_time c set update_revision replicas status)
              env).1.calls)
        (sym gate)
        (rw (h, update_one_at_a_time)
          (weaken-Deletes _ _ 1 1 _ _ (updatable replicas partition) (omega arith)
            (delete_one-Deletes (targets replicas partition) status env)))

  -- A strategy whose partition is a nil pointer faults before anything is deleted.
  pub update_outdated-fault :
      (replicas : List Pod) (status : XStatefulSetStatus) (env : Env W) (e : Error)
      → c.max_unavailable_gate ≡ false
      → get_update_min set ≡ err e
      → update_outdated c set update_revision replicas status env ≡ ((status, some e), env)
  unfolding update_outdated update_one_at_a_time
  update_outdated-fault replicas status env e gate h =
      subst
        (λ b.
          (if b
              then update_stateful_set_after_invariant_established c set update_revision replicas
                  status
              else update_one_at_a_time c set update_revision replicas status)
            env
          ≡ ((status, some e), env))
        (sym gate) (rw (h, update_one_at_a_time) refl)
