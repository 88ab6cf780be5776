-- ===== src/Controller/Passes.antt =====
-- What a sync of a key does to the pods, and what the worker does with the keys: the controller, the
-- control loop and the pod control put together.
use xstatefulset.Base.{
  Option, none, some, Text, ℕ, suc, ◌+◌, ◌≤◌, ◌≡◌, refl, sym, ap, subst, inl, inr, false, some,
  ◌&&◌, ltb, List, [], ◌∷◌, ◌++◌, length, arith, Bool-cases, Option-cases, map,
}
use xstatefulset.Api.{ok, Result-cases, Pod, ControllerRevision, XStatefulSet, ordered_ready}
use xstatefulset.History.{sort_controller_revisions}
use xstatefulset.PodControl.Platform.{Call, IsPlatform, Env}
use xstatefulset.PodControl.Writes.{pod_log}
use xstatefulset.Sync.Config.{Config}
use xstatefulset.Sync.Deletions.{Deletes}
use xstatefulset.Sync.Ordered.{ReplicaEffect, unchanged, creates, restarts}
use xstatefulset.Sync.Pass.{Effect, on_replicas, scales_down, updates, update_stateful_set-Effect}
use xstatefulset.Sync.Update.{update_stateful_set}
use xstatefulset.Sync.Revisions.{HistoryControl, get_stateful_set_revisions}
use xstatefulset.Sync.Perform.{perform_update, update_and_truncate}
use xstatefulset.Controller.{Selector, Cluster, ControllerState, enqueue_ss_after}
use xstatefulset.Controller.Syncing.{
  adopt_orphan_revisions, get_pods_for_stateful_set, at_world, falls_short, sync_stateful_set,
  sync_found, sync, process_next_work_item, worker,
}

-- The pods are left alone, or one pod is created or deleted.
pub data OneWrite (before after : List Call) : Type 0 where
  no_write : pod_log after ≡ pod_log before → OneWrite before after
  one_write : (call : Call) → pod_log after ≡ call ∷ pod_log before → OneWrite before after

module _ {W : Type 0} (c : Config W) (set : XStatefulSet) where
  replica-OneWrite :
      (replicas : List Pod) (before after : List Call)
      → ReplicaEffect c set replicas before after
      → OneWrite before after
  replica-OneWrite replicas before after (unchanged e) = no_write e
  replica-OneWrite replicas before after (creates i pod g h k e) = one_write _ e
  replica-OneWrite replicas before after (restarts i pod g f t k e) = one_write _ e

  Deletes-OneWrite :
      (P : Pod → Type 0) (before after : List Call)
      → Deletes P 1 before after
      → OneWrite before after
  Deletes-OneWrite P before after d = from_pods d.pods d.few d.log
    where
      has_two : (pods : List Pod) → suc (suc (length pods)) ≤ 1 → ⊥
      has_two pods few = omega arith

      from_pods :
          (pods : List Pod)
          → length pods ≤ 1
          → pod_log after ≡ map Call.delete_pod pods ++ pod_log before
          → OneWrite before after
      from_pods [] few e = no_write e
      from_pods (pod ∷ []) few e = one_write (Call.delete_pod pod) e
      from_pods (a ∷ (b ∷ pods)) few e = elim (has_two pods few) [ ]

  Effect-OneWrite :
      (revision : Text) (replicas condemned : List Pod) (before after : List Call)
      → Effect c set revision replicas condemned before after
      → OneWrite before after
  Effect-OneWrite revision replicas condemned before after (on_replicas e) =
      replica-OneWrite replicas before after e
  Effect-OneWrite revision replicas condemned before after (scales_down pod g t h e) = one_write _ e
  Effect-OneWrite revision replicas condemned before after (updates p m n h d) =
      Deletes-OneWrite _ before after d

module _ {W : Type 0} (h : HistoryControl W) (c : Config W) (law : IsPlatform c.platform)
    (gate : c.max_unavailable_gate ≡ false) where
  perform_update-OneWrite :
      (set : XStatefulSet) (pods : List Pod) (revisions : List ControllerRevision) (env : Env W)
      → set.spec.pod_management_policy ≡ ordered_ready
      → OneWrite env.calls (perform_update h c set pods revisions env).1.calls
  unfolding perform_update
  perform_update-OneWrite set pods revisions env ordered =
      elim (Result-cases (get_stateful_set_revisions h c set revisions env.world).0) [
        | inr (e, q) ↦ rw (q, perform_update) (no_write refl)
        | inl ((current, update, collisions), q) ↦
            let mid : Env W = record env {
              world = (get_stateful_set_revisions h c set revisions env.world).1;
            } in
            let writes : OneWrite env.calls
                (update_stateful_set c set current update collisions pods mid).1.calls =
              elim (update_stateful_set-Effect c law set current update collisions pods mid ordered
                gate) [
                  | inl (plan, made, effect) ↦ Effect-OneWrite c set _ _ _ _ _ effect
                  | inr e ↦ no_write (ap (λ (a : Env W). pod_log a.calls) e)
                ] in
            elim (Option-cases (update_stateful_set c set current update collisions pods mid).0.0) [
              | inl n ↦ rw (q, n, perform_update) writes
              | inr (s, y) ↦ rw (q, y, perform_update) writes
            ]
      ]

  update_and_truncate-OneWrite :
      (set : XStatefulSet) (pods : List Pod) (env : Env W)
      → set.spec.pod_management_policy ≡ ordered_ready
      → OneWrite env.calls (update_and_truncate h c set pods env).1.calls
  unfolding update_and_truncate
  update_and_truncate-OneWrite set pods env ordered =
      elim (Result-cases (h.list_revisions set env.world)) [
        | inr (e, q) ↦ rw (q, update_and_truncate) (no_write refl)
        | inl (listed, q) ↦
            let sorted = sort_controller_revisions listed in
            let writes = perform_update-OneWrite set pods sorted env ordered in
            elim (Option-cases (perform_update h c set pods sorted env).0.error) [
              | inl n ↦ rw (q, n, update_and_truncate) writes
              | inr (e, y) ↦ rw (q, y, update_and_truncate) writes
            ]
      ]

  module _ (k : Cluster W) where
    enqueue_ss_after-env :
        (set : XStatefulSet) (nanos : ℕ) (st : ControllerState W)
        → (enqueue_ss_after k set nanos st).env ≡ st.env
    unfolding enqueue_ss_after
    enqueue_ss_after-env set nanos st = elim (Result-cases (k.key_of set.meta)) [
      | inl (key, q) ↦ rw (q, enqueue_ss_after) refl
      | inr (e, q) ↦ rw (q, enqueue_ss_after) refl
    ]

    sync_stateful_set-env :
        (set : XStatefulSet) (pods : List Pod) (st : ControllerState W)
        → (sync_stateful_set k h c set pods st).1.env ≡ (update_and_truncate h c set pods st.env).1
    unfolding sync_stateful_set
    sync_stateful_set-env set pods st =
        let ((status, error), env) = update_and_truncate h c set pods st.env in
        elim (Option-cases error) [
          | inr (e, q) ↦ rw (q, sync_stateful_set) refl
          | inl n ↦
              elim (Bool-cases (ltb 0 set.spec.min_ready_seconds && falls_short k h c set status)) [
                | inl x ↦
                    rw (n, x, sync_stateful_set)
                      (enqueue_ss_after-env set _ (record st { env = env }))
                | inr x ↦ rw (n, x, sync_stateful_set) refl
              ]
        ]

    sync_stateful_set-OneWrite :
        (set : XStatefulSet) (pods : List Pod) (st : ControllerState W)
        → set.spec.pod_management_policy ≡ ordered_ready
        → OneWrite st.env.calls (sync_stateful_set k h c set pods st).1.env.calls
    unfolding sync_stateful_set
    sync_stateful_set-OneWrite set pods st ordered =
        subst (λ (a : Env W). OneWrite st.env.calls a.calls)
          (sym (sync_stateful_set-env set pods st))
          (update_and_truncate-OneWrite set pods st.env ordered)

    sync_found-OneWrite :
        (set : XStatefulSet) (selector : Selector) (st : ControllerState W)
        → set.spec.pod_management_policy ≡ ordered_ready
        → OneWrite st.env.calls (sync_found k h c set selector st).1.env.calls
    unfolding sync_found
    sync_found-OneWrite set selector st ordered =
        let (adoption, world1) = adopt_orphan_revisions k h c set st.env.world in
        let ((pods, claims), world2) = get_pods_for_stateful_set k h c set selector world1 in
        elim (Option-cases adoption) [
          | inr (e, q) ↦ rw (q, sync_found) (no_write refl)
          | inl n ↦ elim (Option-cases claims) [
            | inr (e, q) ↦ rw (n, q, sync_found) (no_write refl)
            | inl m ↦
                rw (n, m, sync_found)
                  (sync_stateful_set-OneWrite set pods (at_world k h c world2 st) ordered)
          ]
        ]

    -- Every set that the lister gives is OrderedReady, once its defaults are set.
    abbrev pub AllOrdered : Type 0
    AllOrdered =
        (namespace name : Text) (world : W) (set : XStatefulSet)
        → k.get_set namespace name world ≡ ok set
        → (h.set_defaults set).spec.pod_management_policy ≡ ordered_ready

    -- On a platform that retries as IsPlatform says, where the lister's sets are OrderedReady and the
    -- MaxUnavailableStatefulSet gate is off, a sync of a key, with the adoptions, the claims, the
    -- revisions, the status and the truncation that go with it, creates or deletes at most one pod.
    pub sync-OneWrite :
        AllOrdered
        → (key : Text) (st : ControllerState W)
        → OneWrite st.env.calls (sync k h c key st).1.env.calls
    unfolding sync
    sync-OneWrite ordered key st = elim (Result-cases (k.split_key key)) [
      | inr (e, q) ↦ rw (q, sync) (no_write refl)
      | inl ((namespace, name), q) ↦ elim (Result-cases (k.get_set namespace name st.env.world)) [
        | inr (e, x) ↦ rw (q, x, sync) (no_write refl)
        | inl (set, x) ↦ elim (Result-cases (k.as_selector set)) [
          | inr (e, y) ↦ rw (q, x, y, sync) (no_write refl)
          | inl (selector, y) ↦
              rw (q, x, y, sync)
                (sync_found-OneWrite (h.set_defaults set) selector st
                  (ordered namespace name st.env.world set x))
        ]
      ]
    ]

    OneWrite-length :
        (before after : List Call)
        → OneWrite before after
        → length (pod_log after) ≤ suc (length (pod_log before))
    OneWrite-length before after (no_write e) = omega (arith, ap (λ (l : List Call). length l) e)
    OneWrite-length before after (one_write call e) =
        omega (arith, ap (λ (l : List Call). length l) e)

    -- Under the same conditions, a worker creates and deletes no more pods than Get gives answers.
    pub worker-bound :
        AllOrdered
        → (answers : List (Option Text)) (st : ControllerState W)
        → length (pod_log (worker k h c answers st).env.calls)
          ≤ length answers + length (pod_log st.env.calls)
    unfolding worker process_next_work_item
    worker-bound ordered [] st = omega arith
    worker-bound ordered (none ∷ answers) st = omega arith
    worker-bound ordered (some key ∷ keys) st =
        let next = (process_next_work_item k h c (some key) st).1 in
        omega (
          arith,
          worker-bound ordered keys next,
          OneWrite-length st.env.calls next.env.calls (sync-OneWrite ordered key st),
        )
