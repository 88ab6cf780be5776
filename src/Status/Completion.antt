-- ===== src/Status/Completion.antt =====
-- When the status of a rolling update is completed, in terms of the set's pods.
use xstatefulset.Base.{
  ℕ, ◌≡◌, refl, ◌∙◌, ◌⊎◌, inl, inr, Bool, true, false, ◌&&◌, List, [], ◌∷◌, Text, count, pos, arith,
  Bool-cases, All,
}
use xstatefulset.Api.{Pod, XStatefulSet, XStatefulSetStatus, rolling_update}
use xstatefulset.PodUtil.{is_created, is_running_and_ready}
use xstatefulset.Status.{add_lists, update_status, is_complete, complete_rolling_update}
use xstatefulset.Status.Counts.{
  IsCount, concat, is_at, count_mono, ready-created, update_status-IsCount,
}

-- Where one test implies another, the counts agree exactly if the tests do.
count_same :
    (p q : Pod → Bool) (pods : List Pod)
    → ((pod : Pod) → p pod ≡ true → q pod ≡ true)
    → count p pods ≡ count q pods
    → All (λ pod. (q pod ≡ false) ⊎ (p pod ≡ true)) pods
count_same p q [] h e = tt
count_same p q (x ∷ xs) h e =
    let less = count_mono p q xs h in
    elim (Bool-cases (q x)) [
      | inr n ↦ (inl n, count_same p q xs h (ground (arith, e, n, h x)))
      | inl y ↦ elim (Bool-cases (p x)) [
        | inl z ↦ (inr z, count_same p q xs h (ground (arith, e, y, z)))
        | inr z ↦ absurd (ground (arith, e, y, z, less))
      ]
    ]

count_all :
    (p q : Pod → Bool) (pods : List Pod)
    → ((pod : Pod) → p pod ≡ true → q pod ≡ true)
    → All (λ pod. (q pod ≡ false) ⊎ (p pod ≡ true)) pods
    → count p pods ≡ count q pods
count_all p q [] h a = refl
count_all p q (x ∷ xs) h (inl n, a) = ground (arith, n, h x, count_all p q xs h a)
count_all p q (x ∷ xs) h (inr y, a) = ground (arith, y, h x, count_all p q xs h a)

All-both :
    (p q r : Pod → Bool) (pods : List Pod)
    → All (λ pod. (q pod ≡ false) ⊎ (p pod ≡ true)) pods
    → All (λ pod. (q pod ≡ false) ⊎ (r pod ≡ true)) pods
    → All (λ pod. (q pod ≡ false) ⊎ (p pod && r pod ≡ true)) pods
All-both p q r [] a b = tt
All-both p q r (x ∷ xs) (inl n, a) (b, c) = (inl n, All-both p q r xs a c)
All-both p q r (x ∷ xs) (inr y, a) (inl n, c) = (inl n, All-both p q r xs a c)
All-both p q r (x ∷ xs) (inr y, a) (inr z, c) = (inr (ground (arith, y, z)), All-both p q r xs a c)

All-each :
    (p q r : Pod → Bool) (pods : List Pod)
    → All (λ pod. (q pod ≡ false) ⊎ (p pod && r pod ≡ true)) pods
    → All (λ pod. (q pod ≡ false) ⊎ (p pod ≡ true)) pods
      × All (λ pod. (q pod ≡ false) ⊎ (r pod ≡ true)) pods
All-each p q r [] a = (tt, tt)
All-each p q r (x ∷ xs) (inl n, a) = let (b, c) = All-each p q r xs a in ((inl n, b), (inl n, c))
All-each p q r (x ∷ xs) (inr y, a) =
    let (b, c) = All-each p q r xs a in ((inr (ground arith), b), (inr (ground arith), c))

add_lists-update_revision :
    (now seconds : ℕ) (current_revision update_revision : Text) (lists : List (List Pod))
    (status : XStatefulSetStatus)
    → (add_lists now seconds current_revision update_revision lists status).update_revision
      ≡ status.update_revision
unfolding add_lists
add_lists-update_revision now seconds cur upd [] status = refl
add_lists-update_revision now seconds cur upd (l ∷ ls) status =
    add_lists-update_revision now seconds cur upd ls _

module _ (now seconds : ℕ) (current_revision update_revision : Text) (set : XStatefulSet) where
  -- The strategy is RollingUpdate, and as many pods as the set wants are created, each of them ready,
  -- not terminating and at the update revision.
  pub record IsDone (pods : List Pod) : Type 0 where
    pub rolling : set.spec.strategy_type ≡ rolling_update
    pub number : count is_created pods ≡ set.spec.replicas
    pub all :
        All
          (λ pod.
            (is_created pod ≡ false)
            ⊎ (is_running_and_ready pod
                  && is_at now seconds current_revision update_revision update_revision pod
                ≡ true))
          pods

  -- What completion makes of the counted status.
  pub data Completes (pods : List Pod) (counted completed : XStatefulSetStatus) : Type 0 where
    finished :
        IsDone pods
        → completed.current_revision ≡ update_revision
        → completed.current_replicas ≡ pos set.spec.replicas
        → completed.update_revision ≡ update_revision
        → completed.updated_replicas ≡ set.spec.replicas
        → Completes pods counted completed
    unfinished : (IsDone pods → ⊥) → completed ≡ counted → Completes pods counted completed

  at : Pod → Bool
  at = is_at now seconds current_revision update_revision update_revision

  at-created : (pod : Pod) → at pod ≡ true → is_created pod ≡ true
  unfolding at
  at-created pod h = ground arith

  is_complete→IsDone :
      (pods : List Pod) (status : XStatefulSetStatus)
      → IsCount now seconds current_revision update_revision pods status
      → is_complete set status ≡ true
      → IsDone pods
  unfolding is_complete at
  is_complete→IsDone pods status c h = record {
    rolling = ground arith;
    number = ground (arith, c.replicas);
    all =
        All-both is_running_and_ready is_created at pods
          (count_same is_running_and_ready is_created pods ready-created
            (ground (arith, c.replicas, c.ready)))
          (count_same at is_created pods at-created (ground (arith, c.replicas, c.updated)));
  }

  IsDone→is_complete :
      (pods : List Pod) (status : XStatefulSetStatus)
      → IsCount now seconds current_revision update_revision pods status
      → IsDone pods
      → is_complete set status ≡ true
  unfolding is_complete at
  IsDone→is_complete pods status c d =
      let (ready, updated) = All-each is_running_and_ready is_created at pods d.all in
      let r = count_all is_running_and_ready is_created pods ready-created ready in
      let u = count_all at is_created pods at-created updated in
      ground (arith, c.replicas, c.ready, c.updated, d.rolling, d.number, r, u)

  kept_revision :
      (status : XStatefulSetStatus) (lists : List (List Pod))
      → (update_status now status seconds current_revision update_revision lists).update_revision
        ≡ status.update_revision
  unfolding update_status
  kept_revision status lists =
      add_lists-update_revision now seconds current_revision update_revision lists _

  updated_all :
      (status : XStatefulSetStatus)
      → is_complete set status ≡ true
      → status.updated_replicas ≡ set.spec.replicas
  unfolding is_complete
  updated_all status h = ground arith

  -- Where the status names the update revision: updateStatus and then completeRollingUpdate make it
  -- the current revision, with all replicas current, exactly when the strategy is RollingUpdate and
  -- as many pods as the set wants are created, all of them ready, not terminating and at that
  -- revision. The update revision and the updated replicas stay. Otherwise completion changes nothing.
  pub complete_rolling_update-Completes :
      (status : XStatefulSetStatus) (lists : List (List Pod))
      → status.update_revision ≡ update_revision
      → let counted = update_status now status seconds current_revision update_revision lists in
        Completes (concat lists) counted (complete_rolling_update set counted)
  unfolding complete_rolling_update
  complete_rolling_update-Completes status lists named =
      let counted = update_status now status seconds current_revision update_revision lists in
      let c = update_status-IsCount now status seconds current_revision update_revision lists in
      let kept = kept_revision status lists ∙ named in
      elim (Bool-cases (is_complete set counted)) [
        | inl e ↦
            let updated = updated_all counted e in
            rw e (
              finished (is_complete→IsDone (concat lists) counted c e) kept (λ i. pos (updated i))
                kept updated)
        | inr e ↦ rw e (
            unfinished
              (λ d. absurd (ground (arith, e, IsDone→is_complete (concat lists) counted c d))) refl)
      ]
