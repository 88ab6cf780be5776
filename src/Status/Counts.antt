-- ===== src/Status/Counts.antt =====
-- What the counters of updateStatus count, and how they are ordered.
use xstatefulset.Base.{
  ℕ, ◌+◌, ◌≤◌, ◌≡◌, refl, ◌∙◌, Bool, true, not, ◌&&◌, List, [], ◌∷◌, ◌++◌, Text, text_eq,
  if◌then◌else◌, count, pos, arith, length,
}
use mathlib.Core.List.{append-nil, append_assoc}
use xstatefulset.Api.{Pod, XStatefulSetStatus}
use xstatefulset.PodUtil.{
  is_created, is_running_and_ready, is_running_and_available, is_terminating, get_pod_revision,
  is_running,
}
use xstatefulset.Status.{
  ReplicaStatus, one_if, count_pod, no_replicas, count_pods, compute_replica_status, add_lists,
  update_status,
}

regroup : (a n : ℕ) (b : Bool) → a + one_if b + n ≡ a + ((if b then 1 else 0) + n)
regroup a n b = ground arith

count-append : (p : Pod → Bool) (xs ys : List Pod) → count p (xs ++ ys) ≡ count p xs + count p ys
count-append p [] ys = omega arith
count-append p (x ∷ xs) ys = omega (arith, count-append p xs ys)

abbrev pub concat : List (List Pod) → List Pod
concat [] = []
concat (l ∷ ls) = l ++ concat ls

pub count_mono :
    (p q : Pod → Bool) (pods : List Pod)
    → ((pod : Pod) → p pod ≡ true → q pod ≡ true)
    → count p pods ≤ count q pods
count_mono p q [] h = omega arith
count_mono p q (x ∷ xs) h = ground (arith, h x, count_mono p q xs h)

count-le_length : (p : Pod → Bool) (pods : List Pod) → count p pods ≤ length pods
count-le_length p [] = omega arith
count-le_length p (x ∷ xs) = ground (arith, count-le_length p xs)

pub ready-created : (pod : Pod) → is_running_and_ready pod ≡ true → is_created pod ≡ true
unfolding is_running_and_ready is_running is_created
ready-created pod h = ground arith

module _ (now seconds : ℕ) (current_revision update_revision : Text) where
  abbrev pub is_available : Pod → Bool
  is_available pod = is_running_and_ready pod && is_running_and_available pod seconds now

  abbrev pub is_at : Text → Pod → Bool
  is_at revision pod =
      (is_created pod && not (is_terminating pod)) && text_eq (get_pod_revision pod) revision

  -- The counters of a list of pods, each by its own test.
  abbrev counted : List Pod → ReplicaStatus → ReplicaStatus
  counted pods status = record {
    replicas = status.replicas + count is_created pods;
    ready_replicas = status.ready_replicas + count is_running_and_ready pods;
    available_replicas = status.available_replicas + count is_available pods;
    current_replicas = status.current_replicas + count (is_at current_revision) pods;
    updated_replicas = status.updated_replicas + count (is_at update_revision) pods;
  }

  count_pods-counted :
      (pods : List Pod) (status : ReplicaStatus)
      → count_pods now seconds current_revision update_revision pods status ≡ counted pods status
  unfolding count_pods
  count_pods-counted [] status = ground arith
  count_pods-counted (pod ∷ pods) status =
      count_pods-counted pods (count_pod now seconds current_revision update_revision pod status)
      ∙ λ i. record {
        replicas = regroup status.replicas (count is_created pods) (is_created pod) i;
        ready_replicas =
            regroup status.ready_replicas (count is_running_and_ready pods)
              (is_running_and_ready pod) i;
        available_replicas =
            regroup status.available_replicas (count is_available pods) (is_available pod) i;
        current_replicas =
            regroup status.current_replicas (count (is_at current_revision) pods)
              (is_at current_revision pod) i;
        updated_replicas =
            regroup status.updated_replicas (count (is_at update_revision) pods)
              (is_at update_revision pod) i;
      }

  compute-counted :
      (pods : List Pod)
      → compute_replica_status now pods seconds current_revision update_revision
        ≡ counted pods no_replicas
  unfolding compute_replica_status
  compute-counted pods = count_pods-counted pods no_replicas

  -- A status whose counters stand at the numbers of these pods.
  pub record IsCount (pods : List Pod) (status : XStatefulSetStatus) : Type 0 where
    pub replicas : status.replicas ≡ count is_created pods
    pub ready : status.ready_replicas ≡ count is_running_and_ready pods
    pub available : status.available_replicas ≡ count is_available pods
    pub current : status.current_replicas ≡ pos (count (is_at current_revision) pods)
    pub updated : status.updated_replicas ≡ count (is_at update_revision) pods

  add_lists-IsCount :
      (lists : List (List Pod)) (seen : List Pod) (status : XStatefulSetStatus)
      → IsCount seen status
      → IsCount
          (seen ++ concat lists)
          (add_lists now seconds current_revision update_revision lists status)
  unfolding add_lists
  add_lists-IsCount [] seen status h = rw (append-nil seen) h
  add_lists-IsCount (l ∷ ls) seen status h = rw (← append_assoc seen l (concat ls)) (
      add_lists-IsCount ls (seen ++ l) _ (
        rw (compute-counted l) (record {
          replicas = rw (count-append is_created seen l) (ground arith);
          ready = rw (count-append is_running_and_ready seen l) (ground arith);
          available = rw (count-append is_available seen l) (ground arith);
          current = rw (count-append (is_at current_revision) seen l) (ground arith);
          updated = rw (count-append (is_at update_revision) seen l) (ground arith);
        })))

-- Whatever the counters were, updateStatus sets them to the numbers of pods in all the given lists
-- together: those created, running and ready, also available, and those created and not
-- terminating at the current and at the update revision.
pub update_status-IsCount :
    (now : ℕ) (status : XStatefulSetStatus) (seconds : ℕ) (current_revision update_revision : Text)
    (lists : List (List Pod))
    → IsCount now seconds current_revision update_revision
        (concat lists)
        (update_status now status seconds current_revision update_revision lists)
unfolding update_status
update_status-IsCount now status seconds current_revision update_revision lists =
    add_lists-IsCount now seconds current_revision update_revision lists [] _
      (record { replicas = refl; ready = refl; available = refl; current = refl; updated = refl })

-- After updateStatus the counters are ordered: available replicas are ready ones, these are created
-- ones, as are the updated ones, and there are no more of them than pods in the lists.
pub update_status_bounds :
    (now : ℕ) (status : XStatefulSetStatus) (seconds : ℕ) (current_revision update_revision : Text)
    (lists : List (List Pod))
    → let s = update_status now status seconds current_revision update_revision lists in
      (s.available_replicas ≤ s.ready_replicas)
      × (s.ready_replicas ≤ s.replicas)
      × (s.updated_replicas ≤ s.replicas)
      × (s.replicas ≤ length (concat lists))
update_status_bounds now status seconds cur upd lists =
    let c = update_status-IsCount now status seconds cur upd lists in
    let pods = concat lists in
    let available_ready =
      count_mono (is_available now seconds cur upd) is_running_and_ready pods
        (λ pod h. ground arith) in
    let ready_created = count_mono is_running_and_ready is_created pods (ready-created) in
    let updated_created =
      count_mono (is_at now seconds cur upd upd) is_created pods (λ pod h. ground arith) in
    let few = count-le_length is_created pods in
    (
      omega (arith, c.ready, c.available, available_ready),
      omega (arith, c.ready, c.replicas, ready_created),
      omega (arith, c.updated, c.replicas, updated_created),
      omega (arith, c.replicas, few),
    )
