-- ===== src/Claims/Policy.antt =====
-- The theorems on the retention policy: what updateClaimOwnerRefForSetAndPod establishes.
use xstatefulset.Base.{
  ◌≡◌, refl, ◌∙◌, Bool, true, false, not, ◌&&◌, List, [], ◌∷◌, ◌++◌, text_eq, keep, All, arith, inl,
  inr, keep-append, keep-keep,
}
use mathlib.Core.List.{append-nil}
use xstatefulset.Api.{OwnerReference, Pod, XStatefulSet, Retention, retain, delete, other}
use xstatefulset.Identity.Names.{pod_in_ordinal_range}
use xstatefulset.Claims.Owners.{
  has_unexpected_controller, has_owner_ref, is_claim_owner_up_to_date, remove_refs,
  update_claim_owner_ref_for_set_and_pod, get_persistent_volume_claim_retention_policy, add_owners,
  add_controller_ref,
}
use xstatefulset.Claims.Foreign.{IsIdentified, ours, set_ref, pod_ref, set_ref_kind, pod_ref_kind}
use xstatefulset.Claims.Converge.{
  set_should_own, pod_should_own, settled→up_to_date, foreign→up_to_date, update_cases,
  owners_fit-should_own,
}

-- Where the set and the pod have different UIDs and every owner reference of a claim names the set
-- (the pod) by kind and name exactly if it has the set's (the pod's) UID, one call of
-- updateClaimOwnerRefForSetAndPod makes isClaimOwnerUpToDate true.
pub is_claim_owner_up_to_date-update :
    (refs : List OwnerReference) (set : XStatefulSet) (pod : Pod)
    → text_eq set.meta.uid pod.meta.uid ≡ false
    → All (IsIdentified set pod) refs
    → is_claim_owner_up_to_date (update_claim_owner_ref_for_set_and_pod refs set pod) set pod ≡ true
is_claim_owner_up_to_date-update refs set pod apart ids =
    elim (update_cases set pod apart refs ids) [
      | inl (settled, wild) ↦ foreign→up_to_date set pod apart _ settled wild
      | inr (settled, calm) ↦
          settled→up_to_date set pod apart _ settled calm
            (owners_fit-should_own set pod apart _ _ _)
    ]

-- The table in the comment of isClaimOwnerUpToDate, by the policies on scaling and on deletion: it does
-- not look at the pod's ordinal.
abbrev pub table_set : Retention → Retention → Bool
table_set retain delete = true
table_set delete delete = true
table_set _ _ = false

abbrev pub table_pod : Retention → Retention → Bool
table_pod delete retain = true
table_pod delete delete = true
table_pod _ _ = false

abbrev pub is_delete : Retention → Bool
is_delete delete = true
is_delete _ = false

should_own-table :
    (scaled gone : Retention) (down : Bool)
    → (set_should_own scaled gone down ≡ (table_set scaled gone && not (is_delete scaled && down)))
      × (pod_should_own scaled gone down ≡ (table_pod scaled gone && down))
should_own-table retain retain down = (refl, refl)
should_own-table retain delete down = (refl, refl)
should_own-table retain other down = (refl, refl)
should_own-table delete retain true = (refl, refl)
should_own-table delete retain false = (refl, refl)
should_own-table delete delete true = (refl, refl)
should_own-table delete delete false = (refl, refl)
should_own-table delete other down = (refl, refl)
should_own-table other retain down = (refl, refl)
should_own-table other delete down = (refl, refl)
should_own-table other other down = (refl, refl)

-- Where the set and the pod have different UIDs and every owner reference of a claim names the set
-- (the pod) by kind and name exactly if it has the set's (the pod's) UID: after
-- updateClaimOwnerRefForSetAndPod, neither owns a claim with an unexpected controller. On any other
-- claim the set and the pod own at most what the table in the comment of isClaimOwnerUpToDate gives
-- them: the set all of it, but under the policy to delete on scaling only while the pod is not scaled
-- down; the pod only once it is scaled down.
pub has_owner_ref-update :
    (refs : List OwnerReference) (set : XStatefulSet) (pod : Pod)
    → text_eq set.meta.uid pod.meta.uid ≡ false
    → All (IsIdentified set pod) refs
    → let new_refs = update_claim_owner_ref_for_set_and_pod refs set pod in
      let policy = get_persistent_volume_claim_retention_policy set in
      let calm = not (has_unexpected_controller new_refs set pod) in
      let down = not (pod_in_ordinal_range pod set) in
      (has_owner_ref new_refs set.meta ≡ (
        calm
        && (table_set policy.when_scaled policy.when_deleted
            && not (is_delete policy.when_scaled && down))))
      × (has_owner_ref new_refs pod.meta
          ≡ (calm && (table_pod policy.when_scaled policy.when_deleted && down)))
has_owner_ref-update refs set pod apart ids =
    let policy = get_persistent_volume_claim_retention_policy set in
    let table =
      should_own-table policy.when_scaled policy.when_deleted
        (not (pod_in_ordinal_range pod set)) in
    elim (update_cases set pod apart refs ids) [
      | inl (settled, wild) ↦ rw wild (settled.set_known, settled.pod_known)
      | inr (settled, calm) ↦ rw calm (settled.set_known ∙ table.0, settled.pod_known ∙ table.1)
    ]

-- The references of a list that name neither the set nor the pod.
abbrev pub others : XStatefulSet → Pod → List OwnerReference → List OwnerReference
others set pod = keep (λ ref. not (ours set pod ref))

others-append :
    (set : XStatefulSet) (pod : Pod) (refs : List OwnerReference)
    → (others set pod (refs ++ (set_ref set pod ∷ [])) ≡ others set pod refs)
      × (others set pod (refs ++ (pod_ref set pod ∷ [])) ≡ others set pod refs)
others-append set pod refs = (
  rw (keep-append (λ r. not (ours set pod r)) refs (set_ref set pod ∷ []))
      (ground (arith, set_ref_kind set pod, append-nil (others set pod refs))),
  rw (keep-append (λ r. not (ours set pod r)) refs (pod_ref set pod ∷ []))
      (ground (arith, pod_ref_kind set pod, append-nil (others set pod refs))),
)

others-add_owners :
    (scaled gone : Retention) (down : Bool) (refs : List OwnerReference) (set : XStatefulSet)
    (pod : Pod)
    → others set pod (add_owners scaled gone down refs set pod) ≡ others set pod refs
unfolding add_owners add_controller_ref
others-add_owners retain delete down refs set pod = ground (arith, others-append set pod refs)
others-add_owners delete retain down refs set pod = ground (arith, others-append set pod refs)
others-add_owners delete delete down refs set pod = ground (arith, others-append set pod refs)
others-add_owners _ _ _ refs set pod = refl

-- updateClaimOwnerRefForSetAndPod keeps every reference that names neither the set nor the pod, in its place among
-- them, and adds none.
pub others-update :
    (refs : List OwnerReference) (set : XStatefulSet) (pod : Pod)
    → others set pod (update_claim_owner_ref_for_set_and_pod refs set pod) ≡ others set pod refs
unfolding update_claim_owner_ref_for_set_and_pod remove_refs
others-update refs set pod = ground (
  arith,
  keep-keep (λ r. not (ours set pod r)) refs,
  others-add_owners (get_persistent_volume_claim_retention_policy set).when_scaled
      (get_persistent_volume_claim_retention_policy set).when_deleted
      (not (pod_in_ordinal_range pod set)) (others set pod refs) set pod,
)
