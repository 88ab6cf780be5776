-- ===== src/Claims/Foreign.antt =====
-- The references that scrubbing leaves: none of the set or the pod, the others as they were.
use xstatefulset.Base.{
  ◌≡◌, refl, Bool, true, false, not, ◌&&◌, ◌||◌, List, text_eq, text_eq_refl, any, All, All-map,
  any-keep, any-keep_of, arith,
}
use xstatefulset.Api.{
  OwnerReference, controller_kind, pod_kind, new_controller_ref, Pod, XStatefulSet,
}
use xstatefulset.Claims.Owners.{
  matches_ref, same_uid, is_controller, is_unexpected, remove_refs, is_ours,
}

-- A reference names the set (or the pod) by kind and name exactly if it has its UID.
abbrev pub IsIdentified : XStatefulSet → Pod → OwnerReference → Type 0
IsIdentified set pod ref =
    (matches_ref ref set.meta controller_kind ≡ same_uid set.meta ref)
    × (matches_ref ref pod.meta pod_kind ≡ same_uid pod.meta ref)

module _ (set : XStatefulSet) (pod : Pod) where
  abbrev pub ours : OwnerReference → Bool
  ours = is_ours set pod

  abbrev pub set_ref : OwnerReference
  set_ref = new_controller_ref set.meta controller_kind

  abbrev pub pod_ref : OwnerReference
  pod_ref = new_controller_ref pod.meta pod_kind

  -- References that are neither the set's nor the pod's, by name or by UID.
  pub record IsForeign (refs : List OwnerReference) : Type 0 where
    pub no_set : any (same_uid set.meta) refs ≡ false
    pub no_pod : any (same_uid pod.meta) refs ≡ false
    pub no_set_name : any (λ r. matches_ref r set.meta controller_kind) refs ≡ false
    pub no_pod_name : any (λ r. matches_ref r pod.meta pod_kind) refs ≡ false
    pub no_idle_owner :
        any (λ r. (same_uid set.meta r || same_uid pod.meta r) && not (is_controller r)) refs
        ≡ false

  pub scrub-IsForeign :
      (refs : List OwnerReference)
      → All (IsIdentified set pod) refs
      → IsForeign (remove_refs refs ours)
  unfolding remove_refs
  scrub-IsForeign refs ids = record {
    no_set =
        any-keep _ (λ r. not (ours r)) refs (All-map _ _ refs (λ r h e. ground (arith, h.0)) ids);
    no_pod =
        any-keep _ (λ r. not (ours r)) refs (All-map _ _ refs (λ r h e. ground (arith, h.1)) ids);
    no_set_name =
        any-keep _ (λ r. not (ours r)) refs (All-map _ _ refs (λ r h e. ground (arith, h.0)) ids);
    no_pod_name =
        any-keep _ (λ r. not (ours r)) refs (All-map _ _ refs (λ r h e. ground (arith, h.1)) ids);
    no_idle_owner =
        any-keep _ (λ r. not (ours r)) refs
          (All-map _ _ refs (λ r h e. ground (arith, h.0, h.1)) ids);
  }

  -- Scrubbing does not change whether an unexpected controller is there.
  pub scrub-is_unexpected :
      (refs : List OwnerReference)
      → All (IsIdentified set pod) refs
      → any (is_unexpected set pod) (remove_refs refs ours) ≡ any (is_unexpected set pod) refs
  unfolding remove_refs is_unexpected
  scrub-is_unexpected refs ids =
      any-keep_of (is_unexpected set pod) (λ r. not (ours r)) refs
        (All-map _ _ refs (λ r h e. ground (arith, h.0, h.1)) ids)

  pub set_ref_kind :
      (matches_ref set_ref set.meta controller_kind ≡ true)
      × (matches_ref set_ref pod.meta pod_kind ≡ false)
  unfolding matches_ref text_eq
  set_ref_kind = (rw (text_eq_refl set.meta.name), refl)

  pub pod_ref_kind :
      (matches_ref pod_ref pod.meta pod_kind ≡ true)
      × (matches_ref pod_ref set.meta controller_kind ≡ false)
  unfolding matches_ref text_eq
  pod_ref_kind = (rw (text_eq_refl pod.meta.name), refl)
