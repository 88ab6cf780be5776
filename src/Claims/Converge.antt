-- ===== src/Claims/Converge.antt =====
-- One update of the owner references makes them fit, and what it leaves alone.
use xstatefulset.Base.{
  ◌≡◌, refl, ◌∙◌, Bool, true, false, not, List, [], ◌∷◌, ◌++◌, text_eq, text_eq_iff, text_eq_refl,
  any, All, any-append, find?-append, find?-none, arith, Bool-cases, inl, inr, ◌⊎◌,
}
use xstatefulset.Api.{
  OwnerReference, controller_kind, pod_kind, Pod, XStatefulSet, Retention, retain, delete, other,
  RetentionPolicy,
}
use xstatefulset.Identity.Names.{pod_in_ordinal_range}
use xstatefulset.Claims.Owners.{
  is_unexpected, has_unexpected_controller, has_non_controller_owner, remove_refs, has_owner_ref,
  has_stale_owner_ref, add_controller_ref, owners_fit, is_claim_owner_up_to_date, add_owners,
  update_claim_owner_ref_for_set_and_pod, get_persistent_volume_claim_retention_policy,
}
use xstatefulset.Claims.Foreign.{
  IsIdentified, ours, set_ref, pod_ref, IsForeign, scrub-IsForeign, scrub-is_unexpected,
  set_ref_kind, pod_ref_kind,
}

-- Who should own the claim, as the switch of isClaimOwnerUpToDate has it, with its comment on pods that
-- are scaled down.
abbrev pub set_should_own : Retention → Retention → Bool → Bool
set_should_own retain delete scaled_down = true
set_should_own delete delete scaled_down = not scaled_down
set_should_own _ _ scaled_down = false

abbrev pub pod_should_own : Retention → Retention → Bool → Bool
pod_should_own delete retain scaled_down = scaled_down
pod_should_own delete delete scaled_down = scaled_down
pod_should_own _ _ scaled_down = false

module _ (set : XStatefulSet) (pod : Pod) where
  -- References that hold no stale and no idle owner, and whether the set and the pod own the claim.
  pub record IsSettled (refs : List OwnerReference) (set_owns pod_owns : Bool) : Type 0 where
    pub fresh_set : has_stale_owner_ref refs set.meta controller_kind ≡ false
    pub fresh_pod : has_stale_owner_ref refs pod.meta pod_kind ≡ false
    pub no_idle : has_non_controller_owner refs set pod ≡ false
    pub set_known : has_owner_ref refs set.meta ≡ set_owns
    pub pod_known : has_owner_ref refs pod.meta ≡ pod_owns

  foreign-IsSettled :
      (refs : List OwnerReference) → IsForeign set pod refs → IsSettled refs false false
  unfolding has_stale_owner_ref has_non_controller_owner has_owner_ref
  foreign-IsSettled refs f = record {
    fresh_set = rw (find?-none _ refs f.no_set_name, has_stale_owner_ref);
    fresh_pod = rw (find?-none _ refs f.no_pod_name, has_stale_owner_ref);
    no_idle = f.no_idle_owner;
    set_known = f.no_set;
    pod_known = f.no_pod;
  }

  module _ (apart : text_eq set.meta.uid pod.meta.uid ≡ false) where
    apart_sym : text_eq pod.meta.uid set.meta.uid ≡ false
    apart_sym =
        ground (arith, text_eq_iff pod.meta.uid set.meta.uid, text_eq_iff set.meta.uid pod.meta.uid)

    set_ref-IsSettled :
        (refs : List OwnerReference)
        → IsForeign set pod refs
        → IsSettled (refs ++ (set_ref set pod ∷ [])) true false
    unfolding has_stale_owner_ref has_non_controller_owner has_owner_ref
    set_ref-IsSettled refs f = record {
      fresh_set =
          rw (find?-append _ refs (set_ref set pod ∷ []) f.no_set_name, has_stale_owner_ref)
            (ground (arith, set_ref_kind set pod, text_eq_refl set.meta.uid));
      fresh_pod =
          rw (find?-append _ refs (set_ref set pod ∷ []) f.no_pod_name, has_stale_owner_ref)
            (ground (arith, set_ref_kind set pod));
      no_idle =
          rw (any-append _ refs (set_ref set pod ∷ []), f.no_idle_owner) (ground (arith, apart));
      set_known =
          rw (any-append _ refs (set_ref set pod ∷ []), f.no_set)
            (ground (arith, text_eq_refl set.meta.uid));
      pod_known = rw (any-append _ refs (set_ref set pod ∷ []), f.no_pod) (ground (arith, apart));
    }

    pod_ref-IsSettled :
        (refs : List OwnerReference)
        → IsForeign set pod refs
        → IsSettled (refs ++ (pod_ref set pod ∷ [])) false true
    unfolding has_stale_owner_ref has_non_controller_owner has_owner_ref
    pod_ref-IsSettled refs f = record {
      fresh_set =
          rw (find?-append _ refs (pod_ref set pod ∷ []) f.no_set_name, has_stale_owner_ref)
            (ground (arith, pod_ref_kind set pod));
      fresh_pod =
          rw (find?-append _ refs (pod_ref set pod ∷ []) f.no_pod_name, has_stale_owner_ref)
            (ground (arith, pod_ref_kind set pod, text_eq_refl pod.meta.uid));
      no_idle =
          rw (any-append _ refs (pod_ref set pod ∷ []), f.no_idle_owner)
            (ground (arith, apart_sym));
      set_known =
          rw (any-append _ refs (pod_ref set pod ∷ []), f.no_set) (ground (arith, apart_sym));
      pod_known =
          rw (any-append _ refs (pod_ref set pod ∷ []), f.no_pod)
            (ground (arith, text_eq_refl pod.meta.uid));
    }

    add_owners-IsSettled :
        (scaled gone : Retention) (scaled_down : Bool) (refs : List OwnerReference)
        → IsForeign set pod refs
        → IsSettled
            (add_owners scaled gone scaled_down refs set pod)
            (set_should_own scaled gone scaled_down)
            (pod_should_own scaled gone scaled_down)
    unfolding add_owners add_controller_ref
    add_owners-IsSettled retain retain down refs f = foreign-IsSettled refs f
    add_owners-IsSettled retain delete down refs f = rw f.no_set (set_ref-IsSettled refs f)
    add_owners-IsSettled retain other down refs f = foreign-IsSettled refs f
    add_owners-IsSettled delete retain true refs f = rw f.no_pod (pod_ref-IsSettled refs f)
    add_owners-IsSettled delete retain false refs f = foreign-IsSettled refs f
    add_owners-IsSettled delete delete true refs f = rw f.no_pod (pod_ref-IsSettled refs f)
    add_owners-IsSettled delete delete false refs f = rw f.no_set (set_ref-IsSettled refs f)
    add_owners-IsSettled delete other down refs f = foreign-IsSettled refs f
    add_owners-IsSettled other gone down refs f = foreign-IsSettled refs f

    -- A reference of the set or the pod that is added is not an unexpected controller.
    is_unexpected-append :
        (refs : List OwnerReference)
        → (any (is_unexpected set pod) (refs ++ (set_ref set pod ∷ []))
            ≡ any (is_unexpected set pod) refs)
          × (any (is_unexpected set pod) (refs ++ (pod_ref set pod ∷ []))
              ≡ any (is_unexpected set pod) refs)
    unfolding is_unexpected
    is_unexpected-append refs = (
      rw (any-append (is_unexpected set pod) refs (set_ref set pod ∷ []))
          (ground (arith, set_ref_kind set pod, text_eq_refl set.meta.uid)),
      rw (any-append (is_unexpected set pod) refs (pod_ref set pod ∷ []))
          (ground (arith, pod_ref_kind set pod, text_eq_refl pod.meta.uid)),
    )

    is_unexpected-add_owners :
        (scaled gone : Retention) (scaled_down : Bool) (refs : List OwnerReference)
        → IsForeign set pod refs
        → any (is_unexpected set pod) (add_owners scaled gone scaled_down refs set pod)
          ≡ any (is_unexpected set pod) refs
    unfolding add_owners add_controller_ref
    is_unexpected-add_owners retain delete down refs f = rw f.no_set (is_unexpected-append refs).0
    is_unexpected-add_owners delete retain true refs f = rw f.no_pod (is_unexpected-append refs).1
    is_unexpected-add_owners delete delete true refs f = rw f.no_pod (is_unexpected-append refs).1
    is_unexpected-add_owners delete delete false refs f = rw f.no_set (is_unexpected-append refs).0
    is_unexpected-add_owners _ _ _ refs f = refl

    pub owners_fit-should_own :
        (scaled gone : Retention) (scaled_down : Bool)
        → owners_fit scaled gone scaled_down
            (set_should_own scaled gone scaled_down)
            (pod_should_own scaled gone scaled_down)
          ≡ true
    unfolding owners_fit
    owners_fit-should_own retain gone true = ground arith
    owners_fit-should_own scaled gone down = ground arith

    abbrev pub scaled_down : Bool
    scaled_down = not (pod_in_ordinal_range pod set)

    abbrev pub policy : RetentionPolicy
    policy = get_persistent_volume_claim_retention_policy set

    pub settled→up_to_date :
        (refs : List OwnerReference) {set_owns pod_owns : Bool}
        → IsSettled refs set_owns pod_owns
        → has_unexpected_controller refs set pod ≡ false
        → owners_fit policy.when_scaled policy.when_deleted scaled_down set_owns pod_owns ≡ true
        → is_claim_owner_up_to_date refs set pod ≡ true
    unfolding is_claim_owner_up_to_date
    settled→up_to_date refs s calm fit = ground arith

    pub foreign→up_to_date :
        (refs : List OwnerReference)
        → IsSettled refs false false
        → has_unexpected_controller refs set pod ≡ true
        → is_claim_owner_up_to_date refs set pod ≡ true
    unfolding is_claim_owner_up_to_date
    foreign→up_to_date refs s wild = ground arith

    -- Whether an unexpected controller is there depends on the loop over the references only.
    unexpected_cong :
        (xs ys : List OwnerReference)
        → any (is_unexpected set pod) xs ≡ any (is_unexpected set pod) ys
        → has_unexpected_controller xs set pod ≡ has_unexpected_controller ys set pod
    unfolding has_unexpected_controller
    unexpected_cong xs ys e = rw e

    pub update_cases :
        (refs : List OwnerReference)
        → All (IsIdentified set pod) refs
        → (IsSettled (update_claim_owner_ref_for_set_and_pod refs set pod) false false
            × (has_unexpected_controller
                  (update_claim_owner_ref_for_set_and_pod refs set pod)
                  set
                  pod
                ≡ true))
          ⊎ (IsSettled
                (update_claim_owner_ref_for_set_and_pod refs set pod)
                (set_should_own policy.when_scaled policy.when_deleted scaled_down)
                (pod_should_own policy.when_scaled policy.when_deleted scaled_down)
              × (has_unexpected_controller
                    (update_claim_owner_ref_for_set_and_pod refs set pod)
                    set
                    pod
                  ≡ false))
    unfolding update_claim_owner_ref_for_set_and_pod
    update_cases refs ids =
        let scrubbed = remove_refs refs (ours set pod) in
        let f = scrub-IsForeign set pod refs ids in
        let same = unexpected_cong scrubbed refs (scrub-is_unexpected set pod refs ids) in
        elim (Bool-cases (has_unexpected_controller refs set pod)) [
          | inl wild ↦ inl (rw wild (foreign-IsSettled scrubbed f), rw wild (same ∙ wild))
          | inr calm ↦ inr (
            rw calm (
                add_owners-IsSettled policy.when_scaled policy.when_deleted scaled_down scrubbed f),
            rw calm (
                unexpected_cong _ scrubbed (
                  is_unexpected-add_owners policy.when_scaled policy.when_deleted scaled_down
                    scrubbed f)
                ∙ same
                ∙ calm),
          )
        ]
