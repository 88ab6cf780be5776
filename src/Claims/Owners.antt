-- ===== src/Claims/Owners.antt =====
-- Owner references of claims (xstateful_set_utils.go): which references belong to the set and the
-- pod, when the references fit the retention policy, and how they are made to fit.
use xstatefulset.Base.{
  Bool, true, false, not, ◌&&◌, ◌||◌, none, some, List, [], ◌∷◌, ◌++◌, text_eq, if◌then◌else◌, keep,
  any, find?,
}
use xstatefulset.Api.{
  ObjectMeta, OwnerReference, GroupVersionKind, controller_kind, pod_kind, new_controller_ref, Pod,
  XStatefulSet, Retention, retain, delete, RetentionPolicy,
}
use xstatefulset.Identity.Names.{pod_in_ordinal_range}

unfoldable pub get_persistent_volume_claim_retention_policy : XStatefulSet → RetentionPolicy
get_persistent_volume_claim_retention_policy set = elim set.spec.retention_policy [
  | none ↦ record { when_deleted = retain; when_scaled = retain }
  | some policy ↦ policy
]

unfoldable pub matches_ref : OwnerReference → ObjectMeta → GroupVersionKind → Bool
matches_ref ref obj gvk =
    text_eq gvk.group_version ref.api_version
    && text_eq gvk.kind ref.kind
    && text_eq ref.name obj.name

abbrev pub same_uid : ObjectMeta → OwnerReference → Bool
same_uid obj ref = text_eq ref.uid obj.uid

-- `ref.Controller != nil && *ref.Controller`
abbrev pub is_controller : OwnerReference → Bool
is_controller ref = elim ref.controller [ none ↦ false | some b ↦ b ]

abbrev pub is_retain : Retention → Bool
is_retain retain = true
is_retain _ = false

-- The body of hasUnexpectedController's loop: does the reference end it with true?
unfoldable pub is_unexpected : XStatefulSet → Pod → OwnerReference → Bool
is_unexpected set pod ref =
    if matches_ref ref set.meta controller_kind
    then not (same_uid set.meta ref)
    else if matches_ref ref pod.meta pod_kind
    then not (same_uid pod.meta ref)
    else is_controller ref

unfoldable pub has_unexpected_controller : List OwnerReference → XStatefulSet → Pod → Bool
unfolding get_persistent_volume_claim_retention_policy
has_unexpected_controller refs set pod =
    let policy = get_persistent_volume_claim_retention_policy set in
    if is_retain policy.when_scaled && is_retain policy.when_deleted
    then false
    else any (is_unexpected set pod) refs

unfoldable pub has_non_controller_owner : List OwnerReference → XStatefulSet → Pod → Bool
has_non_controller_owner refs set pod =
    any (λ ref. (same_uid set.meta ref || same_uid pod.meta ref) && not (is_controller ref)) refs

unfoldable pub remove_refs : List OwnerReference → (OwnerReference → Bool) → List OwnerReference
remove_refs refs predicate = keep (λ ref. not (predicate ref)) refs

unfoldable pub has_owner_ref : List OwnerReference → ObjectMeta → Bool
has_owner_ref refs owner = any (same_uid owner) refs

-- Only the first reference that matches decides.
unfoldable pub has_stale_owner_ref : List OwnerReference → ObjectMeta → GroupVersionKind → Bool
has_stale_owner_ref refs obj gvk = elim (find? (λ ref. matches_ref ref obj gvk) refs) [
  | none ↦ false
  | some ref ↦ not (same_uid obj ref)
]

unfoldable pub add_controller_ref :
    List OwnerReference → ObjectMeta → GroupVersionKind → List OwnerReference
add_controller_ref refs owner gvk =
    if any (same_uid owner) refs then refs else refs ++ (new_controller_ref owner gvk ∷ [])

abbrev pub same_bool : Bool → Bool → Bool
same_bool true b = b
same_bool false b = not b

-- The switch of isClaimOwnerUpToDate, over whether the set and the pod own the claim.
unfoldable pub owners_fit : Retention → Retention → (scaled_down set_owns pod_owns : Bool) → Bool
owners_fit retain retain scaled_down set_owns pod_owns = not (set_owns || pod_owns)
owners_fit retain delete scaled_down set_owns pod_owns = not (not set_owns || pod_owns)
owners_fit delete retain scaled_down set_owns pod_owns =
    if set_owns then false else same_bool scaled_down pod_owns
owners_fit delete delete scaled_down set_owns pod_owns =
    if same_bool scaled_down set_owns then false else same_bool scaled_down pod_owns
owners_fit _ _ scaled_down set_owns pod_owns = not (set_owns || pod_owns)

unfoldable pub is_claim_owner_up_to_date : List OwnerReference → XStatefulSet → Pod → Bool
is_claim_owner_up_to_date refs set pod =
    if has_stale_owner_ref refs set.meta controller_kind
      || has_stale_owner_ref refs pod.meta pod_kind
    then true
    else if has_unexpected_controller refs set pod
    then not (has_owner_ref refs set.meta || has_owner_ref refs pod.meta)
    else if has_non_controller_owner refs set pod
    then false
    else (let policy = get_persistent_volume_claim_retention_policy set in
        owners_fit policy.when_scaled policy.when_deleted (not (pod_in_ordinal_range pod set))
          (has_owner_ref refs set.meta) (has_owner_ref refs pod.meta))

-- The switch of updateClaimOwnerRefForSetAndPod.
unfoldable pub add_owners :
    Retention → Retention → Bool → List OwnerReference → XStatefulSet → Pod → List OwnerReference
add_owners retain retain scaled_down refs set pod = refs
add_owners retain delete scaled_down refs set pod = add_controller_ref refs set.meta controller_kind
add_owners delete retain scaled_down refs set pod =
    if scaled_down then add_controller_ref refs pod.meta pod_kind else refs
add_owners delete delete scaled_down refs set pod =
    if scaled_down
    then add_controller_ref refs pod.meta pod_kind
    else add_controller_ref refs set.meta controller_kind
add_owners _ _ scaled_down refs set pod = refs

abbrev pub is_ours : XStatefulSet → Pod → OwnerReference → Bool
is_ours set pod ref = matches_ref ref set.meta controller_kind || matches_ref ref pod.meta pod_kind

-- The new references of the claim.
unfoldable pub update_claim_owner_ref_for_set_and_pod :
    List OwnerReference → XStatefulSet → Pod → List OwnerReference
update_claim_owner_ref_for_set_and_pod refs set pod =
    let scrubbed = remove_refs refs (is_ours set pod) in
    if has_unexpected_controller refs set pod
    then scrubbed
    else (let policy = get_persistent_volume_claim_retention_policy set in
        add_owners policy.when_scaled policy.when_deleted (not (pod_in_ordinal_range pod set))
          scrubbed set pod)
