-- ===== src/Tests/Witnesses.antt =====
-- The theorems on pods, claims, status, history and defaulting at concrete inputs.
use xstatefulset.Base.{
  ◌+◌, ◌≡◌, ◌≢◌, ◌≤◌, ◌<◌, ◌↔◌, ◌⊎◌, refl, pos, Option, In, true, not, ◌&&◌, none, some, List, [],
  ◌∷◌, Text, text_eq, codes, length, lookup, arith, All,
}
use xstatefulset.Api.{
  Error, ControllerRevision, OwnerReference, controller_kind, new_controller_ref,
  stateful_set_pod_name_label, pod_index_label,
}
use xstatefulset.PodUtil.{labels_of, get_pod_revision}
use xstatefulset.Identity.Decimal.{int_text}
use xstatefulset.Identity.Names.{
  get_pod_name, get_parent_name_and_ordinal, pod_in_ordinal_range, get_start_ordinal,
  identity_matches, update_identity, get_ordinal,
}
use xstatefulset.Identity.RoundTrip.{
  get_parent_name_and_ordinal-get_pod_name, pod_in_ordinal_range-get_pod_name,
}
use xstatefulset.Identity.Matching.{update_identity-identity_matches}
use xstatefulset.Claims.Owners.{
  matches_ref, is_claim_owner_up_to_date, update_claim_owner_ref_for_set_and_pod,
  has_unexpected_controller, has_owner_ref, get_persistent_volume_claim_retention_policy,
}
use xstatefulset.Claims.Policy.{
  table_set, table_pod, is_delete, is_claim_owner_up_to_date-update, has_owner_ref-update, others,
  others-update,
}
use xstatefulset.Claims.Storage.{storage_matches, update_storage}
use xstatefulset.Claims.Storage.Matching.{storage_matches-update_storage}
use xstatefulset.Status.{update_status, complete_rolling_update}
use xstatefulset.Status.Completion.{Completes, complete_rolling_update-Completes}
use xstatefulset.Status.Counts.{IsCount, concat, update_status-IsCount, update_status_bounds}
use xstatefulset.Defaults.{set_defaults}
use xstatefulset.Defaults.Filled.{IsFilled, set_defaults-IsFilled}
use xstatefulset.History.Truncate.{get_surplus, truncate_history}
use xstatefulset.History.Unused.{IsDeletion, truncate_history-keeps}
use xstatefulset.Tests.Samples.{
  meta, no_status, web, web_0, web_1, web_5, same_range, revisions, raw_spec,
}

abbrev own_refs : List OwnerReference
own_refs =
    new_controller_ref web.meta controller_kind
    ∷ (new_controller_ref (meta (codes "other") (codes "x")) controller_kind ∷ [])

is_claim_owner_up_to_date-update_example :
    is_claim_owner_up_to_date (update_claim_owner_ref_for_set_and_pod own_refs web web_5) web web_5
    ≡ true
unfolding text_eq matches_ref
is_claim_owner_up_to_date-update_example =
    is_claim_owner_up_to_date-update own_refs web web_5 refl ((refl, refl), ((refl, refl), tt))

has_owner_ref-update_example :
    let new_refs = update_claim_owner_ref_for_set_and_pod own_refs web web_5 in
    let policy = get_persistent_volume_claim_retention_policy web in
    let calm = not (has_unexpected_controller new_refs web web_5) in
    let down = not (pod_in_ordinal_range web_5 web) in
    (has_owner_ref new_refs web.meta ≡ (
      calm
      && (table_set policy.when_scaled policy.when_deleted
          && not (is_delete policy.when_scaled && down))))
    × (has_owner_ref new_refs web_5.meta
        ≡ (calm && (table_pod policy.when_scaled policy.when_deleted && down)))
unfolding text_eq matches_ref
has_owner_ref-update_example =
    has_owner_ref-update own_refs web web_5 refl ((refl, refl), ((refl, refl), tt))

others-update_example :
    others web web_5 (update_claim_owner_ref_for_set_and_pod own_refs web web_5)
    ≡ others web web_5 own_refs
others-update_example = others-update own_refs web web_5

get_parent_name_and_ordinal-get_pod_name_example :
    get_parent_name_and_ordinal web_5 ≡ (codes "web", pos 5)
unfolding get_pod_name
get_parent_name_and_ordinal-get_pod_name_example =
    get_parent_name_and_ordinal-get_pod_name web web_5 5 refl (omega arith) refl

pod_in_ordinal_range-get_pod_name_example :
    (pod_in_ordinal_range web_5 web ≡ true)
    ↔ (get_start_ordinal web ≤ 5) × (5 < get_start_ordinal web + 2)
unfolding get_pod_name
pod_in_ordinal_range-get_pod_name_example =
    pod_in_ordinal_range-get_pod_name web web_5 5 refl (omega arith) refl

update_identity-identity_matches_example :
    (identity_matches web (update_identity web web_5) ≡ true)
    × (get_parent_name_and_ordinal (update_identity web web_5) ≡ (codes "web", pos 5))
    × (lookup pod_index_label (labels_of (update_identity web web_5).meta.labels)
        ≡ some (int_text (pos 5)))
    × ((key : Text)
        → key ≢ pod_index_label
        → key ≢ stateful_set_pod_name_label
        → lookup key (labels_of (update_identity web web_5).meta.labels)
          ≡ lookup key (labels_of web_5.meta.labels))
unfolding get_ordinal
update_identity-identity_matches_example = update_identity-identity_matches web web_5 5 refl refl

storage_matches-update_storage_example :
    storage_matches web (update_storage (λ m. m) web web_5) ≡ true
unfolding get_ordinal
storage_matches-update_storage_example =
    storage_matches-update_storage (λ m. m) web web_5 5 same_range refl

update_status-IsCount_example :
    IsCount 10 0 (codes "web-1") (codes "web-2") (concat ((web_0 ∷ []) ∷ ((web_1 ∷ []) ∷ []))) (
      update_status 10 no_status 0
        (codes "web-1")
        (codes "web-2")
        ((web_0 ∷ []) ∷ ((web_1 ∷ []) ∷ [])))
update_status-IsCount_example =
    update_status-IsCount 10 no_status 0 (codes "web-1") (codes "web-2")
      ((web_0 ∷ []) ∷ ((web_1 ∷ []) ∷ []))

update_status_bounds_example :
    let s =
      update_status 10 no_status 0
        (codes "web-1")
        (codes "web-2")
        ((web_0 ∷ []) ∷ ((web_1 ∷ []) ∷ [])) in
    (s.available_replicas ≤ s.ready_replicas)
    × (s.ready_replicas ≤ s.replicas)
    × (s.updated_replicas ≤ s.replicas)
    × (s.replicas ≤ length (concat ((web_0 ∷ []) ∷ ((web_1 ∷ []) ∷ []))))
update_status_bounds_example =
    update_status_bounds 10 no_status 0 (codes "web-1") (codes "web-2")
      ((web_0 ∷ []) ∷ ((web_1 ∷ []) ∷ []))

complete_rolling_update-Completes_example :
    let counted =
      update_status 10 no_status 0
        (codes "web-1")
        (codes "web-2")
        ((web_0 ∷ []) ∷ ((web_1 ∷ []) ∷ [])) in
    Completes 10 0
      (codes "web-1")
      (codes "web-2")
      web
      (concat ((web_0 ∷ []) ∷ ((web_1 ∷ []) ∷ [])))
      counted
      (complete_rolling_update web counted)
complete_rolling_update-Completes_example =
    complete_rolling_update-Completes 10 0 (codes "web-1") (codes "web-2") web no_status
      ((web_0 ∷ []) ∷ ((web_1 ∷ []) ∷ [])) refl

-- A store of the names that were deleted.
abbrev delete_name : ControllerRevision → List Text → Option Error × List Text
delete_name r names = (none, r.meta.name ∷ names)

names_law : IsDeletion (web_0 ∷ []) none none delete_name (λ r names. In r.meta.name names)
names_law = record { gone = λ r names e. In.here refl; stays = λ r s names m. In.there m }

truncate_history-keeps_example :
    let out = truncate_history (pos 1) (web_0 ∷ []) revisions none none delete_name [] in
    All (λ name. get_pod_revision web_0 ≢ name) out.1
    × (((e : Error) × (out.0 ≡ some e))
        ⊎ All (λ r. In r.meta.name out.1) (get_surplus (pos 1) (web_0 ∷ []) revisions none none))
truncate_history-keeps_example =
    truncate_history-keeps (web_0 ∷ []) none none delete_name (pos 1) revisions
      (λ r names. In r.meta.name names) names_law (All (λ name. get_pod_revision web_0 ≢ name))
      (λ r free m names h. (free.no_pod.0, h)) [] tt

set_defaults-IsFilled_example :
    IsFilled true raw_spec (set_defaults true raw_spec)
    × (set_defaults true (set_defaults true raw_spec) ≡ set_defaults true raw_spec)
set_defaults-IsFilled_example = set_defaults-IsFilled true raw_spec
