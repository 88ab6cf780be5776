-- ===== src/PodControl/Claims.antt =====
-- The claims of a pod: createPersistentVolumeClaims, ClaimsMatchRetentionPolicy,
-- UpdatePodClaimForRetentionPolicy and PodClaimIsStale.
use xstatefulset.Base.{
  Bool, true, false, not, Option, none, some, List, [], ◌∷◌, ◌++◌, Text, if◌then◌else◌,
}
use xstatefulset.Api.{
  Error, Result, ok, err, message, wrapped, is_not_found, is_already_exists, new_aggregate,
  pod_kind, OwnerReference, Pod, PersistentVolumeClaim, XStatefulSet,
}
use xstatefulset.Identity.Names.{get_ordinal, get_persistent_volume_claim_name}
use xstatefulset.Claims.Owners.{
  has_unexpected_controller, has_stale_owner_ref, is_claim_owner_up_to_date, is_retain,
  update_claim_owner_ref_for_set_and_pod, get_persistent_volume_claim_retention_policy,
}
use xstatefulset.Claims.Storage.{ClaimMap, get_persistent_volume_claims}
use xstatefulset.PodControl.Platform.{
  create, create_claim, update_claim, claim_event, conflict_event, Platform, Action, log, call,
  ◌>>=◌, ◌>>◌, return,
}

abbrev pub is_deleting : PersistentVolumeClaim → Bool
is_deleting claim = elim claim.meta.deletion_timestamp [ none ↦ false | some _ ↦ true ]

abbrev pub with_refs : PersistentVolumeClaim → List OwnerReference → PersistentVolumeClaim
with_refs claim refs = record claim { meta = record claim.meta { owner_references = refs } }

module _ {W : Type 0} (p : Platform W) (set : XStatefulSet) (pod : Pod) where
  -- The body of createPersistentVolumeClaims' loop: the errors that one claim adds.
  unfoldable pub create_claim_step : PersistentVolumeClaim → Action W (List Error)
  create_claim_step claim env =
      elim (p.manager.get_claim claim.meta.namespace claim.meta.name env.world) [
        | ok pvc ↦ (if is_deleting pvc then message ∷ [] else [], env)
        | err e ↦
            if is_not_found e
            then (do
              error ← call (create_claim claim) (p.manager.do_create_claim claim)
              elim error [
                | none ↦ log (claim_event create claim false) >> return []
                | some e' ↦
                    (if is_already_exists e'
                      then return (message ∷ [])
                      else log (claim_event create claim true) >> return (message ∷ []))
              ])
                env
            else (log (claim_event create claim true) >> return (message ∷ [])) env
      ]

  unfoldable pub create_claims : ClaimMap → Action W (List Error)
  create_claims [] = return []
  create_claims ((name, claim) ∷ claims) = do
    errors ← create_claim_step claim
    more ← create_claims claims
    return (errors ++ more)

  unfoldable pub create_persistent_volume_claims : Action W (Option Error)
  unfolding create_claims create_claim_step
  create_persistent_volume_claims = do
    errors ← create_claims (p.range (get_persistent_volume_claims set pod))
    return (new_aggregate errors)

  abbrev pub claim_name : PersistentVolumeClaim → Text
  claim_name template = get_persistent_volume_claim_name set template (get_ordinal pod)

  unfoldable pub claims_match : List PersistentVolumeClaim → W → Result Bool
  claims_match [] world = ok true
  claims_match (t ∷ ts) world =
      let rest = claims_match ts world in
      elim (p.manager.get_claim set.meta.namespace (claim_name t) world) [
        | err e ↦ if is_not_found e then rest else err message
        | ok claim ↦
            if not (is_claim_owner_up_to_date claim.meta.owner_references set pod)
            then ok false
            else rest
      ]

  unfoldable pub claims_match_retention_policy : W → Result Bool
  unfolding claims_match
  claims_match_retention_policy world = claims_match set.spec.volume_claim_templates world

  -- What the loop of UpdatePodClaimForRetentionPolicy does to one claim that it found.
  unfoldable pub update_claim_step : PersistentVolumeClaim → Action W (Option Error)
  update_claim_step claim = do
    if has_unexpected_controller claim.meta.owner_references set pod
        then log (conflict_event claim)
        else return tt
    if not (is_claim_owner_up_to_date claim.meta.owner_references set pod)
        then (let claim' =
              with_refs claim
                (update_claim_owner_ref_for_set_and_pod claim.meta.owner_references set pod) in
            (do
              error ← call (update_claim claim') (p.manager.do_update_claim claim')
              return (elim error [ none ↦ none | some e ↦ some (wrapped e) ])))
        else return none

  unfoldable pub update_claims : List PersistentVolumeClaim → Action W (Option Error)
  update_claims [] env = (none, env)
  update_claims (t ∷ ts) env =
      let rest = update_claims ts in
      elim (p.manager.get_claim set.meta.namespace (claim_name t) env.world) [
        | err e ↦ if is_not_found e then rest env else (some (wrapped e), env)
        | ok claim ↦
            (do
              error ← update_claim_step claim
              elim error [ none ↦ rest | some e ↦ return (some e) ])
              env
      ]

  unfoldable pub update_pod_claim_for_retention_policy : Action W (Option Error)
  unfolding update_claims update_claim_step
  update_pod_claim_for_retention_policy = update_claims set.spec.volume_claim_templates

  unfoldable pub any_stale : ClaimMap → W → Result Bool
  any_stale [] world = ok false
  any_stale ((name, claim) ∷ claims) world =
      let rest = any_stale claims world in
      elim (p.manager.get_claim claim.meta.namespace claim.meta.name world) [
        | err e ↦ if is_not_found e then rest else err e
        | ok pvc ↦
            if has_stale_owner_ref pvc.meta.owner_references pod.meta pod_kind
            then ok true
            else rest
      ]

  unfoldable pub pod_claim_is_stale : W → Result Bool
  unfolding any_stale
  pod_claim_is_stale world =
      if is_retain (get_persistent_volume_claim_retention_policy set).when_scaled
      then ok false
      else any_stale (p.range (get_persistent_volume_claims set pod)) world
