-- ===== src/RefManager.antt =====
-- Taking and giving up ownership (pkg/controller/controller_ref_manager.go): ClaimObject, and the
-- managers of pods, replica sets and controller revisions, which differ in their objects and filters
-- only. A patch is the value that the code marshals to JSON.
pub mod Claim
pub mod Sound
use xstatefulset.Base.{
  ℕ, ◌+◌, Bool, true, false, not, ◌&&◌, ◌||◌, Option, none, some, List, [], ◌∷◌, Text, text_eq,
  if◌then◌else◌, all,
}
use xstatefulset.Api.{
  Error, message, new_aggregate, is_not_found, is_invalid, Result, ok, err, ObjectMeta, Labels,
  OwnerReference, GroupVersionKind, new_controller_ref,
}
use xstatefulset.PodUtil.{labels_of}

-- The two strategic merge patches: one adds a controller, one removes owners by their UIDs.
pub data Patch : Type 0 where
  add_owners : (uid : Text) → List OwnerReference → (finalizers : List Text) → Patch
  delete_owners : (uid : Text) → (owner_uids : List Text) → (finalizers : List Text) → Patch

-- metav1.GetControllerOf, and the API server's answer to a patch of an object.
pub record ObjectControl (W O : Type 0) : Type 0 where
  pub meta : O → ObjectMeta
  pub get_controller_of : ObjectMeta → Option OwnerReference
  pub do_patch : O → Patch → W → Option Error × W

pub record Manager (W : Type 0) : Type 0 where
  pub controller : ObjectMeta
  pub kind : GroupVersionKind
  pub matches : Labels → Bool
  pub can_adopt_func : Option (W → Option Error × W)
  pub finalizers : List Text

-- The world; what the first call of CanAdopt gave, once it was made; and two instruments: how often
-- the check was made, and the patches sent with their answers, the last one first.
pub record State (W O : Type 0) : Type 0 where
  pub world : W
  pub checked : Option (Option Error)
  pub checks : ℕ
  pub patches : List (O × Patch × Option Error)

abbrev pub start : {W O : Type 0} → W → State W O
start w = record { world = w; checked = none; checks = 0; patches = [] }

-- ownerRefControllerPatch
unfoldable pub owner_ref_controller_patch : ObjectMeta → GroupVersionKind → Text → List Text → Patch
owner_ref_controller_patch controller kind uid finalizers =
    add_owners uid (new_controller_ref controller kind ∷ []) finalizers

-- GenerateDeleteOwnerRefStrategicMergeBytes
unfoldable pub delete_owner_ref_patch : Text → List Text → List Text → Patch
delete_owner_ref_patch uid owner_uids finalizers = delete_owners uid owner_uids finalizers

-- RecheckDeletionTimestamp
unfoldable pub recheck_deletion_timestamp :
    {W : Type 0} → (W → Result ObjectMeta × W) → W → Option Error × W
recheck_deletion_timestamp get_object world =
    let (result, after) = get_object world in
    elim result [
      | err e ↦ (some message, after)
      | ok obj ↦ (elim obj.deletion_timestamp [ none ↦ none | some _ ↦ some message ], after)
    ]

abbrev pub is_deleting : ObjectMeta → Bool
is_deleting m = elim m.deletion_timestamp [ none ↦ false | some _ ↦ true ]

abbrev pub is_empty : Text → Bool
is_empty [] = true
is_empty (_ ∷ _) = false

module _ {W O : Type 0} (m : Manager W) where
  -- CanAdopt: the check is made once.
  unfoldable pub can_adopt : State W O → Option Error × State W O
  can_adopt st = elim st.checked [
    | some result ↦ (result, st)
    | none ↦ elim m.can_adopt_func [
      | none ↦ (none, record st { checked = some none })
      | some check ↦
          let (result, after) = check st.world in
          (result, record st { world = after; checked = some result; checks = st.checks + 1 })
    ]
  ]

module _ {W O : Type 0} (c : ObjectControl W O) (m : Manager W) where
  abbrev pub send : O → Patch → State W O → Option Error × State W O
  send obj patch st =
      let (error, after) = c.do_patch obj patch st.world in
      (error, record st { world = after; patches = (obj, patch, error) ∷ st.patches })

  -- AdoptPod, AdoptReplicaSet, AdoptControllerRevision
  unfoldable pub adopt : O → State W O → Option Error × State W O
  unfolding can_adopt
  adopt obj st =
      let (error, after) = can_adopt m st in
      elim error [
        | some e ↦ (some message, after)
        | none ↦
            send obj (owner_ref_controller_patch m.controller m.kind (c.meta obj).uid m.finalizers)
              after
      ]

  abbrev pub ignore_gone : Option Error → Option Error
  ignore_gone none = none
  ignore_gone (some e) = if is_not_found e then none else if is_invalid e then none else some e

  -- ReleasePod, ReleaseReplicaSet, ReleaseControllerRevision
  unfoldable pub release : O → State W O → Option Error × State W O
  release obj st =
      let (error, after) =
        send obj (delete_owner_ref_patch (c.meta obj).uid (m.controller.uid ∷ []) m.finalizers)
          st in
      (ignore_gone error, after)

  abbrev pub Claimed : Type 0
  Claimed = (Bool × Option Error) × State W O

  -- `return false, err`, or false without an error where the object is gone.
  abbrev pub unless_gone : Option Error → Bool → Bool × Option Error
  unless_gone none claimed = (claimed, none)
  unless_gone (some e) claimed = if is_not_found e then (false, none) else (false, some e)

  -- The object is ours, but does not match.
  unfoldable pub let_go : O → State W O → Claimed
  unfolding release
  let_go obj st =
      if is_deleting m.controller
      then ((false, none), st)
      else (let (error, after) = release obj st in (unless_gone error false, after))

  -- The object is an orphan.
  unfoldable pub take_up : (O → Bool) → O → State W O → Claimed
  unfolding adopt
  take_up match obj st =
      if is_deleting m.controller || not (match obj)
      then ((false, none), st)
      else if is_deleting (c.meta obj)
      then ((false, none), st)
      else if not (is_empty m.controller.namespace)
          && not (text_eq m.controller.namespace (c.meta obj).namespace)
      then ((false, none), st)
      else (let (error, after) = adopt obj st in (unless_gone error true, after))

  unfoldable pub claim_object : (O → Bool) → O → State W O → Claimed
  unfolding let_go take_up
  claim_object match obj st = elim (c.get_controller_of (c.meta obj)) [
    | some ref ↦
        if not (text_eq ref.uid m.controller.uid)
        then ((false, none), st)
        else if match obj
        then ((true, none), st)
        else let_go obj st
    | none ↦ take_up match obj st
  ]

  abbrev pub add_claim : (Bool × Option Error) → O → List O × List Error → List O × List Error
  add_claim (claimed, some e) obj (objs, errors) = (objs, e ∷ errors)
  add_claim (true, none) obj (objs, errors) = (obj ∷ objs, errors)
  add_claim (false, none) obj (objs, errors) = (objs, errors)

  -- The loop of the Claim functions: the objects claimed, and the errors.
  unfoldable pub claim_each : (O → Bool) → List O → State W O → (List O × List Error) × State W O
  claim_each match [] st = (([], []), st)
  claim_each match (obj ∷ objs) st =
      let (result, after) = claim_object match obj st in
      let (rest, final) = claim_each match objs after in (add_claim result obj rest, final)

  unfoldable pub claim_all : (O → Bool) → List O → State W O → (List O × Option Error) × State W O
  unfolding claim_each
  claim_all match objs st =
      let ((claimed, errors), after) = claim_each match objs st in
      ((claimed, new_aggregate errors), after)

  abbrev pub selected : O → Bool
  selected obj = m.matches (labels_of (c.meta obj).labels)

  -- ClaimPods
  unfoldable pub claim_pods :
      List (O → Bool) → List O → State W O → (List O × Option Error) × State W O
  unfolding claim_all
  claim_pods filters pods st =
      claim_all (λ pod. selected pod && all (λ filter. filter pod) filters) pods st

-- The managers of replica sets and controller revisions, whose patches have no finalizers.
abbrev pub bare : {W : Type 0} → Manager W → Manager W
bare m = record m { finalizers = [] }

module _ {W O : Type 0} (c : ObjectControl W O) (m : Manager W) where
  unfoldable pub adopt_replica_set : O → State W O → Option Error × State W O
  unfolding adopt
  adopt_replica_set rs st = adopt c (bare m) rs st

  unfoldable pub release_replica_set : O → State W O → Option Error × State W O
  unfolding release
  release_replica_set rs st = release c (bare m) rs st

  unfoldable pub claim_replica_sets : List O → State W O → (List O × Option Error) × State W O
  unfolding claim_all
  claim_replica_sets sets st = claim_all c (bare m) (selected c m) sets st

  unfoldable pub adopt_controller_revision : O → State W O → Option Error × State W O
  unfolding adopt
  adopt_controller_revision history st = adopt c (bare m) history st

  unfoldable pub release_controller_revision : O → State W O → Option Error × State W O
  unfolding release
  release_controller_revision history st = release c (bare m) history st

  unfoldable pub claim_controller_revisions :
      List O → State W O → (List O × Option Error) × State W O
  unfolding claim_all
  claim_controller_revisions histories st = claim_all c (bare m) (selected c m) histories st
