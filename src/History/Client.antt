-- ===== src/History/Client.antt =====
-- realHistory (pkg/controller/history/controller_history.go): revisions listed, created, updated,
-- deleted, adopted and released through a client and a lister, which are parameters.
use xstatefulset.Base.{
  ℕ, ◌+◌, zero, suc, ℤ, Bool, true, Option, none, some, List, [], ◌∷◌, Text, text_eq, if◌then◌else◌,
  eqb_ℤ, keep,
}
use xstatefulset.Api.{
  Error, message, is_already_exists, is_not_found, is_invalid, Result, ok, err, Labels, ObjectMeta,
  OwnerReference, GroupVersionKind, ControllerRevision, new_controller_ref,
}
use xstatefulset.RefManager.{Patch, add_owners, delete_owner_ref_patch}
use xstatefulset.History.{controller_revision_name}

-- The revisions at the API server and in the lister's cache, metav1.GetControllerOfNoCopy, the hash
-- and retry.RetryOnConflict. An update that fails may still give an object.
pub record RevisionClient (W : Type 0) : Type 0 where
  pub list : (namespace : Text) → (selector : Labels → Bool) → W → Result (List ControllerRevision)
  pub get_cached : (namespace name : Text) → W → Result ControllerRevision
  pub get : (namespace name : Text) → W → Result ControllerRevision × W
  pub create : (namespace : Text) → ControllerRevision → W → Result ControllerRevision × W
  pub update :
      (namespace : Text) → ControllerRevision → W → (Option ControllerRevision × Option Error) × W
  pub delete : (namespace name : Text) → W → Option Error × W
  pub patch : (namespace name : Text) → Patch → W → Result ControllerRevision × W
  pub controller_of : ObjectMeta → Option OwnerReference
  pub hash : (raw : List ℕ) → (probe : Option ℕ) → Text
  pub retry_on_conflict :
      (ControllerRevision × W → Option Error × (ControllerRevision × W))
      → ControllerRevision × W
      → Option Error × (ControllerRevision × W)

-- No controller, or this one.
unfoldable pub is_owned_or_free :
    (ObjectMeta → Option OwnerReference) → ObjectMeta → ControllerRevision → Bool
is_owned_or_free controller_of parent revision = elim (controller_of revision.meta) [
  | none ↦ true
  | some ref ↦ text_eq ref.uid parent.uid
]

abbrev pub renamed : Text → ControllerRevision → ControllerRevision
renamed name r = record r { meta = record r.meta { name = name } }

module _ {W : Type 0} (c : RevisionClient W) where
  unfoldable pub list_controller_revisions :
      ObjectMeta → (Labels → Bool) → W → Result (List ControllerRevision)
  unfolding is_owned_or_free
  list_controller_revisions parent selector world = elim (c.list parent.namespace selector world) [
    | err e ↦ err e
    | ok history ↦ ok (keep (is_owned_or_free c.controller_of parent) history)
  ]

  -- A result, none without fuel; the collision count; and the world.
  abbrev pub Creation : Type 0
  Creation = (Option (Result ControllerRevision) × ℕ) × W

  abbrev pub probe_name : ObjectMeta → ControllerRevision → ℕ → Text
  probe_name parent revision count =
      controller_revision_name parent.name (c.hash revision.data_raw (some count))

  -- The name is taken: the revision that has it is the result if its data is the same.
  unfoldable pub resolve_collision :
      (again : W → Creation) → ObjectMeta → ControllerRevision → ℕ → W → Creation
  resolve_collision again parent clone count world =
      let (found, after) = c.get parent.namespace clone.meta.name world in
      elim found [
        | err e ↦ ((some (err e), count), after)
        | ok exists ↦
            let rest = again after in
            if text_eq exists.data_raw clone.data_raw
            then ((some (ok exists), count), after)
            else rest
      ]

  unfoldable pub create_loop : (fuel : ℕ) → ObjectMeta → ControllerRevision → ℕ → W → Creation
  unfolding controller_revision_name resolve_collision
  create_loop zero parent revision count world = ((none, count), world)
  create_loop (suc fuel) parent revision count world =
      let clone = renamed (probe_name parent revision count) revision in
      let (created, after) = c.create parent.namespace clone world in
      let again = create_loop fuel parent revision (count + 1) in
      elim created [
        | ok r ↦ ((some (ok r), count), after)
        | err e ↦
            if is_already_exists e
            then resolve_collision again parent clone count after
            else ((some (err e), count), after)
      ]

  unfoldable pub create_controller_revision :
      (fuel : ℕ)
      → ObjectMeta
      → ControllerRevision
      → Option ℕ
      → W
      → Option (Result ControllerRevision × Option ℕ) × W
  unfolding create_loop
  create_controller_revision fuel parent revision none world = (some (err message, none), world)
  create_controller_revision fuel parent revision (some count) world =
      let ((result, counted), after) = create_loop fuel parent revision count world in
      (elim result [ none ↦ none | some r ↦ some (r, some counted) ], after)

  abbrev pub or_else : Option ControllerRevision → ControllerRevision → ControllerRevision
  or_else none clone = clone
  or_else (some updated) clone = updated

  -- What an update that failed leaves in the closure.
  abbrev pub refresh : Option ControllerRevision → ControllerRevision → W → ControllerRevision
  refresh updated clone world =
      let latest = or_else updated clone in
      elim (c.get_cached latest.meta.namespace latest.meta.name world) [
        | err e ↦ latest
        | ok cached ↦ cached
      ]

  unfoldable pub update_attempt :
      ℤ → ControllerRevision × W → Option Error × (ControllerRevision × W)
  update_attempt revision (clone, world) =
      if eqb_ℤ clone.revision revision
      then (none, (clone, world))
      else (let next : ControllerRevision = record clone { revision = revision } in
          let ((updated, error), after) = c.update next.meta.namespace next world in
          elim error [
            | none ↦ (none, (next, after))
            | some e ↦ (some e, (refresh updated next after, after))
          ])

  unfoldable pub update_controller_revision :
      ControllerRevision → ℤ → W → (ControllerRevision × Option Error) × W
  unfolding update_attempt
  update_controller_revision revision new_revision world =
      let (error, (clone, after)) =
        c.retry_on_conflict (update_attempt new_revision) (revision, world) in
      ((clone, error), after)

  unfoldable pub delete_controller_revision : ControllerRevision → W → Option Error × W
  delete_controller_revision r world = c.delete r.meta.namespace r.meta.name world

  unfoldable pub adopt_controller_revision :
      ObjectMeta → GroupVersionKind → ControllerRevision → W → Result ControllerRevision × W
  adopt_controller_revision parent kind r world = elim (c.controller_of r.meta) [
    | some owner ↦ (err message, world)
    | none ↦
        c.patch parent.namespace r.meta.name
          (add_owners r.meta.uid (new_controller_ref parent kind ∷ []) []) world
  ]

  -- Without an error and without a revision where it is gone or no longer owned.
  unfoldable pub release_controller_revision :
      ObjectMeta → ControllerRevision → W → Result (Option ControllerRevision) × W
  release_controller_revision parent r world =
      let (released, after) =
        c.patch r.meta.namespace r.meta.name
          (delete_owner_ref_patch r.meta.uid (parent.uid ∷ []) []) world in
      elim released [
        | ok revision ↦ (ok (some revision), after)
        | err e ↦
            (if is_not_found e then ok none else if is_invalid e then ok none else err e, after)
      ]
