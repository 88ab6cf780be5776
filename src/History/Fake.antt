-- ===== src/History/Fake.antt =====
-- fakeHistory (pkg/controller/history/controller_history.go): the history over the store of an
-- informer, which is a parameter, without an API server.
use xstatefulset.Base.{
  ℕ, ◌+◌, zero, suc, ℤ, Bool, false, not, Option, none, some, List, [], ◌∷◌, ◌++◌, Text, text_eq,
  if◌then◌else◌, keep,
}
use xstatefulset.Api.{
  Error, message, not_found, already_exists, is_already_exists, Result, ok, err, Labels, ObjectMeta,
  OwnerReference, GroupVersionKind, ControllerRevision, new_controller_ref,
}
use xstatefulset.History.{controller_revision_name}
use xstatefulset.History.Client.{is_owned_or_free, renamed}

-- The lister and the indexer, the key of an object, metav1.GetControllerOf and the hash.
pub record Indexer (W : Type 0) : Type 0 where
  pub list : (namespace : Text) → (selector : Labels → Bool) → W → Result (List ControllerRevision)
  pub key_of : ControllerRevision → Result Text
  pub get_by_key : Text → W → Result (Option ControllerRevision)
  pub put : ControllerRevision → W → Option Error × W
  pub remove : ControllerRevision → W → Option Error × W
  pub controller_of : ObjectMeta → Option OwnerReference
  pub hash : (raw : List ℕ) → (probe : Option ℕ) → Text

module _ {W : Type 0} (c : Indexer W) where
  unfoldable pub list_controller_revisions :
      ObjectMeta → (Labels → Bool) → W → Result (List ControllerRevision)
  unfolding is_owned_or_free
  list_controller_revisions parent selector world = elim (c.list parent.namespace selector world) [
    | err e ↦ err e
    | ok history ↦ ok (keep (is_owned_or_free c.controller_of parent) history)
  ]

  -- What stands in the store under the key of a revision.
  unfoldable pub look_up : ControllerRevision → W → Result (Option ControllerRevision)
  look_up revision world = elim (c.key_of revision) [
    | err e ↦ err e
    | ok key ↦ c.get_by_key key world
  ]

  -- The revision, with the error that the store gives.
  abbrev pub stored_as : ControllerRevision → W → (Option ControllerRevision × Option Error) × W
  stored_as revision world =
      let (error, after) = c.put revision world in ((some revision, error), after)

  unfoldable pub add_revision :
      ControllerRevision → W → (Option ControllerRevision × Option Error) × W
  unfolding look_up
  add_revision revision world = elim (look_up revision world) [
    | err e ↦ ((none, some e), world)
    | ok (some found) ↦ ((some found, some already_exists), world)
    | ok none ↦ stored_as revision world
  ]

  abbrev pub clashes : Option Error → Bool
  clashes none = false
  clashes (some e) = is_already_exists e

  -- `none` without fuel.
  unfoldable pub create_loop :
      (fuel : ℕ)
      → ObjectMeta
      → ControllerRevision
      → ℕ
      → W
      → (Option (Option ControllerRevision × Option Error) × ℕ) × W
  unfolding add_revision controller_revision_name
  create_loop zero parent clone count world = ((none, count), world)
  create_loop (suc fuel) parent clone count world =
      let name = controller_revision_name parent.name (c.hash clone.data_raw (some count)) in
      let (result, after) = add_revision (renamed name clone) world in
      let rest = create_loop fuel parent clone (count + 1) after in
      if clashes result.1 then rest else ((some result, count), after)

  abbrev pub in_namespace : Text → ControllerRevision → ControllerRevision
  in_namespace namespace r = record r { meta = record r.meta { namespace = namespace } }

  unfoldable pub create_controller_revision :
      (fuel : ℕ)
      → ObjectMeta
      → ControllerRevision
      → Option ℕ
      → W
      → (Option (Option ControllerRevision × Option Error) × Option ℕ) × W
  unfolding create_loop
  create_controller_revision fuel parent revision none world =
      ((some (none, some message), none), world)
  create_controller_revision fuel parent revision (some count) world =
      let ((result, counted), after) =
        create_loop fuel parent (in_namespace parent.namespace revision) count world in
      ((result, some counted), after)

  unfoldable pub delete_controller_revision : ControllerRevision → W → Option Error × W
  unfolding look_up
  delete_controller_revision revision world = elim (look_up revision world) [
    | err e ↦ (some e, world)
    | ok none ↦ (some not_found, world)
    | ok (some found) ↦ c.remove found world
  ]

  unfoldable pub update_controller_revision :
      ControllerRevision → ℤ → W → (Option ControllerRevision × Option Error) × W
  update_controller_revision revision new_revision world =
      stored_as (record revision { revision = new_revision }) world

  abbrev pub with_owners : List OwnerReference → ControllerRevision → ControllerRevision
  with_owners owners r = record r { meta = record r.meta { owner_references = owners } }

  unfoldable pub adopt_controller_revision :
      ObjectMeta
      → GroupVersionKind
      → ControllerRevision
      → W
      → (Option ControllerRevision × Option Error) × W
  unfolding look_up
  adopt_controller_revision parent kind revision world = elim (c.controller_of revision.meta) [
    | some owner ↦ ((none, some message), world)
    | none ↦ elim (look_up revision world) [
      | err e ↦ ((none, some e), world)
      | ok none ↦ ((none, some not_found), world)
      | ok (some found) ↦
          stored_as
            (with_owners (revision.meta.owner_references ++ (new_controller_ref parent kind ∷ []))
              revision)
            world
    ]
  ]

  abbrev pub other_owners : ObjectMeta → List OwnerReference → List OwnerReference
  other_owners parent refs = keep (λ (ref : OwnerReference). not (text_eq ref.uid parent.uid)) refs

  unfoldable pub release_controller_revision :
      ObjectMeta → ControllerRevision → W → (Option ControllerRevision × Option Error) × W
  unfolding look_up
  release_controller_revision parent revision world = elim (look_up revision world) [
    | err e ↦ ((none, some e), world)
    | ok none ↦ ((none, none), world)
    | ok (some found) ↦
        stored_as (with_owners (other_owners parent revision.meta.owner_references) revision) world
  ]
