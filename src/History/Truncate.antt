-- ===== src/History/Truncate.antt =====
-- truncateHistory (xstateful_set_control.go).
use xstatefulset.Base.{
  ◌-◌, Bool, false, not, ◌||◌, Option, none, some, List, [], ◌∷◌, Text, text_eq, leb, if◌then◌else◌,
  keep, any, take, length, ℤ, pos, negsuc,
}
use xstatefulset.Api.{Error, Pod, ControllerRevision}
use xstatefulset.PodUtil.{get_pod_revision}

abbrev pub is_named : Text → Option ControllerRevision → Bool
is_named name none = false
is_named name (some r) = text_eq r.meta.name name

-- `live[name]`: the current and the update revision, and those of the pods.
unfoldable pub is_live :
    List Pod → (current update : Option ControllerRevision) → ControllerRevision → Bool
is_live pods current update r =
    is_named r.meta.name current
    || is_named r.meta.name update
    || any (λ pod. text_eq (get_pod_revision pod) r.meta.name) pods

-- The revisions to delete: those in front, above the limit; none under a negative one.
abbrev pub above_limit : ℤ → List ControllerRevision → List ControllerRevision
above_limit (negsuc _) history = []
above_limit (pos limit) history =
    if leb (length history) limit then [] else take (length history - limit) history

module _ (limit : ℤ) (pods : List Pod) (revisions : List ControllerRevision) where
  module _ (current update : Option ControllerRevision) where
    abbrev pub get_history : List ControllerRevision
    get_history = keep (λ r. not (is_live pods current update r)) revisions

    unfoldable pub get_surplus : List ControllerRevision
    get_surplus = above_limit limit get_history

    -- The surplus is deleted in order, up to the first error.
    module _ {W : Type 0} (delete_revision : ControllerRevision → W → Option Error × W) where
      unfoldable pub delete_all : List ControllerRevision → W → Option Error × W
      delete_all [] world = (none, world)
      delete_all (r ∷ rs) world =
          let (error, after) = delete_revision r world in
          let rest = delete_all rs after in elim error [ some e ↦ (some e, after) | none ↦ rest ]

      unfoldable pub truncate_history : W → Option Error × W
      unfolding delete_all get_surplus
      truncate_history world = delete_all get_surplus world
