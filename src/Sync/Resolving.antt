-- ===== src/Sync/Resolving.antt =====
-- Which of its outcomes getStatefulSetRevisions (xstateful_set_control.go) has, and why.
use xstatefulset.Base.{ℕ, Bool, List, text_eq}
use xstatefulset.Api.{Result, ControllerRevision, XStatefulSet}
use xstatefulset.Sync.Config.{Config}
use xstatefulset.Sync.Revisions.{HistoryControl}
use xstatefulset.Sync.Outcomes.{IsHistory, Choice}

module _ {W : Type 0} (h : HistoryControl W) (c : Config W) (set : XStatefulSet) where
  module _ (law : IsHistory h) (sorted : List ControllerRevision) (proposed : ControllerRevision)
      (world : W) where
    abbrev Chosen : (Result ControllerRevision × ℕ) × W → Type 0
    Chosen out = Choice h c set sorted proposed world out.0.0 out.1

  is_current : ControllerRevision → Bool
  is_current r = text_eq r.meta.name set.status.current_revision
