-- ===== src/Sync/Revisions.antt =====
-- getStatefulSetRevisions (xstateful_set_control.go): the current and the update revision of a set.
-- The history's calls and the cache of equal revisions (golang/groupcache/lru) are parameters.
use xstatefulset.Base.{
  ℕ, ℤ, negsuc, Bool, true, false, not, Option, none, some, List, Text, text_eq, if◌then◌else◌,
  find?, last?,
}
use xstatefulset.Api.{Error, Result, ok, err, ControllerRevision, XStatefulSet, XStatefulSetStatus}
use xstatefulset.History.{
  next_revision, find_equal_revisions, equal_revision, sort_controller_revisions,
}
use xstatefulset.Sync.Config.{Config}

abbrev pub Key : Type 0
Key = Text × ℕ × Text

-- history.Interface, the cache, newRevision and Scheme.Default, over the state of the world. A
-- creation counts name collisions on.
pub record HistoryControl (W : Type 0) : Type 0 where
  pub list_revisions : XStatefulSet → W → Result (List ControllerRevision)
  pub create_revision :
      XStatefulSet → ControllerRevision → ℕ → W → (Result ControllerRevision × ℕ) × W
  pub update_revision : ControllerRevision → ℤ → W → Result ControllerRevision × W
  pub delete_revision : ControllerRevision → W → Option Error × W
  pub adopt_revision : XStatefulSet → ControllerRevision → W → Result ControllerRevision × W
  pub recall : Key → W → Bool × W
  pub remember : Key → W → W
  pub new_revision : XStatefulSet → ℤ → Option ℕ → Result ControllerRevision
  pub set_defaults : XStatefulSet → XStatefulSet
  pub update_status : XStatefulSet → XStatefulSetStatus → W → Option Error × W
  pub semantic_comparison_gate : Bool

abbrev pub zero_if_nil : Option ℕ → ℕ
zero_if_nil none = 0
zero_if_nil (some n) = n

-- The current and the update revision, and the collision count.
abbrev pub Revisions : Type 0
Revisions = ControllerRevision × ControllerRevision × ℕ

module _ {W : Type 0} (h : HistoryControl W) (c : Config W) (set : XStatefulSet) where
  abbrev pub reconstruct : ControllerRevision → Result ControllerRevision
  reconstruct latest = elim (c.apply_revision set latest) [
    | err e ↦ err e
    | ok s ↦ h.new_revision (h.set_defaults s) (negsuc 0) none
  ]

  unfoldable pub set_matches_latest_existing_revision :
      (proposed latest : ControllerRevision) → W → Bool × W
  set_matches_latest_existing_revision proposed latest world =
      if not h.semantic_comparison_gate
      then (false, world)
      else (let key : Key = (set.meta.uid, set.meta.generation, latest.meta.resource_version) in
          let (known, seen) = h.recall key world in
          if known then (true, seen) else elim (reconstruct latest) [
            | err e ↦ (false, seen)
            | ok r ↦
                if equal_revision proposed r then (true, h.remember key seen) else (false, seen)
          ])

  -- Where no revision is equal to the proposed one.
  unfoldable pub without_equal :
      Option ControllerRevision → ControllerRevision → ℕ → W → (Result ControllerRevision × ℕ) × W
  without_equal none proposed collisions world = h.create_revision set proposed collisions world
  without_equal (some latest) proposed collisions world =
      let (matches, after) = set_matches_latest_existing_revision proposed latest world in
      if matches
      then ((ok latest, collisions), after)
      else h.create_revision set proposed collisions after

  -- The update revision, from the last revision and the last one that is equal to the proposed one.
  unfoldable pub choose_update :
      (latest equal : Option ControllerRevision)
      → ControllerRevision
      → ℕ
      → W
      → (Result ControllerRevision × ℕ) × W
  choose_update latest none proposed collisions world =
      without_equal latest proposed collisions world
  choose_update none (some equal) proposed collisions world =
      without_equal none proposed collisions world
  choose_update (some latest) (some equal) proposed collisions world =
      if equal_revision latest equal
      then ((ok latest, collisions), world)
      else (let (result, after) = h.update_revision equal proposed.revision world in
          ((result, collisions), after))

  abbrev pub or_update : Option ControllerRevision → ControllerRevision → ControllerRevision
  or_update none update = update
  or_update (some current) update = current

  -- The current revision is found by its name; it is the update revision where there is none.
  abbrev pub settle :
      List ControllerRevision → (Result ControllerRevision × ℕ) × W → Result Revisions × W
  settle revisions ((err e, count), after) = (err e, after)
  settle revisions ((ok update, count), after) = (
    ok (
      or_update (find? (λ r. text_eq r.meta.name set.status.current_revision) revisions) update,
      update,
      count,
    ),
    after,
  )

  abbrev pub resolve :
      List ControllerRevision → W → Result ControllerRevision → Result Revisions × W
  resolve revisions world (err e) = (err e, world)
  resolve revisions world (ok proposed) = settle revisions (
      choose_update (last? revisions) (last? (find_equal_revisions revisions proposed)) proposed
        (zero_if_nil set.status.collision_count) world)

  unfoldable pub get_stateful_set_revisions : List ControllerRevision → W → Result Revisions × W
  unfolding choose_update
  get_stateful_set_revisions unsorted world =
      let revisions = sort_controller_revisions unsorted in
      resolve revisions world (
        h.new_revision set (next_revision revisions)
          (some (zero_if_nil set.status.collision_count)))
