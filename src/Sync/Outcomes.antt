-- ===== src/Sync/Outcomes.antt =====
-- What getStatefulSetRevisions (xstateful_set_control.go) can give, by the data of the revisions.
use xstatefulset.Base.{ℕ, ℤ, ◌≡◌, ◌≢◌, true, some, List, last?, All, In}
use xstatefulset.Api.{Error, Result, ok, err, ControllerRevision, XStatefulSet}
use xstatefulset.History.{next_revision}
use xstatefulset.Sync.Config.{Config}
use xstatefulset.Sync.Revisions.{HistoryControl, Revisions, zero_if_nil, reconstruct}

-- What the code relies on: a revision that is created has the data that was asked for, and an update
-- keeps the data and sets the number.
pub record IsHistory {W : Type 0} (h : HistoryControl W) : Type 0 where
  pub created :
      (set : XStatefulSet) (r s : ControllerRevision) (collisions : ℕ) (world : W)
      → (h.create_revision set r collisions world).0.0 ≡ ok s
      → s.data_raw ≡ r.data_raw
  pub updated :
      (r s : ControllerRevision) (number : ℤ) (world : W)
      → (h.update_revision r number world).0 ≡ ok s
      → (s.data_raw ≡ r.data_raw) × (s.revision ≡ number)

module _ {W : Type 0} (h : HistoryControl W) (c : Config W) (set : XStatefulSet) where
  -- The cache says that the set, at its generation, is what the revision describes; or the revision
  -- that the set would have under the present code, made again from this one, has the proposed data.
  pub data MeansTheSame (proposed last : ControllerRevision) (world : W) : Type 0 where
    cached :
        (h.recall (set.meta.uid, set.meta.generation, last.meta.resource_version) world).0 ≡ true
        → MeansTheSame proposed last world
    reconstructed :
        (r : ControllerRevision)
        → reconstruct h c set last ≡ ok r
        → proposed.data_raw ≡ r.data_raw
        → MeansTheSame proposed last world

  -- How the update revision comes about, from the sorted revisions and the one that the set makes now.
  pub data Choice (sorted : List ControllerRevision) (proposed : ControllerRevision) (world : W)
      : Result ControllerRevision → W → Type 0 where
    -- The last revision has the data already: nothing is changed.
    kept :
        (last : ControllerRevision)
        → last? sorted ≡ some last
        → last.data_raw ≡ proposed.data_raw
        → Choice sorted proposed world (ok last) world
    -- An older one has the data, and comes back with the next number.
    rolled_back :
        (last old update : ControllerRevision) (after : W)
        → last? sorted ≡ some last
        → last.data_raw ≢ proposed.data_raw
        → In old sorted
        → old.data_raw ≡ proposed.data_raw
        → update.data_raw ≡ proposed.data_raw
        → update.revision ≡ proposed.revision
        → Choice sorted proposed world (ok update) after
    -- None has the data, and the last one means the same, where the gate is on.
    recognised :
        (last : ControllerRevision) (after : W)
        → All (λ r. r.data_raw ≢ proposed.data_raw) sorted
        → last? sorted ≡ some last
        → h.semantic_comparison_gate ≡ true
        → MeansTheSame proposed last world
        → Choice sorted proposed world (ok last) after
    -- None has the data, and a new one is made.
    created :
        (update : ControllerRevision) (after : W)
        → All (λ r. r.data_raw ≢ proposed.data_raw) sorted
        → update.data_raw ≡ proposed.data_raw
        → Choice sorted proposed world (ok update) after
    -- The history failed to write.
    not_updated :
        (old : ControllerRevision) (e : Error) (after : W)
        → In old sorted
        → h.update_revision old proposed.revision world ≡ (err e, after)
        → Choice sorted proposed world (err e) after
    not_created :
        (e : Error) (collisions : ℕ) (before after : W)
        → All (λ r. r.data_raw ≢ proposed.data_raw) sorted
        → (h.create_revision set proposed collisions before).0.0 ≡ err e
        → Choice sorted proposed world (err e) after

  -- The current revision is one with the name in the status, or else the update revision.
  pub data IsCurrent (sorted : List ControllerRevision) (update current : ControllerRevision)
      : Type 0 where
    named :
        In current sorted
        → current.meta.name ≡ set.status.current_revision
        → IsCurrent sorted update current
    first :
        All (λ r. r.meta.name ≢ set.status.current_revision) sorted
        → current ≡ update
        → IsCurrent sorted update current

  abbrev pub next_made : List ControllerRevision → Result ControllerRevision
  next_made sorted =
      h.new_revision set (next_revision sorted) (some (zero_if_nil set.status.collision_count))

  -- The outcomes, from the sorted revisions.
  pub data Resolution (sorted : List ControllerRevision) (world : W)
      : Result Revisions → W → Type 0 where
    not_made : (e : Error) → next_made sorted ≡ err e → Resolution sorted world (err e) world
    not_written :
        (proposed : ControllerRevision) (e : Error) (after : W)
        → next_made sorted ≡ ok proposed
        → Choice sorted proposed world (err e) after
        → Resolution sorted world (err e) after
    resolved :
        (proposed current update : ControllerRevision) (collisions : ℕ) (after : W)
        → next_made sorted ≡ ok proposed
        → Choice sorted proposed world (ok update) after
        → IsCurrent sorted update current
        → Resolution sorted world (ok (current, update, collisions)) after
