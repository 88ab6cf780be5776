-- ===== src/History.antt =====
-- Controller revisions (pkg/controller/history/controller_history.go and newRevision, nextRevision
-- of xstateful_set_utils.go): names, order, equality. The hash of a revision and the JSON patch of a
-- set are parameters, as they are made by hash/fnv and a codec.
pub mod Truncate
pub mod Picks
pub mod Unused
pub mod Client
pub mod Creation
pub mod Fake
pub mod Changes
use xstatefulset.Base.{
  ℕ, ◌+◌, Bool, true, false, ◌&&◌, Option, none, some, List, [], ◌∷◌, ◌++◌, Text, codes, text_eq,
  ltb, ◌==◌, if◌then◌else◌, keep, last?, length, take, ℤ, pos, ltb_ℤ, eqb_ℤ, insert,
}
use xstatefulset.Api.{
  Result, ok, err, Labels, ObjectMeta, ControllerRevision, XStatefulSet, controller_kind,
  new_controller_ref, Pod,
}
use xstatefulset.PodUtil.{get_pod_revision}
use xstatefulset.Status.{add_count}

-- `prefix[:223]` cuts bytes; the names of objects are ASCII.
unfoldable pub controller_revision_name : Text → Text → Text
controller_revision_name prefix hash =
    let front = if ltb 223 (length prefix) then take 223 prefix else prefix in
    front ++ (b'-' ∷ hash)

abbrev pub controller_revision_hash_label : Text
controller_revision_hash_label = codes "controller.kubernetes.io/hash"

module _ (hash : List ℕ → Option ℕ → Text) where
  unfoldable pub new_controller_revision :
      XStatefulSet → Labels → List ℕ → ℤ → Option ℕ → ControllerRevision
  unfolding controller_revision_name
  new_controller_revision parent template_labels raw revision collision_count =
      let code = hash raw collision_count in
      record {
        meta = record {
          name = controller_revision_name parent.meta.name code;
          namespace = [];
          uid = [];
          generation = 0;
          resource_version = [];
          labels = some (insert controller_revision_hash_label code template_labels);
          owner_references = new_controller_ref parent.meta controller_kind ∷ [];
          deletion_timestamp = none;
          creation_timestamp = none;
        };
        revision = revision;
        data_raw = raw;
      }

  -- newRevision, without the annotations.
  unfoldable pub new_revision :
      (XStatefulSet → Result (List ℕ)) → XStatefulSet → ℤ → Option ℕ → Result ControllerRevision
  unfolding new_controller_revision
  new_revision get_patch set revision collision_count = elim (get_patch set) [
    | err e ↦ err e
    | ok patch ↦
        ok (new_controller_revision set set.spec.template.labels patch revision collision_count)
  ]

-- `a < b` on strings.
unfoldable pub text_lt : Text → Text → Bool
text_lt [] [] = false
text_lt [] (y ∷ ys) = true
text_lt (x ∷ xs) [] = false
text_lt (x ∷ xs) (y ∷ ys) = if x == y then text_lt xs ys else ltb x y

-- Times compared, the zero time first.
abbrev pub same_time : Option ℕ → Option ℕ → Bool
same_time none none = true
same_time (some a) (some b) = a == b
same_time _ _ = false

abbrev pub is_after : Option ℕ → Option ℕ → Bool
is_after (some a) (some b) = ltb b a
is_after (some a) none = true
is_after none b = false

-- Less of byRevision.
unfoldable pub by_revision : ControllerRevision → ControllerRevision → Bool
unfolding text_lt
by_revision a b =
    if eqb_ℤ a.revision b.revision
    then (if same_time b.meta.creation_timestamp a.meta.creation_timestamp
        then text_lt a.meta.name b.meta.name
        else is_after b.meta.creation_timestamp a.meta.creation_timestamp)
    else ltb_ℤ a.revision b.revision

-- sort.Stable by this order, as a sort by insertion: an entry goes in front of the first one that is
-- not less than it.
unfoldable pub insert_revision :
    ControllerRevision → List ControllerRevision → List ControllerRevision
insert_revision r [] = r ∷ []
insert_revision r (s ∷ rs) =
    let rest = insert_revision r rs in if by_revision s r then s ∷ rest else r ∷ (s ∷ rs)

unfoldable pub sort_controller_revisions : List ControllerRevision → List ControllerRevision
unfolding insert_revision
sort_controller_revisions [] = []
sort_controller_revisions (r ∷ rs) = insert_revision r (sort_controller_revisions rs)

-- The code also compares `Data.Object`, which is nil in a revision that was read or is made here.
unfoldable pub equal_revision : ControllerRevision → ControllerRevision → Bool
equal_revision a b = text_eq a.data_raw b.data_raw

unfoldable pub find_equal_revisions :
    List ControllerRevision → ControllerRevision → List ControllerRevision
unfolding equal_revision
find_equal_revisions revisions needle = keep (λ r. equal_revision r needle) revisions

unfoldable pub next_revision : List ControllerRevision → ℤ
next_revision revisions = elim (last? revisions) [ none ↦ pos 1 | some r ↦ add_count r.revision 1 ]
