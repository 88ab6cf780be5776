-- ===== src/Sync/Partition.antt =====
-- The first part of updateStatefulSet: the pods are divided into the replicas, one for each ordinal
-- of the range, and the condemned pods; missing replicas are made up from the templates.
use xstatefulset.Base.{
  ℕ, suc, ◌-◌, Option, none, some, List, [], ◌∷◌, ◌++◌, Text, if◌then◌else◌, pos, leb_ℤ, pos_part,
  set, replicate,
}
use xstatefulset.Api.{Result, ok, err, nil_pointer, Pod, XStatefulSet}
use xstatefulset.PodUtil.{is_unavailable}
use xstatefulset.Identity.Names.{get_ordinal, get_start_ordinal, pod_in_ordinal_range}
use xstatefulset.Claims.Storage.{ClaimMap, new_versioned_stateful_set_pod}

-- `replicas` while it may still hold nil pointers, and `condemned`.
pub record Division : Type 0 where
  pub slots : List (Option Pod)
  pub condemned : List Pod

-- The body of the loop over the pods. Behind the first test the ordinal is at least the first one.
unfoldable pub place : XStatefulSet → Pod → Division → Division
place s pod d =
    if pod_in_ordinal_range pod s
    then record d {
      slots = set d.slots (pos_part (get_ordinal pod) - get_start_ordinal s) (some pod);
    }
    else if leb_ℤ (pos 0) (get_ordinal pod)
    then record d { condemned = d.condemned ++ (pod ∷ []) }
    else d

unfoldable pub place_all : XStatefulSet → List Pod → Division → Division
unfolding place
place_all s [] d = d
place_all s (pod ∷ pods) d = place_all s pods (place s pod d)

unfoldable pub partition_pods : XStatefulSet → List Pod → Division
unfolding place_all
partition_pods s pods =
    place_all s pods (record { slots = replicate s.spec.replicas none; condemned = [] })

-- descendingOrdinal: `sort.Sort` by it is a sort by insertion here, which orders pods with equal
-- ordinals in one of the ways that are left open there.
unfoldable pub insert_descending : Pod → List Pod → List Pod
insert_descending pod [] = pod ∷ []
insert_descending pod (other ∷ others) =
    let rest = insert_descending pod others in
    if leb_ℤ (get_ordinal other) (get_ordinal pod) then pod ∷ (other ∷ others) else other ∷ rest

unfoldable pub sort_descending : List Pod → List Pod
unfolding insert_descending
sort_descending [] = []
sort_descending (pod ∷ pods) = insert_descending pod (sort_descending pods)

-- Where the first unavailable pod stands. The code compares pointers; a position is one pointer.
pub data Position : Type 0 where
  replica condemned : ℕ → Position

abbrev pub or_else : {A : Type 0} → Option A → Option A → Option A
or_else (some a) b = some a
or_else none b = b

module _ (now seconds : ℕ) where
  -- The replicas from the first one up.
  unfoldable pub first_replica : ℕ → List Pod → Option ℕ
  first_replica i [] = none
  first_replica i (pod ∷ pods) =
      let rest = first_replica (suc i) pods in
      if is_unavailable pod seconds now then some i else rest

  -- The condemned pods from the last one down, so with the smallest ordinal first.
  unfoldable pub last_condemned : ℕ → List Pod → Option ℕ
  last_condemned i [] = none
  last_condemned i (pod ∷ pods) =
      or_else (last_condemned (suc i) pods)
        (if is_unavailable pod seconds now then some i else none)

  unfoldable pub first_unavailable : List Pod → List Pod → Option Position
  unfolding first_replica last_condemned
  first_unavailable replicas others = elim (first_replica 0 replicas) [
    | some i ↦ some (replica i)
    | none ↦ elim (last_condemned 0 others) [ some i ↦ some (condemned i) | none ↦ none ]
  ]

module _ (range : ClaimMap → ClaimMap) (current_set update_set : XStatefulSet) where
  module _ (current_revision update_revision : Text) where
    -- Every empty slot gets a new pod at its ordinal; a nil partition is a fault.
    unfoldable pub fill : ℕ → List (Option Pod) → Result (List Pod)
    fill ordinal [] = ok []
    fill ordinal (some pod ∷ slots) = elim (fill (suc ordinal) slots) [
      | err e ↦ err e
      | ok pods ↦ ok (pod ∷ pods)
    ]
    fill ordinal (none ∷ slots) =
        let rest = fill (suc ordinal) slots in
        elim (new_versioned_stateful_set_pod range current_set update_set current_revision
          update_revision ordinal) [
            | none ↦ err nil_pointer
            | some pod ↦ elim rest [ err e ↦ err e | ok pods ↦ ok (pod ∷ pods) ]
          ]
