-- ===== src/Tests/UtilityWitnesses.antt =====
-- The theorems of the expectations, the availability checks and the status updater at concrete inputs,
-- with a store of one cell.
use xstatefulset.Base.{
  ℕ, suc, ◌-◌, ◌^◌, ◌≤◌, ◌<◌, ◌≡◌, ◌↔◌, refl, ap, ◌⊎◌, true, false, ◌&&◌, Option, none, some, List,
  [], ◌∷◌, Text, codes, length, all, arith, pos, text_eq,
}
use xstatefulset.Api.{not_found, ok, err}
use xstatefulset.Expectations.{
  Store, ControlleeExpectations, expectations_timeout, set_expectations, satisfied_expectations,
}
use xstatefulset.Expectations.Tracking.{
  IsStore, creation, deletion, observe, satisfied_expectations_iff, Observed,
}
use xstatefulset.Expectations.Uids.{member, to_set, Tracker, expect_deletions_of}
use xstatefulset.Expectations.Uids.Once.{observe_all, expect_deletions_of_iff}
use xstatefulset.Availability.{find_min_next_pod_availability_check}
use xstatefulset.Availability.Changes.{NextChange, find_min_next_pod_availability_check-NextChange}
use xstatefulset.StatusUpdater.{
  StatusClient, IsRetry, IsAccepted, update_stateful_set_status,
  update_stateful_set_status-IsAccepted,
}
use xstatefulset.Ordering.{RankedPod, active_less, by_logging_less}
use xstatefulset.Ordering.Strict.{active_less-by_logging_less-strict}
use xstatefulset.Tests.Samples.{web, web_0, web_1, no_status}

abbrev change : {V : Type 0} → (V → V) → Option V → Option V
change f none = none
change f (some v) = some (f v)

abbrev cell : (V : Type 0) → Store (Option V) V
cell V = record {
  get_by_key = λ _ s. ok s;
  add = λ _ v _. (none, some v);
  delete = λ _ _. (none, none);
  modify = λ _ f s. change f s;
}

ok_inj : {A : Type 0} {a b : A} → ok a ≡ ok b → a ≡ b
ok_inj e = cc

cell-IsStore : (V : Type 0) → IsStore (cell V)
cell-IsStore V = record {
  added = λ key v s. (refl, refl);
  modified = λ key f v s e. ap (λ (o : Option V). ok (change f o)) (ok_inj e);
}

abbrev counters : Store (Option ControlleeExpectations) ControlleeExpectations
counters = cell ControlleeExpectations

abbrev lawful : IsStore counters
lawful = cell-IsStore ControlleeExpectations

abbrev events : List Observed
events = deletion ∷ (creation ∷ [])

satisfied_expectations_iff_example :
    let after =
      observe counters lawful
        (codes "web")
        events
        (set_expectations counters 0 (codes "web") (pos 1) (pos 1) none).1 in
    (satisfied_expectations counters 5 (codes "web") after ≡ true)
    ↔ ((1 ≤ 1) × (1 ≤ 1)) ⊎ (expectations_timeout < 5 - 0)
satisfied_expectations_iff_example =
    satisfied_expectations_iff counters lawful (codes "web") 1 1 0 5 events none (omega arith)
      (omega arith) (omega arith) (omega arith)

abbrev keys : List Text
keys = codes "a" ∷ (codes "b" ∷ (codes "a" ∷ []))

abbrev seen : List Text
seen = codes "a" ∷ (codes "a" ∷ [])

abbrev empty : Tracker (Option ControlleeExpectations) (Option (List Text))
empty = record { expectations = none; uids = none }

few : length (to_set keys) < 2 ^ 63
unfolding text_eq
few = omega arith

expect_deletions_of_iff_example :
    let after =
      observe_all counters
        (cell (List Text))
        lawful
        (cell-IsStore (List Text))
        (codes "web")
        seen
        (expect_deletions_of counters (cell (List Text)) 0 (codes "web") keys empty).1 in
    (satisfied_expectations counters 5 (codes "web") after.expectations ≡ true)
    ↔ (all (λ k. member k seen) keys ≡ true) ⊎ (expectations_timeout < 5 - 0)
expect_deletions_of_iff_example =
    expect_deletions_of_iff counters (cell (List Text)) lawful (cell-IsStore (List Text))
      (codes "web") keys seen 0 5 empty few

find_min_next_pod_availability_check-NextChange_example :
    NextChange
      (web_1 ∷ (web_0 ∷ []))
      3
      2
      4
      (find_min_next_pod_availability_check (web_1 ∷ (web_0 ∷ [])) 3 2 4)
find_min_next_pod_availability_check-NextChange_example =
    find_min_next_pod_availability_check-NextChange (web_1 ∷ (web_0 ∷ [])) 3 2 4 (omega arith)

abbrev status_client : StatusClient ℕ
status_client = record {
  update_status = λ _ _ n. (none, suc n);
  get_cached = λ _ _ _. err not_found;
  retry_on_conflict = λ body s. body s;
}

single_run : IsRetry status_client no_status
single_run = record { last = λ body s. (s, refl) }

written : (update_stateful_set_status status_client no_status web 0).0 ≡ none
unfolding update_stateful_set_status
written = refl

update_stateful_set_status-IsAccepted_example :
    IsAccepted status_client no_status (update_stateful_set_status status_client no_status web 0).1
update_stateful_set_status-IsAccepted_example =
    update_stateful_set_status-IsAccepted status_client no_status single_run web 0 written

abbrev placed : RankedPod
placed = record {
  pod = web_0;
  node_name = codes "node-1";
  container_restarts = 2 ∷ (5 ∷ []);
  init_containers = (codes "proxy", true) ∷ [];
  init_container_restarts = (codes "proxy", 1) ∷ [];
}

abbrev unplaced : RankedPod
unplaced = record placed { pod = web_1; node_name = [] }

active_less-by_logging_less-strict_example :
    (active_less unplaced placed && active_less placed unplaced ≡ false)
    × (by_logging_less unplaced placed && by_logging_less placed unplaced ≡ false)
active_less-by_logging_less-strict_example = active_less-by_logging_less-strict unplaced placed
