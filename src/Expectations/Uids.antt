-- ===== src/Expectations/Uids.antt =====
-- UIDTrackingControllerExpectations (pkg/controller/controller_utils.go): the deletions that are
-- expected, by their keys, so that none is counted twice. The lock makes each operation one step.
pub mod Once
pub mod Unseen
use xstatefulset.Base.{
  ℕ, Bool, true, false, not, Option, none, some, List, [], ◌∷◌, Text, text_eq, if◌then◌else◌, any,
  keep, length, pos,
}
use xstatefulset.Api.{Error, Result, ok, err}
use xstatefulset.Expectations.{
  Store, ControlleeExpectations, expect_deletions, deletion_observed, delete_expectations,
}

-- Insertion into a set of texts, and removal.
abbrev pub member : Text → List Text → Bool
member x xs = any (text_eq x) xs

abbrev pub insert_text : Text → List Text → List Text
insert_text x xs = if member x xs then xs else x ∷ xs

abbrev pub to_set : List Text → List Text
to_set [] = []
to_set (x ∷ xs) = insert_text x (to_set xs)

abbrev pub remove_text : Text → List Text → List Text
remove_text x xs = keep (λ y. not (text_eq x y)) xs

-- The store of the expectations and that of the expected keys.
pub record Tracker (S U : Type 0) : Type 0 where
  pub expectations : S
  pub uids : U

module _ {S U : Type 0} (c : Store S ControlleeExpectations) (d : Store U (List Text)) where
  unfoldable pub get_uids : Text → U → Option (List Text)
  get_uids key u = elim (d.get_by_key key u) [ err e ↦ none | ok found ↦ found ]

  unfoldable pub expect_deletions_of :
      (now : ℕ) → Text → (deleted_keys : List Text) → Tracker S U → Option Error × Tracker S U
  unfolding expect_deletions
  expect_deletions_of now key deleted_keys t =
      let expected = to_set deleted_keys in
      let (error, uids) = d.add key expected t.uids in
      elim error [
        | some e ↦ (some e, record t { uids = uids })
        | none ↦
            let (failed, expectations) =
              expect_deletions c now key (pos (length expected)) t.expectations in
            (failed, record { expectations = expectations; uids = uids })
      ]

  unfoldable pub deletion_observed_of : (key deleted : Text) → Tracker S U → Tracker S U
  unfolding get_uids deletion_observed
  deletion_observed_of key deleted t = elim (get_uids key t.uids) [
    | none ↦ t
    | some uids ↦
        if member deleted uids
        then record {
          expectations = deletion_observed c key t.expectations;
          uids = d.modify key (remove_text deleted) t.uids;
        }
        else t
  ]

  unfoldable pub delete_expectations_of : Text → Tracker S U → Tracker S U
  unfolding delete_expectations
  delete_expectations_of key t = record {
    expectations = delete_expectations c key t.expectations;
    uids = elim (d.get_by_key key t.uids) [
      | err e ↦ t.uids
      | ok none ↦ t.uids
      | ok (some uids) ↦ (d.delete key t.uids).1
    ];
  }
