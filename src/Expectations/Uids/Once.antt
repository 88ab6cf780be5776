-- ===== src/Expectations/Uids/Once.antt =====
-- A deletion that is observed more than once counts once.
use xstatefulset.Base.{
  ℕ, ◌+◌, ◌-◌, ◌^◌, ◌≤◌, ◌<◌, ◌≡◌, ◌↔◌, refl, sym, ◌∙◌, ◌⊎◌, inl, inr, true, some, List, [], ◌∷◌,
  Text, length, all, arith, Bool-cases, ltb→lt, lt→ltb,
}
use xstatefulset.Api.{ok}
use xstatefulset.Expectations.{
  Store, ControlleeExpectations, expectations_timeout, expect_deletions, satisfied_expectations,
  is_expired,
}
use xstatefulset.Expectations.Tracking.{
  IsStore, Holds, left, deletion_observed-Holds, set_expectations-Holds, satisfied_iff,
}
use xstatefulset.Expectations.Uids.{
  member, to_set, remove_text, Tracker, get_uids, expect_deletions_of, deletion_observed_of,
}
use xstatefulset.Expectations.Uids.Unseen.{
  unseen, IsDistinct, to_set-IsDistinct, remove_text-none, remove_text-IsDistinct,
  length-remove_text, unseen_iff, all-to_set,
}

module _ {S U : Type 0} (c : Store S ControlleeExpectations) (d : Store U (List Text))
    (law : IsStore c) (law_uids : IsStore d) (key : Text) where
  abbrev pub observe_all : List Text → Tracker S U → Tracker S U
  observe_all [] t = t
  observe_all (x ∷ seen) t = observe_all seen (deletion_observed_of c d key x t)

  module _ (n now : ℕ) (small : n < 2 ^ 63) where
    -- The counter is the number of the keys that are left.
    record InStep (xs : List Text) (t : Tracker S U) : Type 0 where
      gone : ℕ
      counted : gone + length xs ≡ n
      distinct : IsDistinct xs
      kept : d.get_by_key key t.uids ≡ ok (some xs)
      holds : Holds c law key (left c law key 0 n 0 gone now) t.expectations

    deletion_observed_of-InStep :
        (x : Text) (xs : List Text) (t : Tracker S U)
        → InStep xs t
        → InStep (remove_text x xs) (deletion_observed_of c d key x t)
    unfolding deletion_observed_of get_uids
    deletion_observed_of-InStep x xs t s = elim (Bool-cases (member x xs)) [
      | inl m ↦
          let shorter = length-remove_text x xs s.distinct m in
          rw (s.kept, m, deletion_observed_of)
            (record {
              gone = s.gone + 1;
              counted = omega (arith, shorter, s.counted);
              distinct = remove_text-IsDistinct x xs s.distinct;
              kept = law_uids.modified key (remove_text x) xs t.uids s.kept;
              holds =
                  deletion_observed-Holds c law key 0 n now (omega arith) small 0 s.gone
                    t.expectations (omega arith) (omega (arith, shorter, s.counted)) s.holds;
            })
      | inr m ↦ rw (s.kept, m, remove_text-none x xs m, deletion_observed_of) s
    ]

    observe_all-InStep :
        (seen xs : List Text) (t : Tracker S U)
        → InStep xs t
        → InStep (unseen seen xs) (observe_all seen t)
    observe_all-InStep [] xs t s = s
    observe_all-InStep (x ∷ seen) xs t s =
        observe_all-InStep seen (remove_text x xs) (deletion_observed_of c d key x t)
          (deletion_observed_of-InStep x xs t s)

    over_iff : (xs : List Text) (gone : ℕ) → gone + length xs ≡ n → (n ≤ gone) ↔ (xs ≡ [])
    over_iff [] gone e = (λ _. refl, λ _. omega arith)
    over_iff (x ∷ xs) gone e = (λ l. absurd (omega (arith, e, l)), λ q. cc)

    InStep-satisfied :
        (later : ℕ) (xs : List Text) (t : Tracker S U)
        → InStep xs t
        → (satisfied_expectations c later key t.expectations ≡ true)
          ↔ (xs ≡ []) ⊎ (expectations_timeout < later - now)
    unfolding is_expired
    InStep-satisfied later xs t s =
        let (f, g) =
          satisfied_iff c law key 0 n now (omega arith) small 0 s.gone later t.expectations
            s.holds in
        let (over, left_over) = over_iff xs s.gone s.counted in
        (
          λ e. elim (f e) [ inl (_, l) ↦ inl (over l) | inr x ↦ inr (ltb→lt _ _ x) ],
          λ y. g (elim y [ inl q ↦ inl (omega arith, left_over q) | inr l ↦ inr (lt→ltb _ _ l) ]),
        )

  start-InStep :
      (keys : List Text) (now : ℕ) (small : length (to_set keys) < 2 ^ 63) (t : Tracker S U)
      → InStep
          (length (to_set keys))
          now
          small
          (to_set keys)
          (expect_deletions_of c d now key keys t).1
  unfolding expect_deletions_of expect_deletions
  start-InStep keys now small t =
      rw ((law_uids.added key (to_set keys) t.uids).0, expect_deletions_of)
        (record {
          gone = 0;
          counted = omega arith;
          distinct = to_set-IsDistinct keys;
          kept = (law_uids.added key (to_set keys) t.uids).1;
          holds =
              set_expectations-Holds c law key 0 (length (to_set keys)) now (omega arith) small
                t.expectations;
        })

-- Over stores that give back what they hold: once a controller expects the deletion of some keys,
-- fewer than 2^63 different ones, and deletions are observed, of any keys in any order and any number
-- of times, it is satisfied exactly if every expected key was observed, or the expectations are
-- expired.
pub expect_deletions_of_iff :
    {S U : Type 0} (c : Store S ControlleeExpectations) (d : Store U (List Text)) (law : IsStore c)
    (law_uids : IsStore d) (key : Text) (keys seen : List Text) (now later : ℕ) (t : Tracker S U)
    → length (to_set keys) < 2 ^ 63
    → let after =
        observe_all c d law law_uids key seen (expect_deletions_of c d now key keys t).1 in
      (satisfied_expectations c later key after.expectations ≡ true)
      ↔ (all (λ k. member k seen) keys ≡ true) ⊎ (expectations_timeout < later - now)
expect_deletions_of_iff c d law law_uids key keys seen now later t small =
    let n = length (to_set keys) in
    let after = observe_all c d law law_uids key seen (expect_deletions_of c d now key keys t).1 in
    let (f, g) =
      InStep-satisfied c d law law_uids key n now small later (unseen seen (to_set keys)) after (
        observe_all-InStep c d law law_uids key n now small seen (to_set keys) _
          (start-InStep c d law law_uids key keys now small t)) in
    let (all_seen, none_left) = unseen_iff seen (to_set keys) in
    let e = all-to_set (λ k. member k seen) keys in
    (
      λ x. elim (f x) [ inl q ↦ inl (sym e ∙ all_seen q) | inr l ↦ inr l ],
      λ y. g (elim y [ inl h ↦ inl (none_left (e ∙ h)) | inr l ↦ inr l ]),
    )
