-- ===== src/Availability/Changes.antt =====
-- The next check comes when the first pod becomes available, and not later.
use xstatefulset.Base.{
  ℕ, ◌+◌, ◌≤◌, ◌<◌, ◌≡◌, refl, sym, subst, ◌∙◌, ◌⊎◌, inl, inr, true, false, Option, none, some,
  List, leb, leb→le, leb-false→lt, arith, In, Bool-cases, Option-cases,
}
use xstatefulset.Api.{Pod}
use xstatefulset.PodUtil.{is_pod_available}
use xstatefulset.Availability.{
  next_pod_availability_check, find_min_next_pod_availability_simple_check,
  find_min_next_pod_availability_check,
}
use xstatefulset.Availability.Minimum.{IsLeast, find_min_next_pod_availability_simple_check-IsLeast}
use xstatefulset.Availability.Checks.{
  by_condition, remaining_positive, next_pod_availability_check-some,
  next_pod_availability_check-none,
}

-- When the availability of the pods changes next, from one time on: never, or at the time `at`, when
-- the first of the pods becomes available.
pub data NextChange (pods : List Pod) (seconds last clock : ℕ) : Option ℕ → Type 0 where
  no_change :
      ((pod : Pod) (t : ℕ)
        → In pod pods
        → last ≤ t
        → is_pod_available pod seconds t ≡ is_pod_available pod seconds last)
      → NextChange pods seconds last clock none
  change_at :
      (at wait : ℕ) (first : Pod)
      → In first pods
      → last < at
      → ((t : ℕ) → is_pod_available first seconds t ≡ leb at t)
      → ((pod : Pod) (t : ℕ)
          → In pod pods
          → last ≤ t
          → t < at
          → is_pod_available pod seconds t ≡ is_pod_available pod seconds last)
      → ((clock + wait ≡ at) ⊎ ((at ≤ clock) × (wait ≡ 0)))
      → NextChange pods seconds last clock (some wait)

module _ (pods : List Pod) (seconds last clock : ℕ) (later : last ≤ clock) where
  abbrev least : Option (ℕ × Pod)
  least = find_min_next_pod_availability_simple_check pods seconds last

  some_inj : {a b : ℕ} → some a ≡ some b → a ≡ b
  some_inj e = cc

  -- A pod whose check is not sooner does not change before it.
  quiet_before :
      (check : ℕ) (pod : Pod)
      → ((d : ℕ) → next_pod_availability_check pod seconds last ≡ some d → check ≤ d)
      → (t : ℕ) → last ≤ t
      → t < last + check
      → is_pod_available pod seconds t ≡ is_pod_available pod seconds last
  quiet_before check pod h t l m =
      elim (Option-cases (next_pod_availability_check pod seconds last)) [
        | inl n ↦ next_pod_availability_check-none pod seconds last n t l
        | inr (d, e) ↦
            let at = next_pod_availability_check-some pod seconds last d e in
            at t
            ∙ both_false (last + d) t last (omega (arith, h d e)) (omega (arith, h d e))
            ∙ sym (at last)
      ]
    where
      both_false : (a t u : ℕ) → t < a → u < a → leb a t ≡ leb a u
      both_false a t u x y = ground (arith, x, y)

  same_time : (a b : ℕ) → ((t : ℕ) → leb a t ≡ leb b t) → a ≡ b
  same_time a b h =
      omega (arith, leb→le b a (sym (h a) ∙ leb_refl a), leb→le a b (h b ∙ leb_refl b))
    where
      leb_refl : (n : ℕ) → leb n n ≡ true
      leb_refl n = ground arith

  is_past :
      (at : ℕ) (first : Pod)
      → next_pod_availability_check first seconds clock ≡ none
      → ((t : ℕ) → is_pod_available first seconds t ≡ leb at t)
      → at ≤ clock
  is_past at first e h = elim (Bool-cases (leb at clock)) [
    | inl x ↦ leb→le at clock x
    | inr x ↦
        let before = leb-false→lt at clock x in
        absurd (
          differ at (
            sym (h at)
            ∙ next_pod_availability_check-none first seconds clock e at (omega (arith, before))
            ∙ h clock
            ∙ x))
  ]
    where
      differ : (n : ℕ) → leb n n ≡ false → ⊥
      differ n e = ground (arith, e)

  wait_until :
      (at : ℕ) (first : Pod) (c : Option ℕ)
      → next_pod_availability_check first seconds clock ≡ c
      → ((t : ℕ) → is_pod_available first seconds t ≡ leb at t)
      → (wait : ℕ) × ((elim c [ none ↦ some 0 | some u ↦ some u ]) ≡ some wait)
        × ((clock + wait ≡ at) ⊎ ((at ≤ clock) × (wait ≡ 0)))
  wait_until at first none e h = (0, refl, inr (is_past at first e h, refl))
  wait_until at first (some u) e h = (
    u,
    refl,
    inl (
        same_time (clock + u) at
          (λ t. sym (next_pod_availability_check-some first seconds clock u e t) ∙ h t)),
  )

  by_least :
      (best : Option (ℕ × Pod))
      → IsLeast seconds last (λ pod. In pod pods) best
      → NextChange pods seconds last clock (elim best [
        | none ↦ none
        | some (check, pod) ↦ elim (next_pod_availability_check pod seconds clock) [
          | none ↦ some 0
          | some u ↦ some u
        ]
      ])
  by_least none h =
      no_change (λ pod t i l. next_pod_availability_check-none pod seconds last (h pod i) t l)
  by_least (some (check, first)) (i, e, h) =
      let at = next_pod_availability_check-some first seconds last check e in
      let (wait, q, due) = wait_until (last + check) first _ refl at in
      subst (NextChange pods seconds last clock) (sym q) (
        change_at (last + check) wait first i (to_come check e) at
          (λ pod t j l m. quiet_before check pod (λ d g. h pod d j g) t l m) due)
    where
      to_come :
          (check : ℕ)
          → next_pod_availability_check first seconds last ≡ some check
          → last < last + check
      to_come check e =
          let (since, r, _) = by_condition first seconds last check e in
          remaining_positive since seconds last check r

-- For FindMinNextPodAvailabilityCheck, read at a time not before the last evaluation: without a check the
-- availability of no pod changes any more; with one, no pod's availability changes before the time at
-- which one of the pods becomes available for good, and the check comes at that time, or at once if it
-- is past.
pub find_min_next_pod_availability_check-NextChange :
    (pods : List Pod) (seconds last clock : ℕ)
    → last ≤ clock
    → NextChange pods seconds last clock
        (find_min_next_pod_availability_check pods seconds last clock)
unfolding find_min_next_pod_availability_check
find_min_next_pod_availability_check-NextChange pods seconds last clock later =
    by_least pods seconds last clock later
      (find_min_next_pod_availability_simple_check pods seconds last)
      (find_min_next_pod_availability_simple_check-IsLeast seconds last pods)
