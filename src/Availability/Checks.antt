-- ===== src/Availability/Checks.antt =====
-- What the check of one pod says of its availability.
use xstatefulset.Base.{
  ℕ, ◌+◌, ◌-◌, ◌*◌, ◌≤◌, ◌<◌, ◌≡◌, refl, sym, ap, ◌∙◌, inl, inr, true, false, Option, none, some,
  leb, ltb, ◌==◌, ltb→lt, arith, Bool-cases, Option-cases, if◌then◌else◌,
}
use xstatefulset.Api.{Pod, PodCondition}
use xstatefulset.PodUtil.{
  is_pod_ready, get_pod_ready_condition, is_pod_available, lasted, nanos_per_second,
}
use xstatefulset.Availability.{remaining, next_pod_availability_check}

still_to_come :
    (due now check t : ℕ)
    → (if ltb now due then some (due - now) else none) ≡ some check
    → leb due t ≡ leb (now + check) t
still_to_come due now check t e = elim (Bool-cases (ltb now due)) [
  | inl x ↦
      let sum : due ≡ now + check = ground (arith, e, x, ltb→lt now due x) in ap (λ d. leb d t) sum
  | inr x ↦ absurd (ground (arith, e, x))
]

already_past :
    (due now t : ℕ)
    → (if ltb now due then some (due - now) else none) ≡ none
    → now ≤ t
    → leb due t ≡ leb due now
already_past due now t e l = ground (arith, e)

remaining-lasted :
    (since : Option ℕ) (seconds now check : ℕ)
    → remaining since seconds now ≡ some check
    → (t : ℕ) → lasted since seconds t ≡ leb (now + check) t
remaining-lasted none seconds now check e t = absurd (cc)
remaining-lasted (some s) seconds now check e t =
    still_to_come (s + seconds * nanos_per_second) now check t e

remaining-none :
    (since : Option ℕ) (seconds now : ℕ)
    → remaining since seconds now ≡ none
    → (t : ℕ) → now ≤ t
    → lasted since seconds t ≡ lasted since seconds now
remaining-none none seconds now e t l = refl
remaining-none (some s) seconds now e t l = already_past (s + seconds * nanos_per_second) now t e l

module _ (pod : Pod) (seconds now : ℕ) where
  opened :
      is_pod_ready pod ≡ true
      → (seconds == 0) ≡ false
      → (c : PodCondition) → get_pod_ready_condition pod ≡ some c
      → next_pod_availability_check pod seconds now ≡ remaining c.last_transition_time seconds now
  unfolding next_pod_availability_check
  opened x y c z = rw (x, y, z, next_pod_availability_check) refl

-- A check that is to come is that of the Ready condition, on which the availability depends.
pub by_condition :
    (pod : Pod) (seconds now check : ℕ)
    → next_pod_availability_check pod seconds now ≡ some check
    → (since : Option ℕ) × (remaining since seconds now ≡ some check)
      × ((t : ℕ) → is_pod_available pod seconds t ≡ lasted since seconds t)
unfolding next_pod_availability_check is_pod_available
by_condition pod seconds now check e = elim (Bool-cases (is_pod_ready pod)) [
  | inr x ↦ absurd (ground (arith, e, x))
  | inl x ↦ elim (Bool-cases (seconds == 0)) [
    | inl y ↦ absurd (ground (arith, e, x, y))
    | inr y ↦ elim (Option-cases (get_pod_ready_condition pod)) [
      | inl z ↦ absurd (ground (arith, e, x, y, z))
      | inr (c, z) ↦ (
        c.last_transition_time,
        sym (opened pod seconds now x y c z) ∙ e,
        λ t. rw (x, y, z, is_pod_available) refl,
      )
    ]
  ]
]

pub next_pod_availability_check-some :
    (pod : Pod) (seconds now check : ℕ)
    → next_pod_availability_check pod seconds now ≡ some check
    → (t : ℕ) → is_pod_available pod seconds t ≡ leb (now + check) t
next_pod_availability_check-some pod seconds now check e t =
    let (since, r, h) = by_condition pod seconds now check e in
    h t ∙ remaining-lasted since seconds now check r t

pub remaining_positive :
    (since : Option ℕ) (seconds now check : ℕ)
    → remaining since seconds now ≡ some check
    → now < now + check
remaining_positive none seconds now check e = absurd (cc)
remaining_positive (some s) seconds now check e =
    some_time (s + seconds * nanos_per_second) now check e
  where
    some_time :
        (due now check : ℕ)
        → (if ltb now due then some (due - now) else none) ≡ some check
        → now < now + check
    some_time due now check e = ground (arith, e)

pub next_pod_availability_check-none :
    (pod : Pod) (seconds now : ℕ)
    → next_pod_availability_check pod seconds now ≡ none
    → (t : ℕ) → now ≤ t
    → is_pod_available pod seconds t ≡ is_pod_available pod seconds now
unfolding next_pod_availability_check is_pod_available
next_pod_availability_check-none pod seconds now e t l = elim (Bool-cases (is_pod_ready pod)) [
  | inr x ↦ rw (x, is_pod_available) refl
  | inl x ↦ elim (Bool-cases (seconds == 0)) [
    | inl y ↦ rw (x, y, is_pod_available) refl
    | inr y ↦ elim (Option-cases (get_pod_ready_condition pod)) [
      | inl z ↦ rw (x, y, z, is_pod_available) refl
      | inr (c, z) ↦
          rw (x, y, z, is_pod_available)
            (remaining-none c.last_transition_time seconds now
              (sym (opened pod seconds now x y c z) ∙ e) t l)
    ]
  ]
]
