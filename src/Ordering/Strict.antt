-- ===== src/Ordering/Strict.antt =====
-- The orders of pods are strict: no two pods come before each other.
use xstatefulset.Base.{
  ℕ, ◌≡◌, refl, sym, ap, ◌∙◌, inl, inr, Bool, true, false, not, ◌&&◌, ◌||◌, Option, List, [], ◌∷◌,
  Text, text_eq, if◌then◌else◌, ltb, ◌==◌, arith, Bool-cases,
}
use xstatefulset.Api.{Phase}
use xstatefulset.PodUtil.{is_pod_ready}
use xstatefulset.Ordering.{
  RankedPod, pod_phase_to_ordinal, after_or_zero, same_time, pod_ready_time, max_container_restarts,
  compare_max_container_restarts, is_unassigned, by_restarts, active_less, same_phase,
  by_logging_less,
}
use xstatefulset.Ordering.Criteria.{
  lex, IsTurned, lex-turned, text_eq_sym, ltb-turned, ==_sym, same_time_sym, after_or_zero-turned,
}

abbrev regular : RankedPod → ℕ
regular p = (max_container_restarts p).0

abbrev sidecar : RankedPod → ℕ
sidecar p = (max_container_restarts p).1

abbrev created : RankedPod → Option ℕ
created p = p.pod.meta.creation_timestamp

abbrev is_ready : RankedPod → Bool
is_ready p = is_pod_ready p.pod

-- The criteria from the restarts on; `x` and `y` are the creation times, turned round or not.
abbrev last_criteria : RankedPod → RankedPod → Option ℕ → Option ℕ → List (Bool × Bool)
last_criteria a b x y =
    (not (regular a == regular b), ltb (regular b) (regular a))
    ∷ ((not (sidecar a == sidecar b), ltb (sidecar b) (sidecar a))
        ∷ ((not (same_time (created a) (created b)), after_or_zero x y) ∷ []))

abbrev first_criterion : RankedPod → RankedPod → Bool → Bool × Bool
first_criterion a b less =
    (not (text_eq a.node_name b.node_name) && (is_unassigned a || is_unassigned b), less)

abbrev ready_differs : RankedPod → RankedPod → Bool
ready_differs a b = not (is_ready a && is_ready b || not (is_ready a) && not (is_ready b))

abbrev since_differs : RankedPod → RankedPod → Bool
since_differs a b =
    is_ready a && is_ready b && not (same_time (pod_ready_time a.pod) (pod_ready_time b.pod))

abbrev active_criteria : RankedPod → RankedPod → List (Bool × Bool)
active_criteria a b =
    first_criterion a b (is_unassigned a)
    ∷ ((
      not (pod_phase_to_ordinal a.pod.phase == pod_phase_to_ordinal b.pod.phase),
      ltb (pod_phase_to_ordinal a.pod.phase) (pod_phase_to_ordinal b.pod.phase),
    )
        ∷ ((ready_differs a b, not (is_ready a))
            ∷ ((since_differs a b, after_or_zero (pod_ready_time a.pod) (pod_ready_time b.pod))
                ∷ last_criteria a b (created a) (created b))))

abbrev logging_criteria : RankedPod → RankedPod → List (Bool × Bool)
logging_criteria a b =
    first_criterion a b (not (is_unassigned a))
    ∷ ((
      not (same_phase a.pod.phase b.pod.phase),
      ltb (pod_phase_to_ordinal b.pod.phase) (pod_phase_to_ordinal a.pod.phase),
    )
        ∷ ((ready_differs a b, is_ready a)
            ∷ ((since_differs a b, after_or_zero (pod_ready_time b.pod) (pod_ready_time a.pod))
                ∷ last_criteria a b (created b) (created a))))

last_lex :
    (a b : RankedPod) (x y : Option ℕ)
    → by_restarts
        (compare_max_container_restarts a b)
        (not (same_time (created a) (created b)) && after_or_zero x y)
      ≡ lex (last_criteria a b x y)
unfolding compare_max_container_restarts
last_lex a b x y = elim (Bool-cases (regular a == regular b)) [
  | inr p ↦ rw (p, compare_max_container_restarts) refl
  | inl p ↦ elim (Bool-cases (sidecar a == sidecar b)) [
    | inr q ↦ rw (p, q, compare_max_container_restarts) refl
    | inl q ↦
        rw (p, q, compare_max_container_restarts)
          (both (same_time (created a) (created b)) (after_or_zero x y))
  ]
]
  where
    both : (s l : Bool) → (not s && l) ≡ (if not s then l else false)
    both true l = refl
    both false l = refl

abbrev over : List (Bool × Bool) → Bool → Bool
over [] rest = rest
over ((d, l) ∷ xs) rest = if d then l else over xs rest

active_less-lex : (a b : RankedPod) → active_less a b ≡ lex (active_criteria a b)
unfolding active_less
active_less-lex a b =
    ap
      (over (
        first_criterion a b (is_unassigned a)
        ∷ ((
          not (pod_phase_to_ordinal a.pod.phase == pod_phase_to_ordinal b.pod.phase),
          ltb (pod_phase_to_ordinal a.pod.phase) (pod_phase_to_ordinal b.pod.phase),
        )
            ∷ ((ready_differs a b, not (is_ready a))
                ∷ ((since_differs a b, after_or_zero (pod_ready_time a.pod) (pod_ready_time b.pod))
                    ∷ [])))))
      (last_lex a b (created a) (created b))

by_logging_less-lex : (a b : RankedPod) → by_logging_less a b ≡ lex (logging_criteria a b)
unfolding by_logging_less
by_logging_less-lex a b =
    ap
      (over (
        first_criterion a b (not (is_unassigned a))
        ∷ ((
          not (same_phase a.pod.phase b.pod.phase),
          ltb (pod_phase_to_ordinal b.pod.phase) (pod_phase_to_ordinal a.pod.phase),
        )
            ∷ ((ready_differs a b, is_ready a)
                ∷ ((since_differs a b, after_or_zero (pod_ready_time b.pod) (pod_ready_time a.pod))
                    ∷ [])))))
      (last_lex a b (created b) (created a))

abbrev unnamed : Text → Bool
unnamed n = elim n [ [] ↦ true | _ ∷ _ ↦ false ]

names_turned :
    (m n : Text)
    → not (text_eq m n) && (unnamed m || unnamed n) ≡ true
    → unnamed n ≡ not (unnamed m)
unfolding text_eq
names_turned [] [] e = absurd (cc)
names_turned [] (y ∷ ys) e = refl
names_turned (x ∷ xs) [] e = refl
names_turned (x ∷ xs) (y ∷ ys) e = absurd (ground (arith, e))

first_same :
    (a b : RankedPod)
    → not (text_eq a.node_name b.node_name) && (is_unassigned a || is_unassigned b)
      ≡ not (text_eq b.node_name a.node_name) && (is_unassigned b || is_unassigned a)
first_same a b = ground (arith, text_eq_sym a.node_name b.node_name)

flip_not : (l m : Bool) → m ≡ not l → l ≡ true → m ≡ false
flip_not l m e h = ground (arith, e, h)

ready_same : (a b : RankedPod) → ready_differs a b ≡ ready_differs b a
ready_same a b = ground arith

last_criteria-IsTurned :
    (a b : RankedPod) (x y : Option ℕ)
    → (not (same_time (created a) (created b)) ≡ true
        → after_or_zero x y ≡ true
        → after_or_zero y x ≡ false)
    → IsTurned (last_criteria a b x y) (last_criteria b a y x)
last_criteria-IsTurned a b x y h = (
  ap not (==_sym (regular a) (regular b)),
  λ _. ltb-turned (regular b) (regular a),
  (
    ap not (==_sym (sidecar a) (sidecar b)),
    λ _. ltb-turned (sidecar b) (sidecar a),
    (ap not (same_time_sym (created a) (created b)), h, tt),
  ),
)

since_same : (a b : RankedPod) → since_differs a b ≡ since_differs b a
since_same a b = ground (arith, same_time_sym (pod_ready_time a.pod) (pod_ready_time b.pod))

since_implies :
    (a b : RankedPod)
    → since_differs a b ≡ true
    → not (same_time (pod_ready_time a.pod) (pod_ready_time b.pod)) ≡ true
since_implies a b e = ground (arith, e)

same_phase_sym : (p q : Phase) → same_phase p q ≡ same_phase q p
same_phase_sym p q = ground arith

not_sym : (x y : Bool) → x ≡ y → not x ≡ not y
not_sym x y e = ap not e

active_criteria-IsTurned : (a b : RankedPod) → IsTurned (active_criteria a b) (active_criteria b a)
active_criteria-IsTurned a b =
    let s = pod_ready_time a.pod in
    let t = pod_ready_time b.pod in
    (
      first_same a b,
      λ d. flip_not (is_unassigned a) (is_unassigned b) (names_turned a.node_name b.node_name d),
      (
        ap not (==_sym (pod_phase_to_ordinal a.pod.phase) (pod_phase_to_ordinal b.pod.phase)),
        λ _. ltb-turned (pod_phase_to_ordinal a.pod.phase) (pod_phase_to_ordinal b.pod.phase),
        (
          ready_same a b,
          ready_turned (is_ready a) (is_ready b),
          (
            since_same a b,
            λ d. after_or_zero-turned s t (since_implies a b d),
            last_criteria-IsTurned a b (created a) (created b)
                (after_or_zero-turned (created a) (created b)),
          ),
        ),
      ),
    )
  where
    ready_turned :
        (r s : Bool) → not (r && s || not r && not s) ≡ true → not r ≡ true → not s ≡ false
    ready_turned r s d h = ground (arith, d, h)

logging_criteria-IsTurned :
    (a b : RankedPod) → IsTurned (logging_criteria a b) (logging_criteria b a)
logging_criteria-IsTurned a b =
    let s = pod_ready_time a.pod in
    let t = pod_ready_time b.pod in
    (
      first_same a b,
      λ d.
          assigned_turned (is_unassigned a) (is_unassigned b)
            (names_turned a.node_name b.node_name d),
      (
        ap not (same_phase_sym a.pod.phase b.pod.phase),
        λ _. ltb-turned (pod_phase_to_ordinal b.pod.phase) (pod_phase_to_ordinal a.pod.phase),
        (
          ready_same a b,
          ready_turned (is_ready a) (is_ready b),
          (
            since_same a b,
            λ d. after_or_zero-turned t s (other s t (since_implies a b d)),
            last_criteria-IsTurned a b (created b) (created a) (λ d.
                after_or_zero-turned (created b) (created a) (other (created a) (created b) d)),
          ),
        ),
      ),
    )
  where
    other : (s t : Option ℕ) → not (same_time s t) ≡ true → not (same_time t s) ≡ true
    other s t d = ap not (same_time_sym t s) ∙ d

    assigned_turned : (r s : Bool) → s ≡ not r → not r ≡ true → not s ≡ false
    assigned_turned r s d h = ground (arith, d, h)

    ready_turned : (r s : Bool) → not (r && s || not r && not s) ≡ true → r ≡ true → s ≡ false
    ready_turned r s d h = ground (arith, d, h)

active_less-turned : (a b : RankedPod) → active_less a b ≡ true → active_less b a ≡ false
active_less-turned a b h =
    active_less-lex b a
    ∙ lex-turned (active_criteria a b) (active_criteria b a) (active_criteria-IsTurned a b)
        (sym (active_less-lex a b) ∙ h)

by_logging_less-turned :
    (a b : RankedPod) → by_logging_less a b ≡ true → by_logging_less b a ≡ false
by_logging_less-turned a b h =
    by_logging_less-lex b a
    ∙ lex-turned (logging_criteria a b) (logging_criteria b a) (logging_criteria-IsTurned a b)
        (sym (by_logging_less-lex a b) ∙ h)

not_both : (x y : Bool) → (x ≡ true → y ≡ false) → x && y ≡ false
not_both true y h = h refl
not_both false y h = refl

-- The orders ActivePods and ByLogging are strict: no two pods come before each other, so that in
-- particular none comes before itself.
pub active_less-by_logging_less-strict :
    (a b : RankedPod)
    → (active_less a b && active_less b a ≡ false)
      × (by_logging_less a b && by_logging_less b a ≡ false)
active_less-by_logging_less-strict a b = (
  not_both (active_less a b) (active_less b a) (active_less-turned a b),
  not_both (by_logging_less a b) (by_logging_less b a) (by_logging_less-turned a b),
)
