-- ===== src/Availability/Minimum.antt =====
-- The least of the checks, over all the pods.
use xstatefulset.Base.{
  ℕ, ◌≤◌, ◌≡◌, refl, sym, ap, ◌∙◌, ◌⊎◌, inl, inr, Option, none, some, List, [], ◌∷◌, ltb, ltb→lt,
  ltb-false→le, arith, In, Bool-cases,
}
use xstatefulset.Api.{Pod}
use xstatefulset.Availability.{
  next_pod_availability_check, better, least_check, find_min_next_pod_availability_simple_check,
}

module _ (seconds now : ℕ) where
  abbrev next : Pod → Option ℕ
  next pod = next_pod_availability_check pod seconds now

  -- The best of the pods in S: none where no check is to come, else the least one.
  abbrev pub IsLeast : (Pod → Type 0) → Option (ℕ × Pod) → Type 0
  IsLeast S none = (pod : Pod) → S pod → next pod ≡ none
  IsLeast S (some (check, first)) =
      S first
      × (next first ≡ some check)
      × ((pod : Pod) (d : ℕ) → S pod → next pod ≡ some d → check ≤ d)

  abbrev With : (Pod → Type 0) → Pod → Pod → Type 0
  With S x pod = S pod ⊎ (pod ≡ x)

  some_inj : {a b : ℕ} → some a ≡ some b → a ≡ b
  some_inj e = cc

  better-IsLeast :
      (S : Pod → Type 0) (x : Pod) (check : Option ℕ) (best : Option (ℕ × Pod))
      → next x ≡ check
      → IsLeast S best
      → IsLeast (With S x) (better check x best)
  better-IsLeast S x none none e h = λ pod i. elim i [ inl s ↦ h pod s | inr q ↦ ap next q ∙ e ]
  better-IsLeast S x none (some (least, first)) e (s, f, g) = (
    inl s,
    f,
    λ pod d i q. elim i [ inl t ↦ g pod d t q | inr y ↦ absurd (ground (arith, q, ap next y ∙ e)) ],
  )
  better-IsLeast S x (some check) none e h = (
    inr refl,
    e,
    λ pod d i q. elim i [
      | inl t ↦ absurd (ground (arith, q, h pod t))
      | inr y ↦ ground (arith, q, ap next y ∙ e)
    ],
  )
  better-IsLeast S x (some check) (some (least, first)) e (s, f, g) =
      elim (Bool-cases (ltb check least)) [
        | inl l ↦ rw l (
          inr refl,
          e,
          λ pod d i q. elim i [
            | inl t ↦ omega (arith, g pod d t q, ltb→lt check least l)
            | inr y ↦ ground (arith, q, ap next y ∙ e)
          ],
        )
        | inr l ↦ rw l (
          inl s,
          f,
          λ pod d i q. elim i [
            | inl t ↦ g pod d t q
            | inr y ↦ omega (arith, ltb-false→le check least l, some_inj (sym (ap next y ∙ e) ∙ q))
          ],
        )
      ]

  IsLeast-iff :
      (S T : Pod → Type 0) (best : Option (ℕ × Pod))
      → ((pod : Pod) → S pod → T pod)
      → ((pod : Pod) → T pod → S pod)
      → IsLeast S best
      → IsLeast T best
  IsLeast-iff S T none to from h = λ pod t. h pod (from pod t)
  IsLeast-iff S T (some (check, first)) to from (s, e, g) =
      (to first s, e, λ pod d t q. g pod d (from pod t) q)

  least_check-IsLeast :
      (pods : List Pod) (S : Pod → Type 0) (best : Option (ℕ × Pod))
      → IsLeast S best
      → IsLeast (λ pod. S pod ⊎ In pod pods) (least_check pods seconds now best)
  unfolding least_check
  least_check-IsLeast [] S best h =
      IsLeast-iff S (λ pod. S pod ⊎ In pod []) best (λ pod s. inl s)
        (λ pod i. elim i [ inl s ↦ s | inr j ↦ elim j [ ] ]) h
  least_check-IsLeast (x ∷ xs) S best h =
      IsLeast-iff (λ pod. With S x pod ⊎ In pod xs) (λ pod. S pod ⊎ In pod (x ∷ xs))
        (least_check xs seconds now (better (next x) x best))
        (λ pod i. elim i [
          | inl (inl s) ↦ inl s
          | inl (inr e) ↦ inr (In.here e)
          | inr j ↦ inr (In.there j)
        ])
        (λ pod i. elim i [ inl s ↦ inl (inl s) | inr j ↦ by_place pod j ])
        (least_check-IsLeast xs (With S x) (better (next x) x best)
          (better-IsLeast S x (next x) best refl h))
    where
      by_place : (pod : Pod) → In pod (x ∷ xs) → With S x pod ⊎ In pod xs
      by_place pod (In.here e) = inl (inr e)
      by_place pod (In.there j) = inr j

  pub find_min_next_pod_availability_simple_check-IsLeast :
      (pods : List Pod)
      → IsLeast (λ pod. In pod pods) (find_min_next_pod_availability_simple_check pods seconds now)
  unfolding find_min_next_pod_availability_simple_check
  find_min_next_pod_availability_simple_check-IsLeast pods =
      IsLeast-iff (λ pod. ⊥ ⊎ In pod pods) (λ pod. In pod pods) (least_check pods seconds now none)
        (λ pod i. elim i [ inl z ↦ absurd z | inr j ↦ j ]) (λ pod j. inr j)
        (least_check-IsLeast pods (λ _. ⊥) none (λ pod z. absurd z))
