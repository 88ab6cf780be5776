-- ===== src/Sync/Places.antt =====
-- The division of the pods: a filled slot holds a pod with the ordinal of the slot.
use xstatefulset.Base.{
  ℕ, zero, suc, ◌+◌, ◌-◌, ◌≡◌, refl, sym, ap, subst, ◌∙◌, ◌⊎◌, inl, inr, true, Option, none, some,
  List, [], ◌∷◌, ◌++◌, if◌then◌else◌, ℤ, pos, negsuc, leb_ℤ, pos_part, set, replicate, length,
  length-set, length-replicate, get_elem?, Bool-cases, arith,
}
use xstatefulset.Api.{Pod, XStatefulSet}
use xstatefulset.Identity.Names.{get_ordinal, get_start_ordinal, pod_in_ordinal_range}
use xstatefulset.Sync.Partition.{Division, place, place_all, partition_pods}

pub some_inj : {a b : Pod} → some a ≡ some b → a ≡ b
some_inj x = cc

get_elem?-set :
    (xs : List (Option Pod)) (i j : ℕ) (v w : Option Pod)
    → get_elem? (set xs i v) j ≡ some w
    → ((i ≡ j) × (w ≡ v)) ⊎ (get_elem? xs j ≡ some w)
get_elem?-set [] i j v w e = inr e
get_elem?-set (x ∷ xs) zero zero v w e = inl (refl, cc)
get_elem?-set (x ∷ xs) zero (suc j) v w e = inr e
get_elem?-set (x ∷ xs) (suc i) zero v w e = inr e
get_elem?-set (x ∷ xs) (suc i) (suc j) v w e = elim (get_elem?-set xs i j v w e) [
  | inl (p, q) ↦ inl (ap suc p, q)
  | inr h ↦ inr h
]

get_elem?-replicate :
    (n i : ℕ) (pod : Pod) → get_elem? (replicate {A = Option Pod} n none) i ≡ some (some pod) → ⊥
get_elem?-replicate zero i pod e = cc
get_elem?-replicate (suc n) zero pod e = cc
get_elem?-replicate (suc n) (suc i) pod e = get_elem?-replicate n i pod e

-- Every filled slot holds a pod with the ordinal of the slot, from `start` on.
abbrev pub IsPlaced : ℕ → List (Option Pod) → Type 0
IsPlaced start slots =
    (i : ℕ) (pod : Pod) → get_elem? slots i ≡ some (some pod) → get_ordinal pod ≡ pos (start + i)

module _ (s : XStatefulSet) where
  -- A pod of the range has an ordinal, at least the first one.
  in_range-ordinal :
      (pod : Pod)
      → pod_in_ordinal_range pod s ≡ true
      → get_ordinal pod
        ≡ pos (get_start_ordinal s + (pos_part (get_ordinal pod) - get_start_ordinal s))
  unfolding pod_in_ordinal_range
  in_range-ordinal pod h = ordinal (get_ordinal pod) (ground (arith, h))
    where
      ordinal :
          (o : ℤ)
          → leb_ℤ (pos (get_start_ordinal s)) o ≡ true
          → o ≡ pos (get_start_ordinal s + (pos_part o - get_start_ordinal s))
      ordinal (pos n) e = ap pos (ground arith)
      ordinal (negsuc n) e = absurd (ground arith)

  place-IsPlaced :
      (pod : Pod) (d : Division)
      → IsPlaced (get_start_ordinal s) d.slots
      → IsPlaced (get_start_ordinal s) (place s pod d).slots
  unfolding place
  place-IsPlaced pod d h i other e = elim (Bool-cases (pod_in_ordinal_range pod s)) [
    | inl r ↦
        elim (get_elem?-set d.slots (pos_part (get_ordinal pod) - get_start_ordinal s) i (some pod)
          (some other)
          (subst
            (λ b.
              get_elem?
                (if b
                  then record d {
                    slots =
                        set d.slots (pos_part (get_ordinal pod) - get_start_ordinal s) (some pod);
                  }
                  else (if leb_ℤ (pos 0) (get_ordinal pod)
                      then record d { condemned = d.condemned ++ (pod ∷ []) }
                      else d)).slots
                i
              ≡ some (some other))
            r e)) [
              | inl (p, q) ↦ rw⁻¹ p (
                  subst
                    (λ (x : Pod).
                      get_ordinal x
                      ≡ pos (
                          get_start_ordinal s + (pos_part (get_ordinal pod) - get_start_ordinal s)))
                    (sym (some_inj q)) (in_range-ordinal pod r))
              | inr k ↦ h i other k
            ]
    | inr r ↦ h i other (ground (arith, e, r))
  ]

  place-length : (pod : Pod) (d : Division) → length (place s pod d).slots ≡ length d.slots
  unfolding place
  place-length pod d =
      ground
        (arith, length-set d.slots (pos_part (get_ordinal pod) - get_start_ordinal s) (some pod))

  place_all-IsPlaced :
      (pods : List Pod) (d : Division)
      → IsPlaced (get_start_ordinal s) d.slots
      → IsPlaced (get_start_ordinal s) (place_all s pods d).slots
        × (length (place_all s pods d).slots ≡ length d.slots)
  unfolding place_all
  place_all-IsPlaced [] d h = (h, refl)
  place_all-IsPlaced (pod ∷ pods) d h =
      let (placed, same) = place_all-IsPlaced pods (place s pod d) (place-IsPlaced pod d h) in
      (placed, same ∙ place-length pod d)

  pub partition_pods-IsPlaced :
      (pods : List Pod)
      → IsPlaced (get_start_ordinal s) (partition_pods s pods).slots
        × (length (partition_pods s pods).slots ≡ s.spec.replicas)
  unfolding partition_pods
  partition_pods-IsPlaced pods =
      let (placed, same) =
        place_all-IsPlaced pods (record { slots = replicate s.spec.replicas none; condemned = [] })
          (λ i pod e. absurd (get_elem?-replicate s.spec.replicas i pod e)) in
      (placed, same ∙ length-replicate s.spec.replicas none)
