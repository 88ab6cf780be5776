-- ===== src/Sync/Descending.antt =====
-- The condemned pods: which they are, and their order.
use xstatefulset.Base.{
  ◌≡◌, ◌↔◌, refl, sym, ap, subst, ◌∙◌, inl, inr, Bool, true, false, ◌&&◌, not, none, List, [], ◌∷◌,
  ◌++◌, ℤ, pos, leb_ℤ, replicate, All, All-map, In, Bool-cases, arith,
}
use xstatefulset.Base.{append_assoc, keep, keep-append}
use xstatefulset.Api.{Result-cases, ok, ControllerRevision, Pod, XStatefulSet}
use xstatefulset.Sync.Config.{Config}
use xstatefulset.Sync.Update.{Plan, make_plan}
use xstatefulset.Identity.Names.{get_start_ordinal, get_ordinal, pod_in_ordinal_range}
use xstatefulset.Sync.Partition.{
  fill, Division, place, place_all, partition_pods, insert_descending, sort_descending,
}

-- No ordinal is above the one in front of it.
abbrev pub IsDescending : List Pod → Type 0
IsDescending [] = Unit
IsDescending (pod ∷ pods) =
    All (λ other. leb_ℤ (get_ordinal other) (get_ordinal pod) ≡ true) pods × IsDescending pods

append_nil : (xs : List Pod) → xs ++ [] ≡ xs
append_nil [] = refl
append_nil (x ∷ xs) = ap (λ (l : List Pod). x ∷ l) (append_nil xs)

leb_trans : (a b c : ℤ) → leb_ℤ a b ≡ true → leb_ℤ b c ≡ true → leb_ℤ a c ≡ true
leb_trans a b c h k = ground (arith, h, k)

leb_total : (a b : ℤ) → leb_ℤ a b ≡ false → leb_ℤ b a ≡ true
leb_total a b h = ground (arith, h)

insert_descending-All :
    (P : Pod → Type 0) (pod : Pod) (pods : List Pod)
    → P pod
    → All P pods
    → All P (insert_descending pod pods)
unfolding insert_descending
insert_descending-All P pod [] p h = (p, tt)
insert_descending-All P pod (other ∷ pods) p h =
    elim (Bool-cases (leb_ℤ (get_ordinal other) (get_ordinal pod))) [
      | inl e ↦ rw (e, insert_descending) (p, h)
      | inr e ↦ rw (e, insert_descending) (h.0, insert_descending-All P pod pods p h.1)
    ]

insert_descending-IsDescending :
    (pod : Pod) (pods : List Pod) → IsDescending pods → IsDescending (insert_descending pod pods)
unfolding insert_descending
insert_descending-IsDescending pod [] h = (tt, tt)
insert_descending-IsDescending pod (other ∷ pods) h =
    elim (Bool-cases (leb_ℤ (get_ordinal other) (get_ordinal pod))) [
      | inl e ↦
          rw (e, insert_descending)
            (
              (
                e,
                All-map _ _ pods
                    (λ x l. leb_trans (get_ordinal x) (get_ordinal other) (get_ordinal pod) l e)
                    h.0,
              ),
              h,
            )
      | inr e ↦
          rw (e, insert_descending)
            (
              insert_descending-All _ pod pods (leb_total (get_ordinal other) (get_ordinal pod) e)
                  h.0,
              insert_descending-IsDescending pod pods h.1,
            )
    ]

sort_descending-IsDescending : (pods : List Pod) → IsDescending (sort_descending pods)
unfolding sort_descending
sort_descending-IsDescending [] = tt
sort_descending-IsDescending (pod ∷ pods) =
    insert_descending-IsDescending pod (sort_descending pods) (sort_descending-IsDescending pods)

insert_descending-In :
    (x pod : Pod) (pods : List Pod) → In x (insert_descending pod pods) ↔ In x (pod ∷ pods)
unfolding insert_descending
insert_descending-In x pod [] = (λ m. m, λ m. m)
insert_descending-In x pod (other ∷ pods) =
    elim (Bool-cases (leb_ℤ (get_ordinal other) (get_ordinal pod))) [
      | inl e ↦ rw (e, insert_descending) (λ m. m, λ m. m)
      | inr e ↦
          rw (e, insert_descending)
            (
              λ m. elim m [
                | In.here h ↦ In.there (In.here h)
                | In.there n ↦ elim ((insert_descending-In x pod pods).0 n) [
                  | In.here h ↦ In.here h
                  | In.there k ↦ In.there (In.there k)
                ]
              ],
              λ m. elim m [
                | In.here h ↦ In.there ((insert_descending-In x pod pods).1 (In.here h))
                | In.there n ↦ elim n [
                  | In.here h ↦ In.here h
                  | In.there k ↦ In.there ((insert_descending-In x pod pods).1 (In.there k))
                ]
              ],
            )
    ]

sort_descending-In : (x : Pod) (pods : List Pod) → In x (sort_descending pods) ↔ In x pods
unfolding sort_descending
sort_descending-In x [] = (λ m. m, λ m. m)
sort_descending-In x (pod ∷ pods) =
    let (to, from) = insert_descending-In x pod (sort_descending pods) in
    let (to', from') = sort_descending-In x pods in
    (
      λ m. elim (to m) [ In.here h ↦ In.here h | In.there n ↦ In.there (to' n) ],
      λ m. from (elim m [ In.here h ↦ In.here h | In.there n ↦ In.there (from' n) ]),
    )

-- The pod has an ordinal, outside the range of the set.
abbrev pub is_outside : XStatefulSet → Pod → Bool
is_outside s pod = not (pod_in_ordinal_range pod s) && leb_ℤ (pos 0) (get_ordinal pod)

module _ (s : XStatefulSet) where
  place-condemned :
      (pod : Pod) (d : Division)
      → (place s pod d).condemned ≡ d.condemned ++ keep (is_outside s) (pod ∷ [])
  unfolding place
  place-condemned pod d = ground (arith, append_nil d.condemned)

  place_all-condemned :
      (pods : List Pod) (d : Division)
      → (place_all s pods d).condemned ≡ d.condemned ++ keep (is_outside s) pods
  unfolding place_all
  place_all-condemned [] d = sym (append_nil d.condemned)
  place_all-condemned (pod ∷ pods) d =
      place_all-condemned pods (place s pod d)
      ∙ ap (λ (l : List Pod). l ++ keep (is_outside s) pods) (place-condemned pod d)
      ∙ append_assoc d.condemned (keep (is_outside s) (pod ∷ [])) (keep (is_outside s) pods)
      ∙ ap (λ (l : List Pod). d.condemned ++ l) (sym (keep-append (is_outside s) (pod ∷ []) pods))

  partition_pods-condemned :
      (pods : List Pod) → (partition_pods s pods).condemned ≡ keep (is_outside s) pods
  unfolding partition_pods
  partition_pods-condemned pods =
      place_all-condemned pods (record { slots = replicate s.spec.replicas none; condemned = [] })

-- The condemned pods of a plan that updateStatefulSet makes are the pods of the set that have an
-- ordinal outside its range, in an order in which no ordinal is above the one in front of it.
pub make_plan-IsDescending :
    {W : Type 0} (c : Config W) (set : XStatefulSet) (current update : ControllerRevision)
    (pods : List Pod) (plan : Plan)
    → make_plan c set current update pods ≡ ok plan
    → IsDescending plan.condemned
      × ((pod : Pod) → In pod plan.condemned ↔ In pod (keep (is_outside set) pods))
unfolding make_plan
make_plan-IsDescending c set current update pods plan e =
    elim (Result-cases (c.apply_revision set current)) [
      | inr (x, q) ↦ absurd (ground (arith, e, q))
      | inl (cs, q) ↦ elim (Result-cases (c.apply_revision set update)) [
        | inr (x, r) ↦ absurd (ground (arith, e, q, r))
        | inl (us, r) ↦
            elim (Result-cases (
              fill c.platform.range cs us current.meta.name update.meta.name (get_start_ordinal set)
                (partition_pods set pods).slots)) [
                  | inr (x, z) ↦ absurd (ground (arith, e, q, r, z))
                  | inl (replicas, z) ↦
                      let outside = keep (is_outside set) pods in
                      let found : sort_descending outside ≡ plan.condemned =
                        ap sort_descending (sym (partition_pods-condemned set pods))
                        ∙ ground (arith, e, q, r, z) in
                      subst (λ l. IsDescending l × ((pod : Pod) → In pod l ↔ In pod outside)) found
                        (
                          sort_descending-IsDescending outside,
                          λ pod. sort_descending-In pod outside,
                        )
                ]
      ]
    ]
