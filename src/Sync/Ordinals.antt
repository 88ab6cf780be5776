-- ===== src/Sync/Ordinals.antt =====
-- The replicas that updateStatefulSet works on: one pod for each ordinal of the range, in order.
use xstatefulset.Base.{
  ℕ, zero, suc, ◌+◌, ◌≡◌, ◌≤◌, ◌<◌, refl, sym, ap, subst, ◌∙◌, inl, inr, Bool, true, false, Option,
  none, some, Option-cases, List, [], ◌∷◌, Text, any, ℤ, pos, set, length, get_elem?, arith,
}
use xstatefulset.Api.{Result, Result-cases, ok, err, Pod, XStatefulSet, ControllerRevision}
use xstatefulset.PodUtil.{set_pod_revision}
use xstatefulset.Identity.Decimal.{int32_limit}
use xstatefulset.Identity.Names.{
  is_newline, get_ordinal, get_parent_name_and_ordinal, get_pod_name, get_start_ordinal,
  init_identity, update_identity,
}
use xstatefulset.Identity.RoundTrip.{get_parent_name_and_ordinal-get_pod_name}
use xstatefulset.Claims.Storage.{
  ClaimMap, new_stateful_set_pod, new_versioned_stateful_set_pod, update_storage, wants_current,
  get_pod_from_template,
}
use xstatefulset.Sync.Partition.{partition_pods, fill}
use xstatefulset.Sync.Places.{some_inj, IsPlaced, partition_pods-IsPlaced}
use xstatefulset.Sync.Config.{Config}
use xstatefulset.Sync.Update.{Plan, make_plan}

ordinal_of_name :
    (s : XStatefulSet) (pod : Pod) (n : ℕ)
    → any is_newline s.meta.name ≡ false
    → n < int32_limit
    → pod.meta.name ≡ get_pod_name s (pos n)
    → get_ordinal pod ≡ pos n
unfolding get_ordinal
ordinal_of_name s pod n single small named =
    ap (λ (r : Text × ℤ). r.1) (get_parent_name_and_ordinal-get_pod_name s pod n single small named)

init_identity-ordinal :
    (s : XStatefulSet) (pod : Pod) (n : ℕ)
    → any is_newline s.meta.name ≡ false
    → n < int32_limit
    → pod.meta.name ≡ get_pod_name s (pos n)
    → get_ordinal (init_identity s pod) ≡ pos n
unfolding init_identity update_identity
init_identity-ordinal s pod n single small named =
    ordinal_of_name s (init_identity s pod) n single small
      (ap (get_pod_name s) (ordinal_of_name s pod n single small named))

module _ (range : ClaimMap → ClaimMap) where
  new_stateful_set_pod-ordinal :
      (s : XStatefulSet) (n : ℕ) (revision : Text)
      → any is_newline s.meta.name ≡ false
      → n < int32_limit
      → get_ordinal (set_pod_revision (new_stateful_set_pod range s n) revision) ≡ pos n
  unfolding new_stateful_set_pod update_storage set_pod_revision get_ordinal
      get_parent_name_and_ordinal
  new_stateful_set_pod-ordinal s n revision single small =
      let pod = get_pod_from_template s in
      init_identity-ordinal s
        (record pod { meta = record pod.meta { name = get_pod_name s (pos n) } }) n single small
        refl

  module _ (current_set update_set : XStatefulSet) (current_revision update_revision : Text) where
    new_versioned-ordinal :
        (n : ℕ) (pod : Pod)
        → any is_newline current_set.meta.name ≡ false
        → any is_newline update_set.meta.name ≡ false
        → n < int32_limit
        → new_versioned_stateful_set_pod range current_set update_set current_revision
            update_revision n
          ≡ some pod
        → get_ordinal pod ≡ pos n
    unfolding new_versioned_stateful_set_pod
    new_versioned-ordinal n pod one two small e = by_choice (wants_current current_set n) e
      where
        by_choice :
            (o : Option Bool)
            → (elim o [
              | none ↦ none
              | some true ↦
                  some
                    (set_pod_revision (new_stateful_set_pod range current_set n) current_revision)
              | some false ↦
                  some (set_pod_revision (new_stateful_set_pod range update_set n) update_revision)
            ])
              ≡ some pod
            → get_ordinal pod ≡ pos n
        by_choice none x = absurd (cc)
        by_choice (some true) x =
            ap get_ordinal (some_inj (sym x))
            ∙ new_stateful_set_pod-ordinal current_set n current_revision one small
        by_choice (some false) x =
            ap get_ordinal (some_inj (sym x))
            ∙ new_stateful_set_pod-ordinal update_set n update_revision two small

-- The pods have the ordinals from `start` on.
abbrev pub InOrder : ℕ → List Pod → Type 0
InOrder start pods =
    (i : ℕ) (pod : Pod) → get_elem? pods i ≡ some pod → get_ordinal pod ≡ pos (start + i)

cons-InOrder :
    (start : ℕ) (pod : Pod) (pods : List Pod)
    → get_ordinal pod ≡ pos start
    → InOrder (suc start) pods
    → InOrder start (pod ∷ pods)
cons-InOrder start pod pods h k zero other e =
    ap get_ordinal (some_inj (sym e)) ∙ h ∙ ap pos (omega arith)
cons-InOrder start pod pods h k (suc i) other e = k i other e ∙ ap pos (omega arith)

tail-IsPlaced :
    (start : ℕ) (slot : Option Pod) (slots : List (Option Pod))
    → IsPlaced start (slot ∷ slots)
    → IsPlaced (suc start) slots
tail-IsPlaced start slot slots h i pod e = h (suc i) pod e ∙ ap pos (omega arith)

ok_inj : {a b : List Pod} → ok a ≡ ok b → a ≡ b
ok_inj x = cc

module _ (range : ClaimMap → ClaimMap) (current_set update_set : XStatefulSet) where
  module _ (current_revision update_revision : Text) where
    module _ (one : any is_newline current_set.meta.name ≡ false)
        (two : any is_newline update_set.meta.name ≡ false) where
      abbrev filled : ℕ → List (Option Pod) → Result (List Pod)
      filled = fill range current_set update_set current_revision update_revision

      abbrev Filled : ℕ → List (Option Pod) → List Pod → Type 0
      Filled start slots pods = InOrder start pods × (length pods ≡ length slots)

      -- Behind a pod with the first ordinal, the rest of the slots.
      with_head :
          (start : ℕ) (pod : Pod) (slot : Option Pod) (slots : List (Option Pod)) (pods : List Pod)
          → get_ordinal pod ≡ pos start
          → ((rest : List Pod) → filled (suc start) slots ≡ ok rest → Filled (suc start) slots rest)
          → (elim (filled (suc start) slots) [ err e ↦ err e | ok rest ↦ ok (pod ∷ rest) ])
            ≡ ok pods
          → Filled start (slot ∷ slots) pods
      with_head start pod slot slots pods h tail e = by_rest (filled (suc start) slots) tail e
        where
          by_rest :
              (r : Result (List Pod))
              → ((rest : List Pod) → r ≡ ok rest → Filled (suc start) slots rest)
              → (elim r [ err e ↦ err e | ok rest ↦ ok (pod ∷ rest) ]) ≡ ok pods
              → Filled start (slot ∷ slots) pods
          by_rest (err x) tail e = absurd (cc)
          by_rest (ok rest) tail e =
              let (order, same) = tail rest refl in
              subst (Filled start (slot ∷ slots)) (ok_inj e)
                (cons-InOrder start pod rest h order, ap suc same)

      pub fill-InOrder :
          (slots : List (Option Pod)) (start : ℕ) (pods : List Pod)
          → IsPlaced start slots
          → start + length slots ≤ int32_limit
          → filled start slots ≡ ok pods
          → Filled start slots pods
      unfolding fill
      fill-InOrder [] start pods h small e =
          subst (Filled start []) (ok_inj e) ((λ i pod x. absurd (cc)), refl)
      fill-InOrder (some pod ∷ slots) start pods h small e =
          with_head start pod (some pod) slots pods (h 0 pod refl ∙ ap pos (omega arith))
            (λ rest x.
              fill-InOrder slots (suc start) rest (tail-IsPlaced start (some pod) slots h)
                (omega arith) x)
            e
      fill-InOrder (none ∷ slots) start pods h small e =
          elim (Option-cases (
            new_versioned_stateful_set_pod range current_set update_set current_revision
              update_revision start)) [
                | inl x ↦ absurd (ground (arith, e, x))
                | inr (pod, x) ↦
                    with_head start pod none slots pods
                      (new_versioned-ordinal range current_set update_set current_revision
                        update_revision start pod one two (omega arith) x)
                      (λ rest y.
                        fill-InOrder slots (suc start) rest (tail-IsPlaced start none slots h)
                          (omega arith) y)
                      (ground (arith, e, x))
              ]

-- Where the patches of both revisions keep the set's name, which holds no line break, and the last
-- ordinal is below 2^31, each plan that updateStatefulSet makes works on exactly as many replicas as the set wants, and
-- the i-th of them has the i-th ordinal from the first one on.
pub make_plan-InOrder :
    {W : Type 0} (c : Config W) (set : XStatefulSet) (current update : ControllerRevision)
    (pods : List Pod) (plan : Plan)
    → any is_newline set.meta.name ≡ false
    → ((r : ControllerRevision) (s : XStatefulSet)
        → c.apply_revision set r ≡ ok s
        → s.meta.name ≡ set.meta.name)
    → get_start_ordinal set + set.spec.replicas ≤ int32_limit
    → make_plan c set current update pods ≡ ok plan
    → InOrder (get_start_ordinal set) plan.replicas × (length plan.replicas ≡ set.spec.replicas)
unfolding make_plan
make_plan-InOrder c set current update pods plan single keeps small e =
    let (placed, same) = partition_pods-IsPlaced set pods in
    let slots = (partition_pods set pods).slots in
    elim (Result-cases (c.apply_revision set current)) [
      | inr (x, q) ↦ absurd (ground (arith, e, q))
      | inl (cs, q) ↦ elim (Result-cases (c.apply_revision set update)) [
        | inr (x, r) ↦ absurd (ground (arith, e, q, r))
        | inl (us, r) ↦
            elim (Result-cases (
              fill c.platform.range cs us current.meta.name update.meta.name (get_start_ordinal set)
                slots)) [
                  | inr (x, z) ↦ absurd (ground (arith, e, q, r, z))
                  | inl (replicas, z) ↦
                      let (order, count) =
                        fill-InOrder c.platform.range cs us current.meta.name update.meta.name
                          (ap (any is_newline) (keeps current cs q) ∙ single)
                          (ap (any is_newline) (keeps update us r) ∙ single) slots
                          (get_start_ordinal set) replicas placed (omega (arith, same)) z in
                      let found : replicas ≡ plan.replicas = ground (arith, e, q, r, z) in
                      subst
                        (λ ps. InOrder (get_start_ordinal set) ps × (length ps ≡ set.spec.replicas))
                        found (order, count ∙ same)
                ]
      ]
    ]
