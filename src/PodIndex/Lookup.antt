-- ===== src/PodIndex/Lookup.antt =====
-- FilterPodsByOwner over an index that holds what it should: the keys tell owners apart.
use xstatefulset.Base.{
  ℕ, ◌≡◌, ◌↔◌, refl, sym, subst, ◌⊎◌, inl, inr, Bool, true, false, Option, none, some, List, [],
  ◌∷◌, ◌++◌, Text, arith, any, ◌==◌, In, append-In, In-append_left, In-append_right, if◌then◌else◌,
  ◌||◌,
}
use xstatefulset.Api.{Result, ok, ObjectMeta, OwnerReference, Pod}
use xstatefulset.PodIndex.{
  pod_controller_index_key, pod_index_keys, owner_key_ref, look_up, filter_pods_by_owner, is_empty,
}

abbrev is_slash : ℕ → Bool
is_slash x = x == b'/'

-- A text without a slash, as names, namespaces and kinds of the API are.
abbrev pub IsPlain : Text → Type 0
IsPlain t = any is_slash t ≡ false

split-plain :
    (a b x y : Text) → IsPlain a → IsPlain b → a ++ (b'/' ∷ x) ≡ b ++ (b'/' ∷ y) → (a ≡ b) × (x ≡ y)
split-plain [] [] x y p q e = (refl, cc)
split-plain [] (c ∷ b) x y p q e = absurd (ground (arith, e, q))
split-plain (c ∷ a) [] x y p q e = absurd (ground (arith, e, p))
split-plain (c ∷ a) (d ∷ b) x y p q e =
    let (l, r) = split-plain a b x y (ground (arith, p)) (ground (arith, q)) (ground (arith, e)) in
    (ground (arith, e, l), r)

plain-no_slash : (a b x : Text) → IsPlain a → a ≡ b ++ (b'/' ∷ x) → ⊥
plain-no_slash [] [] x p e = cc
plain-no_slash [] (c ∷ b) x p e = cc
plain-no_slash (c ∷ a) [] x p e = ground (arith, e, p)
plain-no_slash (c ∷ a) (d ∷ b) x p e = plain-no_slash a b x (ground (arith, p)) (ground (arith, e))

-- The kind and the name of a controller have no slash.
abbrev pub IsPlainRef : Option OwnerReference → Type 0
IsPlainRef none = Unit {0}
IsPlainRef (some ref) = IsPlain ref.kind × IsPlain ref.name

-- The same kind, name and UID, or no controller for both.
abbrev pub IsSameOwner : Option OwnerReference → Option OwnerReference → Type 0
IsSameOwner none none = Unit {0}
IsSameOwner (some a) (some b) = (a.kind ≡ b.kind) × (a.name ≡ b.name) × (a.uid ≡ b.uid)
IsSameOwner _ _ = ⊥

-- Where namespaces, kinds and names have no slash, two index keys are equal exactly for the same
-- namespace and the same owner, or no owner for both.
pub pod_controller_index_key_iff :
    (m n : Text) (a b : Option OwnerReference)
    → IsPlain m
    → IsPlain n
    → IsPlainRef a
    → IsPlainRef b
    → (pod_controller_index_key m a ≡ pod_controller_index_key n b) ↔ (m ≡ n) × IsSameOwner a b
unfolding pod_controller_index_key
pod_controller_index_key_iff m n none none p q r s = (λ e. (e, tt), λ e. e.0)
pod_controller_index_key_iff m n none (some b) p q r s =
    (λ e. absurd (plain-no_slash m n _ p e), λ e. absurd e.1)
pod_controller_index_key_iff m n (some a) none p q r s =
    (λ e. absurd (plain-no_slash n m _ q (sym e)), λ e. absurd e.1)
pod_controller_index_key_iff m n (some a) (some b) p q r s = (
  λ e.
      let (spaces, rest) = split-plain m n _ _ p q e in
      let (kinds, rest2) = split-plain a.kind b.kind _ _ r.0 s.0 rest in
      let (names, uids) = split-plain a.name b.name _ _ r.1 s.1 rest2 in
      (spaces, (kinds, names, uids)),
  λ (spaces, (kinds, names, uids)). rw (spaces, kinds, names, uids) refl,
)

module _ (get_controller_of : ObjectMeta → Option OwnerReference)
    (by_index : Text → Result (List Pod)) (store : List Pod) where
  -- The index gives, for a key, the pods of the store that have this key.
  pub record IsIndex : Type 0 where
    pub found : Text → List Pod
    pub looks_up : (key : Text) → by_index key ≡ ok (found key)
    pub exact :
        (key : Text) (pod : Pod)
        → In pod (found key) ↔ In pod store × In key (pod_index_keys get_controller_of pod)

  abbrev owner_of : Pod → Option OwnerReference
  owner_of pod = get_controller_of pod.meta

  -- No name in the store has a slash.
  abbrev pub IsPlainStore : Type 0
  IsPlainStore = (pod : Pod) → In pod store → IsPlain pod.meta.namespace × IsPlainRef (owner_of pod)

  among :
      (found : Text → List Pod) (key : Text) (keys : List Text) (more : List Pod) (pod : Pod)
      → ((key : Text) × In key keys × In pod (found key) → In pod more)
      → (other : Text) → In other (key ∷ keys)
      → In pod (found other)
      → In pod (found key ++ more)
  among found key keys more pod exact other (In.here e) j =
      In-append_left pod (found key) more (subst (λ (a : Text). In pod (found a)) e j)
  among found key keys more pod exact other (In.there i) j =
      In-append_right pod (found key) more (exact (other, i, j))

  look_up_all :
      (index : IsIndex) (keys : List Text)
      → (pods : List Pod) × (look_up by_index keys ≡ ok pods)
        × ((pod : Pod) → In pod pods ↔ (key : Text) × In key keys × In pod (index.found key))
  unfolding look_up
  look_up_all index [] = ([], refl, λ pod. (λ i. elim i [ ], λ (key, i, j). elim i [ ]))
  look_up_all index (key ∷ keys) =
      let (more, e, exact) = look_up_all index keys in
      (
        index.found key ++ more,
        rw (index.looks_up key, e, look_up) refl,
        λ pod. (
          λ i. elim (append-In pod (index.found key) more i) [
            | inl j ↦ (key, In.here refl, j)
            | inr j ↦ (let (other, l, r) = (exact pod).0 j in (other, In.there l, r))
          ],
          λ (other, i, j). among index.found key keys more pod (exact pod).1 other i j,
        ),
      )

  single_mem : (a b : Text) → In a (b ∷ []) → a ≡ b
  single_mem a b (In.here e) = e
  single_mem a b (In.there i) = elim i [ ]

  -- The pods that FilterPodsByOwner is to give: those of the owner in its namespace and, if they are
  -- asked for, those without a controller.
  abbrev pub IsWanted : ObjectMeta → Text → Bool → Pod → Type 0
  IsWanted owner kind include_orphaned pod =
      In pod store
      × (pod.meta.namespace ≡ owner.namespace)
      × (IsSameOwner (owner_of pod) (some (owner_key_ref owner kind))
          ⊎ ((include_orphaned ≡ true) × IsSameOwner (owner_of pod) none))

  abbrev wanted_keys : ObjectMeta → Text → Bool → List Text
  wanted_keys owner kind include_orphaned =
      pod_controller_index_key owner.namespace (some (owner_key_ref owner kind))
      ∷ (if include_orphaned then pod_controller_index_key owner.namespace none ∷ [] else [])

  module _ (index : IsIndex) (pod : Pod) (plain : IsPlainStore) where
    keyed :
        (namespace : Text) (ref : Option OwnerReference)
        → IsPlain namespace
        → IsPlainRef ref
        → In pod (index.found (pod_controller_index_key namespace ref))
          ↔ In pod store × (pod.meta.namespace ≡ namespace) × IsSameOwner (owner_of pod) ref
    unfolding pod_index_keys
    keyed namespace ref p r = (
      λ i.
          let (stored, k) = (index.exact _ pod).0 i in
          let (q, s) = plain pod stored in
          let same =
            pod_controller_index_key_iff pod.meta.namespace namespace (owner_of pod) ref q p s r in
          (let (spaces, owners) = same.0 (sym (single_mem _ _ k)) in (stored, spaces, owners)),
      λ (stored, spaces, owners).
          let (q, s) = plain pod stored in
          let e =
            (pod_controller_index_key_iff pod.meta.namespace namespace (owner_of pod) ref q p s r).1
              (spaces, owners) in
          (index.exact _ pod).1 (stored, In.here (sym e)),
    )

    module _ (owner : ObjectMeta) (kind : Text) (p : IsPlain owner.namespace)
        (q : IsPlain owner.name) (r : IsPlain kind) where
      owner_keyed :
          In pod (
            index.found
              (pod_controller_index_key owner.namespace (some (owner_key_ref owner kind))))
          ↔ In pod store
            × (pod.meta.namespace ≡ owner.namespace)
            × IsSameOwner (owner_of pod) (some (owner_key_ref owner kind))
      owner_keyed = keyed owner.namespace (some (owner_key_ref owner kind)) p (r, q)

      orphan_keyed :
          In pod (index.found (pod_controller_index_key owner.namespace none))
          ↔ In pod store × (pod.meta.namespace ≡ owner.namespace) × IsSameOwner (owner_of pod) none
      orphan_keyed = keyed owner.namespace none p tt

      is_wanted :
          (include_orphaned : Bool) (key : Text)
          → In key (wanted_keys owner kind include_orphaned)
          → In pod (index.found key)
          → IsWanted owner kind include_orphaned pod
      is_wanted b key (In.here e) i =
          let (stored, spaces, same) =
            owner_keyed.0 (subst (λ (a : Text). In pod (index.found a)) e i) in
          (stored, spaces, inl same)
      is_wanted true key (In.there j) i =
          let (stored, spaces, same) =
            orphan_keyed.0 (subst (λ (a : Text). In pod (index.found a)) (single_mem _ _ j) i) in
          (stored, spaces, inr (refl, same))
      is_wanted false key (In.there j) i = elim j [ ]

      wanted_key :
          (include_orphaned : Bool)
          → IsWanted owner kind include_orphaned pod
          → (key : Text) × In key (wanted_keys owner kind include_orphaned)
            × In pod (index.found key)
      wanted_key b (stored, spaces, inl same) =
          (_, In.here refl, owner_keyed.1 (stored, spaces, same))
      wanted_key true (stored, spaces, inr (e, same)) =
          (_, In.there (In.here refl), orphan_keyed.1 (stored, spaces, same))
      wanted_key false (stored, spaces, inr (e, same)) = absurd (cc)

  -- Over an index that gives the pods of a store by their keys, where no namespace, kind or name has
  -- a slash, FilterPodsByOwner gives no error for an owner with a namespace, a name and a UID and a
  -- kind, and its pods are exactly those of the store that stand in the namespace and have the
  -- owner, by kind, name and UID, or, if orphans are included, no controller.
  pub filter_pods_by_owner-exact :
      (index : IsIndex) (owner : ObjectMeta) (kind : Text) (include_orphaned : Bool)
      → IsPlainStore
      → IsPlain owner.namespace
      → IsPlain owner.name
      → IsPlain kind
      → is_empty owner.namespace || is_empty owner.name || is_empty owner.uid || is_empty kind
        ≡ false
      → (pods : List Pod) × (filter_pods_by_owner by_index owner kind include_orphaned ≡ ok pods)
        × ((pod : Pod) → In pod pods ↔ IsWanted owner kind include_orphaned pod)
  unfolding filter_pods_by_owner
  filter_pods_by_owner-exact index owner kind include_orphaned plain p q r filled =
      let (pods, e, exact) = look_up_all index (wanted_keys owner kind include_orphaned) in
      (
        pods,
        ground (arith, filled, e),
        λ pod. (
          λ i.
              let (key, j, k) = (exact pod).0 i in
              is_wanted index pod plain owner kind p q r include_orphaned key j k,
          λ w. (exact pod).1 (wanted_key index pod plain owner kind p q r include_orphaned w),
        ),
      )
