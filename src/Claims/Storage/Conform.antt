-- ===== src/Claims/Storage/Conform.antt =====
-- updateStorage makes a pod's volumes conform to the claims of the set's templates.
use xstatefulset.Base.{
  ◌≡◌, ◌⊎◌, inl, inr, refl, ap, Bool, true, none, some, List, [], ◌∷◌, map, Text, text_eq,
  text_eq_iff, text_eq_refl, keep, lookup, insert, lookup-insert, In, All, arith, Bool-cases,
}
use xstatefulset.Api.{Volume, PersistentVolumeClaim}
use xstatefulset.Claims.Storage.{ClaimMap, VolumeMap, volumes_by_name, volume_covers}

module _ {ℓ} {A : Type ℓ} where
  pub All-of_In {κ} : (P : A → Type κ) (xs : List A) → ((x : A) → In x xs → P x) → All P xs
  All-of_In P [] h = tt
  All-of_In P (x ∷ xs) h = (h x (In.here refl), All-of_In P xs (λ y m. h y (In.there m)))

  pub All-keep_test : (p : A → Bool) (xs : List A) → All (λ x. p x ≡ true) (keep p xs)
  All-keep_test p [] = tt
  All-keep_test p (x ∷ xs) = elim (Bool-cases (p x)) [
    | inl e ↦ rw e (e, All-keep_test p xs)
    | inr e ↦ rw e (All-keep_test p xs)
  ]

  pub In-map {κ} : {B : Type κ} (f : A → B) (x : A) (xs : List A) → In x xs → In (f x) (map f xs)
  In-map f x [] m = elim m [ ]
  In-map f x (y ∷ xs) (In.here e) = In.here (ap f e)
  In-map f x (y ∷ xs) (In.there m) = In.there (In-map f x xs m)

  pub All-of_map {κ μ} :
      {B : Type κ} (P : B → Type μ) (f : A → B) (xs : List A)
      → All (λ x. P (f x)) xs
      → All P (map f xs)
  All-of_map P f [] h = tt
  All-of_map P f (x ∷ xs) h = (h.0, All-of_map P f xs h.1)

-- Every volume of the list that has the key names the claim.
abbrev pub Names : Text → Text → Volume → Type 0
Names key claim v = text_eq v.name key ≡ true → v.claim_name ≡ some claim

pub volume_covers-volumes_by_name :
    (key claim : Text) (volumes : VolumeMap) (vs : List Volume)
    → All (Names key claim) vs
    → (volume_covers (lookup key volumes) claim ≡ true)
      ⊎ ((v : Volume) × In v vs × (text_eq v.name key ≡ true))
    → volume_covers (lookup key (volumes_by_name volumes vs)) claim ≡ true
unfolding volumes_by_name
volume_covers-volumes_by_name key claim volumes [] h (inl e) = e
volume_covers-volumes_by_name key claim volumes [] h (inr (v, m, e)) = elim m [ ]
volume_covers-volumes_by_name key claim volumes (v ∷ vs) h known =
    volume_covers-volumes_by_name key claim (insert v.name v volumes) vs h.1 (next known)
  where
    next :
        (volume_covers (lookup key volumes) claim ≡ true)
          ⊎ ((w : Volume) × In w (v ∷ vs) × (text_eq w.name key ≡ true))
        → (volume_covers (lookup key (insert v.name v volumes)) claim ≡ true)
          ⊎ ((w : Volume) × In w vs × (text_eq w.name key ≡ true))
    next (inl e) = inl (ground (arith, lookup-insert v.name key v volumes, h.0, text_eq_refl claim))
    next (inr (w, In.here q, e)) =
        inl (ground (arith, lookup-insert v.name key v volumes, h.0, text_eq_refl claim))
    next (inr (w, In.there m, e)) = inr (w, m, e)

abbrev pub HasKey : Text → ClaimMap → Type 0
HasKey key m = (c : PersistentVolumeClaim) × In (key, c) m

pub insert-HasKey :
    (key : Text) (c : PersistentVolumeClaim) (m : ClaimMap) → HasKey key (insert key c m)
unfolding insert
insert-HasKey key c [] = (c, In.here refl)
insert-HasKey key c ((j, d) ∷ m) = elim (Bool-cases (text_eq j key)) [
  | inl e ↦ rw e (c, In.here refl)
  | inr e ↦ rw e (let (found, at) = insert-HasKey key c m in (found, In.there at))
]

pub insert-keeps_HasKey :
    (key other : Text) (c : PersistentVolumeClaim) (m : ClaimMap)
    → HasKey key m
    → HasKey key (insert other c m)
unfolding insert
insert-keeps_HasKey key other c [] (d, at) = elim at [ ]
insert-keeps_HasKey key other c ((j, e) ∷ m) (d, In.here q) = elim (Bool-cases (text_eq j other)) [
  | inl same ↦ rw same (c, In.here (ground (arith, text_eq_iff j other)))
  | inr differ ↦ rw differ (d, In.here q)
]
insert-keeps_HasKey key other c ((j, e) ∷ m) (d, In.there at) =
    elim (Bool-cases (text_eq j other)) [
      | inl same ↦ rw same (d, In.there at)
      | inr differ ↦
          rw differ
            (let (found, at') = insert-keeps_HasKey key other c m (d, at) in (found, In.there at'))
    ]

pub HasKey-lookup : (key : Text) (m : ClaimMap) → HasKey key m → lookup key m ≡ none → ⊥
unfolding lookup
HasKey-lookup key [] (c, at) h = elim at [ ]
HasKey-lookup key ((j, d) ∷ m) (c, In.here q) h = ground (arith, text_eq_iff j key)
HasKey-lookup key ((j, d) ∷ m) (c, In.there at) h = ground (arith, HasKey-lookup key m (c, at))
