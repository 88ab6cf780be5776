-- ===== src/Claims/Storage/Matching.antt =====
-- storageMatches holds after updateStorage, whatever order the claims map is visited in.
use xstatefulset.Base.{
  leb_ℤ, ℕ, ◌≡◌, inl, inr, refl, sym, ap, subst, ◌∙◌, Bool, true, not, some, List, [], ◌∷◌, ◌++◌,
  map, Text, text_eq, text_eq_iff, text_eq_refl, keep, all, ℤ, pos, lookup, insert, In,
  In-append_left, All, All-append, All-mem, All-map, arith, Bool-cases,
}
use xstatefulset.Api.{Pod, Volume, PersistentVolumeClaim, XStatefulSet}
use xstatefulset.Identity.Names.{get_ordinal, get_persistent_volume_claim_name}
use xstatefulset.Claims.Storage.{
  ClaimMap, volumes_by_name, volume_covers, storage_matches, claim_of, claims_from,
  get_persistent_volume_claims, is_claimed, claim_volume, IsRange, update_storage,
}
use xstatefulset.Claims.Storage.Conform.{
  All-of_In, All-keep_test, In-map, All-of_map, Names, HasKey, volume_covers-volumes_by_name,
  insert-HasKey, insert-keeps_HasKey, HasKey-lookup,
}

module _ (set : XStatefulSet) (ordinal : ℤ) where
  -- An entry of the claims map holds the claim that templates of its name make for the pod.
  abbrev IsNamed : Text × PersistentVolumeClaim → Type 0
  IsNamed (key, claim) =
      (t : PersistentVolumeClaim)
      → text_eq key t.meta.name ≡ true
      → claim.meta.name ≡ get_persistent_volume_claim_name set t ordinal

  insert-All :
      (key : Text) (c : PersistentVolumeClaim) (m : ClaimMap)
      → IsNamed (key, c)
      → All IsNamed m
      → All IsNamed (insert key c m)
  unfolding insert
  insert-All key c [] h k = (h, tt)
  insert-All key c ((j, d) ∷ m) h k = elim (Bool-cases (text_eq j key)) [
    | inl e ↦ rw e (h, k.1)
    | inr e ↦ rw e (k.0, insert-All key c m h k.1)
  ]

  claim_of-IsNamed : (t : PersistentVolumeClaim) → IsNamed (t.meta.name, claim_of set ordinal t)
  unfolding claim_of get_persistent_volume_claim_name
  claim_of-IsNamed t u e = ground (arith, text_eq_iff t.meta.name u.meta.name)

  claims_from-IsNamed :
      (ts : List PersistentVolumeClaim) (claims : ClaimMap)
      → All IsNamed claims
      → All IsNamed (claims_from set ordinal ts claims)
  unfolding claims_from
  claims_from-IsNamed [] claims h = h
  claims_from-IsNamed (t ∷ ts) claims h =
      claims_from-IsNamed ts _
        (insert-All t.meta.name (claim_of set ordinal t) claims (claim_of-IsNamed t) h)

  claims_from-keeps :
      (key : Text) (ts : List PersistentVolumeClaim) (claims : ClaimMap)
      → HasKey key claims
      → HasKey key (claims_from set ordinal ts claims)
  unfolding claims_from
  claims_from-keeps key [] claims h = h
  claims_from-keeps key (t ∷ ts) claims h =
      claims_from-keeps key ts _ (insert-keeps_HasKey key t.meta.name _ claims h)

  claims_from-HasKey :
      (t : PersistentVolumeClaim) (ts : List PersistentVolumeClaim) (claims : ClaimMap)
      → In t ts
      → HasKey t.meta.name (claims_from set ordinal ts claims)
  unfolding claims_from
  claims_from-HasKey t [] claims m = elim m [ ]
  claims_from-HasKey t (u ∷ ts) claims (In.here e) = claims_from-keeps t.meta.name ts _ (
      subst
        (λ (w : PersistentVolumeClaim).
          HasKey t.meta.name (insert w.meta.name (claim_of set ordinal w) claims))
        e (insert-HasKey t.meta.name _ claims))
  claims_from-HasKey t (u ∷ ts) claims (In.there m) = claims_from-HasKey t ts _ m

all-of_In :
    (p : PersistentVolumeClaim → Bool) (ts : List PersistentVolumeClaim)
    → ((t : PersistentVolumeClaim) → In t ts → p t ≡ true)
    → all p ts ≡ true
all-of_In p [] h = refl
all-of_In p (t ∷ ts) h =
    ground (arith, h t (In.here refl), all-of_In p ts (λ u m. h u (In.there m)))

module _ (range : ClaimMap → ClaimMap) (law : IsRange range) (set : XStatefulSet) (ordinal : ℤ)
    (old : List Volume) where
  abbrev claims : ClaimMap
  claims = claims_from set ordinal set.spec.volume_claim_templates []

  abbrev new_volumes : List Volume
  new_volumes = map claim_volume (range claims) ++ keep (λ v. not (is_claimed claims v)) old

  new_volumes-Names :
      (t : PersistentVolumeClaim)
      → In t set.spec.volume_claim_templates
      → All (Names t.meta.name (get_persistent_volume_claim_name set t ordinal)) new_volumes
  new_volumes-Names t m =
      All-append _ (map claim_volume (range claims)) _
        (All-of_map _ claim_volume (range claims) (All-of_In _ (range claims) claimed))
        (All-map _ _ _ kept (All-keep_test (λ v. not (is_claimed claims v)) old))
    where
      claimed :
          (e : Text × PersistentVolumeClaim)
          → In e (range claims)
          → Names t.meta.name (get_persistent_volume_claim_name set t ordinal) (claim_volume e)
      claimed (key, claim) at same = ap some (
          All-mem (IsNamed set ordinal) claims (law.visited claims (key, claim) at)
            (claims_from-IsNamed set ordinal set.spec.volume_claim_templates [] tt) t same)

      kept :
          (v : Volume)
          → not (is_claimed claims v) ≡ true
          → Names t.meta.name (get_persistent_volume_claim_name set t ordinal) v
      kept v free same = absurd (
          HasKey-lookup v.name claims
            (subst (λ (k : Text). HasKey k claims) (sym ((text_eq_iff v.name t.meta.name).0 same))
              (claims_from-HasKey set ordinal t set.spec.volume_claim_templates [] m))
            (ground arith))

  new_volumes-covers :
      (t : PersistentVolumeClaim)
      → In t set.spec.volume_claim_templates
      → volume_covers
          (lookup t.meta.name (volumes_by_name [] new_volumes))
          (get_persistent_volume_claim_name set t ordinal)
        ≡ true
  new_volumes-covers t m =
      let (claim, at) = claims_from-HasKey set ordinal t set.spec.volume_claim_templates [] m in
      volume_covers-volumes_by_name t.meta.name _ [] new_volumes (new_volumes-Names t m) (
        inr (
          claim_volume (t.meta.name, claim),
          In-append_left _ (map claim_volume (range claims)) _
              (In-map claim_volume (t.meta.name, claim) (range claims) (law.visits claims _ at)),
          text_eq_refl t.meta.name,
        ))

pos_nonneg : (n : ℕ) → leb_ℤ (pos 0) (pos n) ≡ true
pos_nonneg n = ground arith

storage_matches_intro :
    (set : XStatefulSet) (pod : Pod) (n : ℕ)
    → get_ordinal pod ≡ pos n
    → ((t : PersistentVolumeClaim)
        → In t set.spec.volume_claim_templates
        → volume_covers
            (lookup t.meta.name (volumes_by_name [] pod.volumes))
            (get_persistent_volume_claim_name set t (pos n))
          ≡ true)
    → storage_matches set pod ≡ true
unfolding storage_matches
storage_matches_intro set pod n h covers =
    rw (h, pos_nonneg n) (all-of_In _ set.spec.volume_claim_templates covers)

update_storage-ordinal :
    (range : ClaimMap → ClaimMap) (set : XStatefulSet) (pod : Pod)
    → get_ordinal (update_storage range set pod) ≡ get_ordinal pod
unfolding update_storage get_ordinal
update_storage-ordinal range set pod = refl

-- Where `range` visits every entry of a map, after updateStorage a pod whose name carries an ordinal matches the set's storage: each claim
-- template has a volume of its name that names the pod's own claim.
pub storage_matches-update_storage :
    (range : ClaimMap → ClaimMap) (set : XStatefulSet) (pod : Pod) (n : ℕ)
    → IsRange range
    → get_ordinal pod ≡ pos n
    → storage_matches set (update_storage range set pod) ≡ true
unfolding update_storage get_persistent_volume_claims
storage_matches-update_storage range set pod n law h =
    storage_matches_intro set (update_storage range set pod) n
      (update_storage-ordinal range set pod ∙ h)
      (subst
        (λ (o : ℤ).
          (t : PersistentVolumeClaim)
          → In t set.spec.volume_claim_templates
          → volume_covers
              (lookup t.meta.name (volumes_by_name [] (new_volumes range law set o pod.volumes)))
              (get_persistent_volume_claim_name set t (pos n))
            ≡ true)
        (sym h) (new_volumes-covers range law set (pos n) pod.volumes))
