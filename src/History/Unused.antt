-- ===== src/History/Unused.antt =====
-- Which revisions truncateHistory deletes, and which it leaves alone.
use xstatefulset.Base.{
  ℕ, zero, suc, ◌-◌, min, ◌≡◌, ◌≢◌, refl, ap, sym, subst, ◌∙◌, ◌⊎◌, inl, inr, true, false, not,
  Option, none, some, List, [], ◌∷◌, ◌++◌, Text, text_eq, text_eq_iff, leb, any, take, length, All,
  All-map, In, arith, Bool-cases, Option-cases, ℤ, pos, negsuc,
}
use xstatefulset.Api.{Error, Pod, ControllerRevision}
use xstatefulset.PodUtil.{get_pod_revision}
use xstatefulset.History.Picks.{Picks, Picks-keep, Picks-All}
use xstatefulset.History.Truncate.{
  is_named, is_live, above_limit, get_history, get_surplus, delete_all, truncate_history,
}

module _ (pods : List Pod) (current update : Option ControllerRevision) where
  pub data IsNotNamed (name : Text) : Option ControllerRevision → Type 0 where
    absent : IsNotNamed name none
    other : {r : ControllerRevision} → r.meta.name ≢ name → IsNotNamed name (some r)

  -- Neither the current nor the update revision has the name, and no pod names it.
  pub record IsUnused (r : ControllerRevision) : Type 0 where
    pub not_current : IsNotNamed r.meta.name current
    pub not_update : IsNotNamed r.meta.name update
    pub no_pod : All (λ pod. get_pod_revision pod ≢ r.meta.name) pods

  differs : (a b : Text) → (text_eq a b ≡ false → a ≢ b) × (a ≢ b → text_eq a b ≡ false)
  differs a b = (
    λ e q. absurd (cc (e, (text_eq_iff a b).1 q)),
    λ n. elim (Bool-cases (text_eq a b)) [ inl e ↦ absurd (n ((text_eq_iff a b).0 e)) | inr e ↦ e ],
  )

  is_named-IsNotNamed :
      (name : Text) (o : Option ControllerRevision) → is_named name o ≡ false → IsNotNamed name o
  is_named-IsNotNamed name none e = absent
  is_named-IsNotNamed name (some r) e = other ((differs r.meta.name name).0 e)

  IsNotNamed-is_named :
      (name : Text) (o : Option ControllerRevision) → IsNotNamed name o → is_named name o ≡ false
  IsNotNamed-is_named name none h = refl
  IsNotNamed-is_named name (some r) (other n) = (differs r.meta.name name).1 n

  no_pod-any :
      (name : Text) (ps : List Pod)
      → any (λ pod. text_eq (get_pod_revision pod) name) ps ≡ false
      → All (λ pod. get_pod_revision pod ≢ name) ps
  no_pod-any name [] e = tt
  no_pod-any name (q ∷ ps) e =
      ((differs (get_pod_revision q) name).0 (ground arith), no_pod-any name ps (ground arith))

  any-no_pod :
      (name : Text) (ps : List Pod)
      → All (λ pod. get_pod_revision pod ≢ name) ps
      → any (λ pod. text_eq (get_pod_revision pod) name) ps ≡ false
  any-no_pod name [] h = refl
  any-no_pod name (q ∷ ps) h =
      ground (arith, (differs (get_pod_revision q) name).1 h.0, any-no_pod name ps h.1)

  is_live-IsUnused :
      (r : ControllerRevision) → not (is_live pods current update r) ≡ true → IsUnused r
  unfolding is_live
  is_live-IsUnused r e = record {
    not_current = is_named-IsNotNamed r.meta.name current (ground arith);
    not_update = is_named-IsNotNamed r.meta.name update (ground arith);
    no_pod = no_pod-any r.meta.name pods (ground arith);
  }

  IsUnused-is_live :
      (r : ControllerRevision) → IsUnused r → not (is_live pods current update r) ≡ true
  unfolding is_live
  IsUnused-is_live r h =
      rw
        (
          IsNotNamed-is_named r.meta.name current h.not_current,
          IsNotNamed-is_named r.meta.name update h.not_update,
          any-no_pod r.meta.name pods h.no_pod,
        )
        refl

  -- The surplus is the front of the unused revisions; behind it, the last ones are kept, as many as
  -- the limit says, or all of them.
  pub record IsSurplus (limit : ℕ) (revisions surplus : List ControllerRevision) : Type 0 where
    pub unused : List ControllerRevision
    pub picked : Picks IsUnused unused revisions
    pub kept : List ControllerRevision
    pub cut : unused ≡ surplus ++ kept
    pub number : length kept ≡ min limit (length unused)

  get_history-Picks :
      (limit : ℤ) (revisions : List ControllerRevision)
      → Picks IsUnused (get_history limit pods revisions current update) revisions
  get_history-Picks limit revisions =
      Picks-keep IsUnused _ revisions is_live-IsUnused IsUnused-is_live

  -- What the code relies on: a revision whose deletion gives no error is gone, and stays so.
  pub record IsDeletion {W : Type 0} (delete_revision : ControllerRevision → W → Option Error × W)
      (Gone : ControllerRevision → W → Type 0) : Type 0 where
    pub gone :
        (r : ControllerRevision) (world : W)
        → (delete_revision r world).0 ≡ none
        → Gone r (delete_revision r world).1
    pub stays :
        (r s : ControllerRevision) (world : W) → Gone s world → Gone s (delete_revision r world).1

  above_limit-All :
      (P : ControllerRevision → Type 0) (limit : ℤ) (rs : List ControllerRevision)
      → All P rs
      → All P (above_limit limit rs)
  above_limit-All P (negsuc n) rs h = tt
  above_limit-All P (pos n) rs h = elim (Bool-cases (leb (length rs) n)) [
    | inl e ↦ rw e tt
    | inr e ↦ rw e (front (length rs - n) rs h)
  ]
    where
      front : (n : ℕ) (rs : List ControllerRevision) → All P rs → All P (take n rs)
      front zero rs h = tt
      front (suc n) [] h = tt
      front (suc n) (r ∷ rs) h = (h.0, front n rs h.1)

  module _ {W : Type 0} (delete_revision : ControllerRevision → W → Option Error × W) (limit : ℤ)
      (revisions : List ControllerRevision) where
    delete_all-keeps :
        (Inv : W → Type 0) (rs : List ControllerRevision)
        → All (λ r. (world : W) → Inv world → Inv (delete_revision r world).1) rs
        → (world : W) → Inv world
        → Inv (delete_all limit pods revisions current update delete_revision rs world).1
    unfolding delete_all
    delete_all-keeps Inv [] h world i = i
    delete_all-keeps Inv (r ∷ rs) h world i = elim (Option-cases (delete_revision r world).0) [
      | inr (e, q) ↦ rw (q, delete_all) (h.0 world i)
      | inl n ↦ rw (n, delete_all) (delete_all-keeps Inv rs h.1 _ (h.0 world i))
    ]

    delete_all-step :
        (r : ControllerRevision) (rs : List ControllerRevision) (world : W)
        → (delete_revision r world).0 ≡ none
        → delete_all limit pods revisions current update delete_revision (r ∷ rs) world
          ≡ delete_all limit pods revisions current update delete_revision rs
              (delete_revision r world).1
    unfolding delete_all
    delete_all-step r rs world n = rw (n, delete_all) refl

    delete_all-gone :
        (Gone : ControllerRevision → W → Type 0)
        → IsDeletion delete_revision Gone
        → (rs : List ControllerRevision) (world : W)
        → ((e : Error) × ((delete_all limit pods revisions current update delete_revision rs
                world).0
              ≡ some e))
          ⊎ All
              (λ r.
                Gone r (delete_all limit pods revisions current update delete_revision rs world).1)
              rs
    unfolding delete_all
    delete_all-gone Gone law [] world = inr tt
    delete_all-gone Gone law (r ∷ rs) world = elim (Option-cases (delete_revision r world).0) [
      | inr (e, q) ↦ inl (e, rw (q, delete_all) refl)
      | inl n ↦
          let after = (delete_revision r world).1 in
          let step = delete_all-step r rs world n in
          elim (delete_all-gone Gone law rs after) [
            | inl (e, q) ↦ inl (e, ap (λ o. o.0) step ∙ q)
            | inr all ↦ inr (
                subst (λ (o : Option Error × W). All (λ s. Gone s o.1) (r ∷ rs)) (sym step)
                  (
                    delete_all-keeps (Gone r) rs (each rs (λ s w g. law.stays s r w g)) after
                        (law.gone r world n),
                    all,
                  ))
          ]
    ]
      where
        each :
            {P : ControllerRevision → Type 0} (rs : List ControllerRevision)
            → ((r : ControllerRevision) → P r)
            → All P rs
        each [] f = tt
        each (r ∷ rs) f = (f r, each rs f)

    -- truncateHistory keeps whatever the deletion of an unused revision of the list keeps: it deletes
    -- no other; and unless it returns an error, all that it set out to delete is gone.
    pub truncate_history-keeps :
        (Gone : ControllerRevision → W → Type 0)
        → IsDeletion delete_revision Gone
        → (Inv : W → Type 0)
        → ((r : ControllerRevision)
            → IsUnused r
            → In r revisions
            → (world : W) → Inv world
            → Inv (delete_revision r world).1)
        → (world : W) → Inv world
        → let out = truncate_history limit pods revisions current update delete_revision world in
          Inv out.1
          × (((e : Error) × (out.0 ≡ some e))
              ⊎ All (λ r. Gone r out.1) (get_surplus limit pods revisions current update))
    unfolding truncate_history get_surplus
    truncate_history-keeps Gone law Inv safe world i =
        let surplus = get_surplus limit pods revisions current update in
        let picked = Picks-All IsUnused (get_history-Picks limit revisions) in
        (
          delete_all-keeps Inv surplus
              (above_limit-All _ limit _ (All-map _ _ _ (λ r q. safe r q.0 q.1) picked)) world i,
          delete_all-gone Gone law surplus world,
        )
