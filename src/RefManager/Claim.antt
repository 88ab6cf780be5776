-- ===== src/RefManager/Claim.antt =====
-- What ClaimObject does to one object: which it claims, which patch it sends, and how often it checks
-- that the controller may adopt.
use xstatefulset.Base.{
  ◌≡◌, ◌≤◌, ◌⊎◌, inl, inr, refl, Bool, true, false, not, ◌&&◌, ◌||◌, Option, none, some, [], ◌∷◌,
  text_eq, arith, Bool-cases, Option-cases, ◌∙◌, sym, ap, List, ◌≢◌,
}
use xstatefulset.Api.{Error}
use xstatefulset.RefManager.{
  Patch, ObjectControl, Manager, State, can_adopt, adopt, release, let_go, take_up, claim_object,
  is_deleting, is_empty, owner_ref_controller_patch, delete_owner_ref_patch, unless_gone,
}

module _ {W O : Type 0} (c : ObjectControl W O) (m : Manager W) where
  -- The object's controller is this one.
  unfoldable pub is_owned : O → Bool
  is_owned obj = elim (c.get_controller_of (c.meta obj)) [
    | none ↦ false
    | some ref ↦ text_eq ref.uid m.controller.uid
  ]

  unfoldable pub is_orphan : O → Bool
  is_orphan obj = elim (c.get_controller_of (c.meta obj)) [ none ↦ true | some _ ↦ false ]

  -- An orphan that matches, is not being deleted and is in the controller's namespace, if it has one.
  unfoldable pub is_adoptable : (O → Bool) → O → Bool
  is_adoptable match obj =
      is_orphan obj
      && match obj
      && not (is_deleting (c.meta obj))
      && (is_empty m.controller.namespace || text_eq m.controller.namespace (c.meta obj).namespace)

  -- The patches that are due: a controller that is not being deleted and whose check allowed it
  -- adopts what it can, and one that is not being deleted gives up what it owns and does not match.
  pub data IsDue (match : O → Bool) (checked : Option (Option Error)) (obj : O) (patch : Patch)
      : Type 0 where
    adopts :
        is_deleting m.controller ≡ false
        → checked ≡ some none
        → is_adoptable match obj ≡ true
        → patch ≡ owner_ref_controller_patch m.controller m.kind (c.meta obj).uid m.finalizers
        → IsDue match checked obj patch
    gives_up :
        is_deleting m.controller ≡ false
        → is_owned obj ≡ true
        → match obj ≡ false
        → patch ≡ delete_owner_ref_patch (c.meta obj).uid (m.controller.uid ∷ []) m.finalizers
        → IsDue match checked obj patch

  -- The manager has no check, or its check answered at some time that it may adopt.
  pub data IsPermitted : Type 0 where
    no_check : m.can_adopt_func ≡ none → IsPermitted
    allowed :
        (check : W → Option Error × W)
        → m.can_adopt_func ≡ some check
        → (world : W) → (check world).0 ≡ none
        → IsPermitted

  -- The check was made at most once, and not before its result is there.
  pub record IsOnce (st : State W O) : Type 0 where
    pub at_most : st.checks ≤ 1
    pub not_yet : st.checked ≡ none → st.checks ≡ 0

  -- The result that is noted is an answer of the check.
  abbrev pub IsTruthful : State W O → Type 0
  IsTruthful st = st.checked ≡ some none → IsPermitted

  can_adopt-IsOnce : (st : State W O) → IsOnce st → IsOnce (can_adopt m st).1
  unfolding can_adopt
  can_adopt-IsOnce st h = ground arith

  can_adopt-IsTruthful : (st : State W O) → IsTruthful st → IsTruthful (can_adopt m st).1
  unfolding can_adopt
  can_adopt-IsTruthful st h good = elim (Option-cases st.checked) [
    | inr (result, e) ↦ h (ground (arith, e, good))
    | inl e ↦ elim (Option-cases m.can_adopt_func) [
      | inl f ↦ no_check f
      | inr (check, f) ↦ allowed check f st.world (ground (arith, e, f, good))
    ]
  ]

  -- What the check answers is noted, and stays.
  can_adopt-checked :
      (st : State W O)
      → ((can_adopt m st).1.checked ≡ some (can_adopt m st).0)
        × (st.checked ≡ some none → (can_adopt m st).1.checked ≡ some none)
  unfolding can_adopt
  can_adopt-checked st = (ground arith, λ h. ground arith)

  can_adopt-patches : (st : State W O) → (can_adopt m st).1.patches ≡ st.patches
  unfolding can_adopt
  can_adopt-patches st = ground arith

  pub claim_object-IsOnce :
      (match : O → Bool) (obj : O) (st : State W O)
      → IsOnce st
      → IsOnce (claim_object c m match obj st).1
  unfolding claim_object let_go take_up release adopt
  claim_object-IsOnce match obj st h = ground (arith, can_adopt-IsOnce st)

  claim_object-checked_cases :
      (match : O → Bool) (obj : O) (st : State W O)
      → let after = (claim_object c m match obj st).1 in
        (after.checked ≡ st.checked) ⊎ (after.checked ≡ (can_adopt m st).1.checked)
  unfolding claim_object let_go take_up release adopt
  claim_object-checked_cases match obj st = ground arith

  pub claim_object-IsTruthful :
      (match : O → Bool) (obj : O) (st : State W O)
      → IsTruthful st
      → IsTruthful (claim_object c m match obj st).1
  claim_object-IsTruthful match obj st h good = elim (claim_object-checked_cases match obj st) [
    | inl e ↦ h (sym e ∙ good)
    | inr e ↦ can_adopt-IsTruthful st h (sym e ∙ good)
  ]

  pub claim_object-checked :
      (match : O → Bool) (obj : O) (st : State W O)
      → st.checked ≡ some none
      → (claim_object c m match obj st).1.checked ≡ some none
  unfolding claim_object let_go take_up release adopt
  claim_object-checked match obj st h = ground (arith, can_adopt-checked st)

  -- The patches after it are those before, or one more that is due.
  abbrev Sends : (O → Bool) → O → State W O → State W O → Type 0
  Sends match obj st after =
      (after.patches ≡ st.patches)
      ⊎ ((p : Patch) × (answer : Option Error) × IsDue match after.checked obj p
          × (after.patches ≡ (obj, p, answer) ∷ st.patches))

  let_go-Sends :
      (match : O → Bool) (obj : O) (st : State W O)
      → is_owned obj ≡ true
      → match obj ≡ false
      → Sends match obj st (let_go c m obj st).1
  unfolding let_go release
  let_go-Sends match obj st own out = elim (Bool-cases (is_deleting m.controller)) [
    | inl d ↦ inl (ground (arith, d))
    | inr d ↦ inr (
      _,
      (c.do_patch obj (delete_owner_ref_patch (c.meta obj).uid (m.controller.uid ∷ []) m.finalizers)
          st.world).0,
      gives_up d own out refl,
      ground (arith, d),
    )
  ]

  abbrev pub adoption : O → Patch
  adoption obj = owner_ref_controller_patch m.controller m.kind (c.meta obj).uid m.finalizers

  -- A take_up_refused check ends the adoption with an error; behind an allowed one the patch is sent, and its
  -- answer is the result.
  adopt-Outcome :
      (obj : O) (st : State W O)
      → (((e : Error) × ((adopt c m obj st).0 ≡ some e))
          × ((adopt c m obj st).1.patches ≡ st.patches))
        ⊎ (((adopt c m obj st).1.checked ≡ some none)
            × ((adopt c m obj st).1.patches
                ≡ (obj, adoption obj, (adopt c m obj st).0) ∷ st.patches))
  unfolding adopt
  adopt-Outcome obj st = elim (Option-cases (can_adopt m st).0) [
    | inr (e, q) ↦ inl (rw (q, adopt) ((_, refl), can_adopt-patches st))
    | inl q ↦ inr (
        rw (q, adopt)
          (
            (can_adopt-checked st).0 ∙ ap (λ (o : Option Error). some o) q,
            ap
                (λ (l : List (O × Patch × Option Error)).
                  (obj, adoption obj, (c.do_patch obj (adoption obj) (can_adopt m st).1.world).0)
                  ∷ l)
                (can_adopt-patches st),
          ))
  ]

  take_up_unadoptable :
      (match : O → Bool) (obj : O) (st : State W O)
      → is_orphan obj ≡ true
      → is_adoptable match obj ≡ false
      → (take_up c m match obj st).1.patches ≡ st.patches
  unfolding take_up is_adoptable
  take_up_unadoptable match obj st alone no_match = ground arith

  take_up_adoptable :
      (match : O → Bool) (obj : O) (st : State W O)
      → is_deleting m.controller ≡ false
      → is_adoptable match obj ≡ true
      → take_up c m match obj st ≡ (unless_gone c m (adopt c m obj st).0 true, (adopt c m obj st).1)
  unfolding take_up is_adoptable
  take_up_adoptable match obj st d a = ground arith

  take_up_deleting :
      (match : O → Bool) (obj : O) (st : State W O)
      → is_deleting m.controller ≡ true
      → (take_up c m match obj st).1.patches ≡ st.patches
  unfolding take_up
  take_up_deleting match obj st d = ground (arith, d)

  take_up-Sends :
      (match : O → Bool) (obj : O) (st : State W O)
      → is_orphan obj ≡ true
      → Sends match obj st (take_up c m match obj st).1
  take_up-Sends match obj st alone = elim (Bool-cases (is_deleting m.controller)) [
    | inl d ↦ inl (take_up_deleting match obj st d)
    | inr d ↦ elim (Bool-cases (is_adoptable match obj)) [
      | inr a ↦ inl (take_up_unadoptable match obj st alone a)
      | inl a ↦ rw (take_up_adoptable match obj st d a) (elim (adopt-Outcome obj st) [
        | inl (e, q) ↦ inl q
        | inr (checked, q) ↦ inr (_, _, adopts d checked a refl, q)
      ])
    ]
  ]

  -- The object is left alone, or one patch is sent, which is due.
  pub claim_object-Sends :
      (match : O → Bool) (obj : O) (st : State W O)
      → Sends match obj st (claim_object c m match obj st).1
  unfolding claim_object is_owned is_orphan
  claim_object-Sends match obj st = elim (Option-cases (c.get_controller_of (c.meta obj))) [
    | inl e ↦ rw (e, claim_object) (take_up-Sends match obj st (rw (e, is_orphan) refl))
    | inr (ref, e) ↦ elim (Bool-cases (text_eq ref.uid m.controller.uid)) [
      | inr u ↦ inl (rw (e, u, claim_object) refl)
      | inl u ↦ elim (Bool-cases (match obj)) [
        | inl k ↦ inl (rw (e, u, k, claim_object) refl)
        | inr k ↦
            rw (e, u, k, claim_object) (let_go-Sends match obj st (rw (e, u, is_owned) refl) k)
      ]
    ]
  ]

  unless_gone_claims : (error : Option Error) → (unless_gone c m error true).0 ≡ true → error ≡ none
  unless_gone_claims none h = refl
  unless_gone_claims (some e) h = absurd (ground arith)

  -- An orphan that is claimed is adoptable, and the API server took the patch that adopts it.
  abbrev pub Adopted : (O → Bool) → O → State W O → State W O → Type 0
  Adopted match obj st after =
      (is_adoptable match obj ≡ true) × (after.patches ≡ (obj, adoption obj, none) ∷ st.patches)

  take_up_refused :
      (match : O → Bool) (obj : O) (st : State W O)
      → is_orphan obj ≡ true
      → (is_deleting m.controller ≡ true) ⊎ (is_adoptable match obj ≡ false)
      → (take_up c m match obj st).0.0 ≢ true
  unfolding take_up is_adoptable
  take_up_refused match obj st alone (inl d) = ground arith
  take_up_refused match obj st alone (inr a) = ground arith

  take_up-claimed :
      (match : O → Bool) (obj : O) (st : State W O)
      → is_orphan obj ≡ true
      → (take_up c m match obj st).0.0 ≡ true
      → Adopted match obj st (take_up c m match obj st).1
  take_up-claimed match obj st alone h = elim (Bool-cases (is_deleting m.controller)) [
    | inl d ↦ absurd (take_up_refused match obj st alone (inl d) h)
    | inr d ↦ elim (Bool-cases (is_adoptable match obj)) [
      | inr a ↦ absurd (take_up_refused match obj st alone (inr a) h)
      | inl a ↦
          let whole = take_up_adoptable match obj st d a in
          let good = unless_gone_claims (adopt c m obj st).0 (sym (ap (λ r. r.0.0) whole) ∙ h) in
          elim (adopt-Outcome obj st) [
            | inl ((e, bad), q) ↦ absurd (cc)
            | inr (checked, q) ↦ (
              a,
              ap (λ r. r.1.patches) whole ∙ q ∙ ap (λ o. (obj, adoption obj, o) ∷ st.patches) good,
            )
          ]
    ]
  ]

  claim_object_orphan :
      (match : O → Bool) (obj : O) (st : State W O)
      → c.get_controller_of (c.meta obj) ≡ none
      → claim_object c m match obj st ≡ take_up c m match obj st
  unfolding claim_object
  claim_object_orphan match obj st e = rw (e, claim_object) refl

  pub claim_object-claimed :
      (match : O → Bool) (obj : O) (st : State W O)
      → (claim_object c m match obj st).0.0 ≡ true
      → (is_owned obj && match obj ≡ true) ⊎ Adopted match obj st (claim_object c m match obj st).1
  unfolding claim_object is_owned is_orphan let_go
  claim_object-claimed match obj st h = elim (Option-cases (c.get_controller_of (c.meta obj))) [
    | inl e ↦ inr (
        rw (e, claim_object)
          (take_up-claimed match obj st (rw (e, is_orphan) refl)
            (sym (ap (λ r. r.0.0) (claim_object_orphan match obj st e)) ∙ h)))
    | inr (ref, e) ↦ inl (ground arith)
  ]

  pub claim_object-owned :
      (match : O → Bool) (obj : O) (st : State W O)
      → is_owned obj ≡ true
      → match obj ≡ true
      → claim_object c m match obj st ≡ ((true, none), st)
  unfolding claim_object is_owned
  claim_object-owned match obj st h k = ground arith
