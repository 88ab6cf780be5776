-- ===== src/RefManager/Sound.antt =====
-- What the Claim functions do to all the objects that they are given.
use xstatefulset.Base.{
  ◌≡◌, ◌≤◌, ◌⊎◌, inl, inr, refl, sym, ap, ◌∙◌, Bool, true, false, ◌&&◌, Option, none, some, List,
  subst, In-append_right, [], ◌∷◌, ◌++◌, arith, all, All, All-map, All-append, In, append_assoc,
}
use xstatefulset.Api.{Error}
use xstatefulset.RefManager.{
  Patch, ObjectControl, Manager, State, start, claim_object, claim_each, claim_all, claim_pods,
  selected, add_claim,
}
use xstatefulset.RefManager.Claim.{
  is_owned, is_adoptable, IsDue, IsOnce, claim_object-IsOnce, claim_object-Sends,
  claim_object-claimed, claim_object-owned, claim_object-IsTruthful, claim_object-checked, adoption,
  IsTruthful,
}

module _ {W O : Type 0} (c : ObjectControl W O) (m : Manager W) (match : O → Bool) where
  abbrev Log : Type 0
  Log = List (O × Patch × Option Error)

  -- The object is the controller's own and matches, or is an orphan that could be adopted and whose
  -- adoption the API server took.
  abbrev pub MayClaim : Log → O → Type 0
  MayClaim log obj =
      (is_owned c m obj && match obj ≡ true)
      ⊎ ((is_adoptable c m match obj ≡ true) × In (obj, adoption c m obj, none) log)

  -- What a run over the objects claims and sends, from one state to another.
  pub record IsSound (objs claimed : List O) (before after : State W O) : Type 0 where
    pub once : IsOnce c m before → IsOnce c m after
    pub truthful : IsTruthful c m before → IsTruthful c m after
    pub stays : before.checked ≡ some none → after.checked ≡ some none
    pub sent : Log
    pub all_sent : after.patches ≡ sent ++ before.patches
    pub due : All (λ x. In x.0 objs × IsDue c m match after.checked x.0 x.1) sent
    pub sound : All (λ obj. In obj objs × MayClaim after.patches obj) claimed
    pub complete : All (λ obj. is_owned c m obj ≡ true → match obj ≡ true → In obj claimed) objs

  add_claim_sound :
      (log : Log) (result : Bool × Option Error) (obj : O) (objs claimed : List O)
      (errors : List Error)
      → (result.0 ≡ true → MayClaim log obj)
      → All (λ o. In o objs × MayClaim log o) claimed
      → All (λ o. In o (obj ∷ objs) × MayClaim log o) (add_claim c m result obj (claimed, errors)).0
  add_claim_sound log (b, some e) obj objs claimed errors h k =
      All-map _ _ claimed (λ o x. (In.there x.0, x.1)) k
  add_claim_sound log (true, none) obj objs claimed errors h k =
      ((In.here refl, h refl), All-map _ _ claimed (λ o x. (In.there x.0, x.1)) k)
  add_claim_sound log (false, none) obj objs claimed errors h k =
      All-map _ _ claimed (λ o x. (In.there x.0, x.1)) k

  add_claim_keeps :
      (result : Bool × Option Error) (obj o : O) (claimed : List O) (errors : List Error)
      → In o claimed
      → In o (add_claim c m result obj (claimed, errors)).0
  add_claim_keeps (b, some e) obj o claimed errors k = k
  add_claim_keeps (true, none) obj o claimed errors k = In.there k
  add_claim_keeps (false, none) obj o claimed errors k = k

  -- What was due stays so when the check's result stays.
  IsDue-later :
      (obj : O) (p : Patch) (now later : Option (Option Error))
      → (now ≡ some none → later ≡ some none)
      → IsDue c m match now obj p
      → IsDue c m match later obj p
  IsDue-later obj p now later stays (IsDue.adopts d checked a e) =
      IsDue.adopts d (stays checked) a e
  IsDue-later obj p now later stays (IsDue.gives_up d own out e) = IsDue.gives_up d own out e

  -- The patches of one object, as a list.
  sends :
      (obj : O) (objs : List O) (st : State W O) (checked : Option (Option Error))
      → ((claim_object c m match obj st).1.checked ≡ some none → checked ≡ some none)
      → (sent : Log) × ((claim_object c m match obj st).1.patches ≡ sent ++ st.patches)
        × All (λ x. In x.0 (obj ∷ objs) × IsDue c m match checked x.0 x.1) sent
  sends obj objs st checked stays = elim (claim_object-Sends c m match obj st) [
    | inl e ↦ ([], e, tt)
    | inr (p, answer, d, e) ↦
        ((obj, p, answer) ∷ [], e, ((In.here refl, IsDue-later obj p _ checked stays d), tt))
  ]

  may_claim :
      (obj : O) (st : State W O) (sent log : Log)
      → log ≡ sent ++ (claim_object c m match obj st).1.patches
      → (claim_object c m match obj st).0.0 ≡ true
      → MayClaim log obj
  may_claim obj st sent log e h = elim (claim_object-claimed c m match obj st h) [
    | inl own ↦ inl own
    | inr (a, q) ↦ inr (
      a,
      subst (λ l. In (obj, adoption c m obj, none) l) (sym e)
          (In-append_right _ sent _
            (subst (λ l. In (obj, adoption c m obj, none) l) (sym q) (In.here refl))),
    )
  ]

  own_claim :
      (obj : O) (st : State W O) (rest : List O × List Error)
      → claim_object c m match obj st ≡ ((true, none), st)
      → In obj (add_claim c m (claim_object c m match obj st).0 obj rest).0
  own_claim obj st rest e = rw e (In.here refl)

  claim_each-IsSound :
      (objs : List O) (st : State W O)
      → IsSound objs (claim_each c m match objs st).0.0 st (claim_each c m match objs st).1
  unfolding claim_each
  claim_each-IsSound [] st = record {
    once = λ h. h;
    truthful = λ h. h;
    stays = λ h. h;
    sent = [];
    all_sent = refl;
    due = tt;
    sound = tt;
    complete = tt;
  }
  claim_each-IsSound (obj ∷ objs) st =
      let step = claim_object c m match obj st in
      let rest = claim_each c m match objs step.1 in
      let ih = claim_each-IsSound objs step.1 in
      let (sent, log, due) = sends obj objs st rest.1.checked ih.stays in
      record {
        once = λ h. ih.once (claim_object-IsOnce c m match obj st h);
        truthful = λ h. ih.truthful (claim_object-IsTruthful c m match obj st h);
        stays = λ h. ih.stays (claim_object-checked c m match obj st h);
        sent = ih.sent ++ sent;
        all_sent =
            ih.all_sent
            ∙ ap (λ (l : Log). ih.sent ++ l) log
            ∙ sym (append_assoc ih.sent sent st.patches);
        due =
            All-append _ ih.sent sent (All-map _ _ ih.sent (λ x d. (In.there d.0, d.1)) ih.due) due;
        sound =
            add_claim_sound rest.1.patches step.0 obj objs rest.0.0 rest.0.1
              (may_claim obj st ih.sent rest.1.patches ih.all_sent) ih.sound;
        complete = (
          λ own fits. own_claim obj st rest.0 (claim_object-owned c m match obj st own fits),
          All-map _ _ objs
              (λ o h own fits. add_claim_keeps step.0 obj o rest.0.0 rest.0.1 (h own fits))
              ih.complete,
        );
      }

-- ClaimPods, from a fresh manager: the controller's check is made at most once, and its noted result
-- is its answer. Every patch that is sent is due: one that adopts an adoptable orphan, sent only
-- where the check allowed it, or one that gives up a pod that is its own and does not match; a
-- controller that is being deleted sends none. Every pod that is claimed is one of the given pods,
-- and matches and is its own, or is an adoptable orphan whose adoption the API server took. And every
-- given pod that is its own and matches is claimed, whatever the patches of the others gave.
pub claim_pods-IsSound :
    {W O : Type 0} (c : ObjectControl W O) (m : Manager W) (filters : List (O → Bool))
    (pods : List O) (world : W)
    → let match : O → Bool = λ pod. selected c m pod && all (λ filter. filter pod) filters in
      let (result, after) = claim_pods c m filters pods (start world) in
      (after.checks ≤ 1) × IsSound c m match pods result.0 (start world) after
unfolding claim_pods claim_all
claim_pods-IsSound {O = O} c m filters pods world =
    let match : O → Bool = λ pod. selected c m pod && all (λ filter. filter pod) filters in
    let whole = claim_each-IsSound c m match pods (start world) in
    ((whole.once (record { at_most = omega arith; not_yet = λ _. refl })).at_most, whole)
