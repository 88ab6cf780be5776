-- ===== src/History/Changes.antt =====
-- What UpdateControllerRevision, AdoptControllerRevision and ReleaseControllerRevision change.
use xstatefulset.Base.{
  ◌≡◌, refl, sym, ap, ◌∙◌, inl, inr, true, not, ℤ, pos, negsuc, eqb_ℤ, Option, none, some, List, [],
  ◌∷◌, ◌++◌, text_eq, text_eq_refl, arith, all, Bool-cases, Option-cases, ==_iff, ◌+◌, suc,
}
use xstatefulset.Api.{
  Error, ok, Result-cases, ObjectMeta, OwnerReference, GroupVersionKind, ControllerRevision,
  new_controller_ref,
}
use xstatefulset.History.Client.{RevisionClient, update_attempt, update_controller_revision}
use xstatefulset.History.Fake.{
  Indexer, look_up, adopt_controller_revision, release_controller_revision, other_owners,
  with_owners,
}

module _ {W : Type 0} (c : RevisionClient W) where
  -- A retried body runs at least once, and the error and the state are those of its last run.
  pub record IsRetry : Type 0 where
    pub last :
        (body : ControllerRevision × W → Option Error × (ControllerRevision × W))
        (s : ControllerRevision × W)
        → (t : ControllerRevision × W) × (c.retry_on_conflict body s ≡ body t)

  eqb_ℤ-sound : (a b : ℤ) → eqb_ℤ a b ≡ true → a ≡ b
  eqb_ℤ-sound (pos m) (pos n) e = ap pos (omega (arith, (==_iff (m + 0) (n + 0)).0 e))
  eqb_ℤ-sound (pos m) (negsuc n) e = absurd (omega (arith, (==_iff (m + suc n) (0 + 0)).0 e))
  eqb_ℤ-sound (negsuc m) (pos n) e = absurd (omega (arith, (==_iff (0 + 0) (n + suc m)).0 e))
  eqb_ℤ-sound (negsuc m) (negsuc n) e =
      ap negsuc (omega (arith, (==_iff (0 + suc n) (0 + suc m)).0 e))

  update_attempt-numbers :
      (n : ℤ) (s : ControllerRevision × W)
      → (update_attempt c n s).0 ≡ none
      → (update_attempt c n s).1.0.revision ≡ n
  unfolding update_attempt
  update_attempt-numbers n (clone, world) e = elim (Bool-cases (eqb_ℤ clone.revision n)) [
    | inl x ↦ rw (x, update_attempt) (eqb_ℤ-sound clone.revision n x)
    | inr x ↦
        let next : ControllerRevision = record clone { revision = n } in
        elim (Option-cases (c.update next.meta.namespace next world).0.1) [
          | inl q ↦ rw (x, q, update_attempt) refl
          | inr (f, q) ↦ absurd (ground (arith, e, x, q))
        ]
  ]

  -- Where retry.RetryOnConflict gives what the last run of its body gave, an UpdateControllerRevision
  -- without an error gives a revision with the new number, however many conflicts there were.
  pub update_controller_revision-number :
      IsRetry
      → (r : ControllerRevision) (n : ℤ) (world : W)
      → (update_controller_revision c r n world).0.1 ≡ none
      → (update_controller_revision c r n world).0.0.revision ≡ n
  unfolding update_controller_revision
  update_controller_revision-number law r n world e =
      let (t, q) = law.last (update_attempt c n) (r, world) in
      ap (λ (out : Option Error × (ControllerRevision × W)). out.1.0.revision) q
      ∙ update_attempt-numbers n t
          (ap (λ (out : Option Error × (ControllerRevision × W)). out.0) (sym q) ∙ e)

module _ {W : Type 0} (c : Indexer W) where
  other_owners-new :
      (parent : ObjectMeta) (kind : GroupVersionKind) (refs : List OwnerReference)
      → all (λ (ref : OwnerReference). not (text_eq ref.uid parent.uid)) refs ≡ true
      → other_owners c parent (refs ++ (new_controller_ref parent kind ∷ [])) ≡ refs
  other_owners-new parent kind [] h = rw (text_eq_refl parent.uid) refl
  other_owners-new parent kind (ref ∷ refs) h = ground (arith, h, other_owners-new parent kind refs)

  adopt_controller_revision-owners :
      (parent : ObjectMeta) (kind : GroupVersionKind) (revision adopted : ControllerRevision)
      (world after : W)
      → adopt_controller_revision c parent kind revision world ≡ ((some adopted, none), after)
      → with_owners c
          (revision.meta.owner_references ++ (new_controller_ref parent kind ∷ []))
          revision
        ≡ adopted
  unfolding adopt_controller_revision
  adopt_controller_revision-owners parent kind revision adopted world after e =
      elim (Option-cases (c.controller_of revision.meta)) [
        | inr (owner, x) ↦ absurd (ground (arith, e, x))
        | inl x ↦ elim (Result-cases (look_up c revision world)) [
          | inr (f, y) ↦ absurd (ground (arith, e, x, y))
          | inl (none, y) ↦ absurd (ground (arith, e, x, y))
          | inl (some found, y) ↦ ground (arith, e, x, y)
        ]
      ]

  -- In the store of the fake history: a revision that was adopted, without an error, and that no
  -- reference ties to the parent before, is itself again once it is released.
  pub release_controller_revision-adopt_controller_revision :
      (parent : ObjectMeta) (kind : GroupVersionKind) (revision adopted : ControllerRevision)
      (world after : W)
      → all
          (λ (ref : OwnerReference). not (text_eq ref.uid parent.uid))
          revision.meta.owner_references
        ≡ true
      → adopt_controller_revision c parent kind revision world ≡ ((some adopted, none), after)
      → (found : ControllerRevision) → look_up c adopted after ≡ ok (some found)
      → (release_controller_revision c parent adopted after).0.0 ≡ some revision
  unfolding adopt_controller_revision release_controller_revision
  release_controller_revision-adopt_controller_revision parent kind revision adopted world after
        free e found q =
      let owners = adopt_controller_revision-owners parent kind revision adopted world after e in
      rw (q, release_controller_revision)
        (ap some (
          ap
            (λ (r : ControllerRevision).
              with_owners c (other_owners c parent r.meta.owner_references) r)
            (sym owners)
          ∙ ap (λ (refs : List OwnerReference). with_owners c refs revision)
              (other_owners-new parent kind revision.meta.owner_references free)))
