-- ===== src/Certificates/Bundles.antt =====
-- UpdateValidatingWebhookCABundle and UpdateMutatingWebhookCABundle (pkg/webhook/cert/secret.go): the CA
-- bundles of the webhooks of one configuration. Both read and write their own kind of object.
use xstatefulset.Base.{
  ◌≡◌, refl, sym, ap, subst, ◌∙◌, inl, inr, Bool, true, false, not, ◌||◌, Option, none, some, List,
  [], ◌∷◌, Text, if◌then◌else◌, arith, Bool-cases,
}
use xstatefulset.Api.{Error, wrapped, is_not_found, Result, ok, err}
use xstatefulset.Certificates.{is_empty}

-- The CA bundles of the webhooks of a configuration, by its name.
pub record WebhookClient (W : Type 0) : Type 0 where
  pub get : (name : Text) → W → Result (List Text)
  pub update : (name : Text) → List Text → W → Option Error × W

abbrev pub fill_one : Text → Text → Text
fill_one ca old = if is_empty old then ca else old

-- The bundles with the empty ones filled, and whether there was one.
unfoldable pub fill : Text → List Text → List Text × Bool
fill ca [] = ([], false)
fill ca (old ∷ olds) =
    let (rest, updated) = fill ca olds in (fill_one ca old ∷ rest, is_empty old || updated)

module _ {W : Type 0} (c : WebhookClient W) (name ca : Text) where
  abbrev pub wrap_error : Option Error → Option Error
  wrap_error none = none
  wrap_error (some e) = some (wrapped e)

  abbrev pub write_back : List Text × Bool → W → Option Error × W
  write_back (webhooks, updated) world =
      if not updated
      then (none, world)
      else (let (error, after) = c.update name webhooks world in (wrap_error error, after))

  unfoldable pub update_webhook_ca_bundle : W → Option Error × W
  unfolding fill
  update_webhook_ca_bundle world = elim (c.get name world) [
    | err e ↦ (if is_not_found e then none else some (wrapped e), world)
    | ok webhooks ↦ write_back (fill ca webhooks) world
  ]

  -- For the two kinds of configuration, each with the client of its kind.
  unfoldable pub update_validating_webhook_ca_bundle : W → Option Error × W
  unfolding update_webhook_ca_bundle
  update_validating_webhook_ca_bundle world = update_webhook_ca_bundle world

  unfoldable pub update_mutating_webhook_ca_bundle : W → Option Error × W
  unfolding update_webhook_ca_bundle
  update_mutating_webhook_ca_bundle world = update_webhook_ca_bundle world

  -- A configuration that was written is shown.
  pub record IsConfigStore : Type 0 where
    pub wrote :
        (webhooks : List Text) (w : W)
        → (c.update name webhooks w).0 ≡ none
        → c.get name (c.update name webhooks w).1 ≡ ok webhooks

  -- A bundle that was there stays, one that was empty is the CA, and none more.
  pub data IsFilled : (before after : List Text) → Type 0 where
    no_webhook : IsFilled [] []
    kept :
        {old : Text} {before after : List Text}
        → is_empty old ≡ false
        → IsFilled before after
        → IsFilled (old ∷ before) (old ∷ after)
    filled :
        {old : Text} {before after : List Text}
        → is_empty old ≡ true
        → IsFilled before after
        → IsFilled (old ∷ before) (ca ∷ after)

  fill-IsFilled : (olds : List Text) → IsFilled olds (fill ca olds).0
  unfolding fill
  fill-IsFilled [] = no_webhook
  fill-IsFilled (old ∷ olds) = elim (Bool-cases (is_empty old)) [
    | inl e ↦ rw e (filled e (fill-IsFilled olds))
    | inr e ↦ rw e (kept e (fill-IsFilled olds))
  ]

  fill-unchanged : (olds : List Text) → (fill ca olds).1 ≡ false → (fill ca olds).0 ≡ olds
  unfolding fill
  fill-unchanged [] e = refl
  fill-unchanged (old ∷ olds) e = ground (arith, e, fill-unchanged olds)

  fill-again : (olds : List Text) → is_empty ca ≡ false → (fill ca (fill ca olds).0).1 ≡ false
  unfolding fill
  fill-again [] e = refl
  fill-again (old ∷ olds) e = ground (arith, e, fill-again olds e)

  nothing_to_do :
      (olds : List Text) (w : W)
      → c.get name w ≡ ok olds
      → (fill ca olds).1 ≡ false
      → update_webhook_ca_bundle w ≡ (none, w)
  unfolding update_webhook_ca_bundle
  nothing_to_do olds w e f = rw (e, f, update_webhook_ca_bundle) refl

  written :
      (olds : List Text) (w : W)
      → c.get name w ≡ ok olds
      → (fill ca olds).1 ≡ true
      → update_webhook_ca_bundle w
        ≡ (wrap_error (c.update name (fill ca olds).0 w).0, (c.update name (fill ca olds).0 w).1)
  unfolding update_webhook_ca_bundle
  written olds w e t = rw (e, t, update_webhook_ca_bundle) refl

  no_error : (o : Option Error) → wrap_error o ≡ none → o ≡ none
  no_error none e = refl
  no_error (some x) e = absurd (cc)

  -- Over an API server that shows what was written: after an update of the CA bundles without an
  -- error, with a bundle that is not empty, the configuration has the given bundle where it had none,
  -- and its own ones otherwise; a second update changes nothing and gives no error.
  pub update_webhook_ca_bundle-IsFilled :
      IsConfigStore
      → is_empty ca ≡ false
      → (olds : List Text) (w : W) → c.get name w ≡ ok olds
      → (update_webhook_ca_bundle w).0 ≡ none
      → let after = (update_webhook_ca_bundle w).1 in
        (news : List Text) × (c.get name after ≡ ok news)
        × IsFilled olds news
        × (update_webhook_ca_bundle after ≡ (none, after))
  update_webhook_ca_bundle-IsFilled law full olds w e done = elim (Bool-cases (fill ca olds).1) [
    | inr f ↦ subst Settled (sym (nothing_to_do olds w e f)) (
      olds,
      e,
      subst (IsFilled olds) (fill-unchanged olds f) (fill-IsFilled olds),
      nothing_to_do olds w e f,
    )
    | inl t ↦
        let shown =
          law.wrote (fill ca olds).0 w (
            no_error _
              (ap (λ (out : Option Error × W). out.0) (sym (written olds w e t)) ∙ done)) in
        subst Settled (sym (written olds w e t)) (
          (fill ca olds).0,
          shown,
          fill-IsFilled olds,
          nothing_to_do (fill ca olds).0 (c.update name (fill ca olds).0 w).1 shown
              (fill-again olds full),
        )
  ]
    where
      Settled : Option Error × W → Type 0
      Settled out =
          (news : List Text) × (c.get name out.1 ≡ ok news)
          × IsFilled olds news
          × (update_webhook_ca_bundle out.1 ≡ (none, out.1))
