-- ===== src/StatusUpdater.antt =====
-- realStatefulSetStatusUpdater (pkg/controller/xstatefulset/xstateful_set_status_updater.go): the status
-- of a set is written, and again after a conflict. The client, the lister and retry.RetryOnConflict are
-- parameters.
use xstatefulset.Base.{
  ◌≡◌, refl, sym, ap, subst, ◌∙◌, inl, inr, Option, none, some, Text, Option-cases, arith,
}
use xstatefulset.Api.{Error, Result, ok, err, XStatefulSet, XStatefulSetStatus}

pub record StatusClient (W : Type 0) : Type 0 where
  pub update_status : (namespace : Text) → XStatefulSet → W → Option Error × W
  pub get_cached : (namespace name : Text) → W → Result XStatefulSet
  pub retry_on_conflict :
      (XStatefulSet × W → Option Error × (XStatefulSet × W))
      → XStatefulSet × W
      → Option Error × (XStatefulSet × W)

module _ {W : Type 0} (c : StatusClient W) (status : XStatefulSetStatus) where
  -- What a write that failed leaves in the closure: the set as the lister has it, if it has it.
  abbrev pub refresh : XStatefulSet → W → XStatefulSet
  refresh set world = elim (c.get_cached set.meta.namespace set.meta.name world) [
    | err e ↦ set
    | ok cached ↦ cached
  ]

  unfoldable pub write_attempt : XStatefulSet × W → Option Error × (XStatefulSet × W)
  write_attempt (set, world) =
      let sent : XStatefulSet = record set { status = status } in
      let (error, after) = c.update_status sent.meta.namespace sent world in
      elim error [ none ↦ (none, (sent, after)) | some e ↦ (some e, (refresh sent after, after)) ]

  unfoldable pub update_stateful_set_status : XStatefulSet → W → Option Error × W
  unfolding write_attempt
  update_stateful_set_status set world =
      let (error, (last, after)) = c.retry_on_conflict write_attempt (set, world) in (error, after)

  -- A retried body runs at least once, and the error and the state are those of its last run.
  pub record IsRetry : Type 0 where
    pub last :
        (body : XStatefulSet × W → Option Error × (XStatefulSet × W)) (s : XStatefulSet × W)
        → (t : XStatefulSet × W) × (c.retry_on_conflict body s ≡ body t)

  -- A set with the wanted status that the API server took, as the last thing that happened.
  pub record IsAccepted (after : W) : Type 0 where
    pub sent : XStatefulSet
    pub world : W
    pub wanted : sent.status ≡ status
    pub taken : c.update_status sent.meta.namespace sent world ≡ (none, after)

  write_attempt-IsAccepted :
      (s : XStatefulSet × W) → (write_attempt s).0 ≡ none → IsAccepted (write_attempt s).1.1
  unfolding write_attempt
  write_attempt-IsAccepted (set, world) e =
      let sent : XStatefulSet = record set { status = status } in
      elim (Option-cases (c.update_status sent.meta.namespace sent world).0) [
        | inl q ↦ record {
          sent = sent;
          world = world;
          wanted = refl;
          taken = rw (q, write_attempt) refl;
        }
        | inr (f, q) ↦ absurd (ground (arith, e, q))
      ]

  -- Where retry.RetryOnConflict gives what the last run of its body gave, an UpdateStatefulSetStatus
  -- without an error ends with the API server taking a set with exactly the status that was asked
  -- for, however many conflicts there were before.
  pub update_stateful_set_status-IsAccepted :
      IsRetry
      → (set : XStatefulSet) (world : W) → (update_stateful_set_status set world).0 ≡ none
      → IsAccepted (update_stateful_set_status set world).1
  unfolding update_stateful_set_status
  update_stateful_set_status-IsAccepted law set world e =
      let (t, q) = law.last write_attempt (set, world) in
      subst (λ (out : Option Error × (XStatefulSet × W)). IsAccepted out.1.1) (sym q)
        (write_attempt-IsAccepted t
          (ap (λ (out : Option Error × (XStatefulSet × W)). out.0) (sym q) ∙ e))
