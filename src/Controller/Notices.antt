-- ===== src/Controller/Notices.antt =====
-- No event of a pod is missed: the sets that it concerns come into the queue (addPod and updatePod).
use xstatefulset.Base.{
  Text, ◌≡◌, refl, sym, ap, subst, inl, inr, true, false, Bool, not, ◌||◌, Option, none, some,
  Bool-cases, text_eq, if◌then◌else◌,
}
use xstatefulset.Api.{ok, OwnerReference, Pod, XStatefulSet}
use xstatefulset.PodUtil.{is_terminating}
use xstatefulset.PodControl.Platform.{Env}
use xstatefulset.Controller.{QueueCall, add, Cluster, ControllerState}
use xstatefulset.Controller.Handlers.{
  same_labels, same_ref, controller_of, enqueue_owner, enqueue_matching, add_pod, update_owned,
  update_pod,
}
use xstatefulset.Controller.Routing.{
  Names, Has, enqueue_all-keeps, enqueue_owner-adds, enqueue_owner-env,
}
use xstatefulset.Controller.Events.{
  IsMatched, enqueue_matching-adds, update_owned-keeps, update_owned-adds,
}

module _ {W : Type 0} (k : Cluster W) where
  -- A pod concerns the set that its controller reference names or, if it is an orphan, every set
  -- that matches it.
  pub data Concerns (pod : Pod) (world : W) (set : XStatefulSet) : Type 0 where
    by_owner :
        (ref : OwnerReference)
        → controller_of k pod ≡ some ref
        → Names k pod.meta.namespace ref world set
        → Concerns pod world set
    by_labels : controller_of k pod ≡ none → IsMatched k pod world set → Concerns pod world set

  -- The changes of a pod that a set must hear of.
  pub data Changed (old cur : Pod) (world : W) (set : XStatefulSet) : Type 0 where
    owned :
        (ref : OwnerReference)
        → controller_of k cur ≡ some ref
        → Names k cur.meta.namespace ref world set
        → Changed old cur world set
    lost :
        (ref : OwnerReference)
        → controller_of k old ≡ some ref
        → Names k old.meta.namespace ref world set
        → same_ref (controller_of k cur) (controller_of k old) ≡ false
        → Changed old cur world set
    orphaned :
        controller_of k cur ≡ none
        → not (same_labels cur.meta.labels old.meta.labels)
            || not (same_ref (controller_of k cur) (controller_of k old))
          ≡ true
        → IsMatched k cur world set
        → Changed old cur world set

  -- A new pod that is not terminating brings every set that it concerns into the queue: the set that
  -- its controller reference names or, for an orphan, all the sets that match it.
  pub add_pod-adds :
      (pod : Pod) (set : XStatefulSet) (key : Text) (st : ControllerState W)
      → is_terminating pod ≡ false
      → Concerns pod st.env.world set
      → k.key_of set.meta ≡ ok key
      → Has k (add key) (add_pod k pod st)
  unfolding add_pod
  add_pod-adds pod set key st alive (by_owner ref q n) e =
      rw (alive, q, add_pod) (enqueue_owner-adds k pod.meta.namespace ref set key st n e)
  add_pod-adds pod set key st alive (by_labels q m) e =
      rw (alive, q, add_pod) (enqueue_matching-adds k pod set key st.env.world st refl m e)

  abbrev told : Pod → Pod → ControllerState W → ControllerState W
  told old cur st =
      if not (same_ref (controller_of k cur) (controller_of k old))
      then enqueue_owner k old.meta.namespace (controller_of k old) st
      else st

  told-env : (old cur : Pod) (st : ControllerState W) → (told old cur st).env ≡ st.env
  told-env old cur st = elim (Bool-cases (same_ref (controller_of k cur) (controller_of k old))) [
    | inl x ↦ rw (x, told) refl
    | inr x ↦ rw (x, told) (enqueue_owner-env k old.meta.namespace (controller_of k old) st)
  ]

  -- The end of updatePod.
  abbrev hear : Pod → Pod → Option OwnerReference → Bool → ControllerState W → ControllerState W
  hear old cur (some ref) changed st = update_owned k old cur ref st
  hear old cur none changed st = if changed then enqueue_matching k cur st else st

  abbrev has_changed : Pod → Pod → Bool
  has_changed old cur =
      not (same_labels cur.meta.labels old.meta.labels)
      || not (same_ref (controller_of k cur) (controller_of k old))

  update_pod-hear :
      (old cur : Pod) (st : ControllerState W)
      → text_eq cur.meta.resource_version old.meta.resource_version ≡ false
      → update_pod k old cur st
        ≡ hear old cur (controller_of k cur) (has_changed old cur) (told old cur st)
  unfolding update_pod
  update_pod-hear old cur st v = rw (v, update_pod) (by_ref (controller_of k cur))
    where
      by_ref :
          (ref : Option OwnerReference)
          → elim ref [
            | some r ↦ update_owned k old cur r (told old cur st)
            | none ↦
                if has_changed old cur
                then enqueue_matching k cur (told old cur st)
                else told old cur st
          ]
            ≡ hear old cur ref (has_changed old cur) (told old cur st)
      by_ref none = refl
      by_ref (some r) = refl

  hear-keeps :
      (old cur : Pod) (ref : Option OwnerReference) (changed : Bool) (call : QueueCall)
      (st : ControllerState W)
      → Has k call st
      → Has k call (hear old cur ref changed st)
  hear-keeps old cur (some ref) changed call st i = update_owned-keeps k old cur ref call st i
  hear-keeps old cur none true call st i = enqueue_all-keeps k _ call st i
  hear-keeps old cur none false call st i = i

  -- A pod that changed brings into the queue the set that its controller reference names, the set
  -- that the old reference named, if the reference is another one, and, for a pod that has become an
  -- orphan or an orphan whose labels have changed, all the sets that match it.
  pub update_pod-adds :
      (old cur : Pod) (set : XStatefulSet) (key : Text) (st : ControllerState W)
      → text_eq cur.meta.resource_version old.meta.resource_version ≡ false
      → Changed old cur st.env.world set
      → k.key_of set.meta ≡ ok key
      → Has k (add key) (update_pod k old cur st)
  update_pod-adds old cur set key st v change e =
      subst (Has k (add key)) (sym (update_pod-hear old cur st v)) (by_change change)
    where
      after : ControllerState W
      after = told old cur st

      world_kept : st.env.world ≡ (told old cur st).env.world
      world_kept = ap (λ (a : Env W). a.world) (sym (told-env old cur st))

      by_change :
          Changed old cur st.env.world set
          → Has k
              (add key)
              (hear old cur (controller_of k cur) (has_changed old cur) (told old cur st))
      by_change (owned ref q n) =
          subst (λ r. Has k (add key) (hear old cur r (has_changed old cur) (told old cur st)))
            (sym q)
            (update_owned-adds k old cur ref set key (told old cur st)
              (subst (λ w. Names k cur.meta.namespace ref w set) world_kept n) e)
      by_change (lost ref q n d) =
          hear-keeps old cur (controller_of k cur) (has_changed old cur) (add key) (told old cur st)
            (rw (d, told)
              (subst (λ r. Has k (add key) (enqueue_owner k old.meta.namespace r st)) (sym q)
                (enqueue_owner-adds k old.meta.namespace ref set key st n e)))
      by_change (orphaned q d m) =
          subst (λ r. Has k (add key) (hear old cur r (has_changed old cur) (told old cur st)))
            (sym q)
            (subst (λ b. Has k (add key) (hear old cur none b (told old cur st))) (sym d)
              (enqueue_matching-adds k cur set key st.env.world (told old cur st) world_kept m e))
