-- ===== src/Controller/Syncing.antt =====
-- sync and the worker: getPodsForStatefulSet, canAdoptFunc, adoptOrphanRevisions, syncStatefulSet,
-- processNextWorkItem, and AdoptOrphanRevisions of xstateful_set_control.go.
use xstatefulset.Base.{
  ◌*◌, Bool, true, false, not, ◌&&◌, Option, none, some, List, [], ◌∷◌, Text, text_eq,
  if◌then◌else◌, keep, ltb, ◌==◌,
}
use xstatefulset.Api.{
  Error, message, is_not_found, Result, ok, err, ObjectMeta, Pod, ControllerRevision, XStatefulSet,
  XStatefulSetStatus, controller_kind,
}
use xstatefulset.PodUtil.{nanos_per_second}
use xstatefulset.Identity.Names.{is_member_of}
use xstatefulset.RefManager.{Manager, start, recheck_deletion_timestamp, claim_pods}
use xstatefulset.PodIndex.{filter_pods_by_owner}
use xstatefulset.Sync.Config.{Config}
use xstatefulset.Sync.Revisions.{HistoryControl}
use xstatefulset.Sync.Perform.{update_and_truncate}
use xstatefulset.Controller.{
  QueueCall, add_rate_limited, forget, done, Selector, Cluster, ControllerState, push,
  enqueue_ss_after,
}

module _ {W : Type 0} (k : Cluster W) (h : HistoryControl W) (c : Config W) where
  -- The set as it is now, if it is still the same one.
  unfoldable pub get_fresh : XStatefulSet → W → Result ObjectMeta × W
  get_fresh set world =
      let (result, after) = k.get_live_set set.meta.namespace set.meta.name world in
      elim result [
        | err e ↦ (err e, after)
        | ok fresh ↦ (
          if not (text_eq fresh.meta.uid set.meta.uid) then err message else ok fresh.meta,
          after,
        )
      ]

  unfoldable pub can_adopt_func : XStatefulSet → W → Option Error × W
  unfolding get_fresh
  can_adopt_func set = recheck_deletion_timestamp (get_fresh set)

  abbrev pub manager : XStatefulSet → Selector → Manager W
  manager set selector = record {
    controller = set.meta;
    kind = controller_kind;
    matches = selector.matches;
    can_adopt_func = some (can_adopt_func set);
    finalizers = [];
  }

  unfoldable pub get_pods_for_stateful_set :
      XStatefulSet → Selector → W → (List Pod × Option Error) × W
  unfolding filter_pods_by_owner claim_pods can_adopt_func
  get_pods_for_stateful_set set selector world =
      elim (filter_pods_by_owner (λ key. k.pods_by_index key world) set.meta controller_kind.kind
        true) [
          | err e ↦ (([], some e), world)
          | ok pods ↦
              let (result, after) =
                claim_pods k.pods (manager set selector) (is_member_of set ∷ []) pods
                  (start world) in
              (result, after.world)
        ]

  -- ssc.control.AdoptOrphanRevisions
  unfoldable pub adopt_all : XStatefulSet → List ControllerRevision → W → Option Error × W
  adopt_all set [] world = (none, world)
  adopt_all set (r ∷ rs) world =
      let (result, after) = h.adopt_revision set r world in
      let rest = adopt_all set rs after in elim result [ err e ↦ (some e, after) | ok _ ↦ rest ]

  abbrev pub is_orphan : ControllerRevision → Bool
  is_orphan r = elim (k.revision_controller r.meta) [ none ↦ true | some _ ↦ false ]

  unfoldable pub adopt_orphan_revisions : XStatefulSet → W → Option Error × W
  unfolding adopt_all can_adopt_func
  adopt_orphan_revisions set world = elim (h.list_revisions set world) [
    | err e ↦ (some e, world)
    | ok revisions ↦ elim (keep is_orphan revisions) [
      | [] ↦ (none, world)
      | r ∷ rs ↦
          let (denied, after) = can_adopt_func set world in
          elim denied [ some _ ↦ (some message, after) | none ↦ adopt_all set (r ∷ rs) after ]
    ]
  ]

  -- The status does not count as many available replicas as the set wants.
  abbrev pub falls_short : XStatefulSet → Option XStatefulSetStatus → Bool
  falls_short set none = false
  falls_short set (some status) = not (status.available_replicas == set.spec.replicas)

  unfoldable pub sync_stateful_set :
      XStatefulSet → List Pod → ControllerState W → Option Error × ControllerState W
  unfolding enqueue_ss_after
  sync_stateful_set set pods st =
      let ((status, error), env) = update_and_truncate h c set pods st.env in
      let after = record st { env = env } in
      elim error [
        | some e ↦ (some e, after)
        | none ↦ (
          none,
          if ltb 0 set.spec.min_ready_seconds && falls_short set status
              then enqueue_ss_after k set (set.spec.min_ready_seconds * nanos_per_second) after
              else after,
        )
      ]

  abbrev pub at_world : W → ControllerState W → ControllerState W
  at_world world st = record st { env = record st.env { world = world } }

  -- From defaulting on.
  unfoldable pub sync_found :
      XStatefulSet → Selector → ControllerState W → Option Error × ControllerState W
  unfolding adopt_orphan_revisions get_pods_for_stateful_set sync_stateful_set
  sync_found set selector st =
      let (adoption, world1) = adopt_orphan_revisions set st.env.world in
      let ((pods, claims), world2) = get_pods_for_stateful_set set selector world1 in
      elim adoption [
        | some e ↦ (some e, at_world world1 st)
        | none ↦ elim claims [
          | some e ↦ (some e, at_world world2 st)
          | none ↦ sync_stateful_set set pods (at_world world2 st)
        ]
      ]

  unfoldable pub sync : Text → ControllerState W → Option Error × ControllerState W
  unfolding sync_found
  sync key st = elim (k.split_key key) [
    | err e ↦ (some e, st)
    | ok (namespace, name) ↦ elim (k.get_set namespace name st.env.world) [
      | err e ↦ (if is_not_found e then none else some e, st)
      | ok set ↦ elim (k.as_selector set) [
        | err e ↦ (none, st)
        | ok selector ↦ sync_found (h.set_defaults set) selector st
      ]
    ]
  ]

  abbrev pub settle_key : Text → Option Error → QueueCall
  settle_key key (some e) = add_rate_limited key
  settle_key key none = forget key

  -- `none` where the queue is shut down; the result says whether to go on.
  unfoldable pub process_next_work_item : Option Text → ControllerState W → Bool × ControllerState W
  unfolding sync
  process_next_work_item none st = (false, st)
  process_next_work_item (some key) st =
      let (error, after) = sync key st in
      (true, push k (done key) (push k (settle_key key error) after))

  -- The worker, over what Get answers, a key or the shutdown: the loop goes on while
  -- processNextWorkItem returns true, and waits where Get has no further answer.
  unfoldable pub worker : List (Option Text) → ControllerState W → ControllerState W
  unfolding process_next_work_item
  worker [] st = st
  worker (answer ∷ answers) st =
      let (go_on, after) = process_next_work_item answer st in
      let rest = worker answers after in if go_on then rest else after
