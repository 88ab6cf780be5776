-- ===== src/Sync/Update.antt =====
-- updateStatefulSet: one pass of the control loop over the pods of a set. It returns the status and
-- an error, as the code does; where the code faults at a nil pointer, the error is `nil_pointer`.
use xstatefulset.Base.{
  ℕ, ◌==◌, Bool, true, false, not, Option, none, some, List, [], ◌∷◌, Text, if◌then◌else◌, length,
  get_elem?, pos,
}
use xstatefulset.Api.{
  Error, Result, ok, err, Pod, ControllerRevision, XStatefulSet, XStatefulSetStatus, on_delete,
  rolling_update, ordered_ready, parallel,
}
use xstatefulset.Identity.Names.{get_start_ordinal}
use xstatefulset.Status.{update_status}
use xstatefulset.Batch.{run_for_all}
use xstatefulset.PodControl.Platform.{Action}
use xstatefulset.Sync.Config.{Config}
use xstatefulset.Sync.Rolling.{update_outdated}
use xstatefulset.Sync.Replica.{Exit, go_on, process_replica, fix_pod_claim, process_condemned}
use xstatefulset.Sync.Partition.{
  Position, condemned, partition_pods, sort_descending, first_unavailable, fill,
}

-- allowsBurst
unfoldable pub allows_burst : XStatefulSet → Bool
allows_burst set = elim set.spec.pod_management_policy [ ordered_ready ↦ false | parallel ↦ true ]

abbrev pub is_deleted : XStatefulSet → Bool
is_deleted set = elim set.meta.deletion_timestamp [ none ↦ false | some _ ↦ true ]

abbrev pub is_on_delete : XStatefulSet → Bool
is_on_delete set = elim set.spec.strategy_type [ rolling_update ↦ false | on_delete ↦ true ]

abbrev pub is_condemned_at : Option Position → ℕ → Bool
is_condemned_at (some (condemned j)) i = i == j
is_condemned_at _ i = false

abbrev pub on_pod : {W : Type 0} → (Pod → Action W Exit) → Option Pod → Action W Exit
on_pod fn none env = (go_on, env)
on_pod fn (some pod) env = fn pod env

-- `fn(i)` on the i-th pod; the loops stay within the list.
abbrev pub at : {W : Type 0} → List Pod → (ℕ → Pod → Action W Exit) → ℕ → Action W Exit
at pods fn i env = on_pod (fn i) (get_elem? pods i) env

-- The first action, and the second one unless the first wants to stop.
unfoldable pub unless_exit : {W : Type 0} → Action W Exit → Action W Exit → Action W Exit
unless_exit first next env =
    let (exit, after) = first env in if exit.0 then (exit, after) else next after

-- The status before any pod is counted.
unfoldable pub initial_status :
    XStatefulSet → (current_revision update_revision : Text) → ℕ → XStatefulSetStatus
initial_status set current_revision update_revision collision_count = record {
  observed_generation = set.meta.generation;
  replicas = 0;
  ready_replicas = 0;
  current_replicas = pos 0;
  updated_replicas = 0;
  available_replicas = 0;
  current_revision = current_revision;
  update_revision = update_revision;
  collision_count = some collision_count;
}

-- What updateStatefulSet works on once the pods are divided and the gaps are filled.
pub record Plan : Type 0 where
  pub update_set : XStatefulSet
  pub replicas : List Pod
  pub condemned : List Pod
  pub first : Option Position

abbrev pub Outcome : Type 0
Outcome = Option XStatefulSetStatus × Option Error

module _ {W : Type 0} (c : Config W) (set : XStatefulSet)
    (current update : ControllerRevision) where
  abbrev pub recount : XStatefulSetStatus → List (List Pod) → XStatefulSetStatus
  recount status lists =
      update_status c.now status set.spec.min_ready_seconds current.meta.name update.meta.name lists

  module _ (plan : Plan) (monotonic : Bool) where
    abbrev pub replica_pass : Action W Exit
    replica_pass =
        run_for_all (at plan.replicas (λ i. process_replica c set plan.update_set monotonic))
          c.schedule (length plan.replicas) monotonic

    abbrev pub claim_pass : Action W Exit
    claim_pass =
        run_for_all (at plan.condemned (λ i. fix_pod_claim c set plan.update_set monotonic))
          c.schedule (length plan.condemned) monotonic

    abbrev pub condemned_pass : Action W Exit
    condemned_pass =
        run_for_all
          (at plan.condemned
            (λ i. process_condemned c set plan.update_set monotonic (is_condemned_at plan.first i)))
          c.schedule (length plan.condemned) monotonic

    -- The passes in their order; the first one that wants to stop or fails ends them.
    unfoldable pub all_passes : Action W Exit
    all_passes = unless_exit replica_pass (unless_exit claim_pass condemned_pass)

  -- Behind the passes: the status, and the rolling update.
  unfoldable pub finish : Plan → XStatefulSetStatus → Exit → Action W Outcome
  finish plan status exit env =
      let counted = recount status (plan.replicas ∷ (plan.condemned ∷ [])) in
      if exit.0
      then ((some counted, exit.1), env)
      else if is_on_delete set
      then ((some counted, none), env)
      else (let (result, final) =
            update_outdated c set update.meta.name plan.replicas counted env in
          ((some result.0, result.1), final))

  -- From the deletion test to the end.
  unfoldable pub enforce : Plan → XStatefulSetStatus → Action W Outcome
  unfolding all_passes finish unless_exit
  enforce plan status env =
      if is_deleted set
      then ((some status, none), env)
      else (let (exit, after) = all_passes plan (not (allows_burst set)) env in
          finish plan status exit after)

  -- The two versions of the set, and the replicas and condemned pods.
  unfoldable pub make_plan : List Pod → Result Plan
  make_plan pods = elim (c.apply_revision set current) [
    | err e ↦ err e
    | ok current_set ↦ elim (c.apply_revision set update) [
      | err e ↦ err e
      | ok update_set ↦
          let d = partition_pods set pods in
          elim (fill c.platform.range current_set update_set current.meta.name update.meta.name
            (get_start_ordinal set) d.slots) [
              | err e ↦ err e
              | ok replicas ↦
                  let others = sort_descending d.condemned in
                  ok (record {
                    update_set = update_set;
                    replicas = replicas;
                    condemned = others;
                    first = first_unavailable c.now set.spec.min_ready_seconds replicas others;
                  })
            ]
    ]
  ]

  unfoldable pub update_stateful_set : ℕ → List Pod → Action W Outcome
  update_stateful_set collision_count pods env = elim (make_plan pods) [
    | err e ↦ ((none, some e), env)
    | ok plan ↦
        enforce plan
          (recount (initial_status set current.meta.name update.meta.name collision_count)
            (pods ∷ []))
          env
  ]
