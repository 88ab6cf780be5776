-- ===== src/Sync/Perform.antt =====
-- UpdateStatefulSet (xstateful_set_control.go): the revisions of a set, the pass over its pods, the
-- write of the status, and the truncation of the history.
use xstatefulset.Base.{not, Option, none, some, List, [], ◌∷◌, ◌++◌, if◌then◌else◌}
use xstatefulset.Api.{
  Error, Errors, no_errors, more_errors, aggregate, new_aggregate, ok, err, Pod, ControllerRevision,
  XStatefulSet, XStatefulSetStatus,
}
use xstatefulset.Status.{inconsistent_status, complete_rolling_update}
use xstatefulset.History.{sort_controller_revisions}
use xstatefulset.History.Truncate.{truncate_history}
use xstatefulset.PodControl.Platform.{Action}
use xstatefulset.Sync.Config.{Config}
use xstatefulset.Sync.Rolling.{get_max_unavailable}
use xstatefulset.Sync.Update.{update_stateful_set}
use xstatefulset.Sync.Revisions.{HistoryControl, get_stateful_set_revisions}

module _ {W : Type 0} (h : HistoryControl W) (c : Config W) (set : XStatefulSet) where
  abbrev pub metric_error : Option Error
  metric_error =
      if c.max_unavailable_gate
      then elim (get_max_unavailable c set) [ ok _ ↦ none | err e ↦ some e ]
      else none

  -- The status that is written, if the set's differs from it; the completed status is returned.
  unfoldable pub update_stateful_set_status :
      XStatefulSetStatus → W → (Option Error × XStatefulSetStatus) × W
  update_stateful_set_status status world =
      let completed = complete_rolling_update set status in
      elim metric_error [
        | some e ↦ ((some e, completed), world)
        | none ↦
            if not (inconsistent_status set completed)
            then ((none, completed), world)
            else (let (error, after) = h.update_status set completed world in
                ((error, completed), after))
      ]

  abbrev pub first_error : Option Error → Option Error → Option Error
  first_error (some e) other = some e
  first_error none other = other

  pub record Performed : Type 0 where
    pub current : Option ControllerRevision
    pub update : Option ControllerRevision
    pub status : Option XStatefulSetStatus
    pub error : Option Error

  abbrev pub in_world : {A : Type 0} → (W → A × W) → Action W A
  in_world f env = let (a, after) = f env.world in (a, record env { world = after })

  unfoldable pub perform_update : List Pod → List ControllerRevision → Action W Performed
  unfolding get_stateful_set_revisions update_stateful_set_status
  perform_update pods revisions env =
      let (found, env1) = in_world (get_stateful_set_revisions h c set revisions) env in
      elim found [
        | err e ↦ (record { current = none; update = none; status = none; error = some e }, env1)
        | ok (current, update, collisions) ↦
            let ((status, error), env2) =
              update_stateful_set c set current update collisions pods env1 in
            elim status [
              | none ↦ (
                record {
                  current = some current;
                  update = some update;
                  status = none;
                  error = error;
                },
                env2,
              )
              | some s ↦
                  let ((status_error, completed), env3) =
                    in_world (update_stateful_set_status s) env2 in
                  (
                    record {
                      current = some current;
                      update = some update;
                      status = some completed;
                      error = first_error error status_error;
                    },
                    env3,
                  )
            ]
      ]

  abbrev pub from_errors : Errors → List Error
  from_errors no_errors = []
  from_errors (more_errors e es) = e ∷ from_errors es

  abbrev pub errors_of : Error → List Error
  errors_of (aggregate es) = from_errors es
  errors_of e = e ∷ []

  abbrev pub with_error : List Error → Option Error → List Error
  with_error es none = es
  with_error es (some e) = es ++ (e ∷ [])

  -- ssc.UpdateStatefulSet
  unfoldable pub update_and_truncate :
      List Pod → Action W (Option XStatefulSetStatus × Option Error)
  unfolding perform_update
  update_and_truncate pods env = elim (h.list_revisions set env.world) [
    | err e ↦ ((none, some e), env)
    | ok listed ↦
        let revisions = sort_controller_revisions listed in
        let (done, after) = perform_update pods revisions env in
        let (truncation, final) =
          in_world
            (truncate_history set.spec.revision_history_limit pods revisions done.current
              done.update h.delete_revision)
            after in
        elim done.error [
          | some e ↦ ((none, new_aggregate (with_error (errors_of e) truncation)), final)
          | none ↦ ((done.status, truncation), final)
        ]
  ]
