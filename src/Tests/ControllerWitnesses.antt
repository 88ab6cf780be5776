-- ===== src/Tests/ControllerWitnesses.antt =====
-- The theorems of the controller, the claims of pods, the index and the history at concrete inputs.
use xstatefulset.Base.{
  ◌+◌, ◌≤◌, ◌≡◌, ◌↔◌, refl, sym, ap, subst, Bool, true, false, ◌&&◌, none, some, List, [], ◌∷◌,
  codes, text_eq, arith, all, In,
}
use xstatefulset.Api.{
  ok, Pod, ControllerRevision, controller_kind, new_controller_ref, XStatefulSet, OwnerReference,
  ordered_ready,
}
use xstatefulset.PodUtil.{is_terminating}
use xstatefulset.RefManager.{start, selected, claim_object, claim_pods}
use xstatefulset.RefManager.Sound.{IsSound, claim_pods-IsSound}
use xstatefulset.PodIndex.{filter_pods_by_owner}
use xstatefulset.PodIndex.Lookup.{
  IsPlain, IsPlainRef, IsPlainStore, IsWanted, filter_pods_by_owner-exact,
}
use xstatefulset.History.{controller_revision_name}
use xstatefulset.History.Client.{Creation, create_controller_revision}
use xstatefulset.History.Creation.{holder, Ends, create_controller_revision-Ends}
use xstatefulset.History.Changes.{release_controller_revision-adopt_controller_revision}
use xstatefulset.History.Fake.{
  look_up, adopt_controller_revision, release_controller_revision, with_owners,
}
use xstatefulset.Controller.{add}
use xstatefulset.Controller.Handlers.{same_ref, add_pod, update_pod}
use xstatefulset.Controller.Syncing.{sync, process_next_work_item, worker}
use xstatefulset.Controller.Passes.{OneWrite, sync-OneWrite}
use xstatefulset.Controller.Settling.{
  IsSettled, IsHandled, process_next_work_item-IsSettled, worker-IsHandled,
}
use xstatefulset.Controller.Routing.{Names, Has}
use xstatefulset.Controller.Notices.{by_owner, lost, add_pod-adds, update_pod-adds}
use xstatefulset.Tests.Samples.{web, web_0, platform_law, config, revision, history}
use xstatefulset.Tests.ClusterSamples.{
  cluster, idle, mine, pod_control, pod_manager, first_owner, by_index, sample_index,
  revision_client, revision_store, stored, indexer,
}

abbrev pods : List Pod
pods = mine ∷ (web_0 ∷ [])

claim_pods-IsSound_example :
    let match : Pod → Bool =
      λ pod. selected pod_control pod_manager pod && all (λ (filter : Pod → Bool). filter pod) [] in
    let (result, after) = claim_pods pod_control pod_manager [] pods (start 0) in
    (after.checks ≤ 1) × IsSound pod_control pod_manager match pods result.0 (start 0) after
claim_pods-IsSound_example = claim_pods-IsSound pod_control pod_manager [] pods 0

-- The owned pod and the orphan are both claimed, with one check and one patch.
claims_both : (claim_pods pod_control pod_manager [] pods (start 0)).0 ≡ (pods, none)
unfolding claim_pods claim_object text_eq
claims_both = refl

ok_web : {s : XStatefulSet} → ok web ≡ ok s → web ≡ s
ok_web e = cc

abbrev ordered : {s : XStatefulSet} → ok web ≡ ok s → s.spec.pod_management_policy ≡ ordered_ready
ordered e = ap (λ s. s.spec.pod_management_policy) (sym (ok_web e))

sync-OneWrite_example :
    OneWrite [] (sync cluster history (config false) (codes "default/web") idle).1.env.calls
sync-OneWrite_example =
    sync-OneWrite history (config false) platform_law refl cluster (λ _ _ _ set e. ordered e)
      (codes "default/web") idle

process_next_work_item-IsSettled_example :
    let out =
      process_next_work_item cluster history (config false) (some (codes "default/web")) idle in
    (out.0 ≡ true) × IsSettled cluster history (config false) (codes "default/web") idle out.1.queue
process_next_work_item-IsSettled_example =
    process_next_work_item-IsSettled cluster history (config false) (codes "default/web") idle

worker-IsHandled_example :
    let before = worker cluster history (config false) (some (codes "default/web") ∷ []) idle in
    IsHandled cluster history
      (config false)
      (codes "default/web")
      before
      (worker cluster history
        (config false)
        (some (codes "default/web") ∷ (some (codes "default/web") ∷ (none ∷ [])))
        idle).queue
    × (worker cluster history
          (config false)
          (some (codes "default/web") ∷ (none ∷ (none ∷ [])))
          idle
        ≡ before)
worker-IsHandled_example =
    worker-IsHandled cluster history (config false) (codes "default/web" ∷ []) (codes "default/web")
      (none ∷ []) idle

abbrev owner : OwnerReference
owner = new_controller_ref web.meta controller_kind

web_is_named : Names cluster (codes "default") owner 0 web
unfolding text_eq
web_is_named = record { kind = refl; found = refl; uid = refl }

alive : is_terminating mine ≡ false
unfolding is_terminating
alive = refl

add_pod-adds_example : Has cluster (add (codes "default/web")) (add_pod cluster mine idle)
add_pod-adds_example =
    add_pod-adds cluster mine web (codes "default/web") idle alive
      (by_owner owner refl web_is_named) refl

new_version : text_eq web_0.meta.resource_version mine.meta.resource_version ≡ false
unfolding text_eq
new_version = refl

ref_changed : same_ref (first_owner web_0.meta) (first_owner mine.meta) ≡ false
unfolding same_ref
ref_changed = refl

update_pod-adds_example :
    Has cluster (add (codes "default/web")) (update_pod cluster mine web_0 idle)
update_pod-adds_example =
    update_pod-adds cluster mine web_0 web (codes "default/web") idle new_version
      (lost owner refl web_is_named ref_changed) refl

plain_store : IsPlainStore first_owner by_index (mine ∷ [])
plain_store pod (In.here e) =
    subst (λ (p : Pod). IsPlain p.meta.namespace × IsPlainRef (first_owner p.meta)) (sym e)
      (refl, (refl, refl))
plain_store pod (In.there i) = elim i [ ]

filter_pods_by_owner-exact_example :
    (found : List Pod) × (filter_pods_by_owner by_index web.meta controller_kind.kind true
      ≡ ok found)
    × ((pod : Pod)
        → In pod found
          ↔ IsWanted first_owner by_index (mine ∷ []) web.meta controller_kind.kind true pod)
filter_pods_by_owner-exact_example =
    filter_pods_by_owner-exact first_owner by_index (mine ∷ []) sample_index web.meta
      controller_kind.kind true plain_store refl refl refl refl

second_is_free :
    holder revision_client stored revision_store web.meta (revision []) 0 (0 + 1) ≡ none
unfolding text_eq controller_revision_name
second_is_free = refl

create_controller_revision-Ends_example :
    (out : Creation revision_client) × Ends revision_client stored revision_store web.meta
      (revision [])
      0
      0
      out
    × (create_controller_revision revision_client 2 web.meta (revision []) (some 0) 0
        ≡ (elim out.0.0 [ none ↦ none | some r ↦ some (r, some out.0.1) ], out.1))
create_controller_revision-Ends_example =
    create_controller_revision-Ends revision_client stored revision_store web.meta (revision []) 0 1
      2 0 (omega arith) second_is_free

abbrev base : ControllerRevision
base = revision (codes "web-1")

abbrev adopted : ControllerRevision
adopted = with_owners indexer (owner ∷ []) base

adopts :
    adopt_controller_revision indexer web.meta controller_kind base 0 ≡ ((some adopted, none), 1)
unfolding adopt_controller_revision
adopts = refl

looks_up : look_up indexer adopted 1 ≡ ok (some base)
unfolding look_up
looks_up = refl

release_controller_revision-adopt_controller_revision_example :
    (release_controller_revision indexer web.meta adopted 1).0.0 ≡ some base
release_controller_revision-adopt_controller_revision_example =
    release_controller_revision-adopt_controller_revision indexer web.meta controller_kind base
      adopted 0 1 refl adopts base looks_up
