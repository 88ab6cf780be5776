-- ===== src/Lib.antt =====
-- The XStatefulSet controller: a Kubernetes controller that keeps, for each XStatefulSet, a sequence
-- of pods with stable names and their own persistent volume claims.
--
-- The parts, with their files in this library and in the repository:
--   Defaults    SetDefaults_XStatefulSet of api/apps/v1/defaults.go.
--   PodUtil     the predicates on one pod of pkg/controller/utils/pod.go and of
--               pkg/controller/xstatefulset/xstateful_set_utils.go.
--   Identity    names, ordinals and identity labels of xstateful_set_utils.go.
--   Claims      owner references of claims under the retention policy, volumes and claims of a pod,
--               and new pods (xstateful_set_utils.go; GetPodFromTemplate of
--               pkg/controller/controller_utils.go).
--   Status      computeReplicaStatus and updateStatus of
--               pkg/controller/xstatefulset/xstateful_set_control.go; inconsistentStatus and
--               completeRollingUpdate of xstateful_set_utils.go.
--   Batch       slowStartBatch and runForAll of xstateful_set_control.go.
--   PodControl  pkg/controller/xstatefulset/xstateful_pod_control.go.
--   History     pkg/controller/history/controller_history.go: names, order and equality of
--               controller revisions, realHistory (Client), fakeHistory (Fake); newRevision,
--               nextRevision, and truncateHistory of xstateful_set_control.go.
--   Sync        the control loop of xstateful_set_control.go: Config (its parameters), Partition
--               (replicas and condemned pods), Replica (processReplica, processCondemned), Rolling
--               (the rolling update), Update (updateStatefulSet), Places and
--               Ordinals (the ordinals of its replicas), Descending (its condemned pods),
--               Revisions (getStatefulSetRevisions; its outcomes in Outcomes), Perform (UpdateStatefulSet,
--               performUpdate, updateStatefulSetStatus).
--   RefManager  pkg/controller/controller_ref_manager.go: ClaimObject and the three managers.
--   PodIndex    PodControllerIndexKey and FilterPodsByOwner of controller_utils.go.
--   Expectations  the expectations of controller_utils.go, with the tracking by UID.
--   Availability  the pod filters and the next availability check of controller_utils.go.
--   Ordering    the orders ActivePods and ByLogging of controller_utils.go.
--   StatusUpdater  pkg/controller/xstatefulset/xstateful_set_status_updater.go.
--   Certificates  pkg/webhook/cert/secret.go and generator.go: the certificate of the webhook server,
--               as a run and call by call (Steps), and the CA bundles of the configurations.
--   Controller  pkg/controller/xstatefulset/xstateful_set.go: the pod handlers (Handlers), sync and
--               the worker (Syncing), with GetPodStatefulSets of
--               client-go/listers/apps/v1/xstatefulset_expansion.go and AdoptOrphanRevisions of
--               xstateful_set_control.go.
--   Api, Base   the API types of api/apps/v1/types.go with the fields that the controller reads, and
--               the shared helpers.
--   Tests       sample objects, a sample platform, and the theorems at these.
-- Sync calls Batch with Replica's steps, these call PodControl, and that calls Identity and Claims;
-- Perform calls Revisions, Sync.Update, History and Status. Controller.Syncing looks the pods up
-- with PodIndex, claims them with RefManager, and calls Perform.
--
-- Definitions are named after the Go functions, in snake case; ssc.UpdateStatefulSet is
-- Sync.Perform.update_and_truncate, since update_stateful_set is updateStatefulSet. An action takes
-- the state of the world with a log of the calls made so far (the last one first) and returns both
-- changed. The log is an instrument: no code reads it. An error is a value; where the code would
-- panic at a nil pointer, the error is nil_pointer.
--
-- Parameters: the API server and the listers (ObjectManager, HistoryControl, over any state W),
-- retry.RetryOnConflict, the order in which Go visits a map (range), the order of the goroutines of
-- one batch (schedule), intstr.GetScaledValueFromIntOrPercent, the strategic merge patch of
-- ApplyRevision, the JSON patch and the hash of a revision, the cache of equal revisions, the two
-- feature gates, and, of apimachinery and client-go, GetControllerOf, IsControlledBy,
-- LabelSelectorAsSelector, the keys of objects, indexers and stores, and the crypto packages. What is assumed of them stands in
-- IsPlatform, IsRange, IsSchedule, IsHistory, IsDeletion, IsIndex, IsRevisionStore, IsStore, IsRetry, IsSecretStore
-- and IsConfigStore. The work queue is
-- the log of the calls that it gets; what it delivers, keys or the shutdown, is an input. A patch is a value, not JSON.
--
-- Choices: a call of a batch is one step, so calls do not interleave inside; the clock is read once
-- per sync; counts, ordinals and seconds are natural numbers, and the counters, int32 in the code,
-- do not wrap. Ordinals are parsed up to 2^31 - 1, as the code does. A set is taken after defaulting,
-- so its pointers are values, except for the partition. slowStartBatch recurs on a number one above
-- the calls that are left; each batch but the last makes a call, so that is enough. The loops of
-- CreateControllerRevision take fuel; one round more than the collisions is enough (History.Creation).
-- Collision counts, int32 in the code, do not wrap; the counters of the expectations wrap at 2^64. Decimal digits
-- of n recur on n + 1.
--
-- Not modelled: NewStatefulSetController and Run (registration and start-up), the orderings of other
-- objects and the pod, node and replica set clients in controller_utils.go, the webhook's
-- server, start-up, metrics, and generated code. The finalizers of the pod patches stand
-- in the Manager; the other two managers have none. Left out of the objects: the status's selector
-- and conditions, annotations, and the fields of a pod template but labels and volumes.
mod Base
mod Api
pub mod Defaults
pub mod PodUtil
pub mod Identity
pub mod Claims
pub mod Status
pub mod Batch
pub mod PodControl
pub mod History
pub mod RefManager
pub mod PodIndex
pub mod Expectations
pub mod Availability
pub mod Ordering
pub mod StatusUpdater
pub mod Certificates
pub mod Sync
pub mod Controller
mod Tests
