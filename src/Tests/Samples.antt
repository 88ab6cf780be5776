-- ===== src/Tests/Samples.antt =====
-- A set with two replicas, a healthy pod of it, and a platform whose calls succeed.
use xstatefulset.Base.{ℕ, pos, Bool, false, none, some, List, [], ◌∷◌, Text, codes, refl}
use xstatefulset.Api.{
  not_found, ok, err, ObjectMeta, Phase, running, unset, PodCondition, cond_true, Pod,
  PersistentVolumeClaim, ControllerRevision, ordered_ready, rolling_update, retain, delete,
  XStatefulSetStatus, XStatefulSet, stateful_set_revision_label,
}
use xstatefulset.Claims.Storage.{IsRange}
use xstatefulset.PodControl.Platform.{ObjectManager, Platform, IsPlatform, Env}
use xstatefulset.Sync.Config.{Config}
use xstatefulset.Sync.Update.{Plan}
use xstatefulset.Batch.{IsSchedule}
use xstatefulset.Defaults.{RawSpec}
use xstatefulset.Sync.Revisions.{HistoryControl}

abbrev pub meta : Text → Text → ObjectMeta
meta name uid = record {
  name = name;
  namespace = codes "default";
  uid = uid;
  generation = 1;
  resource_version = codes "7";
  labels = some ((stateful_set_revision_label, codes "web-1") ∷ []);
  owner_references = [];
  deletion_timestamp = none;
  creation_timestamp = some 5;
}

abbrev pub no_status : XStatefulSetStatus
no_status = record {
  observed_generation = 0;
  replicas = 2;
  ready_replicas = 2;
  current_replicas = pos 0;
  updated_replicas = 2;
  available_replicas = 2;
  current_revision = codes "web-1";
  update_revision = codes "web-2";
  collision_count = none;
}

abbrev pub template : PersistentVolumeClaim
template = record { meta = meta (codes "data") (codes "none") }

abbrev pub web : XStatefulSet
web = record {
  meta = meta (codes "web") (codes "uid-set");
  spec = record {
    replicas = 2;
    selector = (codes "app", codes "web") ∷ [];
    template = record { labels = (codes "app", codes "web") ∷ []; volumes = [] };
    volume_claim_templates = template ∷ [];
    service_name = codes "web";
    pod_management_policy = ordered_ready;
    strategy_type = rolling_update;
    rolling = some (record { partition = some 0; max_unavailable = none });
    revision_history_limit = pos 10;
    min_ready_seconds = 0;
    retention_policy = some (record { when_deleted = retain; when_scaled = delete });
    ordinals_start = none;
  };
  status = no_status;
}

abbrev pub ready : PodCondition
ready = record {
  type = codes "Ready";
  status = cond_true;
  reason = [];
  message = [];
  last_probe_time = none;
  last_transition_time = some 1;
}

abbrev pub pod_at : Text → Phase → List PodCondition → Pod
pod_at name phase conditions = record {
  meta = meta name name;
  phase = phase;
  conditions = conditions;
  volumes = [];
  hostname = name;
  subdomain = codes "web";
}

abbrev pub web_0 : Pod
web_0 = pod_at (codes "web-0") running (ready ∷ [])

abbrev pub web_1 : Pod
web_1 = pod_at (codes "web-1") unset []

abbrev pub web_5 : Pod
web_5 = pod_at (codes "web-5") running (ready ∷ [])

abbrev pub manager : ObjectManager ℕ
manager = record {
  do_create_pod = λ _ n. (none, n);
  get_pod = λ _ _ _. err not_found;
  do_update_pod = λ _ n. (none, n);
  do_delete_pod = λ _ n. (none, n);
  do_create_claim = λ _ n. (none, n);
  get_claim = λ _ _ _. err not_found;
  do_update_claim = λ _ n. (none, n);
}

-- A platform that tries every closure once.
abbrev pub platform : Platform ℕ
platform = record { manager = manager; retry_on_conflict = λ body a. body a; range = λ m. m }

abbrev pub same_range : IsRange (λ m. m)
same_range = record { visits = λ m e h. h; visited = λ m e h. h }

abbrev pub platform_law : IsPlatform platform
platform_law = record { retries = λ body P a keeps h. (a, h, refl); visits = same_range }

abbrev pub same_order : IsSchedule (λ ks. ks)
same_order = record { same_length = λ ks. refl; calls = λ ks k m. m; called = λ ks k m. m }

abbrev pub config : Bool → Config ℕ
config gate = record {
  platform = platform;
  max_unavailable_gate = gate;
  now = 10;
  scaled_value = λ _ _ _. ok (pos 2);
  apply_revision = λ set _. ok set;
  schedule = λ ks. ks;
}

abbrev pub env : Env ℕ
env = record { world = 0; calls = [] }

abbrev pub revision : Text → ControllerRevision
revision name = record { meta = meta name name; revision = pos 1; data_raw = [] }

abbrev pub plan : Plan
plan = record { update_set = web; replicas = web_0 ∷ (web_1 ∷ []); condemned = []; first = none }

abbrev pub revisions : List ControllerRevision
revisions = revision (codes "web-1") ∷ (revision (codes "web-3") ∷ (revision (codes "web-4") ∷ []))

abbrev pub raw_spec : RawSpec
raw_spec = record {
  pod_management_policy = none;
  strategy_type = none;
  rolling = none;
  retention_policy = none;
  replicas = none;
  revision_history_limit = none;
}

abbrev pub history : HistoryControl ℕ
history = record {
  list_revisions = λ _ _. ok revisions;
  create_revision = λ _ r n w. ((ok r, n), w);
  update_revision = λ r number w. (ok (record r { revision = number }), w);
  delete_revision = λ _ w. (none, w);
  adopt_revision = λ _ r w. (ok r, w);
  recall = λ _ w. (false, w);
  remember = λ _ w. w;
  new_revision = λ _ _ _. ok (revision (codes "web-1"));
  set_defaults = λ set. set;
  update_status = λ _ _ w. (none, w);
  semantic_comparison_gate = false;
}
