-- ===== src/Claims/Storage.antt =====
-- A pod's volumes and the claims of the set's templates (xstateful_set_utils.go), and the pods that
-- are built from the set's template (GetPodFromTemplate of controller_utils.go). Go visits a map in
-- no fixed order: `range` is the order in which the entries of the claims map are visited.
pub mod Conform
pub mod Matching
use xstatefulset.Base.{
  ℕ, ◌+◌, ◌≡◌, Bool, true, false, not, ◌&&◌, ◌||◌, Option, none, some, List, [], ◌∷◌, ◌++◌, map,
  Text, text_eq, ltb, leb_ℤ, if◌then◌else◌, keep, all, ℤ, pos, negsuc, pos_part, neg_part, lookup,
  insert, In,
}
use xstatefulset.Api.{
  ObjectMeta, Labels, controller_kind, new_controller_ref, Pod, Phase, unset, Volume,
  PersistentVolumeClaim, PodTemplate, XStatefulSet, UpdateStrategyType, rolling_update, on_delete,
  RollingUpdateStrategy,
}
use xstatefulset.PodUtil.{set_pod_revision}
use xstatefulset.Identity.Names.{
  get_ordinal, get_pod_name, get_start_ordinal, get_persistent_volume_claim_name, init_identity,
}

abbrev pub ClaimMap : Type 0
ClaimMap = List (Text × PersistentVolumeClaim)

abbrev pub VolumeMap : Type 0
VolumeMap = List (Text × Volume)

-- `volumes[volume.Name] = volume`, for each volume of the pod.
unfoldable pub volumes_by_name : VolumeMap → List Volume → VolumeMap
volumes_by_name volumes [] = volumes
volumes_by_name volumes (v ∷ vs) = volumes_by_name (insert v.name v volumes) vs

-- The loop's test on one template: its volume is there and names its claim.
abbrev pub volume_covers : Option Volume → Text → Bool
volume_covers none name = false
volume_covers (some v) name = elim v.claim_name [ none ↦ false | some n ↦ text_eq n name ]

unfoldable pub storage_matches : XStatefulSet → Pod → Bool
storage_matches set pod =
    let ordinal = get_ordinal pod in
    if not (leb_ℤ (pos 0) ordinal)
    then false
    else all
        (λ claim.
          volume_covers (lookup claim.meta.name (volumes_by_name [] pod.volumes))
            (get_persistent_volume_claim_name set claim ordinal))
        set.spec.volume_claim_templates

unfoldable pub add_labels : Labels → Labels → Labels
add_labels [] m = m
add_labels ((k, v) ∷ more) m = add_labels more (insert k v m)

-- The claim that a template makes for the pod with the ordinal.
unfoldable pub claim_of : XStatefulSet → ℤ → PersistentVolumeClaim → PersistentVolumeClaim
claim_of set ordinal template = record template {
  meta = record template.meta {
    name = get_persistent_volume_claim_name set template ordinal;
    namespace = set.meta.namespace;
    labels = elim template.meta.labels [
      | none ↦ some set.spec.selector
      | some m ↦ some (add_labels set.spec.selector m)
    ];
  };
}

unfoldable pub claims_from : XStatefulSet → ℤ → List PersistentVolumeClaim → ClaimMap → ClaimMap
claims_from set ordinal [] claims = claims
claims_from set ordinal (t ∷ ts) claims =
    claims_from set ordinal ts (insert t.meta.name (claim_of set ordinal t) claims)

unfoldable pub get_persistent_volume_claims : XStatefulSet → Pod → ClaimMap
get_persistent_volume_claims set pod =
    claims_from set (get_ordinal pod) set.spec.volume_claim_templates []

abbrev pub is_claimed : ClaimMap → Volume → Bool
is_claimed claims v = elim (lookup v.name claims) [ none ↦ false | some _ ↦ true ]

abbrev pub claim_volume : Text × PersistentVolumeClaim → Volume
claim_volume (name, claim) = record { name = name; claim_name = some claim.meta.name }

-- An order in which a map is visited: it has the entries of the map.
pub record IsRange (range : ClaimMap → ClaimMap) : Type 0 where
  pub visits : (m : ClaimMap) (e : Text × PersistentVolumeClaim) → In e m → In e (range m)
  pub visited : (m : ClaimMap) (e : Text × PersistentVolumeClaim) → In e (range m) → In e m

-- GetPodFromTemplate, for the set as parent and controller.
unfoldable pub get_pod_from_template : XStatefulSet → Pod
get_pod_from_template set = record {
  meta = record {
    name = [];
    namespace = [];
    uid = [];
    generation = 0;
    resource_version = [];
    labels = some set.spec.template.labels;
    owner_references = new_controller_ref set.meta controller_kind ∷ [];
    deletion_timestamp = none;
    creation_timestamp = none;
  };
  phase = unset;
  conditions = [];
  volumes = set.spec.template.volumes;
  hostname = [];
  subdomain = [];
}

-- Is the pod still wanted at the current revision? `none` is a fault at a nil partition.
unfoldable pub wants_current : XStatefulSet → ℕ → Option Bool
wants_current set ordinal =
    let start = get_start_ordinal set in
    let current = set.status.current_replicas in
    elim set.spec.rolling [
      | none ↦ elim set.spec.strategy_type [
        | rolling_update ↦ some (ltb (ordinal + neg_part current) (start + pos_part current))
        | on_delete ↦ some false
      ]
      | some strategy ↦ elim strategy.partition [
        | none ↦ none
        | some partition ↦ some (ltb ordinal (start + partition))
      ]
    ]

module _ (range : ClaimMap → ClaimMap) where
  unfoldable pub update_storage : XStatefulSet → Pod → Pod
  update_storage set pod =
      let claims = get_persistent_volume_claims set pod in
      record pod {
        volumes =
            map claim_volume (range claims) ++ keep (λ v. not (is_claimed claims v)) pod.volumes;
      }

  unfoldable pub new_stateful_set_pod : XStatefulSet → ℕ → Pod
  unfolding get_pod_from_template
  new_stateful_set_pod set ordinal =
      let pod = get_pod_from_template set in
      let named = record pod { meta = record pod.meta { name = get_pod_name set (pos ordinal) } } in
      update_storage set (init_identity set named)

  unfoldable pub new_versioned_stateful_set_pod :
      (current_set update_set : XStatefulSet) (current_revision update_revision : Text)
      → ℕ
      → Option Pod
  new_versioned_stateful_set_pod current_set update_set current_revision update_revision ordinal =
      elim (wants_current current_set ordinal) [
        | none ↦ none
        | some true ↦
            some (set_pod_revision (new_stateful_set_pod current_set ordinal) current_revision)
        | some false ↦
            some (set_pod_revision (new_stateful_set_pod update_set ordinal) update_revision)
      ]
