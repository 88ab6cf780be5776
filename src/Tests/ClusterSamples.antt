-- ===== src/Tests/ClusterSamples.antt =====
-- A cluster with the set of the samples, one pod of it and an orphan, an index of one pod, and an API
-- server at which one revision's name is taken.
use xstatefulset.Base.{
  ℕ, zero, suc, ◌≡◌, refl, sym, ap, subst, ◌∙◌, inl, inr, Bool, true, false, Option, none, some,
  List, [], ◌∷◌, Text, codes, text_eq, text_eq_iff, if◌then◌else◌, Bool-cases, In,
}
use xstatefulset.Api.{
  not_found, already_exists, Error, Result, ok, err, ObjectMeta, OwnerReference, Pod,
  ControllerRevision, controller_kind, new_controller_ref,
}
use xstatefulset.Tests.Samples.{web, web_0, env, revision}
use xstatefulset.RefManager.{ObjectControl, Manager}
use xstatefulset.PodIndex.{pod_controller_index_key, pod_index_keys}
use xstatefulset.PodIndex.Lookup.{IsIndex}
use xstatefulset.History.Client.{RevisionClient}
use xstatefulset.History.Creation.{IsRevisionStore}
use xstatefulset.History.Changes.{IsRetry}
use xstatefulset.History.Fake.{Indexer}
use xstatefulset.Controller.{Cluster, Selector, ControllerState}

abbrev pub first_owner : ObjectMeta → Option OwnerReference
first_owner m = by_list m.owner_references
  where
    by_list : List OwnerReference → Option OwnerReference
    by_list [] = none
    by_list (ref ∷ refs) = some ref

-- The pod web-0, owned by the set.
abbrev pub mine : Pod
mine = record web_0 {
  meta = record web_0.meta {
    owner_references = new_controller_ref web.meta controller_kind ∷ [];
    resource_version = codes "8";
  };
}

abbrev pub pod_control : ObjectControl ℕ Pod
pod_control = record {
  meta = λ (pod : Pod). pod.meta;
  get_controller_of = first_owner;
  do_patch = λ _ _ n. (none, suc n);
}

abbrev pub anything : Selector
anything = record { empty = false; matches = λ _. true }

abbrev pub pod_manager : Manager ℕ
pod_manager = record {
  controller = web.meta;
  kind = controller_kind;
  matches = λ _. true;
  can_adopt_func = some (λ n. (none, suc n));
  finalizers = [];
}

abbrev pub cluster : Cluster ℕ
cluster = record {
  get_set = λ _ _ _. ok web;
  list_sets = λ _ _. ok (web ∷ []);
  get_live_set = λ _ _ n. (ok web, n);
  as_selector = λ _. ok anything;
  key_of = λ _. ok (codes "default/web");
  split_key = λ _. ok (codes "default", codes "web");
  pods_by_index = λ _ _. ok (mine ∷ []);
  pods = pod_control;
  revision_controller = first_owner;
}

abbrev pub idle : ControllerState ℕ
idle = record { env = env; queue = [] }

abbrev pub index_key : Text
index_key = pod_controller_index_key mine.meta.namespace (first_owner mine.meta)

abbrev pub by_index : Text → Result (List Pod)
by_index key = ok (if text_eq key index_key then mine ∷ [] else [])

abbrev key_of_pod : Pod → Text
key_of_pod pod = pod_controller_index_key pod.meta.namespace (first_owner pod.meta)

only : {A : Type 0} {a b : A} → In a (b ∷ []) → a ≡ b
only (In.here e) = e
only (In.there i) = elim i [ ]

picked : (b : Bool) (pod : Pod) → In pod (if b then mine ∷ [] else []) → (b ≡ true) × (pod ≡ mine)
picked true pod i = (refl, only i)
picked false pod i = elim i [ ]

pub sample_index : IsIndex first_owner by_index (mine ∷ [])
unfolding pod_index_keys
sample_index = record {
  found = λ key. if text_eq key index_key then mine ∷ [] else [];
  looks_up = λ key. refl;
  exact = λ key pod. (
    λ i.
        let (e, same) = picked (text_eq key index_key) pod i in
        (
          subst (λ (p : Pod). In p (mine ∷ [])) (sym same) (In.here refl),
          In.here ((text_eq_iff key index_key).0 e ∙ ap key_of_pod (sym same)),
        ),
    λ (i, j).
        let same : pod ≡ mine = only i in
        subst (λ b. In pod (if b then mine ∷ [] else []))
          (sym ((text_eq_iff key index_key).1 (only j ∙ ap key_of_pod same))) i,
  );
}

-- The name of the first probe is taken.
abbrev pub taken_name : Text
taken_name = codes "web-a"

abbrev pub other_data : ControllerRevision
other_data = record (revision taken_name) { data_raw = 1 ∷ [] }

abbrev pub stored : ℕ → (namespace name : Text) → Option ControllerRevision
stored n namespace name = if text_eq name taken_name then some other_data else none

abbrev pub probe_code : Option ℕ → Text
probe_code none = codes "a"
probe_code (some zero) = codes "a"
probe_code (some (suc n)) = codes "b"

abbrev pub revision_client : RevisionClient ℕ
revision_client = record {
  list = λ _ _ _. ok [];
  get_cached = λ _ _ _. err not_found;
  get = λ namespace name n. (if text_eq name taken_name then ok other_data else err not_found, n);
  create = λ namespace (r : ControllerRevision) n.
      (if text_eq r.meta.name taken_name then err already_exists else ok r, n);
  update = λ _ r n. ((some r, none), suc n);
  delete = λ _ _ n. (none, suc n);
  patch = λ _ _ _ n. (err not_found, n);
  controller_of = first_owner;
  hash = λ raw probe. probe_code probe;
  retry_on_conflict = λ body s. body s;
}

pub once : IsRetry revision_client
once = record { last = λ body s. (s, refl) }

no_some : {r : ControllerRevision} → none ≡ some r → ⊥
no_some e = cc

some_inj : {r s : ControllerRevision} → some r ≡ some s → r ≡ s
some_inj e = cc

no_err : {r : ControllerRevision} {e : Error} → ok r ≡ err e → ⊥
no_err e = cc

pub revision_store : IsRevisionStore revision_client stored
revision_store = record {
  taken = λ namespace r old n e. elim (Bool-cases (text_eq r.meta.name taken_name)) [
    | inl x ↦ rw x refl
    | inr x ↦ absurd (no_some (ap (λ b. if b then some other_data else none) (sym x) ∙ e))
  ];
  seen = λ namespace name old n e. elim (Bool-cases (text_eq name taken_name)) [
    | inl x ↦ rw x (
        ap (λ (r : ControllerRevision). (ok r, n))
          (some_inj (ap (λ b. if b then some other_data else none) (sym x) ∙ e)))
    | inr x ↦ absurd (no_some (ap (λ b. if b then some other_data else none) (sym x) ∙ e))
  ];
  free = λ namespace r n f e q. elim (Bool-cases (text_eq r.meta.name taken_name)) [
    | inl x ↦ absurd (no_some (sym e ∙ ap (λ b. if b then some other_data else none) x))
    | inr x ↦ absurd (no_err (ap (λ b. if b then err already_exists else ok r) (sym x) ∙ q))
  ];
}

abbrev pub indexer : Indexer ℕ
indexer = record {
  list = λ _ _ _. ok [];
  key_of = λ (r : ControllerRevision). ok r.meta.name;
  get_by_key = λ _ _. ok (some (revision (codes "web-1")));
  put = λ _ n. (none, suc n);
  remove = λ _ n. (none, suc n);
  controller_of = first_owner;
  hash = λ raw probe. probe_code probe;
}
