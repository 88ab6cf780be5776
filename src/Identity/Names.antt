-- ===== src/Identity/Names.antt =====
-- Names and ordinals: how a pod's name is built and read, which ordinals a set controls, and the
-- identity labels. Positions of a set are integers, as the ordinal -1 stands for none.
use xstatefulset.Base.{
  ℕ, ◌+◌, ◌-◌, Bool, false, ◌&&◌, Option, none, some, [], ◌∷◌, ◌++◌, Text, text_eq, ◌==◌,
  if◌then◌else◌, all, any, ℤ, pos, negsuc, leb_ℤ, lookup, insert,
}
use xstatefulset.Api.{
  PersistentVolumeClaim, Pod, XStatefulSet, Labels, stateful_set_pod_name_label, pod_index_label,
}
use xstatefulset.PodUtil.{labels_of, text_or_empty}
use xstatefulset.Identity.Decimal.{is_digit, int_text, parse_int32}

abbrev pub is_newline : ℕ → Bool
is_newline c = c == 10

-- The text behind the last line break: `.` of the expression matches none.
unfoldable pub last_line : Text → Text
last_line [] = []
last_line (c ∷ s) = if any is_newline s then last_line s else if is_newline c then s else c ∷ s

-- `(.*)-`, greedy: the last dash splits the text.
unfoldable pub split_last_dash : Text → Option (Text × Text)
split_last_dash [] = none
split_last_dash (c ∷ s) = elim (split_last_dash s) [
  | some (front, back) ↦ some (c ∷ front, back)
  | none ↦ if c == b'-' then some ([], s) else none
]

abbrev pub all_digits : Text → Bool
all_digits [] = false
all_digits (c ∷ s) = all is_digit (c ∷ s)

-- statefulPodRegex.FindStringSubmatch: the two groups.
unfoldable pub find_submatch : Text → Option (Text × Text)
unfolding last_line split_last_dash
find_submatch name = elim (split_last_dash (last_line name)) [
  | none ↦ none
  | some (front, back) ↦ if all_digits back then some (front, back) else none
]

abbrev pub ordinal_or_none : Option ℕ → ℤ
ordinal_or_none none = negsuc 0
ordinal_or_none (some n) = pos n

unfoldable pub get_parent_name_and_ordinal : Pod → Text × ℤ
unfolding find_submatch parse_int32
get_parent_name_and_ordinal pod = elim (find_submatch pod.meta.name) [
  | none ↦ ([], negsuc 0)
  | some (front, back) ↦ (front, ordinal_or_none (parse_int32 back))
]

unfoldable pub get_parent_name : Pod → Text
unfolding get_parent_name_and_ordinal
get_parent_name pod = (get_parent_name_and_ordinal pod).0

unfoldable pub get_ordinal : Pod → ℤ
unfolding get_parent_name_and_ordinal
get_ordinal pod = (get_parent_name_and_ordinal pod).1

unfoldable pub get_start_ordinal : XStatefulSet → ℕ
get_start_ordinal set = elim set.spec.ordinals_start [ none ↦ 0 | some start ↦ start ]

-- start + replicas - 1, which is -1 for an empty set that starts at 0.
unfoldable pub get_end_ordinal : XStatefulSet → ℤ
unfolding get_start_ordinal
get_end_ordinal set =
    let bound = get_start_ordinal set + set.spec.replicas in
    if bound == 0 then negsuc 0 else pos (bound - 1)

unfoldable pub pod_in_ordinal_range : Pod → XStatefulSet → Bool
unfolding get_ordinal get_start_ordinal get_end_ordinal
pod_in_ordinal_range pod set =
    leb_ℤ (pos (get_start_ordinal set)) (get_ordinal pod)
    && leb_ℤ (get_ordinal pod) (get_end_ordinal set)

unfoldable pub get_pod_name : XStatefulSet → ℤ → Text
unfolding int_text
get_pod_name set ordinal = set.meta.name ++ (b'-' ∷ int_text ordinal)

unfoldable pub get_persistent_volume_claim_name : XStatefulSet → PersistentVolumeClaim → ℤ → Text
unfolding int_text
get_persistent_volume_claim_name set claim ordinal =
    claim.meta.name ++ (b'-' ∷ (set.meta.name ++ (b'-' ∷ int_text ordinal)))

unfoldable pub is_member_of : XStatefulSet → Pod → Bool
is_member_of set pod = text_eq (get_parent_name pod) set.meta.name

unfoldable pub identity_matches : XStatefulSet → Pod → Bool
identity_matches set pod =
    let (parent, ordinal) = get_parent_name_and_ordinal pod in
    leb_ℤ (pos 0) ordinal
    && text_eq set.meta.name parent
    && text_eq pod.meta.name (get_pod_name set ordinal)
    && text_eq pod.meta.namespace set.meta.namespace
    && text_eq (text_or_empty (lookup stateful_set_pod_name_label (labels_of pod.meta.labels)))
        pod.meta.name

-- The labels that updateIdentity writes.
abbrev pub identity_labels : Text → ℤ → Option Labels → Labels
identity_labels name ordinal labels =
    insert pod_index_label (int_text ordinal)
      (insert stateful_set_pod_name_label name (labels_of labels))

unfoldable pub update_identity : XStatefulSet → Pod → Pod
update_identity set pod =
    let ordinal = get_ordinal pod in
    let name = get_pod_name set ordinal in
    record pod {
      meta = record pod.meta {
        name = name;
        namespace = set.meta.namespace;
        labels = some (identity_labels name ordinal pod.meta.labels);
      };
    }

unfoldable pub init_identity : XStatefulSet → Pod → Pod
init_identity set pod =
    let named = update_identity set pod in
    record named { hostname = named.meta.name; subdomain = set.spec.service_name }
