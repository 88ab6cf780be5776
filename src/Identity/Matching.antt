-- ===== src/Identity/Matching.antt =====
-- identityMatches and updateIdentity belong together: the update establishes the match.
use xstatefulset.Base.{
  ℕ, ◌≡◌, refl, ap, ◌≢◌, true, false, any, pos, arith, text_eq_refl, Text, some, lookup, insert,
  text_eq, lookup-insert, if◌then◌else◌, text_eq_iff,
}
use xstatefulset.Api.{Pod, XStatefulSet, Labels, stateful_set_pod_name_label, pod_index_label}
use xstatefulset.PodUtil.{labels_of}
use xstatefulset.Identity.Decimal.{int_text}
use xstatefulset.Identity.Names.{
  is_newline, get_parent_name_and_ordinal, get_ordinal, get_pod_name, identity_matches,
  update_identity,
}
use xstatefulset.Identity.RoundTrip.{get_parent_name_and_ordinal-get_pod_name, get_ordinal-lt}

different_labels : text_eq pod_index_label stateful_set_pod_name_label ≡ false
unfolding text_eq
different_labels = refl

lookup-identity_labels :
    (key name index : Text) (m : Labels)
    → lookup key (insert pod_index_label index (insert stateful_set_pod_name_label name m)) ≡ (
        if text_eq pod_index_label key
        then some index
        else if text_eq stateful_set_pod_name_label key
        then some name
        else lookup key m)
lookup-identity_labels key name index m = simp lookup-insert

update_identity-name :
    (set : XStatefulSet) (pod : Pod) (n : ℕ)
    → get_ordinal pod ≡ pos n
    → (update_identity set pod).meta.name ≡ get_pod_name set (pos n)
unfolding update_identity
update_identity-name set pod n h = ap (get_pod_name set) h

identity_matches_intro :
    (set : XStatefulSet) (pod : Pod) (n : ℕ)
    → get_parent_name_and_ordinal pod ≡ (set.meta.name, pos n)
    → pod.meta.name ≡ get_pod_name set (pos n)
    → pod.meta.namespace ≡ set.meta.namespace
    → lookup stateful_set_pod_name_label (labels_of pod.meta.labels) ≡ some pod.meta.name
    → identity_matches set pod ≡ true
unfolding identity_matches
identity_matches_intro set pod n read name space label = ground (
  arith,
  text_eq_refl set.meta.name,
  text_eq_iff pod.meta.name (get_pod_name set (pos n)),
  text_eq_iff pod.meta.namespace set.meta.namespace,
  text_eq_refl pod.meta.name,
)

-- A pod with an ordinal, after updateIdentity for a set whose name holds no line break, matches
-- the identity that the set wants, keeps its ordinal, carries the ordinal in its index label, and
-- keeps its labels under every key but the two identity labels.
pub update_identity-identity_matches :
    (set : XStatefulSet) (pod : Pod) (n : ℕ)
    → any is_newline set.meta.name ≡ false
    → get_ordinal pod ≡ pos n
    → (identity_matches set (update_identity set pod) ≡ true)
      × (get_parent_name_and_ordinal (update_identity set pod) ≡ (set.meta.name, pos n))
      × (lookup pod_index_label (labels_of (update_identity set pod).meta.labels)
          ≡ some (int_text (pos n)))
      × ((key : Text)
          → key ≢ pod_index_label
          → key ≢ stateful_set_pod_name_label
          → lookup key (labels_of (update_identity set pod).meta.labels)
            ≡ lookup key (labels_of pod.meta.labels))
unfolding update_identity
update_identity-identity_matches set pod n single ordinal =
    let named = update_identity-name set pod n ordinal in
    let read =
      get_parent_name_and_ordinal-get_pod_name set (update_identity set pod) n single
        (get_ordinal-lt pod n ordinal) named in
    (
      identity_matches_intro set (update_identity set pod) n read named refl
          (simp (lookup-identity_labels, different_labels, text_eq_refl)),
      read,
      simp (lookup-identity_labels, text_eq_refl) (rw ordinal),
      λ key other name. ground (
        arith,
        lookup-identity_labels key (get_pod_name set (get_ordinal pod)) (int_text (get_ordinal pod))
            (labels_of pod.meta.labels),
        text_eq_iff pod_index_label key,
        text_eq_iff stateful_set_pod_name_label key,
      ),
    )
