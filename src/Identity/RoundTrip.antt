-- ===== src/Identity/RoundTrip.antt =====
-- Reading back the name of a pod that getPodName built.
use xstatefulset.Base.{
  ℕ, ◌+◌, ◌<◌, ◌≤◌, ◌≡◌, refl, ◌↔◌, Bool, true, false, some, none, [], ◌∷◌, ◌++◌, Text, ◌==◌, all,
  any, pos, arith,
}
use xstatefulset.Api.{Pod, XStatefulSet}
use xstatefulset.Identity.Decimal.{
  is_digit, decimal, int_text, int32_limit, parse_int32, parse_int32-decimal, decimal-all_digits,
  decimal-ne-nil,
}
use xstatefulset.Identity.Names.{
  is_newline, last_line, split_last_dash, all_digits, find_submatch, get_parent_name_and_ordinal,
  get_ordinal, get_pod_name, get_start_ordinal, get_end_ordinal, pod_in_ordinal_range,
}

abbrev is_dash : ℕ → Bool
is_dash c = c == b'-'

split_last_dash-none : (s : Text) → any is_dash s ≡ false → split_last_dash s ≡ none
unfolding split_last_dash
split_last_dash-none [] h = refl
split_last_dash-none (c ∷ s) h = ground (arith, split_last_dash-none s)

split_last_dash-append :
    (front back : Text)
    → any is_dash back ≡ false
    → split_last_dash (front ++ (b'-' ∷ back)) ≡ some (front, back)
unfolding split_last_dash
split_last_dash-append [] back h = ground (arith, split_last_dash-none back h)
split_last_dash-append (c ∷ front) back h = ground (arith, split_last_dash-append front back h)

last_line_single : (s : Text) → any is_newline s ≡ false → last_line s ≡ s
unfolding last_line
last_line_single [] h = refl
last_line_single (c ∷ s) h = ground arith

digits_no_dash : (s : Text) → all is_digit s ≡ true → any is_dash s ≡ false
digits_no_dash [] h = refl
digits_no_dash (c ∷ s) h = ground (arith, digits_no_dash s)

digits_no_newline : (s : Text) → all is_digit s ≡ true → any is_newline s ≡ false
digits_no_newline [] h = refl
digits_no_newline (c ∷ s) h = ground (arith, digits_no_newline s)

any_newline-append :
    (a b : Text)
    → any is_newline a ≡ false
    → any is_newline b ≡ false
    → any is_newline (a ++ b) ≡ false
any_newline-append [] b h k = k
any_newline-append (c ∷ a) b h k = ground (arith, any_newline-append a b)

all_digits-decimal : (s : Text) → all is_digit s ≡ true → (s ≡ [] → ⊥) → all_digits s ≡ true
all_digits-decimal [] h k = absurd (k refl)
all_digits-decimal (c ∷ s) h k = h

pub find_submatch-name :
    (name back : Text)
    → any is_newline name ≡ false
    → all_digits back ≡ true
    → find_submatch (name ++ (b'-' ∷ back)) ≡ some (name, back)
unfolding find_submatch
find_submatch-name name back h k =
    let digits = all_digits→all back k in
    ground (
      arith,
      last_line_single (name ++ (b'-' ∷ back))
          (any_newline-append name (b'-' ∷ back) h (ground (arith, digits_no_newline back digits))),
      split_last_dash-append name back (digits_no_dash back digits),
    )
  where
    all_digits→all : (s : Text) → all_digits s ≡ true → all is_digit s ≡ true
    all_digits→all [] e = refl
    all_digits→all (c ∷ s) e = e

-- The name that getPodName builds for an ordinal below 2^31 is read back as the set's name and
-- that ordinal, for a set whose name holds no line break.
pub get_parent_name_and_ordinal-get_pod_name :
    (set : XStatefulSet) (pod : Pod) (n : ℕ)
    → any is_newline set.meta.name ≡ false
    → n < int32_limit
    → pod.meta.name ≡ get_pod_name set (pos n)
    → get_parent_name_and_ordinal pod ≡ (set.meta.name, pos n)
unfolding get_parent_name_and_ordinal get_pod_name int_text
get_parent_name_and_ordinal-get_pod_name set pod n single small named = ground (
  arith,
  find_submatch-name set.meta.name (decimal n) single
      (all_digits-decimal (decimal n) (decimal-all_digits n) (decimal-ne-nil n)),
  parse_int32-decimal n small,
)

-- A pod whose name getPodName builds for an ordinal below 2^31, of a set whose name holds no line
-- break, lies in the ordinal range of the set exactly if its ordinal lies between the first
-- ordinal and the first ordinal plus the number of replicas, the latter excluded.
pub pod_in_ordinal_range-get_pod_name :
    (set : XStatefulSet) (pod : Pod) (n : ℕ)
    → any is_newline set.meta.name ≡ false
    → n < int32_limit
    → pod.meta.name ≡ get_pod_name set (pos n)
    → (pod_in_ordinal_range pod set ≡ true)
      ↔ (get_start_ordinal set ≤ n) × (n < get_start_ordinal set + set.spec.replicas)
unfolding pod_in_ordinal_range get_ordinal get_end_ordinal
pod_in_ordinal_range-get_pod_name set pod n single small named =
    ground (arith, get_parent_name_and_ordinal-get_pod_name set pod n single small named)

-- An ordinal that was read from a name is below 2^31.
pub get_ordinal-lt : (pod : Pod) (n : ℕ) → get_ordinal pod ≡ pos n → n < int32_limit
unfolding get_ordinal parse_int32
get_ordinal-lt pod n h = ground arith
