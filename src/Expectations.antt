-- ===== src/Expectations.antt =====
-- What a controller waits for before it syncs again (pkg/controller/controller_utils.go): counters of
-- creations and deletions per key, and the deletions expected by UID. cache.Store is a parameter; a
-- counter that the code changes in the store is changed in place (`modify`). Counters are int64.
pub mod Tracking
pub mod Uids
use xstatefulset.Base.{
  ℕ, zero, suc, ◌+◌, ◌-◌, ◌*◌, ◌%◌, ◌^◌, Bool, true, false, not, ◌&&◌, ◌||◌, Option, none, some,
  List, [], ◌∷◌, Text, text_eq, if◌then◌else◌, ltb, leb, any, keep, length, ℤ, pos, negsuc, leb_ℤ,
}
use xstatefulset.Api.{Error, Result, ok, err}
use xstatefulset.PodUtil.{nanos_per_second}

-- cache.Store over objects that know their keys; `modify` changes the object of a key in place.
pub record Store (S V : Type 0) : Type 0 where
  pub get_by_key : Text → S → Result (Option V)
  pub add : Text → V → S → Option Error × S
  pub delete : Text → S → Option Error × S
  pub modify : Text → (V → V) → S → S

-- x + n and x - n on int64, with the wrap-around.
abbrev pub wrap_int64 : ℤ → ℤ
wrap_int64 (pos n) =
    let m = n % 2 ^ 64 in if ltb m (2 ^ 63) then pos m else negsuc ((2 ^ 64 - m) - 1)
wrap_int64 (negsuc n) =
    let m = n % 2 ^ 64 in if ltb m (2 ^ 63) then negsuc m else pos ((2 ^ 64 - m) - 1)

abbrev pub down : ℤ → ℕ → ℤ
down (pos m) n = if leb n m then pos (m - n) else negsuc ((n - m) - 1)
down (negsuc m) n = negsuc (m + n)

abbrev pub up : ℤ → ℕ → ℤ
up (pos m) n = pos (m + n)
up (negsuc m) n = if leb n m then negsuc (m - n) else pos ((n - m) - 1)

abbrev pub add_int64 : ℤ → ℤ → ℤ
add_int64 x (pos n) = wrap_int64 (up x n)
add_int64 x (negsuc n) = wrap_int64 (down x (n + 1))

-- `-n` on int64.
abbrev pub neg_int64 : ℤ → ℤ
neg_int64 (pos zero) = pos zero
neg_int64 (pos (suc n)) = negsuc n
neg_int64 (negsuc n) = wrap_int64 (pos (n + 1))

pub record ControlleeExpectations : Type 0 where
  pub add : ℤ
  pub del : ℤ
  pub timestamp : ℕ

-- ExpectationsTimeout, in nanoseconds.
abbrev pub expectations_timeout : ℕ
expectations_timeout = 5 * (60 * nanos_per_second)

-- ControlleeExpectations.Add
abbrev pub add_counts : (add del : ℤ) → ControlleeExpectations → ControlleeExpectations
add_counts add del e = record e { add = add_int64 e.add add; del = add_int64 e.del del }

unfoldable pub fulfilled : ControlleeExpectations → Bool
fulfilled e = leb_ℤ e.add (pos 0) && leb_ℤ e.del (pos 0)

-- `now` is the time of the real clock, which does not run backwards.
unfoldable pub is_expired : (now : ℕ) → ControlleeExpectations → Bool
is_expired now e = ltb expectations_timeout (now - e.timestamp)

module _ {S : Type 0} (c : Store S ControlleeExpectations) where
  unfoldable pub get_expectations : Text → S → Result (Option ControlleeExpectations)
  get_expectations key s = c.get_by_key key s

  unfoldable pub delete_expectations : Text → S → S
  delete_expectations key s = elim (c.get_by_key key s) [
    | err e ↦ s
    | ok none ↦ s
    | ok (some exp) ↦ (c.delete key s).1
  ]

  unfoldable pub satisfied_expectations : (now : ℕ) → Text → S → Bool
  unfolding get_expectations fulfilled is_expired
  satisfied_expectations now key s = elim (get_expectations key s) [
    | err e ↦ true
    | ok none ↦ true
    | ok (some exp) ↦ fulfilled exp || is_expired now exp
  ]

  unfoldable pub set_expectations : (now : ℕ) → Text → (add del : ℤ) → S → Option Error × S
  set_expectations now key add del s =
      c.add key (record { add = add; del = del; timestamp = now }) s

  unfoldable pub expect_creations : (now : ℕ) → Text → ℤ → S → Option Error × S
  unfolding set_expectations
  expect_creations now key adds s = set_expectations now key adds (pos 0) s

  unfoldable pub expect_deletions : (now : ℕ) → Text → ℤ → S → Option Error × S
  unfolding set_expectations
  expect_deletions now key dels s = set_expectations now key (pos 0) dels s

  unfoldable pub raise_expectations : Text → (add del : ℤ) → S → S
  unfolding get_expectations
  raise_expectations key add del s = elim (get_expectations key s) [
    | err e ↦ s
    | ok none ↦ s
    | ok (some exp) ↦ c.modify key (add_counts add del) s
  ]

  unfoldable pub lower_expectations : Text → (add del : ℤ) → S → S
  unfolding get_expectations
  lower_expectations key add del s = elim (get_expectations key s) [
    | err e ↦ s
    | ok none ↦ s
    | ok (some exp) ↦ c.modify key (add_counts (neg_int64 add) (neg_int64 del)) s
  ]

  unfoldable pub creation_observed : Text → S → S
  unfolding lower_expectations
  creation_observed key s = lower_expectations key (pos 1) (pos 0) s

  unfoldable pub deletion_observed : Text → S → S
  unfolding lower_expectations
  deletion_observed key s = lower_expectations key (pos 0) (pos 1) s
