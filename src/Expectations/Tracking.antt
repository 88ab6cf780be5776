-- ===== src/Expectations/Tracking.antt =====
-- The counters over a run of observations: what is satisfied, and when.
use xstatefulset.Base.{
  ℕ, suc, ◌+◌, ◌-◌, ◌^◌, ◌≤◌, ◌<◌, ◌≡◌, ◌↔◌, refl, sym, ap, subst, ◌∙◌, ◌⊎◌, inl, inr, Bool, true,
  false, ◌&&◌, ◌||◌, none, some, List, [], ◌∷◌, Text, ltb, ℤ, pos, negsuc, leb_ℤ, arith, ltb→lt,
  lt→ltb,
}
use xstatefulset.Api.{ok}
use xstatefulset.Expectations.{
  Store, ControlleeExpectations, expectations_timeout, wrap_int64, down, add_int64, neg_int64,
  add_counts, fulfilled, is_expired, get_expectations, satisfied_expectations, set_expectations,
  lower_expectations, creation_observed, deletion_observed,
}

-- A store gives back what was added under a key, and what it was changed to in place.
pub record IsStore {S V : Type 0} (c : Store S V) : Type 0 where
  pub added :
      (key : Text) (v : V) (s : S)
      → ((c.add key v s).0 ≡ none) × (c.get_by_key key (c.add key v s).1 ≡ ok (some v))
  pub modified :
      (key : Text) (f : V → V) (v : V) (s : S)
      → c.get_by_key key s ≡ ok (some v)
      → c.get_by_key key (c.modify key f s) ≡ ok (some (f v))

-- What is left of `m` after `n` observations.
abbrev pub rest : ℕ → ℕ → ℤ
rest m n = down (pos m) n

rest_all : (m : ℕ) → rest m 0 ≡ pos m
rest_all m = ground arith

wrap-pos : (n : ℕ) → n < 2 ^ 63 → wrap_int64 (pos n) ≡ pos n
wrap-pos n l = ground arith

wrap-negsuc : (n : ℕ) → n < 2 ^ 63 → wrap_int64 (negsuc n) ≡ negsuc n
wrap-negsuc n l = ground arith

pub one_less :
    (m n : ℕ)
    → m < 2 ^ 63
    → n + 1 < 2 ^ 63
    → add_int64 (rest m n) (neg_int64 (pos 1)) ≡ rest m (n + 1)
one_less m n l k = ground arith

pub none_less :
    (m n : ℕ) → m < 2 ^ 63 → n < 2 ^ 63 → add_int64 (rest m n) (neg_int64 (pos 0)) ≡ rest m n
none_less m n l k = ground arith

pub is_over : (m n : ℕ) → (leb_ℤ (rest m n) (pos 0) ≡ true) ↔ m ≤ n
is_over m n = ground arith

or_iff :
    {P Q : Type 0} (a b : Bool)
    → (a ≡ true) ↔ P
    → (b ≡ true) ↔ Q
    → (x : Bool) → ((a && b) || x ≡ true) ↔ (P × Q) ⊎ (x ≡ true)
or_iff true true p q x = (λ e. inl (p.0 refl, q.0 refl), λ e. refl)
or_iff true false p q x = (λ e. inr e, λ e. elim e [ inl (_, y) ↦ absurd (no (q.1 y)) | inr y ↦ y ])
  where
    no : false ≡ true → ⊥
    no e = cc
or_iff false b p q x = (λ e. inr e, λ e. elim e [ inl (y, _) ↦ absurd (no (p.1 y)) | inr y ↦ y ])
  where
    no : false ≡ true → ⊥
    no e = cc

expired_iff :
    {X : Type 0} (a i d j t n : ℕ)
    → X ↔ ((a ≤ 0 + i) × (d ≤ 0 + j)) ⊎ (ltb t n ≡ true)
    → X ↔ ((a ≤ i) × (d ≤ j)) ⊎ (t < n)
expired_iff a i d j t n (f, g) = (
  λ x. elim (f x) [ inl (p, q) ↦ inl (omega arith, omega arith) | inr e ↦ inr (ltb→lt t n e) ],
  λ y. g (elim y [ inl (p, q) ↦ inl (omega arith, omega arith) | inr l ↦ inr (lt→ltb t n l) ]),
)

pub data Observed : Type 0 where
  creation deletion : Observed

abbrev pub creations : List Observed → ℕ
creations [] = 0
creations (creation ∷ os) = suc (creations os)
creations (deletion ∷ os) = creations os

abbrev pub deletions : List Observed → ℕ
deletions [] = 0
deletions (creation ∷ os) = deletions os
deletions (deletion ∷ os) = suc (deletions os)

module _ {S : Type 0} (c : Store S ControlleeExpectations) (law : IsStore c) (key : Text) where
  abbrev pub observe : List Observed → S → S
  observe [] s = s
  observe (creation ∷ os) s = observe os (creation_observed c key s)
  observe (deletion ∷ os) s = observe os (deletion_observed c key s)

  abbrev pub left : (adds dels seen_adds seen_dels now : ℕ) → ControlleeExpectations
  left adds dels i j now = record { add = rest adds i; del = rest dels j; timestamp = now }

  abbrev pub Holds : ControlleeExpectations → S → Type 0
  Holds e s = c.get_by_key key s ≡ ok (some e)

  lower_expectations-Holds :
      (a d : ℤ) (e : ControlleeExpectations) (s : S)
      → Holds e s
      → Holds (add_counts (neg_int64 a) (neg_int64 d) e) (lower_expectations c key a d s)
  unfolding lower_expectations get_expectations
  lower_expectations-Holds a d e s h =
      rw (h, lower_expectations) (law.modified key (add_counts (neg_int64 a) (neg_int64 d)) e s h)

  module _ (adds dels now : ℕ) (small_adds : adds < 2 ^ 63) (small_dels : dels < 2 ^ 63) where
    creation_observed-Holds :
        (i j : ℕ) (s : S)
        → i + 1 < 2 ^ 63
        → j < 2 ^ 63
        → Holds (left adds dels i j now) s
        → Holds (left adds dels (i + 1) j now) (creation_observed c key s)
    unfolding creation_observed
    creation_observed-Holds i j s l m h =
        subst
          (λ (p : ℤ × ℤ).
            Holds (record { add = p.0; del = p.1; timestamp = now }) (creation_observed c key s))
          (ap (λ x. (x, add_int64 (rest dels j) (neg_int64 (pos 0)))) (one_less adds i small_adds l)
            ∙ ap (λ y. (rest adds (i + 1), y)) (none_less dels j small_dels m))
          (lower_expectations-Holds (pos 1) (pos 0) (left adds dels i j now) s h)

    pub deletion_observed-Holds :
        (i j : ℕ) (s : S)
        → i < 2 ^ 63
        → j + 1 < 2 ^ 63
        → Holds (left adds dels i j now) s
        → Holds (left adds dels i (j + 1) now) (deletion_observed c key s)
    unfolding deletion_observed
    deletion_observed-Holds i j s l m h =
        subst
          (λ (p : ℤ × ℤ).
            Holds (record { add = p.0; del = p.1; timestamp = now }) (deletion_observed c key s))
          (ap (λ x. (x, add_int64 (rest dels j) (neg_int64 (pos 1))))
              (none_less adds i small_adds l)
            ∙ ap (λ y. (rest adds i, y)) (one_less dels j small_dels m))
          (lower_expectations-Holds (pos 0) (pos 1) (left adds dels i j now) s h)

    observe-Holds :
        (os : List Observed) (i j : ℕ) (s : S)
        → i + creations os < 2 ^ 63
        → j + deletions os < 2 ^ 63
        → Holds (left adds dels i j now) s
        → Holds (left adds dels (i + creations os) (j + deletions os) now) (observe os s)
    observe-Holds [] i j s l m h =
        subst (λ n. Holds (left adds dels n (j + 0) now) s) (plus_none i)
          (subst (λ n. Holds (left adds dels i n now) s) (plus_none j) h)
      where
        plus_none : (n : ℕ) → n ≡ n + 0
        plus_none n = omega arith
    observe-Holds (creation ∷ os) i j s l m h =
        subst
          (λ n.
            Holds (left adds dels n (j + deletions os) now)
              (observe os (creation_observed c key s)))
          (shift i (creations os))
          (observe-Holds os (i + 1) j (creation_observed c key s) (omega arith) m
            (creation_observed-Holds i j s (omega arith) (omega arith) h))
      where
        shift : (a b : ℕ) → (a + 1) + b ≡ a + suc b
        shift a b = omega arith
    observe-Holds (deletion ∷ os) i j s l m h =
        subst
          (λ n.
            Holds (left adds dels (i + creations os) n now)
              (observe os (deletion_observed c key s)))
          (shift j (deletions os))
          (observe-Holds os i (j + 1) (deletion_observed c key s) l (omega arith)
            (deletion_observed-Holds i j s (omega arith) (omega arith) h))
      where
        shift : (a b : ℕ) → (a + 1) + b ≡ a + suc b
        shift a b = omega arith

    pub set_expectations-Holds :
        (s : S)
        → Holds (left adds dels 0 0 now) (set_expectations c now key (pos adds) (pos dels) s).1
    unfolding set_expectations
    set_expectations-Holds s =
        subst
          (λ a.
            Holds (record { add = a; del = rest dels 0; timestamp = now })
              (set_expectations c now key (pos adds) (pos dels) s).1)
          (sym (rest_all adds))
          (subst
            (λ d.
              Holds (record { add = pos adds; del = d; timestamp = now })
                (set_expectations c now key (pos adds) (pos dels) s).1)
            (sym (rest_all dels))
            (law.added key (record { add = pos adds; del = pos dels; timestamp = now }) s).1)

    pub satisfied_iff :
        (i j later : ℕ) (s : S)
        → Holds (left adds dels i j now) s
        → (satisfied_expectations c later key s ≡ true)
          ↔ ((adds ≤ i) × (dels ≤ j)) ⊎ (is_expired later (left adds dels i j now) ≡ true)
    unfolding satisfied_expectations get_expectations fulfilled
    satisfied_iff i j later s h =
        rw (h, satisfied_expectations)
          (or_iff _ _ (is_over adds i) (is_over dels j) (is_expired later (left adds dels i j now)))

-- Over a store that gives back what it holds: once expectations are set to adds and dels, both below
-- 2^63, and creations and deletions are observed, in any order and fewer than 2^63 of each, the
-- controller is satisfied exactly if it saw at least as many of both, or the expectations are expired.
pub satisfied_expectations_iff :
    {S : Type 0} (c : Store S ControlleeExpectations) (law : IsStore c) (key : Text)
    (adds dels now later : ℕ) (os : List Observed) (s : S)
    → adds < 2 ^ 63
    → dels < 2 ^ 63
    → creations os < 2 ^ 63
    → deletions os < 2 ^ 63
    → let after = observe c law key os (set_expectations c now key (pos adds) (pos dels) s).1 in
      (satisfied_expectations c later key after ≡ true)
      ↔ ((adds ≤ creations os) × (dels ≤ deletions os)) ⊎ (expectations_timeout < later - now)
unfolding set_expectations is_expired
satisfied_expectations_iff c law key adds dels now later os s sa sd ca cd =
    let fresh = (set_expectations c now key (pos adds) (pos dels) s).1 in
    expired_iff adds (creations os) dels (deletions os) expectations_timeout (later - now) (
      satisfied_iff c law key adds dels now sa sd (0 + creations os) (0 + deletions os) later
        (observe c law key os fresh)
        (observe-Holds c law key adds dels now sa sd os 0 0 fresh (omega arith) (omega arith)
          (set_expectations-Holds c law key adds dels now sa sd s)))
