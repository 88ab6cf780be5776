-- ===== src/History/Creation.antt =====
-- The loop of CreateControllerRevision: it ends, at the first name that is free or holds the data.
use xstatefulset.Base.{
  ℕ, ◌+◌, ◌≤◌, ◌<◌, zero, suc, ◌≡◌, refl, sym, ap, subst, ◌∙◌, ◌⊎◌, inl, inr, true, false, Option,
  none, some, Text, text_eq, arith, Bool-cases, Option-cases, if◌then◌else◌,
}
use xstatefulset.Api.{
  Error, already_exists, is_already_exists, Result, ok, err, Result-cases, ObjectMeta,
  ControllerRevision,
}
use xstatefulset.History.Client.{
  RevisionClient, Creation, probe_name, renamed, resolve_collision, create_loop,
  create_controller_revision,
}

-- The API server keeps revisions by name: it refuses to create one under a name that is taken, and
-- shows the one that has the name; under a free name it does not complain of another.
pub record IsRevisionStore {W : Type 0} (c : RevisionClient W)
    (stored : W → (namespace name : Text) → Option ControllerRevision) : Type 0 where
  pub taken :
      (namespace : Text) (r old : ControllerRevision) (world : W)
      → stored world namespace r.meta.name ≡ some old
      → c.create namespace r world ≡ (err already_exists, world)
  pub seen :
      (namespace name : Text) (old : ControllerRevision) (world : W)
      → stored world namespace name ≡ some old
      → c.get namespace name world ≡ (ok old, world)
  pub free :
      (namespace : Text) (r : ControllerRevision) (world : W) (e : Error)
      → stored world namespace r.meta.name ≡ none
      → (c.create namespace r world).0 ≡ err e
      → is_already_exists e ≡ false

module _ {W : Type 0} (c : RevisionClient W)
    (stored : W → (namespace name : Text) → Option ControllerRevision)
    (law : IsRevisionStore c stored) (parent : ObjectMeta) (revision : ControllerRevision)
    (world : W) where
  -- What stands under the name that a collision count gives.
  abbrev pub holder : ℕ → Option ControllerRevision
  holder count = stored world parent.namespace (probe_name c parent revision count)

  abbrev pub attempt : ℕ → Result ControllerRevision × W
  attempt count =
      c.create parent.namespace (renamed (probe_name c parent revision count) revision) world

  abbrev pub IsOther : ℕ → Type 0
  IsOther count =
      (old : ControllerRevision) × (holder count ≡ some old)
      × (text_eq old.data_raw revision.data_raw ≡ false)

  -- How the loop ends: at the first name that is free, with what its creation gives, or that holds a
  -- revision with the same data, with that revision; all names before it hold other data.
  pub data Ends (first : ℕ) (out : Creation c) : Type 0 where
    found :
        (last : ℕ) (old : ControllerRevision)
        → first ≤ last
        → ((i : ℕ) → first ≤ i → i < last → IsOther i)
        → holder last ≡ some old
        → text_eq old.data_raw revision.data_raw ≡ true
        → out ≡ ((some (ok old), last), world)
        → Ends first out
    made :
        (last : ℕ)
        → first ≤ last
        → ((i : ℕ) → first ≤ i → i < last → IsOther i)
        → holder last ≡ none
        → out ≡ ((some (attempt last).0, last), (attempt last).1)
        → Ends first out

  at_free :
      (fuel count : ℕ)
      → holder count ≡ none
      → create_loop c (suc fuel) parent revision count world
        ≡ ((some (attempt count).0, count), (attempt count).1)
  unfolding create_loop
  at_free fuel count h = elim (Result-cases (attempt count).0) [
    | inl (r, q) ↦ rw (q, create_loop) refl
    | inr (e, q) ↦ rw (q, law.free parent.namespace _ world e h q, create_loop) refl
  ]

  first : {A : Type 0} {x y : A × W} → x ≡ y → x.0 ≡ y.0
  first e = ap (λ p. p.0) e

  second : {A : Type 0} {x y : A × W} → x ≡ y → x.1 ≡ y.1
  second e = ap (λ p. p.1) e

  collision :
      (again : W → Creation c) (count : ℕ) (clone old : ControllerRevision)
      → stored world parent.namespace clone.meta.name ≡ some old
      → resolve_collision c again parent clone count world ≡ (
          if text_eq old.data_raw clone.data_raw
          then ((some (ok old), count), world)
          else again world)
  unfolding resolve_collision
  collision again count clone old h =
      let e = law.seen parent.namespace clone.meta.name old world h in
      rw (first e, second e, resolve_collision) refl

  at_taken :
      (fuel count : ℕ) (old : ControllerRevision)
      → holder count ≡ some old
      → create_loop c (suc fuel) parent revision count world ≡ (
          if text_eq old.data_raw revision.data_raw
          then ((some (ok old), count), world)
          else create_loop c fuel parent revision (count + 1) world)
  unfolding create_loop
  at_taken fuel count old h =
      let clone = renamed (probe_name c parent revision count) revision in
      let e = law.taken parent.namespace clone old world h in
      rw (first e, second e, create_loop)
        (collision (create_loop c fuel parent revision (count + 1)) count clone old h)

  le-split : (a b : ℕ) → a ≤ b → (a ≡ b) ⊎ (a + 1 ≤ b)
  le-split zero zero l = inl refl
  le-split zero (suc b) l = inr (omega arith)
  le-split (suc a) zero l = absurd (omega arith)
  le-split (suc a) (suc b) l = elim (le-split a b (omega arith)) [
    | inl e ↦ inl (omega arith)
    | inr k ↦ inr (omega arith)
  ]

  from :
      (count last : ℕ)
      → IsOther count
      → ((i : ℕ) → count + 1 ≤ i → i < last → IsOther i)
      → (i : ℕ) → count ≤ i
      → i < last
      → IsOther i
  from count last o before i l m = elim (le-split count i l) [
    | inl e ↦ subst IsOther e o
    | inr k ↦ before i k m
  ]

  abbrev same : ControllerRevision → ℕ → Creation c
  same old count = ((some (ok old), count), world)

  abbrev later : ℕ → ℕ → Creation c
  later fuel count = create_loop c fuel parent revision (count + 1) world

  weaken-Ends :
      (count : ℕ) (out : Creation c) → IsOther count → Ends (count + 1) out → Ends count out
  weaken-Ends count out o (found last old l before h d e) =
      found last old (omega arith) (from count last o before) h d e
  weaken-Ends count out o (made last l before h e) =
      made last (omega arith) (from count last o before) h e

  create_loop-Ends :
      (k fuel count : ℕ)
      → k < fuel
      → holder (count + k) ≡ none
      → Ends count (create_loop c fuel parent revision count world)
  create_loop-Ends k zero count l h = absurd (omega arith)
  create_loop-Ends k (suc fuel) count l h = elim (Option-cases (holder count)) [
    | inl n ↦ made count (omega arith) (λ i a b. absurd (omega arith)) n (at_free fuel count n)
    | inr (old, q) ↦ elim (Bool-cases (text_eq old.data_raw revision.data_raw)) [
      | inl d ↦
          found count old (omega arith) (λ i a b. absurd (omega arith)) q d
            (at_taken fuel count old q ∙ ap (λ b. if b then same old count else later fuel count) d)
      | inr d ↦
          subst (Ends count)
            (sym (
              at_taken fuel count old q
              ∙ ap (λ b. if b then same old count else later fuel count) d))
            (weaken-Ends count _ (old, q, d)
              (further (λ n. create_loop-Ends n fuel (count + 1)) k l h q))
    ]
  ]
    where
      sums : (a k : ℕ) → a + suc k ≡ (a + 1) + k
      sums a k = omega arith

      further :
          {old : ControllerRevision}
          → ((n : ℕ)
              → n < fuel
              → holder ((count + 1) + n) ≡ none
              → Ends (count + 1) (later fuel count))
          → (k : ℕ) → k < suc fuel
          → holder (count + k) ≡ none
          → holder count ≡ some old
          → Ends (count + 1) (later fuel count)
      further ih zero l h q = absurd (ground (arith, h, q))
      further ih (suc k) l h q = ih k (omega arith) (subst (λ n. holder n ≡ none) (sums count k) h)

-- Over an API server that keeps revisions by name, where the name for the collision count plus k is
-- free, k + 1 rounds of CreateControllerRevision's loop are enough: it ends, with a collision count
-- that is not lower, at the first name that is free, with what its creation gave, or that holds a
-- revision with the same data, with that revision; every name passed over holds other data.
pub create_controller_revision-Ends :
    {W : Type 0} (c : RevisionClient W)
    (stored : W → (namespace name : Text) → Option ControllerRevision)
    (law : IsRevisionStore c stored) (parent : ObjectMeta) (revision : ControllerRevision)
    (world : W) (k fuel count : ℕ)
    → k < fuel
    → holder c stored law parent revision world (count + k) ≡ none
    → (out : Creation c) × Ends c stored law parent revision world count out
      × (create_controller_revision c fuel parent revision (some count) world
          ≡ (elim out.0.0 [ none ↦ none | some r ↦ some (r, some out.0.1) ], out.1))
unfolding create_controller_revision
create_controller_revision-Ends c stored law parent revision world k fuel count l h =
    (_, create_loop-Ends c stored law parent revision world k fuel count l h, refl)
