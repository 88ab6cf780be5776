-- ===== src/Base/Searches.antt =====
-- What a search through a list finds: the last entry, the last that passes a test, and the first.
use mathlib.Core.Path.{◌≡◌, sym, subst}
use mathlib.Core.Logic.{◌≢◌, ◌⊎◌, inl, inr}
use mathlib.Core.Bool.{Bool, true, false}
use mathlib.Core.List.{List, [], ◌∷◌}
use mathlib.Core.Option.{none, some}
use native.Mathlib.Omega.{arith}
use xstatefulset.Base.Tests.{if◌then◌else◌, Bool-cases}
use xstatefulset.Base.Lists.{keep, find?, last?, All, In}

module _ {A : Type 0} where
  last?-cons :
      (y : A) (ys : List A) {x : A} → last? (y ∷ ys) ≡ some x → (y ≡ x) ⊎ (last? ys ≡ some x)
  last?-cons y [] e = inl cc
  last?-cons y (z ∷ zs) e = inr e

  last?-some : (y : A) (ys : List A) → last? (y ∷ ys) ≢ none
  last?-some y [] e = cc
  last?-some y (z ∷ zs) e = last?-some z zs e

  last?-In : (xs : List A) {x : A} → last? xs ≡ some x → In x xs
  last?-In [] e = absurd (cc)
  last?-In (y ∷ ys) e = elim (last?-cons y ys e) [
    | inl q ↦ In.here (sym q)
    | inr q ↦ In.there (last?-In ys q)
  ]

  pub In-last? : (xs : List A) {x : A} → In x xs → last? xs ≢ none
  In-last? [] m = elim m [ ]
  In-last? (y ∷ ys) m = last?-some y ys

  pub last?-keep :
      (p : A → Bool) (xs : List A) {x : A} → last? (keep p xs) ≡ some x → In x xs × (p x ≡ true)
  last?-keep p [] e = absurd (cc)
  last?-keep p (y ∷ ys) {x} e = elim (Bool-cases (p y)) [
    | inr f ↦
        let (m, q) =
          last?-keep p ys
            (subst (λ b. last? (if b then y ∷ keep p ys else keep p ys) ≡ some x) f e) in
        (In.there m, q)
    | inl f ↦
        elim (last?-cons y (keep p ys)
          (subst (λ b. last? (if b then y ∷ keep p ys else keep p ys) ≡ some x) f e)) [
            | inl q ↦ (In.here (sym q), subst (λ z. p z ≡ true) q f)
            | inr q ↦ let (m, r) = last?-keep p ys q in (In.there m, r)
          ]
  ]

  pub last?-keep-none :
      (p : A → Bool) (xs : List A) → last? (keep p xs) ≡ none → All (λ x. p x ≡ false) xs
  last?-keep-none p [] e = tt
  last?-keep-none p (y ∷ ys) e = elim (Bool-cases (p y)) [
    | inl f ↦ absurd (
        last?-some y (keep p ys)
          (subst (λ b. last? (if b then y ∷ keep p ys else keep p ys) ≡ none) f e))
    | inr f ↦ (
      f,
      last?-keep-none p ys (subst (λ b. last? (if b then y ∷ keep p ys else keep p ys) ≡ none) f e),
    )
  ]

  pub find?-some :
      (p : A → Bool) (xs : List A) {x : A} → find? p xs ≡ some x → In x xs × (p x ≡ true)
  find?-some p [] e = absurd (cc)
  find?-some p (y ∷ ys) {x} e = elim (Bool-cases (p y)) [
    | inl f ↦ let q : y ≡ x = ground (arith, e, f) in (In.here (sym q), subst (λ z. p z ≡ true) q f)
    | inr f ↦ let (m, q) = find?-some p ys (ground (arith, e, f)) in (In.there m, q)
  ]

  pub find?-all : (p : A → Bool) (xs : List A) → find? p xs ≡ none → All (λ x. p x ≡ false) xs
  find?-all p [] e = tt
  find?-all p (y ∷ ys) e = elim (Bool-cases (p y)) [
    | inl f ↦ absurd (ground (arith, e, f))
    | inr f ↦ (f, find?-all p ys (ground (arith, e, f)))
  ]
