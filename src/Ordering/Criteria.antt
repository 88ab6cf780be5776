-- ===== src/Ordering/Criteria.antt =====
-- Orders by a list of criteria, the first of which that differs decides.
use xstatefulset.Base.{
  ℕ, ◌≡◌, refl, sym, ap, ◌∙◌, inl, inr, Bool, true, false, not, Option, none, some, List, [], ◌∷◌,
  Text, text_eq, text_eq_iff, if◌then◌else◌, ltb, ◌==◌, arith, Bool-cases,
}
use xstatefulset.Ordering.{after_or_zero, same_time}

-- The first criterion by which two things differ decides.
abbrev pub lex : List (Bool × Bool) → Bool
lex [] = false
lex ((differs, less) ∷ more) = if differs then less else lex more

-- Criteria of a pair and of the pair turned round.
abbrev pub IsTurned : List (Bool × Bool) → List (Bool × Bool) → Type 0
IsTurned [] [] = Unit {0}
IsTurned ((d, l) ∷ xs) ((e, m) ∷ ys) = (d ≡ e) × (d ≡ true → l ≡ true → m ≡ false) × IsTurned xs ys
IsTurned _ _ = ⊥

pub lex-turned : (xs ys : List (Bool × Bool)) → IsTurned xs ys → lex xs ≡ true → lex ys ≡ false
lex-turned [] [] t h = refl
lex-turned [] (y ∷ ys) t h = absurd t
lex-turned (x ∷ xs) [] t h = absurd t
lex-turned ((d, l) ∷ xs) ((e, m) ∷ ys) (same, flip, t) h = elim (Bool-cases d) [
  | inl x ↦ rw (sym same ∙ x) (flip x (ap (λ b. if b then l else lex xs) (sym x) ∙ h))
  | inr x ↦ rw (sym same ∙ x) (lex-turned xs ys t (ap (λ b. if b then l else lex xs) (sym x) ∙ h))
]

pub text_eq_sym : (a b : Text) → text_eq a b ≡ text_eq b a
text_eq_sym a b = ground (arith, text_eq_iff a b, text_eq_iff b a)

pub ltb-turned : (m n : ℕ) → ltb m n ≡ true → ltb n m ≡ false
ltb-turned m n h = ground (arith, h)

pub ==_sym : (m n : ℕ) → (m == n) ≡ (n == m)
==_sym m n = ground arith

pub same_time_sym : (s t : Option ℕ) → same_time s t ≡ same_time t s
same_time_sym none none = refl
same_time_sym none (some b) = refl
same_time_sym (some a) none = refl
same_time_sym (some a) (some b) = ==_sym a b

pub after_or_zero-turned :
    (s t : Option ℕ)
    → not (same_time s t) ≡ true
    → after_or_zero s t ≡ true
    → after_or_zero t s ≡ false
unfolding after_or_zero
after_or_zero-turned none none d h = absurd (cc)
after_or_zero-turned none (some b) d h = refl
after_or_zero-turned (some a) none d h = absurd (cc)
after_or_zero-turned (some a) (some b) d h = ltb-turned b a h
