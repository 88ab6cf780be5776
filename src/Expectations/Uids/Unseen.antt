-- ===== src/Expectations/Uids/Unseen.antt =====
-- Sets of keys: insertion, removal, and what is left once some keys were seen.
use xstatefulset.Base.{
  ◌+◌, ◌≡◌, ◌↔◌, refl, sym, ap, subst, ◌∙◌, inl, inr, Bool, true, false, ◌&&◌, List, [], ◌∷◌, Text,
  text_eq, text_eq_iff, length, all, arith, Bool-cases,
}
use xstatefulset.Expectations.Uids.{member, insert_text, to_set, remove_text}

-- The keys of the list, less those that were seen.
abbrev pub unseen : List Text → List Text → List Text
unseen [] keys = keys
unseen (x ∷ seen) keys = unseen seen (remove_text x keys)

-- No key stands twice.
abbrev pub IsDistinct : List Text → Type 0
IsDistinct [] = Unit {0}
IsDistinct (x ∷ xs) = (member x xs ≡ false) × IsDistinct xs

insert_text-IsDistinct : (x : Text) (xs : List Text) → IsDistinct xs → IsDistinct (insert_text x xs)
insert_text-IsDistinct x xs h = elim (Bool-cases (member x xs)) [
  | inl e ↦ rw e h
  | inr e ↦ rw e (e, h)
]

pub to_set-IsDistinct : (xs : List Text) → IsDistinct (to_set xs)
to_set-IsDistinct [] = tt
to_set-IsDistinct (x ∷ xs) = insert_text-IsDistinct x (to_set xs) (to_set-IsDistinct xs)

pub remove_text-none : (x : Text) (xs : List Text) → member x xs ≡ false → remove_text x xs ≡ xs
remove_text-none x [] e = refl
remove_text-none x (y ∷ ys) e = ground (arith, e, remove_text-none x ys)

member-remove_text :
    (x y : Text) (xs : List Text) → member y xs ≡ false → member y (remove_text x xs) ≡ false
member-remove_text x y [] e = refl
member-remove_text x y (z ∷ zs) e = ground (arith, e, member-remove_text x y zs)

pub remove_text-IsDistinct :
    (x : Text) (xs : List Text) → IsDistinct xs → IsDistinct (remove_text x xs)
remove_text-IsDistinct x [] h = tt
remove_text-IsDistinct x (y ∷ ys) (e, h) = elim (Bool-cases (text_eq x y)) [
  | inl q ↦ rw q (remove_text-IsDistinct x ys h)
  | inr q ↦ rw q (member-remove_text x y ys e, remove_text-IsDistinct x ys h)
]

pub length-remove_text :
    (x : Text) (xs : List Text)
    → IsDistinct xs
    → member x xs ≡ true
    → length (remove_text x xs) + 1 ≡ length xs
length-remove_text x [] h e = absurd (cc)
length-remove_text x (y ∷ ys) (d, h) e = elim (Bool-cases (text_eq x y)) [
  | inl q ↦
      let same = (text_eq_iff x y).0 q in
      rw (q, remove_text-none x ys (subst (λ z. member z ys ≡ false) (sym same) d)) (omega arith)
  | inr q ↦ rw q (omega (arith, length-remove_text x ys h (ground (arith, e, q))))
]

text_eq_sym : (a b : Text) → text_eq a b ≡ text_eq b a
text_eq_sym a b = elim (Bool-cases (text_eq a b)) [
  | inl x ↦ x ∙ sym ((text_eq_iff b a).1 (sym ((text_eq_iff a b).0 x)))
  | inr x ↦ elim (Bool-cases (text_eq b a)) [
    | inl y ↦ (text_eq_iff a b).1 (sym ((text_eq_iff b a).0 y)) ∙ sym y
    | inr y ↦ x ∙ sym y
  ]
]

all-remove_text :
    (x : Text) (seen keys : List Text)
    → all (λ k. member k seen) (remove_text x keys) ≡ all (λ k. member k (x ∷ seen)) keys
all-remove_text x seen [] = refl
all-remove_text x seen (y ∷ ys) = ground (arith, text_eq_sym x y, all-remove_text x seen ys)

no_key : (keys : List Text) → (keys ≡ []) ↔ (all (λ k. member k []) keys ≡ true)
no_key [] = (λ _. refl, λ _. refl)
no_key (k ∷ ks) = (λ e. cc, λ e. cc)

-- Nothing is left exactly if every key was seen.
pub unseen_iff :
    (seen keys : List Text) → (unseen seen keys ≡ []) ↔ (all (λ k. member k seen) keys ≡ true)
unseen_iff [] keys = no_key keys
unseen_iff (x ∷ seen) keys =
    let (f, g) = unseen_iff seen (remove_text x keys) in
    let e = all-remove_text x seen keys in (λ u. sym e ∙ f u, λ h. g (e ∙ h))

all-member :
    (p : Text → Bool) (x : Text) (xs : List Text)
    → member x xs ≡ true
    → all p xs ≡ true
    → p x ≡ true
all-member p x [] m h = absurd (cc)
all-member p x (y ∷ ys) m h = elim (Bool-cases (text_eq x y)) [
  | inl e ↦ subst (λ z. p z ≡ true) (sym ((text_eq_iff x y).0 e)) (ground (arith, h))
  | inr e ↦ all-member p x ys (ground (arith, m, e)) (ground (arith, h))
]

absorb :
    (p : Text → Bool) (x : Text) (xs ys : List Text)
    → member x xs ≡ true
    → all p xs ≡ all p ys
    → all p xs ≡ p x && all p ys
absorb p x xs ys m ih = elim (Bool-cases (all p xs)) [
  | inl t ↦ ground (arith, t, ih, all-member p x xs m t)
  | inr f ↦ ground (arith, f, ih)
]

pub all-to_set : (p : Text → Bool) (keys : List Text) → all p (to_set keys) ≡ all p keys
all-to_set p [] = refl
all-to_set p (x ∷ xs) = elim (Bool-cases (member x (to_set xs))) [
  | inl m ↦ rw m (absorb p x (to_set xs) xs m (all-to_set p xs))
  | inr m ↦ rw m (ap (λ b. p x && b) (all-to_set p xs))
]
