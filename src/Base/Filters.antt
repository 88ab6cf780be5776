-- ===== src/Base/Filters.antt =====
-- Laws of the Boolean filters and searches of Lists.
use mathlib.Core.Path.{◌≡◌, refl}
use mathlib.Core.Bool.{Bool, true, false, ◌||◌}
use mathlib.Core.List.{List, [], ◌∷◌, ◌++◌}
use mathlib.Core.Option.{none, some}
use Prim.Native.Nat.{ℕ, zero, suc, ◌+◌}
use native.Mathlib.Omega.{arith}
use mathlib.Core.Logic.{◌⊎◌, inl, inr}
use xstatefulset.Base.Lists.{keep, any, find?, All, In, reverse, drop, get_elem?}

module _ {ℓ} {A : Type ℓ} where
  pub any-append : (p : A → Bool) (xs ys : List A) → any p (xs ++ ys) ≡ any p xs || any p ys
  any-append p [] ys = refl
  any-append p (x ∷ xs) ys = ground (arith, any-append p xs ys)

  pub any-keep :
      (p q : A → Bool) (xs : List A)
      → All (λ x. q x ≡ true → p x ≡ false) xs
      → any p (keep q xs) ≡ false
  any-keep p q [] h = refl
  any-keep p q (x ∷ xs) h = ground (arith, h.0, any-keep p q xs h.1)

  pub find?-append :
      (p : A → Bool) (xs ys : List A) → any p xs ≡ false → find? p (xs ++ ys) ≡ find? p ys
  find?-append p [] ys h = refl
  find?-append p (x ∷ xs) ys h = ground (arith, find?-append p xs ys)

  pub keep-append : (p : A → Bool) (xs ys : List A) → keep p (xs ++ ys) ≡ keep p xs ++ keep p ys
  keep-append p [] ys = refl
  keep-append p (x ∷ xs) ys = ground (arith, keep-append p xs ys)

  pub keep-keep : (p : A → Bool) (xs : List A) → keep p (keep p xs) ≡ keep p xs
  keep-keep p [] = refl
  keep-keep p (x ∷ xs) = ground (arith, keep-keep p xs)

  pub any-keep_of :
      (p q : A → Bool) (xs : List A)
      → All (λ x. q x ≡ false → p x ≡ false) xs
      → any p (keep q xs) ≡ any p xs
  any-keep_of p q [] h = refl
  any-keep_of p q (x ∷ xs) h = ground (arith, h.0, any-keep_of p q xs h.1)

  pub All-map {κ μ} :
      (P : A → Type κ) (Q : A → Type μ) (xs : List A) → ((x : A) → P x → Q x) → All P xs → All Q xs
  All-map P Q [] f h = tt
  All-map P Q (x ∷ xs) f h = (f x h.0, All-map P Q xs f h.1)

  pub find?-none : (p : A → Bool) (xs : List A) → any p xs ≡ false → find? p xs ≡ none
  find?-none p [] h = refl
  find?-none p (x ∷ xs) h = ground (arith, find?-none p xs)

  pub In-append_left : (x : A) (xs ys : List A) → In x xs → In x (xs ++ ys)
  In-append_left x [] ys m = elim m [ ]
  In-append_left x (y ∷ xs) ys (In.here e) = In.here e
  In-append_left x (y ∷ xs) ys (In.there m) = In.there (In-append_left x xs ys m)

  pub In-append_right : (x : A) (xs ys : List A) → In x ys → In x (xs ++ ys)
  In-append_right x [] ys m = m
  In-append_right x (y ∷ xs) ys m = In.there (In-append_right x xs ys m)

  pub append-In : (x : A) (xs ys : List A) → In x (xs ++ ys) → In x xs ⊎ In x ys
  append-In x [] ys m = inr m
  append-In x (y ∷ xs) ys (In.here e) = inl (In.here e)
  append-In x (y ∷ xs) ys (In.there m) = elim (append-In x xs ys m) [
    | inl l ↦ inl (In.there l)
    | inr r ↦ inr r
  ]

  pub reverse-In : (x : A) (xs : List A) → In x (reverse xs) → In x xs
  reverse-In x [] m = m
  reverse-In x (y ∷ xs) m = elim (append-In x (reverse xs) (y ∷ []) m) [
    | inl l ↦ In.there (reverse-In x xs l)
    | inr (In.here e) ↦ In.here e
    | inr (In.there n) ↦ elim n [ ]
  ]

  pub In-get_elem? : (x : A) (xs : List A) → In x xs → (i : ℕ) × (get_elem? xs i ≡ some x)
  In-get_elem? x [] m = elim m [ ]
  In-get_elem? x (y ∷ xs) (In.here e) = (0, cc)
  In-get_elem? x (y ∷ xs) (In.there m) = let (i, e) = In-get_elem? x xs m in (suc i, e)

  pub get_elem?-drop : (n i : ℕ) (xs : List A) → get_elem? (drop n xs) i ≡ get_elem? xs (n + i)
  get_elem?-drop zero i xs = ground arith
  get_elem?-drop (suc n) i [] = ground arith
  get_elem?-drop (suc n) i (x ∷ xs) = ground (arith, get_elem?-drop n i xs)

  pub append_assoc : (xs ys zs : List A) → (xs ++ ys) ++ zs ≡ xs ++ (ys ++ zs)
  append_assoc [] ys zs = refl
  append_assoc (x ∷ xs) ys zs = ground (arith, append_assoc xs ys zs)
