-- ===== src/Identity/Decimal.antt =====
-- Decimal texts of ordinals: fmt's %d and strconv.Itoa, and strconv.ParseInt(s, 10, 32) on the
-- digit texts that the pod name's regular expression lets through.
use xstatefulset.Base.{
  ℕ, zero, suc, ◌+◌, ◌-◌, ◌*◌, ◌/◌, ◌%◌, ◌^◌, ◌<◌, ◌≡◌, refl, ap, ◌∙◌, inl, inr, Bool, true, ◌&&◌,
  Option, none, some, [], ◌∷◌, Text, ltb, leb, ◌==◌, if◌then◌else◌, all, Bool-cases, arith, ℤ, pos,
  negsuc,
}

abbrev pub is_digit : ℕ → Bool
is_digit c = leb b'0' c && leb c b'9'

-- The fuel bounds the number of digits; `suc n` is always enough.
unfoldable pub emit : ℕ → ℕ → Text → Text
emit zero n out = out
emit (suc fuel) n out =
    let rest = emit fuel (n / 10) ((b'0' + n % 10) ∷ out) in if n == 0 then out else rest

unfoldable pub decimal : ℕ → Text
unfolding emit
decimal n = if n == 0 then b'0' ∷ [] else emit (suc n) n []

unfoldable pub int_text : ℤ → Text
unfolding decimal
int_text (pos n) = decimal n
int_text (negsuc n) = b'-' ∷ decimal (suc n)

unfoldable pub value : ℕ → Text → ℕ
value acc [] = acc
value acc (c ∷ s) = value (acc * 10 + (c - b'0')) s

abbrev pub int32_limit : ℕ
int32_limit = 2 ^ 31

unfoldable pub parse_int32 : Text → Option ℕ
unfolding value
parse_int32 s = if ltb (value 0 s) int32_limit then some (value 0 s) else none

emit-all_digits :
    (fuel n : ℕ) (out : Text) → all is_digit out ≡ true → all is_digit (emit fuel n out) ≡ true
unfolding emit
emit-all_digits zero n out h = h
emit-all_digits (suc fuel) n out h =
    ground (arith, emit-all_digits fuel (n / 10) ((b'0' + n % 10) ∷ out))

pub decimal-all_digits : (n : ℕ) → all is_digit (decimal n) ≡ true
unfolding decimal
decimal-all_digits n = ground (arith, emit-all_digits (suc n) n [] refl)

-- Reading what `emit` wrote gives the number, whatever stood behind it.
value-emit : (fuel n : ℕ) (out : Text) → n < fuel → value 0 (emit fuel n out) ≡ value n out
unfolding emit value
value-emit zero n out h = elim h [ ]
value-emit (suc fuel) n out h = elim (Bool-cases (n == 0)) [
  | inl e ↦ rw (e) (ap (λ (k : ℕ). value k out) (ground arith))
  | inr e ↦ rw e (
      value-emit fuel (n / 10) ((b'0' + n % 10) ∷ out) (ground arith)
      ∙ ap (λ (k : ℕ). value k out) (omega arith))
]

pub value-decimal : (n : ℕ) → value 0 (decimal n) ≡ n
unfolding decimal value
value-decimal n = ground (arith, value-emit (suc n) n [])

pub parse_int32-decimal : (n : ℕ) → n < int32_limit → parse_int32 (decimal n) ≡ some n
unfolding parse_int32
parse_int32-decimal n h = rw (value-decimal n) (ground arith)

emit-ne-nil : (fuel n : ℕ) (c : ℕ) (out : Text) → emit fuel n (c ∷ out) ≡ [] → ⊥
unfolding emit
emit-ne-nil zero n c out h = cc
emit-ne-nil (suc fuel) n c out h =
    ground (arith, emit-ne-nil fuel (n / 10) (b'0' + n % 10) (c ∷ out))

pub decimal-ne-nil : (n : ℕ) → decimal n ≡ [] → ⊥
unfolding decimal emit
decimal-ne-nil n h = ground (arith, emit-ne-nil n (n / 10) (b'0' + n % 10) [])
