-- ===== src/Api/Failures.antt =====
-- Errors as values: the kinds of API errors that the code tells apart, the errors that it makes
-- itself with fmt.Errorf (`wrapped` by %w keeps the kind, `message` does not), aggregates, and a
-- run-time fault at a nil pointer.
use xstatefulset.Base.{
  ℕ, Bool, true, false, Option, none, some, List, [], ◌∷◌, ◌≡◌, ◌⊎◌, inl, inr, refl,
}

mutual
  pub data Error : Type 0 where
    not_found already_exists conflict invalid : Error
    api_failure : ℕ → Error
    wrapped : Error → Error
    message : Error
    aggregate : Errors → Error
    nil_pointer : Error

  pub data Errors : Type 0 where
    no_errors : Errors
    more_errors : Error → Errors → Errors

abbrev pub to_errors : List Error → Errors
to_errors [] = no_errors
to_errors (e ∷ es) = more_errors e (to_errors es)

-- utilerrors.NewAggregate: nil for no error, else one error that holds them all.
abbrev pub new_aggregate : List Error → Option Error
new_aggregate [] = none
new_aggregate (e ∷ es) = some (aggregate (to_errors (e ∷ es)))

abbrev pub is_not_found : Error → Bool
is_not_found not_found = true
is_not_found (wrapped e) = is_not_found e
is_not_found _ = false

abbrev pub is_already_exists : Error → Bool
is_already_exists already_exists = true
is_already_exists (wrapped e) = is_already_exists e
is_already_exists _ = false

abbrev pub is_conflict : Error → Bool
is_conflict conflict = true
is_conflict (wrapped e) = is_conflict e
is_conflict _ = false

abbrev pub is_invalid : Error → Bool
is_invalid invalid = true
is_invalid (wrapped e) = is_invalid e
is_invalid _ = false

-- The value or the error that a Go function returns.
pub data Result {ℓ} (A : Type ℓ) : Type ℓ where
  ok : A → Result A
  err : Error → Result A

pub Result-cases {ℓ} :
    {A : Type ℓ} (r : Result A) → ((a : A) × (r ≡ ok a)) ⊎ ((e : Error) × (r ≡ err e))
Result-cases (ok a) = inl (a, refl)
Result-cases (err e) = inr (e, refl)
