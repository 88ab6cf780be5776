-- ===== src/History/Picks.antt =====
-- Lists that pick some entries of another, as truncateHistory does with revisions.
use xstatefulset.Base.{
  ℕ, zero, suc, ◌-◌, ◌≡◌, refl, ap, inl, inr, Bool, true, List, [], ◌∷◌, ◌++◌, keep, take, length,
  All, All-map, In, arith, Bool-cases,
}
use xstatefulset.Api.{ControllerRevision}

-- The list of the entries that have a property, in their order.
pub data Picks (P : ControllerRevision → Type 0)
    : List ControllerRevision → List ControllerRevision → Type 0 where
  ends : Picks P [] []
  takes :
      {r : ControllerRevision} {picked rs : List ControllerRevision}
      → P r
      → Picks P picked rs
      → Picks P (r ∷ picked) (r ∷ rs)
  skips :
      {r : ControllerRevision} {picked rs : List ControllerRevision}
      → (P r → ⊥)
      → Picks P picked rs
      → Picks P picked (r ∷ rs)

pub Picks-keep :
    (P : ControllerRevision → Type 0) (p : ControllerRevision → Bool) (rs : List ControllerRevision)
    → ((r : ControllerRevision) → p r ≡ true → P r)
    → ((r : ControllerRevision) → P r → p r ≡ true)
    → Picks P (keep p rs) rs
Picks-keep P p [] f g = ends
Picks-keep P p (r ∷ rs) f g = elim (Bool-cases (p r)) [
  | inl e ↦ rw e (takes (f r e) (Picks-keep P p rs f g))
  | inr e ↦ rw e (skips (λ x. absurd (cc (g r x, e))) (Picks-keep P p rs f g))
]

pub Picks-All :
    (P : ControllerRevision → Type 0) {picked rs : List ControllerRevision}
    → Picks P picked rs
    → All (λ r. P r × In r rs) picked
Picks-All P ends = tt
Picks-All P (takes x h) =
    ((x, In.here refl), All-map _ _ _ (λ r q. (q.0, In.there q.1)) (Picks-All P h))
Picks-All P (skips x h) = All-map _ _ _ (λ r q. (q.0, In.there q.1)) (Picks-All P h)

-- A list is what is taken from its front, and the rest.
pub split :
    (n : ℕ) (xs : List ControllerRevision)
    → (rest : List ControllerRevision) × (xs ≡ take n xs ++ rest) × (length rest ≡ length xs - n)
split zero xs = (xs, refl, omega arith)
split (suc n) [] = ([], refl, omega arith)
split (suc n) (x ∷ xs) =
    let (rest, e, l) = split n xs in
    (rest, ap (λ (ys : List ControllerRevision). x ∷ ys) e, omega (arith, l))
