-- ===== src/Batch/Runs.antt =====
-- Rules for runForAll: what every call keeps is kept, and the ordered loop ends at the first call
-- that wants to stop or fails.
use xstatefulset.Base.{
  ℕ, zero, suc, ◌+◌, ◌≡◌, refl, subst, ◌⊎◌, inl, inr, Bool, true, false, Option, none, some, arith,
  Bool-cases, Option-cases,
}
use xstatefulset.Api.{Error}
use xstatefulset.Batch.{run_in_order}

abbrev pub Exit : Type 0
Exit = Bool × Option Error

-- `shouldExit || err != nil`
abbrev pub wants_exit : Exit → Bool
wants_exit (flag, some e) = true
wants_exit (flag, none) = flag

module _ {S : Type 0} (fn : ℕ → S → Exit × S) where
  -- The ordered loop over `count` calls from `i`: where `before j` holds in front of call j, and a
  -- call leads to `before` of the next index or ends the loop with `ended`, the loop ends in one of
  -- the two.
  pub run_in_order-rule {κ} :
      (before : ℕ → S → Type κ) (ended : S → Type κ)
      → ((j : ℕ) (s : S) → before j s → wants_exit (fn j s).0 ≡ false → before (suc j) (fn j s).1)
      → ((j : ℕ) (s : S) → before j s → wants_exit (fn j s).0 ≡ true → ended (fn j s).1)
      → (count i : ℕ) (s : S) → before i s
      → (((run_in_order fn count i s).0.0 ≡ true) × ended (run_in_order fn count i s).1)
        ⊎ (((run_in_order fn count i s).0 ≡ (false, none))
            × before (i + count) (run_in_order fn count i s).1)
  unfolding run_in_order
  run_in_order-rule before ended go halt zero i s h =
      inr (refl, subst (λ n. before n s) (omega arith) h)
  run_in_order-rule before ended go halt (suc count) i s h =
      let out = fn i s in
      elim (Option-cases out.0.1) [
        | inr (e, q) ↦
            inl (rw (q, run_in_order) refl, rw (q, run_in_order) (halt i s h (rw q refl)))
        | inl q ↦ elim (Bool-cases out.0.0) [
          | inl f ↦
              inl (
                rw (q, f, run_in_order) refl,
                rw (q, f, run_in_order) (halt i s h (rw (q, f) refl)),
              )
          | inr f ↦
              rw (q, f, run_in_order)
                (subst
                  (λ (n : ℕ).
                    (((run_in_order fn count (suc i) out.1).0.0 ≡ true)
                      × ended (run_in_order fn count (suc i) out.1).1)
                    ⊎ (((run_in_order fn count (suc i) out.1).0 ≡ (false, none))
                        × before n (run_in_order fn count (suc i) out.1).1))
                  (omega arith)
                  (run_in_order-rule before ended go halt count (suc i) out.1
                    (go i s h (rw (q, f) refl))))
        ]
      ]

  -- A first call that wants to stop or fails is the only one.
  pub run_in_order-exit :
      (count i : ℕ) (s : S)
      → wants_exit (fn i s).0 ≡ true
      → ((run_in_order fn (suc count) i s).0.0 ≡ true)
        × ((run_in_order fn (suc count) i s).1 ≡ (fn i s).1)
  unfolding run_in_order
  run_in_order-exit count i s h = elim (Option-cases (fn i s).0.1) [
    | inr (e, q) ↦ (rw (q, run_in_order) refl, rw (q, run_in_order) refl)
    | inl q ↦ elim (Bool-cases (fn i s).0.0) [
      | inl f ↦ (rw (q, f, run_in_order) refl, rw (q, f, run_in_order) refl)
      | inr f ↦ absurd (ground (arith, h, q, f))
    ]
  ]
