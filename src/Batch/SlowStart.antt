-- ===== src/Batch/SlowStart.antt =====
-- What slowStartBatch calls: the first batches of the indices, all of them unless a batch fails.
use xstatefulset.Base.{
  ℕ, zero, suc, ◌+◌, ◌-◌, ◌≡◌, ◌≤◌, ◌<◌, ◌↔◌, min, refl, subst, ap, ◌∙◌, ◌⊎◌, inl, inr, Bool,
  Option, List, [], ◌∷◌, ◌++◌, ◌==◌, length, length-append, In, arith, Bool-cases, append-In,
  In-append_left, In-append_right, ltb, ltb→lt, ltb-false→le,
}
use xstatefulset.Api.{Error}
use xstatefulset.Batch.{
  max_batch_size, indices, IsSchedule, run_calls, next_size, batches, slow_start_batch,
}
use xstatefulset.Batch.Indices.{
  length-indices, In-indices, indices-In, length-run_calls, run_calls-append,
}

List-cases : (es : List Error) → (es ≡ []) ⊎ ((e : Error) × (rest : List Error) × (es ≡ e ∷ rest))
List-cases [] = inl refl
List-cases (e ∷ rest) = inr (e, rest, refl)

module _ {S : Type 0} (fn : ℕ → S → (Bool × Option Error) × S) where
  module _ (schedule : List ℕ → List ℕ) (law : IsSchedule schedule) where
    -- The outcome of a run that made exactly the calls below `made`, each once, in the order `ks`.
    pub record Outcome (j n : ℕ) (s : S) (out : (ℕ × List Error) × S) (base : ℕ) : Type 0 where
      pub ks : List ℕ
      pub made : ℕ
      pub within : made ≤ n
      pub once : length ks ≡ made
      pub each : (k : ℕ) → In k ks ↔ ((j ≤ k) × (k < j + made))
      pub errors : (run_calls fn ks s).0 ≡ out.0.1
      pub final : (run_calls fn ks s).1 ≡ out.1
      pub successes : out.0.0 + length out.0.1 ≡ base + made
      pub complete : out.0.1 ≡ [] → made ≡ n
      pub slow : length out.0.1 ≤ (j + made) - length out.0.1 + 1
      pub capped : length out.0.1 ≤ max_batch_size

    nothing : (j base : ℕ) (s : S) → Outcome j 0 s ((base, []), s) base
    unfolding run_calls
    nothing j base s = record {
      ks = [];
      made = 0;
      within = omega arith;
      once = refl;
      each = λ k. (λ m. elim m [ ], λ h. absurd (omega arith));
      errors = refl;
      final = refl;
      successes = omega arith;
      complete = λ _. refl;
      slow = omega arith;
      capped = omega arith;
    }

    abbrev batch_calls : ℕ → ℕ → List ℕ
    batch_calls j batch = schedule (indices j batch)

    batch_each : (j batch k : ℕ) → In k (batch_calls j batch) ↔ ((j ≤ k) × (k < j + batch))
    batch_each j batch k = (
      λ m. In-indices k j batch (law.called (indices j batch) k m),
      λ h. law.calls (indices j batch) k (indices-In k j batch h.0 h.1),
    )

    batch_length : (j batch : ℕ) → length (batch_calls j batch) ≡ batch
    batch_length j batch = law.same_length (indices j batch) ∙ length-indices j batch

    failed_batch :
        (batch remaining j base : ℕ) (s : S) (e : Error) (es : List Error)
        → (run_calls fn (batch_calls j batch) s).0 ≡ e ∷ es
        → batch ≤ remaining
        → batch ≤ j + 1
        → batch ≤ max_batch_size
        → Outcome j remaining s
            ((base + (batch - length (e ∷ es)), e ∷ es), (run_calls fn (batch_calls j batch) s).1)
            base
    failed_batch batch remaining j base s e es h fits slow small =
        let few : length (e ∷ es) ≤ batch =
          subst (λ (l : List Error). length l ≤ batch) h
            (omega (arith, length-run_calls fn (batch_calls j batch) s, batch_length j batch)) in
        record {
          ks = batch_calls j batch;
          made = batch;
          within = fits;
          once = batch_length j batch;
          each = batch_each j batch;
          errors = h;
          final = refl;
          successes = omega arith;
          complete = λ none_failed. absurd (cc);
          slow = omega arith;
          capped = omega arith;
        }

    passed_batch :
        (batch remaining j base : ℕ) (s : S) (out : (ℕ × List Error) × S)
        → (run_calls fn (batch_calls j batch) s).0 ≡ []
        → batch ≤ remaining
        → Outcome
            (j + batch)
            (remaining - batch)
            (run_calls fn (batch_calls j batch) s).1
            out
            (base + batch)
        → Outcome j remaining s out base
    passed_batch batch remaining j base s out h fits o = record {
      ks = batch_calls j batch ++ o.ks;
      made = batch + o.made;
      within = omega (arith, o.within);
      once = omega (arith, length-append (batch_calls j batch) o.ks, batch_length j batch, o.once);
      each = λ k. (
        λ m. elim (append-In k (batch_calls j batch) o.ks m) [
          | inl l ↦ let b = (batch_each j batch k).0 l in (b.0, omega arith)
          | inr r ↦ let b = (o.each k).0 r in (omega arith, omega arith)
        ],
        λ b. elim (Bool-cases (ltb k (j + batch))) [
          | inl t ↦
              In-append_left k (batch_calls j batch) o.ks
                ((batch_each j batch k).1 (b.0, ltb→lt k (j + batch) t))
          | inr f ↦
              In-append_right k (batch_calls j batch) o.ks
                ((o.each k).1 (ltb-false→le k (j + batch) f, omega arith))
        ],
      );
      errors = rw (run_calls-append fn (batch_calls j batch) o.ks s, h) o.errors;
      final = rw (run_calls-append fn (batch_calls j batch) o.ks s) o.final;
      successes = omega (arith, o.successes);
      complete = λ none_failed. omega (arith, o.complete none_failed);
      slow = omega (arith, o.slow);
      capped = o.capped;
    }

    abbrev after_batch : ℕ → ℕ → S → S
    after_batch j batch s = (run_calls fn (batch_calls j batch) s).1

    -- The rest of the loop, by the errors of the batch.
    abbrev counted : ℕ → ℕ → ℕ → ℕ → ℕ → S → List Error → (ℕ × List Error) × S
    counted fuel batch remaining j base s errors =
        batches fn schedule fuel (next_size fn schedule batch (remaining - batch))
          (remaining - batch) (j + batch) (base + (batch - length errors)) (after_batch j batch s)

    -- One round of the loop, by the size of its batch and the errors of its calls.
    batches_step :
        (fuel batch remaining j base : ℕ) (s : S)
        → ((batch ≡ 0)
            × (batches fn schedule (suc fuel) batch remaining j base s ≡ ((base, []), s)))
          ⊎ ((batch ≡ 0 → ⊥)
              × ((run_calls fn (batch_calls j batch) s).0 ≡ [])
              × (batches fn schedule (suc fuel) batch remaining j base s
                  ≡ batches fn schedule fuel
                      (next_size fn schedule batch (remaining - batch))
                      (remaining - batch)
                      (j + batch)
                      (base + batch)
                      (after_batch j batch s)))
          ⊎ ((e : Error) × (es : List Error) × ((run_calls fn (batch_calls j batch) s).0 ≡ e ∷ es)
              × (batches fn schedule (suc fuel) batch remaining j base s
                  ≡ ((base + (batch - length (e ∷ es)), e ∷ es), after_batch j batch s)))
    unfolding batches
    batches_step fuel batch remaining j base s = elim (Bool-cases (batch == 0)) [
      | inl z ↦ inl (ground arith, rw z)
      | inr p ↦ elim (List-cases (run_calls fn (batch_calls j batch) s).0) [
        | inl h ↦ inr (
            inl (
              λ z. ground arith,
              h,
              rw (p, h)
                  (ap (counted fuel batch remaining j base s) h
                    ∙ ap
                        (λ (n : ℕ).
                          batches fn schedule fuel (next_size fn schedule batch (remaining - batch))
                            (remaining - batch) (j + batch) (base + n) (after_batch j batch s))
                        (omega arith)),
            ))
        | inr (e, rest, h) ↦ inr (
            inr (
              e,
              rest,
              h,
              rw (p, h)
                  (ap
                    (λ (l : List Error).
                      ((base + (batch - length l), e ∷ rest), after_batch j batch s))
                    h),
            ))
      ]
    ]

    batches-Outcome :
        (fuel batch remaining j base : ℕ) (s : S)
        → remaining < fuel
        → batch ≤ remaining
        → (batch ≡ 0 → remaining ≡ 0)
        → batch ≤ j + 1
        → batch ≤ max_batch_size
        → Outcome j remaining s (batches fn schedule fuel batch remaining j base s) base
    batches-Outcome zero batch remaining j base s lt fits go slow small = elim lt [ ]
    batches-Outcome (suc fuel) batch remaining j base s lt fits go slow small =
        elim (batches_step fuel batch remaining j base s) [
          | inl (z, e) ↦ rw (e, go z) (nothing j base s)
          | inr (inl (nz, h, e)) ↦ rw e (
              passed_batch batch remaining j base s _ h fits (
                batches-Outcome fuel (next_size fn schedule batch (remaining - batch))
                  (remaining - batch) (j + batch) (base + batch) (after_batch j batch s)
                  (omega arith) (omega arith) (λ z. omega arith) (omega arith) (omega arith)))
          | inr (inr (e, es, h, q)) ↦
              rw q (failed_batch batch remaining j base s e es h fits slow small)
        ]

-- slowStartBatch(1, n, fn), with the calls of each batch in any order, calls fn on exactly the
-- first `made` of the n indices, each once; it returns the errors of these calls and the number of
-- the others. Without an error all n are called. No more than 500 calls fail, and no more than one
-- above the number that succeeded.
pub slow_start_batch-Outcome :
    {S : Type 0} (fn : ℕ → S → (Bool × Option Error) × S) (schedule : List ℕ → List ℕ)
    (law : IsSchedule schedule) (n : ℕ) (s : S)
    → Outcome fn schedule law 0 n s (slow_start_batch fn schedule 1 n s) 0
unfolding slow_start_batch
slow_start_batch-Outcome fn schedule law n s =
    batches-Outcome fn schedule law (suc n) (min n 1) n 0 0 s (omega arith) (omega arith)
      (λ z. omega arith) (omega arith) (omega arith)
