-- ===== src/Batch/Indices.antt =====
-- The indices of a batch, and runs of calls put together.
use xstatefulset.Base.{
  ℕ, zero, suc, ◌+◌, ◌≡◌, ◌≤◌, ◌<◌, refl, ap, inl, inr, Bool, Option, List, [], ◌∷◌, ◌++◌, ◌==◌,
  length, In, arith, Bool-cases,
}
use xstatefulset.Api.{Error}
use xstatefulset.Batch.{indices, run_calls}

pub length-indices : (start n : ℕ) → length (indices start n) ≡ n
unfolding indices
length-indices start zero = refl
length-indices start (suc n) = ap suc (length-indices (suc start) n)

pub In-indices : (k start n : ℕ) → In k (indices start n) → (start ≤ k) × (k < start + n)
unfolding indices
In-indices k start zero m = elim m [ ]
In-indices k start (suc n) (In.here e) = (omega arith, omega arith)
In-indices k start (suc n) (In.there m) =
    (omega (arith, In-indices k (suc start) n m), omega (arith, In-indices k (suc start) n m))

pub indices-In : (k start n : ℕ) → start ≤ k → k < start + n → In k (indices start n)
unfolding indices
indices-In k start zero h l = absurd (omega arith)
indices-In k start (suc n) h l = elim (Bool-cases (k == start)) [
  | inl e ↦ In.here (ground arith)
  | inr e ↦ In.there (indices-In k (suc start) n (ground arith) (omega arith))
]

module _ {S : Type 0} (fn : ℕ → S → (Bool × Option Error) × S) where
  pub length-run_calls : (ks : List ℕ) (s : S) → length (run_calls fn ks s).0 ≤ length ks
  unfolding run_calls
  length-run_calls [] s = omega arith
  length-run_calls (k ∷ ks) s = ground (arith, length-run_calls ks (fn k s).1)

  pub run_calls-append :
      (ks ls : List ℕ) (s : S)
      → run_calls fn (ks ++ ls) s ≡ (
          let (errors, after) = run_calls fn ks s in
          let (more, final) = run_calls fn ls after in (errors ++ more, final))
  unfolding run_calls
  run_calls-append [] ls s = refl
  run_calls-append (k ∷ ks) ls s = ground (arith, run_calls-append ks ls (fn k s).1)
