-- ===== src/Batch.antt =====
-- slowStartBatch and runForAll (xstateful_set_control.go). A call `fn(i)` is a step on a state that
-- may fail. The goroutines of a batch are its calls, each taken as one step, in the order that
-- `schedule` gives them; the loop waits for all of them before it goes on.
mod Indices
pub mod SlowStart
pub mod Runs
use xstatefulset.Base.{
  ℕ, zero, suc, ◌+◌, ◌-◌, ◌*◌, ◌≡◌, min, Bool, true, false, not, ◌||◌, Option, none, some, List, [],
  ◌∷◌, ◌++◌, if◌then◌else◌, ◌==◌, length, In,
}
use xstatefulset.Api.{Error, new_aggregate}

abbrev pub max_batch_size : ℕ
max_batch_size = 500

-- start, start + 1, …: the indices of one batch.
unfoldable pub indices : ℕ → ℕ → List ℕ
indices start zero = []
indices start (suc n) = start ∷ indices (suc start) n

-- An order for the calls of a batch: each is made once.
pub record IsSchedule (schedule : List ℕ → List ℕ) : Type 0 where
  pub same_length : (ks : List ℕ) → length (schedule ks) ≡ length ks
  pub calls : (ks : List ℕ) (k : ℕ) → In k ks → In k (schedule ks)
  pub called : (ks : List ℕ) (k : ℕ) → In k (schedule ks) → In k ks

module _ {S : Type 0} (fn : ℕ → S → (Bool × Option Error) × S) where
  abbrev pub note : Option Error → List Error → List Error
  note none es = es
  note (some e) es = e ∷ es

  -- The calls of a batch, and the errors that they send to the channel.
  unfoldable pub run_calls : List ℕ → S → List Error × S
  run_calls [] s = ([], s)
  run_calls (k ∷ ks) s =
      let (result, after) = fn k s in
      let (errors, final) = run_calls ks after in (note result.1 errors, final)

  -- The ordered loop: it ends at the first call that wants to stop or fails.
  unfoldable pub run_in_order : (count i : ℕ) → S → (Bool × Option Error) × S
  run_in_order zero i s = ((false, none), s)
  run_in_order (suc count) i s =
      let (result, after) = fn i s in
      let rest = run_in_order count (suc i) after in
      elim result.1 [
        | some e ↦ ((true, some e), after)
        | none ↦ if result.0 then ((true, none), after) else rest
      ]

  module _ (schedule : List ℕ → List ℕ) where
    abbrev pub next_size : ℕ → ℕ → ℕ
    next_size batch remaining = min (min (2 * batch) remaining) max_batch_size

    -- The loop, from index `j` with the given batch size. It recurs on a bound for the batches
    -- that are left; `remaining + 1` is enough.
    unfoldable pub batches : (fuel batch remaining j successes : ℕ) → S → (ℕ × List Error) × S
    batches zero batch remaining j successes s = ((successes, []), s)
    batches (suc fuel) batch remaining j successes s =
        let (errors, after) = run_calls (schedule (indices j batch)) s in
        let passed = successes + (batch - length errors) in
        let left = remaining - batch in
        let rest = batches fuel (next_size batch left) left (j + batch) passed after in
        if batch == 0
        then ((successes, []), s)
        else elim errors [ [] ↦ rest | e ∷ es ↦ ((passed, e ∷ es), after) ]

    unfoldable pub slow_start_batch : (initial remaining : ℕ) → S → (ℕ × List Error) × S
    unfolding batches run_calls indices
    slow_start_batch initial remaining s =
        batches (suc remaining) (min remaining initial) remaining 0 0 s

    unfoldable pub run_for_all : ℕ → Bool → S → (Bool × Option Error) × S
    unfolding run_in_order slow_start_batch
    run_for_all count true s = run_in_order count 0 s
    run_for_all count false s =
        let (result, after) = slow_start_batch 1 count s in
        elim (new_aggregate result.1) [
          | none ↦ ((false, none), after)
          | some e ↦ ((true, some e), after)
        ]
