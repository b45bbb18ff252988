-- ===== src/Pkg/Retry/Calls.antt =====
-- pkg/retry/retry.go: what holds of the state after the calls, and how many calls there are.
use submission_triage.Prelude.{
  ℕ, zero, suc, ◌+◌, ◌-◌, ◌*◌, ◌≤◌, Option, none, some, [], arith, Bool-cases, inl, inr,
}
use submission_triage.Pkg.Retry.{
  Failure, permanent, retryable, Rounds, Run, stop_with, exhausted, cap_delay, judge, rounds_from,
  first_delay, calls_allowed, do_retry,
}

module _ {S : Type 0} (env : Rounds) (n : ℕ) (f : S → Option Failure × S) (P : ℕ → S → Type 0)
    (step : (k : ℕ) (s : S) → P k s → P (suc k) (f s).1) where
  -- The state has seen some number of calls, at most the given one.
  abbrev CallsWithin : ℕ → S → Type 0
  CallsWithin most s = (k : ℕ) × ((k ≤ most) × P k s)

  judge-CallsWithin :
      (left i delay k most : ℕ) (r : Option Failure × S) (more : S → Run S)
      → k ≤ most
      → P k r.1
      → ((s : S) → P k s → CallsWithin most (more s).state)
      → CallsWithin most (judge env n f left i delay r more).state
  unfolding judge
  judge-CallsWithin left i delay k most (none, s) more few h goes = (k, (few, h))
  judge-CallsWithin left i delay k most (some (permanent e), s) more few h goes = (k, (few, h))
  judge-CallsWithin zero i delay k most (some (retryable e), s) more few h goes = (k, (few, h))
  judge-CallsWithin (suc left) i delay k most (some (retryable e), s) more few h goes =
      elim (Bool-cases (env.interrupted i)) [
        | inl b ↦ simp b (k, (few, h))
        | inr b ↦ simp b (goes s h)
      ]

  rounds_from-CallsWithin :
      (left i delay k most : ℕ) (s : S)
      → suc k + left ≤ most
      → P k s
      → CallsWithin most (rounds_from env n f left i delay s).state
  unfolding rounds_from
  rounds_from-CallsWithin zero i delay k most s few h = elim (Bool-cases (env.ended i)) [
    | inl b ↦ simp b (k, (omega arith, h))
    | inr b ↦ simp b (
        judge-CallsWithin zero i delay (suc k) most (f s) (stop_with (exhausted n [])) (omega arith)
          (step k s h) (λ s' h'. (suc k, (omega arith, h'))))
  ]
  rounds_from-CallsWithin (suc left) i delay k most s few h = elim (Bool-cases (env.ended i)) [
    | inl b ↦ simp b (k, (omega arith, h))
    | inr b ↦ simp b (
        judge-CallsWithin (suc left) i delay (suc k) most (f s)
          (rounds_from env n f left (suc i) (cap_delay (delay * 2))) (omega arith) (step k s h)
          (λ s' h'.
            rounds_from-CallsWithin left (suc i) (cap_delay (delay * 2)) (suc k) most s'
              (omega arith) h'))
  ]

-- A property of the state and the number of calls that each call passes on holds at the end, for a
-- number of calls that is allowed.
pub do_retry-CallsWithin :
    {S : Type 0} (env : Rounds) (attempts base_delay : ℕ) (f : S → Option Failure × S)
    (P : ℕ → S → Type 0) (step : (k : ℕ) (s : S) → P k s → P (suc k) (f s).1) (s : S)
    → P 0 s
    → (k : ℕ) × ((k ≤ calls_allowed attempts) × P k (do_retry env attempts base_delay f s).state)
unfolding do_retry
do_retry-CallsWithin env attempts base_delay f P step s h =
    let allowed = calls_allowed attempts in
    rounds_from-CallsWithin env allowed f P step (allowed - 1) 0 (first_delay base_delay) 0 allowed
      s (ground arith) h
