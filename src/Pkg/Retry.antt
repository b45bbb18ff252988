-- ===== src/Pkg/Retry.antt =====
-- pkg/retry/retry.go: calling a function again until it succeeds.
-- The function passes a state on; the context and the random part of a delay are given per round.
-- Durations are nanoseconds, and 0 stands for every attempt count or delay that is not positive.
-- Doubling is exact: a delay is at most 30 seconds, or the first one, where that is longer.
pub mod Bounds
pub mod Outcomes
pub mod Calls
use submission_triage.Prelude.{
  ℕ, zero, suc, ◌-◌, ◌*◌, Bool, true, false, Option, none, some, List, [], ◌∷◌, Text, ltb, leb,
  if◌then◌else◌,
}

-- `MaxDelay`
abbrev pub max_delay : ℕ
max_delay = 30000000000

-- An error of the function; `Permanent` where it is marked so.
pub data Failure : Type 0 where
  permanent retryable : Text → Failure

-- What `Do` returns: nil, the context's error, or one of its own two errors.
pub data End : Type 0 where
  done cancelled : End
  stopped : Text → End
  exhausted : ℕ → Text → End

-- How the run ended, the state that was reached, and the delays that were logged and slept.
pub record Run (S : Type 0) : Type 0 where
  pub end : End
  pub state : S
  pub waits : List ℕ

-- The context as each round finds it, before the call and during the sleep, with the round's
-- random delay (`jitter`).
pub record Rounds : Type 0 where
  pub ended : ℕ → Bool
  pub interrupted : ℕ → Bool
  pub jitter : ℕ → ℕ → ℕ

abbrev pub cap_delay : ℕ → ℕ
cap_delay d = if ltb max_delay d then max_delay else d

module _ {S : Type 0} where
  abbrev pub stop_with : End → S → Run S
  stop_with end s = record { end = end; state = s; waits = [] }

  abbrev pub after_wait : ℕ → Run S → Run S
  after_wait d run = record run { waits = d ∷ run.waits }

  module _ (env : Rounds) (attempts : ℕ) (f : S → Option Failure × S) where
    -- What a round does with the call's result. `more` goes on with the next round.
    unfoldable pub judge : ℕ → ℕ → ℕ → Option Failure × S → (S → Run S) → Run S
    judge left i delay (none, s) more = stop_with done s
    judge left i delay (some (permanent e), s) more = stop_with (stopped e) s
    judge zero i delay (some (retryable e), s) more = stop_with (exhausted attempts e) s
    judge (suc left) i delay (some (retryable e), s) more =
        after_wait (cap_delay (env.jitter i delay))
          (if env.interrupted i then stop_with cancelled s else more s)

    -- The loop from round `i`, with `left` rounds to come after it.
    unfoldable pub rounds_from : ℕ → ℕ → ℕ → S → Run S
    unfolding judge
    rounds_from zero i delay s =
        if env.ended i
        then stop_with cancelled s
        else judge zero i delay (f s) (stop_with (exhausted attempts []))
    rounds_from (suc left) i delay s =
        let more = rounds_from left (suc i) (cap_delay (delay * 2)) in
        if env.ended i then stop_with cancelled s else judge (suc left) i delay (f s) more

-- `baseDelay`, 100 ms where it is not positive
abbrev pub first_delay : ℕ → ℕ
first_delay base_delay = if leb base_delay 0 then 100000000 else base_delay

-- `attempts`, 1 where it is not positive
abbrev pub calls_allowed : ℕ → ℕ
calls_allowed attempts = if leb attempts 0 then 1 else attempts

-- `Do`
unfoldable pub do_retry : {S : Type 0} → Rounds → ℕ → ℕ → (S → Option Failure × S) → S → Run S
unfolding rounds_from
do_retry env attempts base_delay f s =
    let allowed = calls_allowed attempts in
    rounds_from env allowed f (allowed - 1) 0 (first_delay base_delay) s
