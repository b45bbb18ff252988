-- ===== src/Pkg/Retry/Outcomes.antt =====
-- pkg/retry/retry.go: what the calls' results make of the run.
use submission_triage.Prelude.{
  ℕ, zero, suc, ◌-◌, ◌*◌, ◌≤◌, ◌≡◌, refl, sym, ◌⊎◌, inl, inr, Bool, true, false, Option, none, some,
  Text, arith,
}
use submission_triage.Pkg.Retry.{
  Failure, permanent, retryable, End, done, stopped, exhausted, Rounds, Run, cap_delay, judge,
  rounds_from, first_delay, calls_allowed, do_retry,
}

-- The context never ends.
abbrev pub Calm : Rounds → Type 0
Calm env = (i : ℕ) → (env.ended i ≡ false) × (env.interrupted i ≡ false)

-- What `Do` returns for the result of its last call.
abbrev pub verdict : ℕ → Option Failure → End
verdict attempts none = done
verdict attempts (some (permanent e)) = stopped e
verdict attempts (some (retryable e)) = exhausted attempts e

abbrev pub is_decisive : Option Failure → Bool
is_decisive (some (retryable _)) = false
is_decisive _ = true

-- From one state to another by a number of calls that all fail and may be tried again.
pub data Failures {S : Type 0} (f : S → Option Failure × S) : S → ℕ → S → Type 0 where
  start : {s : S} → Failures f s zero s
  another :
      {s s' s'' : S} {k : ℕ} {e : Text}
      → f s ≡ (some (retryable e), s')
      → Failures f s' k s''
      → Failures f s (suc k) s''

abbrev pub Ends : {S : Type 0} → End → S → Run S → Type 0
Ends end s run = (run.end ≡ end) × (run.state ≡ s)

module _ {S : Type 0} (env : Rounds) (n : ℕ) (f : S → Option Failure × S) where
  judge-decisive :
      (left i delay : ℕ) (r : Option Failure) (s : S) (more : S → Run S)
      → (left ≡ 0) ⊎ (is_decisive r ≡ true)
      → Ends (verdict n r) s (judge env n f left i delay (r, s) more)
  unfolding judge
  judge-decisive left i delay none s more h = (refl, refl)
  judge-decisive left i delay (some (permanent e)) s more h = (refl, refl)
  judge-decisive zero i delay (some (retryable e)) s more h = (refl, refl)
  judge-decisive (suc left) i delay (some (retryable e)) s more h = ground arith

  judge-goes_on :
      (left i delay : ℕ) (e : Text) (s : S) (more : S → Run S) (end : End) (s' : S)
      → env.interrupted i ≡ false
      → Ends end s' (more s)
      → Ends end s' (judge env n f (suc left) i delay (some (retryable e), s) more)
  unfolding judge
  judge-goes_on left i delay e s more end s' b h = simp b h

  round-decisive :
      (left i delay : ℕ) (r : Option Failure) (s s' : S)
      → env.ended i ≡ false
      → f s ≡ (r, s')
      → (left ≡ 0) ⊎ (is_decisive r ≡ true)
      → Ends (verdict n r) s' (rounds_from env n f left i delay s)
  unfolding rounds_from
  round-decisive zero i delay r s s' b e h = simp (b, e) (judge-decisive zero i delay r s' _ h)
  round-decisive (suc left) i delay r s s' b e h =
      simp (b, e) (judge-decisive (suc left) i delay r s' _ h)

  module _ (calm : Calm env) where
    rounds_from-Ends :
        (left i delay : ℕ) {s s' s'' : S} {k : ℕ} (r : Option Failure)
        → Failures f s k s'
        → f s' ≡ (r, s'')
        → k ≤ left
        → (k ≡ left) ⊎ (is_decisive r ≡ true)
        → Ends (verdict n r) s'' (rounds_from env n f left i delay s)
    unfolding rounds_from
    rounds_from-Ends left i delay {s = s} {s'' = s''} r start last few stop =
        round-decisive left i delay r s s'' (calm i).0 last
          (elim stop [ inl e ↦ inl (sym e) | inr e ↦ inr e ])
    rounds_from-Ends zero i delay r (another e calls) last few stop =
        let no : ⊥ = omega arith in absurd no
    rounds_from-Ends (suc left) i delay {s'' = s''} r (another {s' = t} {e = e} first calls) last
          few stop =
        let b = (calm i).0 in
        let next = cap_delay (delay * 2) in
        simp (b, first)
          (judge-goes_on left i delay e t (rounds_from env n f left (suc i) next) (verdict n r) s''
            (calm i).1
            (rounds_from-Ends left (suc i) next r calls last (omega arith)
              (elim stop [ inl e ↦ inl (omega arith) | inr e ↦ inr e ])))

-- Where the context does not end, `Do` calls the function until it succeeds, fails for good or has
-- failed as often as it may be called, and returns what the last call says.
pub do_retry-verdict :
    {S : Type 0} (env : Rounds) (attempts base_delay : ℕ) (f : S → Option Failure × S)
    (s s' s'' : S) (k : ℕ) (r : Option Failure)
    → Calm env
    → Failures f s k s'
    → f s' ≡ (r, s'')
    → suc k ≤ calls_allowed attempts
    → (suc k ≡ calls_allowed attempts) ⊎ (is_decisive r ≡ true)
    → Ends (verdict (calls_allowed attempts) r) s'' (do_retry env attempts base_delay f s)
unfolding do_retry
do_retry-verdict env attempts base_delay f s s' s'' k r calm calls last few stop =
    let allowed = calls_allowed attempts in
    rounds_from-Ends env allowed f calm (allowed - 1) 0 (first_delay base_delay) r calls last
      (omega arith) (elim stop [ inl e ↦ inl (omega arith) | inr e ↦ inr e ])
