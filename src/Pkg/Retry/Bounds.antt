-- ===== src/Pkg/Retry/Bounds.antt =====
-- pkg/retry/retry.go: how often the function is called again, and after which delays.
use submission_triage.Prelude.{
  ℕ, zero, suc, ◌*◌, ◌-◌, ◌≤◌, ◌≡◌, refl, sym, ◌∙◌, ap, inl, inr, Option, none, some, List, [], ◌∷◌,
  map, length, arith, Bool-cases,
}
use Prim.Native.Nat.{◌^◌}
use native.Mathlib.Nat.{mul_assoc, pow-suc}
use submission_triage.Pkg.Retry.{
  Failure, permanent, retryable, Rounds, Run, cap_delay, judge, rounds_from, first_delay,
  calls_allowed, do_retry,
}

-- The delay before the jitter: the first one, doubled every round, and at most 30 seconds then.
abbrev pub nominal : ℕ → ℕ → ℕ
nominal base zero = base
nominal base (suc i) = cap_delay (base * 2 ^ suc i)

abbrev pub upto : ℕ → ℕ → List ℕ
upto i zero = []
upto i (suc n) = i ∷ upto (suc i) n

abbrev pub wait_of : Rounds → ℕ → ℕ → ℕ
wait_of env base i = cap_delay (env.jitter i (nominal base i))

doubled : (x : ℕ) → cap_delay (cap_delay x * 2) ≡ cap_delay (x * 2)
doubled x = ground arith

nominal-double : (base i : ℕ) → cap_delay (nominal base i * 2) ≡ nominal base (suc i)
nominal-double base zero = refl
nominal-double base (suc i) =
    doubled (base * 2 ^ suc i)
    ∙ ap cap_delay (mul_assoc base (2 ^ suc i) 2 ∙ ap (λ t. base * t) (sym (pow-suc 2 (suc i))))

-- Waits as planned from round `i`, and no more of them than rounds left.
record Planned (env : Rounds) (base i left : ℕ) (waits : List ℕ) : Type 0 where
  pub planned : waits ≡ map (wait_of env base) (upto i (length waits))
  pub few : length waits ≤ left

none_yet : (env : Rounds) (base i left : ℕ) → Planned env base i left []
none_yet env base i left = record { planned = refl; few = omega arith }

one_more :
    (env : Rounds) (base i left d : ℕ) (waits : List ℕ)
    → d ≡ wait_of env base i
    → Planned env base (suc i) left waits
    → Planned env base i (suc left) (d ∷ waits)
one_more env base i left d waits e h = record {
  planned = rw e (ap (λ t. wait_of env base i ∷ t) h.planned);
  few = omega (arith, h.few);
}

module _ {S : Type 0} (env : Rounds) (base attempts : ℕ) (f : S → Option Failure × S) where
  judge-Planned :
      (left i delay : ℕ) (out : Option Failure × S) (more : S → Run S)
      → delay ≡ nominal base i
      → ((s : S) → Planned env base (suc i) left (more s).waits)
      → Planned env base i (suc left) (judge env attempts f (suc left) i delay out more).waits
  unfolding judge
  judge-Planned left i delay (none, s) more e h = none_yet env base i (suc left)
  judge-Planned left i delay (some (permanent x), s) more e h = none_yet env base i (suc left)
  judge-Planned left i delay (some (retryable x), s) more e h =
      elim (Bool-cases (env.interrupted i)) [
        | inl b ↦
            simp b (one_more env base i left _ [] (rw e refl) (none_yet env base (suc i) left))
        | inr b ↦ simp b (one_more env base i left _ _ (rw e refl) (h s))
      ]

  judge_last-waits :
      (i delay : ℕ) (out : Option Failure × S) (more : S → Run S)
      → (judge env attempts f zero i delay out more).waits ≡ []
  unfolding judge
  judge_last-waits i delay (none, s) more = refl
  judge_last-waits i delay (some (permanent x), s) more = refl
  judge_last-waits i delay (some (retryable x), s) more = refl

  rounds_from-Planned :
      (left i delay : ℕ) (s : S)
      → delay ≡ nominal base i
      → Planned env base i left (rounds_from env attempts f left i delay s).waits
  unfolding rounds_from
  rounds_from-Planned zero i delay s e = elim (Bool-cases (env.ended i)) [
    | inl b ↦ simp b (none_yet env base i zero)
    | inr b ↦ simp b (simp (judge_last-waits i delay (f s)) (none_yet env base i zero))
  ]
  rounds_from-Planned (suc left) i delay s e = elim (Bool-cases (env.ended i)) [
    | inl b ↦ simp b (none_yet env base i (suc left))
    | inr b ↦ simp b (
        judge-Planned left i delay (f s) _ e
          λ s'. rounds_from-Planned left (suc i) _ s' (rw e (nominal-double base i)))
  ]

-- `Do` sleeps at most once less than it may call. Sleep `i` is the first delay doubled `i` times,
-- at most 30 seconds, with its jitter, and at most 30 seconds again.
pub do_retry-waits :
    {S : Type 0} (env : Rounds) (attempts base_delay : ℕ) (f : S → Option Failure × S) (s : S)
    → let waits = (do_retry env attempts base_delay f s).waits in
      (waits ≡ map (wait_of env (first_delay base_delay)) (upto 0 (length waits)))
      × (length waits ≤ attempts - 1)
unfolding do_retry
do_retry-waits env attempts base_delay f s =
    let allowed = calls_allowed attempts in
    let base = first_delay base_delay in
    let h = rounds_from-Planned env base allowed f (allowed - 1) 0 base s refl in
    (h.planned, ground (arith, h.few))
