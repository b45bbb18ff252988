-- ===== src/Repository/IngestControl/Counts.antt =====
-- internal/repository/ingest_control.go: the failure counts and the first boot.
use submission_triage.Prelude.{
  ℕ, suc, ◌≡◌, refl, ◌&&◌, not, none, some, List, [], ◌∷◌, Text, text_eq, nat_eq, ◌==◌,
  if◌then◌else◌, arith, keep_if, ok,
}
use submission_triage.Model.Submission.{Time}
use submission_triage.Repository.IngestControl.{
  PollFailure, Control, TimeText, first_boot_key, lookup_meta, boot_from, first_boot_at, is_for,
  attempts_of, bump, record_failure, clear_failure,
}

pub attempts_of-bump :
    (v u v' u' : ℕ) (reason : Text) (now : Time) (fs : List PollFailure)
    → attempts_of v' u' (bump v u reason now fs)
      ≡ (if v == v' && u == u' then suc (attempts_of v' u' fs) else attempts_of v' u' fs)
unfolding attempts_of bump
attempts_of-bump v u v' u' reason now [] = ground arith
attempts_of-bump v u v' u' reason now (f ∷ fs) =
    ground (arith, attempts_of-bump v u v' u' reason now fs)

attempts_of-clear :
    (v u v' u' : ℕ) (fs : List PollFailure)
    → attempts_of v' u' (keep_if (λ f. not (is_for v u f)) fs)
      ≡ (if v == v' && u == u' then 0 else attempts_of v' u' fs)
unfolding attempts_of
attempts_of-clear v u v' u' [] = ground arith
attempts_of-clear v u v' u' (f ∷ fs) = ground (arith, attempts_of-clear v u v' u' fs)

-- A recorded failure is counted for its message alone and the new count is returned; a message that
-- is cleared starts from 0 again and no other does.
pub record_failure-attempts_of :
    (v u v' u' : ℕ) (reason : Text) (now : Time) (c : Control)
    → let (attempts, c') = record_failure v u reason now c in
      let before = attempts_of v' u' c.failures in
      (attempts ≡ suc (attempts_of v u c.failures))
      × (attempts_of v' u' c'.failures ≡ (if v == v' && u == u' then suc before else before))
      × (attempts_of v' u' (clear_failure v u c).failures
          ≡ (if v == v' && u == u' then 0 else before))
unfolding record_failure clear_failure
record_failure-attempts_of v u v' u' reason now c = (
  ground (arith, attempts_of-bump v u v u reason now c.failures),
  attempts_of-bump v u v' u' reason now c.failures,
  attempts_of-clear v u v' u' c.failures,
)

-- The first boot is kept: whatever the time is at a later boot, the time of the first one is read,
-- where a formatted time is read back as it was.
pub first_boot_at_again :
    (clock : TimeText) (now later : Time) (c : Control)
    → lookup_meta first_boot_key c.meta ≡ none
    → clock.parse (clock.format now) ≡ some now
    → first_boot_at clock later (first_boot_at clock now c).1
      ≡ (ok now, (first_boot_at clock now c).1)
unfolding first_boot_at boot_from lookup_meta
first_boot_at_again clock now later c h round = simp (h, round) refl
