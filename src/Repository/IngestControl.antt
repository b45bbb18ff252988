-- ===== src/Repository/IngestControl.antt =====
-- internal/repository/ingest_control.go: what the poller must remember over a restart.
-- The driver's own errors are the callers' faults.
pub mod Counts
use submission_triage.Prelude.{
  ℕ, suc, ◌+◌, Bool, true, false, ◌&&◌, not, Option, none, some, List, [], ◌∷◌, map, Text, codes,
  text_eq, ◌==◌, nat_eq, if◌then◌else◌, any, keep_if, Result, ok, err,
}
use submission_triage.Model.Submission.{Time}

-- A row of `poll_failures`.
pub record PollFailure : Type 0 where
  pub uid_validity : ℕ
  pub uid : ℕ
  pub attempts : ℕ
  pub last_error : Text
  pub updated_at : Time

-- `service_meta` and `poll_failures`.
pub record Control : Type 0 where
  pub meta : List (Text × Text)
  pub failures : List PollFailure

-- Time.Format and time.Parse in RFC 3339 with nanoseconds.
pub record TimeText : Type 0 where
  pub format : Time → Text
  pub parse : Text → Option Time

pub data ControlError : Type 0 where
  unparseable : ControlError

abbrev pub first_boot_key : Text
first_boot_key = codes "first_boot_at"

unfoldable pub lookup_meta : Text → List (Text × Text) → Option Text
lookup_meta key [] = none
lookup_meta key ((k, v) ∷ rows) =
    let rest = lookup_meta key rows in if k == key then some v else rest

abbrev parsed : Option Time → Result ControlError Time
parsed none = err unparseable
parsed (some t) = ok t

-- The `switch` over what the first query found.
unfoldable pub boot_from :
    TimeText → Time → Control → Option Text → Result ControlError Time × Control
boot_from clock now c (some raw) = (parsed (clock.parse raw), c)
boot_from clock now c none =
    (ok now, record c { meta = (first_boot_key, clock.format now) ∷ c.meta })

unfoldable pub first_boot_at : TimeText → Time → Control → Result ControlError Time × Control
unfolding boot_from lookup_meta
first_boot_at clock now c = boot_from clock now c (lookup_meta first_boot_key c.meta)

abbrev pub is_for : ℕ → ℕ → PollFailure → Bool
is_for uid_validity uid f = f.uid_validity == uid_validity && f.uid == uid

-- The failures that are recorded for a message.
unfoldable pub attempts_of : ℕ → ℕ → List PollFailure → ℕ
attempts_of uid_validity uid [] = 0
attempts_of uid_validity uid (f ∷ fs) =
    let rest = attempts_of uid_validity uid fs in
    if is_for uid_validity uid f then f.attempts else rest

-- The upsert, by its conflict clause.
unfoldable pub bump : ℕ → ℕ → Text → Time → List PollFailure → List PollFailure
bump uid_validity uid reason now [] =
    record {
      uid_validity = uid_validity;
      uid = uid;
      attempts = 1;
      last_error = reason;
      updated_at = now;
    }
    ∷ []
bump uid_validity uid reason now (f ∷ fs) =
    let rest = bump uid_validity uid reason now fs in
    if is_for uid_validity uid f
    then record f { attempts = f.attempts + 1; last_error = reason; updated_at = now } ∷ fs
    else f ∷ rest

-- `RecordFailure`, with the new count.
unfoldable pub record_failure : ℕ → ℕ → Text → Time → Control → ℕ × Control
unfolding bump attempts_of
record_failure uid_validity uid reason now c =
    let fs = bump uid_validity uid reason now c.failures in
    (attempts_of uid_validity uid fs, record c { failures = fs })

unfoldable pub clear_failure : ℕ → ℕ → Control → Control
clear_failure uid_validity uid c = record c {
  failures = keep_if (λ f. not (is_for uid_validity uid f)) c.failures;
}
