-- ===== src/Tests/Workers.antt =====
-- The theorems about the sweeps and the Hold folder, run.
use submission_triage.Prelude.{◌≡◌, refl, true, none, some, [], ◌∷◌, codes, All}
use submission_triage.Model.Submission.{awaiting, escalated, Submission}
use submission_triage.Repository.Submissions.{
  submission_ids_by_message_ids, Tables, inserted_row, updated_row, upsert_submission, find_row,
}
use submission_triage.Repository.Submissions.Kept.{IsKept, upsert_submission-IsKept}
use submission_triage.Service.World.{World}
use submission_triage.Service.Dispatch.{redeliver_outbox}
use submission_triage.Service.Dispatch.Attempts.{AttemptsLeft}
use submission_triage.Service.Dispatch.Sweep.{redeliver_outbox-AttemptsLeft}
use submission_triage.Service.Escalation.{Schedule, check_escalations, check_closures}
use submission_triage.Service.Escalation.Quiet.{IsQuiet, sweeps-IsQuiet}
use submission_triage.Service.Hold.{reconcile_hold}
use submission_triage.Service.Hold.Flags.{IsMember}
use submission_triage.Service.Hold.Membership.{reconcile_hold-IsMember}
use submission_triage.Tests.Data.{env, world, row, missing, submission, inbound_mail}

-- One due reply, which the provider refuses.
abbrev busy : World
busy = record world { outbox = row ∷ []; send_results = none ∷ [] }

redeliver_outbox-AttemptsLeft_example :
    AttemptsLeft 3 (redeliver_outbox env busy).1.outbox
    × ((redeliver_outbox env busy).1.dispatching ≡ [])
redeliver_outbox-AttemptsLeft_example = redeliver_outbox-AttemptsLeft env busy (refl, tt)

abbrev other_submission : Submission
other_submission = record submission { id = codes "s2"; on_hold = true }

-- One submission to hold and one to release.
abbrev folder_world : World
folder_world = record world {
  tables = record {
    submissions = submission ∷ other_submission ∷ [];
    emails = inbound_mail ∷ [];
    documents = [];
  };
}

reconcile_hold-IsMember_example :
    All
      (IsMember (submission_ids_by_message_ids (codes "m1" ∷ []) folder_world.tables))
      (reconcile_hold (codes "m1" ∷ []) folder_world).1.tables.submissions
reconcile_hold-IsMember_example =
    reconcile_hold-IsMember (codes "m1" ∷ []) folder_world refl (refl, (refl, tt))

abbrev stored : Tables
stored = record { submissions = inserted_row 7 submission ∷ []; emails = []; documents = [] }

upsert_submission-IsKept_example :
    IsKept
      (record submission { on_hold = true; created_at = 9 })
      (inserted_row 7 submission)
      (find_row
        (codes "s1")
        (record stored {
          submissions =
              updated_row 8
                (record submission { on_hold = true; created_at = 9 })
                (inserted_row 7 submission)
              ∷ [];
        }).submissions)
unfolding upsert_submission find_row
upsert_submission-IsKept_example =
    upsert_submission-IsKept 8 (record submission { on_hold = true; created_at = 9 })
      (inserted_row 7 submission) stored
      (record stored {
        submissions =
            updated_row 8 (record submission { on_hold = true; created_at = 9 })
              (inserted_row 7 submission)
            ∷ [];
      })
      refl refl

abbrev schedule : Schedule
schedule = record {
  threshold = 4;
  bind_window = 10;
  min_gap = 2;
  bind_grace = 0;
  auto_close_after = 3;
  awaiting_auto_close_after = 5;
}

-- One submission that waits for its broker, and one that was escalated.
abbrev quiet_world : World
quiet_world = record world {
  tables = record {
    submissions =
        record submission { policy_type = []; state = awaiting; missing_items = missing ∷ [] }
        ∷ record submission {
          id = codes "s3";
          state = escalated;
          escalated_at = some 2;
          missing_items = missing ∷ [];
        }
        ∷ [];
    emails = [];
    documents = [];
  };
}

sweeps-IsQuiet_example :
    IsQuiet quiet_world (check_escalations env schedule quiet_world).1
    × IsQuiet quiet_world (check_closures schedule quiet_world).1
unfolding submission_triage.Model.Checklist.broker_actionable
sweeps-IsQuiet_example = sweeps-IsQuiet env schedule quiet_world (refl, (refl, tt))
