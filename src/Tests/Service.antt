-- ===== src/Tests/Service.antt =====
-- The theorems about internal/service, run.
use submission_triage.Prelude.{
  ◌≡◌, refl, true, false, [], ◌∷◌, codes, if◌then◌else◌, trim_space, index_of, any, count_if, ◌==◌,
  to_lower, text_eq,
}
use submission_triage.Model.Submission.{
  awaiting, transition_to, new_submission, attach_email, Submission, opened, Email,
}
use submission_triage.Model.Checklist.{policy_unknown_item, requires_review}
use submission_triage.Service.World.{
  database, append_all, append_entry, best_effort, modify, pure, gets, call, ◌>>=◌, ◌>>◌,
  flush_audit, flush_from, audit, audit_in, on_option, when, new_uuid,
}
use submission_triage.Service.Frame.{SameStore}
use submission_triage.Service.Threads.{
  candidates, get_checklist, reply_body_prefix, clean_thread_refs, compute_email_id,
  infer_policy_type,
}
use submission_triage.Service.Threads.References.{is_ref, clean_thread_refs-count}
use submission_triage.Service.Threads.Earliest.{IsEarliest, infer_policy_type-IsEarliest}
use submission_triage.Service.Evaluate.{
  evaluate, transition_state, build_reply, policy_clarify_exhausted,
}
use submission_triage.Service.Ingest.Asks.{assess-flagged}
use submission_triage.Service.Ingest.{
  Assessed, assess, IngestRequest, IngestResult, ingest_email, ingest_email_inner,
  resolve_submission, store_submission,
}
use submission_triage.Repository.Submissions.{
  find_by_email_reference, find_by_deterministic_id, upsert_submission,
}
use submission_triage.Service.Ingest.Settled.{SameSends}
use submission_triage.Service.Ingest.Outcome.{ingest_email-IsAtomic, ingest_email-quiet}
use submission_triage.Tests.Data.{
  checklist, submission, env, world, broken_world, request, bounce_request, inbound_mail,
}

ingest_email-IsAtomic_example : SameStore broken_world (ingest_email env request broken_world).1
unfolding ingest_email ingest_email_inner resolve_submission call ◌>>=◌ gets flush_audit flush_from
    append_all pure
ingest_email-IsAtomic_example =
    ingest_email-IsAtomic env request broken_world (ingest_email env request broken_world).1
      database refl

infer_policy_type-IsEarliest_example :
    IsEarliest
      (to_lower (codes "Property and CGL"))
      (candidates (checklist ∷ []))
      (infer_policy_type (codes "Property and CGL") (checklist ∷ []))
infer_policy_type-IsEarliest_example =
    infer_policy_type-IsEarliest (codes "Property and CGL") (checklist ∷ [])

clean_thread_refs-count_example :
    count_if (λ x. x == codes "m1") (clean_thread_refs (codes "m1") (codes " m1") (codes "m2" ∷ []))
    ≡ (if any (is_ref (codes "m1")) (codes "m1" ∷ codes " m1" ∷ codes "m2" ∷ []) then 1 else 0)
clean_thread_refs-count_example =
    clean_thread_refs-count (codes "m1") (codes " m1") (codes "m2" ∷ []) (codes "m1")

-- Asked about its policy often enough.
abbrev puzzling : Submission
puzzling = record submission { policy_type = codes "unknown"; policy_clarify_asks = 5 }

abbrev puzzling_mail : Email
puzzling_mail = record inbound_mail { subject = codes "hi" }

abbrev handed_on : Assessed
handed_on = record {
  submission = record puzzling {
    state = awaiting;
    updated_at = 7;
    last_action_at = 7;
    policy_clarify_asks = 6;
    missing_items = policy_unknown_item ∷ [];
    needs_review = true;
  };
  unknown = true;
}

assess-flagged_example : handed_on.submission.needs_review ≡ true
unfolding assess build_reply ◌>>=◌ evaluate get_checklist infer_policy_type index_of to_lower
    reply_body_prefix pure on_option ◌>>◌ audit audit_in best_effort append_entry call modify gets
    when requires_review policy_unknown_item transition_state transition_to policy_clarify_exhausted
assess-flagged_example =
    assess-flagged env false puzzling_mail puzzling world handed_on refl (refl, tt) refl

abbrev bounced : IngestResult
bounced = record {
  submission_id = 1 ∷ [];
  state = opened;
  is_duplicate = false;
  policy_unknown = false;
  needs_review = true;
  missing_items = [];
  reply_queued = false;
}

ingest_email-quiet_example :
    (bounced.reply_queued ≡ false) × SameSends world (ingest_email env bounce_request world).1
unfolding ingest_email call ◌>>=◌ ◌>>◌ gets pure flush_audit flush_from append_all append_entry
    best_effort modify audit audit_in on_option when new_uuid find_by_email_reference
    find_by_deterministic_id clean_thread_refs store_submission upsert_submission attach_email
    new_submission trim_space compute_email_id
ingest_email-quiet_example =
    ingest_email-quiet env bounce_request world (ingest_email env bounce_request world).1 bounced
      refl refl

abbrev asked : IngestResult
asked = record {
  submission_id = 1 ∷ [];
  state = awaiting;
  is_duplicate = false;
  policy_unknown = true;
  needs_review = false;
  missing_items = policy_unknown_item ∷ [];
  reply_queued = true;
}

abbrev vague : IngestRequest
vague = record request { subject = codes "hi" }
