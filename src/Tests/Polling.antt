-- ===== src/Tests/Polling.antt =====
-- The theorems about the poller, run.
use submission_triage.Prelude.{
  ◌≡◌, refl, true, false, none, [], ◌∷◌, codes, nat_eq, inl, trim_space, trim_set,
}
use submission_triage.Pkg.EmlParse.Mime.{Payload}
use submission_triage.Service.World.{
  call, ◌>>=◌, gets, flush_audit, flush_from, append_all, pure, ◌>>◌, append_entry, best_effort,
  modify, audit, audit_in, on_option, when, new_uuid,
}
use submission_triage.Service.Ingest.{IngestRequest, IngestResult, ingest_email, store_submission}
use submission_triage.Model.Submission.{opened, new_submission, attach_email}
use submission_triage.Repository.Submissions.{
  find_by_email_reference, find_by_deterministic_id, upsert_submission,
}
use submission_triage.Service.Threads.{clean_thread_refs, compute_email_id}
use submission_triage.Service.Ingest.Settled.{SameSends}
use submission_triage.Delivery.EmailIngest.{Reading, translate, trim_angle}
use submission_triage.Delivery.EmailIngest.Flags.{automatic_mail-quiet}
use submission_triage.Delivery.Imap.Mailbox.{Mail, Post}
use submission_triage.Delivery.Imap.Poller.{Poller, process, poll_once}
use submission_triage.Delivery.Imap.Filing.{AllFiledSeen, poll_once-AllFiledSeen}
use submission_triage.Delivery.Imap.Loss.{Has, poll_once-Has}
use submission_triage.Tests.Data.{env, world, broken_world}
use submission_triage.Tests.Mail.{mime, payload}

abbrev reading : Reading
reading = record { mime = mime; parse_date = λ s. none; sha256 = λ s. s }

abbrev poller : Poller
poller = record {
  env = env;
  reading = reading;
  time_text = record { format = λ t. []; parse = λ s. none };
  client = record { max_bytes = 100; folder_prefix = []; delim = codes "/" };
  batch_limit = 50;
  max_attempts = 2;
  file_by_status = true;
  folders = record {
    complete = codes "Complete";
    awaiting = codes "Waiting";
    escalated = codes "Escalated";
    unknown_policy = codes "Unknown";
  };
  hold_folder = codes "Hold";
  hold_scan_limit = 10;
  configured_cutoff = 0;
  envelope_id = λ raw. raw;
  error_text = λ e. [];
}

abbrev mail : Mail
mail = record {
  uid = 4;
  raw = codes "raw";
  delivered = 5;
  seen = false;
  flagged = false;
  deleted = false;
  folder = none;
}

abbrev post : Post
post = record {
  world = world;
  control = record { meta = []; failures = [] };
  mails = mail ∷ [];
  uid_validity = 1;
  caps = record { can_move = false; uid_plus = true };
  faults = [];
}

abbrev after_failure : Post → Post
after_failure p = process poller mail (record p { world = broken_world })

poll_once-AllFiledSeen_example : AllFiledSeen (poll_once poller 0 true post).mails
poll_once-AllFiledSeen_example = poll_once-AllFiledSeen poller 0 true post (inl refl, tt)

poll_once-Has_example : Has (codes "raw") (poll_once poller 0 true post).mails
poll_once-Has_example = poll_once-Has poller 0 true post (codes "raw") refl

-- A bounce as it was read from a mailer daemon.
abbrev report : Payload
report = record payload {
  message_id = codes "m1";
  from = codes "mailer-daemon@x";
  from_full = record { email = codes "mailer-daemon@x"; name = [] };
  subject = codes "cgl";
  text_body = codes "hi";
  headers = [];
  attachments = [];
  bounce = true;
  bounce_permanent = true;
  bounced_message_id = [];
}

abbrev request_of_report : IngestRequest
request_of_report = translate reading world.now report

abbrev outcome : IngestResult
outcome = record {
  submission_id = 1 ∷ [];
  state = opened;
  is_duplicate = false;
  policy_unknown = false;
  needs_review = true;
  missing_items = [];
  reply_queued = false;
}

automatic_mail-quiet_example :
    (outcome.reply_queued ≡ false) × SameSends world (ingest_email env request_of_report world).1
unfolding ingest_email call ◌>>=◌ ◌>>◌ gets pure flush_audit flush_from append_all append_entry
    best_effort modify audit audit_in on_option when new_uuid find_by_email_reference
    find_by_deterministic_id clean_thread_refs store_submission upsert_submission attach_email
    new_submission trim_space compute_email_id translate trim_set trim_angle
automatic_mail-quiet_example =
    automatic_mail-quiet env reading report world (ingest_email env request_of_report world).1
      outcome refl refl
