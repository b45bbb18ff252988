-- ===== src/Tests/Data.antt =====
-- Concrete values for the runs.
use submission_triage.Prelude.{true, false, none, some, [], ◌∷◌, codes, float_zero}
use submission_triage.Model.Submission.{
  opened, MissingItem, not_provided, inbound, Email, Document, Submission,
}
use submission_triage.Model.Checklist.{Strconv, RequiredItem, Checklist}
use submission_triage.Model.Reply.{Reply}
use submission_triage.Repository.Outbox.{OutboxEntry, pending, Row, row_of}
use submission_triage.Service.World.{World, Env}
use submission_triage.Service.Ingest.{IngestRequest}

abbrev pub item : RequiredItem
item = record {
  id = codes "acord_125";
  description = codes "Application";
  rules = record { filename_patterns = []; content_keywords = [] };
  requires_field = none;
}

abbrev pub losses : RequiredItem
losses = record item { id = codes "loss_runs"; description = codes "Loss runs" }

abbrev pub checklist : Checklist
checklist = record {
  name = codes "General Liability";
  policy_type = codes "cgl";
  required = item ∷ losses ∷ [];
  escalation = record { threshold_hours = 24; digest_recipient = [] };
}

abbrev pub conv : Strconv
conv = record { parse_float = λ s. none; format_float = λ x. [] }

abbrev pub document : Document
document = record {
  id = codes "d1";
  submission_id = codes "s1";
  email_id = codes "e1";
  filename = codes "acord.pdf";
  content_type = codes "application/pdf";
  size_bytes = 10;
  sha256 = [];
  classified_as = codes "acord_125";
  confidence = float_zero;
  classified_by = codes "filename";
  extracted_text = [];
  extracted_fields = none;
  unreadable = false;
  encrypted = false;
  created_at = 5;
}

abbrev pub missing : MissingItem
missing = record {
  id = codes "loss_runs";
  description = codes "Loss runs";
  reason = [];
  code = not_provided;
  confidence = float_zero;
}

abbrev pub submission : Submission
submission = record {
  id = codes "s1";
  policy_type = codes "cgl";
  state = opened;
  subject_line = codes "CGL";
  from_address = codes "a@b";
  from_name = [];
  thread_key = [];
  created_at = 1;
  updated_at = 1;
  last_action_at = 1;
  last_reply_at = 0;
  escalated_at = none;
  needs_review = false;
  on_hold = false;
  delivery_failed = false;
  named_insured = [];
  effective_date = none;
  last_escalated_at = none;
  completed_at = none;
  last_reply_hash = [];
  policy_clarify_asks = 0;
  emails = [];
  documents = [];
  missing_items = [];
}

abbrev pub reply : Reply
reply = record {
  submission_id = codes "s1";
  to_address = codes "a@b";
  subject = codes "Re: CGL";
  body_text = codes "hi";
  in_reply_to = [];
  references = [];
}

abbrev pub entry : OutboxEntry
entry = record {
  id = codes "o1";
  submission_id = codes "s1";
  reply = reply;
  status = pending;
  attempts = 0;
  last_error = [];
  created_at = 3;
  updated_at = 3;
  not_before = 0;
}

abbrev pub row : Row
row = row_of entry

-- A second reply of the same submission, and one of another.
abbrev pub follow_up : OutboxEntry
follow_up = record entry { id = codes "o2"; reply = record reply { body_text = codes "later" } }

abbrev pub stranger : OutboxEntry
stranger = record entry { id = codes "o3"; submission_id = codes "s2" }

abbrev pub env : Env
env = record {
  sha256 = λ s. s;
  strconv = conv;
  uuid = λ n. n ∷ [];
  sql_trim = λ s. s;
  checklists = checklist ∷ [];
  confidence_floor = float_zero;
  replies_enabled = none;
  policy_clarify_max_asks = 2;
  match_window = 100;
  coalesce_window = 10;
  queue_size = 4;
  outbox_retry_after = 10;
  outbox_max_attempts = 3;
  outbox_batch = 10;
  attachment_link_domains = [];
  unreadable_min_size_bytes = 100;
  unreadable_min_chars = 5;
  media_type = λ s. some s;
  extractor = λ s. none;
  classify = λ i. record {
    candidate_id = codes "acord_125";
    confidence = float_zero;
    by = codes "filename";
    capped = false;
    failed = false;
    used = false;
  };
  extract_field = none;
  extract_identity = none;
  parse_date = λ s. none;
}

abbrev pub world : World
world = record {
  tables = record { submissions = []; emails = []; documents = [] };
  outbox = [];
  audit_log = [];
  now = 7;
  faults = [];
  next_id = 1;
  collector = none;
  capped_day = none;
  dispatching = [];
  reply_jobs = [];
  closed = false;
  mailed = [];
  send_results = [];
}

-- The first call of the repository fails.
abbrev pub broken_world : World
broken_world = record world { faults = true ∷ [] }

abbrev pub request : IngestRequest
request = record {
  message_id = codes "m1";
  in_reply_to = [];
  references = [];
  from_address = codes "a@b";
  from_name = [];
  reply_to = [];
  to_addresses = [];
  subject = codes "cgl";
  body_text = codes "hi";
  received_at = 6;
  attachments = [];
  auto_submitted = false;
  bounce = false;
  bounce_permanent = false;
}

abbrev pub bounce_request : IngestRequest
bounce_request = record request { bounce = true; bounce_permanent = true }

abbrev pub inbound_mail : Email
inbound_mail = record {
  deterministic_id = codes "e1";
  submission_id = codes "s1";
  direction = inbound;
  message_id = codes "m1";
  in_reply_to = [];
  references = [];
  from_address = codes "a@b";
  from_name = [];
  reply_to = [];
  to_addresses = [];
  subject = codes "cgl";
  body_text = [];
  received_at = 6;
  provider_msg_id = [];
  attachments = [];
}
