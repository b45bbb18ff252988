-- ===== src/Service/Ingest.antt =====
-- internal/service/submissions.go: one inbound email, from its submission to what is committed.
-- Concurrent deliveries of one email are collapsed before this runs.
pub mod Frame
pub mod Settled
pub mod Queue
pub mod Outcome
pub mod Asks
use submission_triage.Prelude.{
  ℕ, ◌-◌, Bool, true, false, ◌&&◌, ◌||◌, not, Option, none, some, List, [], ◌∷◌, ◌++◌, Text,
  text_eq, nat_eq, ◌==◌, if◌then◌else◌, is_empty, any, map, Result, ok, err, leb, length,
}
use submission_triage.Model.Submission.{
  Time, State, inbound, Attachment, Email, Document, Submission, MissingItem, new_submission,
  mark_action, attach_email,
}
use submission_triage.Model.Checklist.{evaluate_checklist, requires_review}
use submission_triage.Model.Reply.{Reply}
use submission_triage.Repository.Outbox.{OutboxEntry, pending, insert_outbox_row}
use submission_triage.Repository.Submissions.{
  upsert_submission, find_by_email_reference, find_by_deterministic_id, find_content_match,
}
use submission_triage.Service.World.{
  on_option, on_answer, Event, World, AuditEntry, ReplyJob, M, pure, raise, gets, modify, call,
  ◌>>=◌, ◌>>◌, Env, Error, database, audit, flush_audit, when, new_uuid, claim_dispatch,
  release_dispatch,
}
use submission_triage.Service.Threads.{
  clean_thread_refs, compute_email_id, infer_policy_type, get_checklist, policy_type_unknown,
}
use submission_triage.Service.Evaluate.{
  Evaluated, evaluate, extract_identity, transition_state, build_reply, reply_suppressed,
  policy_clarify_exhausted, reply_not_before,
}

pub record IngestRequest : Type 0 where
  pub message_id : Text
  pub in_reply_to : Text
  pub references : List Text
  pub from_address : Text
  pub from_name : Text
  pub reply_to : Text
  pub to_addresses : List Text
  pub subject : Text
  pub body_text : Text
  pub received_at : Time
  pub attachments : List Attachment
  pub auto_submitted : Bool
  pub bounce : Bool
  pub bounce_permanent : Bool

pub record IngestResult : Type 0 where
  pub submission_id : Text
  pub state : State
  pub is_duplicate : Bool
  pub policy_unknown : Bool
  pub needs_review : Bool
  pub missing_items : List MissingItem
  pub reply_queued : Bool

unfoldable pub inbound_email : IngestRequest → Text → Text → Email
inbound_email req email_id sid = record {
  deterministic_id = email_id;
  submission_id = sid;
  direction = inbound;
  message_id = req.message_id;
  in_reply_to = req.in_reply_to;
  references = req.references;
  from_address = req.from_address;
  from_name = req.from_name;
  reply_to = req.reply_to;
  to_addresses = req.to_addresses;
  subject = req.subject;
  body_text = req.body_text;
  received_at = req.received_at;
  provider_msg_id = [];
  attachments = req.attachments;
}

thread_key : IngestRequest → Text
thread_key req = elim req.references [ [] ↦ req.message_id | r ∷ _ ↦ r ]

unfoldable pub create_submission : Env → IngestRequest → M Submission
unfolding thread_key
create_submission env req = do
  id ← new_uuid env
  now ← gets (λ w. w.now)
  audit id Event.state_transitioned
  pure (
      new_submission id (infer_policy_type req.subject env.checklists) req.subject req.from_address
        req.from_name (thread_key req) now)

unfoldable pub duplicate_of : Submission → IngestResult
duplicate_of s = record {
  submission_id = s.id;
  state = s.state;
  is_duplicate = true;
  policy_unknown = false;
  needs_review = false;
  missing_items = [];
  reply_queued = false;
}

-- The submission that an email belongs to, or the one that has the email already.
pub data Resolved : Type 0 where
  belongs : Submission → Resolved
  duplicate : Submission → Resolved

-- A submission was found by the thread headers.
unfoldable pub on_thread : Text → Submission → Bool → M Resolved
on_thread email_id s ambiguous =
    if any (λ e. e.deterministic_id == email_id) s.emails
    then audit s.id Event.email_duplicate >> pure (duplicate s)
    else when ambiguous (audit s.id Event.thread_ambiguous)
      >> audit s.id Event.thread_matched
      >> pure (belongs s)

-- None was: a redelivery is looked up by its id, and else a submission is created.
unfoldable pub off_thread : Env → IngestRequest → Text → M Resolved
unfolding create_submission
off_thread env req email_id =
    call (gets λ w. find_by_deterministic_id email_id w.tables) >>= λ existing.
    on_option existing (create_submission env req >>= λ s. pure (belongs s))
      (λ s. audit s.id Event.email_duplicate >> pure (duplicate s))

unfoldable pub resolve_submission : Env → IngestRequest → Text → M Resolved
unfolding on_thread off_thread
resolve_submission env req email_id =
    let refs = clean_thread_refs req.message_id req.in_reply_to req.references in
    call (gets λ w. find_by_email_reference refs w.tables) >>= λ found.
    on_option found (off_thread env req email_id) (λ (s, ambiguous). on_thread email_id s ambiguous)

reparent : Text → Text → AuditEntry → AuditEntry
reparent from to e = if e.submission_id == from then record e { submission_id = to } else e

unfoldable pub reparent_audits : Text → Text → World → World
unfolding reparent
reparent_audits from to w = elim w.collector [
  | none ↦ w
  | some entries ↦ record w { collector = some (map (reparent from to) entries) }
]

merge_documents : Submission → Submission → Submission
merge_documents s existing = record existing {
  documents =
      existing.documents
      ++ map (λ (d : Document). record d { submission_id = existing.id }) s.documents;
}

fill_identity : Submission → Submission → Submission
fill_identity s existing =
    if is_empty existing.named_insured
    then record existing { named_insured = s.named_insured; effective_date = s.effective_date }
    else existing

reevaluate : Env → Submission → Submission
reevaluate env s = elim (get_checklist s.policy_type env.checklists) [
  | none ↦ s
  | some cl ↦ record s {
    missing_items = evaluate_checklist env.strconv env.confidence_floor s.documents cl;
  }
]

-- The existing submission with the new one's email and documents.
unfoldable pub merge_into : Env → Time → Submission → Email → Submission → Submission
unfolding merge_documents fill_identity reevaluate
merge_into env now s e existing = reevaluate env (
    mark_action now (
      fill_identity s
        (merge_documents s (attach_email (record e { submission_id = existing.id }) existing))))

-- A lookup that fails is logged, and nothing is matched.
unfoldable pub find_match : Env → Submission → M (Option Submission)
find_match env s w =
    let (r, w') =
      call
        (gets λ w.
          find_content_match env.sql_trim s.named_insured s.from_address (w.now - env.match_window)
            w.tables)
        w in
    elim r [ ok found ↦ (ok found, w') | err _ ↦ (ok none, w') ]

unfoldable pub content_match : Env → Submission → Email → M (Option Submission)
unfolding find_match reparent_audits
content_match env s e =
    if is_empty s.named_insured
    then pure none
    else find_match env s >>= λ found. on_option found (pure none) (λ existing. do
      modify (reparent_audits s.id existing.id)
      now ← gets (λ w. w.now)
      audit existing.id Event.thread_matched_by_content
      pure (some (merge_into env now s e existing)))

-- The submission after the email is attached: the activity clock, and the bounce flag.
touch : IngestRequest → Time → Submission → Submission
touch req now s =
    let s1 = if not req.auto_submitted && not req.bounce then mark_action now s else s in
    if not req.bounce then record s1 { delivery_failed = false } else s1

unfoldable pub receive : IngestRequest → Text → Submission → M Submission
unfolding touch
receive req email_id s = do
  now ← gets (λ w. w.now)
  when (not req.bounce && s.delivery_failed) (audit s.id Event.delivery_retried)
  audit s.id Event.email_received
  pure (touch req now (attach_email (inbound_email req email_id s.id) s))

-- What the rest of the ingest decides on.
pub record Assessed : Type 0 where
  pub submission : Submission
  pub unknown : Bool

unfoldable pub merge_if_new : Env → Bool → Email → Assessed → M Assessed
merge_if_new env is_new e a =
    if not is_new
    then pure a
    else content_match env a.submission e >>= λ found. on_option found (pure a) (λ merged.
      pure (record { submission = merged; unknown = merged.policy_type == policy_type_unknown }))

unfoldable pub flag_review : Env → Submission → M Submission
flag_review env s =
    let flagged = requires_review s.missing_items || policy_clarify_exhausted env s in
    when (flagged && not s.needs_review) (audit s.id Event.needs_review)
    >> pure (record s { needs_review = flagged })

-- From the evaluation to the transition.
unfoldable pub assess : Env → Bool → Email → Submission → M Assessed
unfolding merge_if_new flag_review
assess env is_new e s = do
  evaluated ← evaluate env e s
  identified ←
      (if evaluated.unknown
        then pure evaluated.submission
        else extract_identity env evaluated.submission)
  a ← merge_if_new env is_new e (record { submission = identified; unknown = evaluated.unknown })
  flagged ← flag_review env a.submission
  moved ← transition_state flagged
  pure (record { submission = moved; unknown = a.unknown })

abbrev result_of : Submission → Bool → Bool → IngestResult
result_of s unknown queued = record {
  submission_id = s.id;
  state = s.state;
  is_duplicate = false;
  policy_unknown = unknown;
  needs_review = s.needs_review;
  missing_items = s.missing_items;
  reply_queued = queued;
}

-- The transaction of `UpsertSubmission`.
unfoldable pub store_submission : Submission → M (Unit {0})
store_submission s = call λ w. elim (upsert_submission w.now s w.tables) [
  | none ↦ raise database w
  | some t ↦ pure tt (record w { tables = t })
]

-- `UpsertSubmissionWithReply`: the submission and the reply in one transaction.
unfoldable pub store_with_reply : Submission → OutboxEntry → M OutboxEntry
store_with_reply s e = call λ w. elim (upsert_submission w.now s w.tables) [
  | none ↦ raise database w
  | some t ↦ elim (insert_outbox_row w.now e.id e w.outbox) [
    | none ↦ raise database w
    | some (e', rows) ↦ pure e' (record w { tables = t; outbox = rows })
  ]
]

-- `persistNoReply`.
unfoldable pub persist_no_reply : Assessed → M IngestResult
persist_no_reply a = store_submission a.submission >> pure (result_of a.submission a.unknown false)

unfoldable pub persist_suppressed : Assessed → M IngestResult
persist_suppressed a = do
  store_submission a.submission
  audit a.submission.id Event.reply_suppressed
  pure (result_of a.submission a.unknown false)

unfoldable pub persist_bounce : IngestRequest → Submission → M IngestResult
persist_bounce req s =
    let s' =
      if req.bounce_permanent
      then record s { delivery_failed = true; needs_review = true }
      else s in
    do
      audit s'.id Event.reply_bounced
      store_submission s'
      pure (record (result_of s' false false) { missing_items = [] })

-- `enqueueReply`: false if the pool is closing or its queue is full.
unfoldable pub enqueue_reply : Env → ReplyJob → M Bool
enqueue_reply env job w =
    if w.closed || leb env.queue_size (length w.reply_jobs)
    then (ok false, w)
    else (ok true, record w { reply_jobs = w.reply_jobs ++ job ∷ [] })

unfoldable pub new_entry : Text → Submission → Reply → Time → OutboxEntry
new_entry id s reply not_before = record {
  id = id;
  submission_id = s.id;
  reply = reply;
  status = pending;
  attempts = 0;
  last_error = [];
  created_at = 0;
  updated_at = 0;
  not_before = not_before;
}

-- The claim is given up unless the job was handed to the workers.
unfoldable pub hand_over : Env → Bool → Time → Submission → Reply → OutboxEntry → M (Unit {0})
hand_over env claimed now s reply e =
    let job : ReplyJob = record {
      reply = reply;
      submission_id = s.id;
      outbox_id = e.id;
      version = e.updated_at;
    } in
    if claimed && leb e.not_before now
    then enqueue_reply env job >>= (λ queued. if queued then pure tt else release_dispatch s.id)
    else when claimed (release_dispatch s.id)

-- On an error of the transaction the claim is given up and the error is returned.
unfoldable pub store_or_release : Bool → Submission → OutboxEntry → M OutboxEntry
store_or_release claimed s e w =
    let (r, w') = store_with_reply s e w in
    elim r [ ok e' ↦ (ok e', w') | err x ↦ (when claimed (release_dispatch s.id) >> raise x) w' ]

-- What follows the claim.
unfoldable pub queue_claimed :
    Env → Submission → Reply → OutboxEntry → Time → Bool → Bool → M IngestResult
unfolding hand_over store_or_release
queue_claimed env s reply entry now unknown claimed = do
  e ← store_or_release claimed s entry
  hand_over env claimed now s reply e
  pure (result_of s unknown true)

unfoldable pub queue_reply : Env → Assessed → Reply → Text → M IngestResult
unfolding new_entry queue_claimed
queue_reply env a reply fingerprint =
    let s = record (a.submission) { last_reply_hash = fingerprint } in
    do
      now ← gets (λ w. w.now)
      id ← new_uuid env
      claimed ← claim_dispatch s.id
      queue_claimed env s reply (new_entry id s reply (reply_not_before env s now)) now a.unknown
          claimed

-- `switch` over whether and why no reply goes out.
unfoldable pub answer_or_not : Env → Email → Assessed → M IngestResult
unfolding persist_no_reply queue_reply
answer_or_not env e a =
    on_option (build_reply env a.submission e a.unknown) (persist_no_reply a)
      (λ (reply, fingerprint). reply_suppressed env a.submission >>= λ blocked.
        if blocked
        then persist_no_reply a
        else if fingerprint == a.submission.last_reply_hash
        then audit a.submission.id Event.reply_suppressed >> persist_no_reply a
        else queue_reply env a reply fingerprint)

unfoldable pub settle : Env → IngestRequest → Email → Assessed → M IngestResult
unfolding persist_suppressed answer_or_not
settle env req e a = if req.auto_submitted then persist_suppressed a else answer_or_not env e a

-- What follows the attaching of the email.
unfoldable pub ingest_received : Env → IngestRequest → Email → Bool → Submission → M IngestResult
unfolding persist_bounce assess settle
ingest_received env req e is_new s =
    if req.bounce then persist_bounce req s else assess env is_new e s >>= settle env req e

unfoldable pub ingest_into : Env → IngestRequest → Text → Submission → M IngestResult
unfolding receive ingest_received
ingest_into env req email_id s =
    receive req email_id s
    >>= ingest_received env req (inbound_email req email_id s.id) (is_empty s.emails)

unfoldable pub ingest_resolved : Env → IngestRequest → Text → Resolved → M IngestResult
unfolding duplicate_of
ingest_resolved env req email_id (duplicate s) = pure (duplicate_of s)
ingest_resolved env req email_id (belongs s) = ingest_into env req email_id s

unfoldable pub ingest_email_inner : Env → IngestRequest → Text → M IngestResult
unfolding resolve_submission ingest_resolved ingest_into
ingest_email_inner env req email_id w =
    let (r, w') =
      (resolve_submission env req email_id >>= ingest_resolved env req email_id)
        (record w { collector = some [] }) in
    let (_, w'') = flush_audit w' in (r, w'')

-- A request without a date is dated now.
dated : Time → IngestRequest → IngestRequest
dated now req = record req { received_at = if req.received_at == 0 then now else req.received_at }

unfoldable pub ingest_email : Env → IngestRequest → M IngestResult
unfolding ingest_email_inner dated
ingest_email env req w =
    let req' = dated w.now req in
    ingest_email_inner env req'
      (compute_email_id env.sha256 req'.message_id req'.body_text req'.attachments) w
