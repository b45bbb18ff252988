-- ===== src/Service/Dispatch.antt =====
-- internal/service/submissions.go: sending the queued replies, online and by the sweep of the outbox.
-- The context is not cancelled while a sweep runs.
pub mod Attempts
pub mod Sweep
use submission_triage.Prelude.{
  ℕ, ◌+◌, ◌<◌, Bool, true, false, ◌&&◌, ◌||◌, not, Option, none, some, List, [], ◌∷◌, ◌++◌, Text,
  text_eq, ◌==◌, contains, if◌then◌else◌, is_empty, codes, Result, ok, err, ltb, map,
}
use submission_triage.Model.Submission.{Time, outbound, Email}
use submission_triage.Model.Reply.{Reply}
use submission_triage.Repository.Outbox.{
  OutboxEntry, pending, failed, Fresh, gone, undecodable, found, list_pending, get_pending,
  try_update, mark_sent,
}
use submission_triage.Repository.Submissions.{
  upsert_email_row, set_last_reply_at, clear_reply_hash, reply_blocked_ids,
}
use submission_triage.Service.World.{
  World, Event, ReplyJob, M, pure, raise, gets, modify, attempt, call, best_effort, ◌>>=◌, ◌>>◌,
  Env, Error, send, audit, when, claim_dispatch, release_dispatch,
}
use submission_triage.Service.Evaluate.{is_off}

unfoldable pub outbound_email : Env → Reply → Text → Time → Email
outbound_email env r provider_id now =
    let key =
      if is_empty provider_id
      then r.submission_id ++ 0 ∷ r.to_address ++ 0 ∷ r.subject ++ 0 ∷ r.body_text
      else r.submission_id ++ 0 ∷ provider_id in
    record {
      deterministic_id = env.sha256 key;
      submission_id = r.submission_id;
      direction = outbound;
      message_id = provider_id;
      in_reply_to = r.in_reply_to;
      references = r.references;
      from_address = [];
      from_name = [];
      reply_to = [];
      to_addresses = r.to_address ∷ [];
      subject = r.subject;
      body_text = r.body_text;
      received_at = now;
      provider_msg_id = provider_id;
      attachments = [];
    }

-- SendThreadedReply: the provider's id or an error, as the world says; past its list, an error.
unfoldable pub send_reply : Reply → M Text
send_reply reply w = elim w.send_results [
  | [] ↦ (err send, w)
  | none ∷ rest ↦ (err send, record w { send_results = rest })
  | some id ∷ rest ↦ (ok id, record w { send_results = rest; mailed = w.mailed ++ reply ∷ [] })
]

record_email : Email → M (Unit {0})
record_email e = call (
    modify (λ w. record w {
      tables = record (w.tables) { emails = upsert_email_row e w.tables.emails };
    }))

record_reply_time : Text → Time → M (Unit {0})
record_reply_time sid now =
    call (modify (λ w. record w { tables = set_last_reply_at sid now w.tables }))

unfoldable pub deliver : Env → Reply → Text → M (Unit {0})
unfolding record_email record_reply_time
deliver env reply sid = do
  provider_id ← send_reply reply
  now ← gets (λ w. w.now)
  best_effort (record_email (outbound_email env reply provider_id now))
  best_effort (record_reply_time sid now)
  audit sid Event.reply_sent

mark : Text → Time → M (Unit {0})
mark id version =
    best_effort (call (modify (λ w. record w { outbox = mark_sent w.now id version w.outbox })))

abbrev pub is_ok : Result Error (Unit {0}) → Bool
is_ok (ok _) = true
is_ok (err _) = false

-- `dispatchOnline`: the worker's turn with a job.
unfoldable pub dispatch_online : Env → ReplyJob → M (Unit {0})
unfolding mark
dispatch_online env job =
    best_effort (
      attempt (deliver env job.reply job.submission_id) >>= λ r.
      if is_ok r
      then mark job.outbox_id job.version
      else audit job.submission_id Event.reply_failed)
    >> release_dispatch job.submission_id

-- The text of the error is left out.
set_status : OutboxEntry → Bool → M (Unit {0})
set_status row again =
    let status = if again then pending else failed in
    best_effort (
      call (
        modify (λ w. record w {
          outbox = try_update w.now row.id status (row.attempts + 1) [] w.outbox;
        })))

-- A send failed: tried again later, or dead-lettered with its ask forgotten.
send_failed : Env → OutboxEntry → M (Unit {0})
unfolding set_status
send_failed env row =
    if ltb (row.attempts + 1) env.outbox_max_attempts
    then set_status row true
    else set_status row false
      >> (best_effort
            (call (modify (λ w. record w { tables = clear_reply_hash row.submission_id w.tables })))
          >> audit row.submission_id Event.reply_failed)

deliver_row : Env → OutboxEntry → M (Unit {0})
unfolding send_failed mark
deliver_row env row = attempt (deliver env row.reply row.submission_id) >>= λ r.
    if is_ok r then mark row.id row.updated_at else send_failed env row

abbrev fresh_of : Result Error Fresh → Fresh
fresh_of (ok fresh) = fresh
fresh_of (err _) = undecodable

-- The second read, under the claim; an error of it ends the turn.
reread : Text → M Fresh
reread id = attempt (call (gets (λ w. get_pending id w.outbox))) >>= λ r. pure (fresh_of r)

deliver_fresh : Env → Fresh → M (Unit {0})
unfolding deliver_row
deliver_fresh env gone = pure tt
deliver_fresh env undecodable = pure tt
deliver_fresh env (found row) = deliver_row env row

-- The caller holds the claim, which ends here.
unfoldable pub redeliver_one : Env → OutboxEntry → M (Unit {0})
unfolding reread deliver_fresh
redeliver_one env listed =
    best_effort (reread listed.id >>= deliver_fresh env) >> release_dispatch listed.submission_id

distinct_ids : List OutboxEntry → List Text → List Text
distinct_ids [] seen = []
distinct_ids (row ∷ rows) seen =
    let skipped = distinct_ids rows seen in
    let kept = distinct_ids rows (row.submission_id ∷ seen) in
    if contains seen row.submission_id then skipped else row.submission_id ∷ kept

blocked_submissions : List OutboxEntry → M (List Text)
unfolding distinct_ids
blocked_submissions rows =
    if is_empty rows
    then pure []
    else call (gets (λ w. reply_blocked_ids (distinct_ids rows []) w.tables))

-- A row's turn, if no other sender holds the claim.
claim_and_redeliver : Env → OutboxEntry → M (Unit {0})
unfolding redeliver_one
claim_and_redeliver env row =
    claim_dispatch row.submission_id >>= λ claimed. when claimed (redeliver_one env row)

-- The loop over the rows.
redeliver_all : Env → List Text → List OutboxEntry → M (Unit {0})
unfolding claim_and_redeliver
redeliver_all env blocked [] = pure tt
redeliver_all env blocked (row ∷ rows) =
    let rest = redeliver_all env blocked rows in
    if contains blocked row.submission_id then rest else claim_and_redeliver env row >> rest

list_due : Env → M (List OutboxEntry)
list_due env = call (λ w.
    let (rows, outbox) = list_pending w.now env.outbox_retry_after env.outbox_batch w.outbox in
    (ok rows, record w { outbox = outbox }))

unfoldable pub redeliver_outbox : Env → M (Unit {0})
unfolding redeliver_all list_due blocked_submissions
redeliver_outbox env =
    if is_off env.replies_enabled
    then pure tt
    else list_due env >>= λ rows.
        blocked_submissions rows >>= λ blocked. redeliver_all env blocked rows
