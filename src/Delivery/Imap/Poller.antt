-- ===== src/Delivery/Imap/Poller.antt =====
-- internal/delivery/imap/poller.go: one tick, and what becomes of each message.
use submission_triage.Prelude.{
  ℕ, Bool, true, false, ◌&&◌, ◌||◌, not, Option, none, some, List, [], ◌∷◌, Text, if◌then◌else◌,
  is_empty, leb, ltb, Result, ok, err,
}
use submission_triage.Model.Submission.{Time, State, awaiting, escalated, complete}
use submission_triage.Pkg.EmlParse.Mime.{Payload}
use submission_triage.Pkg.EmlParse.Message.{from_reader}
use submission_triage.Repository.IngestControl.{
  Control, ControlError, TimeText, first_boot_at, record_failure, clear_failure,
}
use submission_triage.Service.World.{World, Env, Error, transition, Event, audit}
use submission_triage.Service.Ingest.{IngestResult, ingest_email}
use submission_triage.Service.Hold.{reconcile_hold}
use submission_triage.Delivery.EmailIngest.{Reading, translate}
use submission_triage.Delivery.Imap.Mailbox.{
  Mail, Post, next_fails, later, mark_seen, flag, file, Client, fetch_unseen, scan_folder,
}

pub record StatusFolders : Type 0 where
  pub complete : Text
  pub awaiting : Text
  pub escalated : Text
  pub unknown_policy : Text

pub record Poller : Type 0 where
  pub env : Env
  pub reading : Reading
  pub time_text : TimeText
  pub client : Client
  pub batch_limit : ℕ
  pub max_attempts : ℕ
  pub file_by_status : Bool
  pub folders : StatusFolders
  pub hold_folder : Text
  pub hold_scan_limit : ℕ
  -- IMAP_IGNORE_BEFORE, 0 where it is not set.
  pub configured_cutoff : Time
  -- The Message-ID of a message's envelope, and the text of an error.
  pub envelope_id : Text → Text
  pub error_text : Error → Text

-- A call on the poller's tables: it fails and changes nothing, or it does what it does.
unfoldable pub control_call : {A : Type 0} → (Control → A × Control) → Post → Option A × Post
control_call f p =
    let q = record p { faults = later p.faults } in
    let (a, c) = f p.control in
    if next_fails p.faults then (none, q) else (some a, record q { control = c })

-- Every error leads to no cutoff.
cutoff_of : Option (Result ControlError Time) → Time
cutoff_of (some (ok t)) = t
cutoff_of (some (err _)) = 0
cutoff_of none = 0

-- `resolveCutoff`, 0 for no cutoff.
unfoldable pub resolve_cutoff : Poller → Post → Time × Post
unfolding control_call cutoff_of
resolve_cutoff cfg p =
    let (r, q) = control_call (first_boot_at cfg.time_text p.world.now) p in
    if ltb 0 cfg.configured_cutoff then (cfg.configured_cutoff, p) else (cutoff_of r, q)

state_folder : StatusFolders → State → Text
state_folder f complete = f.complete
state_folder f awaiting = f.awaiting
state_folder f escalated = f.escalated
state_folder f _ = []

unfoldable pub folder_for : Poller → IngestResult → Text
unfolding state_folder
folder_for cfg res =
    if not cfg.file_by_status
    then []
    else if res.policy_unknown
    then cfg.folders.unknown_policy
    else state_folder cfg.folders res.state

-- What the service is asked to do: its result, with the world after it.
unfoldable pub serve : {A : Type 0} → (World → A × World) → Post → A × Post
serve m p = let (a, w) = m p.world in (a, record p { world = w })

unfoldable pub audit_file_failed : Text → Post → Post
unfolding serve
audit_file_failed id p = (serve (audit id Event.mail_file_failed) p).1

abbrev pub unless_filed : IngestResult → Bool × Post → Post
unless_filed res (true, p) = p
unless_filed res (false, p) = audit_file_failed res.submission_id p

unfoldable pub file_result : Poller → ℕ → IngestResult → Post → Post
unfolding folder_for audit_file_failed
file_result cfg uid res p =
    let folder = folder_for cfg res in
    if is_empty folder || res.is_duplicate
    then p
    else unless_filed res (file cfg.client uid folder p)

-- What follows the marking of an ingested message, which is left unread where the marking fails.
unfoldable pub after_seen : Poller → ℕ → IngestResult → Bool × Post → Post
unfolding control_call file_result
after_seen cfg uid res (false, p) = p
after_seen cfg uid res (true, p) =
    let (_, q) = control_call (λ c. (tt, clear_failure p.uid_validity uid c)) p in
    file_result cfg uid res (if res.needs_review then (flag uid q).1 else q)

-- By the count of failures, none where recording it failed.
unfoldable pub quarantine : Poller → ℕ → Option ℕ → Post → Post
quarantine cfg uid none p = p
quarantine cfg uid (some attempts) p =
    if ltb 0 cfg.max_attempts && leb cfg.max_attempts attempts then (mark_seen uid p).1 else p

abbrev pub is_invalid_transition : Error → Bool
is_invalid_transition (transition _) = true
is_invalid_transition _ = false

unfoldable pub handle_ingest_failure : Poller → ℕ → Error → Post → Post
unfolding quarantine control_call
handle_ingest_failure cfg uid e p =
    let (attempts, q) =
      control_call (record_failure p.uid_validity uid (cfg.error_text e) p.world.now) p in
    if is_invalid_transition e then (mark_seen uid p).1 else quarantine cfg uid attempts q

unfoldable pub after_ingest : Poller → ℕ → Result Error IngestResult → Post → Post
unfolding after_seen handle_ingest_failure
after_ingest cfg uid (err e) p = handle_ingest_failure cfg uid e p
after_ingest cfg uid (ok res) p = after_seen cfg uid res (mark_seen uid p)

-- A message that cannot be parsed is marked as read.
unfoldable pub process_payload : Poller → ℕ → Option Payload → Post → Post
unfolding after_ingest serve
process_payload cfg uid none p = (mark_seen uid p).1
process_payload cfg uid (some payload) p =
    let (r, q) = serve (ingest_email cfg.env (translate cfg.reading p.world.now payload)) p in
    after_ingest cfg uid r q

unfoldable pub process : Poller → Mail → Post → Post
unfolding process_payload
process cfg m p = process_payload cfg m.uid (from_reader cfg.reading.mime m.raw) p

unfoldable pub process_all : Poller → List Mail → Post → Post
unfolding process
process_all cfg [] p = p
process_all cfg (m ∷ ms) p = process_all cfg ms (process cfg m p)

unfoldable pub hold_scanned : Option (List Text) → Post → Post
unfolding serve
hold_scanned none p = p
hold_scanned (some ids) p = (serve (reconcile_hold ids) p).1

-- `reconcileHold` of the poller.
unfoldable pub reconcile : Poller → Post → Post
unfolding hold_scanned
reconcile cfg p =
    let (ids, q) = scan_folder cfg.envelope_id cfg.client cfg.hold_folder cfg.hold_scan_limit p in
    if is_empty cfg.hold_folder then p else hold_scanned ids q

unfoldable pub process_fetched : Poller → Option (List Mail) → Post → Post
unfolding process_all reconcile
process_fetched cfg none p = p
process_fetched cfg (some ms) p = reconcile cfg (process_all cfg ms p)

-- `pollOnce` with an open connection or none.
unfoldable pub poll_once : Poller → Time → Bool → Post → Post
unfolding process_fetched
poll_once cfg cutoff connected p =
    let (fetched, q) = fetch_unseen cfg.client cfg.batch_limit cutoff p in
    if connected then process_fetched cfg fetched q else p
