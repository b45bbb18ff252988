-- ===== src/Delivery/Imap/Keeps.antt =====
-- internal/delivery/imap/poller.go: what the calls for one message keep of the mailbox.
use mathlib.Core.Path.{subst}
use submission_triage.Delivery.EmailIngest.{translate}
use submission_triage.Prelude.{
  ℕ, ◌≡◌, sym, inl, inr, Bool, true, false, ◌&&◌, ◌||◌, Option, none, some, List, [], ◌∷◌, Text,
  text_eq, nat_eq, if◌then◌else◌, is_empty, All, arith, Bool-cases, Result, ok, err, ltb, leb,
}
use submission_triage.Pkg.EmlParse.Mime.{Payload}
use submission_triage.Repository.IngestControl.{Control, record_failure, clear_failure}
use submission_triage.Service.World.{World, Error}
use submission_triage.Service.Ingest.{IngestResult, ingest_email}
use submission_triage.Delivery.Imap.Mailbox.{
  Mail, Post, next_fails, later, box_call, is_uid, set_seen, set_flagged, mark_seen, flag, file,
  Client,
}
use submission_triage.Delivery.Imap.Poller.{
  Poller, control_call, serve, audit_file_failed, unless_filed, file_result, folder_for, after_seen,
  quarantine, handle_ingest_failure, after_ingest, process_payload, process, process_all,
  is_invalid_transition,
}

-- A call that fails leaves the messages, and one that does not changes them.
pub box_call-keeps :
    (P : List Mail → Type 0) (f : List Mail → List Mail) (p : Post)
    → P p.mails
    → P (f p.mails)
    → P (box_call f p).1.mails
unfolding box_call
box_call-keeps P f p h hf = elim (Bool-cases (next_fails p.faults)) [
  | inl e ↦ simp e h
  | inr e ↦ simp e hf
]

control_call-mails :
    {A : Type 0} (f : Control → A × Control) (p : Post) → (control_call f p).1.mails ≡ p.mails
unfolding control_call
control_call-mails f p = ground arith

-- The message of the UID is seen, if it is in the inbox.
abbrev pub IsReady : ℕ → List Mail → Type 0
IsReady uid ms = All (λ m. is_uid uid m ≡ true → m.seen ≡ true) ms

pub set_seen-IsReady : (uid : ℕ) (ms : List Mail) → IsReady uid (set_seen uid ms)
unfolding set_seen
set_seen-IsReady uid [] = tt
set_seen-IsReady uid (m ∷ ms) = ((λ h. ground (arith, h)), set_seen-IsReady uid ms)

set_flagged-IsReady : (uid : ℕ) (ms : List Mail) → IsReady uid ms → IsReady uid (set_flagged uid ms)
unfolding set_flagged
set_flagged-IsReady uid [] h = tt
set_flagged-IsReady uid (m ∷ ms) h = ((λ e. ground (arith, e, h.0)), set_flagged-IsReady uid ms h.1)

-- What marking, flagging and the filing of a seen message keep.
pub record IsKept (P : List Mail → Type 0) : Type 0 where
  pub seen : (uid : ℕ) (ms : List Mail) → P ms → P (set_seen uid ms)
  pub flagged : (uid : ℕ) (ms : List Mail) → P ms → P (set_flagged uid ms)
  pub filed :
      (c : Client) (uid : ℕ) (folder : Text) (p : Post)
      → IsReady uid p.mails
      → P p.mails
      → P (file c uid folder p).1.mails

module _ (P : List Mail → Type 0) (kept : IsKept P) where
  pub mark_seen-keeps : (uid : ℕ) (p : Post) → P p.mails → P (mark_seen uid p).1.mails
  unfolding mark_seen
  mark_seen-keeps uid p h = box_call-keeps P (set_seen uid) p h (kept.seen uid p.mails h)

  flag-keeps : (uid : ℕ) (p : Post) → P p.mails → P (flag uid p).1.mails
  unfolding flag
  flag-keeps uid p h = box_call-keeps P (set_flagged uid) p h (kept.flagged uid p.mails h)

  unless_filed-keeps :
      (res : IngestResult) (out : Bool × Post) → P out.1.mails → P (unless_filed res out).mails
  unfolding audit_file_failed serve
  unless_filed-keeps res (true, p) h = h
  unless_filed-keeps res (false, p) h = h

  file_result-keeps :
      (cfg : Poller) (uid : ℕ) (res : IngestResult) (p : Post)
      → IsReady uid p.mails
      → P p.mails
      → P (file_result cfg uid res p).mails
  unfolding file_result
  file_result-keeps cfg uid res p ready h =
      let folder = folder_for cfg res in
      elim (Bool-cases (is_empty folder || res.is_duplicate)) [
        | inl e ↦ simp e h
        | inr e ↦ simp e (
            unless_filed-keeps res (file cfg.client uid folder p)
              (kept.filed cfg.client uid folder p ready h))
      ]

  flag_if-keeps :
      (cfg : Poller) (uid : ℕ) (res : IngestResult) (p : Post)
      → IsReady uid p.mails
      → P p.mails
      → P (file_result cfg uid res (if res.needs_review then (flag uid p).1 else p)).mails
  flag_if-keeps cfg uid res p ready h = elim (Bool-cases res.needs_review) [
    | inl e ↦ simp e (
        file_result-keeps cfg uid res (flag uid p).1
          (unfold flag in
            box_call-keeps (IsReady uid) (set_flagged uid) p ready
              (set_flagged-IsReady uid p.mails ready))
          (flag-keeps uid p h))
    | inr e ↦ simp e (file_result-keeps cfg uid res p ready h)
  ]

  after_seen-keeps :
      (cfg : Poller) (uid : ℕ) (res : IngestResult) (p : Post)
      → P p.mails
      → P (after_seen cfg uid res (mark_seen uid p)).mails
  unfolding mark_seen box_call after_seen
  after_seen-keeps cfg uid res p h = elim (Bool-cases (next_fails p.faults)) [
    | inl e ↦ simp e h
    | inr e ↦ simp e (
        let q : Post = record p { faults = later p.faults; mails = set_seen uid p.mails } in
        let f : Control → Unit {0} × Control = λ c. (tt, clear_failure q.uid_validity uid c) in
        let same = control_call-mails f q in
        flag_if-keeps cfg uid res (control_call f q).1
          (subst (IsReady uid) (sym same) (set_seen-IsReady uid p.mails))
          (subst P (sym same) (kept.seen uid p.mails h)))
  ]

  quarantine-keeps :
      (cfg : Poller) (uid : ℕ) (attempts : Option ℕ) (p : Post)
      → P p.mails
      → P (quarantine cfg uid attempts p).mails
  unfolding quarantine
  quarantine-keeps cfg uid none p h = h
  quarantine-keeps cfg uid (some attempts) p h =
      elim (Bool-cases (ltb 0 cfg.max_attempts && leb cfg.max_attempts attempts)) [
        | inl e ↦ simp e (mark_seen-keeps uid p h)
        | inr e ↦ simp e h
      ]

  handle_ingest_failure-keeps :
      (cfg : Poller) (uid : ℕ) (e : Error) (p : Post)
      → P p.mails
      → P (handle_ingest_failure cfg uid e p).mails
  unfolding handle_ingest_failure
  handle_ingest_failure-keeps cfg uid e p h =
      let f = record_failure p.uid_validity uid (cfg.error_text e) p.world.now in
      elim (Bool-cases (is_invalid_transition e)) [
        | inl b ↦ simp b (mark_seen-keeps uid p h)
        | inr b ↦ simp b (
            quarantine-keeps cfg uid (control_call f p).0 (control_call f p).1
              (subst P (sym (control_call-mails f p)) h))
      ]

  process_payload-keeps :
      (cfg : Poller) (uid : ℕ) (payload : Option Payload) (p : Post)
      → P p.mails
      → P (process_payload cfg uid payload p).mails
  unfolding process_payload
  process_payload-keeps cfg uid none p h = mark_seen-keeps uid p h
  process_payload-keeps cfg uid (some payload) p h =
      go (ingest_email cfg.env (translate cfg.reading p.world.now payload) p.world).0
        (ingest_email cfg.env (translate cfg.reading p.world.now payload) p.world).1
    where
      go :
          (r : Result Error IngestResult) (w : World)
          → P (after_ingest cfg uid r (record p { world = w })).mails
      go (ok res) w = unfold after_ingest in after_seen-keeps cfg uid res (record p { world = w }) h
      go (err e) w =
          unfold after_ingest in handle_ingest_failure-keeps cfg uid e (record p { world = w }) h

  pub process_all-keeps :
      (cfg : Poller) (ms : List Mail) (p : Post) → P p.mails → P (process_all cfg ms p).mails
  unfolding process_all process
  process_all-keeps cfg [] p h = h
  process_all-keeps cfg (m ∷ ms) p h =
      process_all-keeps cfg ms (process cfg m p)
        (unfold process in process_payload-keeps cfg m.uid _ p h)
