-- ===== src/Service/Ingest/Outcome.antt =====
-- internal/service/submissions.go: what an ingest has committed when it returns.
use mathlib.Core.Path.{subst}
use submission_triage.Prelude.{
  ◌≡◌, refl, ap, ◌∙◌, Bool, true, false, ◌||◌, Option, none, some, List, [], ◌∷◌, Text, text_eq,
  ◌==◌, Result, ok, err, arith, Bool-cases, inl, inr, if◌then◌else◌, nat_eq,
}
use submission_triage.Model.Submission.{Email, Submission}
use submission_triage.Repository.Outbox.Pending.{pending_row}
use submission_triage.Service.World.{
  World, AuditEntry, Error, Env, pure, ◌>>=◌, flush_audit, flush_from, append_all,
}
use submission_triage.Service.Frame.{
  SameStore, SameStore-refl, SameStore-trans, keeping, append_entry-Keeps, Keeps-best_effort, Keeps,
  Keeps-at, Keeps-audit,
}
use submission_triage.Service.Threads.{compute_email_id}
use submission_triage.Service.Ingest.Frame.{
  receive-Keeps, assess-Keeps, reply_suppressed-Keeps, resolve_submission-Keeps,
}
use submission_triage.Service.Ingest.{
  Resolved, belongs, duplicate, duplicate_of, resolve_submission, assess, IngestRequest,
  IngestResult, Assessed, answer_or_not, settle, ingest_into, ingest_received, ingest_resolved,
  ingest_email_inner, ingest_email,
}
use submission_triage.Service.Ingest.Settled.{
  SameSends, Settled, Settles, Settles-at, after-Keeps, Settles->>=, settling, SameSends-Keeps,
  persist_no_reply-Settles, persist_suppressed-Settles, persist_bounce-Settles,
}
use submission_triage.Service.Ingest.Queue.{queue_reply-Settles}

answer_or_not-Settles :
    (env : Env) (e : Email) (a : Assessed) → Settles false (answer_or_not env e a)
unfolding answer_or_not
answer_or_not-Settles env e a =
    search
      (settling, reply_suppressed-Keeps, persist_no_reply-Settles, queue_reply-Settles, Keeps-audit)
      depth 20

settle-Settles :
    (env : Env) (req : IngestRequest) (e : Email) (a : Assessed)
    → Settles req.auto_submitted (settle env req e a)
unfolding settle
settle-Settles env req e a = elim (Bool-cases req.auto_submitted) [
  | inl h ↦ simp h (persist_suppressed-Settles true a)
  | inr h ↦ simp h (answer_or_not-Settles env e a)
]

ingest_received-Settles :
    (env : Env) (req : IngestRequest) (e : Email) (is_new : Bool) (s : Submission)
    → Settles (req.bounce || req.auto_submitted) (ingest_received env req e is_new s)
unfolding ingest_received
ingest_received-Settles env req e is_new s = elim (Bool-cases req.bounce) [
  | inl h ↦ simp h (persist_bounce-Settles true req s)
  | inr h ↦ simp h (
      Settles->>= req.auto_submitted (assess env is_new e s) (settle env req e)
        (assess-Keeps env is_new e s) (settle-Settles env req e))
]

ingest_into-Settles :
    (env : Env) (req : IngestRequest) (email_id : Text) (s : Submission)
    → Settles (req.bounce || req.auto_submitted) (ingest_into env req email_id s)
unfolding ingest_into
ingest_into-Settles env req email_id s = search (settling, receive-Keeps, ingest_received-Settles)

duplicate-Settles : (quiet : Bool) (s : Submission) → Settles quiet (pure (duplicate_of s))
unfolding Settles pure duplicate_of
duplicate-Settles quiet s w =
    (λ d. SameStore-refl w, λ n. ground arith, λ q. ground arith, λ q. refl)

ingest_resolved-Settles :
    (env : Env) (req : IngestRequest) (email_id : Text) (found : Resolved)
    → Settles (req.bounce || req.auto_submitted) (ingest_resolved env req email_id found)
unfolding ingest_resolved
ingest_resolved-Settles env req email_id (duplicate s) =
    duplicate-Settles (req.bounce || req.auto_submitted) s
ingest_resolved-Settles env req email_id (belongs s) = ingest_into-Settles env req email_id s

append_all-Keeps : (es : List AuditEntry) → Keeps (append_all es)
unfolding append_all
append_all-Keeps [] = search keeping
append_all-Keeps (e ∷ es) =
    search (keeping, append_entry-Keeps, Keeps-best_effort, append_all-Keeps es) depth 20

flush_from-Keeps : (o : Option (List AuditEntry)) (w : World) → SameStore w (flush_from o w).1
unfolding flush_from
flush_from-Keeps none w = SameStore-refl w
flush_from-Keeps (some entries) w = ground (
  arith,
  Keeps-at (append_all entries) (record w { collector = none }) (append_all-Keeps entries),
)

before-Keeps :
    (quiet : Bool) (w w' w'' : World) (r : Result Error IngestResult)
    → Settled quiet w r w'
    → SameStore w' w''
    → Settled quiet w r w''
before-Keeps quiet w w' w'' (err e) h k = SameStore-trans h k
before-Keeps quiet w w' w'' (ok res) h k = (
  λ d. SameStore-trans (h.0 d) k,
  λ n. SameSends-Keeps w w' w'' (h.1 n) k,
  λ q. let (r, here) = h.2 q in (r, ap (pending_row res.submission_id) k.outbox ∙ here),
  h.3,
)

ingest_email-Settled :
    (env : Env) (req : IngestRequest) (w : World)
    → Settled
        (req.bounce || req.auto_submitted)
        w
        (ingest_email env req w).0
        (ingest_email env req w).1
unfolding ingest_email ingest_email_inner flush_audit
ingest_email-Settled env req w =
    let req' = record req {
      received_at = if req.received_at == 0 then w.now else req.received_at;
    } in
    let email_id = compute_email_id env.sha256 req'.message_id req'.body_text req'.attachments in
    let quiet = req.bounce || req.auto_submitted in
    let w0 = record w { collector = some [] } in
    let m = resolve_submission env req' email_id >>= ingest_resolved env req' email_id in
    let settled = Settles-at quiet m w0 (
      Settles->>= quiet (resolve_submission env req' email_id) (ingest_resolved env req' email_id)
        (resolve_submission-Keeps env req' email_id) (ingest_resolved-Settles env req' email_id)) in
    before-Keeps quiet w (m w0).1 (flush_from (m w0).1.collector (m w0).1).1 (m w0).0
      (after-Keeps quiet w w0 (m w0).1 (m w0).0 (ground arith) settled)
      (flush_from-Keeps (m w0).1.collector (m w0).1)

-- An ingest that fails leaves the submissions, the outbox, the dispatch claims and the queue of
-- replies as they were.
pub ingest_email-IsAtomic :
    (env : Env) (req : IngestRequest) (w w' : World) (e : Error)
    → ingest_email env req w ≡ (err e, w')
    → SameStore w w'
ingest_email-IsAtomic env req w w' e h =
    subst (λ out. Settled (req.bounce || req.auto_submitted) w out.0 out.1) h
      (ingest_email-Settled env req w)

-- A bounce or an automatic reply is never answered: whatever else it does, no reply is queued,
-- claimed or handed to the workers.
pub ingest_email-quiet :
    (env : Env) (req : IngestRequest) (w w' : World) (res : IngestResult)
    → (req.bounce || req.auto_submitted) ≡ true
    → ingest_email env req w ≡ (ok res, w')
    → (res.reply_queued ≡ false) × SameSends w w'
ingest_email-quiet env req w w' res quiet h =
    let s : Settled (req.bounce || req.auto_submitted) w (ok res) w' =
      subst (λ out. Settled (req.bounce || req.auto_submitted) w out.0 out.1) h
        (ingest_email-Settled env req w) in
    (s.3 quiet, s.1 (s.3 quiet))
