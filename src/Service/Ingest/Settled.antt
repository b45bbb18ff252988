-- ===== src/Service/Ingest/Settled.antt =====
-- internal/service/submissions.go: what an ingest leaves behind on each of its ends.
use submission_triage.Prelude.{
  ◌≡◌, refl, Bool, true, false, Option, none, some, List, [], Text, text_eq, Result, ok, err, arith,
  Bool-cases, Option-cases, inl, inr, if◌then◌else◌, nat_eq,
}
use submission_triage.Model.Submission.{Submission}
use submission_triage.Repository.Outbox.{Row}
use submission_triage.Repository.Outbox.Pending.{pending_row}
use submission_triage.Repository.Submissions.{upsert_submission}
use submission_triage.Service.World.{
  World, AuditEntry, audit_in, Event, Error, M, audit, pure, raise, call, ◌>>=◌, ◌>>◌, best_effort,
  on_option, next_fault,
}
use submission_triage.Service.Frame.{
  SameStore, SameStore-trans, Keeps, Keeps-at, >>=-ok, Keeps-audit,
}
use submission_triage.Service.Ingest.{
  IngestRequest, IngestResult, Assessed, store_submission, persist_no_reply, persist_suppressed,
  persist_bounce, result_of,
}

-- No reply was queued, claimed or handed to the workers.
pub record SameSends (w w' : World) : Type 0 where
  pub outbox : w'.outbox ≡ w.outbox
  pub dispatching : w'.dispatching ≡ w.dispatching
  pub reply_jobs : w'.reply_jobs ≡ w.reply_jobs
  pub mailed : w'.mailed ≡ w.mailed

-- `quiet` is an email that gets no answer.
abbrev pub Settled : Bool → World → Result Error IngestResult → World → Type 0
Settled quiet w (err _) w' = SameStore w w'
Settled quiet w (ok res) w' =
    (res.is_duplicate ≡ true → SameStore w w')
    × (res.reply_queued ≡ false → SameSends w w')
    × (res.reply_queued ≡ true → (r : Row) × (pending_row res.submission_id w'.outbox ≡ some r))
    × (quiet ≡ true → res.reply_queued ≡ false)

unfoldable pub Settles : Bool → M IngestResult → Type 0
Settles quiet m = (w : World) → Settled quiet w (m w).0 (m w).1

pub Settles-at :
    (quiet : Bool) (m : M IngestResult) (w : World)
    → Settles quiet m
    → Settled quiet w (m w).0 (m w).1
unfolding Settles
Settles-at quiet m w h = h w

pub after-Keeps :
    (quiet : Bool) (w w' w'' : World) (r : Result Error IngestResult)
    → SameStore w w'
    → Settled quiet w' r w''
    → Settled quiet w r w''
after-Keeps quiet w w' w'' (err e) k h = SameStore-trans k h
after-Keeps quiet w w' w'' (ok res) k h =
    (λ d. SameStore-trans k (h.0 d), λ n. ground (arith, h.1 n), h.2, h.3)

pub Settles->>= :
    {A : Type 0} (quiet : Bool) (m : M A) (f : A → M IngestResult)
    → Keeps m
    → ((a : A) → Settles quiet (f a))
    → Settles quiet (m >>= f)
unfolding Settles Keeps ◌>>=◌
Settles->>= {A} quiet m f hm hf w = go (m w).0 (m w).1 (hm w)
  where
    go :
        (r : Result Error A) (w' : World)
        → SameStore w w'
        → let out = elim r as (λ _. Result Error IngestResult × World) [
          | ok a ↦ f a w'
          | err e ↦ (err e, w')
        ] in
          Settled quiet w out.0 out.1
    go (ok a) w' h = after-Keeps quiet w w' (f a w').1 (f a w').0 h (hf a w')
    go (err e) w' h = h

pub Settles->> :
    {A : Type 0} (quiet : Bool) (m : M A) (k : M IngestResult)
    → Keeps m
    → Settles quiet k
    → Settles quiet (m >> k)
unfolding ◌>>◌
Settles->> quiet m k hm hk = Settles->>= quiet m (λ _. k) hm (λ _. hk)

pub Settles-if :
    (quiet b : Bool) (m k : M IngestResult)
    → Settles quiet m
    → Settles quiet k
    → Settles quiet (if b then m else k)
Settles-if quiet true m k hm hk = hm
Settles-if quiet false m k hm hk = hk

pub Settles-option :
    {A : Type 0} (quiet : Bool) (o : Option A) (n : M IngestResult) (f : A → M IngestResult)
    → Settles quiet n
    → ((a : A) → Settles quiet (f a))
    → Settles quiet (on_option o n f)
unfolding on_option
Settles-option quiet none n f hn hf = hn
Settles-option quiet (some a) n f hn hf = hf a

pub ruleset settling = (Settles->>=, Settles->>, Settles-if, Settles-option)

-- A transaction: an error leaves the store as it was, and success the replies.
abbrev pub Committed : {A : Type 0} → World → Result Error A → World → Type 0
Committed w (err _) w' = SameStore w w'
Committed w (ok _) w' = SameSends w w'

pub store_submission-Committed :
    (s : Submission) (w : World) → Committed w (store_submission s w).0 (store_submission s w).1
unfolding store_submission call pure raise
store_submission-Committed s w = elim (Bool-cases (next_fault w.faults)) [
  | inl e ↦ simp e (ground arith)
  | inr e ↦ elim (Option-cases (upsert_submission w.now s w.tables)) [
    | inl n ↦ simp (e, n) (ground arith)
    | inr (t, n) ↦ simp (e, n) (ground arith)
  ]
]

-- A result without a reply.
abbrev pub IsSilent : IngestResult → Type 0
IsSilent res = (res.is_duplicate ≡ false) × (res.reply_queued ≡ false)

pub SameSends-Keeps : (u v w : World) → SameSends u v → SameStore v w → SameSends u w
SameSends-Keeps u v w p q = ground arith

pub silent-Settled :
    (quiet : Bool) (w w' : World) (res : IngestResult)
    → IsSilent res
    → SameSends w w'
    → Settled quiet w (ok res) w'
silent-Settled quiet w w' res h k = (λ d. ground arith, λ n. k, λ q. ground arith, λ q. h.1)

pub store-Settles :
    (quiet : Bool) (s : Submission) (res : IngestResult)
    → IsSilent res
    → Settles quiet (store_submission s >> pure res)
unfolding Settles ◌>>◌ ◌>>=◌ pure
store-Settles quiet s res silent w =
    go (store_submission s w).0 (store_submission s w).1 (store_submission-Committed s w)
  where
    go :
        (r : Result Error (Unit {0})) (w' : World)
        → Committed w r w'
        → let out = elim r as (λ _. Result Error IngestResult × World) [
          | ok a ↦ (ok res, w')
          | err e ↦ (err e, w')
        ] in
          Settled quiet w out.0 out.1
    go (ok a) w' h = silent-Settled quiet w w' res silent h
    go (err e) w' h = h

pub persist_no_reply-Settles : (quiet : Bool) (a : Assessed) → Settles quiet (persist_no_reply a)
unfolding persist_no_reply
persist_no_reply-Settles quiet a =
    store-Settles quiet a.submission (result_of a.submission a.unknown false) (refl, refl)

pub audit_in-ok :
    (o : Option (List AuditEntry)) (e : AuditEntry) (w : World) → (audit_in o e w).0 ≡ ok tt
unfolding audit_in best_effort
audit_in-ok none e w = refl
audit_in-ok (some entries) e w = refl

pub audit-pure :
    (id : Text) (event : Event) (res : IngestResult) (w : World)
    → (audit id event >> pure res) w ≡ (ok res, (audit id event w).1)
unfolding ◌>>◌ pure audit
audit-pure id event res w =
    >>=-ok (audit id event) (λ _. pure res) w tt
      (audit_in-ok w.collector (record { submission_id = id; event = event }) w)

pub store_audit-Settles :
    (quiet : Bool) (s : Submission) (id : Text) (event : Event) (res : IngestResult)
    → IsSilent res
    → Settles quiet (store_submission s >> (audit id event >> pure res))
unfolding Settles ◌>>◌ ◌>>=◌ pure
store_audit-Settles quiet s id event res silent w =
    go (store_submission s w).0 (store_submission s w).1 (store_submission-Committed s w)
  where
    go :
        (r : Result Error (Unit {0})) (w' : World)
        → Committed w r w'
        → let out = elim r as (λ _. Result Error IngestResult × World) [
          | ok a ↦ (audit id event >> pure res) w'
          | err e ↦ (err e, w')
        ] in
          Settled quiet w out.0 out.1
    go (ok a) w' h =
        let k : SameStore w' (audit id event w').1 =
          Keeps-at (audit id event) w' (Keeps-audit id event) in
        rw (audit-pure id event res w') (
          silent-Settled quiet w (audit id event w').1 res silent
            (SameSends-Keeps w w' (audit id event w').1 h k))
    go (err e) w' h = h

pub persist_suppressed-Settles :
    (quiet : Bool) (a : Assessed) → Settles quiet (persist_suppressed a)
unfolding persist_suppressed
persist_suppressed-Settles quiet a =
    store_audit-Settles quiet a.submission a.submission.id Event.reply_suppressed
      (result_of a.submission a.unknown false) (refl, refl)

pub persist_bounce-Settles :
    (quiet : Bool) (req : IngestRequest) (s : Submission) → Settles quiet (persist_bounce req s)
unfolding persist_bounce
persist_bounce-Settles quiet req s =
    let s' =
      if req.bounce_permanent
      then record s { delivery_failed = true; needs_review = true }
      else s in
    Settles->> quiet (audit s'.id Event.reply_bounced)
      (store_submission s' >> pure (record (result_of s' false false) { missing_items = [] }))
      (Keeps-audit s'.id Event.reply_bounced)
      (store-Settles quiet s' (record (result_of s' false false) { missing_items = [] })
        (refl, refl))
