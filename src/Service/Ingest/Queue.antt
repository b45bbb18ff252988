-- ===== src/Service/Ingest/Queue.antt =====
-- internal/service/submissions.go: queueing a reply, with its claim and its transaction.
use mathlib.Core.Path.{subst}
use submission_triage.Prelude.{
  ◌≡◌, refl, ap, ◌∙◌, Bool, true, false, some, Text, text_eq, contains, not, Result, ok, err, arith,
  Bool-cases, Option-cases, inl, inr, nat_eq, ==_refl,
}
use submission_triage.Model.Submission.{Time, Submission}
use submission_triage.Model.Reply.{Reply}
use submission_triage.Repository.Outbox.{Row, OutboxEntry, pending, insert_outbox_row}
use submission_triage.Repository.Outbox.Pending.{pending_row, insert_outbox_row-pending_row}
use submission_triage.Repository.Submissions.{upsert_submission}
use submission_triage.Service.World.{
  claim_if, World, Error, M, Env, when, modify, pure, raise, gets, call, ◌>>=◌, ◌>>◌,
  claim_dispatch, release_dispatch, new_uuid, next_fault,
}
use submission_triage.Service.Frame.{release_claim, SameStore, Keeps-gets, Keeps-new_uuid, >>=-ok}
use submission_triage.Service.Evaluate.{reply_not_before}
use submission_triage.Service.Ingest.{
  IngestResult, Assessed, store_with_reply, enqueue_reply, new_entry, hand_over, store_or_release,
  queue_claimed, queue_reply, result_of,
}
use submission_triage.Service.Ingest.Settled.{Settled, Settles, Settles->>=}

-- The transaction of a submission and its reply.
abbrev Queued : OutboxEntry → World → Result Error OutboxEntry → World → Type 0
Queued e w (err _) w' = SameStore w w'
Queued e w (ok e') w' = insert_outbox_row w.now e.id e w.outbox ≡ some (e', w'.outbox)

store_with_reply-Queued :
    (s : Submission) (e : OutboxEntry) (w : World)
    → Queued e w (store_with_reply s e w).0 (store_with_reply s e w).1
unfolding store_with_reply call pure raise
store_with_reply-Queued s e w = elim (Bool-cases (next_fault w.faults)) [
  | inl f ↦ simp f (ground arith)
  | inr f ↦ elim (Option-cases (upsert_submission w.now s w.tables)) [
    | inl n ↦ simp (f, n) (ground arith)
    | inr (t, n) ↦ elim (Option-cases (insert_outbox_row w.now e.id e w.outbox)) [
      | inl i ↦ simp (f, n, i) (ground arith)
      | inr ((e', rows), i) ↦ simp (f, n, i) refl
    ]
  ]
]

-- Before the claim, and after the transaction or its failure.
abbrev Handed : Text → World → Result Error OutboxEntry → World → Type 0
Handed sid w (err _) w' = SameStore w w'
Handed sid w (ok _) w' = (r : Row) × (pending_row sid w'.outbox ≡ some r)

given_up :
    (claimed : Bool) (sid : Text) (w w' w'' : World) (x : Error)
    → claim_dispatch sid w ≡ (ok claimed, w')
    → SameStore w' w''
    → let out = (◌>>◌ {B = OutboxEntry} (when claimed (release_dispatch sid)) (raise x)) w'' in
      Handed sid w out.0 out.1
unfolding claim_dispatch claim_if release_dispatch modify when ◌>>◌ ◌>>=◌ pure raise
given_up true sid w w' w'' x h k = ground (arith, ==_refl sid, release_claim sid w.dispatching)
given_up false sid w w' w'' x h k = ground arith

store_or_release-Handed :
    (claimed : Bool) (s : Submission) (e : OutboxEntry) (w w' : World)
    → e.status ≡ pending
    → e.submission_id ≡ s.id
    → claim_dispatch s.id w ≡ (ok claimed, w')
    → Handed s.id w (store_or_release claimed s e w').0 (store_or_release claimed s e w').1
unfolding store_or_release
store_or_release-Handed claimed s e w w' is_pending same h =
    go (store_with_reply s e w').0 (store_with_reply s e w').1 (store_with_reply-Queued s e w')
  where
    go :
        (r : Result Error OutboxEntry) (w'' : World)
        → Queued e w' r w''
        → let out = elim r as (λ _. Result Error OutboxEntry × World) [
          | ok e' ↦ (ok e', w'')
          | err x ↦ (when claimed (release_dispatch s.id) >> raise x) w''
        ] in
          Handed s.id w out.0 out.1
    go (ok e') w'' q =
        let (r, here, _, _, _, _, _, _) =
          insert_outbox_row-pending_row w'.now e.id e e' w'.outbox w''.outbox is_pending q in
        (r, subst (λ id. pending_row id w''.outbox ≡ some r) same here)
    go (err x) w'' q = given_up claimed s.id w w' w'' x h q

hand_over-ok :
    (env : Env) (claimed : Bool) (now : Time) (s : Submission) (reply : Reply) (e : OutboxEntry)
    (w : World)
    → ((hand_over env claimed now s reply e w).0 ≡ ok tt)
      × ((hand_over env claimed now s reply e w).1.outbox ≡ w.outbox)
unfolding hand_over enqueue_reply when release_dispatch modify pure ◌>>=◌
hand_over-ok env true now s reply e w = ground arith
hand_over-ok env false now s reply e w = ground arith

queue_claimed-Settled :
    (env : Env) (s : Submission) (reply : Reply) (e : OutboxEntry) (now : Time)
    (unknown claimed : Bool) (w w' : World)
    → e.status ≡ pending
    → e.submission_id ≡ s.id
    → claim_dispatch s.id w ≡ (ok claimed, w')
    → let out = queue_claimed env s reply e now unknown claimed w' in Settled false w out.0 out.1
unfolding queue_claimed ◌>>=◌ ◌>>◌ pure
queue_claimed-Settled env s reply e now unknown claimed w w' is_pending same h =
    go (store_or_release claimed s e w').0 (store_or_release claimed s e w').1
      (store_or_release-Handed claimed s e w w' is_pending same h)
  where
    finish : OutboxEntry → M IngestResult
    finish e' = hand_over env claimed now s reply e' >> pure (result_of s unknown true)

    done :
        (e' : OutboxEntry) (w'' : World) (r : Row)
        → pending_row s.id w''.outbox ≡ some r
        → Settled false w (finish e' w'').0 (finish e' w'').1
    done e' w'' r here =
        let (handed, kept) = hand_over-ok env claimed now s reply e' w'' in
        rw
          (>>=-ok (hand_over env claimed now s reply e') (λ _. pure (result_of s unknown true)) w''
            tt handed)
          (
            λ d. ground arith,
            λ n. ground arith,
            λ q. (r, ap (pending_row s.id) kept ∙ here),
            λ q. ground arith,
          )

    go :
        (r : Result Error OutboxEntry) (w'' : World)
        → Handed s.id w r w''
        → let out = elim r as (λ _. Result Error IngestResult × World) [
          | ok e' ↦ finish e' w''
          | err x ↦ (err x, w'')
        ] in
          Settled false w out.0 out.1
    go (ok e') w'' (r, here) = done e' w'' r here
    go (err x) w'' k = k

claim_dispatch-ok :
    (sid : Text) (w : World) → (claim_dispatch sid w).0 ≡ ok (not (contains w.dispatching sid))
unfolding claim_dispatch claim_if
claim_dispatch-ok sid w = ground arith

claim_dispatch-both :
    (sid : Text) (w : World)
    → claim_dispatch sid w ≡ (ok (not (contains w.dispatching sid)), (claim_dispatch sid w).1)
unfolding claim_dispatch claim_if
claim_dispatch-both sid w = ground arith

claim-Settles :
    (sid : Text) (f : Bool → M IngestResult)
    → ((claimed : Bool) (w w' : World)
        → claim_dispatch sid w ≡ (ok claimed, w')
        → Settled false w (f claimed w').0 (f claimed w').1)
    → Settles false (claim_dispatch sid >>= f)
unfolding Settles
claim-Settles sid f h w =
    let claimed = not (contains w.dispatching sid) in
    rw (>>=-ok (claim_dispatch sid) f w claimed (claim_dispatch-ok sid w))
      (h claimed w (claim_dispatch sid w).1 (claim_dispatch-both sid w))

pub queue_reply-Settles :
    (env : Env) (a : Assessed) (reply : Reply) (fingerprint : Text)
    → Settles false (queue_reply env a reply fingerprint)
unfolding queue_reply new_entry
queue_reply-Settles env a reply fingerprint =
    let s = record (a.submission) { last_reply_hash = fingerprint } in
    Settles->>= false (gets (λ w. w.now)) _ (Keeps-gets (λ w. w.now)) (λ now.
      Settles->>= false (new_uuid env) _ (Keeps-new_uuid env) (λ id.
        claim-Settles s.id _ (λ claimed w w' h.
          queue_claimed-Settled env s reply (new_entry id s reply (reply_not_before env s now)) now
            a.unknown claimed w w' refl refl h)))
