-- ===== src/Service/Summary/Silence.antt =====
-- internal/service/submissions.go: what the digest leaves alone.
use submission_triage.Prelude.{
  ℕ, ◌≡◌, Bool, true, false, List, [], ◌∷◌, Text, if◌then◌else◌, arith, Result, ok, err,
}
use submission_triage.Model.Submission.{Submission}
use submission_triage.Model.Reply.{Reply}
use submission_triage.Service.World.{
  World, Event, Error, M, pure, gets, attempt, call, audit, ◌>>=◌, Env,
}
use submission_triage.Service.Frame.{Keeps, Keeps-pure, Keeps-gets, Keeps-call, Keeps-audit}
use submission_triage.Service.Dispatch.{send_reply}
use submission_triage.Service.Summary.{
  Mailing, withheld_among, reply_withheld, count_omitted, mail_digest, digest_of, send_digest,
}

-- The tables, the outbox and the senders' state.
pub record Untouched (w w' : World) : Type 0 where
  pub tables : w'.tables ≡ w.tables
  pub outbox : w'.outbox ≡ w.outbox
  pub dispatching : w'.dispatching ≡ w.dispatching
  pub reply_jobs : w'.reply_jobs ≡ w.reply_jobs

unfoldable Mails : {A : Type 0} → M A → Type 0
Mails m = (w : World) → Untouched w (m w).1

Mails->>= :
    {A B : Type 0} (m : M A) (f : A → M B) → Mails m → ((a : A) → Mails (f a)) → Mails (m >>= f)
unfolding Mails ◌>>=◌
Mails->>= {A} {B} m f hm hf w = go (m w).0 (m w).1 (hm w)
  where
    go :
        (r : Result Error A) (w' : World)
        → Untouched w w'
        → Untouched w
            (elim r as (λ _. Result Error B × World) [ ok a ↦ f a w' | err e ↦ (err e, w') ]).1
    go (ok a) w' h = let k = hf a w' in ground arith
    go (err e) w' h = h

Mails-if : {A : Type 0} (b : Bool) (m k : M A) → Mails m → Mails k → Mails (if b then m else k)
Mails-if true m k hm hk = hm
Mails-if false m k hm hk = hk

Keeps-Mails : {A : Type 0} (m : M A) → Keeps m → Mails m
unfolding Keeps Mails
Keeps-Mails m h w = let k = h w in ground arith

Mails-attempt : {A : Type 0} (m : M A) → Mails m → Mails (attempt m)
unfolding Mails attempt
Mails-attempt m h = h

Mails-pure : {A : Type 0} (a : A) → Mails (pure a)
Mails-pure a = Keeps-Mails (pure a) (Keeps-pure a)

Mails-gets : {A : Type 0} (f : World → A) → Mails (gets f)
Mails-gets f = Keeps-Mails (gets f) (Keeps-gets f)

Mails-select : {A : Type 0} (f : World → A) → Mails (call (gets f))
Mails-select f = Keeps-Mails (call (gets f)) (Keeps-call (gets f) (Keeps-gets f))

Mails-audit : (id : Text) (event : Event) → Mails (audit id event)
Mails-audit id event = Keeps-Mails (audit id event) (Keeps-audit id event)

send_reply-Mails : (reply : Reply) → Mails (send_reply reply)
unfolding Mails send_reply
send_reply-Mails reply w = ground arith

ruleset mailing = (
  Mails->>=, Mails-if, Mails-attempt, Mails-pure, Mails-gets, Mails-select, Mails-audit,
  send_reply-Mails,
)

withheld_among-Mails :
    (subs : List Submission) (r : Result Error (List Text)) → Mails (withheld_among subs r)
unfolding withheld_among
withheld_among-Mails subs (err e) = Mails-pure []
withheld_among-Mails subs (ok disabled) = search (mailing) depth 4

reply_withheld-Mails : (subs : List Submission) → Mails (reply_withheld subs)
unfolding reply_withheld
reply_withheld-Mails subs = search (mailing, withheld_among-Mails) depth 8

mail_digest-Mails :
    (env : Env) (recipient : Text) (subs : List Submission) (omitted : ℕ)
    → Mails (mail_digest env recipient subs omitted)
unfolding mail_digest
mail_digest-Mails env recipient subs omitted = search (mailing, reply_withheld-Mails) depth 12

count_omitted-Mails : (max_rows : ℕ) (subs : List Submission) → Mails (count_omitted max_rows subs)
unfolding count_omitted
count_omitted-Mails max_rows subs = search (mailing) depth 8

digest_of-Mails :
    (env : Env) (recipient : Text) (max_rows : ℕ) (subs : List Submission)
    → Mails (digest_of env recipient max_rows subs)
unfolding digest_of
digest_of-Mails env recipient max_rows [] = Mails-pure tt
digest_of-Mails env recipient max_rows (s ∷ subs) =
    search (mailing, count_omitted-Mails, mail_digest-Mails) depth 6

send_digest-Mails : (env : Env) (cfg : Mailing) → Mails (send_digest env cfg)
unfolding send_digest
send_digest-Mails env cfg = search (mailing, digest_of-Mails) depth 8

-- Whatever calls fail, the digest changes no submission, queues no reply and claims none.
send_digest-Untouched :
    (env : Env) (cfg : Mailing) (w : World) → Untouched w (send_digest env cfg w).1
unfolding Mails
send_digest-Untouched env cfg w = send_digest-Mails env cfg w
