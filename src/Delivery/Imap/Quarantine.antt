-- ===== src/Delivery/Imap/Quarantine.antt =====
-- internal/delivery/imap/poller.go: a message that no ingest gets through.
use submission_triage.Prelude.{
  ℕ, zero, suc, ◌<◌, ◌≡◌, false, ◌&&◌, [], nat_eq, if◌then◌else◌, leb, ltb, Result, err,
}
use submission_triage.Pkg.EmlParse.Mime.{Payload}
use submission_triage.Repository.IngestControl.{attempts_of, record_failure}
use submission_triage.Service.World.{World, Error}
use submission_triage.Service.Ingest.{IngestResult, ingest_email}
use submission_triage.Delivery.EmailIngest.{translate}
use submission_triage.Delivery.Imap.Mailbox.{Mail, Post, set_seen}
use submission_triage.Delivery.Imap.Poller.{Poller, is_invalid_transition, process}

abbrev pub ingest_at : Poller → Payload → World → Result Error IngestResult × World
ingest_at cfg payload w = ingest_email cfg.env (translate cfg.reading w.now payload) w

-- What a failed ingest leaves where no call on the tables or the mailbox fails.
abbrev failed_post : Poller → ℕ → Error → Post → Post
failed_post cfg uid e p =
    let (attempts, c) =
      record_failure p.uid_validity uid (cfg.error_text e) p.world.now p.control in
    record p {
      faults = [];
      control = c;
      mails =
          if ltb 0 cfg.max_attempts && leb cfg.max_attempts attempts
          then set_seen uid p.mails
          else p.mails;
    }

-- Rounds in which the ingest of a message fails, with any error but an invalid transition; the world
-- may be any other one at each of them.
pub data FailedRounds (cfg : Poller) (m : Mail) (payload : Payload) : Post → ℕ → Post → Type 0 where
  no_round : {p : Post} → FailedRounds cfg m payload p zero p
  one_more :
      {p q : Post} {n : ℕ} (w w' : World) (e : Error)
      → ingest_at cfg payload w ≡ (err e, w')
      → is_invalid_transition e ≡ false
      → FailedRounds cfg m payload (process cfg m (record p { world = w })) n q
      → FailedRounds cfg m payload p (suc n) q

abbrev pub recorded : Mail → Post → ℕ
recorded m p = attempts_of p.uid_validity m.uid p.control.failures

-- One failed round: the failure is counted, and the message is marked at the limit alone.
record Failed (cfg : Poller) (m : Mail) (p q : Post) : Type 0 where
  pub calm : q.faults ≡ []
  pub counted : recorded m q ≡ suc (recorded m p)
  pub unread : suc (recorded m p) < cfg.max_attempts → q.mails ≡ p.mails
  pub marked : suc (recorded m p) ≡ cfg.max_attempts → q.mails ≡ set_seen m.uid p.mails
