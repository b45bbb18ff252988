-- ===== src/Delivery/EmailIngest/Flags.antt =====
-- internal/delivery/emailingest/translate.go: what marks a request as automatic.
use submission_triage.Prelude.{◌≡◌, Bool, true, false, ◌&&◌, ◌||◌, not, List, [], ok, arith}
use submission_triage.Model.Submission.{Time}
use submission_triage.Pkg.EmlParse.Mime.{Header, Payload}
use submission_triage.Service.World.{World, Env}
use submission_triage.Service.Ingest.{IngestRequest, IngestResult, ingest_email}
use submission_triage.Service.Ingest.Settled.{SameSends}
use submission_triage.Service.Ingest.Outcome.{ingest_email-quiet}
use submission_triage.Delivery.EmailIngest.{
  Reading, Collected, collect_headers, plain_request, detect_auto_submitted, translate,
}

abbrev pub nothing_collected : Collected
nothing_collected = record { in_reply_to = []; references = []; auto_headers = [] }

abbrev pub auto_headers_of : Payload → List Header
auto_headers_of p = let got = collect_headers p.headers nothing_collected in got.auto_headers

-- The marks of a request: a bounce is told from other automatic mail first.
pub record Marked (p : Payload) (req : IngestRequest) : Type 0 where
  pub bounce : req.bounce ≡ p.bounce
  pub permanent : req.bounce_permanent ≡ (p.bounce && p.bounce_permanent)
  pub auto : req.auto_submitted ≡ (not p.bounce && detect_auto_submitted (auto_headers_of p))

-- A request is marked as a bounce exactly when the message is one, as automatic exactly when its
-- headers say so and it is no bounce, and as permanent only with a bounce.
pub translate-Marked : (env : Reading) (now : Time) (p : Payload) → Marked p (translate env now p)
unfolding translate plain_request
translate-Marked env now p = record {
  bounce = ground arith;
  permanent = ground arith;
  auto = ground arith;
}

-- A message that is a bounce, or whose headers mark it as automatic, is never answered: its ingest
-- queues no reply, and claims and hands over none.
pub automatic_mail-quiet :
    (env : Env) (reading : Reading) (p : Payload) (w w' : World) (res : IngestResult)
    → (p.bounce || detect_auto_submitted (auto_headers_of p)) ≡ true
    → ingest_email env (translate reading w.now p) w ≡ (ok res, w')
    → (res.reply_queued ≡ false) × SameSends w w'
automatic_mail-quiet env reading p w w' res automatic h =
    let req = translate reading w.now p in
    let marked = translate-Marked reading w.now p in
    ingest_email-quiet env req w w' res (quiet marked.bounce marked.auto) h
  where
    quiet :
        {b a : Bool}
        → b ≡ p.bounce
        → a ≡ (not p.bounce && detect_auto_submitted (auto_headers_of p))
        → (b || a) ≡ true
    quiet eb ea = ground (arith, eb, ea, automatic)
