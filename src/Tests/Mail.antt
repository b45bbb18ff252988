-- ===== src/Tests/Mail.antt =====
-- The theorems about mail, in and out, run.
use submission_triage.Prelude.{
  ℕ, suc, ◌≡◌, refl, inr, true, false, Option, none, some, List, [], ◌∷◌, map, Text, text_eq,
  nat_eq, has_prefix, codes, ◌==◌, if◌then◌else◌, All, length, ◌-◌, ◌≤◌, arith, finite, pos,
}
use submission_triage.Pkg.Retry.{Failure, retryable, done, Rounds, first_delay, do_retry}
use submission_triage.Pkg.Retry.Bounds.{wait_of, upto, do_retry-waits}
use submission_triage.Pkg.Retry.Outcomes.{Ends, start, another, do_retry-verdict}
use submission_triage.Infrastructure.Llm.{Anthropic, Net, response, call_messages}
use submission_triage.Infrastructure.Llm.Metering.{IsMetered, call_messages-IsMetered}
use submission_triage.Pkg.EmlParse.Mime.{Part, Mime, Payload}
use submission_triage.Pkg.EmlParse.Parts.{max_multipart_depth, walk_parts}
use submission_triage.Pkg.EmlParse.Message.{
  from_reader, from_message, from_body, parse_body, payload_of, text_or_html, nothing_walked,
}
use submission_triage.Pkg.EmlParse.Clean.{IsClean, from_reader-IsClean}
use submission_triage.Service.World.{ClassifierInput}
use submission_triage.Infrastructure.Classifier.{Classifier, chosen, classify}
use submission_triage.Infrastructure.Classifier.Choice.{IsCandidate, classify-IsCandidate}
use submission_triage.Infrastructure.Smtp.{
  Smtp, kept_ids, build_refs, header_lines, message_id, max_refs,
}
use submission_triage.Infrastructure.Smtp.Folding.{HasShortLines, build_refs-HasShortLines}
use submission_triage.Infrastructure.Smtp.Headers.{IsHeader, IsTame, header_lines-IsHeader}
use submission_triage.Infrastructure.Smtp.Threading.{split_references-build_refs}
use submission_triage.Infrastructure.Smtp.Session.{Server, real_smtp_send}
use submission_triage.Infrastructure.Smtp.Exchange.{IsGuarded, real_smtp_send-IsGuarded}
use submission_triage.Delivery.EmailIngest.{trim_angles, split_references}
use submission_triage.Tests.Data.{checklist, reply}

-- A context that never ends, and delays without a random part.
abbrev calm_rounds : Rounds
calm_rounds = record { ended = λ i. false; interrupted = λ i. false; jitter = λ i d. d }

-- Fails until the third call.
abbrev flaky : ℕ → Option Failure × ℕ
flaky n = (if n == 2 then none else some (retryable (codes "busy")), suc n)

do_retry-waits_example :
    ((do_retry calm_rounds 5 100 flaky 0).waits
      ≡ map
          (wait_of calm_rounds (first_delay 100))
          (upto 0 (length (do_retry calm_rounds 5 100 flaky 0).waits)))
    × (length (do_retry calm_rounds 5 100 flaky 0).waits ≤ 5 - 1)
do_retry-waits_example = do_retry-waits calm_rounds 5 100 flaky 0

do_retry-verdict_example : Ends done 3 (do_retry calm_rounds 5 100 flaky 0)
do_retry-verdict_example =
    do_retry-verdict calm_rounds 5 100 flaky 0 2 3 2 none (λ i. (refl, refl))
      (another refl (another refl start)) refl (omega arith) (inr refl)

abbrev part : Part
part = record {
  header = λ name.
      if name == codes "Content-Type"
      then codes "application/pdf"
      else if name == codes "Content-Disposition"
      then codes "attachment"
      else [];
  file_name = codes "loss\u{1}.pdf";
  body = codes "%PDF";
  readable = true;
}

abbrev get : Text → Text
get name =
    if name == codes "Content-Type"
    then codes "multipart/mixed"
    else if name == codes "From"
    then codes "a@b"
    else if name == codes "Precedence"
    then codes "bulk"
    else []

abbrev pub mime : Mime
mime = record {
  read_message = λ raw. some (get, record part { header = get });
  parse_media_type = λ s. record {
    name = s;
    params = λ p. if p == codes "boundary" then codes "b" else [];
    valid = true;
  };
  next_parts = λ raw boundary. part ∷ [];
  base64_decode = λ s. some s;
  base64_encode = λ s. s;
  quoted_printable = λ s. some s;
  decode_words = λ s. some s;
  parse_address = λ s. some (s, []);
  unescape_html = λ s. s;
  now_text = codes "now";
}

abbrev pub payload : Payload
payload = payload_of mime get (
    text_or_html mime
      (walk_parts (suc max_multipart_depth) mime (codes "%PDF") (codes "b") nothing_walked))

pub parsed : from_reader mime (codes "raw") ≡ some payload
unfolding from_reader from_message from_body parse_body has_prefix
parsed = refl

from_reader-IsClean_example : IsClean payload
from_reader-IsClean_example = from_reader-IsClean mime (codes "raw") payload parsed

abbrev refs : List Text
refs = codes "<m1@x>" ∷ codes " m2@x " ∷ []

split_references-build_refs_example :
    trim_angles (split_references (build_refs refs)) ≡ kept_ids refs
split_references-build_refs_example = split_references-build_refs refs

build_refs-HasShortLines_example :
    (length (kept_ids refs) ≤ max_refs) × HasShortLines (build_refs refs)
build_refs-HasShortLines_example = build_refs-HasShortLines refs

abbrev smtp : Smtp
smtp = record {
  host = codes "mail.example";
  port = codes "587";
  username = codes "user";
  from_address = codes "desk@example";
  from_name = [];
  q_encode = λ s. codes "=?utf-8?q??=";
  now_text = codes "now";
  sha256 = λ s. codes "00";
}

smtp-IsTame : IsTame smtp
smtp-IsTame = record {
  from_address = omega arith;
  encoded = λ t. omega arith;
  date = omega arith;
  digest = λ t. omega arith;
}

header_lines-IsHeader_example : All IsHeader (header_lines smtp reply (message_id smtp reply))
header_lines-IsHeader_example = header_lines-IsHeader smtp reply smtp-IsTame

abbrev server : Server
server = record {
  connect = none;
  greeting = none;
  offers_starttls = true;
  starttls = none;
  auth = none;
  mail = none;
  rcpt = λ to. none;
  start_data = none;
  write = none;
  close = none;
}

real_smtp_send-IsGuarded_example :
    All
      (IsGuarded smtp)
      (real_smtp_send smtp none server (codes "desk@example") (codes "a@b" ∷ []) (codes "hi")).1
real_smtp_send-IsGuarded_example =
    real_smtp_send-IsGuarded smtp none server (codes "desk@example") (codes "a@b" ∷ []) (codes "hi")

-- A model that names an item that is not on the checklist.
abbrev classifier : Classifier
classifier = record {
  paths = record { base = λ s. s; match = λ p s. some false };
  client = some (λ input candidates. chosen true (codes "made_up") (finite (pos 900000)));
}

abbrev scan : ClassifierInput
scan = record {
  filename = codes "scan.pdf";
  content_type = codes "application/pdf";
  body_text = codes "text";
  checklist = checklist;
}

classify-IsCandidate_example :
    IsCandidate checklist.required (classify classifier scan).candidate_id
classify-IsCandidate_example = classify-IsCandidate classifier scan

abbrev anthropic : Anthropic
anthropic = record {
  model = codes "claude-haiku-4-5";
  api_key = codes "k";
  daily_cap = 100;
  tracked = true;
  retry_attempts = 3;
  retry_base = 100;
  rounds = calm_rounds;
  sha256 = λ s. s;
  decode = λ s. some (record { content = []; input_tokens = 4; output_tokens = 2; error = none });
  encode = λ s. some s;
  bad_endpoint = none;
}

-- Busy at first, then an answer.
abbrev net : Net
net = record {
  answers = response 429 [] ∷ response 200 [] ∷ [];
  sent = [];
  spent = 90;
  unreadable = false;
  unwritable = false;
}

call_messages-IsMetered_example :
    IsMetered false anthropic net (call_messages anthropic (some (codes "{}")) (codes "hi") net)
call_messages-IsMetered_example =
    call_messages-IsMetered anthropic (some (codes "{}")) (codes "hi") net refl
