-- ===== src/Delivery/EmailIngest.antt =====
-- internal/delivery/emailingest/translate.go: from a parsed message to a request of the service.
pub mod References
pub mod Flags
use submission_triage.Prelude.{
  ℕ, zero, suc, ◌+◌, Bool, true, false, ◌&&◌, ◌||◌, not, Option, none, some, List, [], ◌∷◌, ◌++◌,
  map, Text, codes, text_eq, ◌==◌, nat_eq, if◌then◌else◌, is_empty, is_some, keep_if, any, take,
  drop, length, trim_space, to_lower, fields, index_of, contains_text, contains, trim_set,
  equal_fold,
}
use submission_triage.Model.Submission.{Time, Attachment}
use submission_triage.Pkg.EmlParse.Mime.{Mime, Address, Header, FilePart, Payload}
use submission_triage.Service.Ingest.{IngestRequest}

-- mail.ParseDate: the time in UTC, and the name and offset of the zone.
pub record MailDate : Type 0 where
  pub time : Time
  pub zone : Text
  pub offset_is_zero : Bool

pub record Reading : Type 0 where
  pub mime : Mime
  pub parse_date : Text → Option MailDate
  -- The digest in hexadecimal.
  pub sha256 : Text → Text

unfoldable pub trim_angle : Text → Text
trim_angle s = trim_set (codes "<>") s

unfoldable pub trim_angles : List Text → List Text
unfolding trim_angle
trim_angles ids = keep_if (λ v. not (is_empty v)) (map trim_angle ids)

-- One round of the loop over the bracketed ids: from the bracket that opens, to the one that closes.
unfoldable pub close_id : (Text → List Text) → Text → Option ℕ → List Text
close_id more rest none = []
close_id more rest (some j) = take (suc j) rest ∷ more (drop (suc j) rest)

unfoldable pub open_id : (Text → List Text) → Text → Option ℕ → List Text
unfolding close_id
open_id more rest none = []
open_id more rest (some i) = close_id more (drop i rest) (index_of (drop i rest) (codes ">"))

-- Each round drops a byte at least, so the length is fuel enough.
unfoldable pub bracketed_ids : ℕ → Text → List Text
unfolding open_id
bracketed_ids zero rest = []
bracketed_ids (suc f) rest = open_id (bracketed_ids f) rest (index_of rest (codes "<"))

unfoldable pub split_references : Text → List Text
unfolding bracketed_ids
split_references v =
    let out = bracketed_ids (length v) v in
    if is_empty out
    then keep_if (λ f. contains_text f (codes "@") && not (any (λ c. c == b'<' || c == b'>') f))
        (fields v)
    else out

-- What the loop over the headers collects: the automatic-reply headers as a map, last one first.
pub record Collected : Type 0 where
  pub in_reply_to : Text
  pub references : List Text
  pub auto_headers : List Header

unfoldable pub collect_header : Header → Collected → Collected
unfolding split_references
collect_header h got =
    let name = to_lower h.name in
    if name == codes "in-reply-to"
    then record got { in_reply_to = trim_space h.value }
    else if name == codes "references"
    then record got { references = got.references ++ split_references h.value }
    else record got { auto_headers = record { name = name; value = h.value } ∷ got.auto_headers }

unfoldable pub collect_headers : List Header → Collected → Collected
unfolding collect_header
collect_headers [] got = got
collect_headers (h ∷ hs) got = collect_headers hs (collect_header h got)

-- A look into the map of headers.
unfoldable pub header_value : List Header → Text → Option Text
header_value [] name = none
header_value (h ∷ hs) name =
    let rest = header_value hs name in if h.name == name then some h.value else rest

abbrev pub value_or_empty : Option Text → Text
value_or_empty none = []
value_or_empty (some v) = v

unfoldable pub not_no : Option Text → Bool
not_no none = false
not_no (some v) = not (equal_fold (trim_space v) (codes "no"))

unfoldable pub detect_auto_submitted : List Header → Bool
unfolding header_value not_no
detect_auto_submitted h =
    let get = λ (name : Text). value_or_empty (header_value h name) in
    let precedence = to_lower (trim_space (get (codes "precedence"))) in
    not_no (header_value h (codes "auto-submitted"))
    || (contains (codes "bulk" ∷ codes "list" ∷ codes "junk" ∷ []) precedence
        || (not (is_empty (get (codes "list-id")))
            || (not (is_empty (get (codes "list-unsubscribe")))
                || trim_space (get (codes "return-path")) == codes "<>")))

unfoldable pub valid_reply_to : Mime → Text → Text
valid_reply_to mime addr =
    if is_empty addr then [] else if is_some (mime.parse_address addr) then addr else []

-- A named zone that was read as the offset 0.
abbrev pub unresolved_zone : MailDate → Bool
unresolved_zone t =
    t.offset_is_zero
    && (not (is_empty t.zone) && (not (t.zone == codes "UTC") && not (t.zone == codes "GMT")))

unfoldable pub received_or_now : Time → Option MailDate → Time
received_or_now now none = now
received_or_now now (some t) = if unresolved_zone t then now else t.time

unfoldable pub decoded_attachment : Reading → FilePart → Option Text → List Attachment
decoded_attachment env a none = []
decoded_attachment env a (some []) = []
decoded_attachment env a (some (c ∷ raw)) =
    record {
      filename = a.name;
      content_type = a.content_type;
      size = length (c ∷ raw);
      sha256 = env.sha256 (c ∷ raw);
      content = c ∷ raw;
    }
    ∷ []

unfoldable pub decode_attachments : Reading → List FilePart → List Attachment
unfolding decoded_attachment
decode_attachments env [] = []
decode_attachments env (a ∷ atts) =
    decoded_attachment env a (env.mime.base64_decode a.content) ++ decode_attachments env atts

unfoldable pub recipients : Payload → List Text
recipients p =
    let to = keep_if (λ e. not (is_empty e)) (map (λ (a : Address). a.email) p.to_full) in
    if is_empty to && not (is_empty p.to) then p.to ∷ [] else to

-- The request before the flags of an automatic message.
unfoldable pub plain_request : Reading → Time → Payload → Collected → IngestRequest
unfolding recipients decode_attachments received_or_now valid_reply_to
plain_request env now p got = record {
  message_id = trim_angle p.message_id;
  in_reply_to = trim_angle got.in_reply_to;
  references = trim_angles got.references;
  from_address = if is_empty p.from_full.email then p.from else p.from_full.email;
  from_name = p.from_full.name;
  reply_to = valid_reply_to env.mime p.reply_to_full.email;
  to_addresses = recipients p;
  subject = p.subject;
  body_text = p.text_body;
  received_at = received_or_now now (env.parse_date p.date);
  attachments = decode_attachments env p.attachments;
  auto_submitted = false;
  bounce = false;
  bounce_permanent = false;
}

-- The id of the failed message is one more reference.
unfoldable pub add_bounced : Text → List Text → List Text
add_bounced [] references = references
add_bounced (c ∷ id) references = references ++ (c ∷ id) ∷ []

-- `Translate`, but for the source and the headers that only the audit shows.
unfoldable pub translate : Reading → Time → Payload → IngestRequest
unfolding plain_request add_bounced detect_auto_submitted collect_headers
translate env now p =
    let got =
      collect_headers p.headers (record { in_reply_to = []; references = []; auto_headers = [] }) in
    let req = plain_request env now p got in
    if p.bounce
    then record req {
      bounce = true;
      bounce_permanent = p.bounce_permanent;
      references = add_bounced (trim_angle p.bounced_message_id) req.references;
    }
    else if detect_auto_submitted got.auto_headers
    then record req { auto_submitted = true }
    else req
