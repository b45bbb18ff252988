-- ===== src/Pkg/EmlParse/Message.antt =====
-- pkg/emlparse/emlparse.go: the whole message (`FromReader`, `parseBody`).
use mathlib.Core.Option
use submission_triage.Prelude.{
  suc, ◌&&◌, ◌||◌, not, Option, none, some, List, [], ◌∷◌, Text, codes, if◌then◌else◌, is_empty,
  trim_space, has_prefix, trim_set,
}
use submission_triage.Pkg.EmlParse.Charset.{to_utf8}
use submission_triage.Pkg.EmlParse.Mime.{
  Part, MediaType, Mime, Header, Payload, strip_control, decode_header, split_address, strip_html,
}
use submission_triage.Pkg.EmlParse.Bounce.{detect_bounce}
use submission_triage.Pkg.EmlParse.Parts.{max_multipart_depth, Walked, decode_body, walk_parts}

-- `autoResponseHeaders`
abbrev pub auto_response_headers : List Text
auto_response_headers =
    codes "Auto-Submitted"
    ∷ codes "Precedence"
    ∷ codes "List-Id"
    ∷ codes "List-Unsubscribe"
    ∷ codes "X-Auto-Response-Suppress"
    ∷ codes "Return-Path"
    ∷ []

abbrev pub nothing_walked : Walked
nothing_walked = record {
  text = [];
  html_body = [];
  atts = [];
  report = record { delivery_status = []; original_message_id = [] };
}

unfoldable pub single_text : Mime → MediaType → Text → Walked
single_text mime media body =
    let text = to_utf8 body (media.params (codes "charset")) in
    record nothing_walked {
      text = if has_prefix media.name (codes "text/html") then strip_html mime text else text;
    }

-- A body of one part.
unfoldable pub single_body : Mime → Part → Option Walked
unfolding single_text
single_body mime part =
    let media = mime.parse_media_type (part.header (codes "Content-Type")) in
    Option.map (single_text mime media) (decode_body mime part)

-- The text is taken from the HTML part where there is no other.
unfoldable pub text_or_html : Mime → Walked → Walked
text_or_html mime w =
    if is_empty w.text && not (is_empty w.html_body)
    then record w { text = strip_html mime w.html_body }
    else w

-- `none` where the body cannot be read. The outermost walk never exceeds the depth.
unfoldable pub parse_body : Mime → Part → Option Walked
unfolding single_body text_or_html
parse_body mime part =
    let media = mime.parse_media_type (part.header (codes "Content-Type")) in
    let boundary = media.params (codes "boundary") in
    if not media.valid || not (has_prefix media.name (codes "multipart/")) || is_empty boundary
    then single_body mime part
    else some (
        text_or_html mime
          (walk_parts (suc max_multipart_depth) mime part.body boundary nothing_walked))

unfoldable pub auto_headers : (Text → Text) → List Text → List Header
unfolding strip_control
auto_headers get [] = []
auto_headers get (name ∷ names) =
    let rest = auto_headers get names in
    let v = trim_space (get name) in
    if is_empty v then rest else record { name = name; value = strip_control v } ∷ rest

unfoldable pub payload_of : Mime → (Text → Text) → Walked → Payload
unfolding auto_headers decode_header
payload_of mime get body =
    let angle = codes "<>" in
    let media = mime.parse_media_type (get (codes "Content-Type")) in
    let from = split_address mime (get (codes "From")) in
    let reply_to = split_address mime (get (codes "Reply-To")) in
    let to = split_address mime (get (codes "To")) in
    let (bounce, permanent) =
      detect_bounce media.name media.params from.email (get (codes "Return-Path"))
        body.report.delivery_status in
    record {
      message_id = trim_set angle (get (codes "Message-ID"));
      from = from.email;
      from_full = from;
      reply_to = reply_to.email;
      reply_to_full = reply_to;
      to = to.email;
      to_full = to ∷ [];
      subject = decode_header mime (get (codes "Subject"));
      text_body = body.text;
      date = if is_empty (get (codes "Date")) then mime.now_text else get (codes "Date");
      headers =
          record { name = codes "In-Reply-To"; value = trim_set angle (get (codes "In-Reply-To")) }
          ∷ record { name = codes "References"; value = get (codes "References") }
          ∷ auto_headers get auto_response_headers;
      attachments = body.atts;
      bounce = bounce;
      bounce_permanent = permanent;
      bounced_message_id = if bounce then body.report.original_message_id else [];
    }

unfoldable pub from_body : Mime → (Text → Text) → Option Walked → Option Payload
unfolding payload_of
from_body mime get none = none
from_body mime get (some body) = some (payload_of mime get body)

unfoldable pub from_message : Mime → Option ((Text → Text) × Part) → Option Payload
unfolding from_body parse_body
from_message mime none = none
from_message mime (some (get, part)) = from_body mime get (parse_body mime part)

-- `FromReader`, none for its error.
unfoldable pub from_reader : Mime → Text → Option Payload
unfolding from_message
from_reader mime raw = from_message mime (mime.read_message raw)
