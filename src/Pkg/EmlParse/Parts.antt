-- ===== src/Pkg/EmlParse/Parts.antt =====
-- pkg/emlparse/emlparse.go: the parts of a multipart message.
use submission_triage.Prelude.{
  ℕ, zero, suc, ◌&&◌, ◌||◌, not, Option, none, some, List, [], ◌∷◌, ◌++◌, Text, codes, text_eq,
  ◌==◌, if◌then◌else◌, is_empty, leb, length, trim_space, to_lower, has_prefix,
}
use submission_triage.Pkg.EmlParse.Charset.{to_utf8}
use submission_triage.Pkg.EmlParse.Mime.{
  Part, Mime, FilePart, decode_header, first_non_empty, strip_ascii_space,
}
use submission_triage.Pkg.EmlParse.Bounce.{
  BounceReport, original_message_id, is_original_message_part,
}

-- `maxAttachments`
abbrev pub max_attachments : ℕ
max_attachments = 100

-- The walk may go this much deeper than the outermost parts (`maxMultipartDepth`).
abbrev pub max_multipart_depth : ℕ
max_multipart_depth = 32

-- What the walk writes through its pointers.
pub record Walked : Type 0 where
  pub text : Text
  pub html_body : Text
  pub atts : List FilePart
  pub report : BounceReport

unfoldable pub decode_raw : Mime → Text → Text → Text
unfolding strip_ascii_space
decode_raw mime encoding raw =
    let name = to_lower (trim_space encoding) in
    if name == codes "base64"
    then elim (mime.base64_decode (strip_ascii_space raw)) [ none ↦ raw | some dec ↦ dec ]
    else if name == codes "quoted-printable"
    then elim (mime.quoted_printable raw) [ none ↦ raw | some dec ↦ dec ]
    else raw

unfoldable pub decode_body : Mime → Part → Option Text
unfolding decode_raw
decode_body mime part =
    if part.readable
    then some (decode_raw mime (part.header (codes "Content-Transfer-Encoding")) part.body)
    else none

abbrev set_status : Text → Walked → Walked
set_status body w = record w { report = record (w.report) { delivery_status = body } }

abbrev set_original : Text → Walked → Walked
set_original body w = record w {
  report = record (w.report) { original_message_id = original_message_id body };
}

unfoldable pub attached_file : Mime → Part → (Text → Text) → Text → Text → FilePart
unfolding first_non_empty
attached_file mime part params part_type body =
    let names = params (codes "name") ∷ part.file_name ∷ codes "attachment.bin" ∷ [] in
    record {
      name = decode_header mime (first_non_empty names);
      content = mime.base64_encode body;
      content_type = part_type;
    }

unfoldable pub add_attachment : FilePart → Walked → Walked
add_attachment a w =
    if leb max_attachments (length w.atts) then w else record w { atts = w.atts ++ a ∷ [] }

-- A part that is no multipart and whose body was read.
unfoldable pub take_part : Mime → Part → (Text → Text) → Text → Text → Walked → Walked
unfolding add_attachment attached_file
take_part mime part params part_type body w =
    let disp = (mime.parse_media_type (part.header (codes "Content-Disposition"))).name in
    let body_text = is_empty w.text && has_prefix part_type (codes "text/plain") in
    let body_html = is_empty w.html_body && has_prefix part_type (codes "text/html") in
    if part_type == codes "message/delivery-status" && is_empty w.report.delivery_status
    then set_status body w
    else if is_original_message_part part_type && is_empty w.report.original_message_id
    then set_original body w
    else if disp == codes "attachment"
        || not (is_empty (params (codes "name"))) && (not body_text && not body_html)
    then add_attachment (attached_file mime part params part_type body) w
    else if body_text
    then record w { text = to_utf8 body (params (codes "charset")) }
    else if body_html
    then record w { html_body = to_utf8 body (params (codes "charset")) }
    else w

-- A part that cannot be read is passed over.
unfoldable pub take_body : Mime → Part → (Text → Text) → Text → Option Text → Walked → Walked
unfolding take_part
take_body mime part params part_type none w = w
take_body mime part params part_type (some body) w = take_part mime part params part_type body w

-- A nested multipart is walked by `nested`, whose error is dropped.
unfoldable pub one_part : Mime → (Text → Text → Walked → Walked) → Part → Walked → Walked
unfolding take_body decode_body
one_part mime nested part w =
    let media = mime.parse_media_type (part.header (codes "Content-Type")) in
    let part_type = if is_empty media.name then codes "text/plain" else media.name in
    if has_prefix part_type (codes "multipart/")
    then nested part.body (media.params (codes "boundary")) w
    else take_body mime part media.params part_type (decode_body mime part) w

unfoldable pub each_part : Mime → (Text → Text → Walked → Walked) → List Part → Walked → Walked
unfolding one_part
each_part mime nested [] w = w
each_part mime nested (part ∷ parts) w = each_part mime nested parts (one_part mime nested part w)

-- The walk, by how many levels may still be entered. Past the last one it is the dropped error.
unfoldable pub walk_parts : ℕ → Mime → Text → Text → Walked → Walked
unfolding each_part
walk_parts zero mime raw boundary w = w
walk_parts (suc levels) mime raw boundary w =
    each_part mime (walk_parts levels mime) (mime.next_parts raw boundary) w
