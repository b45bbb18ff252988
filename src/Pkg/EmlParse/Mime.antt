-- ===== src/Pkg/EmlParse/Mime.antt =====
-- pkg/emlparse/emlparse.go: the data of a message, and the texts of its headers.
-- Control characters, tags and white space are removed byte by byte, as Go does in valid UTF-8.
use submission_triage.Prelude.{
  ℕ, Bool, true, false, ◌||◌, not, Option, none, some, List, [], ◌∷◌, Text, nat_eq, ◌==◌, contains,
  if◌then◌else◌, is_empty, keep_if, ltb, trim_space,
}

-- A part of a multipart body: its headers by name, the file name of its disposition, the bytes of its
-- body, and whether reading them ends without an error.
pub record Part : Type 0 where
  pub header : Text → Text
  pub file_name : Text
  pub body : Text
  pub readable : Bool

-- mime.ParseMediaType: the type, the parameters by name, and whether there was no error.
pub record MediaType : Type 0 where
  pub name : Text
  pub params : Text → Text
  pub valid : Bool

-- What the standard library makes of a message.
pub record Mime : Type 0 where
  -- mail.ReadMessage: the headers by name, with the body; none for its error.
  pub read_message : Text → Option ((Text → Text) × Part)
  pub parse_media_type : Text → MediaType
  -- The parts that a multipart reader yields for a boundary before it ends or fails.
  pub next_parts : Text → Text → List Part
  pub base64_decode : Text → Option Text
  pub base64_encode : Text → Text
  pub quoted_printable : Text → Option Text
  -- mime.WordDecoder.DecodeHeader
  pub decode_words : Text → Option Text
  -- mail.ParseAddress: the address and the name.
  pub parse_address : Text → Option (Text × Text)
  pub unescape_html : Text → Text
  -- The present time as RFC 1123 writes it.
  pub now_text : Text

pub record Address : Type 0 where
  pub email : Text
  pub name : Text

pub record Header : Type 0 where
  pub name : Text
  pub value : Text

pub record FilePart : Type 0 where
  pub name : Text
  pub content : Text
  pub content_type : Text

pub record Payload : Type 0 where
  pub message_id : Text
  pub from : Text
  pub from_full : Address
  pub reply_to : Text
  pub reply_to_full : Address
  pub to : Text
  pub to_full : List Address
  pub subject : Text
  pub text_body : Text
  pub date : Text
  pub headers : List Header
  pub attachments : List FilePart
  pub bounce : Bool
  pub bounce_permanent : Bool
  pub bounced_message_id : Text

-- What `stripControl` keeps of a text.
unfoldable pub is_printable : ℕ → Bool
is_printable c = c == 9 || not (ltb c 0x20 || c == 0x7f)

unfoldable pub strip_control : Text → Text
unfolding is_printable
strip_control s = keep_if is_printable s

unfoldable pub decode_header : Mime → Text → Text
unfolding strip_control
decode_header mime s = strip_control (elim (mime.decode_words s) [ none ↦ s | some got ↦ got ])

unfoldable pub split_address : Mime → Text → Address
split_address mime [] = record { email = []; name = [] }
split_address mime (c ∷ s) = elim (mime.parse_address (c ∷ s)) [
  | none ↦ record { email = c ∷ s; name = [] }
  | some (email, name) ↦ record { email = email; name = name }
]

unfoldable pub first_non_empty : List Text → Text
first_non_empty [] = []
first_non_empty (v ∷ vals) = let rest = first_non_empty vals in if is_empty v then rest else v

unfoldable pub strip_ascii_space : Text → Text
strip_ascii_space s = keep_if (λ c. not (contains (32 ∷ 9 ∷ 13 ∷ 10 ∷ []) c)) s

-- The loop of `stripHTML`, with `inTag`.
outside_tags : Bool → Text → Text
outside_tags in_tag [] = []
outside_tags in_tag (c ∷ s) =
    let opened = outside_tags true s in
    let closed = outside_tags false s in
    if c == b'<'
    then opened
    else if c == b'>'
    then closed
    else if in_tag
    then opened
    else c ∷ closed

unfoldable pub strip_html : Mime → Text → Text
unfolding outside_tags
strip_html mime s = trim_space (mime.unescape_html (outside_tags false s))
