-- ===== src/Infrastructure/Smtp.antt =====
-- internal/infrastructure/email/smtp.go: writing a reply as a message, and sending it.
-- The texts are valid UTF-8. The server's and the network's answers are given.
pub mod Session
pub mod Exchange
pub mod Folding
pub mod Headers
pub mod Threading
use submission_triage.Prelude.{
  ℕ, zero, suc, ◌+◌, ◌-◌, ◌<◌, Bool, true, false, ◌&&◌, ◌||◌, not, Option, none, some, List, [],
  ◌∷◌, ◌++◌, map, Text, codes, text_eq, ◌==◌, nat_eq, if◌then◌else◌, is_empty, keep_if, count_if,
  take, drop, length, leb, ltb, trim_space, to_lower, contains,
}
use submission_triage.Model.Reply.{Reply}
use submission_triage.Pkg.TextUtil.{rune_start}

-- `maxRefs`, `maxSubjectRunes`, `headerFoldOctets`, `maxMsgIDLen`
abbrev pub max_refs : ℕ
max_refs = 50

abbrev pub max_subject_runes : ℕ
max_subject_runes = 512

abbrev pub header_fold_octets : ℕ
header_fold_octets = 900

abbrev pub max_msg_id_len : ℕ
max_msg_id_len = 256

abbrev pub crlf : Text
crlf = 13 ∷ 10 ∷ []

pub record Smtp : Type 0 where
  pub host : Text
  pub port : Text
  pub username : Text
  pub from_address : Text
  pub from_name : Text
  -- mime.QEncoding.Encode in UTF-8.
  pub q_encode : Text → Text
  -- The present time as RFC 1123 writes it.
  pub now_text : Text
  -- The digest in hexadecimal.
  pub sha256 : Text → Text

abbrev is_line_end : ℕ → Bool
is_line_end c = c == 13 || c == 10

unfoldable pub strip_crlf : Text → Text
strip_crlf s = keep_if (λ c. not (is_line_end c)) s

-- What `msgIDStripper` removes.
unfoldable pub is_stripped : ℕ → Bool
is_stripped c = is_line_end c || (c == 9 || (c == 32 || (c == b'<' || c == b'>')))

unfoldable pub sanitize_msg_id : Text → Text
unfolding is_stripped
sanitize_msg_id s = keep_if (λ c. not (is_stripped c)) (trim_space s)

-- Whether a sanitised id is written.
unfoldable pub is_written : Text → Bool
is_written id = not (is_empty id) && leb (length id) max_msg_id_len

abbrev pub most_recent : List Text → List Text
most_recent references = drop (length references - max_refs) references

-- The ids that end up in the References header.
unfoldable pub kept_ids : List Text → List Text
unfolding sanitize_msg_id is_written
kept_ids references = keep_if is_written (map sanitize_msg_id (most_recent references))

abbrev pub in_angles : Text → Text
in_angles id = b'<' ∷ (id ++ b'>' ∷ [])

-- The loop over the tokens after the first one, with the length of the line.
unfoldable pub fold_tokens : ℕ → List Text → Text
fold_tokens line_len [] = []
fold_tokens line_len (t ∷ ts) =
    let folded = fold_tokens (1 + length t) ts in
    let joined = fold_tokens (line_len + 1 + length t) ts in
    if ltb header_fold_octets (line_len + 1 + length t)
    then crlf ++ (32 ∷ (t ++ folded))
    else 32 ∷ (t ++ joined)

-- 12 is the length of the header's name, with the colon and the space.
unfoldable pub render_tokens : List Text → Text
unfolding fold_tokens
render_tokens [] = []
render_tokens (t ∷ ts) = t ++ fold_tokens (12 + length t) ts

unfoldable pub build_refs : List Text → Text
unfolding kept_ids render_tokens
build_refs references = render_tokens (map in_angles (kept_ids references))

-- The first `n` characters: a continuation byte goes with the byte before it.
rune_prefix : ℕ → Text → Text
rune_prefix n [] = []
rune_prefix zero (c ∷ s) = let rest = rune_prefix zero s in if rune_start c then [] else c ∷ rest
rune_prefix (suc n) (c ∷ s) =
    let fewer = rune_prefix n s in
    let same = rune_prefix (suc n) s in if rune_start c then c ∷ fewer else c ∷ same

unfoldable pub truncate_runes : Text → ℕ → Text
unfolding rune_prefix
truncate_runes s max =
    if leb (length s) max
    then s
    else if leb (count_if rune_start s) max
    then s
    else rune_prefix max s

abbrev pub localhost_names : List Text
localhost_names = codes "localhost" ∷ codes "127.0.0.1" ∷ codes "::1" ∷ []

unfoldable pub is_localhost : Text → Bool
is_localhost host = contains localhost_names (to_lower host)

-- What follows the last `@`, if there is one.
unfoldable pub after_last_at : Text → Option Text
after_last_at [] = none
after_last_at (c ∷ s) = elim (after_last_at s) [
  | some rest ↦ some rest
  | none ↦ if c == b'@' then some s else none
]

unfoldable pub domain_from : Option Text → Text
domain_from none = codes "localhost"
domain_from (some []) = codes "localhost"
domain_from (some (c ∷ s)) = c ∷ s

unfoldable pub domain_of : Text → Text
unfolding after_last_at domain_from
domain_of addr = domain_from (after_last_at addr)

-- Half of the digest.
unfoldable pub reply_message_id : Smtp → Reply → Text
reply_message_id s r =
    take 32 (s.sha256 (r.submission_id ++ 0 ∷ (r.to_address ++ 0 ∷ (r.subject ++ 0 ∷ r.body_text))))

unfoldable pub message_id : Smtp → Reply → Text
unfolding reply_message_id domain_of
message_id s r = reply_message_id s r ++ b'@' ∷ domain_of s.from_address

unfoldable pub from_header : Smtp → Text
from_header s =
    let addr = strip_crlf s.from_address in
    if is_empty s.from_name then addr else s.q_encode s.from_name ++ codes " <" ++ addr ++ codes ">"

-- The header lines, without their ends. The References line may be folded.
unfoldable pub header_lines : Smtp → Reply → Text → List Text
unfolding from_header strip_crlf truncate_runes sanitize_msg_id is_written build_refs
header_lines s r msg_id =
    let id = sanitize_msg_id r.in_reply_to in
    let refs = build_refs r.references in
    (codes "From: " ++ from_header s)
    ∷ (codes "To: " ++ strip_crlf r.to_address)
    ∷ (codes "Subject: " ++ s.q_encode (truncate_runes r.subject max_subject_runes))
    ∷ (codes "Date: " ++ s.now_text)
    ∷ (codes "Message-ID: <" ++ (msg_id ++ codes ">"))
    ∷ ((if is_written id then (codes "In-Reply-To: <" ++ (id ++ codes ">")) ∷ [] else [])
        ++ ((if is_empty refs then [] else (codes "References: " ++ refs) ∷ [])
            ++ (codes "Auto-Submitted: auto-generated"
                ∷ codes "MIME-Version: 1.0"
                ∷ codes "Content-Type: text/plain; charset=utf-8"
                ∷ [])))

unfoldable pub end_lines : List Text → Text
end_lines [] = []
end_lines (l ∷ ls) = l ++ (crlf ++ end_lines ls)

-- ReplaceAll of each pair by a newline, then of each newline by a pair.
lone_newlines : Text → Text
lone_newlines [] = []
lone_newlines (c ∷ []) = c ∷ []
lone_newlines (c ∷ d ∷ s) =
    let after = lone_newlines s in
    let next = lone_newlines (d ∷ s) in if c == 13 && d == 10 then 10 ∷ after else c ∷ next

paired_newlines : Text → Text
paired_newlines [] = []
paired_newlines (c ∷ s) =
    let rest = paired_newlines s in if c == 10 then 13 ∷ 10 ∷ rest else c ∷ rest

unfoldable pub wire_body : Text → Text
unfolding lone_newlines paired_newlines
wire_body body = paired_newlines (lone_newlines body)

unfoldable pub build_message : Smtp → Reply → Text → Text
unfolding header_lines end_lines wire_body
build_message s r msg_id = end_lines (header_lines s r msg_id) ++ (crlf ++ wire_body r.body_text)
