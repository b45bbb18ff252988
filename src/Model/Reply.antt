-- ===== src/Model/Reply.antt =====
-- internal/model/reply.go: the replies, and the fingerprint of what one tells the broker.
-- SHA-256 in hexadecimal is a parameter.
pub mod Fingerprint
pub mod Threading
use submission_triage.Prelude.{
  ℕ, Bool, true, false, ◌&&◌, ◌||◌, not, Option, none, some, List, [], ◌∷◌, ◌++◌, map, Text, codes,
  text_eq, nat_eq, ◌==◌, contains, if◌then◌else◌, is_empty, trim_space, any, keep_if, to_lower,
  has_prefix, index_of, fields, join, newline, ltb, length, take, sort_texts, suc, zero,
}
use submission_triage.Model.Submission.{
  Reason, not_provided, low_confidence, unreadable, field_shortfall, encrypted, missing_attachment,
  policy_unknown, reason_eq, MissingItem, Email, Submission,
}

pub record Reply : Type 0 where
  pub submission_id : Text
  pub to_address : Text
  pub subject : Text
  pub body_text : Text
  pub in_reply_to : Text
  pub references : List Text

pub data ReplyKind : Type 0 where
  ask_policy completion missing_items : ReplyKind

kind_text : ReplyKind → Text
kind_text ask_policy = codes "policy_unknown"
kind_text completion = codes "completion"
kind_text missing_items = codes "missing_items"

unfoldable pub reason_text : Reason → Text
reason_text not_provided = codes "not_provided"
reason_text low_confidence = codes "low_confidence"
reason_text unreadable = codes "unreadable"
reason_text field_shortfall = codes "field_shortfall"
reason_text encrypted = codes "encrypted"
reason_text missing_attachment = codes "missing_attachment"
reason_text policy_unknown = codes "policy_unknown"
reason_text (Reason.other s) = s

unfoldable pub item_key : MissingItem → Text
unfolding reason_text
item_key m = m.id ++ 0x1f ∷ reason_text m.code

-- What the writes after the kind add up to.
write_keys : List Text → Text
write_keys [] = []
write_keys (k ∷ ks) = (0 ∷ k) ++ write_keys ks

-- The bytes that are hashed.
unfoldable pub fingerprint_input : ReplyKind → List MissingItem → Text
unfolding kind_text item_key write_keys
fingerprint_input kind items = kind_text kind ++ write_keys (sort_texts (map item_key items))

unfoldable pub reply_fingerprint : (Text → Text) → ReplyKind → List MissingItem → Text
unfolding fingerprint_input
reply_fingerprint sha256 kind items = sha256 (fingerprint_input kind items)

reply_target : Email → Text
reply_target e = let rt = trim_space e.reply_to in if is_empty rt then e.from_address else rt

is_control : ℕ → Bool
is_control c = ltb c 0x20 || c == 0x7f

sanitize_greeting : Text → Text
unfolding is_control
sanitize_greeting s = keep_if (λ c. not (is_control c)) s

role_local_parts : List Text
role_local_parts =
    codes "submissions" ∷ codes "info" ∷ codes "noreply" ∷ codes "no-reply" ∷ codes "support" ∷ []

usable_greeting : Text → Bool
unfolding is_control role_local_parts
usable_greeting local =
    if ltb (length local) 3
    then false
    else if any is_control local
    then false
    else if any (λ c. contains (codes "0123456789") c) local
    then false
    else not (contains role_local_parts (to_lower local))

-- The greeting from the address: its local part, or "there".
address_name : Text → Text
unfolding usable_greeting
address_name address = elim (index_of address (codes "@")) [
  | none ↦ codes "there"
  | some at ↦
      let local = take at address in
      if ltb 0 at && usable_greeting local then local else codes "there"
]

greeting_name : Email → Text
unfolding sanitize_greeting address_name
greeting_name e = elim (fields e.from_name) [
  | [] ↦ address_name e.from_address
  | part ∷ _ ↦
      let name = sanitize_greeting part in
      if is_empty name then address_name e.from_address else name
]

unfoldable pub reply_subject : Text → Text
reply_subject subject =
    if has_prefix (to_lower subject) (codes "re:") then subject else codes "Re: " ++ subject

unfoldable pub new_reply : Submission → Text → Email → Reply
unfolding reply_target reply_subject
new_reply s body last_inbound = record {
  submission_id = s.id;
  to_address = reply_target last_inbound;
  subject = reply_subject last_inbound.subject;
  body_text = body;
  in_reply_to = last_inbound.message_id;
  references =
      last_inbound.references
      ++ (if is_empty last_inbound.message_id then [] else last_inbound.message_id ∷ []);
}

has_code : List MissingItem → Reason → Bool
has_code missing code = any (λ m. m.code == code) missing

hello : Email → Text
unfolding greeting_name
hello e = codes "Hi " ++ greeting_name e ++ codes "," ++ newline ++ newline

missing_attachment_line : Text
missing_attachment_line =
    codes "We didn't find any attachments on this message. If you sent a download link, could you "
    ++ codes "attach the files directly instead?"

-- One line of the list of absent documents.
absent_line : MissingItem → Text
absent_line m =
    codes "  - "
    ++ m.description
    ++ (if m.code == field_shortfall then codes " (" ++ m.reason ++ codes ")" else [])
    ++ newline

encrypted_line : MissingItem → Text
encrypted_line m =
    newline
    ++ codes "We received "
    ++ m.description
    ++ codes " but it's password-protected and we can't open it. Could you resend it unlocked, "
    ++ codes "or send the password separately?"
    ++ newline

write_all : (MissingItem → Text) → List MissingItem → Text
write_all f [] = []
write_all f (m ∷ ms) = f m ++ write_all f ms

-- The two parts of the missing-items body.
item_list : List MissingItem → Text
unfolding write_all absent_line encrypted_line
item_list missing =
    let absent = keep_if (λ m. not (m.code == encrypted)) missing in
    (if is_empty absent
      then []
      else codes "Thanks for the submission. To finish the file we still need:"
        ++ newline
        ++ newline
        ++ write_all absent_line absent)
    ++ write_all encrypted_line (keep_if (λ m. m.code == encrypted) missing)

unfoldable pub build_missing_items_reply : Submission → List MissingItem → Email → Reply
unfolding has_code hello missing_attachment_line item_list new_reply
build_missing_items_reply s missing last_inbound =
    if has_code missing missing_attachment
    then new_reply s (hello last_inbound ++ missing_attachment_line ++ newline) last_inbound
    else new_reply s
        (hello last_inbound
          ++ item_list missing
          ++ newline
          ++ codes "Reply to this thread with the documents and we'll continue."
          ++ newline)
        last_inbound

unfoldable pub build_policy_unknown_reply : Submission → Email → List Text → Reply
unfolding hello new_reply
build_policy_unknown_reply s last_inbound known_types =
    let hint =
      codes "the line of business"
      ++ (if is_empty known_types
          then []
          else codes " (e.g., " ++ join (codes ", ") known_types ++ codes ")") in
    new_reply s
      (hello last_inbound
        ++ codes
            "Thanks for the submission. We couldn't determine the policy type from the subject "
        ++ codes "line. Could you reply with "
        ++ hint
        ++ codes " so we can pull the right checklist?"
        ++ newline)
      last_inbound

-- The dash in the text, in UTF-8.
em_dash : Text
em_dash = 0xe2 ∷ 0x80 ∷ 0x94 ∷ []

unfoldable pub build_completion_reply : Submission → Email → Reply
unfolding hello em_dash new_reply
build_completion_reply s last_inbound =
    new_reply s
      (hello last_inbound
        ++ codes "Thanks "
        ++ em_dash
        ++ codes " everything on our checklist for this submission is now accounted for. Nothing "
        ++ codes "further is needed from you at this time."
        ++ newline)
      last_inbound
