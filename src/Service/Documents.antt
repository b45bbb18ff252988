-- ===== src/Service/Documents.antt =====
-- internal/service/submissions.go: the attachments of an email as classified documents.
use submission_triage.Prelude.{
  ◌-◌, Bool, true, false, ◌&&◌, ◌||◌, not, Option, none, some, List, [], ◌∷◌, Text, codes, text_eq,
  ◌==◌, if◌then◌else◌, is_empty, trim_space, to_lower, has_prefix, contains_text, length, ltb, leb,
  drop, is_some, reverse,
}
use submission_triage.Pkg.TextUtil.{truncate_bytes}
use submission_triage.Model.Submission.{Attachment, Email, Document, Submission, Value}
use submission_triage.Model.Checklist.{Checklist, RequiredItem, RequiresField}
use submission_triage.Service.World.{
  on_option, on_answer, World, M, pure, gets, ◌>>=◌, ◌>>◌, Env, audit, audit_cap_once, new_uuid,
  when, Classified, document_classified, document_unreadable, document_encrypted, field_extracted,
  llm_call, llm_failed,
}

pub normalize_content_type : Env → Text → Text
normalize_content_type env content_type = elim (env.media_type content_type) [
  | some mt ↦ mt
  | none ↦ to_lower (trim_space content_type)
]

pub is_pdf : Env → Text → Bool
unfolding normalize_content_type
is_pdf env content_type =
    let ct = normalize_content_type env content_type in
    ct == codes "application/pdf" || ct == codes "application/x-pdf"

has_suffix : Text → Text → Bool
has_suffix s suffix = has_prefix (reverse s) (reverse suffix)

-- The tail of the file.
unfoldable pub pdf_trailer : Text → Text
pdf_trailer content =
    if leb (length content) 4096 then content else drop (length content - 4096) content

looks_like_pdf : Env → Attachment → Bool
unfolding is_pdf has_suffix
looks_like_pdf env a =
    not (is_empty a.content)
    && ((is_pdf env a.content_type || has_suffix (to_lower a.filename) (codes ".pdf"))
        || has_prefix a.content (codes "%PDF-"))

unfoldable pub is_encrypted : Env → Attachment → Bool
unfolding looks_like_pdf pdf_trailer
is_encrypted env a =
    looks_like_pdf env a && contains_text (pdf_trailer a.content) (codes "/Encrypt")

unfoldable pub is_unreadable : Env → Attachment → Text → Bool
unfolding normalize_content_type is_pdf
is_unreadable env a text =
    let ct = normalize_content_type env a.content_type in
    if has_prefix ct (codes "text/")
    then false
    else if not (is_some (env.extractor ct))
    then true
    else if not (is_pdf env a.content_type)
    then false
    else if ltb a.size env.unreadable_min_size_bytes
    then false
    else ltb (length (trim_space text)) env.unreadable_min_chars

unfoldable pub extract_text : Env → Attachment → Text
unfolding normalize_content_type
extract_text env a =
    let ct = normalize_content_type env a.content_type in
    if is_empty a.content then [] else elim (env.extractor ct) [
      | none ↦ if has_prefix ct (codes "text/") then a.content else []
      | some extract ↦ elim (extract a.content) [ none ↦ [] | some out ↦ out ]
    ]

unfoldable pub extract_field : Env → Text → Text → Text → RequiresField → M (Option Value)
extract_field env sid filename text rf = on_option env.extract_field (pure none) (λ ask.
    let reply = ask filename text rf in
    when reply.used (audit sid llm_call)
    >> on_answer reply.outcome (audit_cap_once >> pure none) (audit sid llm_failed >> pure none)
        (λ v. audit sid field_extracted >> pure (some v)))

find_item : Text → List RequiredItem → Option RequiredItem
find_item id [] = none
find_item id (item ∷ items) =
    let rest = find_item id items in
    elim rest [ some later ↦ some later | none ↦ if item.id == id then some item else none ]

document_of :
    Email
    → Submission
    → Env
    → Attachment
    → Text
    → Text
    → Classified
    → Bool
    → Bool
    → World
    → Document
document_of e sub env a id text result unreadable encrypted w = record {
  id = id;
  submission_id = sub.id;
  email_id = e.deterministic_id;
  filename = a.filename;
  content_type = a.content_type;
  size_bytes = a.size;
  sha256 = a.sha256;
  classified_as = result.candidate_id;
  confidence = result.confidence;
  classified_by = result.by;
  extracted_text = truncate_bytes text 262144;
  extracted_fields = none;
  unreadable = unreadable;
  encrypted = encrypted;
  created_at = w.now;
}

-- A nil value is not stored.
with_field : Text → Value → Document → Document
with_field name Value.null doc = doc
with_field name v doc = record doc { extracted_fields = some ((name, v) ∷ []) }

-- The declared field of the item that the document was classified to, if it has one.
unfoldable pub add_field : Env → Submission → Attachment → Text → Checklist → Document → M Document
unfolding find_item extract_field with_field
add_field env sub a text cl doc =
    on_option (find_item doc.classified_as cl.required) (pure doc) (λ item.
      on_option item.requires_field (pure doc) (λ rf.
        extract_field env sub.id a.filename text rf >>= λ found.
        on_option found (pure doc) (λ v. pure (with_field rf.name v doc))))

unfoldable pub classify_attachment : Env → Submission → Email → Checklist → Attachment → M Document
unfolding extract_text is_encrypted is_unreadable document_of add_field
classify_attachment env sub e cl a =
    let text = extract_text env a in
    let encrypted = is_encrypted env a && is_empty (trim_space text) in
    let unreadable = not encrypted && is_unreadable env a text in
    let result = env.classify (record {
      filename = a.filename;
      content_type = a.content_type;
      body_text = text;
      checklist = cl;
    }) in
    do
      when result.capped (audit_cap_once)
      when result.failed (audit sub.id llm_failed)
      when result.used (audit sub.id llm_call)
      id ← new_uuid env
      doc ← gets (document_of e sub env a id text result unreadable encrypted)
      audit sub.id document_classified
      when unreadable (audit sub.id document_unreadable)
      when encrypted (audit sub.id document_encrypted)
      add_field env sub a text cl doc

unfoldable pub classify_attachments :
    Env → Submission → Email → Checklist → List Attachment → M (List Document)
unfolding classify_attachment
classify_attachments env sub e cl [] = pure []
classify_attachments env sub e cl (a ∷ atts) = do
  doc ← classify_attachment env sub e cl a
  rest ← classify_attachments env sub e cl atts
  pure (doc ∷ rest)
