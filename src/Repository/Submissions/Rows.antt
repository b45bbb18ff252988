-- ===== src/Repository/Submissions/Rows.antt =====
-- internal/repository/submissions.go: what one transaction writes, and what loading reads back.
use submission_triage.Prelude.{
  Option, none, some, List, [], ◌∷◌, ◌++◌, Text, text_eq, nat_eq, ◌==◌, map, if◌then◌else◌,
  is_empty, any, keep_if, leb, sort_by,
}
use submission_triage.Model.Submission.{Time, Attachment, Email, Document, Submission, Value}

pub record Tables : Type 0 where
  pub submissions : List Submission
  pub emails : List Email
  pub documents : List Document

abbrev nano_or_now : Time → Time → Time
nano_or_now now t = if t == 0 then now else t

-- A row as INSERT writes it.
abbrev pub inserted_row : Time → Submission → Submission
inserted_row now s = record s {
  created_at = nano_or_now now s.created_at;
  updated_at = nano_or_now now s.updated_at;
  last_action_at = nano_or_now now s.last_action_at;
  emails = [];
  documents = [];
}

-- The DO UPDATE: created_at, last_reply_at and on_hold stay as they are.
abbrev pub updated_row : Time → Submission → Submission → Submission
updated_row now s old = record (inserted_row now s) {
  created_at = old.created_at;
  last_reply_at = old.last_reply_at;
  on_hold = old.on_hold;
}

unfoldable pub upsert_submission_row : Time → Submission → List Submission → List Submission
upsert_submission_row now s [] = inserted_row now s ∷ []
upsert_submission_row now s (r ∷ rows) =
    let rest = upsert_submission_row now s rows in
    if r.id == s.id then updated_row now s r ∷ rows else r ∷ rest

strip_attachment_content : List Attachment → List Attachment
strip_attachment_content atts = map (λ (a : Attachment). record a { content = [] }) atts

-- DO NOTHING on a deterministic id that is there: the duplicate error is dropped by both callers.
unfoldable pub upsert_email_row : Email → List Email → List Email
unfolding strip_attachment_content
upsert_email_row e emails =
    if any (λ x. x.deterministic_id == e.deterministic_id) emails
    then emails
    else emails ++ record e { attachments = strip_attachment_content e.attachments } ∷ []

abbrev updated_document : Document → Document → Document
updated_document d old = record old {
  classified_as = d.classified_as;
  confidence = d.confidence;
  classified_by = d.classified_by;
  extracted_text = d.extracted_text;
  extracted_fields = d.extracted_fields;
  unreadable = d.unreadable;
  encrypted = d.encrypted;
}

put_document : Document → List Document → List Document
put_document d [] = d ∷ []
put_document d (r ∷ rows) =
    let rest = put_document d rows in if r.id == d.id then updated_document d r ∷ rows else r ∷ rest

-- `none` for a document without an id.
unfoldable pub upsert_document_row : Document → List Document → Option (List Document)
unfolding put_document
upsert_document_row d rows = if is_empty d.id then none else some (put_document d rows)

unfoldable pub upsert_emails : List Email → List Email → List Email
unfolding upsert_email_row
upsert_emails [] rows = rows
upsert_emails (e ∷ es) rows = upsert_emails es (upsert_email_row e rows)

unfoldable pub upsert_documents : List Document → List Document → Option (List Document)
unfolding upsert_document_row
upsert_documents [] rows = some rows
upsert_documents (d ∷ ds) rows = elim (upsert_document_row d rows) [
  | none ↦ none
  | some rows' ↦ upsert_documents ds rows'
]

-- The transaction of `UpsertSubmission`; `none` is an error, and then nothing is committed.
unfoldable pub upsert_submission : Time → Submission → Tables → Option Tables
unfolding upsert_submission_row upsert_emails upsert_documents
upsert_submission now s t =
    if is_empty s.id then none else elim (upsert_documents s.documents t.documents) [
      | none ↦ none
      | some docs ↦ some (record {
        submissions = upsert_submission_row now s t.submissions;
        emails = upsert_emails s.emails t.emails;
        documents = docs;
      })
    ]

unfoldable pub find_row : Text → List Submission → Option Submission
find_row id [] = none
find_row id (r ∷ rows) = let rest = find_row id rows in if r.id == id then some r else rest

load_emails : Text → List Email → List Email
unfolding sort_by
load_emails id emails =
    sort_by (λ a b. leb a.received_at b.received_at) (keep_if (λ e. e.submission_id == id) emails)

-- A column that holds `{}` is read back as no map.
read_fields : Option (List (Text × Value)) → Option (List (Text × Value))
read_fields (some []) = none
read_fields other = other

load_documents : Text → List Document → List Document
unfolding sort_by read_fields
load_documents id docs =
    map (λ (d : Document). record d { extracted_fields = read_fields d.extracted_fields })
      (sort_by (λ a b. leb a.created_at b.created_at) (keep_if (λ d. d.submission_id == id) docs))

unfoldable pub get_by_id : Text → Tables → Option Submission
unfolding find_row load_emails load_documents
get_by_id id t = elim (find_row id t.submissions) [
  | none ↦ none
  | some r ↦
      some
        (record r { emails = load_emails id t.emails; documents = load_documents id t.documents })
]
