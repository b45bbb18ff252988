-- ===== src/Service/Summary.antt =====
-- internal/service/submissions.go: the daily digest of the open submissions, and its sending.
-- The rows of the audit table are the world's; the digest's own errors are the caller's to log.
pub mod Silence
use submission_triage.Prelude.{
  ℕ, zero, suc, ◌-◌, ◌+◌, Bool, true, false, ◌&&◌, ◌||◌, not, Option, none, some, List, [], ◌∷◌,
  ◌++◌, map, Text, codes, text_eq, nat_eq, ◌==◌, contains, if◌then◌else◌, is_empty, keep_if, length,
  leb, ltb, show_nat, Result, ok, err,
}
use submission_triage.Model.Submission.{Document, Submission, MissingItem}
use submission_triage.Model.Checklist.{Checklist, RequiredItem}
use submission_triage.Model.Documents.{filename_only_matches}
use submission_triage.Model.Digest.{NamesById, names_of, build_digest}
use submission_triage.Model.Reply.{Reply}
use submission_triage.Repository.Submissions.{Tables, list_open, count_open}
use submission_triage.Service.World.{
  World, Event, AuditEntry, Error, M, pure, gets, attempt, call, ◌>>=◌, ◌>>◌, Env, audit,
}
use submission_triage.Service.Threads.{get_checklist}
use submission_triage.Service.Dispatch.{send_reply}

-- cfg.Digest; 0 stands for what is not positive.
pub record Mailing : Type 0 where
  pub interval : ℕ
  pub recipient : Text
  pub max_rows : ℕ

-- `FilenameOnlyItems` of the repository, for one id after the other.
docs_of : Text → List Document → List Document
docs_of id docs = keep_if (λ d. d.submission_id == id && not (is_empty d.classified_as)) docs

unfoldable pub filename_only_items : List Text → Tables → NamesById
unfolding docs_of
filename_only_items [] t = []
filename_only_items (id ∷ ids) t =
    let rest = filename_only_items ids t in
    let found = filename_only_matches (docs_of id t.documents) in
    if is_empty found then rest else (id, found) ∷ rest

is_reply_disabled : Event → Bool
is_reply_disabled Event.reply_disabled = true
is_reply_disabled _ = false

-- `ListSubmissionIDsByEvent` for replies that were switched off, at any time.
unfoldable pub disabled_ids : List AuditEntry → List Text
unfolding is_reply_disabled
disabled_ids entries =
    map (λ (e : AuditEntry). e.submission_id)
      (keep_if (λ e. is_reply_disabled e.event && not (is_empty e.submission_id)) entries)

withheld_among : List Submission → Result Error (List Text) → M (List Text)
withheld_among subs (err e) = pure []
withheld_among subs (ok disabled) = pure (
    map (λ (s : Submission). s.id)
      (keep_if (λ s. contains disabled s.id && s.last_reply_at == 0) subs))

-- `replyWithheld`
unfoldable pub reply_withheld : List Submission → M (List Text)
unfolding disabled_ids withheld_among
reply_withheld subs = attempt (call (gets λ w. disabled_ids w.audit_log)) >>= withheld_among subs

-- `firstDigestRecipient`
unfoldable pub first_digest_recipient : List Checklist → Text → Text
first_digest_recipient [] fallback = fallback
first_digest_recipient (c ∷ cs) fallback =
    let rest = first_digest_recipient cs fallback in
    if is_empty c.escalation.digest_recipient then rest else c.escalation.digest_recipient

-- The map of descriptions: the last item with an id counts.
description_of : Text → List RequiredItem → Option Text
description_of id [] = none
description_of id (it ∷ items) = elim (description_of id items) [
  | some later ↦ some later
  | none ↦ if it.id == id then some it.description else none
]

-- One item's name in front of the others, unless it is missing or has none.
add_name : Bool → Option Text → List Text → List Text
add_name is_missing none rest = rest
add_name is_missing (some name) rest = if is_missing || is_empty name then rest else name ∷ rest

resolve_names : Checklist → List MissingItem → List Text → List Text
unfolding description_of add_name
resolve_names cl missing [] = []
resolve_names cl missing (id ∷ ids) =
    add_name (contains (map (λ (m : MissingItem). m.id) missing) id) (description_of id cl.required)
      (resolve_names cl missing ids)

names_for : Option Checklist → Submission → List Text → List Text
unfolding resolve_names
names_for none s ids = []
names_for (some cl) s ids = resolve_names cl s.missing_items ids

-- `resolveFilenameOnly`
unfoldable pub resolve_filename_only : List Checklist → List Submission → NamesById → NamesById
unfolding names_for names_of
resolve_filename_only cls [] by_id = []
resolve_filename_only cls (s ∷ subs) by_id =
    let rest = resolve_filename_only cls subs by_id in
    let names = names_for (get_checklist s.policy_type cls) s (names_of s.id by_id) in
    if is_empty names then rest else (s.id, names) ∷ rest

abbrev digest_reply : Text → Text → ℕ → Reply
digest_reply recipient body count = record {
  submission_id = [];
  to_address = recipient;
  subject = codes "[submission-triage] Daily digest (" ++ (show_nat count ++ codes " open)");
  body_text = body;
  in_reply_to = [];
  references = [];
}

-- What the count of the open submissions leaves out of the digest.
omitted_of : ℕ → Result Error ℕ → ℕ
omitted_of max_rows (err e) = 0
omitted_of max_rows (ok total) = total - max_rows

count_omitted : ℕ → List Submission → M ℕ
unfolding omitted_of
count_omitted max_rows subs =
    if length subs == max_rows
    then attempt (call (gets λ w. count_open w.tables)) >>= (λ r. pure (omitted_of max_rows r))
    else pure 0

mail_digest : Env → Text → List Submission → ℕ → M (Unit {0})
unfolding reply_withheld resolve_filename_only filename_only_items
mail_digest env recipient subs omitted =
    call (gets λ w. filename_only_items (map (λ (s : Submission). s.id) subs) w.tables)
    >>= λ flagged. reply_withheld subs >>= λ withheld. gets (λ w. w.now) >>= λ now.
        let body =
          build_digest subs (resolve_filename_only env.checklists subs flagged) withheld omitted
            now in
        send_reply (digest_reply recipient body (length subs + omitted)) >>= λ id.
        audit [] Event.digest_sent

digest_of : Env → Text → ℕ → List Submission → M (Unit {0})
unfolding mail_digest count_omitted
digest_of env recipient max_rows [] = pure tt
digest_of env recipient max_rows (s ∷ subs) =
    count_omitted max_rows (s ∷ subs) >>= mail_digest env recipient (s ∷ subs)

-- `SendDigest`
unfoldable pub send_digest : Env → Mailing → M (Unit {0})
unfolding digest_of
send_digest env cfg =
    let recipient = first_digest_recipient env.checklists cfg.recipient in
    let max_rows = if leb cfg.max_rows 0 then 500 else cfg.max_rows in
    if leb cfg.interval 0 || is_empty recipient
    then pure tt
    else call (gets λ w. list_open max_rows w.tables) >>= digest_of env recipient max_rows
