-- ===== src/Service/Ingest/Frame.antt =====
-- internal/service/submissions.go: what runs before anything is committed changes no stored row.
use submission_triage.Prelude.{Bool, List, [], ◌∷◌, Text, arith}
use submission_triage.Model.Submission.{Email, Attachment, Document, Submission}
use submission_triage.Model.Checklist.{Checklist, RequiresField}
use submission_triage.Service.World.{
  Env, audit, when, modify, pure, raise, gets, call, ◌>>=◌, ◌>>◌, append_entry, best_effort,
}
use submission_triage.Service.Frame.{Keeps, keeping}
use submission_triage.Service.Documents.{
  extract_field, add_field, classify_attachment, classify_attachments,
}
use submission_triage.Service.Evaluate.{
  resolve_policy_type, evaluate, evaluate_unknown, evaluate_known, ask_identity, use_identity,
  extract_identity, transition_state, reply_suppressed,
}
use submission_triage.Service.Ingest.{
  IngestRequest, Assessed, create_submission, on_thread, off_thread, resolve_submission, find_match,
  reparent_audits, content_match, merge_if_new, flag_review, receive, assess,
}

resolve_policy_type-Keeps :
    (env : Env) (e : Email) (s : Submission) → Keeps (resolve_policy_type env e s)
unfolding resolve_policy_type
resolve_policy_type-Keeps env e s = search keeping depth 20

pub reply_suppressed-Keeps : (env : Env) (s : Submission) → Keeps (reply_suppressed env s)
unfolding reply_suppressed
reply_suppressed-Keeps env s = search keeping depth 20

extract_field-Keeps :
    (env : Env) (sid filename text : Text) (rf : RequiresField)
    → Keeps (extract_field env sid filename text rf)
unfolding extract_field
extract_field-Keeps env sid filename text rf = search keeping depth 20

add_field-Keeps :
    (env : Env) (s : Submission) (a : Attachment) (text : Text) (cl : Checklist) (d : Document)
    → Keeps (add_field env s a text cl d)
unfolding add_field
add_field-Keeps env s a text cl d = search (keeping, extract_field-Keeps) depth 20

classify_attachment-Keeps :
    (env : Env) (s : Submission) (e : Email) (cl : Checklist) (a : Attachment)
    → Keeps (classify_attachment env s e cl a)
unfolding classify_attachment
classify_attachment-Keeps env s e cl a = search (keeping, add_field-Keeps) depth 20

evaluate_unknown-Keeps : (s : Submission) → Keeps (evaluate_unknown s)
unfolding evaluate_unknown
evaluate_unknown-Keeps s = search keeping depth 20

classify_attachments-Keeps :
    (env : Env) (s : Submission) (e : Email) (cl : Checklist) (atts : List Attachment)
    → Keeps (classify_attachments env s e cl atts)
unfolding classify_attachments
classify_attachments-Keeps env s e cl [] = search keeping depth 20
classify_attachments-Keeps env s e cl (a ∷ atts) =
    search (keeping, classify_attachment-Keeps, classify_attachments-Keeps env s e cl atts)

evaluate_known-Keeps :
    (env : Env) (e : Email) (cl : Checklist) (s : Submission) → Keeps (evaluate_known env e cl s)
unfolding evaluate_known
evaluate_known-Keeps env e cl s = search (keeping, classify_attachments-Keeps) depth 20

evaluate-Keeps : (env : Env) (e : Email) (s : Submission) → Keeps (evaluate env e s)
unfolding evaluate
evaluate-Keeps env e s =
    search (keeping, resolve_policy_type-Keeps, evaluate_unknown-Keeps, evaluate_known-Keeps) depth
      20

ask_identity-Keeps : (env : Env) (s : Submission) (d : Document) → Keeps (ask_identity env s d)
unfolding ask_identity
ask_identity-Keeps env s d = search keeping depth 20

use_identity-Keeps :
    (env : Env) (s : Submission) (d : Document) (found : Text × Text)
    → Keeps (use_identity env s d found)
unfolding use_identity
use_identity-Keeps env s d found = search keeping depth 20

extract_identity-Keeps : (env : Env) (s : Submission) → Keeps (extract_identity env s)
unfolding extract_identity
extract_identity-Keeps env s = search (keeping, ask_identity-Keeps, use_identity-Keeps) depth 20

create_submission-Keeps : (env : Env) (req : IngestRequest) → Keeps (create_submission env req)
unfolding create_submission
create_submission-Keeps env req = search keeping depth 20

on_thread-Keeps :
    (email_id : Text) (s : Submission) (ambiguous : Bool) → Keeps (on_thread email_id s ambiguous)
unfolding on_thread
on_thread-Keeps email_id s ambiguous = search keeping depth 20

off_thread-Keeps :
    (env : Env) (req : IngestRequest) (email_id : Text) → Keeps (off_thread env req email_id)
unfolding off_thread
off_thread-Keeps env req email_id = search (keeping, create_submission-Keeps) depth 20

pub resolve_submission-Keeps :
    (env : Env) (req : IngestRequest) (email_id : Text)
    → Keeps (resolve_submission env req email_id)
unfolding resolve_submission
resolve_submission-Keeps env req email_id =
    search (keeping, on_thread-Keeps, off_thread-Keeps) depth 20

pub receive-Keeps :
    (req : IngestRequest) (email_id : Text) (s : Submission) → Keeps (receive req email_id s)
unfolding receive
receive-Keeps req email_id s = search keeping depth 20

find_match-Keeps : (env : Env) (s : Submission) → Keeps (find_match env s)
unfolding find_match Keeps call gets
find_match-Keeps env s w = ground arith

reparent_audits-Keeps : (from to : Text) → Keeps (modify (reparent_audits from to))
unfolding reparent_audits Keeps modify
reparent_audits-Keeps from to w = ground arith

content_match-Keeps : (env : Env) (s : Submission) (e : Email) → Keeps (content_match env s e)
unfolding content_match
content_match-Keeps env s e = search (keeping, find_match-Keeps, reparent_audits-Keeps) depth 20

merge_if_new-Keeps :
    (env : Env) (is_new : Bool) (e : Email) (a : Assessed) → Keeps (merge_if_new env is_new e a)
unfolding merge_if_new
merge_if_new-Keeps env is_new e a = search (keeping, content_match-Keeps) depth 20

flag_review-Keeps : (env : Env) (s : Submission) → Keeps (flag_review env s)
unfolding flag_review
flag_review-Keeps env s = search keeping depth 20

transition_state-Keeps : (s : Submission) → Keeps (transition_state s)
unfolding transition_state Keeps pure raise ◌>>◌ ◌>>=◌ audit when append_entry call modify
    best_effort
transition_state-Keeps s w = ground arith

pub assess-Keeps :
    (env : Env) (is_new : Bool) (e : Email) (s : Submission) → Keeps (assess env is_new e s)
unfolding assess
assess-Keeps env is_new e s =
    search
      (
        keeping, evaluate-Keeps, extract_identity-Keeps, merge_if_new-Keeps, flag_review-Keeps,
        transition_state-Keeps,
      )
      depth 20
