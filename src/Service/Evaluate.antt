-- ===== src/Service/Evaluate.antt =====
-- internal/service/submissions.go: the checklist run on an email, and what to answer.
use submission_triage.Prelude.{
  ◌+◌, Bool, true, false, ◌&&◌, ◌||◌, not, Option, none, some, List, [], ◌∷◌, Text, codes, text_eq,
  nat_eq, ◌==◌, if◌then◌else◌, is_empty, trim_space, to_lower, contains_text, contains, any,
  is_some, ok, err, ltb, keep_if, map, float_zero,
}
use submission_triage.Model.Submission.{
  Time, awaiting, complete, state_eq, Email, Document, Submission, MissingItem, missing_attachment,
  attach_document, transition_to,
}
use submission_triage.Model.Checklist.{
  Checklist, evaluate_checklist, policy_unknown_item, broker_actionable,
}
use submission_triage.Model.Reply.{
  Reply, ask_policy, completion, missing_items, reply_fingerprint, build_missing_items_reply,
  build_policy_unknown_reply, build_completion_reply,
}
use submission_triage.Service.World.{
  on_option, on_answer, Event, M, pure, raise, ◌>>=◌, ◌>>◌, Env, audit, audit_cap_once, when,
  transition, policy_unknown, policy_resolved, checklist_evaluated, state_transitioned,
  identity_extracted, llm_call, llm_failed,
}
use submission_triage.Service.Threads.{
  infer_policy_type, get_checklist, reply_body_prefix, policy_type_unknown, named_insured_from_text,
}
use submission_triage.Service.Documents.{classify_attachments}

set_policy : Text → Submission → Submission
set_policy policy s = record s { policy_type = policy }

unfoldable pub resolve_policy_type : Env → Email → Submission → M Submission
unfolding set_policy
resolve_policy_type env inbound s =
    let by_subject = infer_policy_type inbound.subject env.checklists in
    let resolved =
      if by_subject == policy_type_unknown
      then infer_policy_type (reply_body_prefix inbound.body_text) env.checklists
      else by_subject in
    if is_some (get_checklist s.policy_type env.checklists)
    then pure s
    else if resolved == policy_type_unknown
    then pure s
    else audit s.id policy_resolved >> pure (set_policy resolved s)

unfoldable pub policy_clarify_exhausted : Env → Submission → Bool
policy_clarify_exhausted env s =
    ltb 0 env.policy_clarify_max_asks && ltb env.policy_clarify_max_asks s.policy_clarify_asks

-- The submission with its missing items recorded, and whether no checklist matched.
pub record Evaluated : Type 0 where
  pub submission : Submission
  pub unknown : Bool

-- No checklist matched: one more ask is counted.
unfoldable pub evaluate_unknown : Submission → M Submission
evaluate_unknown s =
    audit s.id policy_unknown
    >> pure (record s {
      policy_type = policy_type_unknown;
      policy_clarify_asks = s.policy_clarify_asks + 1;
      missing_items = policy_unknown_item ∷ [];
    })

attach_documents : List Document → Submission → Submission
attach_documents [] s = s
attach_documents (d ∷ ds) s = attach_documents ds (attach_document d s)

unfoldable pub evaluate_known : Env → Email → Checklist → Submission → M Submission
unfolding attach_documents
evaluate_known env inbound cl s = do
  docs ← classify_attachments env s inbound cl inbound.attachments
  let s' = attach_documents docs s
  pure (record s' {
    missing_items = evaluate_checklist env.strconv env.confidence_floor s'.documents cl;
  })

unfoldable pub evaluate : Env → Email → Submission → M Evaluated
unfolding resolve_policy_type evaluate_unknown evaluate_known
evaluate env inbound s = resolve_policy_type env inbound s >>= λ s1.
    on_option (get_checklist s1.policy_type env.checklists)
      (evaluate_unknown s1 >>= λ s2.
        audit s2.id checklist_evaluated >> pure (record { submission = s2; unknown = true }))
      (λ cl. evaluate_known env inbound cl s1 >>= λ s2.
        audit s2.id checklist_evaluated >> pure (record { submission = s2; unknown = false }))

unfoldable pub application_item_ids : List Text
application_item_ids = codes "acord_125" ∷ codes "acord_130" ∷ codes "cyber_application" ∷ []

application_doc : List Document → Option Document
unfolding application_item_ids
application_doc [] = none
application_doc (d ∷ ds) =
    let rest = application_doc ds in
    if contains application_item_ids d.classified_as
      && (not d.unreadable && (not d.encrypted && not (is_empty (trim_space d.extracted_text))))
    then some d
    else rest

parse_effective_date : Env → Text → Option Time
parse_effective_date env raw =
    let s = trim_space raw in if is_empty s then none else env.parse_date s

unfoldable pub ask_identity : Env → Submission → Document → M (Text × Text)
ask_identity env s doc = on_option env.extract_identity (pure ([], [])) (λ ask.
    let reply = ask doc.filename doc.extracted_text in
    when reply.used (audit s.id llm_call)
    >> on_answer reply.outcome (audit_cap_once >> pure ([], []))
        (audit s.id llm_failed >> pure ([], [])) (λ found. pure found))

-- The date stays as it was where the answer has none that parses.
set_identity : Env → Text → Text → Submission → Submission
unfolding parse_effective_date
set_identity env named effective s = elim (parse_effective_date env effective) [
  | none ↦ record s { named_insured = named }
  | some t ↦ record s { named_insured = named; effective_date = some t }
]

unfoldable pub use_identity : Env → Submission → Document → Text × Text → M Submission
unfolding set_identity
use_identity env s doc (answered, effective) =
    let named =
      if is_empty answered then named_insured_from_text doc.extracted_text else answered in
    if is_empty named
    then pure s
    else audit s.id identity_extracted >> pure (set_identity env named effective s)

unfoldable pub extract_identity : Env → Submission → M Submission
unfolding application_doc ask_identity use_identity
extract_identity env s =
    if not (is_empty s.named_insured)
    then pure s
    else on_option (application_doc s.documents) (pure s)
        (λ doc. ask_identity env s doc >>= use_identity env s doc)

-- `transitionState`.
unfoldable pub transition_state : Submission → M Submission
transition_state s w =
    let next = if is_empty s.missing_items then complete else awaiting in
    elim (transition_to next w.now s) [
      | err e ↦ raise (transition e) w
      | ok t ↦ (when (not (s.state == t.state)) (audit s.id state_transitioned) >> pure t) w
    ]

known_checklist_names : Env → List Text
known_checklist_names env =
    keep_if (λ n. not (is_empty n)) (map (λ (c : Checklist). c.name) env.checklists)

looks_like_missing_attachment : Env → Email → List MissingItem → Bool
looks_like_missing_attachment env inbound broker =
    let body = to_lower inbound.body_text in
    if not (is_empty inbound.attachments) || is_empty broker
    then false
    else any (λ d. not (is_empty d) && contains_text body (to_lower d)) env.attachment_link_domains
      || contains_text body (codes "attach")

missing_attachment_item : MissingItem
missing_attachment_item = record {
  id = codes "missing_attachment";
  description = [];
  reason = [];
  code = missing_attachment;
  confidence = float_zero;
}

-- The items that a reply to the broker names.
unfoldable pub asked_items : Env → Email → List MissingItem → List MissingItem
unfolding looks_like_missing_attachment missing_attachment_item
asked_items env inbound missing =
    let broker = broker_actionable missing in
    if looks_like_missing_attachment env inbound broker
    then missing_attachment_item ∷ []
    else broker

-- The reply and its fingerprint, or none to send.
unfoldable pub build_reply : Env → Submission → Email → Bool → Option (Reply × Text)
unfolding known_checklist_names asked_items policy_clarify_exhausted
build_reply env s inbound unknown =
    let missing = s.missing_items in
    if unknown
    then if policy_clarify_exhausted env s
      then none
      else some (
        build_policy_unknown_reply s inbound (known_checklist_names env),
        reply_fingerprint env.sha256 ask_policy missing,
      )
    else if is_empty missing
    then some (build_completion_reply s inbound, reply_fingerprint env.sha256 completion [])
    else if is_empty (broker_actionable missing)
    then none
    else some (
      build_missing_items_reply s (asked_items env inbound missing) inbound,
      reply_fingerprint env.sha256 missing_items (asked_items env inbound missing),
    )

abbrev pub is_off : Option Bool → Bool
is_off none = false
is_off (some enabled) = not enabled

-- Whether replies are blocked, with the audit of why.
unfoldable pub reply_suppressed : Env → Submission → M Bool
reply_suppressed env s =
    if is_off env.replies_enabled
    then audit s.id Event.reply_disabled >> pure true
    else if s.delivery_failed
    then audit s.id Event.reply_suppressed >> pure true
    else if s.on_hold
    then audit s.id Event.reply_suppressed >> pure true
    else pure false

unfoldable pub reply_not_before : Env → Submission → Time → Time
reply_not_before env s now =
    if s.last_reply_at == 0
    then now
    else if ltb now (s.last_reply_at + env.coalesce_window)
    then s.last_reply_at + env.coalesce_window
    else now
