-- ===== src/Tests/Model.antt =====
-- The theorems about internal/model and pkg/textutil, run.
use mathlib.Core.List.{Permᴰ}
use submission_triage.Prelude.{
  ◌+◌, ◌≤◌, ◌≡◌, refl, List, newline, ◌⊎◌, ◌↔◌, ◌&&◌, not, true, some, [], ◌∷◌, ◌++◌, map, codes,
  arith, length, count_if, any, keep_if, contains, float_zero, Text, nat_eq, text_eq,
}
use submission_triage.Model.Submission.{
  Submission, awaiting, closed, escalated, opened, MissingItem, transition_to,
}
use submission_triage.Model.Lifecycle.{
  ◌⟶◌, IsStamped, IsAccepted, Moved, transition_to-IsAccepted_iff, transition_to-IsStamped,
  transition_to-Moved,
}
use submission_triage.Model.Checklist.{
  evaluate_checklist, broker_actionable, is_review, RequiredItem,
}
use submission_triage.Model.Checklist.Satisfied.{is_satisfied, evaluate_checklist-is_satisfied}
use submission_triage.Model.Checklist.Routing.{evaluate_checklist-routing}
use submission_triage.Model.Reply.{missing_items, reply_fingerprint, item_key}
use submission_triage.Model.Reply.Fingerprint.{
  ask, reply_fingerprint-perm, reply_fingerprint-injective,
}
use submission_triage.Model.Digest.{digest_sections, build_digest, review_note, omitted_note}
use submission_triage.Model.Digest.Sections.{Listed, build_digest-Listed}
use submission_triage.Model.Documents.{
  filename_only_matches, named_by_filename, corroborated_for, filename_only_matches-contains,
}
use submission_triage.Pkg.TextUtil.{truncate_bytes, starts_rune, truncate_bytes-cut}
use submission_triage.Tests.Data.{conv, document, checklist, submission, missing}

transition_to-IsAccepted_iff_example :
    IsAccepted (transition_to awaiting 9 submission) ↔ ((opened ≡ awaiting) ⊎ (opened ⟶ awaiting))
transition_to-IsAccepted_iff_example = transition_to-IsAccepted_iff awaiting 9 submission

abbrev escalated_submission : Submission
escalated_submission = record submission {
  state = escalated;
  updated_at = 9;
  last_action_at = 9;
  escalated_at = some 9;
}

transition_to-IsStamped_example : IsStamped escalated_submission
unfolding transition_to
transition_to-IsStamped_example =
    transition_to-IsStamped escalated 9 submission escalated_submission (refl, refl) refl

transition_to-Moved_example :
    Moved awaiting 9
      (record submission { state = closed })
      (record submission { state = awaiting; updated_at = 9; last_action_at = 9 })
unfolding transition_to
transition_to-Moved_example =
    transition_to-Moved awaiting 9 (record submission { state = closed })
      (record submission { state = awaiting; updated_at = 9; last_action_at = 9 }) refl

evaluate_checklist-is_satisfied_example :
    map (λ (x : MissingItem). x.id) (evaluate_checklist conv float_zero (document ∷ []) checklist)
    ≡ map
        (λ (i : RequiredItem). i.id)
        (keep_if (λ i. not (is_satisfied conv float_zero (document ∷ []) i)) checklist.required)
evaluate_checklist-is_satisfied_example =
    evaluate_checklist-is_satisfied conv float_zero (document ∷ []) checklist

evaluate_checklist-routing_example :
    let found = evaluate_checklist conv float_zero (document ∷ []) checklist in
    length (broker_actionable found) + count_if (λ m. is_review m.code) found ≡ length found
evaluate_checklist-routing_example =
    evaluate_checklist-routing conv float_zero (document ∷ []) checklist

abbrev second : MissingItem
second = record missing { id = codes "acord_125" }

reply_fingerprint-perm_example :
    reply_fingerprint (λ s. s) missing_items (missing ∷ second ∷ [])
    ≡ reply_fingerprint (λ s. s) missing_items (second ∷ missing ∷ [])
reply_fingerprint-perm_example =
    reply_fingerprint-perm (λ s. s) missing_items (Permᴰ.swap refl refl)

reply_fingerprint-injective_example :
    (missing_items ≡ missing_items)
    × Permᴰ (map ask (missing ∷ second ∷ [])) (map ask (second ∷ missing ∷ []))
unfolding item_key
reply_fingerprint-injective_example =
    reply_fingerprint-injective (λ s. s) missing_items missing_items (missing ∷ second ∷ [])
      (second ∷ missing ∷ []) (ground arith) (ground arith) (ground arith) (ground arith)
      (λ same. same)
      (reply_fingerprint-perm (λ s. s) missing_items
        (Permᴰ.swap {a = missing} {b = second} refl refl))

build_digest-Listed_example :
    (body : Text) × (rows : List Submission) × (build_digest
        (escalated_submission ∷ submission ∷ [])
        []
        []
        2
        9
      ≡ review_note (count_if (λ s. s.needs_review) (escalated_submission ∷ submission ∷ []))
        ++ codes "Open submissions:"
        ++ newline
        ++ body
        ++ omitted_note 2)
    × Listed [] [] 9 digest_sections body rows
    × Permᴰ rows (escalated_submission ∷ submission ∷ [])
build_digest-Listed_example =
    build_digest-Listed (escalated_submission ∷ submission ∷ []) [] [] 2 9 refl

filename_only_matches-contains_example :
    contains (filename_only_matches (document ∷ [])) (codes "acord_125") ≡ (
      any (named_by_filename (codes "acord_125")) (document ∷ [])
      && not (any (corroborated_for (codes "acord_125")) (document ∷ [])))
filename_only_matches-contains_example =
    filename_only_matches-contains (document ∷ []) (codes "acord_125")

truncate_bytes-cut_example :
    (length (truncate_bytes (0x61 ∷ 0xc3 ∷ 0xa9 ∷ []) 2) ≤ 2)
    × ((rest : Text) × (truncate_bytes (0x61 ∷ 0xc3 ∷ 0xa9 ∷ []) 2 ++ rest
          ≡ 0x61 ∷ 0xc3 ∷ 0xa9 ∷ [])
        × ((truncate_bytes (0x61 ∷ 0xc3 ∷ 0xa9 ∷ []) 2 ≡ []) ⊎ (starts_rune rest ≡ true)))
truncate_bytes-cut_example = truncate_bytes-cut (0x61 ∷ 0xc3 ∷ 0xa9 ∷ []) 2
