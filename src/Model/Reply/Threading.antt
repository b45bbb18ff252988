-- ===== src/Model/Reply/Threading.antt =====
-- internal/model/reply.go: subjects and greetings.
use submission_triage.Prelude.{
  ◌≡◌, refl, inl, inr, true, ◌++◌, Text, codes, has_prefix, to_lower, Bool-cases,
}
use submission_triage.Model.Reply.{reply_subject}

prefixed : (s : Text) → has_prefix (to_lower (codes "Re: " ++ s)) (codes "re:") ≡ true
unfolding has_prefix to_lower
prefixed s = refl

-- A reply's subject begins with "re:" in some case, and replying again adds no second prefix.
reply_subject_once :
    (subject : Text)
    → (has_prefix (to_lower (reply_subject subject)) (codes "re:") ≡ true)
      × (reply_subject (reply_subject subject) ≡ reply_subject subject)
unfolding reply_subject
reply_subject_once subject = elim (Bool-cases (has_prefix (to_lower subject) (codes "re:"))) [
  | inl e ↦ (rw (e, e), rw (e, e))
  | inr e ↦ (rw e (prefixed subject), rw (e, prefixed subject))
]
