-- ===== src/Service/Threads/References.antt =====
-- internal/service/submissions.go: the references of an email, each once.
use submission_triage.Prelude.{
  ◌≡◌, ◌∙◌, refl, Bool-cases, inl, inr, nat_eq, Bool, ◌&&◌, not, List, [], ◌∷◌, Text, text_eq, ◌==◌,
  contains, is_empty, trim_space, any, arith, text_beq_iff, if◌then◌else◌, count_if, ==_refl,
}
use submission_triage.Service.Threads.{clean_refs, clean_thread_refs}

-- A reference that trims to `v`, which is not empty.
abbrev pub is_ref : Text → Text → Bool
is_ref v r = not (is_empty v) && trim_space r == v

clean_refs-count :
    (raw seen : List Text) (v : Text)
    → count_if (λ x. x == v) (clean_refs raw seen)
      ≡ (if any (is_ref v) raw && not (contains seen v) then 1 else 0)
unfolding clean_refs
clean_refs-count [] seen v = refl
clean_refs-count (r ∷ raw) seen v = elim (Bool-cases (trim_space r == v)) [
  | inl e ↦
      let same = (text_beq_iff (trim_space r) v).0 e in
      rw same
        (ground (arith, clean_refs-count raw seen v, clean_refs-count raw (v ∷ seen) v, ==_refl v))
  | inr e ↦
      ground (arith, e, clean_refs-count raw seen v, clean_refs-count raw (trim_space r ∷ seen) v)
]

-- The references looked up are the ones given that are not blank, trimmed, each exactly once.
pub clean_thread_refs-count :
    (message_id in_reply_to : Text) (references : List Text) (v : Text)
    → count_if (λ x. x == v) (clean_thread_refs message_id in_reply_to references)
      ≡ (if any (is_ref v) (message_id ∷ in_reply_to ∷ references) then 1 else 0)
unfolding clean_thread_refs
clean_thread_refs-count message_id in_reply_to references v =
    clean_refs-count (message_id ∷ in_reply_to ∷ references) [] v ∙ ground arith
