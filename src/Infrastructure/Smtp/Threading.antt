-- ===== src/Infrastructure/Smtp/Threading.antt =====
-- internal/infrastructure/email/smtp.go and internal/delivery/emailingest/translate.go: the References
-- header as it is written and as it is read.
use mathlib.Core.List.{append_assoc}
use submission_triage.Prelude.{
  ℕ, ◌+◌, ◌≡◌, refl, ◌∙◌, ap, inl, inr, List, [], ◌∷◌, ◌++◌, map, Text, if◌then◌else◌, fields,
  fields_from, length, ltb, All, arith, Bool-cases,
}
use submission_triage.Delivery.EmailIngest.{bracketed_ids, trim_angles, split_references}
use submission_triage.Delivery.EmailIngest.References.{
  Free, written, bracketed, IsFolded, IsBare, split_references-written, trim_angles-bracketed,
}
use submission_triage.Infrastructure.Smtp.{
  header_fold_octets, crlf, kept_ids, in_angles, fold_tokens, render_tokens, build_refs,
}
use submission_triage.Infrastructure.Smtp.Folding.{IsIdByte, IsId, kept_ids-IsId}

-- Each id with what the loop writes before it.
separated : ℕ → List Text → List (Text × Text)
separated line_len [] = []
separated line_len (id ∷ ids) =
    let t = in_angles id in
    let over = ltb header_fold_octets (line_len + 1 + length t) in
    (if over then crlf ++ 32 ∷ [] else 32 ∷ [], id)
    ∷ separated (if over then 1 + length t else line_len + 1 + length t) ids

module _ (id : Text) (s : Text) where
  in_angles-append : in_angles id ++ s ≡ b'<' ∷ (id ++ b'>' ∷ s)
  in_angles-append = ap (λ t. b'<' ∷ t) (append_assoc id (b'>' ∷ []) s)

fold_tokens-written :
    (line_len : ℕ) (ids : List Text)
    → fold_tokens line_len (map in_angles ids) ≡ written (separated line_len ids) []
unfolding fold_tokens separated
fold_tokens-written line_len [] = refl
fold_tokens-written line_len (id ∷ ids) =
    let t = in_angles id in
    elim (Bool-cases (ltb header_fold_octets (line_len + 1 + length t))) [
      | inl e ↦ simp e (
          ap (λ s. crlf ++ (32 ∷ s))
            (ap (λ s. t ++ s) (fold_tokens-written (1 + length t) ids)
              ∙ in_angles-append id (written (separated (1 + length t) ids) [])))
      | inr e ↦ simp e (
          ap (λ s. 32 ∷ s)
            (ap (λ s. t ++ s) (fold_tokens-written (line_len + 1 + length t) ids)
              ∙ in_angles-append id (written (separated (line_len + 1 + length t) ids) [])))
    ]

id_bytes : (id : Text) → All IsIdByte id → Free b'<' id × Free b'>' id
id_bytes [] h = (tt, tt)
id_bytes (c ∷ id) h = let (l, r) = id_bytes id h.1 in ((h.0.1.1.0, l), (h.0.1.1.1, r))

IsId-IsBare : (id : Text) → IsId id → IsBare id
IsId-IsBare id h = (h.not_empty, id_bytes id h.bytes)

ids-IsBare : (ids : List Text) → All IsId ids → All IsBare ids
ids-IsBare [] h = tt
ids-IsBare (id ∷ ids) h = (IsId-IsBare id h.0, ids-IsBare ids h.1)

space-Free : Free b'<' (32 ∷ [])
space-Free = ((λ e. omega (arith, e)), tt)

break-Free : Free b'<' (crlf ++ 32 ∷ [])
break-Free = ((λ e. omega (arith, e)), ((λ e. omega (arith, e)), space-Free))

separated-IsFolded :
    (line_len : ℕ) (ids : List Text) → All IsId ids → All IsFolded (separated line_len ids)
unfolding separated
separated-IsFolded line_len [] h = tt
separated-IsFolded line_len (id ∷ ids) h =
    let t = in_angles id in
    elim (Bool-cases (ltb header_fold_octets (line_len + 1 + length t))) [
      | inl e ↦
          simp e
            ((break-Free, (id_bytes id h.0.bytes).1), separated-IsFolded (1 + length t) ids h.1)
      | inr e ↦ simp e (
        (space-Free, (id_bytes id h.0.bytes).1),
        separated-IsFolded (line_len + 1 + length t) ids h.1,
      )
    ]

bracketed-separated :
    (ids : List Text) (line_len : ℕ)
    → map (λ (y : Text × Text). bracketed y.1) (separated line_len ids) ≡ map bracketed ids
unfolding separated
bracketed-separated [] line_len = refl
bracketed-separated (id ∷ ids) line_len = ap (λ s. bracketed id ∷ s) (bracketed-separated ids _)

split_references-render :
    (ids : List Text)
    → All IsId ids
    → split_references (render_tokens (map in_angles ids)) ≡ map bracketed ids
split_references-render [] h =
    unfold render_tokens split_references bracketed_ids fields fields_from in refl
split_references-render (id ∷ ids) h =
    let r = separated (12 + length (in_angles id)) ids in
    let opened : All IsFolded (([], id) ∷ r) =
      ((tt, (id_bytes id h.0.bytes).1), separated-IsFolded _ ids h.1) in
    let value : render_tokens (map in_angles (id ∷ ids)) ≡ written (([], id) ∷ r) [] =
      (unfold render_tokens in
        ap (λ s. in_angles id ++ s) (fold_tokens-written (12 + length (in_angles id)) ids)
        ∙ in_angles-append id (written r [])) in
    ap split_references value
    ∙ split_references-written ([], id) r [] opened tt
    ∙ ap (λ s. bracketed id ∷ s) (bracketed-separated ids _)

-- A References header that a reply is written with is read back as the ids that were kept, in their
-- order.
pub split_references-build_refs :
    (refs : List Text) → trim_angles (split_references (build_refs refs)) ≡ kept_ids refs
unfolding build_refs
split_references-build_refs refs =
    ap trim_angles (split_references-render (kept_ids refs) (kept_ids-IsId refs))
    ∙ trim_angles-bracketed (kept_ids refs) (ids-IsBare (kept_ids refs) (kept_ids-IsId refs))
