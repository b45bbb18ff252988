-- ===== src/Infrastructure/Smtp/Headers.antt =====
-- internal/infrastructure/email/smtp.go: no text of a reply can add a header to its message.
use mathlib.Core.List.{append-nil}
use submission_triage.Prelude.{
  ℕ, zero, suc, ◌≡◌, sym, ap, inl, inr, ◌||◌, Option, none, some, List, [], ◌∷◌, ◌++◌, Text, codes,
  nat_eq, ◌==◌, if◌then◌else◌, is_empty, take, All, arith, Bool-cases,
}
use submission_triage.Model.Reply.{Reply}
use submission_triage.Infrastructure.Smtp.{
  Smtp, strip_crlf, sanitize_msg_id, is_written, truncate_runes, max_subject_runes, build_refs,
  after_last_at, domain_from, domain_of, reply_message_id, message_id, from_header, header_lines,
}
use submission_triage.Infrastructure.Smtp.Folding.{
  OneLine, folded, HasShortLines, build_refs-HasShortLines, OneLine-append, sanitize_msg_id-bytes,
  All-map2,
}

-- One header: a text without line ends, or folded where a line end is followed by a space.
pub record IsHeader (l : Text) : Type 0 where
  pub first : Text
  pub rest : List Text
  pub split : l ≡ first ++ folded rest
  pub first_line : OneLine first
  pub rest_lines : All OneLine rest

-- What the configuration and the library keep to: no line ends in the address that the mail is sent
-- from, the encoded words, the date and the digest.
pub record IsTame (s : Smtp) : Type 0 where
  pub from_address : OneLine s.from_address
  pub encoded : (t : Text) → OneLine (s.q_encode t)
  pub date : OneLine s.now_text
  pub digest : (t : Text) → OneLine (s.sha256 t)

strip_crlf-OneLine : (t : Text) → OneLine (strip_crlf t)
unfolding strip_crlf
strip_crlf-OneLine [] = tt
strip_crlf-OneLine (c ∷ t) = elim (Bool-cases (c == 13 || c == 10)) [
  | inl e ↦ simp e (strip_crlf-OneLine t)
  | inr e ↦ simp e (ground arith, strip_crlf-OneLine t)
]

OneLine-take : (n : ℕ) (t : Text) → OneLine t → OneLine (take n t)
OneLine-take zero t h = tt
OneLine-take (suc n) [] h = tt
OneLine-take (suc n) (c ∷ t) h = (h.0, OneLine-take n t h.1)

abbrev OneLine? : Option Text → Type 0
OneLine? none = Unit
OneLine? (some t) = OneLine t

plain : (l : Text) → OneLine l → IsHeader l
plain l h = record {
  first = l;
  rest = [];
  split = sym (append-nil l);
  first_line = h;
  rest_lines = tt;
}

sanitized : (t : Text) → OneLine (sanitize_msg_id t)
sanitized t =
    All-map2 (sanitize_msg_id t) (λ c b _. (b.0, b.1.0)) (sanitize_msg_id-bytes t)
      (sanitize_msg_id-bytes t)

after_last_at-OneLine : (t : Text) → OneLine t → OneLine? (after_last_at t)
unfolding after_last_at
after_last_at-OneLine [] h = tt
after_last_at-OneLine (c ∷ t) h = go (after_last_at t) (after_last_at-OneLine t h.1)
  where
    go :
        (o : Option Text)
        → OneLine? o
        → OneLine? (elim o as (λ _. Option Text) [
          | some rest ↦ some rest
          | none ↦ if c == b'@' then some t else none
        ])
    go (some rest) ho = ho
    go none ho = elim (Bool-cases (c == b'@')) [ inl e ↦ simp e h.1 | inr e ↦ simp e tt ]

domain_from-OneLine : (o : Option Text) → OneLine? o → OneLine (domain_from o)
unfolding domain_from
domain_from-OneLine none h = omega arith
domain_from-OneLine (some []) h = omega arith
domain_from-OneLine (some (c ∷ t)) h = h

-- A label before a text, and a text before a label.
labelled : (l t : Text) → OneLine l → OneLine t → IsHeader (l ++ t)
labelled l t hl ht = plain (l ++ t) (OneLine-append l t hl ht)

module _ (s : Smtp) (tame : IsTame s) where
  message_id-OneLine : (r : Reply) → OneLine (message_id s r)
  unfolding message_id reply_message_id domain_of
  message_id-OneLine r =
      OneLine-append (reply_message_id s r) (b'@' ∷ domain_of s.from_address)
        (OneLine-take 32 _ (tame.digest _))
        (
          ((λ e. omega (arith, e)), (λ e. omega (arith, e))),
          domain_from-OneLine (after_last_at s.from_address)
              (after_last_at-OneLine s.from_address tame.from_address),
        )

  from_header-OneLine : OneLine (from_header s)
  unfolding from_header
  from_header-OneLine =
      let addr = strip_crlf-OneLine s.from_address in
      elim (Bool-cases (is_empty s.from_name)) [
        | inl e ↦ simp e addr
        | inr e ↦ simp e (
            OneLine-append _ (codes ">")
              (OneLine-append _ (strip_crlf s.from_address)
                (OneLine-append (s.q_encode s.from_name) (codes " <") (tame.encoded s.from_name)
                  (omega arith))
                addr)
              (omega arith))
      ]

in_reply_to-IsHeader :
    (id : Text)
    → OneLine id
    → All IsHeader
        (if is_written id then (codes "In-Reply-To: <" ++ (id ++ codes ">")) ∷ [] else [])
in_reply_to-IsHeader id h = elim (Bool-cases (is_written id)) [
  | inl e ↦ simp e (
    labelled (codes "In-Reply-To: <") (id ++ codes ">") (omega arith)
        (OneLine-append id (codes ">") h (omega arith)),
    tt,
  )
  | inr e ↦ simp e tt
]

references-IsHeader :
    (value : Text)
    → HasShortLines value
    → All IsHeader (if is_empty value then [] else (codes "References: " ++ value) ∷ [])
references-IsHeader value h = elim (Bool-cases (is_empty value)) [
  | inl e ↦ simp e tt
  | inr e ↦ simp e (
    record {
      first = codes "References: " ++ h.first;
      rest = h.rest;
      split = ap (λ t. codes "References: " ++ t) h.split;
      first_line = OneLine-append (codes "References: ") h.first (omega arith) h.first_line;
      rest_lines = h.rest_lines;
    },
    tt,
  )
]

All-append : (xs ys : List Text) → All IsHeader xs → All IsHeader ys → All IsHeader (xs ++ ys)
All-append [] ys h h' = h'
All-append (x ∷ xs) ys h h' = (h.0, All-append xs ys h.1 h')

-- Every header line of a reply's message is one header, whatever the reply says.
pub header_lines-IsHeader :
    (s : Smtp) (r : Reply) → IsTame s → All IsHeader (header_lines s r (message_id s r))
unfolding header_lines
header_lines-IsHeader s r tame =
    let id = sanitize_msg_id r.in_reply_to in
    let refs = build_refs r.references in
    (
      labelled (codes "From: ") (from_header s) (omega arith) (from_header-OneLine s tame),
      (
        labelled (codes "To: ") (strip_crlf r.to_address) (omega arith)
            (strip_crlf-OneLine r.to_address),
        (
          labelled (codes "Subject: ") _ (omega arith)
              (tame.encoded (truncate_runes r.subject max_subject_runes)),
          (
            labelled (codes "Date: ") s.now_text (omega arith) tame.date,
            (
              labelled (codes "Message-ID: <") (message_id s r ++ codes ">") (omega arith) (
                  OneLine-append (message_id s r) (codes ">") (message_id-OneLine s tame r)
                    (omega arith)),
              All-append _ _ (in_reply_to-IsHeader id (sanitized r.in_reply_to)) (
                  All-append _ _
                    (references-IsHeader refs (build_refs-HasShortLines r.references).1)
                    (
                      plain (codes "Auto-Submitted: auto-generated") (omega arith),
                      (
                        plain (codes "MIME-Version: 1.0") (omega arith),
                        (plain (codes "Content-Type: text/plain; charset=utf-8") (omega arith), tt),
                      ),
                    )),
            ),
          ),
        ),
      ),
    )
