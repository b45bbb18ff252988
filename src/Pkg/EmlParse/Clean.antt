-- ===== src/Pkg/EmlParse/Clean.antt =====
-- pkg/emlparse/emlparse.go: what is removed from a message, and how much of it is kept.
use mathlib.Core.Path.{subst}
use mathlib.Core.Option
use submission_triage.Prelude.{
  drop, ℕ, zero, suc, ◌≤◌, ◌≡◌, refl, ◌≢◌, ap, ◌⊎◌, inl, inr, ◌||◌, not, Option, none, some, List,
  [], ◌∷◌, ◌++◌, Text, codes, text_eq, nat_eq, if◌then◌else◌, is_empty, leb, length, All, arith,
  Bool-cases, has_prefix, trim_space,
}
use submission_triage.Pkg.EmlParse.Mime.{
  Part, Mime, Header, FilePart, Payload, is_printable, strip_control, decode_header,
}
use submission_triage.Pkg.EmlParse.Parts.{
  max_multipart_depth, max_attachments, Walked, decode_body, add_attachment, attached_file,
  take_part, take_body, one_part, each_part, walk_parts,
}
use submission_triage.Pkg.EmlParse.Message.{
  auto_response_headers, parse_body, auto_headers, payload_of, from_reader, nothing_walked,
  single_body, text_or_html, from_body, from_message, single_text,
}

-- A byte that is a tab or no control character.
abbrev pub IsPrintable : ℕ → Type 0
IsPrintable c = (c ≡ 9) ⊎ ((0x20 ≤ c) × (c ≢ 0x7f))

-- At most a hundred attachments, none with a control character in its name.
pub record Tidy (atts : List FilePart) : Type 0 where
  pub few : length atts ≤ max_attachments
  pub named : All (λ (a : FilePart). All IsPrintable a.name) atts

strip_control-printable : (s : Text) → All IsPrintable (strip_control s)
unfolding strip_control is_printable
strip_control-printable [] = tt
strip_control-printable (c ∷ s) = elim (Bool-cases (is_printable c)) [
  | inl e ↦ simp e (ground arith, strip_control-printable s)
  | inr e ↦ simp e (strip_control-printable s)
]

decode_header-printable : (mime : Mime) (s : Text) → All IsPrintable (decode_header mime s)
unfolding decode_header
decode_header-printable mime s =
    strip_control-printable (elim (mime.decode_words s) [ none ↦ s | some got ↦ got ])

snoc_named :
    (atts : List FilePart) (a : FilePart)
    → All (λ (x : FilePart). All IsPrintable x.name) atts
    → All IsPrintable a.name
    → All (λ (x : FilePart). All IsPrintable x.name) (atts ++ a ∷ [])
snoc_named [] a h ha = (ha, tt)
snoc_named (x ∷ atts) a h ha = (h.0, snoc_named atts a h.1 ha)

length-snoc : (atts : List FilePart) (a : FilePart) → length (atts ++ a ∷ []) ≡ suc (length atts)
length-snoc [] a = refl
length-snoc (x ∷ atts) a = ap (λ n. suc n) (length-snoc atts a)

add_attachment-Tidy :
    (a : FilePart) (w : Walked)
    → All IsPrintable a.name
    → Tidy w.atts
    → Tidy (add_attachment a w).atts
unfolding add_attachment
add_attachment-Tidy a w ha h = elim (Bool-cases (leb max_attachments (length w.atts))) [
  | inl e ↦ simp e h
  | inr e ↦ simp e (record {
    few = ground (arith, length-snoc w.atts a);
    named = snoc_named w.atts a h.named ha;
  })
]

module _ (mime : Mime) where
  attached_file-printable :
      (part : Part) (params : Text → Text) (part_type body : Text)
      → All IsPrintable (attached_file mime part params part_type body).name
  unfolding attached_file
  attached_file-printable part params part_type body = decode_header-printable mime _

  take_part-Tidy :
      (part : Part) (params : Text → Text) (part_type body : Text) (w : Walked)
      → Tidy w.atts
      → Tidy (take_part mime part params part_type body w).atts
  unfolding take_part
  take_part-Tidy part params part_type body w h =
      let a = attached_file mime part params part_type body in
      let added = add_attachment-Tidy a w (attached_file-printable part params part_type body) h in
      ground arith

  take_body-Tidy :
      (part : Part) (params : Text → Text) (part_type : Text) (body : Option Text) (w : Walked)
      → Tidy w.atts
      → Tidy (take_body mime part params part_type body w).atts
  unfolding take_body
  take_body-Tidy part params part_type none w h = h
  take_body-Tidy part params part_type (some body) w h =
      take_part-Tidy part params part_type body w h

  one_part-Tidy :
      (nested : Text → Text → Walked → Walked) (part : Part) (w : Walked)
      → ((raw boundary : Text) (v : Walked) → Tidy v.atts → Tidy (nested raw boundary v).atts)
      → Tidy w.atts
      → Tidy (one_part mime nested part w).atts
  unfolding one_part
  one_part-Tidy nested part w hn h =
      let media = mime.parse_media_type (part.header (codes "Content-Type")) in
      let part_type = if is_empty media.name then codes "text/plain" else media.name in
      elim (Bool-cases (has_prefix part_type (codes "multipart/"))) [
        | inl e ↦ simp e (hn part.body (media.params (codes "boundary")) w h)
        | inr e ↦ simp e (take_body-Tidy part media.params part_type (decode_body mime part) w h)
      ]

  each_part-Tidy :
      (nested : Text → Text → Walked → Walked) (parts : List Part) (w : Walked)
      → ((raw boundary : Text) (v : Walked) → Tidy v.atts → Tidy (nested raw boundary v).atts)
      → Tidy w.atts
      → Tidy (each_part mime nested parts w).atts
  unfolding each_part
  each_part-Tidy nested [] w hn h = h
  each_part-Tidy nested (part ∷ parts) w hn h =
      each_part-Tidy nested parts (one_part mime nested part w) hn
        (one_part-Tidy nested part w hn h)

  walk_parts-Tidy :
      (levels : ℕ) (raw boundary : Text) (w : Walked)
      → Tidy w.atts
      → Tidy (walk_parts levels mime raw boundary w).atts
  unfolding walk_parts
  walk_parts-Tidy zero raw boundary w h = h
  walk_parts-Tidy (suc levels) raw boundary w h =
      each_part-Tidy (walk_parts levels mime) (mime.next_parts raw boundary) w
        (walk_parts-Tidy levels) h

-- Holds of the value, if there is one.
abbrev pub OnSome {ℓ} : {A : Type ℓ} → (A → Type 0) → Option A → Type 0
OnSome P none = Unit
OnSome P (some a) = P a

no_files : Tidy []
no_files = record { few = omega arith; named = tt }

text_or_html-atts : (mime : Mime) (w : Walked) → (text_or_html mime w).atts ≡ w.atts
unfolding text_or_html
text_or_html-atts mime w = ground arith

single_body-Tidy :
    (mime : Mime) (part : Part) → OnSome (λ (w : Walked). Tidy w.atts) (single_body mime part)
unfolding single_body single_text
single_body-Tidy mime part = go (decode_body mime part)
  where
    go :
        (body : Option Text)
        → OnSome
            (λ (w : Walked). Tidy w.atts)
            (Option.map
              (single_text mime (mime.parse_media_type (part.header (codes "Content-Type"))))
              body)
    go none = tt
    go (some body) = no_files

parse_body-Tidy :
    (mime : Mime) (part : Part) → OnSome (λ (w : Walked). Tidy w.atts) (parse_body mime part)
unfolding parse_body
parse_body-Tidy mime part =
    let media = mime.parse_media_type (part.header (codes "Content-Type")) in
    let boundary = media.params (codes "boundary") in
    let walked = walk_parts (suc max_multipart_depth) mime part.body boundary nothing_walked in
    let tidy =
      walk_parts-Tidy mime (suc max_multipart_depth) part.body boundary nothing_walked no_files in
    elim (Bool-cases
      (not media.valid || not (has_prefix media.name (codes "multipart/")) || is_empty boundary)) [
        | inl e ↦ simp e (single_body-Tidy mime part)
        | inr e ↦ simp e (rw (text_or_html-atts mime walked) tidy)
      ]

auto_headers-printable :
    (get : Text → Text) (names : List Text)
    → All (λ (h : Header). All IsPrintable h.value) (auto_headers get names)
unfolding auto_headers
auto_headers-printable get [] = tt
auto_headers-printable get (name ∷ names) = elim (Bool-cases (is_empty (trim_space (get name)))) [
  | inl e ↦ simp e (auto_headers-printable get names)
  | inr e ↦
      simp e (strip_control-printable (trim_space (get name)), auto_headers-printable get names)
]

-- The texts that were cleaned, all but the two headers of the thread, and the attachments.
pub record IsClean (p : Payload) : Type 0 where
  pub subject : All IsPrintable p.subject
  pub auto_values : All (λ (h : Header). All IsPrintable h.value) (drop 2 p.headers)
  pub attachments : Tidy p.attachments

payload_of-IsClean :
    (mime : Mime) (get : Text → Text) (body : Walked)
    → Tidy body.atts
    → IsClean (payload_of mime get body)
unfolding payload_of
payload_of-IsClean mime get body h = record {
  subject = decode_header-printable mime (get (codes "Subject"));
  auto_values = auto_headers-printable get auto_response_headers;
  attachments = h;
}

from_body-IsClean :
    (mime : Mime) (get : Text → Text) (body : Option Walked)
    → OnSome (λ (w : Walked). Tidy w.atts) body
    → OnSome IsClean (from_body mime get body)
unfolding from_body
from_body-IsClean mime get none h = tt
from_body-IsClean mime get (some w) h = payload_of-IsClean mime get w h

from_message-IsClean :
    (mime : Mime) (m : Option ((Text → Text) × Part)) → OnSome IsClean (from_message mime m)
unfolding from_message
from_message-IsClean mime none = tt
from_message-IsClean mime (some (get, part)) =
    from_body-IsClean mime get (parse_body mime part) (parse_body-Tidy mime part)

-- The subject, the automatic-reply headers and the attachments' names of a parsed message hold no
-- control character but tabs, and it has at most a hundred attachments.
pub from_reader-IsClean :
    (mime : Mime) (raw : Text) (p : Payload) → from_reader mime raw ≡ some p → IsClean p
unfolding from_reader
from_reader-IsClean mime raw p e =
    subst (OnSome IsClean) e (from_message-IsClean mime (mime.read_message raw))
