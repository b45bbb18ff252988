-- ===== src/Model/Digest/Sections.antt =====
-- internal/model/digest.go: the sections divide the submissions among them.
use mathlib.Core.List.{Permᴰ}
use mathlib.Core.List.Permᴰ
use submission_triage.Prelude.{
  ◌≡◌, refl, ap, ◌∙◌, suc, sort_by, ℕ, Bool, true, false, not, is_empty, length, All, All-sort_by,
  codes, newline, List, [], ◌∷◌, ◌++◌, Text, text_eq, contains, if◌then◌else◌, arith, count_if,
  sort_by-Permᴰ, Bool-cases, inl, inr,
}
use submission_triage.Model.Submission.{Time, Submission}
use submission_triage.Model.Digest.{
  Section, section_beq, digest_sections, digest_group, bind_less, group_of, by_urgency, NamesById,
  names_of, heading, shows_filename_only, write_digest_row, write_rows, write_sections, review_note,
  omitted_note, build_digest,
}

-- The submissions in the order in which the sections write them.
digest_rows : List Text → List Submission → List Section → List Submission
digest_rows blocked subs [] = []
digest_rows blocked subs (sec ∷ secs) =
    by_urgency (group_of blocked sec subs) ++ digest_rows blocked subs secs

groups : List Text → List Section → List Submission → List Submission
groups blocked [] subs = []
groups blocked (sec ∷ secs) subs = group_of blocked sec subs ++ groups blocked secs subs

abbrev pub section_of : List Text → Submission → Section
section_of blocked s = digest_group s (contains blocked s.id)

group_of-cons :
    (blocked : List Text) (sec : Section) (x : Submission) (xs : List Submission) {b : Bool}
    → section_beq (section_of blocked x) sec ≡ b
    → group_of blocked sec (x ∷ xs)
      ≡ (if b then x ∷ group_of blocked sec xs else group_of blocked sec xs)
unfolding group_of
group_of-cons blocked sec x xs e = rw e refl

groups_absent :
    (blocked : List Text) (secs : List Section) (x : Submission) (xs : List Submission)
    → count_if (section_beq (section_of blocked x)) secs ≡ 0
    → groups blocked secs (x ∷ xs) ≡ groups blocked secs xs
unfolding groups
groups_absent blocked [] x xs h = refl
groups_absent blocked (sec ∷ secs) x xs h =
    elim (Bool-cases (section_beq (section_of blocked x) sec)) [
      | inl e ↦ ground (arith, e)
      | inr e ↦ rw (group_of-cons blocked sec x xs e) (
          ap (λ l. group_of blocked sec xs ++ l)
            (groups_absent blocked secs x xs (ground (arith, e))))
    ]

groups_present :
    (blocked : List Text) (secs : List Section) (x : Submission) (xs : List Submission)
    → count_if (section_beq (section_of blocked x)) secs ≡ 1
    → Permᴰ (groups blocked secs (x ∷ xs)) (x ∷ groups blocked secs xs)
unfolding groups
groups_present blocked [] x xs h = absurd (omega arith)
groups_present blocked (sec ∷ secs) x xs h =
    elim (Bool-cases (section_beq (section_of blocked x) sec)) [
      | inl e ↦
          rw (group_of-cons blocked sec x xs e, groups_absent blocked secs x xs (ground (arith, e)))
            (Permᴰ.refl (x ∷ group_of blocked sec xs ++ groups blocked secs xs))
      | inr e ↦ rw (group_of-cons blocked sec x xs e) (
          Permᴰ.trans
            (Permᴰ.append_left (group_of blocked sec xs)
              (groups_present blocked secs x xs (ground (arith, e))))
            (Permᴰ.middle x (group_of blocked sec xs) (groups blocked secs xs)))
    ]

one_section : (sec : Section) → count_if (section_beq sec) digest_sections ≡ 1
one_section Section.escalated = refl
one_section _ = refl

groups-empty : (blocked : List Text) (secs : List Section) → groups blocked secs [] ≡ []
unfolding groups group_of
groups-empty blocked [] = refl
groups-empty blocked (sec ∷ secs) = groups-empty blocked secs

groups-Permᴰ :
    (blocked : List Text) (subs : List Submission)
    → Permᴰ (groups blocked digest_sections subs) subs
groups-Permᴰ blocked [] = rw (groups-empty blocked digest_sections) Permᴰ.nil
groups-Permᴰ blocked (x ∷ xs) =
    Permᴰ.trans (groups_present blocked digest_sections x xs (one_section (section_of blocked x)))
      (Permᴰ.cons refl (groups-Permᴰ blocked xs))

digest_rows-groups :
    (blocked : List Text) (subs : List Submission) (secs : List Section)
    → Permᴰ (digest_rows blocked subs secs) (groups blocked secs subs)
unfolding digest_rows groups by_urgency
digest_rows-groups blocked subs [] = Permᴰ.nil
digest_rows-groups blocked subs (sec ∷ secs) =
    Permᴰ.trans
      (Permᴰ.append_right (digest_rows blocked subs secs)
        (sort_by-Permᴰ (λ a b. not (bind_less b a)) (group_of blocked sec subs)))
      (Permᴰ.append_left (group_of blocked sec subs) (digest_rows-groups blocked subs secs))

digest_rows-Permᴰ :
    (blocked : List Text) (subs : List Submission)
    → Permᴰ (digest_rows blocked subs digest_sections) subs
digest_rows-Permᴰ blocked subs =
    Permᴰ.trans (digest_rows-groups blocked subs digest_sections) (groups-Permᴰ blocked subs)

-- A text that is the rows of these submissions, with the names that go unverified where shown.
pub data Rows (shown : Bool) (names : NamesById) (now : Time)
    : Text → List Submission → Type 0 where
  done : Rows shown names now [] []
  row :
      {t : Text} {ss : List Submission} (s : Submission)
      → Rows shown names now t ss
      → Rows shown names now
          (write_digest_row s (if shown then names_of s.id names else []) now ++ t)
          (s ∷ ss)

write_rows-Rows :
    (shown : Bool) (names : NamesById) (now : Time) (ss : List Submission)
    → Rows shown names now (write_rows shown names now ss) ss
unfolding write_rows
write_rows-Rows shown names now [] = done
write_rows-Rows shown names now (s ∷ ss) = row s (write_rows-Rows shown names now ss)

-- A text that lists these submissions under the headings of the sections. A section has a heading
-- only if it has rows, and the heading has their number.
pub data Listed (blocked : List Text) (names : NamesById) (now : Time)
    : List Section → Text → List Submission → Type 0 where
  stop : Listed blocked names now [] [] []
  skip :
      {secs : List Section} {t : Text} {rows : List Submission} (sec : Section)
      → Listed blocked names now secs t rows
      → Listed blocked names now (sec ∷ secs) t rows
  section :
      {secs : List Section} {t text : Text} {group rows : List Submission} (sec : Section)
      → All (λ s. section_of blocked s ≡ sec) group
      → is_empty group ≡ false
      → Rows (shows_filename_only sec) names now text group
      → Listed blocked names now secs t rows
      → Listed blocked names now
          (sec ∷ secs)
          ((heading sec (length group) ++ text) ++ t)
          (group ++ rows)

section_beq-eq : (a b : Section) → section_beq a b ≡ true → a ≡ b
section_beq-eq _ _ h = ground arith

group_of-section :
    (blocked : List Text) (sec : Section) (subs : List Submission)
    → All (λ s. section_of blocked s ≡ sec) (group_of blocked sec subs)
unfolding group_of
group_of-section blocked sec [] = tt
group_of-section blocked sec (s ∷ subs) =
    let rest = group_of-section blocked sec subs in
    elim (Bool-cases (section_beq (section_of blocked s) sec)) [
      | inl e ↦
          rw (group_of-cons blocked sec s subs e)
            (section_beq-eq (section_of blocked s) sec e, rest)
      | inr e ↦ rw (group_of-cons blocked sec s subs e) rest
    ]

Permᴰ-length : {xs ys : List Submission} → Permᴰ xs ys → length xs ≡ length ys
Permᴰ-length Permᴰ.nil = refl
Permᴰ-length (Permᴰ.cons e p) = ap suc (Permᴰ-length p)
Permᴰ-length (Permᴰ.swap e e') = refl
Permᴰ-length (Permᴰ.trans p q) = Permᴰ-length p ∙ Permᴰ-length q

is_empty-same : (xs ys : List Submission) → length xs ≡ length ys → is_empty xs ≡ is_empty ys
is_empty-same [] [] e = refl
is_empty-same [] (y ∷ ys) e = ground arith
is_empty-same (x ∷ xs) [] e = ground arith
is_empty-same (x ∷ xs) (y ∷ ys) e = refl

module _ (blocked : List Text) (names : NamesById) (now : Time) where
  group-Listed :
      (sec : Section) {secs : List Section} {t : Text} {rows : List Submission}
      (group : List Submission)
      → All (λ s. section_of blocked s ≡ sec) group
      → Listed blocked names now secs t rows
      → Listed blocked names now
          (sec ∷ secs)
          ((if is_empty group
              then []
              else heading sec (length group)
                ++ write_rows (shows_filename_only sec) names now (by_urgency group))
            ++ t)
          (by_urgency group ++ rows)
  unfolding by_urgency
  group-Listed sec [] all listed = skip sec listed
  group-Listed sec {t = t} {rows = rows} (s ∷ ss) all listed =
      let le = λ (a b : Submission). not (bind_less b a) in
      let sorted = sort_by le (s ∷ ss) in
      let same = Permᴰ-length (sort_by-Permᴰ le (s ∷ ss)) in
      rw (← same) (
        section sec (All-sort_by (λ s. section_of blocked s ≡ sec) le (s ∷ ss) all)
          (is_empty-same sorted (s ∷ ss) same)
          (write_rows-Rows (shows_filename_only sec) names now sorted) listed)

  write_sections-Listed :
      (subs : List Submission) (secs : List Section)
      → Listed blocked names now secs
          (write_sections blocked names now subs secs)
          (digest_rows blocked subs secs)
  unfolding write_sections digest_rows
  write_sections-Listed subs [] = stop
  write_sections-Listed subs (sec ∷ secs) =
      group-Listed sec (group_of blocked sec subs) (group_of-section blocked sec subs)
        (write_sections-Listed subs secs)

-- The digest of some submissions is the note on reviews, a title, the sections and the note on what
-- was omitted. The sections, in their order, list each submission exactly once, as its row under the
-- heading of the section that its group is, and each heading gives the number of its rows.
pub build_digest-Listed :
    (subs : List Submission) (names : NamesById) (blocked : List Text) (omitted : ℕ) (now : Time)
    → is_empty subs ≡ false
    → (body : Text) × (rows : List Submission) × (build_digest subs names blocked omitted now
        ≡ review_note (count_if (λ s. s.needs_review) subs)
          ++ codes "Open submissions:"
          ++ newline
          ++ body
          ++ omitted_note omitted)
      × Listed blocked names now digest_sections body rows
      × Permᴰ rows subs
unfolding build_digest
build_digest-Listed subs names blocked omitted now some_open = (
  write_sections blocked names now subs digest_sections,
  digest_rows blocked subs digest_sections,
  rw some_open refl,
  write_sections-Listed blocked names now subs digest_sections,
  digest_rows-Permᴰ blocked subs,
)
