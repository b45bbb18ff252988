-- ===== src/Model/Digest.antt =====
-- internal/model/digest.go: the daily digest, by section.
-- The map `filenameOnly` is an association list and the set `replyBlocked` a list of ids. Times
-- are not negative, so UTC midnight is the last multiple of a day.
pub mod Sections
use submission_triage.Prelude.{
  ℕ, ◌-◌, ◌*◌, ◌/◌, ◌%◌, Bool, true, false, Option, none, some, List, [], ◌∷◌, ◌++◌, Text, codes,
  text_eq, nat_eq, ◌==◌, contains, not, if◌then◌else◌, is_empty, trim_space, keep_if, count_if,
  newline, ltb, leb, length, sort_by, show_nat,
}
use submission_triage.Model.Submission.{Time, State, state_eq, MissingItem, Submission}

pub data Section : Type 0 where
  reply_blocked delivery_failed escalated awaiting held complete unknown : Section

abbrev pub section_beq : Section → Section → Bool
section_beq reply_blocked reply_blocked = true
section_beq delivery_failed delivery_failed = true
section_beq Section.escalated Section.escalated = true
section_beq awaiting awaiting = true
section_beq held held = true
section_beq Section.complete Section.complete = true
section_beq unknown unknown = true
section_beq _ _ = false

em_dash : Text
em_dash = 0xe2 ∷ 0x80 ∷ 0x94 ∷ []

-- The titles of `digestSections`, and its order.
section_title : Section → Text
unfolding em_dash
section_title reply_blocked =
    codes "Reply withheld " ++ em_dash ++ codes " REPLIES_ENABLED=false, nothing was sent"
section_title delivery_failed =
    codes "Delivery failed " ++ em_dash ++ codes " address unreachable, needs a human"
section_title Section.escalated = codes "Escalated " ++ em_dash ++ codes " broker went quiet"
section_title awaiting = codes "Awaiting the broker"
section_title held = codes "On hold " ++ em_dash ++ codes " paused by a human"
section_title Section.complete = codes "Complete"
section_title unknown = codes "Unknown policy type"

abbrev pub digest_sections : List Section
digest_sections =
    reply_blocked ∷ delivery_failed ∷ Section.escalated ∷ awaiting ∷ held ∷ Section.complete
    ∷ unknown ∷ []

pub digest_group : Submission → Bool → Section
digest_group s blocked =
    if blocked
    then reply_blocked
    else if s.delivery_failed
    then delivery_failed
    else if s.on_hold
    then held
    else if s.state == State.escalated
    then Section.escalated
    else if s.policy_type == codes "unknown"
    then unknown
    else if s.state == State.complete
    then Section.complete
    else awaiting

-- Unknown dates last.
pub bind_less : Submission → Submission → Bool
bind_less a b = elim a.effective_date [
  | none ↦ false
  | some x ↦ elim b.effective_date [ none ↦ true | some y ↦ ltb x y ]
]

abbrev second : ℕ
second = 1_000_000_000

abbrev minute : ℕ
minute = 60 * second

abbrev pub hour : ℕ
hour = 60 * minute

abbrev pub day : ℕ
day = 24 * hour

-- A negative duration is under a minute, as 0 is.
human_duration : ℕ → Text
human_duration d =
    if ltb d minute
    then codes "just now"
    else if ltb d hour
    then show_nat (d / minute) ++ codes "m"
    else if ltb d day
    then show_nat (d / hour) ++ codes "h"
    else show_nat (d / day) ++ codes "d"

utc_midnight : Time → Time
utc_midnight t = t - t % day

unfoldable pub bind_label : Time → Time → Text
unfolding utc_midnight
bind_label effective now =
    let e = utc_midnight effective in
    let n = utc_midnight now in
    if ltb e n
    then codes "bound " ++ show_nat ((n - e) / day) ++ codes "d ago"
    else if (e - n) / day == 0
    then codes "binds today"
    else codes "binds in " ++ show_nat ((e - n) / day) ++ codes "d"

digest_subject : Submission → Text
digest_subject s =
    let ni = trim_space s.named_insured in
    if not (is_empty ni)
    then ni
    else if is_empty (trim_space s.subject_line)
    then codes "(no subject)"
    else s.subject_line

digest_from : Submission → Text
digest_from s = if is_empty s.from_address then codes "(unknown sender)" else s.from_address

write_missing : List MissingItem → Text
write_missing [] = []
write_missing (m ∷ ms) =
    codes "      "
    ++ m.description
    ++ (if is_empty m.reason then [] else codes ": " ++ m.reason)
    ++ newline
    ++ write_missing ms

write_unverified : List Text → Text
write_unverified [] = []
write_unverified (name ∷ names) =
    codes "      Matched on filename only, content not verified: "
    ++ name
    ++ newline
    ++ write_unverified names

unfoldable pub write_digest_row : Submission → List Text → Time → Text
unfolding digest_subject digest_from human_duration write_missing write_unverified bind_label
write_digest_row s filename_only now =
    codes "  - "
    ++ digest_subject s
    ++ codes " | from "
    ++ digest_from s
    ++ codes " | age "
    ++ human_duration (now - s.created_at)
    ++ codes " | idle "
    ++ human_duration (now - s.last_action_at)
    ++ elim s.effective_date [ none ↦ [] | some e ↦ codes " | " ++ bind_label e now ]
    ++ (if s.needs_review then codes " [needs review]" else [])
    ++ newline
    ++ write_missing s.missing_items
    ++ write_unverified filename_only

abbrev pub NamesById : Type 0
NamesById = List (Text × List Text)

unfoldable pub names_of : Text → NamesById → List Text
names_of id [] = []
names_of id ((k, names) ∷ m) = let rest = names_of id m in if k == id then names else rest

-- The value of `byKey` at a section: its submissions, in the order given.
unfoldable pub group_of : List Text → Section → List Submission → List Submission
unfolding digest_group
group_of blocked sec subs =
    keep_if (λ s. section_beq (digest_group s (contains blocked s.id)) sec) subs

-- sort.SliceStable by `bindLess`.
unfoldable pub by_urgency : List Submission → List Submission
unfolding sort_by bind_less
by_urgency = sort_by (λ a b. not (bind_less b a))

unfoldable pub shows_filename_only : Section → Bool
shows_filename_only awaiting = true
shows_filename_only Section.complete = true
shows_filename_only _ = false

unfoldable pub write_rows : Bool → NamesById → Time → List Submission → Text
unfolding names_of write_digest_row
write_rows shown names now [] = []
write_rows shown names now (s ∷ ss) =
    write_digest_row s (if shown then names_of s.id names else []) now
    ++ write_rows shown names now ss

-- The line above a section's rows.
unfoldable pub heading : Section → ℕ → Text
unfolding section_title
heading sec n = newline ++ section_title sec ++ codes " (" ++ show_nat n ++ codes "):" ++ newline

unfoldable pub write_sections : List Text → NamesById → Time → List Submission → List Section → Text
unfolding heading group_of by_urgency shows_filename_only write_rows
write_sections blocked names now subs [] = []
write_sections blocked names now subs (sec ∷ secs) =
    let group = group_of blocked sec subs in
    (if is_empty group
      then []
      else heading sec (length group)
        ++ write_rows (shows_filename_only sec) names now (by_urgency group))
    ++ write_sections blocked names now subs secs

-- The lines above and below the sections.
unfoldable pub review_note : ℕ → Text
review_note review =
    if leb review 0
    then []
    else show_nat review ++ codes " submission(s) need review (marked below)." ++ newline ++ newline

unfoldable pub omitted_note : ℕ → Text
omitted_note omitted =
    if leb omitted 0
    then []
    else newline
      ++ codes "(+"
      ++ show_nat omitted
      ++ codes " more open submissions omitted; raise DIGEST_MAX_ROWS to include them)"
      ++ newline

unfoldable pub build_digest : List Submission → NamesById → List Text → ℕ → Time → Text
unfolding write_sections review_note omitted_note
build_digest subs filename_only blocked omitted now =
    if is_empty subs
    then []
    else review_note (count_if (λ s. s.needs_review) subs)
      ++ codes "Open submissions:"
      ++ newline
      ++ write_sections blocked filename_only now subs digest_sections
      ++ omitted_note omitted
