-- ===== src/Repository/Submissions/Queries.antt =====
-- internal/repository/submissions.go: the queries and the single-column updates.
use submission_triage.Prelude.{
  ℕ, Bool, true, false, ◌&&◌, ◌||◌, not, Option, none, some, List, [], ◌∷◌, Text, text_eq, nat_eq,
  ◌==◌, contains, map, if◌then◌else◌, is_empty, keep_if, leb, ltb, sort_by, take, trim_space,
  to_lower, text_le, length, is_some,
}
use submission_triage.Model.Submission.{
  Time, opened, awaiting, complete, escalated, closed, state_eq, state_text, Email, Submission,
}
use submission_triage.Repository.Submissions.Rows.{Tables, get_by_id}

-- nonEmpty, which trims too.
unfoldable pub non_empty : List Text → List Text
non_empty ids = keep_if (λ v. not (is_empty v)) (map trim_space ids)

-- SELECT DISTINCT submission_id, in the order of first occurrence.
distinct_owners : List Email → List Text → List Text
distinct_owners [] seen = []
distinct_owners (e ∷ es) seen =
    if contains seen e.submission_id
    then distinct_owners es seen
    else e.submission_id ∷ distinct_owners es (e.submission_id ∷ seen)

unfoldable pub find_submission_ids_by_refs : List Text → Tables → List Text
unfolding distinct_owners
find_submission_ids_by_refs refs t =
    distinct_owners
      (keep_if (λ e. contains refs e.message_id || contains refs e.in_reply_to) t.emails) []

-- The later update first, and the larger id on a tie.
abbrev newer_first : Submission → Submission → Bool
newer_first a b = ltb b.updated_at a.updated_at || a.updated_at == b.updated_at && text_le b.id a.id

first_of_rows : List Submission → Option Text
first_of_rows [] = none
first_of_rows (r ∷ _) = some r.id

unfoldable pub pick_most_recently_updated : List Text → Tables → Option Text
unfolding sort_by first_of_rows
pick_most_recently_updated ids t =
    first_of_rows (sort_by newer_first (keep_if (λ r. contains ids r.id) t.submissions))

-- `none` is ErrSubmissionNotFound; the Boolean says that several submissions matched.
unfoldable pub find_by_email_reference : List Text → Tables → Option (Submission × Bool)
unfolding non_empty find_submission_ids_by_refs pick_most_recently_updated get_by_id
find_by_email_reference message_ids t =
    let refs = non_empty message_ids in
    if is_empty refs then none else elim (find_submission_ids_by_refs refs t) [
      | [] ↦ none
      | id ∷ [] ↦ elim (get_by_id id t) [ none ↦ none | some s ↦ some (s, false) ]
      | id ∷ id' ∷ ids ↦ elim (pick_most_recently_updated (id ∷ id' ∷ ids) t) [
        | none ↦ none
        | some best ↦ elim (get_by_id best t) [ none ↦ none | some s ↦ some (s, true) ]
      ]
    ]

owner_of : Text → List Email → Option Text
owner_of id [] = none
owner_of id (e ∷ es) =
    let rest = owner_of id es in if e.deterministic_id == id then some e.submission_id else rest

unfoldable pub find_by_deterministic_id : Text → Tables → Option Submission
unfolding owner_of get_by_id
find_by_deterministic_id id t =
    if is_empty id
    then none
    else elim (owner_of id t.emails) [ none ↦ none | some sid ↦ get_by_id sid t ]

-- SELECT … WHERE … ORDER BY … LIMIT, with the default for a limit that is not positive.
select : ℕ → (Submission → Time) → (Submission → Bool) → Tables → List Submission
unfolding sort_by
select limit key p t =
    take (if limit == 0 then 100 else limit)
      (sort_by (λ a b. leb (key a) (key b)) (keep_if p t.submissions))

abbrev stamp_or_zero : Option Time → Time
stamp_or_zero none = 0
stamp_or_zero (some x) = x

abbrev is_before : Option Time → Time → Bool
is_before none cutoff = false
is_before (some x) cutoff = ltb x cutoff

abbrev is_within : Option Time → Time → Time → Bool
is_within none low high = false
is_within (some x) low high = leb low x && leb x high

unfoldable pub list_completed_before : Time → ℕ → Tables → List Submission
unfolding select
list_completed_before older_than limit =
    select limit (λ s. stamp_or_zero s.completed_at)
      (λ s. s.state == complete && (is_before s.completed_at older_than && not s.on_hold))

unfoldable pub list_escalated_since : Time → ℕ → Tables → List Submission
unfolding select
list_escalated_since since limit =
    select limit (λ s. stamp_or_zero s.escalated_at)
      (λ s.
        s.state == escalated
        && (is_some s.escalated_at && leb since (stamp_or_zero s.escalated_at) && not s.on_hold))

unfoldable pub list_stale : Time → ℕ → Tables → List Submission
unfolding select
list_stale older_than limit =
    select limit (λ s. s.last_action_at)
      (λ s.
        s.state == awaiting
        && (ltb s.last_action_at older_than && (not s.on_hold && not s.delivery_failed)))

unfoldable pub list_bind_soon : Time → Time → ℕ → Tables → List Submission
unfolding select
list_bind_soon after before limit =
    select limit (λ s. stamp_or_zero s.effective_date)
      (λ s.
        s.state == awaiting
        && (is_within s.effective_date after before && (not s.on_hold && not s.delivery_failed)))

unfoldable pub list_stalled_before : Time → ℕ → Tables → List Submission
unfolding select
list_stalled_before older_than limit =
    select limit (λ s. s.last_action_at)
      (λ s.
        (s.state == awaiting || s.state == opened)
        && (ltb s.last_action_at older_than && not s.on_hold))

-- UPDATE submissions SET … WHERE …
abbrev update_rows : (Submission → Bool) → (Submission → Submission) → Tables → Tables
update_rows p f t = record t {
  submissions = map (λ (s : Submission). if p s then f s else s) t.submissions;
}

unfoldable pub set_last_reply_at : Text → Time → Tables → Tables
set_last_reply_at id at = update_rows (λ s. s.id == id) (λ s. record s { last_reply_at = at })

unfoldable pub clear_reply_hash : Text → Tables → Tables
clear_reply_hash id = update_rows (λ s. s.id == id) (λ s. record s { last_reply_hash = [] })

unfoldable pub set_on_hold : List Text → Bool → Tables → Tables
set_on_hold ids on_hold t =
    if is_empty ids
    then t
    else update_rows (λ s. contains ids s.id) (λ s. record s { on_hold = on_hold }) t

abbrev ids_of : List Submission → List Text
ids_of rows = map (λ (s : Submission). s.id) rows

unfoldable pub list_held_ids : Tables → List Text
list_held_ids t = ids_of (keep_if (λ s. s.on_hold) t.submissions)

unfoldable pub reply_blocked_ids : List Text → Tables → List Text
unfolding non_empty
reply_blocked_ids ids t =
    let wanted = non_empty ids in
    ids_of (keep_if (λ s. contains wanted s.id && (s.on_hold || s.delivery_failed)) t.submissions)

unfoldable pub submission_ids_by_message_ids : List Text → Tables → List Text
unfolding non_empty distinct_owners
submission_ids_by_message_ids ids t =
    let wanted = non_empty ids in
    distinct_owners (keep_if (λ e. contains wanted e.message_id) t.emails) []

-- SQLite's lower and trim; its trim removes spaces only, which is a parameter here.
unfoldable pub find_content_match : (Text → Text) → Text → Text → Time → Tables → Option Submission
unfolding sort_by first_of_rows get_by_id
find_content_match sql_trim named_insured from_address created_after t =
    let insured = to_lower (trim_space named_insured) in
    if is_empty insured || is_empty from_address
    then none
    else elim (first_of_rows (
        sort_by (λ a b. leb b.created_at a.created_at)
          (keep_if
            (λ s.
              not (is_empty s.named_insured)
              && (to_lower (sql_trim s.named_insured) == insured
                  && (s.from_address == from_address
                      && ((s.state == opened || s.state == awaiting)
                          && leb created_after s.created_at))))
            t.submissions))) [ none ↦ none | some id ↦ get_by_id id t ]

-- ORDER BY state, last_action_at.
abbrev digest_order : Submission → Submission → Bool
digest_order a b =
    let x = state_text a.state in
    let y = state_text b.state in
    not (text_le y x) || x == y && leb a.last_action_at b.last_action_at

unfoldable pub list_open : ℕ → Tables → List Submission
unfolding sort_by
list_open limit t =
    take (if limit == 0 then 500 else limit)
      (sort_by digest_order (keep_if (λ s. not (s.state == closed)) t.submissions))

unfoldable pub count_open : Tables → ℕ
count_open t = length (keep_if (λ s. not (s.state == closed)) t.submissions)
