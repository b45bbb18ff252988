-- ===== src/Repository/Submissions/Kept.antt =====
-- internal/repository/submissions.go: what an upsert leaves to the other writers of a row.
use submission_triage.Prelude.{
  ◌≡◌, ◌⊎◌, Option, none, some, List, [], ◌∷◌, Text, text_eq, ◌==◌, text_beq_iff, arith,
  if◌then◌else◌,
}
use submission_triage.Model.Submission.{Time, Submission}
use submission_triage.Repository.Submissions.Rows.{
  Tables, inserted_row, updated_row, upsert_submission_row, upsert_submission, find_row,
}

-- The row of the upserted submission afterwards, by the row before.
abbrev written : Time → Submission → Option Submission → Submission
written now s none = inserted_row now s
written now s (some old) = updated_row now s old

find_row-upsert_submission_row :
    (now : Time) (s : Submission) (id : Text) (rows : List Submission)
    → find_row id (upsert_submission_row now s rows)
      ≡ (if s.id == id then some (written now s (find_row id rows)) else find_row id rows)
unfolding find_row upsert_submission_row
find_row-upsert_submission_row now s id [] = ground arith
find_row-upsert_submission_row now s id (r ∷ rows) = ground (
  arith,
  text_beq_iff r.id s.id,
  text_beq_iff r.id id,
  text_beq_iff s.id id,
  find_row-upsert_submission_row now s id rows,
)

pub upsert_submission-rows :
    (now : Time) (s : Submission) (t t' : Tables)
    → upsert_submission now s t ≡ some t'
    → t'.submissions ≡ upsert_submission_row now s t.submissions
unfolding upsert_submission
upsert_submission-rows now s t t' h = ground arith

-- What the upsert of `s` must leave of a row that is there.
abbrev pub IsKept : Submission → Submission → Option Submission → Type 0
IsKept s old none = ⊥
IsKept s old (some new) =
    (new.on_hold ≡ old.on_hold)
    × (new.last_reply_at ≡ old.last_reply_at)
    × (new.created_at ≡ old.created_at)
    × ((s.id ≡ old.id) ⊎ (new ≡ old))

-- An upsert writes back a submission that may have been read long before: the hold flag, the time of
-- the last reply and the creation time of every row stay as the table has them, and a row of another
-- submission stays as it is.
pub upsert_submission-IsKept :
    (now : Time) (s old : Submission) (t t' : Tables)
    → upsert_submission now s t ≡ some t'
    → find_row old.id t.submissions ≡ some old
    → IsKept s old (find_row old.id t'.submissions)
upsert_submission-IsKept now s old t t' h here =
    rw
      (
        upsert_submission-rows now s t t' h,
        find_row-upsert_submission_row now s old.id t.submissions,
        here,
      )
      (ground (arith, text_beq_iff s.id old.id))
