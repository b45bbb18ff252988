-- ===== src/Tests/Outbox.antt =====
-- The theorems about internal/repository/outbox.go, run.
use submission_triage.Prelude.{
  ◌≡◌, refl, some, none, [], ◌∷◌, codes, arith, if◌then◌else◌, contains, ◌==◌, All, text_eq, nat_eq,
}
use submission_triage.Repository.Outbox.{
  Row, OutboxEntry, pending, failed, update, row_of, insert_outbox_row, mark_sent,
  expire_pending_for_submissions, list_pending,
}
use submission_triage.Repository.Outbox.Pending.{
  OnePending, pending_row, pending_count, insert_outbox_row-pending_row, insert_outbox_row-others,
  mark_sent-version, follow_up_survives,
}
use submission_triage.Repository.Outbox.Index.{
  Reach, here, next, queue, change, drop_for, UniqueIds, Reach-OnePending,
  expire_pending_for_submissions-pending_count,
}
use submission_triage.Repository.Outbox.Delivery.{IsReady, list_pending-IsReady}
use submission_triage.Tests.Data.{entry, row, follow_up, stranger}

abbrev stored : Row
stored = record row { updated_at = 4 }

abbrev entry_after : OutboxEntry
entry_after = record entry { updated_at = 4 }

abbrev replaced : Row
replaced = record stored { reply = some follow_up.reply; updated_at = 8 }

abbrev follow_up_after : OutboxEntry
follow_up_after = record follow_up { id = codes "o1"; updated_at = 8 }

abbrev both_queued : Reach [] (replaced ∷ [])
unfolding insert_outbox_row
both_queued =
    next (next here (queue 4 (codes "n") entry entry_after [] (stored ∷ []) refl))
      (queue 8 (codes "n") follow_up follow_up_after (stored ∷ []) (replaced ∷ []) refl)

-- Dropped for a hold, and put back to pending by a send that failed late.
abbrev dropped : Row
dropped = record replaced { status = failed; last_error = codes "on hold"; updated_at = 9 }

abbrev revived : Row
revived = record dropped { status = pending; attempts = 1; last_error = []; updated_at = 10 }

abbrev revival : Reach [] (revived ∷ [])
unfolding insert_outbox_row update expire_pending_for_submissions
revival =
    next (next both_queued (drop_for 9 (codes "s1" ∷ []) (codes "on hold") (replaced ∷ [])))
      (change 10 (codes "o1") pending 1 [] (dropped ∷ []) (revived ∷ []) refl)

Reach-OnePending_example : OnePending (revived ∷ []) × UniqueIds (revived ∷ [])
Reach-OnePending_example = Reach-OnePending revival

-- With a newer reply waiting, the index refuses to put the dropped one back.
refused :
    update 10 (codes "o1") pending 1 [] (dropped ∷ record stored { id = codes "o2" } ∷ []) ≡ none
unfolding update
refused = refl

one_pending : OnePending (stored ∷ [])
one_pending sid = ground arith

mark_sent-version_example :
    pending_row (codes "s1") (mark_sent 9 (codes "o1") 4 (stored ∷ []))
    ≡ (if stored.updated_at == 4 then none else some stored)
mark_sent-version_example = mark_sent-version 9 (codes "s1") 4 (stored ∷ []) stored one_pending refl

follow_up_survives_example :
    (r : Row) × (pending_row (codes "s1") (mark_sent 9 (codes "o1") 4 (replaced ∷ [])) ≡ some r)
    × (r.reply ≡ some follow_up.reply)
unfolding insert_outbox_row
follow_up_survives_example =
    follow_up_survives 8 9 (codes "n") (codes "o1") 4 follow_up follow_up_after (stored ∷ [])
      (replaced ∷ []) refl (λ e. ground arith) refl

insert_outbox_row-pending_row_example :
    (r : Row) × (pending_row (codes "s1") (replaced ∷ []) ≡ some r)
    × (r.reply ≡ some follow_up.reply)
    × (r.not_before ≡ follow_up.not_before)
    × (r.updated_at ≡ follow_up_after.updated_at)
    × (r.id ≡ follow_up_after.id)
    × (follow_up_after.updated_at ≡ 8)
    × (r.attempts ≡ elim (pending_row (codes "s1") (stored ∷ [])) [
      | none ↦ follow_up.attempts
      | some old ↦ old.attempts
    ])
unfolding insert_outbox_row
insert_outbox_row-pending_row_example =
    insert_outbox_row-pending_row 8 (codes "n") follow_up follow_up_after (stored ∷ [])
      (replaced ∷ []) refl refl

abbrev stranger_after : OutboxEntry
stranger_after = record stranger { updated_at = 8 }

insert_outbox_row-others_example :
    pending_row (codes "s1") (stored ∷ record (row_of stranger) { updated_at = 8 } ∷ [])
    ≡ pending_row (codes "s1") (stored ∷ [])
unfolding insert_outbox_row
insert_outbox_row-others_example =
    insert_outbox_row-others 8 (codes "n") stranger stranger_after (stored ∷ [])
      (stored ∷ record (row_of stranger) { updated_at = 8 } ∷ []) (codes "s1") refl
      (λ e. ground arith) refl

list_pending-IsReady_example : All (IsReady 20 10) (list_pending 20 10 5 (stored ∷ [])).0
list_pending-IsReady_example = list_pending-IsReady 20 10 5 (stored ∷ [])

expire_pending_for_submissions-pending_count_example :
    pending_count
      (codes "s1")
      (expire_pending_for_submissions 9 (codes "s1" ∷ []) (codes "hold") (stored ∷ [])).1
    ≡ (if contains (codes "s1" ∷ []) (codes "s1")
        then 0
        else pending_count (codes "s1") (stored ∷ []))
expire_pending_for_submissions-pending_count_example =
    expire_pending_for_submissions-pending_count 9 (codes "s1" ∷ []) (codes "hold") (codes "s1")
      (stored ∷ [])
