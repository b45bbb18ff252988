-- ===== src/Repository/Outbox/Pending.antt =====
-- internal/repository/outbox.go: at most one pending reply for a submission, and which text it has.
use submission_triage.Prelude.{
  ℕ, ◌≤◌, ◌≡◌, refl, ap, sym, ◌∙◌, ◌≢◌, Option, none, some, List, [], ◌∷◌, Text, text_eq, nat_eq,
  ◌==◌, ◌&&◌, text_beq_iff, nat_beq_iff, ==_refl, arith, if◌then◌else◌, count_if, Bool-cases, inl,
  inr, leb,
}
use submission_triage.Model.Submission.{Time}
use submission_triage.Repository.Outbox.{
  pending, or_pending, OutboxEntry, Row, is_pending_status, is_pending_for, upsert_row,
  insert_outbox_row, mark_sent, prepare_entry, row_of, supersede,
}

abbrev pub pending_count : Text → List Row → ℕ
pending_count sid rows = count_if (is_pending_for sid) rows

-- The partial unique index.
abbrev pub OnePending : List Row → Type 0
OnePending rows = (sid : Text) → pending_count sid rows ≤ 1

-- The count after an upsert: a new pending row only if there was none.
abbrev AfterUpsert : OutboxEntry → Text → List Row → Option (Text × List Row) → Type 0
AfterUpsert e sid rows none = Unit
AfterUpsert e sid rows (some (_, rows')) = pending_count sid rows' ≡ (
    if is_pending_status e.status && e.submission_id == sid
    then (if leb 1 (pending_count sid rows) then pending_count sid rows else 1)
    else pending_count sid rows)

upsert_row-count :
    (e : OutboxEntry) (sid : Text) (all rows : List Row)
    → AfterUpsert e sid rows (upsert_row e all rows)
unfolding upsert_row
upsert_row-count e sid all [] = ground (arith, text_beq_iff e.submission_id sid)
upsert_row-count e sid all (r ∷ rows) = ground (
  arith,
  text_beq_iff e.submission_id sid,
  text_beq_iff r.submission_id sid,
  text_beq_iff r.submission_id e.submission_id,
  upsert_row-count e sid all rows,
)

-- A queued entry keeps the index: the insert never makes a second pending row.
pub insert_outbox_row-OnePending :
    (now : Time) (new_id : Text) (e e' : OutboxEntry) (rows rows' : List Row)
    → OnePending rows
    → insert_outbox_row now new_id e rows ≡ some (e', rows')
    → OnePending rows'
unfolding insert_outbox_row
insert_outbox_row-OnePending now new_id e e' rows rows' one ins sid =
    ground (arith, one sid, upsert_row-count (prepare_entry now new_id e) sid rows rows)

-- The pending row of a submission.
abbrev pub pending_row : Text → List Row → Option Row
pending_row sid [] = none
pending_row sid (r ∷ rows) =
    let rest = pending_row sid rows in if is_pending_for sid r then some r else rest

abbrev pub superseded : OutboxEntry → Option Row → Row
superseded e none = row_of e
superseded e (some r) = supersede e r

abbrev PendingAfter : OutboxEntry → Text → List Row → Option (Text × List Row) → Type 0
PendingAfter e sid rows none = Unit
PendingAfter e sid rows (some (id, rows')) =
    (pending_row sid rows' ≡ (
      if e.submission_id == sid
      then some (superseded e (pending_row sid rows))
      else pending_row sid rows))
    × (id ≡ (superseded e (pending_row e.submission_id rows)).id)

upsert_row-pending_row :
    (e : OutboxEntry) (sid : Text) (all rows : List Row)
    → e.status ≡ pending
    → PendingAfter e sid rows (upsert_row e all rows)
unfolding upsert_row
upsert_row-pending_row e sid all [] h = ground (arith, text_beq_iff e.submission_id sid)
upsert_row-pending_row e sid all (r ∷ rows) h = ground (
  arith,
  text_beq_iff e.submission_id sid,
  text_beq_iff r.submission_id sid,
  text_beq_iff r.submission_id e.submission_id,
  upsert_row-pending_row e sid all rows h,
)

-- After a queued reply has gone in, the submission's pending row holds its text, its schedule and
-- the version and id that the caller was told, and a superseded row's failure count.
pub insert_outbox_row-pending_row :
    (now : Time) (new_id : Text) (e e' : OutboxEntry) (rows rows' : List Row)
    → e.status ≡ pending
    → insert_outbox_row now new_id e rows ≡ some (e', rows')
    → (r : Row) × (pending_row e.submission_id rows' ≡ some r)
      × (r.reply ≡ some e.reply)
      × (r.not_before ≡ e.not_before)
      × (r.updated_at ≡ e'.updated_at)
      × (r.id ≡ e'.id)
      × (e'.updated_at ≡ now)
      × (r.attempts
          ≡ elim (pending_row e.submission_id rows) [ none ↦ e.attempts | some old ↦ old.attempts ])
unfolding insert_outbox_row
insert_outbox_row-pending_row now new_id e e' rows rows' h ins =
    let p = prepare_entry now new_id e in
    let after = upsert_row-pending_row p e.submission_id rows rows (ap or_pending h) in
    let same = text_beq_iff e.submission_id e.submission_id in
    (
      superseded p (pending_row e.submission_id rows),
      ground (arith, after, same),
      ground arith,
      ground arith,
      ground arith,
      ground (arith, after),
      ground arith,
      ground arith,
    )

-- A queued reply touches no other submission's pending row.
pub insert_outbox_row-others :
    (now : Time) (new_id : Text) (e e' : OutboxEntry) (rows rows' : List Row) (sid : Text)
    → e.status ≡ pending
    → e.submission_id ≢ sid
    → insert_outbox_row now new_id e rows ≡ some (e', rows')
    → pending_row sid rows' ≡ pending_row sid rows
unfolding insert_outbox_row
insert_outbox_row-others now new_id e e' rows rows' sid h ne ins =
    let p = prepare_entry now new_id e in
    ground (
      arith,
      upsert_row-pending_row p sid rows rows (ap or_pending h),
      text_beq_iff e.submission_id sid,
    )

mark_sent-other_version :
    (now : Time) (id : Text) (version : Time) (sid : Text) (rows : List Row) (r : Row)
    → pending_row sid rows ≡ some r
    → r.updated_at ≢ version
    → pending_row sid (mark_sent now id version rows) ≡ some r
unfolding mark_sent
mark_sent-other_version now id version sid [] r h ne = cc
mark_sent-other_version now id version sid (x ∷ rows) r h ne =
    ground
      (arith, text_beq_iff x.submission_id sid, mark_sent-other_version now id version sid rows r)

pub pending_row-absent :
    (sid : Text) (rows : List Row) → pending_count sid rows ≡ 0 → pending_row sid rows ≡ none
pending_row-absent sid [] h = refl
pending_row-absent sid (x ∷ rows) h = ground (arith, pending_row-absent sid rows)

pub mark_sent-count :
    (now : Time) (id : Text) (version : Time) (sid : Text) (rows : List Row)
    → pending_count sid (mark_sent now id version rows) ≤ pending_count sid rows
unfolding mark_sent
mark_sent-count now id version sid [] = omega arith
mark_sent-count now id version sid (x ∷ rows) =
    ground (arith, mark_sent-count now id version sid rows)

mark_sent-same_version :
    (now : Time) (sid : Text) (rows : List Row) (r : Row)
    → pending_count sid rows ≤ 1
    → pending_row sid rows ≡ some r
    → pending_row sid (mark_sent now r.id r.updated_at rows) ≡ none
unfolding mark_sent
mark_sent-same_version now sid [] r one h = cc
mark_sent-same_version now sid (x ∷ rows) r one h = ground (
  arith,
  text_beq_iff x.id r.id,
  nat_beq_iff x.updated_at r.updated_at,
  mark_sent-same_version now sid rows r,
  mark_sent-count now r.id r.updated_at sid rows,
  pending_row-absent sid (mark_sent now r.id r.updated_at rows),
)

-- MarkSent settles the pending row of a submission exactly when the version is still the one that
-- was read; otherwise the row stays pending as it is.
pub mark_sent-version :
    (now : Time) (sid : Text) (version : Time) (rows : List Row) (r : Row)
    → OnePending rows
    → pending_row sid rows ≡ some r
    → pending_row sid (mark_sent now r.id version rows)
      ≡ (if r.updated_at == version then none else some r)
mark_sent-version now sid version rows r one h = elim (Bool-cases (r.updated_at == version)) [
  | inl e ↦
      rw (← (nat_beq_iff r.updated_at version).0 e, ==_refl r.updated_at)
        (mark_sent-same_version now sid rows r (one sid) h)
  | inr e ↦ rw e (
      mark_sent-other_version now r.id version sid rows r h
        (λ same. ground (arith, nat_beq_iff r.updated_at version)))
]

-- A follow-up that was queued after a send was read is not lost to that send's mark: it is still
-- pending with its own text, whatever id is marked, if the clock has moved between the two.
pub follow_up_survives :
    (now later : Time) (new_id id : Text) (version : Time) (e e' : OutboxEntry)
    (rows rows' : List Row)
    → e.status ≡ pending
    → version ≢ now
    → insert_outbox_row now new_id e rows ≡ some (e', rows')
    → (r : Row) × (pending_row e.submission_id (mark_sent later id version rows') ≡ some r)
      × (r.reply ≡ some e.reply)
follow_up_survives now later new_id id version e e' rows rows' h moved ins =
    let (r, here, text, _, stamp, _, stamped, _) =
      insert_outbox_row-pending_row now new_id e e' rows rows' h ins in
    (
      r,
      mark_sent-other_version later id version e.submission_id rows' r here
          (λ same. moved (sym same ∙ stamp ∙ stamped)),
      text,
    )
