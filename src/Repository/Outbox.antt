-- ===== src/Repository/Outbox.antt =====
-- internal/repository/outbox.go: the outbox table and its statements, with the primary key and the
-- partial unique index of migrations/0006_reply_coalescing.sql, which refuse an insert or an update.
-- A row's `reply` is `none` where `reply_json` does not decode. The clock of the repository and the
-- id that uuid.NewString would give are arguments. Any other error of SQLite is left to the callers.
pub mod Pending
pub mod Index
pub mod Delivery
use submission_triage.Prelude.{
  ℕ, ◌+◌, Bool, true, false, ◌&&◌, ◌||◌, not, Option, none, some, List, [], ◌∷◌, ◌++◌, Text, codes,
  text_eq, nat_eq, Comparable, ◌==◌, contains, if◌then◌else◌, is_empty, any, keep_if, count_if, leb,
  ltb, take, sort_by, map,
}
use submission_triage.Model.Submission.{Time}
use submission_triage.Model.Reply.{Reply}

-- `unset` is the empty string.
pub data OutboxStatus : Type 0 where
  pending sent failed unset : OutboxStatus

abbrev pub is_pending_status : OutboxStatus → Bool
is_pending_status pending = true
is_pending_status _ = false

abbrev pub is_settled_status : OutboxStatus → Bool
is_settled_status sent = true
is_settled_status failed = true
is_settled_status _ = false

abbrev pub or_pending : OutboxStatus → OutboxStatus
or_pending unset = pending
or_pending status = status

pub record OutboxEntry : Type 0 where
  pub id : Text
  pub submission_id : Text
  pub reply : Reply
  pub status : OutboxStatus
  pub attempts : ℕ
  pub last_error : Text
  pub created_at : Time
  pub updated_at : Time
  pub not_before : Time

pub record Row : Type 0 where
  pub id : Text
  pub submission_id : Text
  pub reply : Option Reply
  pub status : OutboxStatus
  pub attempts : ℕ
  pub last_error : Text
  pub created_at : Time
  pub updated_at : Time
  pub not_before : Time

abbrev pub is_pending : Row → Bool
is_pending r = is_pending_status r.status

-- The rows that the partial unique index on submission_id holds for one submission.
abbrev pub is_pending_for : Text → Row → Bool
is_pending_for sid r = is_pending r && r.submission_id == sid

-- The defaults that `insertOutboxRow` fills in.
prepare_entry : Time → Text → OutboxEntry → OutboxEntry
prepare_entry now new_id e = record e {
  id = if is_empty e.id then new_id else e.id;
  created_at = if e.created_at == 0 then now else e.created_at;
  updated_at = now;
  status = or_pending e.status;
}

abbrev pub row_of : OutboxEntry → Row
row_of e = record {
  id = e.id;
  submission_id = e.submission_id;
  reply = some e.reply;
  status = e.status;
  attempts = e.attempts;
  last_error = e.last_error;
  created_at = e.created_at;
  updated_at = e.updated_at;
  not_before = e.not_before;
}

-- The DO UPDATE: content, schedule and version are overwritten, attempts and created_at are kept.
abbrev pub supersede : OutboxEntry → Row → Row
supersede e r = record r {
  reply = some e.reply;
  not_before = e.not_before;
  updated_at = e.updated_at;
}

-- The upsert of a prepared entry, and RETURNING id. `none` is a primary key that is taken.
upsert_row : OutboxEntry → List Row → List Row → Option (Text × List Row)
upsert_row e all [] = if any (λ r. r.id == e.id) all then none else some (e.id, row_of e ∷ [])
upsert_row e all (r ∷ rows) =
    if is_pending_status e.status && is_pending_for e.submission_id r
    then some (r.id, supersede e r ∷ rows)
    else elim (upsert_row e all rows) [ none ↦ none | some (id, rest) ↦ some (id, r ∷ rest) ]

-- The entry as the caller sees it afterwards, with the id of the row that survived.
unfoldable pub insert_outbox_row :
    Time → Text → OutboxEntry → List Row → Option (OutboxEntry × List Row)
unfolding prepare_entry upsert_row
insert_outbox_row now new_id e rows =
    let e' = prepare_entry now new_id e in
    elim (upsert_row e' rows rows) [
      | none ↦ none
      | some (id, rows') ↦ some (record e' { id = id }, rows')
    ]

-- UPDATE on every row that a WHERE clause takes.
abbrev update_where : (Row → Bool) → (Row → Row) → List Row → List Row
update_where p f rows = map (λ r. if p r then f r else r) rows

unfoldable pub mark_sent : Time → Text → Time → List Row → List Row
mark_sent now id version rows =
    update_where (λ r. r.id == id && (is_pending r && r.updated_at == version))
      (λ r. record r { status = sent; updated_at = now }) rows

-- Whether the update of the row with this id would give a submission a second pending row.
unfoldable pub clashes : Text → OutboxStatus → List Row → List Row → Bool
clashes id status all [] = false
clashes id status all (r ∷ rows) =
    let rest = clashes id status all rows in
    (is_pending_status status
      && (r.id == id && any (λ q. not (q.id == id) && is_pending_for r.submission_id q) all))
    || rest

-- The SET clause of Update, on the rows with this id.
unfoldable pub write_status : Time → Text → OutboxStatus → ℕ → Text → List Row → List Row
write_status now id status attempts last_err rows =
    update_where (λ r. r.id == id)
      (λ r. record r {
        status = status;
        attempts = attempts;
        last_error = last_err;
        updated_at = now;
      })
      rows

-- `none` is the error of the unique index.
unfoldable pub update : Time → Text → OutboxStatus → ℕ → Text → List Row → Option (List Row)
unfolding clashes write_status
update now id status attempts last_err rows =
    if clashes id status rows rows
    then none
    else some (write_status now id status attempts last_err rows)

-- An update whose error the caller drops.
unfoldable pub try_update : Time → Text → OutboxStatus → ℕ → Text → List Row → List Row
unfolding update
try_update now id status attempts last_err rows =
    elim (update now id status attempts last_err rows) [ none ↦ rows | some rows' ↦ rows' ]

fail_row : Time → Text → Row → Row
fail_row now reason r = record r { status = failed; last_error = reason; updated_at = now }

-- With the number of rows changed.
unfoldable pub expire_pending : Time → Time → List Row → ℕ × List Row
unfolding fail_row
expire_pending now older_than rows =
    let hit = λ (r : Row). is_pending r && ltb r.created_at older_than in
    (count_if hit rows, update_where hit (fail_row now (codes "expired: pending past TTL")) rows)

unfoldable pub expire_pending_for_submissions : Time → List Text → Text → List Row → ℕ × List Row
unfolding fail_row
expire_pending_for_submissions now ids reason rows =
    let hit = λ (r : Row). is_pending r && contains ids r.submission_id in
    if is_empty ids
    then (0, rows)
    else (count_if hit rows, update_where hit (fail_row now reason) rows)

unfoldable pub prune : Time → List Row → ℕ × List Row
prune older_than rows =
    let hit = λ (r : Row). is_settled_status r.status && ltb r.created_at older_than in
    (count_if hit rows, keep_if (λ r. not (hit r)) rows)

-- The WHERE clause of ListPending. The cutoff is now - retry_after, written as a sum.
abbrev pub is_due : Time → ℕ → Row → Bool
is_due now retry_after r =
    is_pending r
    && (leb r.not_before now && (r.attempts == 0 || leb (r.updated_at + retry_after) now))

entry_of : Reply → Row → OutboxEntry
entry_of reply r = record {
  id = r.id;
  submission_id = r.submission_id;
  reply = reply;
  status = r.status;
  attempts = r.attempts;
  last_error = r.last_error;
  created_at = r.created_at;
  updated_at = r.updated_at;
  not_before = r.not_before;
}

-- The loop over the result set: the decoded entries.
unfoldable pub decoded : List Row → List OutboxEntry
unfolding entry_of
decoded [] = []
decoded (r ∷ rows) =
    let rest = decoded rows in elim r.reply [ none ↦ rest | some reply ↦ entry_of reply r ∷ rest ]

-- Its undecodable rows are dead-lettered.
unfoldable pub bury_poison : Time → List Row → List Row → List Row
unfolding try_update
bury_poison now [] rows = rows
bury_poison now (r ∷ found) rows = bury_poison now found (elim r.reply [
  | none ↦ try_update now r.id failed (r.attempts + 1) (codes "undecodable reply_json") rows
  | some _ ↦ rows
])

-- The rows that the query selects: the due ones, earliest scheduled first, at most `limit`.
unfoldable pub select_due : Time → ℕ → ℕ → List Row → List Row
unfolding sort_by
select_due now retry_after limit rows =
    take (if limit == 0 then 100 else limit)
      (sort_by (λ a b. leb a.not_before b.not_before) (keep_if (is_due now retry_after) rows))

unfoldable pub list_pending : Time → ℕ → ℕ → List Row → List OutboxEntry × List Row
unfolding select_due decoded bury_poison
list_pending now retry_after limit rows =
    let found = select_due now retry_after limit rows in (decoded found, bury_poison now found rows)

-- GetPending: no row, an undecodable one (an error), or the entry.
pub data Fresh : Type 0 where
  gone undecodable : Fresh
  found : OutboxEntry → Fresh

unfoldable pub get_pending : Text → List Row → Fresh
unfolding entry_of
get_pending id [] = gone
get_pending id (r ∷ rows) =
    let rest = get_pending id rows in
    if r.id == id && is_pending r
    then elim r.reply [ none ↦ undecodable | some reply ↦ found (entry_of reply r) ]
    else rest
