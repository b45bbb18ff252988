-- ===== src/Repository/Outbox/Index.antt =====
-- internal/repository/outbox.go: the partial unique index holds under every statement.
use mathlib.Core.Path.{subst}
use submission_triage.Prelude.{
  ap, ==_refl, Bool-cases, ℕ, suc, ◌+◌, ◌≤◌, ◌≡◌, refl, Bool, true, false, ◌&&◌, not, any, count_if,
  ◌⊎◌, inl, inr, Option, none, some, List, [], ◌∷◌, Text, text_eq, ◌==◌, text_beq_iff, arith,
  if◌then◌else◌, contains,
}
use submission_triage.Model.Submission.{Time}
use submission_triage.Repository.Outbox.{
  OutboxStatus, OutboxEntry, Row, is_pending_status, insert_outbox_row, mark_sent, update,
  write_status, clashes, upsert_row, prepare_entry, is_pending_for, expire_pending,
  expire_pending_for_submissions, prune,
}
use submission_triage.Repository.Outbox.Pending.{
  pending_count, OnePending, insert_outbox_row-OnePending, mark_sent-count,
}

expire_pending-count :
    (now older_than : Time) (sid : Text) (rows : List Row)
    → pending_count sid (expire_pending now older_than rows).1 ≤ pending_count sid rows
unfolding expire_pending
expire_pending-count now older_than sid [] = omega arith
expire_pending-count now older_than sid (x ∷ rows) =
    ground (arith, expire_pending-count now older_than sid rows)

prune-count :
    (older_than : Time) (sid : Text) (rows : List Row)
    → pending_count sid (prune older_than rows).1 ≡ pending_count sid rows
unfolding prune
prune-count older_than sid [] = refl
prune-count older_than sid (x ∷ rows) = ground (arith, prune-count older_than sid rows)

expired_for : Time → List Text → Text → List Row → List Row
expired_for now ids reason rows = (expire_pending_for_submissions now ids reason rows).1

expired_for-count :
    (now : Time) (ids : List Text) (reason sid : Text) (rows : List Row)
    → pending_count sid (expired_for now ids reason rows)
      ≡ (if contains ids sid then 0 else pending_count sid rows)
unfolding expired_for expire_pending_for_submissions
expired_for-count now [] reason sid rows = refl
expired_for-count now (i ∷ ids) reason sid [] = ground arith
expired_for-count now (i ∷ ids) reason sid (x ∷ rows) =
    ground
      (arith, text_beq_iff x.submission_id sid, expired_for-count now (i ∷ ids) reason sid rows)

-- Releasing a hold drops the pending reply of each released submission, and no other's.
pub expire_pending_for_submissions-pending_count :
    (now : Time) (ids : List Text) (reason sid : Text) (rows : List Row)
    → pending_count sid (expire_pending_for_submissions now ids reason rows).1
      ≡ (if contains ids sid then 0 else pending_count sid rows)
unfolding expired_for
expire_pending_for_submissions-pending_count = expired_for-count

-- The primary key.
abbrev id_count : Text → List Row → ℕ
id_count id rows = count_if (λ r. r.id == id) rows

abbrev pub UniqueIds : List Row → Type 0
UniqueIds rows = (id : Text) → id_count id rows ≤ 1

-- An upsert adds an id only if it is not there.
abbrev AfterIds : OutboxEntry → Text → List Row → List Row → Option (Text × List Row) → Type 0
AfterIds e id all rows none = Unit
AfterIds e id all rows (some (_, rows')) =
    (id_count id rows' ≡ id_count id rows)
    ⊎ ((any (λ r. r.id == id) all ≡ false) × (id_count id rows' ≡ suc (id_count id rows)))

appended-ids : (e : OutboxEntry) (all : List Row) → AfterIds e e.id all [] (upsert_row e all [])
unfolding upsert_row
appended-ids e all = elim (Bool-cases (any (λ r. r.id == e.id) all)) [
  | inl c ↦ simp c tt
  | inr c ↦ simp (c, ==_refl e.id) (inr (refl, refl))
]

upsert_row-ids :
    (e : OutboxEntry) (id : Text) (all rows : List Row)
    → AfterIds e id all rows (upsert_row e all rows)
unfolding upsert_row
upsert_row-ids e id all [] = elim (Bool-cases (e.id == id)) [
  | inl c ↦
      subst (λ i. AfterIds e i all [] (upsert_row e all [])) ((text_beq_iff e.id id).0 c)
        (appended-ids e all)
  | inr c ↦ ground (arith, c)
]
upsert_row-ids e id all (r ∷ rows) = ground (arith, upsert_row-ids e id all rows)

absent-count : {A : Type 0} (p : A → Bool) (xs : List A) → any p xs ≡ false → count_if p xs ≡ 0
absent-count p [] h = refl
absent-count p (x ∷ xs) h = ground (arith, absent-count p xs)

insert_outbox_row-UniqueIds :
    (now : Time) (new_id : Text) (e e' : OutboxEntry) (rows rows' : List Row)
    → UniqueIds rows
    → insert_outbox_row now new_id e rows ≡ some (e', rows')
    → UniqueIds rows'
unfolding insert_outbox_row
insert_outbox_row-UniqueIds now new_id e e' rows rows' unique ins id = ground (
  arith,
  unique id,
  upsert_row-ids (prepare_entry now new_id e) id rows rows,
  absent-count (λ (r : Row). r.id == id) rows,
)

-- The rows with this id, of this submission, and the pending ones with another id.
abbrev is_target : Text → Text → Row → Bool
is_target id sid r = r.id == id && r.submission_id == sid

abbrev is_rival : Text → Text → Row → Bool
is_rival id sid q = not (q.id == id) && is_pending_for sid q

write_status-count :
    (now : Time) (id : Text) (status : OutboxStatus) (attempts : ℕ) (last_err sid : Text)
    (rows : List Row)
    → pending_count sid (write_status now id status attempts last_err rows)
      ≡ count_if (is_rival id sid) rows
        + (if is_pending_status status then count_if (is_target id sid) rows else 0)
unfolding write_status
write_status-count now id status attempts last_err sid [] = ground arith
write_status-count now id status attempts last_err sid (r ∷ rows) =
    ground (arith, write_status-count now id status attempts last_err sid rows)

is_rival-count :
    (id sid : Text) (rows : List Row) → count_if (is_rival id sid) rows ≤ pending_count sid rows
is_rival-count id sid [] = omega arith
is_rival-count id sid (r ∷ rows) = ground (arith, is_rival-count id sid rows)

is_target-count :
    (id sid : Text) (rows : List Row) → count_if (is_target id sid) rows ≤ id_count id rows
is_target-count id sid [] = omega arith
is_target-count id sid (r ∷ rows) = ground (arith, is_target-count id sid rows)

-- Where nothing clashes, a row that becomes pending has no rival.
clashes-free :
    (id : Text) (status : OutboxStatus) (sid : Text) (all rows : List Row)
    → clashes id status all rows ≡ false
    → is_pending_status status ≡ true
    → (count_if (is_target id sid) rows ≡ 0) ⊎ (any (is_rival id sid) all ≡ false)
unfolding clashes
clashes-free id status sid all [] h p = inl refl
clashes-free id status sid all (r ∷ rows) h p =
    let same : r.submission_id ≡ sid
        → any (is_rival id r.submission_id) all ≡ any (is_rival id sid) all =
      ap (λ s. any (is_rival id s) all) in
    ground (arith, text_beq_iff r.submission_id sid, same, clashes-free id status sid all rows)

update-OnePending :
    (now : Time) (id : Text) (status : OutboxStatus) (attempts : ℕ) (last_err : Text)
    (rows rows' : List Row)
    → UniqueIds rows
    → OnePending rows
    → update now id status attempts last_err rows ≡ some rows'
    → OnePending rows'
unfolding update
update-OnePending now id status attempts last_err rows rows' unique one h sid = ground (
  arith,
  unique id,
  one sid,
  write_status-count now id status attempts last_err sid rows,
  is_rival-count id sid rows,
  is_target-count id sid rows,
  clashes-free id status sid rows rows,
  absent-count (is_rival id sid) rows,
)

write_status-ids :
    (now : Time) (id : Text) (status : OutboxStatus) (attempts : ℕ) (last_err id' : Text)
    (rows : List Row)
    → id_count id' (write_status now id status attempts last_err rows) ≡ id_count id' rows
unfolding write_status
write_status-ids now id status attempts last_err id' [] = refl
write_status-ids now id status attempts last_err id' (r ∷ rows) =
    ground (arith, write_status-ids now id status attempts last_err id' rows)

update-UniqueIds :
    (now : Time) (id : Text) (status : OutboxStatus) (attempts : ℕ) (last_err : Text)
    (rows rows' : List Row)
    → UniqueIds rows
    → update now id status attempts last_err rows ≡ some rows'
    → UniqueIds rows'
unfolding update
update-UniqueIds now id status attempts last_err rows rows' unique h id' =
    ground (arith, unique id', write_status-ids now id status attempts last_err id' rows)

mark_sent-ids :
    (now : Time) (id : Text) (version : Time) (id' : Text) (rows : List Row)
    → id_count id' (mark_sent now id version rows) ≡ id_count id' rows
unfolding mark_sent
mark_sent-ids now id version id' [] = refl
mark_sent-ids now id version id' (r ∷ rows) = ground (arith, mark_sent-ids now id version id' rows)

expire_pending-ids :
    (now older_than : Time) (id : Text) (rows : List Row)
    → id_count id (expire_pending now older_than rows).1 ≡ id_count id rows
unfolding expire_pending
expire_pending-ids now older_than id [] = refl
expire_pending-ids now older_than id (r ∷ rows) =
    ground (arith, expire_pending-ids now older_than id rows)

expired_for-ids :
    (now : Time) (ids : List Text) (reason id : Text) (rows : List Row)
    → id_count id (expired_for now ids reason rows) ≡ id_count id rows
unfolding expired_for expire_pending_for_submissions
expired_for-ids now [] reason id rows = refl
expired_for-ids now (i ∷ ids) reason id [] = refl
expired_for-ids now (i ∷ ids) reason id (r ∷ rows) =
    ground (arith, expired_for-ids now (i ∷ ids) reason id rows)

prune-ids :
    (older_than : Time) (id : Text) (rows : List Row)
    → id_count id (prune older_than rows).1 ≤ id_count id rows
unfolding prune
prune-ids older_than id [] = omega arith
prune-ids older_than id (r ∷ rows) = ground (arith, prune-ids older_than id rows)

-- One statement on the table that is not refused, with any arguments.
pub data Step : List Row → List Row → Type 0 where
  queue :
      (now : Time) (new_id : Text) (e e' : OutboxEntry) (rows rows' : List Row)
      → insert_outbox_row now new_id e rows ≡ some (e', rows')
      → Step rows rows'
  settle :
      (now : Time) (id : Text) (version : Time) (rows : List Row)
      → Step rows (mark_sent now id version rows)
  change :
      (now : Time) (id : Text) (status : OutboxStatus) (attempts : ℕ) (last_err : Text)
      (rows rows' : List Row)
      → update now id status attempts last_err rows ≡ some rows'
      → Step rows rows'
  expire :
      (now older_than : Time) (rows : List Row) → Step rows (expire_pending now older_than rows).1
  drop_for :
      (now : Time) (ids : List Text) (reason : Text) (rows : List Row)
      → Step rows (expire_pending_for_submissions now ids reason rows).1
  sweep : (older_than : Time) (rows : List Row) → Step rows (prune older_than rows).1

pub data Reach (start : List Row) : List Row → Type 0 where
  here : Reach start start
  next : {rows rows' : List Row} → Reach start rows → Step rows rows' → Reach start rows'

Step-UniqueIds : {rows rows' : List Row} → Step rows rows' → UniqueIds rows → UniqueIds rows'
unfolding expired_for
Step-UniqueIds (queue now new_id e e' rows rows' ins) unique id' =
    insert_outbox_row-UniqueIds now new_id e e' rows rows' unique ins id'
Step-UniqueIds (settle now id version rows) unique id' =
    omega (arith, unique id', mark_sent-ids now id version id' rows)
Step-UniqueIds (change now id status attempts last_err rows rows' h) unique id' =
    update-UniqueIds now id status attempts last_err rows rows' unique h id'
Step-UniqueIds (expire now older_than rows) unique id' =
    omega (arith, unique id', expire_pending-ids now older_than id' rows)
Step-UniqueIds (drop_for now ids reason rows) unique id' =
    omega (arith, unique id', expired_for-ids now ids reason id' rows)
Step-UniqueIds (sweep older_than rows) unique id' =
    omega (arith, unique id', prune-ids older_than id' rows)

Step-OnePending :
    {rows rows' : List Row} → Step rows rows' → UniqueIds rows → OnePending rows → OnePending rows'
Step-OnePending (queue now new_id e e' rows rows' ins) unique one sid =
    insert_outbox_row-OnePending now new_id e e' rows rows' one ins sid
Step-OnePending (settle now id version rows) unique one sid =
    omega (arith, one sid, mark_sent-count now id version sid rows)
Step-OnePending (change now id status attempts last_err rows rows' h) unique one sid =
    update-OnePending now id status attempts last_err rows rows' unique one h sid
Step-OnePending (expire now older_than rows) unique one sid =
    omega (arith, one sid, expire_pending-count now older_than sid rows)
Step-OnePending (drop_for now ids reason rows) unique one sid =
    ground (arith, one sid, expire_pending_for_submissions-pending_count now ids reason sid rows)
Step-OnePending (sweep older_than rows) unique one sid =
    omega (arith, one sid, prune-count older_than sid rows)

-- From an empty outbox, whatever statements of the repository succeed in whatever order and with
-- whatever arguments, an update of any row to any status among them, no submission has two pending
-- replies and no two rows have one id.
pub Reach-OnePending : {rows : List Row} → Reach [] rows → OnePending rows × UniqueIds rows
Reach-OnePending here = (λ sid. omega arith, λ id. omega arith)
Reach-OnePending (next r step) =
    let (one, unique) = Reach-OnePending r in
    (Step-OnePending step unique one, Step-UniqueIds step unique)
