-- ===== src/Repository/Outbox/Delivery.antt =====
-- internal/repository/outbox.go: what a sweep is handed.
use submission_triage.Prelude.{
  ℕ, ◌+◌, ◌≤◌, zero, suc, ◌≡◌, refl, ◌⊎◌, true, List, [], ◌∷◌, text_eq, nat_eq, ◌==◌, arith,
  if◌then◌else◌, All, keep_if, sort_by, All-sort_by, take, leb, Bool-cases, inl, inr,
}
use submission_triage.Model.Submission.{Time}
use submission_triage.Repository.Outbox.{
  OutboxEntry, pending, Row, is_due, select_due, decoded, list_pending,
}

abbrev IsDue : Time → ℕ → Row → Type 0
IsDue now retry_after r = is_due now retry_after r ≡ true

All-take {ℓ κ} : {A : Type ℓ} (P : A → Type κ) (n : ℕ) (xs : List A) → All P xs → All P (take n xs)
All-take P zero xs h = tt
All-take P (suc n) [] h = tt
All-take P (suc n) (x ∷ xs) h = (h.0, All-take P n xs h.1)

kept-IsDue :
    (now : Time) (retry_after : ℕ) (rows : List Row)
    → All (IsDue now retry_after) (keep_if (is_due now retry_after) rows)
kept-IsDue now retry_after [] = tt
kept-IsDue now retry_after (r ∷ rows) = elim (Bool-cases (is_due now retry_after r)) [
  | inl e ↦ simp e (refl, kept-IsDue now retry_after rows)
  | inr e ↦ simp e (kept-IsDue now retry_after rows)
]

-- What a listed entry promises.
abbrev pub IsReady : Time → ℕ → OutboxEntry → Type 0
IsReady now retry_after e =
    (e.status ≡ pending)
    × (e.not_before ≤ now)
    × ((e.attempts ≡ 0) ⊎ (e.updated_at + retry_after ≤ now))

decoded-IsReady :
    (now : Time) (retry_after : ℕ) (rows : List Row)
    → All (IsDue now retry_after) rows
    → All (IsReady now retry_after) (decoded rows)
unfolding decoded
decoded-IsReady now retry_after [] h = tt
decoded-IsReady now retry_after (r ∷ rows) h =
    ground (arith, h.0, decoded-IsReady now retry_after rows h.1)

-- Every entry that a sweep is handed is pending, its window has elapsed, and if it was attempted
-- before, so has the retry backoff.
pub list_pending-IsReady :
    (now : Time) (retry_after limit : ℕ) (rows : List Row)
    → All (IsReady now retry_after) (list_pending now retry_after limit rows).0
unfolding list_pending select_due
list_pending-IsReady now retry_after limit rows =
    let n = if limit == 0 then 100 else limit in
    decoded-IsReady now retry_after (select_due now retry_after limit rows) (
      All-take (IsDue now retry_after) n
        (sort_by (λ (a : Row) (b : Row). leb a.not_before b.not_before)
          (keep_if (is_due now retry_after) rows))
        (All-sort_by (IsDue now retry_after) (λ a b. leb a.not_before b.not_before)
          (keep_if (is_due now retry_after) rows) (kept-IsDue now retry_after rows)))
