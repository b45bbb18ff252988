-- ===== src/Service/Dispatch/Attempts.antt =====
-- internal/service/submissions.go: the attempts of the pending rows, and the methods that keep them
-- in bounds.
use mathlib.Core.Path.{subst}
use submission_triage.Prelude.{
  ℕ, ◌+◌, ◌≡◌, refl, sym, ◌∙◌, codes, Bool, true, false, ◌||◌, not, Option, none, some, List, [],
  ◌∷◌, Text, text_eq, nat_eq, if◌then◌else◌, arith, ltb, Bool-cases, inl, inr, Result, ok, err, All,
}
use submission_triage.Model.Submission.{Time}
use submission_triage.Repository.Outbox.{
  OutboxStatus, pending, failed, OutboxEntry, Row, is_pending, is_pending_status, update,
  write_status, clashes, try_update, mark_sent, bury_poison,
}
use submission_triage.Service.World.{
  World, Event, Error, M, call, modify, attempt, audit, pure, gets, best_effort, next_fault,
  rest_faults, ◌>>=◌, ◌>>◌,
}
use submission_triage.Repository.Submissions.{Tables}
use submission_triage.Model.Reply.{Reply}
use submission_triage.Service.Frame.{Keeps, Keeps-pure, Keeps-gets, Keeps-audit}
use submission_triage.Service.Dispatch.{send_reply}

-- A pending row has attempts left.
abbrev pub has_attempts : ℕ → Row → Bool
has_attempts most r = not (is_pending r) || ltb r.attempts most

abbrev pub AttemptsLeft : ℕ → List Row → Type 0
AttemptsLeft most rows = All (λ r. has_attempts most r ≡ true) rows

write_status-AttemptsLeft :
    (most : ℕ) (now : Time) (id : Text) (status : OutboxStatus) (attempts : ℕ) (last_err : Text)
    (rows : List Row)
    → (not (is_pending_status status) || ltb attempts most) ≡ true
    → AttemptsLeft most rows
    → AttemptsLeft most (write_status now id status attempts last_err rows)
unfolding write_status
write_status-AttemptsLeft most now id status attempts last_err [] h left = tt
write_status-AttemptsLeft most now id status attempts last_err (r ∷ rows) h left =
    ground
      (arith, left.0, write_status-AttemptsLeft most now id status attempts last_err rows h left.1)

pub try_update-AttemptsLeft :
    (most : ℕ) (now : Time) (id : Text) (status : OutboxStatus) (attempts : ℕ) (last_err : Text)
    (rows : List Row)
    → (not (is_pending_status status) || ltb attempts most) ≡ true
    → AttemptsLeft most rows
    → AttemptsLeft most (try_update now id status attempts last_err rows)
unfolding try_update update
try_update-AttemptsLeft most now id status attempts last_err rows h left =
    go (clashes id status rows rows)
  where
    go :
        (b : Bool)
        → AttemptsLeft most
            (elim (if b then none else some (write_status now id status attempts last_err rows)) [
              | none ↦ rows
              | some rows' ↦ rows'
            ])
    go true = left
    go false = write_status-AttemptsLeft most now id status attempts last_err rows h left

pub mark_sent-AttemptsLeft :
    (most : ℕ) (now : Time) (id : Text) (version : Time) (rows : List Row)
    → AttemptsLeft most rows
    → AttemptsLeft most (mark_sent now id version rows)
unfolding mark_sent
mark_sent-AttemptsLeft most now id version [] left = tt
mark_sent-AttemptsLeft most now id version (r ∷ rows) left =
    ground (arith, left.0, mark_sent-AttemptsLeft most now id version rows left.1)

pub bury_poison-AttemptsLeft :
    (most : ℕ) (now : Time) (poison rows : List Row)
    → AttemptsLeft most rows
    → AttemptsLeft most (bury_poison now poison rows)
unfolding bury_poison
bury_poison-AttemptsLeft most now [] rows left = left
bury_poison-AttemptsLeft most now (p ∷ poison) rows left =
    bury_poison-AttemptsLeft most now poison _ (go p.reply)
  where
    go :
        (o : Option Reply)
        → AttemptsLeft most (elim o [
          | none ↦ try_update now p.id failed (p.attempts + 1) (codes "undecodable reply_json") rows
          | some _ ↦ rows
        ])
    go none =
        try_update-AttemptsLeft most now p.id failed (p.attempts + 1)
          (codes "undecodable reply_json") rows refl left
    go (some _) = left

-- A method that keeps the attempts in bounds and every claim that is held.
unfoldable pub Sweeps : {A : Type 0} → ℕ → M A → Type 0
Sweeps most m =
    (w : World)
    → AttemptsLeft most w.outbox
    → AttemptsLeft most (m w).1.outbox × ((m w).1.dispatching ≡ w.dispatching)

pub Sweeps-at :
    {A : Type 0} (most : ℕ) (m : M A) (w : World)
    → Sweeps most m
    → AttemptsLeft most w.outbox
    → AttemptsLeft most (m w).1.outbox × ((m w).1.dispatching ≡ w.dispatching)
unfolding Sweeps
Sweeps-at most m w h = h w

pub Keeps-Sweeps : {A : Type 0} (most : ℕ) (m : M A) → Keeps m → Sweeps most m
unfolding Keeps Sweeps
Keeps-Sweeps most m h w left =
    (subst (λ rows. AttemptsLeft most rows) (sym (h w).outbox) left, (h w).dispatching)

pub Sweeps->>= :
    {A B : Type 0} (most : ℕ) (m : M A) (f : A → M B)
    → Sweeps most m
    → ((a : A) → Sweeps most (f a))
    → Sweeps most (m >>= f)
unfolding Sweeps ◌>>=◌
Sweeps->>= {A} {B} most m f hm hf w left = go (m w).0 (m w).1 (hm w left)
  where
    go :
        (r : Result Error A) (w' : World)
        → AttemptsLeft most w'.outbox × (w'.dispatching ≡ w.dispatching)
        → let out = elim r as (λ _. Result Error B × World) [
          | ok a ↦ f a w'
          | err e ↦ (err e, w')
        ] in
          AttemptsLeft most out.1.outbox × (out.1.dispatching ≡ w.dispatching)
    go (ok a) w' h = let after = hf a w' h.0 in (after.0, after.1 ∙ h.1)
    go (err e) w' h = h

pub Sweeps->> :
    {A B : Type 0} (most : ℕ) (m : M A) (k : M B)
    → Sweeps most m
    → Sweeps most k
    → Sweeps most (m >> k)
unfolding ◌>>◌
Sweeps->> most m k hm hk = Sweeps->>= most m (λ _. k) hm (λ _. hk)

pub Sweeps-if :
    {A : Type 0} (most : ℕ) (b : Bool) (m k : M A)
    → Sweeps most m
    → Sweeps most k
    → Sweeps most (if b then m else k)
Sweeps-if most true m k hm hk = hm
Sweeps-if most false m k hm hk = hk

pub Sweeps-best_effort : (most : ℕ) (m : M (Unit {0})) → Sweeps most m → Sweeps most (best_effort m)
unfolding Sweeps best_effort
Sweeps-best_effort most m h = h

pub Sweeps-attempt : {A : Type 0} (most : ℕ) (m : M A) → Sweeps most m → Sweeps most (attempt m)
unfolding Sweeps attempt
Sweeps-attempt most m h = h

pub Sweeps-call : {A : Type 0} (most : ℕ) (m : M A) → Sweeps most m → Sweeps most (call m)
unfolding Sweeps call
Sweeps-call most m h w left = elim (Bool-cases (next_fault w.faults)) [
  | inl e ↦ simp e (left, refl)
  | inr e ↦ simp e (h (record w { faults = rest_faults w.faults }) left)
]

pub send_reply-store :
    (reply : Reply) (w : World)
    → ((send_reply reply w).1.outbox ≡ w.outbox)
      × ((send_reply reply w).1.dispatching ≡ w.dispatching)
unfolding send_reply
send_reply-store reply w = ground arith

pub marking :
    (most : ℕ) (id : Text) (version : Time)
    → Sweeps most (modify (λ w. record w { outbox = mark_sent w.now id version w.outbox }))
unfolding Sweeps modify
marking most id version w left = (mark_sent-AttemptsLeft most w.now id version w.outbox left, refl)

pub setting :
    (most : ℕ) (row : OutboxEntry) (again : Bool)
    → (not again || ltb (row.attempts + 1) most) ≡ true
    → Sweeps most (
        modify (λ w. record w {
          outbox =
              try_update w.now row.id
                (if again then pending else failed)
                (row.attempts + 1)
                []
                w.outbox;
        }))
unfolding Sweeps modify
setting most row true h w left =
    (try_update-AttemptsLeft most w.now row.id pending (row.attempts + 1) [] w.outbox h left, refl)
setting most row false h w left = (
  try_update-AttemptsLeft most w.now row.id failed (row.attempts + 1) [] w.outbox refl left,
  refl,
)

-- A change of the tables alone.
pub tables-Sweeps :
    (most : ℕ) (f : World → Tables) → Sweeps most (modify (λ w. record w { tables = f w }))
unfolding Sweeps modify
tables-Sweeps most f w left = (left, refl)

pub send_reply-Sweeps : (most : ℕ) (reply : Reply) → Sweeps most (send_reply reply)
unfolding Sweeps
send_reply-Sweeps most reply w left = (
  subst (λ rows. AttemptsLeft most rows) (sym (send_reply-store reply w).0) left,
  (send_reply-store reply w).1,
)

pub pure-Sweeps : {A : Type 0} (most : ℕ) (a : A) → Sweeps most (pure a)
pure-Sweeps most a = Keeps-Sweeps most (pure a) (Keeps-pure a)

pub gets-Sweeps : {A : Type 0} (most : ℕ) (f : World → A) → Sweeps most (gets f)
gets-Sweeps most f = Keeps-Sweeps most (gets f) (Keeps-gets f)

pub audit-Sweeps : (most : ℕ) (id : Text) (event : Event) → Sweeps most (audit id event)
audit-Sweeps most id event = Keeps-Sweeps most (audit id event) (Keeps-audit id event)

pub ruleset sweeping = (
  Sweeps->>=, Sweeps->>, Sweeps-if, Sweeps-best_effort, Sweeps-attempt, Sweeps-call, tables-Sweeps,
  send_reply-Sweeps, pure-Sweeps, gets-Sweeps, audit-Sweeps,
)
