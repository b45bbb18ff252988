-- ===== src/Service/Dispatch/Sweep.antt =====
-- internal/service/submissions.go: what a sweep of the outbox keeps.
use submission_triage.Prelude.{
  ℕ, ◌+◌, ◌≡◌, refl, ap, ◌∙◌, Bool, true, false, ◌||◌, not, List, [], ◌∷◌, Text, text_eq, nat_eq,
  ◌==◌, contains, keep_if, if◌then◌else◌, arith, ltb, Bool-cases, inl, inr, ok, ==_refl,
}
use submission_triage.Model.Submission.{Time}
use submission_triage.Repository.Outbox.{
  OutboxEntry, Fresh, gone, undecodable, found, select_due, list_pending,
}
use submission_triage.Service.World.{
  World, Env, modify, pure, best_effort, ◌>>=◌, ◌>>◌, when, release_dispatch,
}
use submission_triage.Model.Reply.{Reply}
use submission_triage.Service.Frame.{claim_dispatch-step, release_claim}
use submission_triage.Service.Dispatch.{
  record_email, record_reply_time, deliver, mark, set_status, send_failed, deliver_row, reread,
  deliver_fresh, claim_and_redeliver, redeliver_all, list_due, blocked_submissions, redeliver_one,
  redeliver_outbox,
}
use submission_triage.Service.Dispatch.Attempts.{
  Sweeps->>=, AttemptsLeft, bury_poison-AttemptsLeft, Sweeps, Sweeps-at, Sweeps->>,
  Sweeps-best_effort, Sweeps-call, marking, setting, pure-Sweeps, sweeping,
}

deliver-Sweeps :
    (most : ℕ) (env : Env) (reply : Reply) (sid : Text) → Sweeps most (deliver env reply sid)
unfolding deliver record_email record_reply_time
deliver-Sweeps most env reply sid = search sweeping depth 20

mark-Sweeps : (most : ℕ) (id : Text) (version : Time) → Sweeps most (mark id version)
unfolding mark
mark-Sweeps most id version =
    Sweeps-best_effort most _ (Sweeps-call most _ (marking most id version))

set_status-Sweeps :
    (most : ℕ) (row : OutboxEntry) (again : Bool)
    → (not again || ltb (row.attempts + 1) most) ≡ true
    → Sweeps most (set_status row again)
unfolding set_status
set_status-Sweeps most row again h =
    Sweeps-best_effort most _ (Sweeps-call most _ (setting most row again h))

send_failed-Sweeps :
    (env : Env) (row : OutboxEntry) → Sweeps env.outbox_max_attempts (send_failed env row)
unfolding send_failed
send_failed-Sweeps env row = elim (Bool-cases (ltb (row.attempts + 1) env.outbox_max_attempts)) [
  | inl e ↦ simp e (set_status-Sweeps env.outbox_max_attempts row true e)
  | inr e ↦
      let most = env.outbox_max_attempts in
      simp e (Sweeps->> most _ _ (set_status-Sweeps most row false refl) (search sweeping depth 20))
]

deliver_row-Sweeps :
    (env : Env) (row : OutboxEntry) → Sweeps env.outbox_max_attempts (deliver_row env row)
unfolding deliver_row
deliver_row-Sweeps env row =
    search (sweeping, deliver-Sweeps, mark-Sweeps, send_failed-Sweeps) depth 20

reread-Sweeps : (most : ℕ) (id : Text) → Sweeps most (reread id)
unfolding reread
reread-Sweeps most id = search sweeping depth 20

deliver_fresh-Sweeps :
    (env : Env) (fresh : Fresh) → Sweeps env.outbox_max_attempts (deliver_fresh env fresh)
unfolding deliver_fresh
deliver_fresh-Sweeps env gone = pure-Sweeps env.outbox_max_attempts tt
deliver_fresh-Sweeps env undecodable = pure-Sweeps env.outbox_max_attempts tt
deliver_fresh-Sweeps env (found row) = deliver_row-Sweeps env row

redeliver_one-store :
    (env : Env) (row : OutboxEntry) (w : World)
    → AttemptsLeft env.outbox_max_attempts w.outbox
    → AttemptsLeft env.outbox_max_attempts (redeliver_one env row w).1.outbox
      × ((redeliver_one env row w).1.dispatching
          ≡ keep_if (λ x. not (x == row.submission_id)) w.dispatching)
unfolding redeliver_one best_effort ◌>>◌ ◌>>=◌ release_dispatch modify
redeliver_one-store env row w left =
    let most = env.outbox_max_attempts in
    let m = reread row.id >>= deliver_fresh env in
    let h =
      Sweeps-at most m w
        (Sweeps->>= most (reread row.id) (deliver_fresh env) (reread-Sweeps most row.id)
          (deliver_fresh-Sweeps env))
        left in
    (h.0, ap (λ ids. keep_if (λ x. not (x == row.submission_id)) ids) h.1)

skipped :
    (row : OutboxEntry) (env : Env) (w : World)
    → AttemptsLeft env.outbox_max_attempts w.outbox
    → let out = when false (redeliver_one env row) w in
      AttemptsLeft env.outbox_max_attempts out.1.outbox × (out.1.dispatching ≡ w.dispatching)
unfolding when pure
skipped row env w left = (left, refl)

taken :
    (env : Env) (row : OutboxEntry) (w : World)
    → AttemptsLeft env.outbox_max_attempts w.outbox
    → contains w.dispatching row.submission_id ≡ false
    → let out =
        when true
          (redeliver_one env row)
          (record w { dispatching = row.submission_id ∷ w.dispatching }) in
      AttemptsLeft env.outbox_max_attempts out.1.outbox × (out.1.dispatching ≡ w.dispatching)
unfolding when
taken env row w left free =
    let claimed = record w { dispatching = row.submission_id ∷ w.dispatching } in
    let (after, released) = redeliver_one-store env row claimed left in
    (
      after,
      released
          ∙ ground
              (arith, ==_refl row.submission_id, release_claim row.submission_id w.dispatching),
    )

claim_and_redeliver-Sweeps :
    (env : Env) (row : OutboxEntry) → Sweeps env.outbox_max_attempts (claim_and_redeliver env row)
unfolding Sweeps claim_and_redeliver
claim_and_redeliver-Sweeps env row w left =
    rw (claim_dispatch-step row.submission_id (λ claimed. when claimed (redeliver_one env row)) w)
      (go (contains w.dispatching row.submission_id) refl)
  where
    go :
        (b : Bool)
        → contains w.dispatching row.submission_id ≡ b
        → let out =
            if b
            then when false (redeliver_one env row) w
            else when true
                (redeliver_one env row)
                (record w { dispatching = row.submission_id ∷ w.dispatching }) in
          AttemptsLeft env.outbox_max_attempts out.1.outbox × (out.1.dispatching ≡ w.dispatching)
    go true e = skipped row env w left
    go false e = taken env row w left e

redeliver_all-Sweeps :
    (env : Env) (blocked : List Text) (rows : List OutboxEntry)
    → Sweeps env.outbox_max_attempts (redeliver_all env blocked rows)
unfolding redeliver_all
redeliver_all-Sweeps env blocked [] = pure-Sweeps env.outbox_max_attempts tt
redeliver_all-Sweeps env blocked (row ∷ rows) =
    search (sweeping, claim_and_redeliver-Sweeps, redeliver_all-Sweeps env blocked rows) depth 20

listing :
    (env : Env)
    → Sweeps env.outbox_max_attempts (λ w.
      let (rows, outbox) = list_pending w.now env.outbox_retry_after env.outbox_batch w.outbox in
      (ok rows, record w { outbox = outbox }))
unfolding Sweeps list_pending
listing env w left = (
  bury_poison-AttemptsLeft env.outbox_max_attempts w.now
      (select_due w.now env.outbox_retry_after env.outbox_batch w.outbox) w.outbox left,
  refl,
)

list_due-Sweeps : (env : Env) → Sweeps env.outbox_max_attempts (list_due env)
unfolding list_due
list_due-Sweeps env = Sweeps-call env.outbox_max_attempts _ (listing env)

blocked_submissions-Sweeps :
    (most : ℕ) (rows : List OutboxEntry) → Sweeps most (blocked_submissions rows)
unfolding blocked_submissions
blocked_submissions-Sweeps most rows = search sweeping depth 20

redeliver_outbox-Sweeps : (env : Env) → Sweeps env.outbox_max_attempts (redeliver_outbox env)
unfolding redeliver_outbox
redeliver_outbox-Sweeps env =
    search (sweeping, list_due-Sweeps, blocked_submissions-Sweeps, redeliver_all-Sweeps) depth 20

-- A sweep of the outbox gives back every claim that it takes, and no row that is pending after it
-- has used up its attempts, if none had before, however the calls and the sends end.
pub redeliver_outbox-AttemptsLeft :
    (env : Env) (w : World)
    → AttemptsLeft env.outbox_max_attempts w.outbox
    → AttemptsLeft env.outbox_max_attempts (redeliver_outbox env w).1.outbox
      × ((redeliver_outbox env w).1.dispatching ≡ w.dispatching)
redeliver_outbox-AttemptsLeft env w left =
    Sweeps-at env.outbox_max_attempts (redeliver_outbox env) w (redeliver_outbox-Sweeps env) left
