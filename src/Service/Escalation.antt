-- ===== src/Service/Escalation.antt =====
-- internal/service/submissions.go: the sweeps that escalate and close submissions gone quiet.
-- The worker that calls them catches a panic and logs an error; both sweeps stop at their first one.
-- A time before the epoch is 0, which no stored time is before.
pub mod Quiet
use submission_triage.Prelude.{
  ℕ, ◌+◌, ◌-◌, ◌*◌, ◌/◌, Bool, true, false, ◌&&◌, ◌||◌, not, Option, none, some, List, [], ◌∷◌,
  Text, text_eq, contains, if◌then◌else◌, is_empty, ltb, leb, Result, ok, err,
}
use submission_triage.Model.Submission.{
  Time, TransitionError, escalated, closed, Submission, transition_to,
}
use submission_triage.Model.Checklist.{Checklist, broker_actionable}
use submission_triage.Model.Digest.{hour, day}
use submission_triage.Repository.Submissions.{
  list_stale, list_bind_soon, list_stalled_before, list_completed_before, list_escalated_since,
}
use submission_triage.Service.World.{
  World, Event, Error, M, pure, gets, attempt, call, ◌>>=◌, ◌>>◌, Env, audit,
}
use submission_triage.Service.Threads.{get_checklist}
use submission_triage.Service.Ingest.{store_submission}

-- cfg.Escalation; 0 stands for what is not positive.
pub record Schedule : Type 0 where
  pub threshold : ℕ
  pub bind_window : ℕ
  pub min_gap : ℕ
  pub bind_grace : ℕ
  pub auto_close_after : ℕ
  pub awaiting_auto_close_after : ℕ

-- `sweepBatch`
abbrev pub sweep_batch : ℕ
sweep_batch = 100

-- The loop over the checklists.
unfoldable pub min_threshold : List Checklist → ℕ → ℕ
min_threshold [] least = least
min_threshold (c ∷ cs) least =
    let t = c.escalation.threshold_hours * hour in
    min_threshold cs (if ltb 0 t && ltb t least then t else least)

checklist_threshold : Option Checklist → ℕ → ℕ
checklist_threshold none threshold = threshold
checklist_threshold (some cl) threshold =
    if ltb 0 cl.escalation.threshold_hours then cl.escalation.threshold_hours * hour else threshold

unfoldable pub threshold_for : Env → Schedule → Submission → ℕ
unfolding checklist_threshold
threshold_for env sch s =
    checklist_threshold (get_checklist s.policy_type env.checklists) sch.threshold

-- Whether the transaction went well is what the caller looks at.
unfoldable pub audit_stored : Text → Event → Result Error (Unit {0}) → M Bool
audit_stored id event (err e) = pure false
audit_stored id event (ok u) = audit id event >> pure true

unfoldable pub store_moved : Event → Submission → M Bool
unfolding audit_stored
store_moved event s = attempt (store_submission s) >>= audit_stored s.id event

unfoldable pub escalate_to : Time → Result TransitionError Submission → M Bool
unfolding store_moved
escalate_to now (err e) = pure false
escalate_to now (ok s) = store_moved Event.escalated (record s { last_escalated_at = some now })

-- `escalate`
unfoldable pub escalate : Time → Submission → M Bool
unfolding escalate_to
escalate now s =
    if is_empty (broker_actionable s.missing_items)
    then pure false
    else escalate_to now (transition_to escalated now s)

-- The pass over the stale submissions, with the ids that were escalated.
unfoldable pub quiet_pass : Env → Schedule → Time → List Submission → List Text → M (List Text)
unfolding escalate threshold_for
quiet_pass env sch now [] ids = pure ids
quiet_pass env sch now (s ∷ subs) ids =
    if ltb now (s.last_action_at + threshold_for env sch s)
    then quiet_pass env sch now subs ids
    else escalate now s >>= λ moved. quiet_pass env sch now subs (if moved then s.id ∷ ids else ids)

abbrev nudged_within : ℕ → Time → Option Time → Bool
nudged_within gap now none = false
nudged_within gap now (some at) = ltb now (at + gap)

-- The pass over the submissions whose effective date is near.
unfoldable pub bind_pass : Schedule → Time → List Text → List Submission → M (Unit {0})
unfolding escalate
bind_pass sch now ids [] = pure tt
bind_pass sch now ids (s ∷ subs) =
    if contains ids s.id || nudged_within sch.min_gap now s.last_escalated_at
    then bind_pass sch now ids subs
    else escalate now s >> bind_pass sch now ids subs

unfoldable pub check_bind_window : Schedule → Time → List Text → M (Unit {0})
unfolding bind_pass
check_bind_window sch now ids =
    let floor = (now - sch.bind_grace) / day * day in
    if leb sch.bind_window 0
    then pure tt
    else call (gets λ w. list_bind_soon floor (now + sch.bind_window) sweep_batch w.tables)
      >>= bind_pass sch now ids

-- `CheckEscalations`
unfoldable pub check_escalations : Env → Schedule → M (Unit {0})
unfolding quiet_pass check_bind_window min_threshold
check_escalations env sch = gets (λ w. w.now) >>= λ now.
    call (gets λ w. list_stale (now - min_threshold env.checklists sch.threshold) 100 w.tables)
    >>= λ stale. quiet_pass env sch now stale [] >>= check_bind_window sch now

unfoldable pub close_to : Result TransitionError Submission → M Bool
unfolding store_moved
close_to (err e) = pure false
close_to (ok s) = store_moved Event.closed s

-- `closeQuiet`; nothing looks at its outcome.
unfoldable pub close_quiet : Time → Submission → M Bool
unfolding close_to
close_quiet now s = close_to (transition_to closed now s)

unfoldable pub close_each : Time → List Submission → M (Unit {0})
unfolding close_quiet
close_each now [] = pure tt
close_each now (s ∷ subs) = close_quiet now s >> close_each now subs

unfoldable pub close_escalated : Schedule → Time → List Submission → M (Unit {0})
unfolding close_quiet
close_escalated sch now [] = pure tt
close_escalated sch now (s ∷ subs) =
    if ltb now (s.last_action_at + sch.auto_close_after)
    then close_escalated sch now subs
    else close_quiet now s >> close_escalated sch now subs

-- `closeSettled`
unfoldable pub close_settled : Schedule → Time → M (Unit {0})
unfolding close_each close_escalated
close_settled sch now =
    call (gets λ w. list_completed_before (now - sch.auto_close_after) sweep_batch w.tables)
    >>= close_each now
    >> (call (gets λ w. list_escalated_since 0 500 w.tables) >>= close_escalated sch now)

unfoldable pub close_stalled : Schedule → Time → M (Unit {0})
unfolding close_each
close_stalled sch now =
    if leb sch.awaiting_auto_close_after 0
    then pure tt
    else call
        (gets λ w. list_stalled_before (now - sch.awaiting_auto_close_after) sweep_batch w.tables)
      >>= close_each now

-- `CheckClosures`
unfoldable pub check_closures : Schedule → M (Unit {0})
unfolding close_settled close_stalled
check_closures sch = gets (λ w. w.now) >>= λ now.
    (if ltb 0 sch.auto_close_after then close_settled sch now else pure tt) >> close_stalled sch now
