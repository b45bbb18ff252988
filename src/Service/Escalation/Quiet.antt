-- ===== src/Service/Escalation/Quiet.antt =====
-- internal/service/submissions.go: what the sweeps over submissions gone quiet leave alone.
use mathlib.Core.Path.{subst}
use submission_triage.Prelude.{
  ◌≡◌, refl, sym, Bool, true, false, ◌&&◌, some, List, [], ◌∷◌, Text, text_eq, ◌==◌, if◌then◌else◌,
  is_empty, arith, Bool-cases, Option-cases, inl, inr, Result, ok, err, All,
}
use submission_triage.Model.Submission.{
  Time, TransitionError, state_eq, escalated, closed, Submission, transition_to,
}
use submission_triage.Model.Checklist.{broker_actionable}
use submission_triage.Repository.Submissions.{upsert_submission}
use submission_triage.Repository.Submissions.Rows.{upsert_submission_row}
use submission_triage.Repository.Submissions.Kept.{upsert_submission-rows}
use submission_triage.Service.World.{
  World, Event, Error, M, pure, raise, gets, attempt, call, audit, ◌>>=◌, ◌>>◌, Env, next_fault,
}
use submission_triage.Service.Frame.{Keeps, Keeps-pure, Keeps-gets, Keeps-call, Keeps-audit}
use submission_triage.Service.Ingest.{store_submission}
use submission_triage.Service.Ingest.Settled.{SameSends}
use submission_triage.Service.Escalation.{
  Schedule, escalate, escalate_to, audit_stored, store_moved, quiet_pass, bind_pass,
  check_bind_window, check_escalations, close_to, close_quiet, close_each, close_escalated,
  close_settled, close_stalled, check_closures,
}

-- Escalated, with nothing that its broker could act on.
abbrev pub is_stuck : Submission → Bool
is_stuck s = s.state == escalated && is_empty (broker_actionable s.missing_items)

abbrev pub NoneStuck : List Submission → Type 0
NoneStuck rows = All (λ s. is_stuck s ≡ false) rows

record QuietStep (w w' : World) : Type 0 where
  pub sends : SameSends w w'
  pub moves : NoneStuck w.tables.submissions → NoneStuck w'.tables.submissions

QuietStep-trans : (u v w : World) → QuietStep u v → QuietStep v w → QuietStep u w
QuietStep-trans u v w p q = record {
  sends = let a = p.sends in let b = q.sends in ground arith;
  moves = λ h. q.moves (p.moves h);
}

unfoldable Sweeping : {A : Type 0} → M A → Type 0
Sweeping m = (w : World) → QuietStep w (m w).1

Keeps-Sweeping : {A : Type 0} (m : M A) → Keeps m → Sweeping m
unfolding Keeps Sweeping
Keeps-Sweeping m h w = record {
  sends = let k = h w in ground arith;
  moves = λ left. subst (λ t. NoneStuck t.submissions) (sym (h w).tables) left;
}

Sweeping->>= :
    {A B : Type 0} (m : M A) (f : A → M B)
    → Sweeping m
    → ((a : A) → Sweeping (f a))
    → Sweeping (m >>= f)
unfolding Sweeping ◌>>=◌
Sweeping->>= {A} {B} m f hm hf w = go (m w).0 (m w).1 (hm w)
  where
    go :
        (r : Result Error A) (w' : World)
        → QuietStep w w'
        → QuietStep w
            (elim r as (λ _. Result Error B × World) [ ok a ↦ f a w' | err e ↦ (err e, w') ]).1
    go (ok a) w' h = QuietStep-trans w w' (f a w').1 h (hf a w')
    go (err e) w' h = h

Sweeping->> : {A B : Type 0} (m : M A) (k : M B) → Sweeping m → Sweeping k → Sweeping (m >> k)
unfolding ◌>>◌
Sweeping->> m k hm hk = Sweeping->>= m (λ _. k) hm (λ _. hk)

Sweeping-if :
    {A : Type 0} (b : Bool) (m k : M A) → Sweeping m → Sweeping k → Sweeping (if b then m else k)
Sweeping-if true m k hm hk = hm
Sweeping-if false m k hm hk = hk

Sweeping-attempt : {A : Type 0} (m : M A) → Sweeping m → Sweeping (attempt m)
unfolding Sweeping attempt
Sweeping-attempt m h = h

Sweeping-pure : {A : Type 0} (a : A) → Sweeping (pure a)
Sweeping-pure a = Keeps-Sweeping (pure a) (Keeps-pure a)

Sweeping-gets : {A : Type 0} (f : World → A) → Sweeping (gets f)
Sweeping-gets f = Keeps-Sweeping (gets f) (Keeps-gets f)

Sweeping-select : {A : Type 0} (f : World → A) → Sweeping (call (gets f))
Sweeping-select f = Keeps-Sweeping (call (gets f)) (Keeps-call (gets f) (Keeps-gets f))

Sweeping-audit : (id : Text) (event : Event) → Sweeping (audit id event)
Sweeping-audit id event = Keeps-Sweeping (audit id event) (Keeps-audit id event)

upsert_submission_row-NoneStuck :
    (now : Time) (s : Submission) (rows : List Submission)
    → is_stuck s ≡ false
    → NoneStuck rows
    → NoneStuck (upsert_submission_row now s rows)
unfolding upsert_submission_row
upsert_submission_row-NoneStuck now s [] h left = (h, tt)
upsert_submission_row-NoneStuck now s (r ∷ rows) h left =
    let rest = upsert_submission_row-NoneStuck now s rows h left.1 in
    elim (Bool-cases (r.id == s.id)) [ inl e ↦ simp e (h, left.1) | inr e ↦ simp e (left.0, rest) ]

store_submission-Sweeping : (s : Submission) → is_stuck s ≡ false → Sweeping (store_submission s)
unfolding Sweeping store_submission call pure raise
store_submission-Sweeping s h w = elim (Bool-cases (next_fault w.faults)) [
  | inl e ↦ simp e (record { sends = ground arith; moves = λ left. left })
  | inr e ↦ elim (Option-cases (upsert_submission w.now s w.tables)) [
    | inl n ↦ simp (e, n) (record { sends = ground arith; moves = λ left. left })
    | inr (t, n) ↦
        simp (e, n)
          (record {
            sends = ground arith;
            moves = λ left.
                rw (upsert_submission-rows w.now s w.tables t n)
                  (upsert_submission_row-NoneStuck w.now s w.tables.submissions h left);
          })
  ]
]

escalated-free :
    (now : Time) (s s' : Submission)
    → transition_to escalated now s ≡ ok s'
    → is_empty (broker_actionable s.missing_items) ≡ false
    → is_stuck s' ≡ false
unfolding transition_to
escalated-free now s s' h k = ground arith

closed-free :
    (now : Time) (s s' : Submission) → transition_to closed now s ≡ ok s' → is_stuck s' ≡ false
unfolding transition_to
closed-free now s s' h = ground arith

audit_stored-Sweeping :
    (id : Text) (event : Event) (r : Result Error (Unit {0})) → Sweeping (audit_stored id event r)
unfolding audit_stored
audit_stored-Sweeping id event (err e) = Sweeping-pure false
audit_stored-Sweeping id event (ok u) =
    Sweeping->> (audit id event) (pure true) (Sweeping-audit id event) (Sweeping-pure true)

store_moved-Sweeping :
    (event : Event) (s : Submission) → is_stuck s ≡ false → Sweeping (store_moved event s)
unfolding store_moved
store_moved-Sweeping event s h =
    Sweeping->>= (attempt (store_submission s)) (audit_stored s.id event)
      (Sweeping-attempt (store_submission s) (store_submission-Sweeping s h))
      (audit_stored-Sweeping s.id event)

escalate_to-Sweeping :
    (now : Time) (s : Submission) (r : Result TransitionError Submission)
    → transition_to escalated now s ≡ r
    → is_empty (broker_actionable s.missing_items) ≡ false
    → Sweeping (escalate_to now r)
unfolding escalate_to
escalate_to-Sweeping now s (err e) h k = Sweeping-pure false
escalate_to-Sweeping now s (ok s') h k =
    store_moved-Sweeping Event.escalated (record s' { last_escalated_at = some now })
      (escalated-free now s s' h k)

escalate-Sweeping : (now : Time) (s : Submission) → Sweeping (escalate now s)
unfolding escalate
escalate-Sweeping now s =
    let r = transition_to escalated now s in
    elim (Bool-cases (is_empty (broker_actionable s.missing_items))) [
      | inl e ↦ rw e (Sweeping-pure false)
      | inr e ↦ rw e (escalate_to-Sweeping now s r refl e)
    ]

close_to-Sweeping :
    (now : Time) (s : Submission) (r : Result TransitionError Submission)
    → transition_to closed now s ≡ r
    → Sweeping (close_to r)
unfolding close_to
close_to-Sweeping now s (err e) h = Sweeping-pure false
close_to-Sweeping now s (ok s') h = store_moved-Sweeping Event.closed s' (closed-free now s s' h)

close_quiet-Sweeping : (now : Time) (s : Submission) → Sweeping (close_quiet now s)
unfolding close_quiet
close_quiet-Sweeping now s = close_to-Sweeping now s (transition_to closed now s) refl

ruleset quieting = (
  Sweeping->>=, Sweeping->>, Sweeping-if, Sweeping-pure, Sweeping-gets, Sweeping-select,
  escalate-Sweeping, close_quiet-Sweeping,
)

quiet_pass-Sweeping :
    (env : Env) (sch : Schedule) (now : Time) (subs : List Submission) (ids : List Text)
    → Sweeping (quiet_pass env sch now subs ids)
unfolding quiet_pass
quiet_pass-Sweeping env sch now [] ids = Sweeping-pure ids
quiet_pass-Sweeping env sch now (s ∷ subs) ids =
    let after : (ids : List Text) → Sweeping (quiet_pass env sch now subs ids) =
      λ ids. quiet_pass-Sweeping env sch now subs ids in
    search (quieting, after) depth 8

bind_pass-Sweeping :
    (sch : Schedule) (now : Time) (ids : List Text) (subs : List Submission)
    → Sweeping (bind_pass sch now ids subs)
unfolding bind_pass
bind_pass-Sweeping sch now ids [] = Sweeping-pure tt
bind_pass-Sweeping sch now ids (s ∷ subs) =
    let after = bind_pass-Sweeping sch now ids subs in search (quieting, after) depth 8

check_bind_window-Sweeping :
    (sch : Schedule) (now : Time) (ids : List Text) → Sweeping (check_bind_window sch now ids)
unfolding check_bind_window
check_bind_window-Sweeping sch now ids = search (quieting, bind_pass-Sweeping) depth 8

close_each-Sweeping : (now : Time) (subs : List Submission) → Sweeping (close_each now subs)
unfolding close_each
close_each-Sweeping now [] = Sweeping-pure tt
close_each-Sweeping now (s ∷ subs) =
    let after = close_each-Sweeping now subs in search (quieting, after) depth 8

close_escalated-Sweeping :
    (sch : Schedule) (now : Time) (subs : List Submission) → Sweeping (close_escalated sch now subs)
unfolding close_escalated
close_escalated-Sweeping sch now [] = Sweeping-pure tt
close_escalated-Sweeping sch now (s ∷ subs) =
    let after = close_escalated-Sweeping sch now subs in search (quieting, after) depth 8

check_escalations-Sweeping : (env : Env) (sch : Schedule) → Sweeping (check_escalations env sch)
unfolding check_escalations
check_escalations-Sweeping env sch =
    search (quieting, quiet_pass-Sweeping, check_bind_window-Sweeping) depth 10

check_closures-Sweeping : (sch : Schedule) → Sweeping (check_closures sch)
unfolding check_closures close_settled close_stalled
check_closures-Sweeping sch =
    search (quieting, close_each-Sweeping, close_escalated-Sweeping) depth 12

-- Nothing was sent or queued, and no escalated submission lacks an item its broker could act on.
abbrev pub IsQuiet : World → World → Type 0
IsQuiet w w' = SameSends w w' × NoneStuck w'.tables.submissions

-- From a table in which each escalated submission has an item its broker could act on, a run of
-- either sweep leads to such a table, whatever calls of the repository fail, and it queues, claims,
-- drops and sends no reply.
pub sweeps-IsQuiet :
    (env : Env) (sch : Schedule) (w : World)
    → NoneStuck w.tables.submissions
    → IsQuiet w (check_escalations env sch w).1 × IsQuiet w (check_closures sch w).1
unfolding Sweeping
sweeps-IsQuiet env sch w left =
    let up = check_escalations-Sweeping env sch w in
    let down = check_closures-Sweeping sch w in
    ((up.sends, up.moves left), (down.sends, down.moves left))
