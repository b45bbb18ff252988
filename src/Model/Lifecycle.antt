-- ===== src/Model/Lifecycle.antt =====
-- internal/model/submission.go: what `TransitionTo` keeps, refuses and reaches.
use submission_triage.Prelude.{
  ◌≡◌, refl, ◌≢◌, ◌⊎◌, ◌↔◌, inl, inr, Option, none, Text, Result, ok, err, arith, if◌then◌else◌,
  ◌==◌,
}
use submission_triage.Model.Submission.{
  Time, State, state_eq, opened, awaiting, complete, escalated, closed, state_beq_iff, Submission,
  TransitionError, new_submission, transition_to,
}

-- The diagram of the five states, without the self loops.
infix 40 ◌⟶◌
pub data ◌⟶◌ : State → State → Type 0 where
  request_opened : opened ⟶ awaiting
  request_complete : complete ⟶ awaiting
  request_escalated : escalated ⟶ awaiting
  request_closed : closed ⟶ awaiting
  finish_opened : opened ⟶ complete
  finish_awaiting : awaiting ⟶ complete
  finish_escalated : escalated ⟶ complete
  finish_closed : closed ⟶ complete
  escalate_opened : opened ⟶ escalated
  escalate_awaiting : awaiting ⟶ escalated
  close_opened : opened ⟶ closed
  close_awaiting : awaiting ⟶ closed
  close_complete : complete ⟶ closed
  close_escalated : escalated ⟶ closed

-- The stamps that each state promises.
abbrev pub StampsAgree : State → Option Time → Option Time → Type 0
StampsAgree opened e c = (e ≡ none) × (c ≡ none)
StampsAgree awaiting e c = (e ≡ none) × (c ≡ none)
StampsAgree complete e c = (e ≡ none) × (c ≢ none)
StampsAgree escalated e c = (e ≢ none) × (c ≡ none)
StampsAgree closed e c = Unit
StampsAgree (State.other _) e c = Unit

abbrev pub IsStamped : Submission → Type 0
IsStamped s = StampsAgree s.state s.escalated_at s.completed_at

abbrev pub IsKnown : State → Type 0
IsKnown (State.other _) = ⊥
IsKnown _ = Unit

-- What an accepted transition has done. The two stamps are left open.
abbrev pub Moved : State → Time → Submission → Submission → Type 0
Moved next now s t = t ≡ record s {
  state = next;
  updated_at = now;
  last_action_at = if s.state == next then s.last_action_at else now;
  escalated_at = t.escalated_at;
  completed_at = t.completed_at;
}

-- An accepted transition sets the state and the time of the update. It sets the activity clock to
-- now if the state changes, and leaves that clock alone if it does not. Apart from the stamps of
-- the escalation and the completion it changes nothing else.
pub transition_to-Moved :
    (next : State) (now : Time) (s t : Submission)
    → transition_to next now s ≡ ok t
    → Moved next now s t
unfolding transition_to
transition_to-Moved (State.other x) now s t h =
    ground (arith, state_beq_iff s.state (State.other x))
transition_to-Moved next now s t h = ground arith

ruleset edges = (
  request_opened, request_complete, request_escalated, request_closed, finish_opened,
  finish_awaiting, finish_escalated, finish_closed, escalate_opened, escalate_awaiting,
  close_opened, close_awaiting, close_complete, close_escalated,
)

abbrev pub IsAccepted : Result TransitionError Submission → Type 0
IsAccepted (ok _) = Unit
IsAccepted (err _) = ⊥

accepted-⟶ :
    (next : State) (now : Time) (s : Submission)
    → IsAccepted (transition_to next now s)
    → (s.state ≡ next) ⊎ (s.state ⟶ next)
unfolding transition_to
accepted-⟶ next now s h = grind (arith, edges, state_beq_iff s.state next)

⟶-IsAccepted :
    {a next : State} (now : Time) (s : Submission)
    → a ⟶ next
    → s.state ≡ a
    → IsAccepted (transition_to next now s)
unfolding transition_to
⟶-IsAccepted now s request_opened e = ground arith
⟶-IsAccepted now s _ e = ground arith

same-IsAccepted :
    (next : State) (now : Time) (s : Submission)
    → s.state ≡ next
    → IsAccepted (transition_to next now s)
unfolding transition_to
same-IsAccepted next now s e = ground (arith, state_beq_iff s.state next)

-- A transition is accepted exactly when the submission is in that state already or the diagram has
-- an edge to it.
pub transition_to-IsAccepted_iff :
    (next : State) (now : Time) (s : Submission)
    → IsAccepted (transition_to next now s) ↔ ((s.state ≡ next) ⊎ (s.state ⟶ next))
transition_to-IsAccepted_iff next now s = (
  accepted-⟶ next now s,
  λ h. elim h [ inl e ↦ same-IsAccepted next now s e | inr r ↦ ⟶-IsAccepted now s r refl ],
)

new_submission-IsStamped :
    (id policy subject from name key : Text) (now : Time)
    → IsStamped (new_submission id policy subject from name key now)
unfolding new_submission
new_submission-IsStamped id policy subject from name key now = ground arith

-- Every accepted transition keeps the stamps in step with the state.
pub transition_to-IsStamped :
    (next : State) (now : Time) (s t : Submission)
    → IsStamped s
    → transition_to next now s ≡ ok t
    → IsStamped t
unfolding transition_to
transition_to-IsStamped opened now s t v h = ground arith
transition_to-IsStamped _ now s t v h = ground arith
