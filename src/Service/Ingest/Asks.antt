-- ===== src/Service/Ingest/Asks.antt =====
-- internal/service/submissions.go: a submission that gets no reply gets a human.
use mathlib.Core.Path.{subst}
use submission_triage.Prelude.{
  ◌≡◌, refl, sym, ◌∙◌, Bool, true, false, ◌&&◌, ◌||◌, not, none, List, [], ◌∷◌, arith, All,
  is_empty, Result, ok, err, if◌then◌else◌, ◌==◌,
}
use submission_triage.Model.Submission.{
  Email, MissingItem, Submission, TransitionError, state_eq, awaiting, complete, transition_to,
}
use submission_triage.Model.Checklist.{requires_review, broker_actionable}
use submission_triage.Model.Checklist.Routing.{IsRouted}
use submission_triage.Model.Lifecycle.{transition_to-Moved}
use submission_triage.Service.World.{
  World, Error, transition, raise, M, pure, ◌>>=◌, ◌>>◌, when, audit, Env, Event,
}
use submission_triage.Service.Evaluate.{build_reply, policy_clarify_exhausted, transition_state}
use submission_triage.Service.Ingest.{Assessed, assess, flag_review}

-- What holds of a method's result.
abbrev WhenOk : {A : Type 0} → (A → Type 0) → Result Error A → Type 0
WhenOk P (ok a) = P a
WhenOk P (err _) = Unit

unfoldable Yields : {A : Type 0} → (A → Type 0) → M A → Type 0
Yields P m = (w : World) → WhenOk P (m w).0

Yields-at :
    {A : Type 0} (P : A → Type 0) (m : M A) (w : World) (a : A) → Yields P m → (m w).0 ≡ ok a → P a
unfolding Yields
Yields-at P m w a h e = subst (WhenOk P) e (h w)

Yields->>= :
    {A B : Type 0} (Q : A → Type 0) (P : B → Type 0) (m : M A) (f : A → M B)
    → Yields Q m
    → ((a : A) → Q a → Yields P (f a))
    → Yields P (m >>= f)
unfolding Yields ◌>>=◌
Yields->>= {A} {B} Q P m f hm hf w = go (m w).0 (m w).1 (hm w)
  where
    go :
        (r : Result Error A) (w' : World)
        → WhenOk Q r
        → WhenOk P
            (elim r as (λ _. Result Error B × World) [ ok a ↦ f a w' | err e ↦ (err e, w') ]).0
    go (ok a) w' h = hf a h w'
    go (err e) w' h = tt

-- Any result at all.
Yields-any : {A : Type 0} (m : M A) → Yields (λ _. Unit {0}) m
unfolding Yields
Yields-any m w = go (m w).0
  where
    go : {A : Type 0} (r : Result Error A) → WhenOk (λ _. Unit {0}) r
    go (ok a) = tt
    go (err e) = tt

Yields-pure : {A : Type 0} (P : A → Type 0) (a : A) → P a → Yields P (pure a)
unfolding Yields pure
Yields-pure P a h w = h

Yields-after :
    {A B : Type 0} (P : B → Type 0) (m : M A) (f : A → M B)
    → ((a : A) → Yields P (f a))
    → Yields P (m >>= f)
Yields-after P m f hf = Yields->>= (λ _. Unit {0}) P m f (Yields-any m) (λ a _. hf a)

Yields->> : {A B : Type 0} (P : B → Type 0) (m : M A) (k : M B) → Yields P k → Yields P (m >> k)
unfolding ◌>>◌
Yields->> P m k hk = Yields-after P m (λ _. k) (λ _. hk)

-- The flag says whether the submission needs a human.
abbrev IsFlagged : Env → Submission → Type 0
IsFlagged env s =
    s.needs_review ≡ (requires_review s.missing_items || policy_clarify_exhausted env s)

flag_review-IsFlagged : (env : Env) (s : Submission) → Yields (IsFlagged env) (flag_review env s)
unfolding flag_review policy_clarify_exhausted
flag_review-IsFlagged env s =
    let flagged = requires_review s.missing_items || policy_clarify_exhausted env s in
    Yields->> (IsFlagged env) (when (flagged && not s.needs_review) (audit s.id Event.needs_review))
      (pure (record s { needs_review = flagged }))
      (Yields-pure (IsFlagged env) (record s { needs_review = flagged }) refl)

transition_state-IsFlagged :
    (env : Env) (s : Submission) → IsFlagged env s → Yields (IsFlagged env) (transition_state s)
unfolding Yields transition_state policy_clarify_exhausted raise
transition_state-IsFlagged env s h w =
    let next = if is_empty s.missing_items then complete else awaiting in
    go (transition_to next w.now s) refl
  where
    go :
        (r : Result TransitionError Submission)
        → transition_to (if is_empty s.missing_items then complete else awaiting) w.now s ≡ r
        → WhenOk
            (IsFlagged env)
            (elim r as (λ _. Result Error Submission × World) [
              | err e ↦ raise (transition e) w
              | ok t ↦
                  (when (not (s.state == t.state)) (audit s.id Event.state_transitioned) >> pure t)
                    w
            ]).0
    go (err e) k = tt
    go (ok t) k =
        let next = if is_empty s.missing_items then complete else awaiting in
        let flagged : IsFlagged env t =
          subst (IsFlagged env) (sym (transition_to-Moved next w.now s t k)) h in
        Yields->> (IsFlagged env)
          (when (not (s.state == t.state)) (audit s.id Event.state_transitioned)) (pure t)
          (Yields-pure (IsFlagged env) t flagged) w

assess-IsFlagged :
    (env : Env) (is_new : Bool) (e : Email) (s : Submission)
    → Yields (λ (a : Assessed). IsFlagged env a.submission) (assess env is_new e s)
unfolding assess
assess-IsFlagged env is_new e s =
    let P = λ (a : Assessed). IsFlagged env a.submission in
    Yields-after P _ _ (λ evaluated. Yields-after P _ _ (λ identified. Yields-after P _ _ (λ a.
      Yields->>= (IsFlagged env) P _ _ (flag_review-IsFlagged env a.submission) (λ flagged h.
        Yields->>= (IsFlagged env) P _ _ (transition_state-IsFlagged env flagged h)
          (λ moved k. Yields-pure P (record { submission = moved; unknown = a.unknown }) k)))))

unasked-requires_review :
    (xs : List MissingItem)
    → All IsRouted xs
    → is_empty xs ≡ false
    → is_empty (broker_actionable xs) ≡ true
    → requires_review xs ≡ true
unfolding requires_review broker_actionable
unasked-requires_review [] h e b = cc
unasked-requires_review (x ∷ xs) h e b = ground (arith, h.0)

no_reply :
    (env : Env) (s : Submission) (inbound : Email) (unknown : Bool)
    → All IsRouted s.missing_items
    → build_reply env s inbound unknown ≡ none
    → (requires_review s.missing_items || policy_clarify_exhausted env s) ≡ true
unfolding build_reply
no_reply env s inbound unknown h e = ground (arith, unasked-requires_review s.missing_items h)

-- If an assessment of an email leads to no reply, then the submission that it hands on, to be stored,
-- is flagged for review, when each of its missing items is either the broker's or the agency's, as
-- an evaluation makes them.
pub assess-flagged :
    (env : Env) (is_new : Bool) (inbound : Email) (s : Submission) (w : World) (a : Assessed)
    → (assess env is_new inbound s w).0 ≡ ok a
    → All IsRouted a.submission.missing_items
    → build_reply env a.submission inbound a.unknown ≡ none
    → a.submission.needs_review ≡ true
assess-flagged env is_new inbound s w a done routed unanswered =
    let flagged =
      Yields-at (λ (a : Assessed). IsFlagged env a.submission) (assess env is_new inbound s) w a
        (assess-IsFlagged env is_new inbound s) done in
    flagged ∙ no_reply env a.submission inbound a.unknown routed unanswered
