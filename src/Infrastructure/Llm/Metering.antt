-- ===== src/Infrastructure/Llm/Metering.antt =====
-- internal/infrastructure/llm/anthropic.go: how many requests a call sends, and what it records.
use submission_triage.Prelude.{
  ℕ, suc, ◌+◌, ◌≤◌, ◌≡◌, refl, ◌∙◌, ltb, leb, Bool, true, false, ◌&&◌, not, Option, none, some, [],
  Text, arith, Bool-cases, inl, inr, if◌then◌else◌, is_empty, length, Result, ok, err,
}
use submission_triage.Pkg.Retry.{
  Failure, End, done, cancelled, stopped, exhausted, do_retry, calls_allowed,
}
use submission_triage.Pkg.Retry.Calls.{do_retry-CallsWithin}
use submission_triage.Infrastructure.Llm.{
  Response, Answer, broken, response, Usage, Anthropic, Net, Progress, cap_reached, set_text,
  read_response, by_status, read_answer, classify_http_status, extract_response_text, post,
  next_answer, attempt_from, attempt_call, is_capped, add_spend, Outcome, settle_call, usage_of,
  post_with_retry, send_payload, call_messages,
}

set_text-net : (p : Progress) (r : Result Failure Text) → (set_text p r).1.net ≡ p.net
unfolding set_text
set_text-net p (err e) = refl
set_text-net p (ok t) = refl

read_response-net :
    (c : Anthropic) (p : Progress) (o : Option Response) → (read_response c p o).1.net ≡ p.net
unfolding read_response
read_response-net c p none = refl
read_response-net c p (some parsed) =
    set_text-net
      (record p { input_tokens = parsed.input_tokens; output_tokens = parsed.output_tokens })
      (extract_response_text c.encode parsed)

by_status-net :
    (c : Anthropic) (p : Progress) (body : Text) (o : Option Failure)
    → (by_status c p body o).1.net ≡ p.net
unfolding by_status
by_status-net c p body (some e) = refl
by_status-net c p body none = read_response-net c p (c.decode body)

read_answer-net : (c : Anthropic) (p : Progress) (a : Answer) → (read_answer c p a).1.net ≡ p.net
unfolding read_answer
read_answer-net c p (broken e) = refl
read_answer-net c p (response code body) =
    by_status-net c p body (classify_http_status c.decode code body)

-- After `k` calls of the function that is retried.
abbrev Sent : Net → ℕ → Net → Type 0
Sent n k n' =
    (length n'.sent ≤ length n.sent + k) × (n'.spent ≡ n.spent) × (n'.unwritable ≡ n.unwritable)

attempt_from-Sent :
    (c : Anthropic) (payload : Text) (n : Net) (k : ℕ) (o : Option Text) (p : Progress)
    → Sent n k p.net
    → Sent n (suc k) (attempt_from c payload o p).1.net
unfolding attempt_from post
attempt_from-Sent c payload n k (some e) p h = (omega arith, h.1, h.2)
attempt_from-Sent c payload n k none p h =
    rw (read_answer-net c (record p { net = post payload p.net }) (next_answer p.net.answers))
      (omega arith, h.1, h.2)

-- The cost of a call that succeeded, where the tracker takes it.
abbrev pub billed : Anthropic → Net → Outcome → ℕ
billed c n out = elim out.result [
  | ok _ ↦ if c.tracked && not n.unwritable then out.usage.cost else 0
  | err _ ↦ 0
]

-- For a client that may not spend more, and for one that may.
abbrev pub IsMetered : Bool → Anthropic → Net → Outcome → Type 0
IsMetered true c n out = (out.net ≡ n) × (out.result ≡ err cap_reached)
IsMetered false c n out =
    (length out.net.sent ≤ length n.sent + calls_allowed c.retry_attempts)
    × (out.net.spent ≡ n.spent + billed c n out)

add_spend-Sent :
    (c : Anthropic) (cost : ℕ) (n n' : Net)
    → n'.spent ≡ n.spent
    → n'.unwritable ≡ n.unwritable
    → ((add_spend c cost n').sent ≡ n'.sent)
      × ((add_spend c cost n').spent
          ≡ n.spent + (if c.tracked && not n.unwritable then cost else 0))
unfolding add_spend
add_spend-Sent c cost n n' h k = ground arith

settle_call-IsMetered :
    (c : Anthropic) (usage : Usage) (end : End) (p : Progress) (n : Net) (k : ℕ)
    → k ≤ calls_allowed c.retry_attempts
    → Sent n k p.net
    → IsMetered false c n (settle_call c usage end p)
unfolding settle_call
settle_call-IsMetered c usage done p n k few h =
    let after = add_spend-Sent c usage.cost n p.net h.1 h.2 in (rw after.0 (omega arith), after.1)
settle_call-IsMetered c usage cancelled p n k few h = (omega arith, ground arith)
settle_call-IsMetered c usage (stopped e) p n k few h = (omega arith, ground arith)
settle_call-IsMetered c usage (exhausted m e) p n k few h = (omega arith, ground arith)

post_with_retry-IsMetered :
    (c : Anthropic) (payload prompt : Text) (n : Net)
    → IsMetered false c n (post_with_retry c payload prompt n)
unfolding post_with_retry attempt_call
post_with_retry-IsMetered c payload prompt n =
    let p : Progress = record { net = n; input_tokens = 0; output_tokens = 0; text = [] } in
    let run = do_retry c.rounds c.retry_attempts c.retry_base (attempt_call c payload) p in
    let (k, (few, h)) =
      do_retry-CallsWithin c.rounds c.retry_attempts c.retry_base (attempt_call c payload)
        (λ k p. Sent n k p.net) (λ k p h. attempt_from-Sent c payload n k c.bad_endpoint p h) p
        (omega arith, refl, refl) in
    settle_call-IsMetered c (usage_of c prompt run.state) run.end run.state n k few h

send_payload-IsMetered :
    (c : Anthropic) (payload : Option Text) (prompt : Text) (n : Net)
    → IsMetered false c n (send_payload c payload prompt n)
unfolding send_payload
send_payload-IsMetered c none prompt n = (omega arith, ground arith)
send_payload-IsMetered c (some payload) prompt n = post_with_retry-IsMetered c payload prompt n

-- A cap is set and tracked, and the spend that is read for today has reached it.
abbrev pub has_reached_cap : Anthropic → Net → Bool
has_reached_cap c n =
    (ltb 0 c.daily_cap && c.tracked) && (not n.unreadable && leb c.daily_cap n.spent)

is_capped-same : (c : Anthropic) (n : Net) → is_capped c n ≡ has_reached_cap c n
unfolding is_capped
is_capped-same c n = refl

-- With an API key, a call that finds the day's recorded spend at the cap is refused with the error
-- that says so, and sends and records nothing. Any other call sends at most as many requests as the
-- retries allow, and the recorded spend of the day grows by the cost of the call where it succeeds
-- and a tracker takes it, and by nothing otherwise.
pub call_messages-IsMetered :
    (c : Anthropic) (payload : Option Text) (prompt : Text) (n : Net)
    → is_empty c.api_key ≡ false
    → IsMetered (has_reached_cap c n) c n (call_messages c payload prompt n)
unfolding call_messages
call_messages-IsMetered c payload prompt n key = elim (Bool-cases (has_reached_cap c n)) [
  | inl e ↦ simp (key, is_capped-same c n ∙ e) (refl, refl)
  | inr e ↦ simp (key, is_capped-same c n ∙ e) (send_payload-IsMetered c payload prompt n)
]
