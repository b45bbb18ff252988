-- ===== src/Infrastructure/Llm.antt =====
-- internal/infrastructure/llm/anthropic.go: the call of the model's API, under the day's spend cap.
-- The answers of the server and what encoding/json reads of them are given. An amount of money is a
-- count of millionths of a dollar, and token counts are not negative. The latency is left out.
pub mod Metering
pub mod Requests
pub mod Parsing
use submission_triage.Prelude.{
  ℕ, zero, suc, ◌+◌, ◌-◌, ◌*◌, Bool, true, false, ◌&&◌, not, Option, none, some, List, [], ◌∷◌,
  ◌++◌, Text, codes, text_eq, nat_eq, ◌==◌, if◌then◌else◌, is_empty, leb, ltb, length, Result, ok,
  err,
}
use submission_triage.Pkg.TextUtil.{truncate_bytes}
use submission_triage.Pkg.Retry.{
  Failure, permanent, retryable, End, done, cancelled, stopped, exhausted, Rounds, Run, do_retry,
}

-- Dollars for a million tokens.
pub record Pricing : Type 0 where
  pub input : ℕ
  pub output : ℕ

-- `modelPricing`
unfoldable pub model_pricing : Text → Option Pricing
model_pricing model =
    if model == codes "claude-haiku-4-5"
    then some (record { input = 1; output = 5 })
    else if model == codes "claude-haiku-4-5-20251001"
    then some (record { input = 1; output = 5 })
    else if model == codes "claude-sonnet-4-6"
    then some (record { input = 3; output = 15 })
    else if model == codes "claude-opus-4-8"
    then some (record { input = 15; output = 75 })
    else none

-- A content block; the input as its JSON text, none where it is nil.
pub record Block : Type 0 where
  pub kind : Text
  pub text : Text
  pub input : Option Text

pub record Response : Type 0 where
  pub content : List Block
  pub input_tokens : ℕ
  pub output_tokens : ℕ
  -- The message of the error, where there is one.
  pub error : Option Text

-- What a request comes to: an error before or while the body was read, or a status and the body.
pub data Answer : Type 0 where
  broken : Text → Answer
  response : ℕ → Text → Answer

pub record Usage : Type 0 where
  pub model : Text
  pub prompt_hash : Text
  pub input_tokens : ℕ
  pub output_tokens : ℕ
  pub cost : ℕ

-- `Usage{}`
abbrev pub blank_usage : Usage
blank_usage = record { model = []; prompt_hash = []; input_tokens = 0; output_tokens = 0; cost = 0 }

-- The client, and what it takes from the libraries.
pub record Anthropic : Type 0 where
  pub model : Text
  pub api_key : Text
  pub daily_cap : ℕ
  -- Whether a spend tracker is given.
  pub tracked : Bool
  pub retry_attempts : ℕ
  pub retry_base : ℕ
  pub rounds : Rounds
  pub sha256 : Text → Text
  pub decode : Text → Option Response
  -- The JSON of a tool's input once more.
  pub encode : Text → Option Text
  -- http.NewRequestWithContext on the endpoint: none, or its error.
  pub bad_endpoint : Option Text

-- The network's next answers, the requests that were sent, and the day's spend.
pub record Net : Type 0 where
  pub answers : List Answer
  pub sent : List Text
  -- What the tracker has for today, and whether it can be read and written.
  pub spent : ℕ
  pub unreadable : Bool
  pub unwritable : Bool

-- The variables that a round of the retry sets, with the network.
pub record Progress : Type 0 where
  pub net : Net
  pub input_tokens : ℕ
  pub output_tokens : ℕ
  pub text : Text

pub data LlmError : Type 0 where
  no_api_key cap_reached unencodable no_candidates no_field_name unparsable : LlmError
  failed : End → LlmError

-- `truncate`
unfoldable pub truncate : Text → ℕ → Text
truncate s n = if leb (length s) n then s else truncate_bytes s n ++ codes "...[truncated]"

error_message : Option Response → Text
error_message none = []
error_message (some parsed) = elim parsed.error [ none ↦ [] | some msg ↦ msg ]

-- `classifyHTTPStatus`; the texts of errors are shortened to what tells them apart.
unfoldable pub classify_http_status : (Text → Option Response) → ℕ → Text → Option Failure
unfolding error_message
classify_http_status decode code body =
    if leb 500 code
    then some (retryable (codes "server error"))
    else if code == 429
    then some (retryable (codes "rate limited"))
    else if leb 400 code
    then some (permanent (codes "client error: " ++ error_message (decode body)))
    else none

abbrev is_tool_use : Block → Bool
is_tool_use b = b.kind == codes "tool_use"

-- The input of the first tool_use block that has one.
unfoldable pub first_tool_input : List Block → Option Text
first_tool_input [] = none
first_tool_input (b ∷ bs) =
    let rest = first_tool_input bs in
    if is_tool_use b then elim b.input [ none ↦ rest | some input ↦ some input ] else rest

unfoldable pub text_blocks : List Block → Text
text_blocks [] = []
text_blocks (b ∷ bs) =
    let rest = text_blocks bs in if b.kind == codes "text" then b.text ++ rest else rest

reencoded : Option Text → Result Failure Text
reencoded none = err (permanent (codes "re-encode tool_use"))
reencoded (some json) = ok json

tool_or_text : (Text → Option Text) → List Block → Option Text → Result Failure Text
unfolding reencoded text_blocks
tool_or_text encode blocks none = ok (text_blocks blocks)
tool_or_text encode blocks (some input) = reencoded (encode input)

-- `extractResponseText`
unfoldable pub extract_response_text : (Text → Option Text) → Response → Result Failure Text
unfolding tool_or_text first_tool_input
extract_response_text encode parsed =
    tool_or_text encode parsed.content (first_tool_input parsed.content)

-- `text, err = extractResponseText(parsed)`, which sets the text in either case.
set_text : Progress → Result Failure Text → Option Failure × Progress
set_text p (err e) = (some e, record p { text = [] })
set_text p (ok text) = (none, record p { text = text })

-- What is done with the decoded body.
read_response : Anthropic → Progress → Option Response → Option Failure × Progress
unfolding set_text extract_response_text
read_response c p none = (some (retryable (codes "decode")), p)
read_response c p (some parsed) =
    set_text (record p { input_tokens = parsed.input_tokens; output_tokens = parsed.output_tokens })
      (extract_response_text c.encode parsed)

by_status : Anthropic → Progress → Text → Option Failure → Option Failure × Progress
unfolding read_response
by_status c p body (some e) = (some e, p)
by_status c p body none = read_response c p (c.decode body)

read_answer : Anthropic → Progress → Answer → Option Failure × Progress
unfolding by_status classify_http_status
read_answer c p (broken e) = (some (retryable e), p)
read_answer c p (response code body) = by_status c p body (classify_http_status c.decode code body)

-- The next answer; a network without one is down.
next_answer : List Answer → Answer
next_answer [] = broken (codes "no answer")
next_answer (a ∷ rest) = a

rest_answers : List Answer → List Answer
rest_answers [] = []
rest_answers (a ∷ rest) = rest

-- Sending the request.
post : Text → Net → Net
unfolding rest_answers
post payload n = record n { answers = rest_answers n.answers; sent = payload ∷ n.sent }

-- The function that is retried.
unfoldable pub attempt_from : Anthropic → Text → Option Text → Progress → Option Failure × Progress
unfolding read_answer next_answer post
attempt_from c payload (some e) p = (some (permanent e), p)
attempt_from c payload none p =
    read_answer c (record p { net = post payload p.net }) (next_answer p.net.answers)

unfoldable pub attempt_call : Anthropic → Text → Progress → Option Failure × Progress
unfolding attempt_from
attempt_call c payload p = attempt_from c payload c.bad_endpoint p

unfoldable pub estimated_cost : Option Pricing → ℕ → ℕ → ℕ
estimated_cost none input output = 0
estimated_cost (some p) input output = input * p.input + output * p.output

-- Whether the cap forbids another call; a tracker that cannot be read does not.
unfoldable pub is_capped : Anthropic → Net → Bool
is_capped c n = (ltb 0 c.daily_cap && c.tracked) && (not n.unreadable && leb c.daily_cap n.spent)

-- `c.spend.Add`, whose error is dropped.
unfoldable pub add_spend : Anthropic → ℕ → Net → Net
add_spend c cost n =
    if (c.tracked && ltb 0 cost) && not n.unwritable then record n { spent = n.spent + cost } else n

pub record Outcome : Type 0 where
  pub result : Result LlmError Text
  pub usage : Usage
  pub net : Net

-- What is left to do after the retries.
unfoldable pub settle_call : Anthropic → Usage → End → Progress → Outcome
unfolding add_spend
settle_call c usage done p = record {
  result = ok p.text;
  usage = usage;
  net = add_spend c usage.cost p.net;
}
settle_call c usage end p = record { result = err (failed end); usage = usage; net = p.net }

unfoldable pub usage_of : Anthropic → Text → Progress → Usage
unfolding estimated_cost model_pricing
usage_of c prompt p = record {
  model = c.model;
  prompt_hash = c.sha256 prompt;
  input_tokens = p.input_tokens;
  output_tokens = p.output_tokens;
  cost = estimated_cost (model_pricing c.model) p.input_tokens p.output_tokens;
}

unfoldable pub post_with_retry : Anthropic → Text → Text → Net → Outcome
unfolding attempt_call usage_of settle_call
post_with_retry c payload prompt n =
    let p : Progress = record { net = n; input_tokens = 0; output_tokens = 0; text = [] } in
    let run = do_retry c.rounds c.retry_attempts c.retry_base (attempt_call c payload) p in
    settle_call c (usage_of c prompt run.state) run.end run.state

abbrev no_usage : Anthropic → Usage
no_usage c = record {
  model = c.model;
  prompt_hash = [];
  input_tokens = 0;
  output_tokens = 0;
  cost = 0;
}

abbrev refuse : Anthropic → LlmError → Net → Outcome
refuse c e n = record { result = err e; usage = no_usage c; net = n }

send_payload : Anthropic → Option Text → Text → Net → Outcome
unfolding post_with_retry
send_payload c none prompt n = refuse c unencodable n
send_payload c (some payload) prompt n = post_with_retry c payload prompt n

-- `callMessages`, on the request as json.Marshal encodes it, none where it fails.
unfoldable pub call_messages : Anthropic → Option Text → Text → Net → Outcome
unfolding is_capped send_payload
call_messages c payload prompt n =
    if is_empty c.api_key
    then refuse c no_api_key n
    else if is_capped c n
    then refuse c cap_reached n
    else send_payload c payload prompt n
