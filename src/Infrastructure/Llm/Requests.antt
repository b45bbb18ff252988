-- ===== src/Infrastructure/Llm/Requests.antt =====
-- internal/infrastructure/llm/anthropic.go: the three questions to the model and the reading of its
-- answers. What comes with an error beside the usage is left out.
use submission_triage.Prelude.{
  ℕ, suc, ◌-◌, Bool, true, false, ◌&&◌, ◌||◌, not, Option, none, some, List, [], ◌∷◌, ◌++◌, map,
  Text, codes, join, text_eq, nat_eq, ◌==◌, if◌then◌else◌, is_empty, Result, ok, err, pos, Float,
  finite, float_zero, float_lt, trim_space, to_lower,
}
use submission_triage.Model.Submission.{Value}
use submission_triage.Infrastructure.Llm.{
  Anthropic, Net, Usage, blank_usage, LlmError, Outcome, truncate, call_messages,
}

-- `maxTextSampleBytes`
abbrev max_text_sample_bytes : ℕ
max_text_sample_bytes = 2048

abbrev float_one : Float
float_one = finite (pos 1000000)

-- `clampConfidence`
unfoldable pub clamp_confidence : Float → Float
clamp_confidence (finite c) =
    if float_lt (finite c) float_zero
    then float_zero
    else if float_lt float_one (finite c)
    then float_one
    else finite c
clamp_confidence _ = float_zero

-- A tool: its name, its description, and its properties with their types.
pub record Tool : Type 0 where
  pub name : Text
  pub description : Text
  pub properties : List (Text × List Text)
  pub required : List Text

-- `anthropicRequest`, with its one user message; the tool is the one that is chosen.
pub record Request : Type 0 where
  pub model : Text
  pub max_tokens : ℕ
  pub system : Text
  pub prompt : Text
  pub tool : Option Tool

pub record Choice : Type 0 where
  pub candidate_id : Text
  pub confidence : Float
  pub reason : Text

pub record Identity : Type 0 where
  pub named_insured : Text
  pub effective_date : Text

pub record FieldAnswer : Type 0 where
  pub value : Value
  pub confidence : Float
  pub reason : Text

-- What encoding/json, strconv and fmt's %q do, none for an error, and the configured length.
pub record Codec : Type 0 where
  pub max_tokens : ℕ
  pub marshal : Request → Option Text
  pub unmarshal_choice : Text → Option Choice
  pub unmarshal_identity : Text → Option Identity
  pub unmarshal_field : Text → Option FieldAnswer
  pub parse_float : Text → Option Float
  pub quoted : Text → Text

pub record Candidate : Type 0 where
  pub id : Text
  pub description : Text

pub record ClassificationRequest : Type 0 where
  pub filename : Text
  pub content_type : Text
  pub text_sample : Text
  pub candidates : List Candidate
  pub policy_type : Text

pub record FieldExtractionRequest : Type 0 where
  pub filename : Text
  pub text_sample : Text
  pub field_name : Text
  pub field_description : Text
  pub field_type : Text

-- The text from its first opening brace on.
unfoldable pub from_brace : Text → Option Text
from_brace [] = none
from_brace (c ∷ s) = let rest = from_brace s in if c == b'{' then some (c ∷ s) else rest

abbrev pub consed : ℕ → Option Text → Option Text
consed c none = none
consed c (some s) = some (c ∷ s)

abbrev pub next_depth : Bool → ℕ → ℕ → ℕ
next_depth true c depth = depth
next_depth false c depth = if c == b'{' then suc depth else if c == b'}' then depth - 1 else depth

-- Whether the next byte stands in a string literal.
abbrev pub next_in_str : Bool → Bool → ℕ → Bool
next_in_str true escaped c = escaped || not (c == b'"')
next_in_str false escaped c = c == b'"'

abbrev pub next_escaped : Bool → Bool → ℕ → Bool
next_escaped in_str escaped c = in_str && (not escaped && c == 92)

-- The text up to the brace that closes the first one.
unfoldable pub balanced : ℕ → Bool → Bool → Text → Option Text
balanced depth in_str escaped [] = none
balanced depth in_str escaped (c ∷ s) =
    let rest =
      balanced (next_depth in_str c depth) (next_in_str in_str escaped c)
        (next_escaped in_str escaped c) s in
    if (not in_str && c == b'}') && depth == 1 then some (c ∷ []) else consed c rest

unfoldable pub first_object : Text → Option Text → Text
unfolding balanced
first_object s none = s
first_object s (some t) = elim (balanced 0 false false t) [ none ↦ s | some object ↦ object ]

-- `extractJSON`
unfoldable pub extract_json : Text → Text
unfolding first_object from_brace
extract_json s = first_object s (from_brace s)

-- An error, or an answer, with the usage and the network after the call.
pub record Reading (A : Type 0) : Type 0 where
  pub answer : Result LlmError A
  pub usage : Usage
  pub net : Net

module _ {A : Type 0} where
  read_with : (Text → Result LlmError A) → Outcome → Result LlmError Text → Reading A
  read_with f out (err e) = record { answer = err e; usage = out.usage; net = out.net }
  read_with f out (ok body) = record { answer = f body; usage = out.usage; net = out.net }

  -- The call, and the reading of what it returns.
  unfoldable ask :
      Anthropic → Codec → Text → Text → Option Tool → (Text → Result LlmError A) → Net → Reading A
  unfolding read_with
  ask c codec system prompt tool f n =
      let request : Request = record {
        model = c.model;
        max_tokens = codec.max_tokens;
        system = system;
        prompt = prompt;
        tool = tool;
      } in
      let out = call_messages c (codec.marshal request) prompt n in read_with f out out.result

-- `fmt.Sprintf("- %s: %s", cand.ID, cand.Description)`
abbrev candidate_line : Candidate → Text
candidate_line cand = codes "- " ++ cand.id ++ codes ": " ++ cand.description

abbrev newline : Text
newline = 10 ∷ []

unfoldable classify_prompt : ClassificationRequest → Text
unfolding truncate
classify_prompt req =
    codes
      "You classify insurance submission documents. Choose the candidate that best matches the document."
    ++ newline
    ++ codes "Policy type: "
    ++ req.policy_type
    ++ newline
    ++ codes "Filename: "
    ++ req.filename
    ++ newline
    ++ codes "Content type: "
    ++ req.content_type
    ++ newline
    ++ codes "Text sample:"
    ++ newline
    ++ truncate req.text_sample max_text_sample_bytes
    ++ newline
    ++ newline
    ++ codes "Candidates:"
    ++ newline
    ++ join newline (map candidate_line req.candidates)
    ++ newline
    ++ newline
    ++ codes "Return JSON: {\"candidate_id\":\"...\",\"confidence\":0.0-1.0,\"reason\":\"...\"}. "
    ++ codes "If none fit, set candidate_id to \"unknown\"."

clamped : Option Choice → Result LlmError Choice
unfolding clamp_confidence
clamped none = err LlmError.unparsable
clamped (some choice) = ok (record choice { confidence = clamp_confidence choice.confidence })

-- `Classify`
unfoldable pub classify_by_model : Anthropic → Codec → ClassificationRequest → Net → Reading Choice
unfolding ask clamped classify_prompt extract_json
classify_by_model c codec req n =
    if is_empty req.candidates
    then record { answer = err LlmError.no_candidates; usage = blank_usage; net = n }
    else ask c codec (codes "Respond with JSON only, no prose, no code fences.")
        (classify_prompt req) none (λ raw. clamped (codec.unmarshal_choice (extract_json raw))) n

abbrev field_type_of : Text → Text
field_type_of s = if to_lower s == codes "number" then codes "number" else codes "string"

-- The prompt and the tool of `buildFieldExtractionPrompt`.
unfoldable field_prompt : Codec → FieldExtractionRequest → Text → Text
unfolding truncate
field_prompt codec req field_type =
    codes "Extract the field "
    ++ codec.quoted req.field_name
    ++ codes " ("
    ++ field_type
    ++ codes ") from the following document."
    ++ newline
    ++ codes "Description: "
    ++ req.field_description
    ++ newline
    ++ codes "Filename: "
    ++ req.filename
    ++ newline
    ++ codes "Text sample:"
    ++ newline
    ++ truncate req.text_sample max_text_sample_bytes
    ++ newline
    ++ newline
    ++ codes "Call the report_field tool with the value. If the field is not present, "
    ++ codes "call the tool with a null value."

abbrev field_tool : Text → Tool
field_tool field_type = record {
  name = codes "report_field";
  description = codes "Report the extracted field value from the document.";
  properties =
      (codes "value", field_type ∷ codes "null" ∷ [])
      ∷ (codes "confidence", codes "number" ∷ [])
      ∷ (codes "reason", codes "string" ∷ [])
      ∷ [];
  required = codes "value" ∷ [];
}

number_or_null : Option Float → Value
number_or_null none = Value.null
number_or_null (some x) = Value.number x

-- A numeric text is read as the number it spells.
coerced : Codec → Bool → Value → Value
unfolding number_or_null
coerced codec true (Value.string s) = number_or_null (codec.parse_float (trim_space s))
coerced codec _ value = value

abbrev no_field : FieldAnswer
no_field = record { value = Value.null; confidence = float_zero; reason = [] }

decoded_field : Codec → Bool → Option FieldAnswer → FieldAnswer
unfolding coerced clamp_confidence
decoded_field codec is_number none = no_field
decoded_field codec is_number (some parsed) = record {
  value = coerced codec is_number parsed.value;
  confidence = clamp_confidence parsed.confidence;
  reason = parsed.reason;
}

-- `decodeFieldExtraction`; the usage is added by the caller.
unfoldable pub decode_field_extraction : Codec → Text → Text → FieldAnswer
unfolding decoded_field
decode_field_extraction codec body field_type =
    if is_empty (trim_space body)
    then no_field
    else decoded_field codec (field_type == codes "number") (codec.unmarshal_field body)

-- `ExtractField`
unfoldable pub extract_field :
    Anthropic → Codec → FieldExtractionRequest → Net → Reading FieldAnswer
unfolding ask field_prompt
extract_field c codec req n =
    let field_type = field_type_of req.field_type in
    if is_empty req.field_name
    then record { answer = err LlmError.no_field_name; usage = blank_usage; net = n }
    else ask c codec
        (codes "You extract structured fields from insurance documents. Use the report_field tool.")
        (field_prompt codec req field_type) (some (field_tool field_type))
        (λ body. ok (decode_field_extraction codec body field_type)) n

unfoldable identity_prompt : Text → Text → Text
unfolding truncate
identity_prompt filename text_sample =
    codes "From this insurance application, extract the named insured (the business or person the "
    ++ codes "policy covers) and the policy effective date."
    ++ newline
    ++ codes "Filename: "
    ++ filename
    ++ newline
    ++ codes "Text sample:"
    ++ newline
    ++ truncate text_sample max_text_sample_bytes
    ++ newline
    ++ newline
    ++ codes "Call the report_identity tool. Leave a field empty if it is not present; give the "
    ++ codes "effective date as written on the document. Do not guess."

abbrev identity_tool : Tool
identity_tool = record {
  name = codes "report_identity";
  description = codes "Report the named insured and effective date from the application.";
  properties =
      (codes "named_insured", codes "string" ∷ [])
      ∷ (codes "effective_date", codes "string" ∷ [])
      ∷ [];
  required = codes "named_insured" ∷ [];
}

abbrev no_identity : Identity
no_identity = record { named_insured = []; effective_date = [] }

trimmed_identity : Option Identity → Identity
trimmed_identity none = no_identity
trimmed_identity (some i) = record {
  named_insured = trim_space i.named_insured;
  effective_date = trim_space i.effective_date;
}

-- `decodeIdentity`; the usage is added by the caller.
unfoldable pub decode_identity : Codec → Text → Identity
unfolding trimmed_identity
decode_identity codec body =
    if is_empty (trim_space body)
    then no_identity
    else trimmed_identity (codec.unmarshal_identity body)

-- `ExtractIdentity`
unfoldable pub extract_identity : Anthropic → Codec → Text → Text → Net → Reading Identity
unfolding ask identity_prompt
extract_identity c codec filename text_sample n =
    ask c codec
      (codes
        "You extract the account identity from insurance applications. Use the report_identity tool.")
      (identity_prompt filename text_sample) (some identity_tool)
      (λ body. ok (decode_identity codec body)) n
