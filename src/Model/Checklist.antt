-- ===== src/Model/Checklist.antt =====
-- internal/model/checklist.go: which required documents a submission is still missing.
-- The map of buckets is an association list. strconv is a parameter.
pub mod Buckets
pub mod Satisfied
pub mod Routing
use submission_triage.Prelude.{
  ℕ, Bool, true, false, ◌&&◌, ◌||◌, not, Option, none, some, List, [], ◌∷◌, ◌++◌, Text, codes,
  Comparable, ◌==◌, Float, finite, infinity, neg_infinity, nan, float_zero, float_lt, float_max,
  if◌then◌else◌, is_empty, text_eq, trim_space, any, keep_if, ℤ,
}
use submission_triage.Model.Submission.{
  Reason, not_provided, low_confidence, unreadable, field_shortfall, encrypted, missing_attachment,
  policy_unknown, MissingItem, Document, Value,
}

pub data FieldType : Type 0 where
  number string : FieldType
  other : Text → FieldType

pub record RequiresField : Type 0 where
  pub name : Text
  pub type : FieldType
  pub min_value : Option Float
  pub unit : Text

pub record MatchRules : Type 0 where
  pub filename_patterns : List Text
  pub content_keywords : List Text

pub record RequiredItem : Type 0 where
  pub id : Text
  pub description : Text
  pub rules : MatchRules
  pub requires_field : Option RequiresField

pub record EscalationPolicy : Type 0 where
  pub threshold_hours : ℕ
  pub digest_recipient : Text

pub record Checklist : Type 0 where
  pub name : Text
  pub policy_type : Text
  pub required : List RequiredItem
  pub escalation : EscalationPolicy

-- What the code takes from package strconv: ParseFloat at 64 bits, with `none` for its error, and
-- FormatFloat in plain decimal.
pub record Strconv : Type 0 where
  pub parse_float : Text → Option Float
  pub format_float : Float → Text

reason_not_provided_text : Text
reason_not_provided_text = codes "document not provided"

reason_low_confidence_text : Text
reason_low_confidence_text = codes "received but not confidently identified"

reason_unreadable_text : Text
reason_unreadable_text = codes "received but no readable text (appears scanned)"

reason_encrypted_text : Text
reason_encrypted_text = codes "received but password-protected (cannot open)"

unfoldable pub policy_unknown_item : MissingItem
policy_unknown_item = record {
  id = codes "policy_unknown";
  description = codes "Policy type not yet determined";
  reason = codes "awaiting clarification from sender";
  code = policy_unknown;
  confidence = float_zero;
}

-- The case list of `RequiresReview`.
abbrev pub is_review : Reason → Bool
is_review unreadable = true
is_review low_confidence = true
is_review _ = false

unfoldable pub requires_review : List MissingItem → Bool
requires_review missing = any (λ m. is_review m.code) missing

-- The case list of `BrokerActionable`.
abbrev pub is_actionable : Reason → Bool
is_actionable not_provided = true
is_actionable field_shortfall = true
is_actionable encrypted = true
is_actionable missing_attachment = true
is_actionable policy_unknown = true
is_actionable _ = false

unfoldable pub broker_actionable : List MissingItem → List MissingItem
broker_actionable missing = keep_if (λ m. is_actionable m.code) missing

pub record ItemDocs : Type 0 where
  pub qualifying : List Document
  pub unreadable : Bool
  pub encrypted : Bool
  pub low_confidence : Bool
  pub top_confidence : Float

abbrev pub no_docs : ItemDocs
no_docs = record {
  qualifying = [];
  unreadable = false;
  encrypted = false;
  low_confidence = false;
  top_confidence = float_zero;
}

abbrev pub ByItem : Type 0
ByItem = List (Text × ItemDocs)

pub find_bucket : Text → ByItem → Option ItemDocs
find_bucket id [] = none
find_bucket id ((k, b) ∷ m) = let rest = find_bucket id m in if k == id then some b else rest

-- The bucket of `id`, made if it is not there, changed in place.
pub change_bucket : Text → (ItemDocs → ItemDocs) → ByItem → ByItem
change_bucket id f [] = (id, f no_docs) ∷ []
change_bucket id f ((k, b) ∷ m) =
    let rest = change_bucket id f m in if k == id then (k, f b) ∷ m else (k, b) ∷ rest

-- The switch of the loop over the documents.
pub add_to_bucket : Float → Document → ItemDocs → ItemDocs
add_to_bucket floor d b =
    if d.encrypted
    then record b { encrypted = true }
    else if d.unreadable
    then record b { unreadable = true }
    else if float_lt d.confidence floor
    then record b {
      low_confidence = true;
      top_confidence = float_max b.top_confidence d.confidence;
    }
    else record b { qualifying = b.qualifying ++ d ∷ [] }

pub bucket_docs : Float → List Document → ByItem → ByItem
bucket_docs floor [] m = m
bucket_docs floor (d ∷ ds) m = bucket_docs floor ds (
    if is_empty d.classified_as then m else change_bucket d.classified_as (add_to_bucket floor d) m)

missing_item : RequiredItem → Text → Reason → Float → MissingItem
missing_item item reason code confidence = record {
  id = item.id;
  description = item.description;
  reason = reason;
  code = code;
  confidence = confidence;
}

pub unsatisfied_item : RequiredItem → Option ItemDocs → MissingItem
unfolding missing_item reason_not_provided_text reason_low_confidence_text reason_unreadable_text
    reason_encrypted_text
unsatisfied_item item none = missing_item item reason_not_provided_text not_provided float_zero
unsatisfied_item item (some b) =
    if b.encrypted
    then missing_item item reason_encrypted_text encrypted float_zero
    else if b.unreadable
    then missing_item item reason_unreadable_text unreadable float_zero
    else if b.low_confidence
    then missing_item item reason_low_confidence_text low_confidence b.top_confidence
    else missing_item item reason_not_provided_text not_provided float_zero

-- NaN and the infinities are no values.
finite_only : Float → Option Float
finite_only (finite x) = some (finite x)
finite_only _ = none

-- A numeric type of Go is `number`.
pub numeric_value : Strconv → Value → Option Float
unfolding finite_only
numeric_value conv (Value.number f) = finite_only f
numeric_value conv (Value.string s) = elim (conv.parse_float (trim_space s)) [
  | none ↦ none
  | some f ↦ finite_only f
]
numeric_value conv _ = none

unconfirmed_reason : Text → Text
unconfirmed_reason unit =
    if is_empty unit
    then codes "could not confirm the required detail on this document"
    else codes "could not confirm the number of " ++ unit ++ codes " covered"

shortfall_reason : Strconv → Text → Float → Float → Text
shortfall_reason conv unit have need =
    if is_empty unit
    then codes "only "
      ++ conv.format_float have
      ++ codes " provided, need at least "
      ++ conv.format_float need
    else codes "covers only "
      ++ conv.format_float have
      ++ codes " "
      ++ unit
      ++ codes ", need at least "
      ++ conv.format_float need

pub field_of : Text → List (Text × Value) → Option Value
field_of name [] = none
field_of name ((k, v) ∷ fs) = let rest = field_of name fs in if k == name then some v else rest

-- The three results of `evaluateField`.
pub record Verdict : Type 0 where
  pub reason : Text
  pub passed : Bool
  pub ran : Bool

abbrev soft_pass : Verdict
soft_pass = record { reason = []; passed = true; ran = false }

abbrev pass : Verdict
pass = record { reason = []; passed = true; ran = true }

fail : Text → Verdict
fail reason = record { reason = reason; passed = false; ran = true }

pub evaluate_value : Strconv → RequiresField → Value → Verdict
unfolding fail unconfirmed_reason shortfall_reason
evaluate_value conv rf Value.null = fail (unconfirmed_reason rf.unit)
evaluate_value conv rf raw = elim rf.min_value [
  | some least ↦ elim (numeric_value conv raw) [
    | none ↦ fail (unconfirmed_reason rf.unit)
    | some f ↦ if float_lt f least then fail (shortfall_reason conv rf.unit f least) else pass
  ]
  | none ↦ elim rf.type [
    | FieldType.number ↦ elim (numeric_value conv raw) [
      | none ↦ fail (unconfirmed_reason rf.unit)
      | some f ↦ pass
    ]
    | _ ↦ pass
  ]
]

pub evaluate_field : Strconv → RequiresField → Document → Verdict
unfolding evaluate_value
evaluate_field conv rf doc = elim doc.extracted_fields [
  | none ↦ soft_pass
  | some fields ↦ elim (field_of rf.name fields) [
    | none ↦ soft_pass
    | some raw ↦ evaluate_value conv rf raw
  ]
]

-- The loop over the qualifying documents, on `failed` and `failReason`; `none` is an affirmed
-- document and the break.
pub scan_field : Strconv → RequiresField → List Document → Bool → Text → Option (Bool × Text)
scan_field conv rf [] failed reason = some (failed, reason)
scan_field conv rf (d ∷ ds) failed reason =
    let v = evaluate_field conv rf d in
    let rest =
      scan_field conv rf ds (failed || not v.passed) (if v.passed then reason else v.reason) in
    if v.passed && v.ran then none else rest

-- The body of the loop over the required items: the item as missing, if it is.
pub check_field : Strconv → RequiredItem → List Document → Option MissingItem
unfolding scan_field missing_item
check_field conv item docs = elim item.requires_field [
  | none ↦ none
  | some rf ↦ elim (scan_field conv rf docs false []) [
    | none ↦ none
    | some (failed, reason) ↦
        if failed then some (missing_item item reason field_shortfall float_zero) else none
  ]
]

pub check_item : Strconv → ByItem → RequiredItem → Option MissingItem
unfolding find_bucket unsatisfied_item check_field
check_item conv m item = elim (find_bucket item.id m) [
  | none ↦ some (unsatisfied_item item none)
  | some b ↦
      if is_empty b.qualifying
      then some (unsatisfied_item item (some b))
      else check_field conv item b.qualifying
]

pub check_items : Strconv → ByItem → List RequiredItem → List MissingItem
check_items conv m [] = []
check_items conv m (item ∷ items) =
    let rest = check_items conv m items in
    elim (check_item conv m item) [ none ↦ rest | some missing ↦ missing ∷ rest ]

unfoldable pub evaluate_checklist : Strconv → Float → List Document → Checklist → List MissingItem
unfolding bucket_docs change_bucket add_to_bucket check_items check_item evaluate_field
    numeric_value field_of
evaluate_checklist conv floor docs c = check_items conv (bucket_docs floor docs []) c.required
