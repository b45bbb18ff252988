-- ===== src/Model/Submission.antt =====
-- internal/model: the submission with its emails, documents and missing items, and its states.
-- A `time.Time` is its Unix time in nanoseconds, and the zero time is 0.
use submission_triage.Prelude.{
  ℕ, ◌≡◌, ◌↔◌, Bool, true, false, Option, none, some, List, [], ◌∷◌, ◌++◌, Text, codes, Comparable,
  ◌==◌, contains, Float, Result, ok, err, if◌then◌else◌, arith, text_beq, text_beq_iff,
}

abbrev pub Time : Type 0
Time = ℕ

-- A Go string type: `other` is any string that is none of the constants.
pub data State : Type 0 where
  opened awaiting complete escalated closed : State
  other : Text → State

abbrev pub state_beq : State → State → Bool
state_beq opened opened = true
state_beq awaiting awaiting = true
state_beq complete complete = true
state_beq escalated escalated = true
state_beq closed closed = true
state_beq (other s) (other t) = text_beq s t
state_beq _ _ = false

pub state_beq_iff : (s t : State) → (state_beq s t ≡ true) ↔ (s ≡ t)
state_beq_iff (other s) (other t) = ground (arith, text_beq_iff s t)
state_beq_iff _ _ = ground arith

instance abbrev pub state_eq : Comparable State
state_eq = record { same = state_beq; same_iff = state_beq_iff }

-- The string of a state.
unfoldable pub state_text : State → Text
state_text opened = codes "open"
state_text awaiting = codes "awaiting"
state_text complete = codes "complete"
state_text escalated = codes "escalated"
state_text closed = codes "closed"
state_text (other s) = s

-- `ReasonCode`, a string type too.
pub data Reason : Type 0 where
  not_provided low_confidence unreadable field_shortfall encrypted missing_attachment
        policy_unknown :
      Reason
  other : Text → Reason

abbrev pub reason_beq : Reason → Reason → Bool
reason_beq not_provided not_provided = true
reason_beq low_confidence low_confidence = true
reason_beq unreadable unreadable = true
reason_beq field_shortfall field_shortfall = true
reason_beq encrypted encrypted = true
reason_beq missing_attachment missing_attachment = true
reason_beq policy_unknown policy_unknown = true
reason_beq (other s) (other t) = text_beq s t
reason_beq _ _ = false

pub reason_beq_iff : (r q : Reason) → (reason_beq r q ≡ true) ↔ (r ≡ q)
reason_beq_iff (other s) (other t) = ground (arith, text_beq_iff s t)
reason_beq_iff _ _ = ground arith

instance abbrev pub reason_eq : Comparable Reason
reason_eq = record { same = reason_beq; same_iff = reason_beq_iff }

pub record MissingItem : Type 0 where
  pub id : Text
  pub description : Text
  pub reason : Text
  pub code : Reason
  pub confidence : Float

pub data Direction : Type 0 where
  inbound outbound : Direction

pub record Attachment : Type 0 where
  pub filename : Text
  pub content_type : Text
  pub size : ℕ
  pub sha256 : Text
  pub content : Text

pub record Email : Type 0 where
  pub deterministic_id : Text
  pub submission_id : Text
  pub direction : Direction
  pub message_id : Text
  pub in_reply_to : Text
  pub references : List Text
  pub from_address : Text
  pub from_name : Text
  pub reply_to : Text
  pub to_addresses : List Text
  pub subject : Text
  pub body_text : Text
  pub received_at : Time
  pub provider_msg_id : Text
  pub attachments : List Attachment

-- An extracted value, of type `any`: `other` is a type that `numericValue` does not read.
pub data Value : Type 0 where
  null : Value
  number : Float → Value
  string : Text → Value
  other : Value

pub record Document : Type 0 where
  pub id : Text
  pub submission_id : Text
  pub email_id : Text
  pub filename : Text
  pub content_type : Text
  pub size_bytes : ℕ
  pub sha256 : Text
  pub classified_as : Text
  pub confidence : Float
  pub classified_by : Text
  pub extracted_text : Text
  pub extracted_fields : Option (List (Text × Value))
  pub unreadable : Bool
  pub encrypted : Bool
  pub created_at : Time

pub record Submission : Type 0 where
  pub id : Text
  pub policy_type : Text
  pub state : State
  pub subject_line : Text
  pub from_address : Text
  pub from_name : Text
  pub thread_key : Text
  pub created_at : Time
  pub updated_at : Time
  pub last_action_at : Time
  pub last_reply_at : Time
  pub escalated_at : Option Time
  pub needs_review : Bool
  pub on_hold : Bool
  pub delivery_failed : Bool
  pub named_insured : Text
  pub effective_date : Option Time
  pub last_escalated_at : Option Time
  pub completed_at : Option Time
  pub last_reply_hash : Text
  pub policy_clarify_asks : ℕ
  pub emails : List Email
  pub documents : List Document
  pub missing_items : List MissingItem

-- The map `allowed`: `none` for a state it has no key for.
abbrev pub allowed : State → Option (List State)
allowed opened = some (awaiting ∷ complete ∷ escalated ∷ closed ∷ [])
allowed awaiting = some (awaiting ∷ complete ∷ escalated ∷ closed ∷ [])
allowed complete = some (awaiting ∷ closed ∷ [])
allowed escalated = some (awaiting ∷ complete ∷ closed ∷ [])
allowed closed = some (awaiting ∷ complete ∷ [])
allowed (other _) = none

unfoldable pub new_submission : Text → Text → Text → Text → Text → Text → Time → Submission
new_submission id policy_type subject from_address from_name thread_key now = record {
  id = id;
  policy_type = policy_type;
  state = opened;
  subject_line = subject;
  from_address = from_address;
  from_name = from_name;
  thread_key = thread_key;
  created_at = now;
  updated_at = now;
  last_action_at = now;
  last_reply_at = 0;
  escalated_at = none;
  needs_review = false;
  on_hold = false;
  delivery_failed = false;
  named_insured = [];
  effective_date = none;
  last_escalated_at = none;
  completed_at = none;
  last_reply_hash = [];
  policy_clarify_asks = 0;
  emails = [];
  documents = [];
  missing_items = [];
}

-- Both wrap ErrInvalidTransition.
pub data TransitionError : Type 0 where
  unknown_state : State → TransitionError
  not_allowed : State → State → TransitionError

-- What entering a state does to the two stamps.
stamp : State → Time → Submission → Submission
stamp escalated now s = record s { escalated_at = some now }
stamp complete now s = record s { escalated_at = none; completed_at = some now }
stamp awaiting now s = record s { escalated_at = none; completed_at = none }
stamp _ now s = s

enter : State → Time → Submission → Submission
unfolding stamp
enter next now s =
    stamp next now (record s { state = next; updated_at = now; last_action_at = now })

-- An error leaves the submission as it was.
unfoldable pub transition_to : State → Time → Submission → Result TransitionError Submission
unfolding enter
transition_to next now s =
    if s.state == next then ok (record s { updated_at = now }) else elim (allowed s.state) [
      | none ↦ err (unknown_state s.state)
      | some nexts ↦
          if contains nexts next then ok (enter next now s) else err (not_allowed s.state next)
    ]

unfoldable pub mark_action : Time → Submission → Submission
mark_action now s = record s { updated_at = now; last_action_at = now }

unfoldable pub attach_email : Email → Submission → Submission
attach_email e s = record s { emails = s.emails ++ e ∷ [] }

unfoldable pub attach_document : Document → Submission → Submission
attach_document d s = record s { documents = s.documents ++ d ∷ [] }
