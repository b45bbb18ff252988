-- ===== src/Service/World.antt =====
-- internal/service: what the service's methods share and change, and what they are given.
-- A method is a function from the world before it to its result and the world after it. The world
-- says which of the next repository calls fail and how the next sends end. The clock stands still
-- within one method. Audit payloads are left out: nothing reads them back.
use submission_triage.Prelude.{
  ℕ, suc, ◌/◌, nat_eq, Bool, true, false, Option, none, some, List, [], ◌∷◌, ◌++◌, Text, text_eq,
  ◌==◌, contains, keep_if, not, if◌then◌else◌, Result, ok, err, Float,
}
use submission_triage.Model.Submission.{Time, TransitionError, Value}
use submission_triage.Model.Checklist.{Strconv, Checklist, RequiresField}
use submission_triage.Model.Reply.{Reply}
use submission_triage.Model.Digest.{day}
use submission_triage.Repository.Outbox.{Row}
use submission_triage.Repository.Submissions.{Tables}

-- `EventType`, the ones that this package writes.
pub data Event : Type 0 where
  email_received email_duplicate document_classified document_unreadable document_encrypted : Event
  field_extracted identity_extracted checklist_evaluated policy_unknown policy_resolved : Event
  state_transitioned needs_review reply_sent reply_failed reply_suppressed reply_bounced : Event
  delivery_retried reply_disabled mail_file_failed llm_call llm_failed llm_capped escalated : Event
  closed thread_matched thread_matched_by_content thread_ambiguous held released digest_sent : Event

pub record AuditEntry : Type 0 where
  pub submission_id : Text
  pub event : Event

pub record ReplyJob : Type 0 where
  pub reply : Reply
  pub submission_id : Text
  pub outbox_id : Text
  pub version : Time

pub record World : Type 0 where
  pub tables : Tables
  pub outbox : List Row
  pub audit_log : List AuditEntry
  pub now : Time
  -- Whether each of the next repository calls fails; past the end none does.
  pub faults : List Bool
  pub next_id : ℕ
  -- The audit collector of the ingest that runs, if one does.
  pub collector : Option (List AuditEntry)
  -- The UTC day on which reaching the spend cap was last audited.
  pub capped_day : Option ℕ
  pub dispatching : List Text
  pub reply_jobs : List ReplyJob
  pub closed : Bool
  -- What the mail provider has accepted, and how the next sends end: with an id or an error.
  pub mailed : List Reply
  pub send_results : List (Option Text)

pub data Error : Type 0 where
  database : Error
  not_found : Error
  send : Error
  transition : TransitionError → Error

abbrev pub M : Type 0 → Type 0
M A = World → Result Error A × World

module _ {A : Type 0} where
  unfoldable pub pure : A → M A
  pure a w = (ok a, w)

  unfoldable pub raise : Error → M A
  raise e w = (err e, w)

  unfoldable pub gets : (World → A) → M A
  gets f w = (ok (f w), w)

infixl 5 ◌>>=◌ ◌>>◌
unfoldable pub ◌>>=◌ : {A B : Type 0} → M A → (A → M B) → M B
◌>>=◌ m f w = let (r, w') = m w in elim r [ ok a ↦ f a w' | err e ↦ (err e, w') ]

unfoldable pub ◌>>◌ : {A B : Type 0} → M A → M B → M B
unfolding ◌>>=◌
m >> k = m >>= λ _. k

unfoldable pub modify : (World → World) → M (Unit {0})
modify f w = (ok tt, f w)

-- A call whose error the caller looks at: it never raises.
unfoldable pub attempt : {A : Type 0} → M A → M (Result Error A)
attempt m w = let (r, w') = m w in (ok r, w')

-- Does the next repository call fail?
abbrev pub next_fault : List Bool → Bool
next_fault [] = false
next_fault (f ∷ _) = f

abbrev pub rest_faults : List Bool → List Bool
rest_faults [] = []
rest_faults (_ ∷ fs) = fs

-- One call of the repository: it fails and changes nothing, or it does what it does.
unfoldable pub call : {A : Type 0} → M A → M A
call m w =
    let w' = record w { faults = rest_faults w.faults } in
    if next_fault w.faults then (err database, w') else m w'

-- An error that is only logged.
unfoldable pub best_effort : M (Unit {0}) → M (Unit {0})
best_effort m w = let (_, w') = m w in (ok tt, w')

unfoldable pub append_entry : AuditEntry → M (Unit {0})
unfolding modify call
append_entry e = call (modify λ w. record w { audit_log = w.audit_log ++ e ∷ [] })

-- Into the collector of the ingest that runs, else straight into the log.
unfoldable pub audit_in : Option (List AuditEntry) → AuditEntry → M (Unit {0})
audit_in (some entries) e w = (ok tt, record w { collector = some (entries ++ e ∷ []) })
audit_in none e w = best_effort (append_entry e) w

unfoldable pub audit : Text → Event → M (Unit {0})
unfolding audit_in
audit id event w = audit_in w.collector (record { submission_id = id; event = event }) w

unfoldable pub append_all : List AuditEntry → M (Unit {0})
unfolding append_entry
append_all [] = pure tt
append_all (e ∷ es) = do best_effort (append_entry e); append_all es

unfoldable pub flush_from : Option (List AuditEntry) → M (Unit {0})
unfolding append_all
flush_from none w = (ok tt, w)
flush_from (some entries) w = append_all entries (record w { collector = none })

-- `flushAudit`, and the end of the ingest's context. It runs on every exit path.
unfoldable pub flush_audit : M (Unit {0})
unfolding flush_from
flush_audit w = flush_from w.collector w

-- The end of a call of the language model: the daily cap was reached, it failed, or its answer.
pub data Answer (A : Type 0) : Type 0 where
  capped refused : Answer A
  answer : A → Answer A

-- With whether tokens were used, in which case the call is audited.
pub record LlmCall (A : Type 0) : Type 0 where
  pub used : Bool
  pub outcome : Answer A

pub record ClassifierInput : Type 0 where
  pub filename : Text
  pub content_type : Text
  pub body_text : Text
  pub checklist : Checklist

pub record Classified : Type 0 where
  pub candidate_id : Text
  pub confidence : Float
  pub by : Text
  pub capped : Bool
  pub failed : Bool
  pub used : Bool

-- What the model of a language, a mail provider or a library decides, and the configuration.
pub record Env : Type 0 where
  pub sha256 : Text → Text
  pub strconv : Strconv
  -- uuid.NewString, by how many were asked for.
  pub uuid : ℕ → Text
  pub sql_trim : Text → Text
  pub checklists : List Checklist
  pub confidence_floor : Float
  -- REPLIES_ENABLED, none where it is not set.
  pub replies_enabled : Option Bool
  pub policy_clarify_max_asks : ℕ
  pub match_window : ℕ
  pub coalesce_window : ℕ
  pub queue_size : ℕ
  pub outbox_retry_after : ℕ
  pub outbox_max_attempts : ℕ
  pub outbox_batch : ℕ
  pub attachment_link_domains : List Text
  pub unreadable_min_size_bytes : ℕ
  pub unreadable_min_chars : ℕ
  -- mime.ParseMediaType, none for its error.
  pub media_type : Text → Option Text
  -- The extractor of a content type; none as its result is an error or a panic.
  pub extractor : Text → Option (Text → Option Text)
  pub classify : ClassifierInput → Classified
  -- The language model, none where there is no client.
  pub extract_field : Option (Text → Text → RequiresField → LlmCall Value)
  pub extract_identity : Option (Text → Text → LlmCall (Text × Text))
  -- time.Parse with each format of `effectiveDateFormats` in turn.
  pub parse_date : Text → Option Time

unfoldable pub new_uuid : Env → M Text
new_uuid env w = (ok (env.uuid w.next_id), record w { next_id = suc w.next_id })

abbrev is_day : Option ℕ → ℕ → Bool
is_day none today = false
is_day (some d) today = d == today

abbrev set_capped : Option ℕ → World → World
set_capped day w = record w { capped_day = day }

-- `auditCapOnce`: past the collector, and at most once a UTC day unless the write fails.
unfoldable pub audit_cap_once : M (Unit {0})
unfolding append_entry
audit_cap_once w =
    let today = w.now / day in
    if is_day w.capped_day today
    then (ok tt, w)
    else let (r, w') =
        append_entry (record { submission_id = []; event = llm_capped })
          (set_capped (some today) w) in
      elim r [ ok _ ↦ (ok tt, w') | err _ ↦ (ok tt, set_capped none w') ]

unfoldable pub when : Bool → M (Unit {0}) → M (Unit {0})
when true m = m
when false m = pure tt

-- `claimDispatch`, by whether the claim is held already, and `releaseDispatch`.
unfoldable pub claim_if : Bool → Text → M Bool
claim_if true id w = (ok false, w)
claim_if false id w = (ok true, record w { dispatching = id ∷ w.dispatching })

unfoldable pub claim_dispatch : Text → M Bool
unfolding claim_if
claim_dispatch id w = claim_if (contains w.dispatching id) id w

unfoldable pub release_dispatch : Text → M (Unit {0})
release_dispatch id =
    modify λ w. record w { dispatching = keep_if (λ x. not (x == id)) w.dispatching }

unfoldable pub on_option : {A B : Type 0} → Option A → M B → (A → M B) → M B
on_option none n f = n
on_option (some a) n f = f a

unfoldable pub on_answer : {A B : Type 0} → Answer A → M B → M B → (A → M B) → M B
on_answer capped c r f = c
on_answer refused c r f = r
on_answer (answer a) c r f = f a
