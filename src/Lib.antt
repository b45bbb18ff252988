-- ===== src/Lib.antt =====
-- A verification library for the submission triage service: an insurance agency's mailbox is
-- polled, each email is threaded to a submission, its attachments are classified against the
-- checklist of its line of business, and a reply that asks for what is missing is queued in an
-- outbox that is committed with the submission.
--
-- The parts and their files. All paths are from the repository's root.
--   Prelude            Boolean tests, lists, byte strings, floats and sorting that the parts share.
--   Model/Submission   internal/model/submission.go, email.go, document.go: the data, TransitionTo.
--   Model/Lifecycle    the diagram of the states.
--   Model/Checklist    internal/model/checklist.go: EvaluateChecklist and what it calls.
--   Model/Reply        internal/model/reply.go: the replies and ReplyFingerprint.
--   Model/Digest       internal/model/digest.go: BuildDigest.
--   Model/Documents    internal/model/document.go: FilenameOnlyMatches.
--   Pkg/TextUtil       pkg/textutil/text.go: TruncateBytes.
--   Pkg/Retry          pkg/retry/retry.go: Do, with the sleeps that it takes.
--   Pkg/Glob           pkg/glob/glob.go: Match.
--   Pkg/EmlParse       pkg/emlparse: charset and encoded words (Charset, Mime), the signs
--                      of a bounce (Bounce), the parts of its body (Parts), FromReader (Message).
--   Delivery/EmailIngest  internal/delivery/emailingest/translate.go: Translate.
--   Delivery/Imap      internal/delivery/imap: client.go, a mailbox and its commands (Mailbox),
--                      and poller.go, one tick with the ingests that it makes (Poller).
--   Repository/Outbox  internal/repository/outbox.go, a list of rows and a function per statement.
--   Repository/Submissions  internal/repository/submissions.go: the upserts (Rows), the lookups and
--                      lists (Queries).
--   Repository/IngestControl  internal/repository/ingest_control.go: the first boot, the failure
--                      counts.
--   Service/World      internal/service/submissions.go: the state that the service's methods share,
--                      audit and flushAudit, claimDispatch and releaseDispatch.
--   Service/Threads    cleanThreadRefs, computeEmailID, inferPolicyType, namedInsuredFromText.
--   Service/Documents  classifyAttachment, extractField, extractText and the tests on PDFs.
--   Service/Evaluate   evaluate, extractIdentity, transitionState, buildReply, replySuppressed.
--   Service/Ingest     IngestEmail, resolveSubmission, contentMatch, persistBounce, enqueueReply.
--   Service/Dispatch   deliver, dispatchOnline, RedeliverOutbox, redeliverOne, blockedSubmissions.
--   Service/Hold       ReconcileHold.
--   Service/Escalation  CheckEscalations, CheckClosures and what they call.
--   Service/Summary    SendDigest and what it calls, FilenameOnlyItems of the repository too.
--   Service/Frame      what a method of the service leaves alone; Ingest/Settled what it commits.
--   Infrastructure/Smtp  internal/infrastructure/email/smtp.go: the text of a message, and the
--                      exchange with the server (Session).
--   Infrastructure/Classifier  internal/infrastructure/classifier/classifier.go: Classify.
--   Infrastructure/Llm  internal/infrastructure/llm/anthropic.go: callMessages under the spend cap,
--                      and the three questions to the model (Requests).
--   Tests              the theorems at concrete inputs.
--
-- How the code is modelled. A Go string is its list of bytes, and a time its Unix nanoseconds with
-- 0 for the zero time. A table is a list of rows; the clock that a statement reads and the ids that
-- are drawn are arguments. A method of the service is a function from the world before it to its
-- result and the world after it; `Env` holds the configuration and what the code takes from
-- libraries and from the language model. The world lists which of the next repository calls fail,
-- so that a theorem about every world is about every pattern of failures. A transaction that fails
-- changes nothing.
--
-- The mailbox is a list of messages with their folder and flags. `Post` holds it beside the world of
-- the service and which of the next commands fail, and a tick of the poller is a function on it that
-- fetches, calls the service's ingest and its hold reconciliation, marks and files. The answers of
-- an SMTP server and of the model's API are lists that are read one by one.
--
-- Loops are recursion on a list, with three exceptions. The parts of a message are read down to the
-- depth that the code itself allows, 33 levels. The search for ids in angle brackets has the length
-- of the text as its fuel, and each round drops at least one byte. The rounds of a retry count down
-- from the configured number of attempts.
--
-- A float is an integer count of a small unit, an infinity or NaN. The clock stands still within one
-- ingest. The text of log lines and the payload of audit entries are left out. IngestEmail runs one
-- delivery at a time, which is what its singleflight group gives for one email. A context is not
-- cancelled while a method runs.
--
-- Not modelled: the connections themselves (IMAP, SMTP, HTTP, OAuth) and the files, what
-- net/mail, mime, encoding, path and filepath read (parameters), the document libraries, the
-- checklist store, configuration and start, the other statements on the audit log, the tickers
-- of the workers, and, of internal/service, retention.
pub mod Prelude
pub mod Model
pub mod Pkg
pub mod Infrastructure
pub mod Delivery
pub mod Repository
pub mod Service
pub mod Tests
