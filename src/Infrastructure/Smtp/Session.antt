-- ===== src/Infrastructure/Smtp/Session.antt =====
-- internal/infrastructure/email/smtp.go: the exchange with the mail server, with what it answers given.
use mathlib.Core.Option
use submission_triage.Prelude.{
  contains, ℕ, Bool, true, false, ◌&&◌, not, Option, none, some, List, [], ◌∷◌, ◌++◌, Text, codes,
  text_eq, ◌==◌, if◌then◌else◌, is_empty, leb, ltb, Result, ok, err,
}
use submission_triage.Model.Reply.{Reply}
use submission_triage.Pkg.Retry.{
  Failure, permanent, retryable, End, done, cancelled, stopped, exhausted, Rounds, do_retry,
}
use submission_triage.Infrastructure.Smtp.{
  Smtp, localhost_names, is_localhost, message_id, build_message,
}

-- An error of a command, with the code of a `textproto.Error`.
pub record CommandError : Type 0 where
  pub code : Option ℕ
  pub text : Text

-- Each step's error, if it ends in one.
pub record Server : Type 0 where
  pub connect : Option Text
  pub greeting : Option Text
  pub offers_starttls : Bool
  pub starttls : Option Text
  pub auth : Option Text
  pub mail : Option CommandError
  pub rcpt : Text → Option CommandError
  pub start_data : Option CommandError
  pub write : Option Text
  pub close : Option CommandError

pub data Mechanism : Type 0 where
  plain_auth xoauth2 : Mechanism

-- What goes over the connection, in order; credentials with whether it is encrypted then.
pub data Sent : Type 0 where
  credentials : Mechanism → Bool → Sent
  mail_from rcpt_to : Text → Sent
  message : Text → Sent

is_permanent_code : Option ℕ → Bool
is_permanent_code none = false
is_permanent_code (some code) = leb 500 code && ltb code 600

unfoldable pub classify_smtp : CommandError → Failure
unfolding is_permanent_code
classify_smtp e = if is_permanent_code e.code then permanent e.text else retryable e.text

-- What an error leads to, or what is done where there is none.
abbrev pub either {ℓ} : {A : Type ℓ} → (Text → A) → A → Option Text → A
either failing more none = more
either failing more (some e) = failing e

-- `smtpAuth`: the mechanism of OAuth or its error where it is set, else a password or nothing.
unfoldable pub smtp_auth : Smtp → Option (Option Failure) → Result Failure (Option Mechanism)
smtp_auth s (some (some e)) = err e
smtp_auth s (some none) = ok (some xoauth2)
smtp_auth s none = if is_empty s.username then ok none else ok (some plain_auth)

-- Whether `Start` refuses to send the credentials; net/smtp's own mechanism compares the host's name
-- as it is.
unfoldable pub start_refused : Smtp → Bool → Mechanism → Bool
start_refused s tls xoauth2 = not tls && not (is_localhost s.host)
start_refused s tls plain_auth = not tls && not (contains localhost_names s.host)

unfoldable pub after_start : Server → Bool → Mechanism → Bool → Option Failure × List Sent
after_start server tls mech true = (some (permanent (codes "requires a TLS connection")), [])
after_start server tls mech false = (Option.map permanent server.auth, credentials mech tls ∷ [])

-- `client.Auth`: any error of it is permanent.
unfoldable pub authenticate : Smtp → Server → Bool → Mechanism → Option Failure × List Sent
unfolding start_refused after_start
authenticate s server tls mech = after_start server tls mech (start_refused s tls mech)

unfoldable pub authenticate_if :
    Smtp → Server → Bool → Result Failure (Option Mechanism) → Option Failure × List Sent
unfolding authenticate
authenticate_if s server tls (err e) = (some e, [])
authenticate_if s server tls (ok none) = (none, [])
authenticate_if s server tls (ok (some mech)) = authenticate s server tls mech

-- The negotiation: an error, or whether the connection is encrypted.
unfoldable pub negotiate : Smtp → Server → Result Failure Bool
negotiate s server =
    if s.port == codes "465"
    then ok true
    else if server.offers_starttls
    then either (λ e. err (retryable e)) (ok true) server.starttls
    else if is_localhost s.host
    then ok false
    else err (permanent (codes "does not offer STARTTLS"))

unfoldable pub log_in :
    Smtp → Option (Option Failure) → Server → Result Failure Bool → Option Failure × List Sent
unfolding authenticate_if smtp_auth
log_in s oauth server (err e) = (some e, [])
log_in s oauth server (ok tls) = authenticate_if s server tls (smtp_auth s oauth)

unfoldable pub failed_dial : Text → Option Failure × List Sent
failed_dial e = (some (retryable e), [])

-- `dialSMTP`
unfoldable pub dial_smtp : Smtp → Option (Option Failure) → Server → Option Failure × List Sent
unfolding log_in negotiate failed_dial
dial_smtp s oauth server =
    let logged_in = log_in s oauth server (negotiate s server) in
    either failed_dial (either failed_dial logged_in server.greeting) server.connect

-- A step of the exchange: it ends it, or `more` goes on. What was sent comes first.
abbrev pub step : Sent → Option Failure → Option Failure × List Sent → Option Failure × List Sent
step sent (some e) more = (some e, sent ∷ [])
step sent none (result, rest) = (result, sent ∷ rest)

abbrev pub command_failure : Option CommandError → Option Failure
command_failure none = none
command_failure (some e) = some (classify_smtp e)

unfoldable pub each_rcpt :
    Server → List Text → Option Failure × List Sent → Option Failure × List Sent
unfolding classify_smtp
each_rcpt server [] more = more
each_rcpt server (to ∷ tos) more =
    step (rcpt_to to) (command_failure (server.rcpt to)) (each_rcpt server tos more)

-- A write error, then an error of the closing, which is when the message is taken.
unfoldable pub close_failure : Server → Option Text → Option Failure
close_failure server (some e) = some (retryable e)
close_failure server none = command_failure server.close

unfoldable pub send_body : Server → Text → Option CommandError → Option Failure × List Sent
unfolding close_failure
send_body server msg (some e) = (some (classify_smtp e), [])
send_body server msg none = (close_failure server server.write, message msg ∷ [])

unfoldable pub after_dial :
    Server → Text → List Text → Text → Option Failure × List Sent → Option Failure × List Sent
unfolding each_rcpt send_body
after_dial server from to msg (some e, sent) = (some e, sent)
after_dial server from to msg (none, sent) =
    let (result, rest) =
      step (mail_from from) (command_failure server.mail)
        (each_rcpt server to (send_body server msg server.start_data)) in
    (result, sent ++ rest)

-- `realSMTPSend`
unfoldable pub real_smtp_send :
    Smtp → Option (Option Failure) → Server → Text → List Text → Text → Option Failure × List Sent
unfolding dial_smtp after_dial
real_smtp_send s oauth server from to msg = after_dial server from to msg (dial_smtp s oauth server)

pub data SendError : Type 0 where
  no_host no_from no_recipient : SendError
  ended : End → SendError

-- nil is the end of a run that is done.
sent_or_error : Text → End → Result SendError Text
sent_or_error id done = ok id
sent_or_error id cancelled = err (ended cancelled)
sent_or_error id (stopped e) = err (ended (stopped e))
sent_or_error id (exhausted n e) = err (ended (exhausted n e))

-- `SendThreadedReply`, by a send that passes a state on.
unfoldable pub send_threaded_reply :
    {S : Type 0}
    → Smtp
    → Rounds
    → ℕ
    → ℕ
    → (List Text → Text → S → Option Failure × S)
    → Reply
    → S
    → Result SendError Text × S
unfolding sent_or_error do_retry
send_threaded_reply s env attempts base send r st =
    let id = message_id s r in
    let run = do_retry env attempts base (send (r.to_address ∷ []) (build_message s r id)) st in
    if is_empty s.host
    then (err no_host, st)
    else if is_empty s.from_address
    then (err no_from, st)
    else if is_empty r.to_address
    then (err no_recipient, st)
    else (sent_or_error id run.end, run.state)
