-- ===== src/Infrastructure/Smtp/Exchange.antt =====
-- internal/infrastructure/email/smtp.go: what a send gives away, and what it has sent when it succeeds.
use mathlib.Core.Path.{subst}
use mathlib.Core.Bool.{false≢true}
use submission_triage.Prelude.{
  lower_byte, ◌≡◌, refl, ap, ◌⊎◌, inl, inr, Bool, true, false, not, Option, none, some, List, [],
  ◌∷◌, ◌++◌, map, Text, text_eq, ◌==◌, text_beq_iff, contains, Result, ok, err, All, arith,
  Bool-cases, to_lower,
}
use submission_triage.Pkg.Retry.{Failure}
use submission_triage.Infrastructure.Smtp.{Smtp, localhost_names, is_localhost}
use submission_triage.Infrastructure.Smtp.Session.{
  Server, Mechanism, plain_auth, xoauth2, Sent, credentials, mail_from, rcpt_to, message,
  CommandError, start_refused, after_start, authenticate, authenticate_if, log_in, negotiate,
  dial_smtp, failed_dial, either, step, command_failure, each_rcpt, send_body, after_dial,
  real_smtp_send, smtp_auth,
}

-- Credentials that go over an encrypted connection, or to the host itself.
abbrev pub IsGuarded : Smtp → Sent → Type 0
IsGuarded s (credentials mech tls) = (tls ≡ true) ⊎ (is_localhost s.host ≡ true)
IsGuarded s _ = Unit

local_names : All (λ name. is_localhost name ≡ true) localhost_names
unfolding is_localhost to_lower lower_byte
local_names = (refl, (refl, (refl, tt)))

holds_of_member :
    (P : Text → Type 0) (names : List Text) (host : Text)
    → All P names
    → contains names host ≡ true
    → P host
holds_of_member P [] host h e = absurd (false≢true e)
holds_of_member P (n ∷ names) host h e = elim (Bool-cases (n == host)) [
  | inl same ↦ subst P ((text_beq_iff n host).0 same) h.0
  | inr other ↦ holds_of_member P names host h.1 (ground arith)
]

local_name : (host : Text) → contains localhost_names host ≡ true → is_localhost host ≡ true
local_name host h =
    holds_of_member (λ name. is_localhost name ≡ true) localhost_names host local_names h

not_refused : (b : Bool) → not b ≡ false → b ≡ true
not_refused true h = refl
not_refused false h = cc

start_refused-IsGuarded :
    (s : Smtp) (tls : Bool) (mech : Mechanism)
    → start_refused s tls mech ≡ false
    → IsGuarded s (credentials mech tls)
unfolding start_refused
start_refused-IsGuarded s true mech h = inl refl
start_refused-IsGuarded s false xoauth2 h = inr (not_refused (is_localhost s.host) h)
start_refused-IsGuarded s false plain_auth h =
    inr (local_name s.host (not_refused (contains localhost_names s.host) h))

authenticate-IsGuarded :
    (s : Smtp) (server : Server) (tls : Bool) (mech : Mechanism)
    → All (IsGuarded s) (authenticate s server tls mech).1
unfolding authenticate after_start
authenticate-IsGuarded s server tls mech = elim (Bool-cases (start_refused s tls mech)) [
  | inl e ↦ simp e tt
  | inr e ↦ simp e (start_refused-IsGuarded s tls mech e, tt)
]

log_in-IsGuarded :
    (s : Smtp) (oauth : Option (Option Failure)) (server : Server) (tls : Result Failure Bool)
    → All (IsGuarded s) (log_in s oauth server tls).1
unfolding log_in
log_in-IsGuarded s oauth server (err e) = tt
log_in-IsGuarded s oauth server (ok tls) = go (smtp_auth s oauth)
  where
    go :
        (mech : Result Failure (Option Mechanism))
        → All (IsGuarded s) (authenticate_if s server tls mech).1
    go (err e) = unfold authenticate_if in tt
    go (ok none) = unfold authenticate_if in tt
    go (ok (some mech)) = unfold authenticate_if in authenticate-IsGuarded s server tls mech

dial_smtp-IsGuarded :
    (s : Smtp) (oauth : Option (Option Failure)) (server : Server)
    → All (IsGuarded s) (dial_smtp s oauth server).1
unfolding dial_smtp failed_dial
dial_smtp-IsGuarded s oauth server = go server.connect server.greeting
  where
    go :
        (connect greeting : Option Text)
        → All
            (IsGuarded s)
            (either failed_dial
              (either failed_dial (log_in s oauth server (negotiate s server)) greeting)
              connect).1
    go (some e) greeting = tt
    go none (some e) = tt
    go none none = log_in-IsGuarded s oauth server (negotiate s server)

step-IsGuarded :
    (s : Smtp) (sent : Sent) (e : Option Failure) (more : Option Failure × List Sent)
    → IsGuarded s sent
    → All (IsGuarded s) more.1
    → All (IsGuarded s) (step sent e more).1
step-IsGuarded s sent none more hs hm = (hs, hm)
step-IsGuarded s sent (some e) more hs hm = (hs, tt)

each_rcpt-IsGuarded :
    (s : Smtp) (server : Server) (to : List Text) (more : Option Failure × List Sent)
    → All (IsGuarded s) more.1
    → All (IsGuarded s) (each_rcpt server to more).1
unfolding each_rcpt
each_rcpt-IsGuarded s server [] more h = h
each_rcpt-IsGuarded s server (to ∷ tos) more h =
    step-IsGuarded s (rcpt_to to) (command_failure (server.rcpt to)) (each_rcpt server tos more) tt
      (each_rcpt-IsGuarded s server tos more h)

send_body-IsGuarded :
    (s : Smtp) (server : Server) (msg : Text) (e : Option CommandError)
    → All (IsGuarded s) (send_body server msg e).1
unfolding send_body
send_body-IsGuarded s server msg none = (tt, tt)
send_body-IsGuarded s server msg (some e) = tt

All-append : (P : Sent → Type 0) (xs ys : List Sent) → All P xs → All P ys → All P (xs ++ ys)
All-append P [] ys h h' = h'
All-append P (x ∷ xs) ys h h' = (h.0, All-append P xs ys h.1 h')

-- Without an error, a step is followed by the rest.
abbrev IsDelivered : List Sent → Option Failure × List Sent → Type 0
IsDelivered sent out = out.0 ≡ none → out.1 ≡ sent

step_delivered :
    (x : Sent) (e : Option Failure) (more : Option Failure × List Sent) {rest : List Sent}
    → (step x e more).0 ≡ none
    → IsDelivered rest more
    → (step x e more).1 ≡ x ∷ rest
step_delivered x none more h hm = ap (λ t. x ∷ t) (hm h)
step_delivered x (some e) more h hm = cc

each_rcpt-IsDelivered :
    (server : Server) (to : List Text) (more : Option Failure × List Sent) (rest : List Sent)
    → IsDelivered rest more
    → IsDelivered (map rcpt_to to ++ rest) (each_rcpt server to more)
unfolding each_rcpt
each_rcpt-IsDelivered server [] more rest hm = hm
each_rcpt-IsDelivered server (to ∷ tos) more rest hm = λ h.
    step_delivered (rcpt_to to) (command_failure (server.rcpt to)) (each_rcpt server tos more) h
      (each_rcpt-IsDelivered server tos more rest hm)

send_body-IsDelivered :
    (server : Server) (msg : Text) (e : Option CommandError)
    → IsDelivered (message msg ∷ []) (send_body server msg e)
unfolding send_body
send_body-IsDelivered server msg none = λ h. refl
send_body-IsDelivered server msg (some e) = λ h. cc

-- No send gives credentials away over a connection that is not encrypted, but to the host itself.
pub real_smtp_send-IsGuarded :
    (s : Smtp) (oauth : Option (Option Failure)) (server : Server) (from : Text) (to : List Text)
    (msg : Text)
    → All (IsGuarded s) (real_smtp_send s oauth server from to msg).1
unfolding real_smtp_send
real_smtp_send-IsGuarded s oauth server from to msg =
    go (dial_smtp s oauth server) (dial_smtp-IsGuarded s oauth server)
  where
    go :
        (dialled : Option Failure × List Sent)
        → All (IsGuarded s) dialled.1
        → All (IsGuarded s) (after_dial server from to msg dialled).1
    go (some e, sent) h = unfold after_dial in h
    go (none, sent) h =
        unfold after_dial in
        All-append (IsGuarded s) sent _ h (
          step-IsGuarded s (mail_from from) (command_failure server.mail) _ tt (
            each_rcpt-IsGuarded s server to _ (send_body-IsGuarded s server msg server.start_data)))

-- A send without an error has sent, after what the login sent, the sender, every recipient and the
-- message once, in this order.
pub real_smtp_send_delivered :
    (s : Smtp) (oauth : Option (Option Failure)) (server : Server) (from : Text) (to : List Text)
    (msg : Text)
    → (real_smtp_send s oauth server from to msg).0 ≡ none
    → (real_smtp_send s oauth server from to msg).1
      ≡ (dial_smtp s oauth server).1 ++ mail_from from ∷ (map rcpt_to to ++ message msg ∷ [])
unfolding real_smtp_send
real_smtp_send_delivered s oauth server from to msg h = go (dial_smtp s oauth server) h
  where
    go :
        (dialled : Option Failure × List Sent)
        → (after_dial server from to msg dialled).0 ≡ none
        → (after_dial server from to msg dialled).1
          ≡ dialled.1 ++ mail_from from ∷ (map rcpt_to to ++ message msg ∷ [])
    go (some e, sent) h = unfold after_dial in cc
    go (none, sent) h =
        unfold after_dial in
        ap (λ t. sent ++ t)
          (step_delivered (mail_from from) (command_failure server.mail)
            (each_rcpt server to (send_body server msg server.start_data)) h
            (each_rcpt-IsDelivered server to (send_body server msg server.start_data)
              (message msg ∷ []) (send_body-IsDelivered server msg server.start_data)))
