-- ===== src/Service/Frame.antt =====
-- internal/service: what a method leaves alone. The audit trail, the ids drawn, the repository
-- calls made and the spend-cap mark may change; the tables, the outbox and the senders may not.
use submission_triage.Prelude.{
  ◌≡◌, refl, contains, keep_if, not, text_eq, ◌==◌, [], ◌∷◌, Bool, true, false, Option, none, some,
  List, Text, Result, ok, err, arith, if◌then◌else◌,
}
use submission_triage.Service.World.{
  World, Event, claim_if, claim_dispatch, M, pure, raise, gets, call, ◌>>=◌, ◌>>◌, Error, audit,
  append_entry, best_effort, modify, AuditEntry, audit_in, audit_cap_once, when, new_uuid, Env,
  rest_faults, on_option, on_answer, Answer, capped, refused, answer,
}

pub record SameStore (w w' : World) : Type 0 where
  pub tables : w'.tables ≡ w.tables
  pub outbox : w'.outbox ≡ w.outbox
  pub dispatching : w'.dispatching ≡ w.dispatching
  pub reply_jobs : w'.reply_jobs ≡ w.reply_jobs
  pub closed : w'.closed ≡ w.closed
  pub mailed : w'.mailed ≡ w.mailed
  pub now : w'.now ≡ w.now

pub SameStore-refl : (w : World) → SameStore w w
SameStore-refl w = ground arith

pub SameStore-trans : {u v w : World} → SameStore u v → SameStore v w → SameStore u w
SameStore-trans p q = ground arith

unfoldable pub Keeps : {A : Type 0} → M A → Type 0
Keeps m = (w : World) → SameStore w (m w).1

pub Keeps-at : {A : Type 0} (m : M A) (w : World) → Keeps m → SameStore w (m w).1
unfolding Keeps
Keeps-at m w h = h w

pub >>=-ok :
    {A B : Type 0} (m : M A) (f : A → M B) (w : World) (a : A)
    → (m w).0 ≡ ok a
    → (m >>= f) w ≡ f a (m w).1
unfolding ◌>>=◌
>>=-ok {A} {B} m f w a h = go (m w).0 (m w).1 h
  where
    go :
        (r : Result Error A) (w' : World)
        → r ≡ ok a
        → (elim r as (λ _. Result Error B × World) [ ok a ↦ f a w' | err e ↦ (err e, w') ]) ≡ f a w'
    go (ok b) w' h = ground arith
    go (err e) w' h = cc

pub Keeps-pure : {A : Type 0} (a : A) → Keeps (pure a)
unfolding Keeps pure
Keeps-pure a w = SameStore-refl w

pub Keeps-raise : (A : Type 0) (e : Error) → Keeps {A = A} (raise e)
unfolding Keeps raise
Keeps-raise A e w = SameStore-refl w

pub Keeps-gets : {A : Type 0} (f : World → A) → Keeps (gets f)
unfolding Keeps gets
Keeps-gets f w = SameStore-refl w

pub Keeps->>= :
    {A B : Type 0} (m : M A) (f : A → M B) → Keeps m → ((a : A) → Keeps (f a)) → Keeps (m >>= f)
unfolding Keeps ◌>>=◌
Keeps->>= {A} {B} m f hm hf w = go (m w).0 (m w).1 (hm w)
  where
    go :
        (r : Result Error A) (w' : World)
        → SameStore w w'
        → SameStore w
            (elim r as (λ _. Result Error B × World) [ ok a ↦ f a w' | err e ↦ (err e, w') ]).1
    go (ok a) w' h = SameStore-trans h (hf a w')
    go (err e) w' h = h

pub Keeps->> : {A B : Type 0} (m : M A) (k : M B) → Keeps m → Keeps k → Keeps (m >> k)
unfolding ◌>>◌
Keeps->> m k hm hk = Keeps->>= m (λ _. k) hm (λ _. hk)

pub Keeps-if : {A : Type 0} (b : Bool) (m k : M A) → Keeps m → Keeps k → Keeps (if b then m else k)
Keeps-if true m k hm hk = hm
Keeps-if false m k hm hk = hk

pub Keeps-when : (b : Bool) (m : M (Unit {0})) → Keeps m → Keeps (when b m)
unfolding when
Keeps-when true m h = h
Keeps-when false m h = Keeps-pure tt

pub Keeps-call : {A : Type 0} (m : M A) → Keeps m → Keeps (call m)
unfolding Keeps call
Keeps-call m h w = ground (arith, h (record w { faults = rest_faults w.faults }))

pub append_entry-Keeps : (e : AuditEntry) → Keeps (append_entry e)
unfolding Keeps append_entry call modify
append_entry-Keeps e w = ground arith

pub Keeps-best_effort : (m : M (Unit {0})) → Keeps m → Keeps (best_effort m)
unfolding Keeps best_effort
Keeps-best_effort m h = h

audit_in-Keeps : (o : Option (List AuditEntry)) (e : AuditEntry) → Keeps (audit_in o e)
unfolding Keeps audit_in
audit_in-Keeps (some entries) e w = ground arith
audit_in-Keeps none e w =
    Keeps-at (best_effort (append_entry e)) w
      (Keeps-best_effort (append_entry e) (append_entry-Keeps e))

pub Keeps-audit : (id : Text) (event : Event) → Keeps (audit id event)
unfolding Keeps audit
Keeps-audit id event w =
    let e : AuditEntry = record { submission_id = id; event = event } in
    Keeps-at (audit_in w.collector e) w (audit_in-Keeps w.collector e)

pub Keeps-audit_cap_once : Keeps audit_cap_once
unfolding Keeps audit_cap_once append_entry call modify
Keeps-audit_cap_once w = ground arith

pub Keeps-new_uuid : (env : Env) → Keeps (new_uuid env)
unfolding Keeps new_uuid
Keeps-new_uuid env w = ground arith

pub Keeps-option :
    {A B : Type 0} (o : Option A) (n : M B) (f : A → M B)
    → Keeps n
    → ((a : A) → Keeps (f a))
    → Keeps (on_option o n f)
unfolding on_option
Keeps-option none n f hn hf = hn
Keeps-option (some a) n f hn hf = hf a

pub Keeps-answer :
    {A B : Type 0} (x : Answer A) (c r : M B) (f : A → M B)
    → Keeps c
    → Keeps r
    → ((a : A) → Keeps (f a))
    → Keeps (on_answer x c r f)
unfolding on_answer
Keeps-answer capped c r f hc hr hf = hc
Keeps-answer refused c r f hc hr hf = hr
Keeps-answer (answer a) c r f hc hr hf = hf a

pub ruleset keeping = (
  Keeps-pure, Keeps-raise, Keeps-gets, Keeps->>=, Keeps->>, Keeps-if, Keeps-when, Keeps-call,
  Keeps-audit, Keeps-audit_cap_once, Keeps-new_uuid, Keeps-option, Keeps-answer,
)

pub release_claim :
    (id : Text) (ids : List Text) → contains ids id ≡ false → keep_if (λ x. not (x == id)) ids ≡ ids
release_claim id [] h = refl
release_claim id (x ∷ ids) h = ground (arith, release_claim id ids)

claim_if-step :
    {A : Type 0} (b : Bool) (id : Text) (f : Bool → M A) (w : World)
    → (claim_if b id >>= f) w
      ≡ (if b then f false w else f true (record w { dispatching = id ∷ w.dispatching }))
unfolding claim_if ◌>>=◌
claim_if-step true id f w = refl
claim_if-step false id f w = refl

pub claim_dispatch-step :
    {A : Type 0} (id : Text) (f : Bool → M A) (w : World)
    → (claim_dispatch id >>= f) w ≡ (
        if contains w.dispatching id
        then f false w
        else f true (record w { dispatching = id ∷ w.dispatching }))
unfolding claim_dispatch ◌>>=◌
claim_dispatch-step id f w = claim_if-step (contains w.dispatching id) id f w
