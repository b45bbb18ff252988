-- ===== src/Service/Hold/Membership.antt =====
-- internal/service/submissions.go: what is on hold after the folder was read.
use mathlib.Core.Path.{subst}
use submission_triage.Prelude.{
  ◌≡◌, refl, sym, ◌∙◌, ap, Bool, true, false, List, [], ◌∷◌, Text, text_eq, All, Result, ok, err,
  arith,
}
use submission_triage.Repository.Submissions.{
  Tables, submission_ids_by_message_ids, list_held_ids, set_on_hold,
}
use submission_triage.Service.Hold.{
  without, set_hold, drop_replies, audit_each, finish_hold, sync_hold, reconcile_hold,
}
use submission_triage.Service.Frame.{Keeps-audit, Keeps-at, >>=-ok}
use submission_triage.Service.World.{
  World, Event, Error, M, audit, pure, modify, call, best_effort, gets, ◌>>=◌, ◌>>◌,
}
use submission_triage.Service.Hold.Flags.{UniqueIds, reconciled, IsMember, reconciled-IsMember}

-- Without a failing call each step does its part.
set_hold-run :
    (ids : List Text) (b : Bool) (w : World)
    → w.faults ≡ []
    → set_hold ids b w ≡ (ok tt, record w { tables = set_on_hold ids b w.tables })
unfolding set_hold set_on_hold call modify pure
set_hold-run [] b w h = refl
set_hold-run (i ∷ ids) b w h = ground arith

>>=-run :
    {A B : Type 0} (m : M A) (f : A → M B) (w w' : World) (a : A)
    → m w ≡ (ok a, w')
    → (m >>= f) w ≡ f a w'
>>=-run m f w w' a h = >>=-ok m f w a (ap (λ out. out.0) h) ∙ ap (λ out. f a out.1) h

read_run :
    {A : Type 0} (f : World → A) (w : World) → w.faults ≡ [] → call (gets f) w ≡ (ok (f w), w)
unfolding call gets
read_run f w calm =
    let same : w ≡ record w { faults = [] } = ap (λ fs. record w { faults = fs }) calm in
    subst (λ v. call (gets f) v ≡ (ok (f v), v)) (sym same) refl

-- A step that leaves the tables alone.
unfoldable SameTables : {A : Type 0} → M A → Type 0
SameTables m = (w : World) → (m w).1.tables ≡ w.tables

SameTables->> :
    {A B : Type 0} (m : M A) (k : M B) → SameTables m → SameTables k → SameTables (m >> k)
unfolding SameTables ◌>>◌ ◌>>=◌
SameTables->> {A} {B} m k hm hk w = go (m w).0 (m w).1 (hm w)
  where
    go :
        (r : Result Error A) (w' : World)
        → w'.tables ≡ w.tables
        → (elim r as (λ _. Result Error B × World) [ ok a ↦ k w' | err e ↦ (err e, w') ]).1.tables
          ≡ w.tables
    go (ok a) w' h = hk w' ∙ h
    go (err e) w' h = h

drop_replies-SameTables : (ids : List Text) → SameTables (drop_replies ids)
unfolding SameTables drop_replies call modify pure best_effort
drop_replies-SameTables ids w = ground arith

audit_each-SameTables : (ids : List Text) (event : Event) → SameTables (audit_each ids event)
unfolding SameTables audit_each pure
audit_each-SameTables [] event w = refl
audit_each-SameTables (id ∷ ids) event w =
    SameTables->> (audit id event) (audit_each ids event)
      (λ v. (Keeps-at (audit id event) v (Keeps-audit id event)).tables)
      (audit_each-SameTables ids event) w

finish_hold-SameTables :
    (to_hold to_release : List Text) → SameTables (finish_hold to_hold to_release)
unfolding finish_hold
finish_hold-SameTables to_hold to_release =
    search (SameTables->>, drop_replies-SameTables, audit_each-SameTables)

SameTables-at : {A : Type 0} (m : M A) (w : World) → SameTables m → (m w).1.tables ≡ w.tables
unfolding SameTables
SameTables-at m w h = h w

sync_hold-tables :
    (in_folder held : List Text) (w : World)
    → w.faults ≡ []
    → (sync_hold in_folder held w).1.tables ≡ reconciled in_folder held w.tables
unfolding sync_hold reconciled ◌>>◌
sync_hold-tables in_folder held w calm =
    let to_hold = without in_folder held in
    let to_release = without held in_folder in
    let w1 = record w { tables = set_on_hold to_hold true w.tables } in
    let w2 = record w1 { tables = set_on_hold to_release false w1.tables } in
    let first = set_hold-run to_hold true w calm in
    let second = set_hold-run to_release false w1 calm in
    let rest : M (Unit {0}) = finish_hold to_hold to_release in
    ap (λ out. out.1.tables)
      (>>=-run (set_hold to_hold true) (λ _. set_hold to_release false >> rest) w w1 tt first)
    ∙ ap (λ out. out.1.tables) (>>=-run (set_hold to_release false) (λ _. rest) w1 w2 tt second)
    ∙ SameTables-at rest w2 (finish_hold-SameTables to_hold to_release)

reconcile_hold-tables :
    (message_ids : List Text) (w : World)
    → w.faults ≡ []
    → (reconcile_hold message_ids w).1.tables
      ≡ reconciled
          (submission_ids_by_message_ids message_ids w.tables)
          (list_held_ids w.tables)
          w.tables
unfolding reconcile_hold
reconcile_hold-tables message_ids w calm =
    let find = λ (v : World). submission_ids_by_message_ids message_ids v.tables in
    let list_held = λ (v : World). list_held_ids v.tables in
    let after = λ (in_folder : List Text). call (gets list_held) >>= sync_hold in_folder in
    ap (λ out. out.1.tables) (>>=-run (call (gets find)) after w w (find w) (read_run find w calm))
    ∙ ap (λ out. out.1.tables)
        (>>=-run (call (gets list_held)) (sync_hold (find w)) w w (list_held w)
          (read_run list_held w calm))
    ∙ sync_hold-tables (find w) (list_held w) w calm

-- After the Hold folder was read, exactly the submissions with a message in it are on hold, when no
-- call fails and the ids are unique.
pub reconcile_hold-IsMember :
    (message_ids : List Text) (w : World)
    → w.faults ≡ []
    → UniqueIds w.tables.submissions
    → All
        (IsMember (submission_ids_by_message_ids message_ids w.tables))
        (reconcile_hold message_ids w).1.tables.submissions
reconcile_hold-IsMember message_ids w calm unique =
    let in_folder = submission_ids_by_message_ids message_ids w.tables in
    subst (λ (t : Tables). All (IsMember in_folder) t.submissions)
      (sym (reconcile_hold-tables message_ids w calm))
      (reconciled-IsMember in_folder w.tables unique)
