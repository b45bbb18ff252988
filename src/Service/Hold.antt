-- ===== src/Service/Hold.antt =====
-- internal/service/submissions.go: syncing on_hold to the Hold folder's membership.
pub mod Flags
pub mod Membership
use submission_triage.Prelude.{
  Bool, true, false, not, List, [], ◌∷◌, Text, text_eq, ◌==◌, codes, contains, keep_if, is_empty,
  if◌then◌else◌,
}
use submission_triage.Repository.Outbox.{expire_pending_for_submissions}
use submission_triage.Repository.Submissions.{
  Tables, submission_ids_by_message_ids, list_held_ids, set_on_hold,
}
use submission_triage.Service.World.{
  World, Event, M, pure, gets, modify, call, best_effort, ◌>>=◌, ◌>>◌, audit,
}

-- The ids of the first list that the second has not.
abbrev pub without : List Text → List Text → List Text
without ids others = keep_if (λ id. not (contains others id)) ids

-- SetOnHold, which makes no call for no id.
set_hold : List Text → Bool → M (Unit {0})
set_hold ids on_hold =
    if is_empty ids
    then pure tt
    else call (modify (λ w. record w { tables = set_on_hold ids on_hold w.tables }))

-- ExpirePendingForSubmissions, whose error is logged.
drop_replies : List Text → M (Unit {0})
drop_replies ids =
    if is_empty ids
    then pure tt
    else best_effort (
        call (
          modify (λ w. record w {
            outbox =
                (expire_pending_for_submissions w.now ids (codes "stale: queued before hold")
                  w.outbox).1;
          })))

audit_each : List Text → Event → M (Unit {0})
audit_each [] event = pure tt
audit_each (id ∷ ids) event = audit id event >> audit_each ids event

-- What follows the two updates.
finish_hold : List Text → List Text → M (Unit {0})
unfolding drop_replies audit_each
finish_hold to_hold to_release = do
  drop_replies to_release
  audit_each to_hold Event.held
  audit_each to_release Event.released

sync_hold : List Text → List Text → M (Unit {0})
unfolding set_hold finish_hold
sync_hold in_folder held = do
  set_hold (without in_folder held) true
  set_hold (without held in_folder) false
  finish_hold (without in_folder held) (without held in_folder)

unfoldable pub reconcile_hold : List Text → M (Unit {0})
unfolding sync_hold
reconcile_hold message_ids = do
  in_folder ← call (gets (λ w. submission_ids_by_message_ids message_ids w.tables))
  held ← call (gets (λ w. list_held_ids w.tables))
  sync_hold in_folder held
