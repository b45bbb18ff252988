-- ===== src/Pkg/EmlParse/Bounce.antt =====
-- pkg/emlparse/emlparse.go: reports about mail that could not be delivered.
use submission_triage.Prelude.{
  zero, suc, Bool, true, false, ◌&&◌, ◌||◌, not, none, some, List, [], ◌∷◌, Text, codes, text_eq,
  ◌==◌, if◌then◌else◌, is_empty, take, drop, trim_space, to_lower, has_prefix, index_of, equal_fold,
  split_lines, trim_set,
}

pub record BounceReport : Type 0 where
  pub delivery_status : Text
  pub original_message_id : Text

-- The loop over the lines of the embedded header block.
id_in_lines : List Text → Text
id_in_lines [] = []
id_in_lines (l ∷ lines) =
    let rest = id_in_lines lines in
    let line = trim_space l in
    if is_empty line
    then []
    else if not (has_prefix (to_lower line) (codes "message-id:"))
    then rest
    else trim_set (codes "<>") (trim_space (drop 11 line))

unfoldable pub original_message_id : Text → Text
unfolding id_in_lines
original_message_id body = id_in_lines (split_lines body [])

-- `email[:at]` for an `@` that is not the first byte.
local_part : Text → Text
local_part email = elim (index_of email (codes "@")) [
  | none ↦ email
  | some zero ↦ email
  | some (suc i) ↦ take (suc i) email
]

unfoldable pub is_daemon_address : Text → Bool
unfolding local_part
is_daemon_address email =
    let local = to_lower (trim_space (local_part email)) in
    local == codes "mailer-daemon" || local == codes "postmaster"

permanent_in_lines : List Text → Bool
permanent_in_lines [] = true
permanent_in_lines (l ∷ lines) =
    let rest = permanent_in_lines lines in
    let line = trim_space l in
    if not (has_prefix (to_lower line) (codes "status:"))
    then rest
    else not (has_prefix (trim_space (drop 7 line)) (codes "4."))

unfoldable pub dsn_permanent : Text → Bool
unfolding permanent_in_lines
dsn_permanent delivery_status = permanent_in_lines (split_lines delivery_status [])

unfoldable pub is_original_message_part : Text → Bool
is_original_message_part part_type =
    part_type == codes "message/rfc822" || part_type == codes "text/rfc822-headers"

-- Whether the message is a report, and whether the failure is for good.
unfoldable pub detect_bounce : Text → (Text → Text) → Text → Text → Text → Bool × Bool
unfolding is_daemon_address dsn_permanent
detect_bounce media_type params from_email return_path delivery_status =
    let report =
      media_type == codes "multipart/report"
      && equal_fold (params (codes "report-type")) (codes "delivery-status") in
    let null_return = trim_space return_path == codes "<>" in
    let bounce =
      report || (is_daemon_address from_email || null_return && not (is_empty delivery_status)) in
    if not bounce then (false, false) else (true, dsn_permanent delivery_status)
