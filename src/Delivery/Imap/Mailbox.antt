-- ===== src/Delivery/Imap/Mailbox.antt =====
-- internal/delivery/imap/client.go: the mailbox, as the server keeps it, and the calls on it.
use submission_triage.Prelude.{
  ℕ, ◌+◌, ◌/◌, Bool, true, false, ◌&&◌, ◌||◌, not, Option, none, some, List, [], ◌∷◌, ◌++◌, map,
  Text, codes, text_eq, nat_eq, ◌==◌, if◌then◌else◌, is_empty, keep_if, take, length, ltb, leb,
  trim_set,
}
use submission_triage.Model.Submission.{Time}
use submission_triage.Model.Digest.{day}
use submission_triage.Repository.IngestControl.{Control}
use submission_triage.Service.World.{World}

-- A message; `folder` is none in the inbox, `delivered` its internal date.
pub record Mail : Type 0 where
  pub uid : ℕ
  pub raw : Text
  pub delivered : Time
  pub seen : Bool
  pub flagged : Bool
  pub deleted : Bool
  pub folder : Option Text

-- What the server can do, besides copying.
pub record Caps : Type 0 where
  pub can_move : Bool
  pub uid_plus : Bool

-- What a tick works on: the service's world, the poller's own tables, and the mailbox, with whether
-- each of the next calls on the tables or the mailbox fails; past the end none does.
pub record Post : Type 0 where
  pub world : World
  pub control : Control
  pub mails : List Mail
  pub uid_validity : ℕ
  pub caps : Caps
  pub faults : List Bool

abbrev pub next_fails : List Bool → Bool
next_fails [] = false
next_fails (b ∷ _) = b

abbrev pub later : List Bool → List Bool
later [] = []
later (_ ∷ bs) = bs

-- One call on the mailbox, and whether it went well.
unfoldable pub box_call : (List Mail → List Mail) → Post → Bool × Post
box_call f p =
    let q = record p { faults = later p.faults } in
    if next_fails p.faults then (false, q) else (true, record q { mails = f p.mails })

abbrev pub in_inbox : Option Text → Bool
in_inbox none = true
in_inbox (some _) = false

-- The message of a UID, which names one in the inbox alone.
abbrev pub is_uid : ℕ → Mail → Bool
is_uid uid m = m.uid == uid && in_inbox m.folder

unfoldable pub set_seen : ℕ → List Mail → List Mail
set_seen uid ms = map (λ m. if is_uid uid m then record m { seen = true } else m) ms

unfoldable pub set_flagged : ℕ → List Mail → List Mail
set_flagged uid ms = map (λ m. if is_uid uid m then record m { flagged = true } else m) ms

unfoldable pub set_deleted : ℕ → List Mail → List Mail
set_deleted uid ms = map (λ m. if is_uid uid m then record m { deleted = true } else m) ms

unfoldable pub moved : ℕ → Text → List Mail → List Mail
moved uid folder ms = map (λ m. if is_uid uid m then record m { folder = some folder } else m) ms

-- The copies keep the flags; the originals stay.
unfoldable pub copied : ℕ → Text → List Mail → List Mail
copied uid folder ms =
    map (λ (m : Mail). record m { folder = some folder }) (keep_if (is_uid uid) ms) ++ ms

-- UID EXPUNGE takes what is marked as deleted.
unfoldable pub expunged : ℕ → List Mail → List Mail
expunged uid ms = keep_if (λ m. not (is_uid uid m && m.deleted)) ms

unfoldable pub mark_seen : ℕ → Post → Bool × Post
unfolding box_call set_seen
mark_seen uid p = box_call (set_seen uid) p

unfoldable pub flag : ℕ → Post → Bool × Post
unfolding box_call set_flagged
flag uid p = box_call (set_flagged uid) p

-- A step that goes on with the state when the one before it went well.
abbrev pub and_then : Bool × Post → (Post → Bool × Post) → Bool × Post
and_then (true, p) k = k p
and_then (false, p) k = (false, p)

abbrev pub or_else : Bool × Post → (Post → Bool × Post) → Bool × Post
or_else (true, p) k = (true, p)
or_else (false, p) k = k p

-- `withCreate`: CREATE, whatever it says, and the operation once more.
unfoldable pub with_create : (List Mail → List Mail) → Post → Bool × Post
unfolding box_call
with_create op p =
    or_else (box_call op p) (λ q. let (_, r) = box_call (λ ms. ms) q in box_call op r)

unfoldable pub file_by_ladder : ℕ → Text → Post → Bool × Post
unfolding with_create box_call moved copied set_deleted expunged
file_by_ladder uid folder p =
    if p.caps.can_move
    then with_create (moved uid folder) p
    else if p.caps.uid_plus
    then and_then (with_create (copied uid folder) p)
        (λ q. and_then (box_call (set_deleted uid) q) (box_call (expunged uid)))
    else with_create (copied uid folder) p

-- The configuration of the client.
pub record Client : Type 0 where
  pub max_bytes : ℕ
  pub folder_prefix : Text
  pub delim : Text

unfoldable pub folder_path : Client → Text → Text
folder_path c leaf = if is_empty c.folder_prefix then leaf else c.folder_prefix ++ (c.delim ++ leaf)

unfoldable pub file : Client → ℕ → Text → Post → Bool × Post
unfolding file_by_ladder folder_path
file c uid folder p = file_by_ladder uid (folder_path c folder) p

-- `maxProbeWindow` and `maxBatchBytes`
abbrev pub max_probe_window : ℕ
max_probe_window = 500

abbrev pub max_batch_bytes : ℕ
max_batch_bytes = 67108864

-- The loop of `underCap`, with what is kept and its bytes.
unfoldable pub keep_under : ℕ → List Mail → List Mail → ℕ → Post → List Mail × Post
unfolding mark_seen
keep_under max_bytes [] kept bytes p = (kept, p)
keep_under max_bytes (m ∷ ms) kept bytes p =
    let size = length m.raw in
    let dropped = keep_under max_bytes ms kept bytes (mark_seen m.uid p).1 in
    let added = keep_under max_bytes ms (kept ++ m ∷ []) (bytes + size) p in
    if ltb max_bytes size
    then dropped
    else if not (is_empty kept) && ltb max_batch_bytes (bytes + size)
    then (kept, p)
    else added

-- A failed probe of the sizes lets the fetch decide.
unfoldable pub under_cap : Client → List Mail → Post → List Mail × Post
unfolding keep_under box_call
under_cap c ms p =
    let (answered, q) = box_call (λ x. x) p in
    if leb c.max_bytes 0
    then (ms, p)
    else if answered
    then keep_under c.max_bytes ms [] 0 q
    else (ms, q)

-- SEARCH UNSEEN SINCE, which looks at the day alone; 0 is no date.
abbrev pub is_unseen_since : Time → Mail → Bool
is_unseen_since since m =
    not m.seen && (in_inbox m.folder && (since == 0 || leb (since / day) (m.delivered / day)))

unfoldable pub up_to : ℕ → List Mail → List Mail
up_to limit ms = if ltb 0 limit then take limit ms else ms

-- The fetch of the bodies, which is not made for no UID.
unfoldable pub fetch_bodies : List Mail → Post → Option (List Mail) × Post
unfolding box_call
fetch_bodies ms p =
    let (answered, q) = box_call (λ x. x) p in
    if is_empty ms then (some [], p) else if answered then (some ms, q) else (none, q)

-- `FetchUnseen`, none for its error.
unfoldable pub fetch_unseen : Client → ℕ → Time → Post → Option (List Mail) × Post
unfolding box_call under_cap up_to fetch_bodies
fetch_unseen c limit since p =
    let (answered, q) = box_call (λ x. x) p in
    let unseen = take max_probe_window (keep_if (is_unseen_since since) q.mails) in
    let (kept, r) = under_cap c unseen q in
    if not answered
    then (none, q)
    else if is_empty unseen
    then (some [], q)
    else fetch_bodies (up_to limit kept) r

abbrev in_folder : Text → Option Text → Bool
in_folder path none = false
in_folder path (some f) = f == path

-- A folder that cannot be selected is created and selected once more.
unfoldable pub select_folder : Post → Bool × Post
unfolding box_call
select_folder p =
    or_else (box_call (λ x. x) p) (λ q. let (_, r) = box_call (λ x. x) q in box_call (λ x. x) r)

-- The fetch of the envelopes, which is not made for an empty folder.
unfoldable pub scan_mails : (Text → Text) → ℕ → List Mail → Post → Option (List Text) × Post
unfolding box_call up_to
scan_mails message_id limit there q =
    let (answered, r) = box_call (λ x. x) q in
    let ids = map (λ (m : Mail). trim_set (codes "<>") (message_id m.raw)) (up_to limit there) in
    if is_empty there
    then (some [], q)
    else if answered
    then (some (keep_if (λ id. not (is_empty id)) ids), r)
    else (none, r)

unfoldable pub scan_selected : (Text → Text) → ℕ → Text → Bool × Post → Option (List Text) × Post
unfolding scan_mails
scan_selected message_id limit path (false, q) = (some [], q)
scan_selected message_id limit path (true, q) =
    scan_mails message_id limit (keep_if (λ (m : Mail). in_folder path m.folder) q.mails) q

-- `ScanFolder`: none for the error of the fetch, and no id for a folder that cannot be selected. The
-- Message-ID of an envelope is given.
unfoldable pub scan_folder : (Text → Text) → Client → Text → ℕ → Post → Option (List Text) × Post
unfolding select_folder scan_selected folder_path
scan_folder message_id c folder limit p =
    scan_selected message_id limit (folder_path c folder) (select_folder p)
