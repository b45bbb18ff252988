-- ===== src/Delivery/Imap/Loss.antt =====
-- internal/delivery/imap/client.go: filing loses no message.
use submission_triage.Prelude.{
  ℕ, ◌≡◌, refl, sym, ◌∙◌, ap, inl, inr, Bool, true, false, ◌||◌, not, some, List, [], ◌∷◌, ◌++◌,
  map, Text, text_eq, nat_eq, ◌==◌, if◌then◌else◌, any, keep_if, arith, Bool-cases,
}
use submission_triage.Model.Submission.{Time}
use submission_triage.Delivery.Imap.Mailbox.{
  Mail, Post, is_uid, set_seen, set_flagged, set_deleted, moved, copied, expunged, folder_path,
  file,
}
use submission_triage.Delivery.Imap.Poller.{Poller, poll_once}
use submission_triage.Delivery.Imap.Keeps.{IsKept}
use submission_triage.Delivery.Imap.Tick.{poll_once-keeps}
use submission_triage.Delivery.Imap.Filing.{IsFileable, file_by_ladder-keeps}

abbrev pub has : Text → List Mail → Bool
has r ms = any (λ m. m.raw == r) ms

-- A message with these bytes is somewhere in the mailbox.
abbrev pub Has : Text → List Mail → Type 0
Has r ms = has r ms ≡ true

has-map :
    (r : Text) (f : Mail → Mail) (ms : List Mail)
    → ((m : Mail) → (f m).raw ≡ m.raw)
    → has r (map f ms) ≡ has r ms
has-map r f [] h = refl
has-map r f (m ∷ ms) h = rw (h m) (ap (λ b. (m.raw == r) || b) (has-map r f ms h))

has-append : (r : Text) (xs ys : List Mail) → has r (xs ++ ys) ≡ (has r xs || has r ys)
has-append r [] ys = refl
has-append r (x ∷ xs) ys = ground (arith, has-append r xs ys)

abbrev copy_to : Text → Mail → Mail
copy_to f m = record m { folder = some f }

expunged-rest :
    (uid : ℕ) (ms : List Mail)
    → expunged uid (set_deleted uid ms) ≡ keep_if (λ m. not (is_uid uid m)) ms
unfolding expunged set_deleted
expunged-rest uid [] = refl
expunged-rest uid (m ∷ ms) = elim (Bool-cases (is_uid uid m)) [
  | inl e ↦ simp e (ground (arith, e, expunged-rest uid ms))
  | inr e ↦ simp e (ground (arith, e, expunged-rest uid ms))
]

keep_if-append :
    (p : Mail → Bool) (xs ys : List Mail) → keep_if p (xs ++ ys) ≡ keep_if p xs ++ keep_if p ys
keep_if-append p [] ys = refl
keep_if-append p (x ∷ xs) ys = elim (Bool-cases (p x)) [
  | inl e ↦ simp e (ap (λ t. x ∷ t) (keep_if-append p xs ys))
  | inr e ↦ simp e (keep_if-append p xs ys)
]

-- A copy is in a folder, where no UID of the inbox names it.
copies_stay :
    (uid : ℕ) (f : Text) (ms : List Mail)
    → keep_if (λ m. not (is_uid uid m)) (map (copy_to f) ms) ≡ map (copy_to f) ms
copies_stay uid f [] = refl
copies_stay uid f (m ∷ ms) = ground (arith, copies_stay uid f ms)

has_split :
    (r : Text) (p : Mail → Bool) (ms : List Mail)
    → has r ms ≡ (has r (keep_if p ms) || has r (keep_if (λ m. not (p m)) ms))
has_split r p [] = refl
has_split r p (m ∷ ms) = ground (arith, has_split r p ms)

-- Copying, marking and expunging a message leaves its copy.
has-copied_away :
    (r : Text) (uid : ℕ) (f : Text) (ms : List Mail)
    → has r (expunged uid (set_deleted uid (copied uid f ms))) ≡ has r ms
unfolding copied
has-copied_away r uid f ms =
    let those = keep_if (is_uid uid) ms in
    let others = keep_if (λ m. not (is_uid uid m)) ms in
    ap (has r) (
      expunged-rest uid (map (copy_to f) those ++ ms)
      ∙ keep_if-append (λ m. not (is_uid uid m)) (map (copy_to f) those) ms
      ∙ ap (λ t. t ++ others) (copies_stay uid f those))
    ∙ has-append r (map (copy_to f) those) others
    ∙ ap (λ b. b || has r others) (has-map r (copy_to f) those (λ m. refl))
    ∙ sym (has_split r (is_uid uid) ms)

raw_if : (b : Bool) (m n : Mail) → n.raw ≡ m.raw → (if b then n else m).raw ≡ m.raw
raw_if true m n h = h
raw_if false m n h = refl

Has-copied : (r : Text) (uid : ℕ) (f : Text) (ms : List Mail) → Has r ms → Has r (copied uid f ms)
unfolding copied
Has-copied r uid f ms h =
    ground (arith, h, has-append r (map (copy_to f) (keep_if (is_uid uid) ms)) ms)

Has-IsFileable : (r : Text) → IsFileable (Has r)
unfolding moved set_deleted
Has-IsFileable r = record {
  at_move = λ uid f ms ready h. has-map r _ ms (λ m. raw_if (is_uid uid m) m _ refl) ∙ h;
  at_copy = λ uid f ms ready h. Has-copied r uid f ms h;
  at_delete = λ uid f ms ready h.
      has-map r _ (copied uid f ms) (λ m. raw_if (is_uid uid m) m _ refl) ∙ Has-copied r uid f ms h;
  at_expunge = λ uid f ms ready h. has-copied_away r uid f ms ∙ h;
}

Has-IsKept : (r : Text) → IsKept (Has r)
unfolding set_seen set_flagged file
Has-IsKept r = record {
  seen = λ uid ms h. has-map r _ ms (λ m. raw_if (is_uid uid m) m _ refl) ∙ h;
  flagged = λ uid ms h. has-map r _ ms (λ m. raw_if (is_uid uid m) m _ refl) ∙ h;
  filed = λ c uid folder p ready h.
      file_by_ladder-keeps (Has r) (Has-IsFileable r) uid (folder_path c folder) p ready h;
}

-- No tick loses a message: what was in the mailbox is still in it, with whichever calls failing and
-- whatever the server can do.
pub poll_once-Has :
    (cfg : Poller) (cutoff : Time) (connected : Bool) (p : Post) (r : Text)
    → Has r p.mails
    → Has r (poll_once cfg cutoff connected p).mails
poll_once-Has cfg cutoff connected p r =
    poll_once-keeps (Has r) (Has-IsKept r) cfg cutoff connected p
