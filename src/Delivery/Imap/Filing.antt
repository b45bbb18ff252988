-- ===== src/Delivery/Imap/Filing.antt =====
-- internal/delivery/imap/client.go: the ways to file a message, and what becomes of the mailbox.
use mathlib.Core.Path.{subst}
use submission_triage.Prelude.{
  ℕ, ◌≡◌, refl, sym, ap, ◌⊎◌, inl, inr, Bool, true, false, ◌&&◌, not, some, List, [], ◌∷◌, ◌++◌,
  map, Text, text_eq, nat_eq, if◌then◌else◌, keep_if, All, All-keep_if, arith, Bool-cases,
}
use submission_triage.Model.Submission.{Time}
use submission_triage.Delivery.Imap.Mailbox.{
  Mail, Post, next_fails, later, box_call, in_inbox, is_uid, set_seen, set_flagged, set_deleted,
  moved, copied, expunged, and_then, with_create, file_by_ladder, folder_path, file,
}
use submission_triage.Delivery.Imap.Poller.{Poller, poll_once}
use submission_triage.Delivery.Imap.Keeps.{IsReady, IsKept}
use submission_triage.Delivery.Imap.Tick.{poll_once-keeps}

-- What the operations of filing keep of the messages, where the filed one is seen.
pub record IsFileable (P : List Mail → Type 0) : Type 0 where
  pub at_move : (uid : ℕ) (f : Text) (ms : List Mail) → IsReady uid ms → P ms → P (moved uid f ms)
  pub at_copy : (uid : ℕ) (f : Text) (ms : List Mail) → IsReady uid ms → P ms → P (copied uid f ms)
  pub at_delete :
      (uid : ℕ) (f : Text) (ms : List Mail)
      → IsReady uid ms
      → P ms
      → P (set_deleted uid (copied uid f ms))
  pub at_expunge :
      (uid : ℕ) (f : Text) (ms : List Mail)
      → IsReady uid ms
      → P ms
      → P (expunged uid (set_deleted uid (copied uid f ms)))

-- An operation that is tried twice is done once or not at all.
with_create-mails :
    (op : List Mail → List Mail) (p : Post)
    → (((with_create op p).0 ≡ true) × ((with_create op p).1.mails ≡ op p.mails))
      ⊎ (((with_create op p).0 ≡ false) × ((with_create op p).1.mails ≡ p.mails))
unfolding with_create box_call
with_create-mails op p = elim (Bool-cases (next_fails p.faults)) [
  | inr e ↦ inl (simp e (refl, refl))
  | inl e ↦ elim (Bool-cases (next_fails (later p.faults))) [
    | inl e1 ↦ elim (Bool-cases (next_fails (later (later p.faults)))) [
      | inl e2 ↦ inr (simp (e, e1, e2) (refl, refl))
      | inr e2 ↦ inl (simp (e, e1, e2) (refl, refl))
    ]
    | inr e1 ↦ elim (Bool-cases (next_fails (later (later p.faults)))) [
      | inl e2 ↦ inr (simp (e, e1, e2) (refl, refl))
      | inr e2 ↦ inl (simp (e, e1, e2) (refl, refl))
    ]
  ]
]

module _ (P : List Mail → Type 0) (fileable : IsFileable P) where
  with_create-keeps :
      (op : List Mail → List Mail) (p : Post)
      → P p.mails
      → P (op p.mails)
      → P (with_create op p).1.mails
  with_create-keeps op p h hop = elim (with_create-mails op p) [
    | inl (_, e) ↦ subst P (sym e) hop
    | inr (_, e) ↦ subst P (sym e) h
  ]

  -- After the copy: the mark and the expunge.
  expunge-keeps :
      (uid : ℕ) (f : Text) (ms : List Mail) (q : Post)
      → IsReady uid ms
      → P ms
      → q.mails ≡ copied uid f ms
      → P (and_then (box_call (set_deleted uid) q) (box_call (expunged uid))).1.mails
  unfolding box_call
  expunge-keeps uid f ms q ready h e =
      let copy = subst P (sym e) (fileable.at_copy uid f ms ready h) in
      let mark = subst P (sym (ap (set_deleted uid) e)) (fileable.at_delete uid f ms ready h) in
      let gone =
        subst P (sym (ap (λ x. expunged uid (set_deleted uid x)) e))
          (fileable.at_expunge uid f ms ready h) in
      elim (Bool-cases (next_fails q.faults)) [
        | inl e1 ↦ simp e1 copy
        | inr e1 ↦ elim (Bool-cases (next_fails (later q.faults))) [
          | inl e2 ↦ simp (e1, e2) mark
          | inr e2 ↦ simp (e1, e2) gone
        ]
      ]

  copy_away-keeps :
      (uid : ℕ) (f : Text) (ms : List Mail) (out : Bool × Post)
      → IsReady uid ms
      → P ms
      → (((out.0 ≡ true) × (out.1.mails ≡ copied uid f ms))
          ⊎ ((out.0 ≡ false) × (out.1.mails ≡ ms)))
      → P
          (and_then out
            (λ q. and_then (box_call (set_deleted uid) q) (box_call (expunged uid)))).1.mails
  copy_away-keeps uid f ms (true, q) ready h (inl (_, e)) = expunge-keeps uid f ms q ready h e
  copy_away-keeps uid f ms (true, q) ready h (inr (failed, _)) = cc
  copy_away-keeps uid f ms (false, q) ready h (inl (done, _)) = cc
  copy_away-keeps uid f ms (false, q) ready h (inr (_, e)) = subst P (sym e) h

  pub file_by_ladder-keeps :
      (uid : ℕ) (f : Text) (p : Post)
      → IsReady uid p.mails
      → P p.mails
      → P (file_by_ladder uid f p).1.mails
  unfolding file_by_ladder
  file_by_ladder-keeps uid f p ready h =
      let copy = with_create-keeps (copied uid f) p h (fileable.at_copy uid f p.mails ready h) in
      elim (Bool-cases p.caps.can_move) [
        | inl e ↦
            simp e (with_create-keeps (moved uid f) p h (fileable.at_move uid f p.mails ready h))
        | inr e ↦ elim (Bool-cases p.caps.uid_plus) [
          | inl e' ↦
              simp (e, e')
                (copy_away-keeps uid f p.mails (with_create (copied uid f) p) ready h
                  (with_create-mails (copied uid f) p))
          | inr e' ↦ simp (e, e') copy
        ]
      ]

-- A message that was filed is seen.
abbrev pub IsFiledSeen : Mail → Type 0
IsFiledSeen m = (in_inbox m.folder ≡ true) ⊎ (m.seen ≡ true)

abbrev pub AllFiledSeen : List Mail → Type 0
AllFiledSeen ms = All IsFiledSeen ms

-- A change of each message that keeps it orderly, where those of the UID are seen.
All-map_ready :
    (uid : ℕ) (f : Mail → Mail) (ms : List Mail)
    → ((m : Mail) → (is_uid uid m ≡ true → m.seen ≡ true) → IsFiledSeen m → IsFiledSeen (f m))
    → IsReady uid ms
    → AllFiledSeen ms
    → AllFiledSeen (map f ms)
All-map_ready uid f [] hf ready h = tt
All-map_ready uid f (m ∷ ms) hf ready h = (hf m ready.0 h.0, All-map_ready uid f ms hf ready.1 h.1)

AllFiledSeen-copies :
    (uid : ℕ) (f : Text) (ms ns : List Mail)
    → IsReady uid ms
    → AllFiledSeen ns
    → AllFiledSeen
        (map (λ (m : Mail). record m { folder = some f }) (keep_if (is_uid uid) ms) ++ ns)
AllFiledSeen-copies uid f [] ns ready h = h
AllFiledSeen-copies uid f (m ∷ ms) ns ready h = elim (Bool-cases (is_uid uid m)) [
  | inl e ↦ simp e (inr (ready.0 e), AllFiledSeen-copies uid f ms ns ready.1 h)
  | inr e ↦ simp e (AllFiledSeen-copies uid f ms ns ready.1 h)
]

AllFiledSeen-map :
    (f : Mail → Mail) (ms : List Mail)
    → ((m : Mail) → IsFiledSeen m → IsFiledSeen (f m))
    → AllFiledSeen ms
    → AllFiledSeen (map f ms)
AllFiledSeen-map f [] hf h = tt
AllFiledSeen-map f (m ∷ ms) hf h = (hf m h.0, AllFiledSeen-map f ms hf h.1)

AllFiledSeen-IsFileable : IsFileable AllFiledSeen
unfolding moved copied set_deleted expunged
AllFiledSeen-IsFileable =
    let copy =
      λ (uid : ℕ) (f : Text) (ms : List Mail) (ready : IsReady uid ms) (h : AllFiledSeen ms).
        AllFiledSeen-copies uid f ms ms ready h in
    let delete =
      λ (uid : ℕ) (f : Text) (ms : List Mail) (ready : IsReady uid ms) (h : AllFiledSeen ms).
        AllFiledSeen-map (λ m. if is_uid uid m then record m { deleted = true } else m) _
          (λ m hm. ground (arith, hm)) (copy uid f ms ready h) in
    record {
      at_move = λ uid f ms ready h.
          All-map_ready uid (λ m. if is_uid uid m then record m { folder = some f } else m) ms
            (λ m r hm. ground (arith, r, hm)) ready h;
      at_copy = copy;
      at_delete = delete;
      at_expunge = λ uid f ms ready h.
          All-keep_if IsFiledSeen (λ m. not (is_uid uid m && m.deleted)) _
            (delete uid f ms ready h);
    }

AllFiledSeen-IsKept : IsKept AllFiledSeen
unfolding set_seen set_flagged file
AllFiledSeen-IsKept = record {
  seen = λ uid ms h.
      AllFiledSeen-map (λ m. if is_uid uid m then record m { seen = true } else m) ms
        (λ m hm. ground (arith, hm)) h;
  flagged = λ uid ms h.
      AllFiledSeen-map (λ m. if is_uid uid m then record m { flagged = true } else m) ms
        (λ m hm. ground (arith, hm)) h;
  filed = λ c uid folder p ready h.
      file_by_ladder-keeps AllFiledSeen AllFiledSeen-IsFileable uid (folder_path c folder) p ready
        h;
}

-- No tick leaves an unread message in another folder than the inbox, whatever fails in it, where
-- there was none before.
pub poll_once-AllFiledSeen :
    (cfg : Poller) (cutoff : Time) (connected : Bool) (p : Post)
    → AllFiledSeen p.mails
    → AllFiledSeen (poll_once cfg cutoff connected p).mails
poll_once-AllFiledSeen = poll_once-keeps AllFiledSeen AllFiledSeen-IsKept
