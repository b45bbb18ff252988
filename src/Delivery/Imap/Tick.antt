-- ===== src/Delivery/Imap/Tick.antt =====
-- internal/delivery/imap: what every call on the mailbox keeps, through a whole tick.
use submission_triage.Prelude.{
  ℕ, inl, inr, Bool, true, false, ◌&&◌, not, Option, none, some, List, [], ◌∷◌, Text, text_eq,
  nat_eq, is_empty, Bool-cases, length, ltb, leb, keep_if, take, ◌++◌, ◌+◌,
}
use submission_triage.Model.Submission.{Time}
use submission_triage.Delivery.Imap.Mailbox.{
  Mail, Post, box_call, mark_seen, Client, keep_under, max_batch_bytes, max_probe_window,
  is_unseen_since, under_cap, fetch_bodies, fetch_unseen, scan_folder, select_folder, scan_mails,
  scan_selected, or_else,
}
use submission_triage.Delivery.Imap.Keeps.{
  box_call-keeps, IsKept, mark_seen-keeps, process_all-keeps,
}
use submission_triage.Delivery.Imap.Poller.{
  Poller, serve, process_all, hold_scanned, reconcile, process_fetched, poll_once,
}

module _ (P : List Mail → Type 0) (kept : IsKept P) where
  keep_under-keeps :
      (max_bytes : ℕ) (ms ks : List Mail) (bytes : ℕ) (p : Post)
      → P p.mails
      → P (keep_under max_bytes ms ks bytes p).1.mails
  unfolding keep_under
  keep_under-keeps max_bytes [] ks bytes p h = h
  keep_under-keeps max_bytes (m ∷ ms) ks bytes p h =
      elim (Bool-cases (ltb max_bytes (length m.raw))) [
        | inl e ↦ simp e (
            keep_under-keeps max_bytes ms ks bytes (mark_seen m.uid p).1
              (mark_seen-keeps P kept m.uid p h))
        | inr e ↦
            elim (Bool-cases (not (is_empty ks) && ltb max_batch_bytes (bytes + length m.raw))) [
              | inl e' ↦ simp (e, e') h
              | inr e' ↦
                  simp (e, e')
                    (keep_under-keeps max_bytes ms (ks ++ m ∷ []) (bytes + length m.raw) p h)
            ]
      ]

  asked-keeps : (p : Post) → P p.mails → P (box_call (λ x. x) p).1.mails
  asked-keeps p h = box_call-keeps P (λ x. x) p h h

  under_cap-keeps :
      (c : Client) (ms : List Mail) (p : Post) → P p.mails → P (under_cap c ms p).1.mails
  unfolding under_cap
  under_cap-keeps c ms p h =
      let q = (box_call (λ x. x) p).1 in
      elim (Bool-cases (leb c.max_bytes 0)) [
        | inl e ↦ simp e h
        | inr e ↦ elim (Bool-cases (box_call (λ x. x) p).0) [
          | inl e' ↦ simp (e, e') (keep_under-keeps c.max_bytes ms [] 0 q (asked-keeps p h))
          | inr e' ↦ simp (e, e') (asked-keeps p h)
        ]
      ]

  fetch_bodies-keeps : (ms : List Mail) (p : Post) → P p.mails → P (fetch_bodies ms p).1.mails
  unfolding fetch_bodies
  fetch_bodies-keeps ms p h = elim (Bool-cases (is_empty ms)) [
    | inl e ↦ simp e h
    | inr e ↦ elim (Bool-cases (box_call (λ x. x) p).0) [
      | inl e' ↦ simp (e, e') (asked-keeps p h)
      | inr e' ↦ simp (e, e') (asked-keeps p h)
    ]
  ]

  fetch_unseen-keeps :
      (c : Client) (limit : ℕ) (since : Time) (p : Post)
      → P p.mails
      → P (fetch_unseen c limit since p).1.mails
  unfolding fetch_unseen
  fetch_unseen-keeps c limit since p h =
      let q = (box_call (λ x. x) p).1 in
      let unseen = take max_probe_window (keep_if (is_unseen_since since) q.mails) in
      let hq = asked-keeps p h in
      elim (Bool-cases (box_call (λ x. x) p).0) [
        | inr e ↦ simp e hq
        | inl e ↦ elim (Bool-cases (is_empty unseen)) [
          | inl e' ↦ simp (e, e') hq
          | inr e' ↦
              simp (e, e')
                (fetch_bodies-keeps _ (under_cap c unseen q).1 (under_cap-keeps c unseen q hq))
        ]
      ]

  or_else-keeps :
      (out : Bool × Post) (k : Post → Bool × Post)
      → P out.1.mails
      → ((q : Post) → P q.mails → P (k q).1.mails)
      → P (or_else out k).1.mails
  or_else-keeps (true, q) k h hk = h
  or_else-keeps (false, q) k h hk = hk q h

  select_folder-keeps : (p : Post) → P p.mails → P (select_folder p).1.mails
  unfolding select_folder
  select_folder-keeps p h =
      or_else-keeps (box_call (λ x. x) p) _ (asked-keeps p h)
        (λ q hq. asked-keeps (box_call (λ x. x) q).1 (asked-keeps q hq))

  scan_mails-keeps :
      (id : Text → Text) (limit : ℕ) (there : List Mail) (q : Post)
      → P q.mails
      → P (scan_mails id limit there q).1.mails
  unfolding scan_mails
  scan_mails-keeps id limit there q h = elim (Bool-cases (is_empty there)) [
    | inl e ↦ simp e h
    | inr e ↦ elim (Bool-cases (box_call (λ x. x) q).0) [
      | inl e' ↦ simp (e, e') (asked-keeps q h)
      | inr e' ↦ simp (e, e') (asked-keeps q h)
    ]
  ]

  scan_selected-keeps :
      (id : Text → Text) (limit : ℕ) (path : Text) (out : Bool × Post)
      → P out.1.mails
      → P (scan_selected id limit path out).1.mails
  unfolding scan_selected
  scan_selected-keeps id limit path (false, q) h = h
  scan_selected-keeps id limit path (true, q) h = scan_mails-keeps id limit _ q h

  hold_scanned-keeps :
      (ids : Option (List Text)) (p : Post) → P p.mails → P (hold_scanned ids p).mails
  unfolding hold_scanned serve
  hold_scanned-keeps none p h = h
  hold_scanned-keeps (some ids) p h = h

  reconcile-keeps : (cfg : Poller) (p : Post) → P p.mails → P (reconcile cfg p).mails
  unfolding reconcile scan_folder
  reconcile-keeps cfg p h = elim (Bool-cases (is_empty cfg.hold_folder)) [
    | inl e ↦ simp e h
    | inr e ↦ simp e (
        hold_scanned-keeps _ _
          (scan_selected-keeps _ _ _ (select_folder p) (select_folder-keeps p h)))
  ]

  process_fetched-keeps :
      (cfg : Poller) (ms : Option (List Mail)) (p : Post)
      → P p.mails
      → P (process_fetched cfg ms p).mails
  unfolding process_fetched
  process_fetched-keeps cfg none p h = h
  process_fetched-keeps cfg (some ms) p h =
      reconcile-keeps cfg (process_all cfg ms p) (process_all-keeps P kept cfg ms p h)

  -- Whatever fails in it, a tick keeps what marking, flagging and filing keep.
  pub poll_once-keeps :
      (cfg : Poller) (cutoff : Time) (connected : Bool) (p : Post)
      → P p.mails
      → P (poll_once cfg cutoff connected p).mails
  unfolding poll_once
  poll_once-keeps cfg cutoff true p h =
      process_fetched-keeps cfg _ _ (fetch_unseen-keeps cfg.client cfg.batch_limit cutoff p h)
  poll_once-keeps cfg cutoff false p h = h
