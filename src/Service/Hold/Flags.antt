-- ===== src/Service/Hold/Flags.antt =====
-- internal/repository/submissions.go: what the two updates of a reading of the folder make of the rows.
use mathlib.Core.Path.{subst}
use submission_triage.Prelude.{
  ◌≡◌, refl, sym, ◌∙◌, ap, Bool, true, false, ◌&&◌, not, List, [], ◌∷◌, Text, text_eq, ◌==◌,
  text_beq_iff, ==_refl, contains, keep_if, if◌then◌else◌, any, All, arith, Bool-cases, inl, inr,
  map,
}
use submission_triage.Model.Submission.{Submission}
use submission_triage.Repository.Submissions.{Tables, list_held_ids, set_on_hold}
use submission_triage.Service.Hold.{without}

-- The primary key of the submissions.
abbrev pub UniqueIds : List Submission → Type 0
UniqueIds [] = Unit
UniqueIds (s ∷ rows) = (any (λ r. s.id == r.id) rows ≡ false) × UniqueIds rows

pub contains-without :
    (ids others : List Text) (id : Text)
    → contains (without ids others) id ≡ (contains ids id && not (contains others id))
contains-without [] others id = refl
contains-without (x ∷ ids) others id = elim (Bool-cases (x == id)) [
  | inl e ↦
      rw ((text_beq_iff x id).0 e) (ground (arith, contains-without ids others id, ==_refl id))
  | inr e ↦ ground (arith, e, contains-without ids others id)
]

abbrev pub is_held_as : Text → Submission → Bool
is_held_as id s = s.on_hold && s.id == id

pub contains-list_held_ids :
    (t : Tables) (id : Text) → contains (list_held_ids t) id ≡ any (is_held_as id) t.submissions
unfolding list_held_ids
contains-list_held_ids t id = go t.submissions
  where
    go :
        (rows : List Submission)
        → contains (map (λ (s : Submission). s.id) (keep_if (λ s. s.on_hold) rows)) id
          ≡ any (is_held_as id) rows
    go [] = refl
    go (r ∷ rows) = ground (arith, go rows)

-- A row is held exactly when its id is among the held ones.
pub held_by_id :
    (s : Submission) (rows : List Submission)
    → any (λ r. s.id == r.id) rows ≡ false
    → any (is_held_as s.id) rows ≡ false
held_by_id s [] h = refl
held_by_id s (r ∷ rows) h =
    ground (arith, text_beq_iff s.id r.id, text_beq_iff r.id s.id, held_by_id s rows)

-- A row, and what the two updates make of its flag.
abbrev pub flag_after : List Text → List Text → Submission → Bool
flag_after in_folder held s =
    if contains (without held in_folder) s.id
    then false
    else if contains (without in_folder held) s.id
    then true
    else s.on_hold

pub flag_after-is_member :
    (in_folder held : List Text) (s : Submission)
    → contains held s.id ≡ s.on_hold
    → flag_after in_folder held s ≡ contains in_folder s.id
flag_after-is_member in_folder held s h =
    ground (arith, contains-without held in_folder s.id, contains-without in_folder held s.id, h)

unfoldable pub reconciled : List Text → List Text → Tables → Tables
reconciled in_folder held t =
    set_on_hold (without held in_folder) false (set_on_hold (without in_folder held) true t)

abbrev pub flagged : List Text → List Text → Submission → Submission
flagged in_folder held s = record s { on_hold = flag_after in_folder held s }

pub set_on_hold-rows :
    (ids : List Text) (b : Bool) (t : Tables)
    → (set_on_hold ids b t).submissions
      ≡ map
          (λ (s : Submission). if contains ids s.id then record s { on_hold = b } else s)
          t.submissions
unfolding set_on_hold
set_on_hold-rows [] b t = go t.submissions
  where
    go : (rows : List Submission) → rows ≡ map (λ (s : Submission). s) rows
    go [] = refl
    go (r ∷ rows) = ap (λ rest. r ∷ rest) (go rows)
set_on_hold-rows (i ∷ ids) b t = refl

pub flags_rows :
    (in_folder held : List Text) (rows : List Submission)
    → map
        (λ (s : Submission).
          if contains (without held in_folder) s.id then record s { on_hold = false } else s)
        (map
          (λ (s : Submission).
            if contains (without in_folder held) s.id then record s { on_hold = true } else s)
          rows)
      ≡ map (flagged in_folder held) rows
flags_rows in_folder held [] = refl
flags_rows in_folder held (s ∷ rows) = ground (arith, flags_rows in_folder held rows)

pub reconciled-rows :
    (in_folder held : List Text) (t : Tables)
    → (reconciled in_folder held t).submissions ≡ map (flagged in_folder held) t.submissions
unfolding reconciled
reconciled-rows in_folder held t =
    set_on_hold-rows (without held in_folder) false (set_on_hold (without in_folder held) true t)
    ∙ ap
        (λ rows.
          map
            (λ (s : Submission).
              if contains (without held in_folder) s.id then record s { on_hold = false } else s)
            rows)
        (set_on_hold-rows (without in_folder held) true t)
    ∙ flags_rows in_folder held t.submissions

abbrev pub IsMember : List Text → Submission → Type 0
IsMember in_folder s = s.on_hold ≡ contains in_folder s.id

-- Each row's flag is what the list of held ids says, if the ids are unique.
pub one_more :
    (s : Submission) (all rows : List Submission)
    → any (λ r. s.id == r.id) rows ≡ false
    → All (λ t. any (is_held_as t.id) all ≡ t.on_hold) rows
    → All (λ t. any (is_held_as t.id) (s ∷ all) ≡ t.on_hold) rows
one_more s all [] h held = tt
one_more s all (t ∷ rows) h held =
    (ground (arith, held.0), one_more s all rows (ground arith) held.1)

pub held_flags :
    (rows : List Submission)
    → UniqueIds rows
    → All (λ s. any (is_held_as s.id) rows ≡ s.on_hold) rows
held_flags [] unique = tt
held_flags (s ∷ rows) unique = (
  ground (arith, held_by_id s rows unique.0, ==_refl s.id),
  one_more s rows rows unique.0 (held_flags rows unique.1),
)

pub listed_flags :
    (t : Tables) (rows : List Submission)
    → All (λ s. any (is_held_as s.id) t.submissions ≡ s.on_hold) rows
    → All (λ s. contains (list_held_ids t) s.id ≡ s.on_hold) rows
listed_flags t [] h = tt
listed_flags t (s ∷ rows) h = (contains-list_held_ids t s.id ∙ h.0, listed_flags t rows h.1)

pub members :
    (in_folder held : List Text) (rows : List Submission)
    → All (λ s. contains held s.id ≡ s.on_hold) rows
    → All (IsMember in_folder) (map (flagged in_folder held) rows)
members in_folder held [] h = tt
members in_folder held (s ∷ rows) h =
    (flag_after-is_member in_folder held s h.0, members in_folder held rows h.1)

pub reconciled-IsMember :
    (in_folder : List Text) (t : Tables)
    → UniqueIds t.submissions
    → All (IsMember in_folder) (reconciled in_folder (list_held_ids t) t).submissions
reconciled-IsMember in_folder t unique =
    subst (λ rows. All (IsMember in_folder) rows)
      (sym (reconciled-rows in_folder (list_held_ids t) t))
      (members in_folder (list_held_ids t) t.submissions
        (listed_flags t t.submissions (held_flags t.submissions unique)))
