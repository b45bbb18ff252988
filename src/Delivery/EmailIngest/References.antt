-- ===== src/Delivery/EmailIngest/References.antt =====
-- internal/delivery/emailingest/translate.go: the ids of a References header.
use mathlib.Core.List.{reverse-reverse, reverse-append, reverse-cons}
use mathlib.Core.Path.{subst}
use submission_triage.Prelude.{
  trim_left_set, ℕ, zero, suc, ◌+◌, ◌≤◌, ◌≡◌, refl, sym, ◌∙◌, ap, ◌≢◌, none, some, List, [], ◌∷◌,
  ◌++◌, map, reverse, All, Text, codes, take, drop, length, index_of, has_prefix, trim_set, arith,
}
use submission_triage.Delivery.EmailIngest.{
  trim_angle, trim_angles, open_id, close_id, bracketed_ids, split_references,
}

abbrev pub Free : ℕ → Text → Type 0
Free c s = All (λ x. x ≢ c) s

index_of-Free :
    (c : ℕ) (sep t : Text) → Free c sep → index_of (sep ++ c ∷ t) (c ∷ []) ≡ some (length sep)
unfolding index_of has_prefix
index_of-Free c [] t h = ground arith
index_of-Free c (x ∷ sep) t h = ground (arith, h.0, index_of-Free c sep t h.1)

index_of_absent : (c : ℕ) (s : Text) → Free c s → index_of s (c ∷ []) ≡ none
unfolding index_of has_prefix
index_of_absent c [] h = refl
index_of_absent c (x ∷ s) h = ground (arith, h.0, index_of_absent c s h.1)

drop-length : (xs ys : Text) → drop (length xs) (xs ++ ys) ≡ ys
drop-length [] ys = refl
drop-length (x ∷ xs) ys = drop-length xs ys

drop-past : (c : ℕ) (xs ys : Text) → drop (suc (length xs)) (xs ++ c ∷ ys) ≡ ys
drop-past c [] ys = refl
drop-past c (x ∷ xs) ys = drop-past c xs ys

take-past : (c : ℕ) (xs ys : Text) → take (suc (length xs)) (xs ++ c ∷ ys) ≡ xs ++ c ∷ []
take-past c [] ys = refl
take-past c (x ∷ xs) ys = ap (λ t. x ∷ t) (take-past c xs ys)

-- A header's text: separators and ids in brackets, and what follows the last one.
abbrev pub written : List (Text × Text) → Text → Text
written [] tail = tail
written ((sep, id) ∷ r) tail = sep ++ b'<' ∷ (id ++ b'>' ∷ written r tail)

abbrev pub bracketed : Text → Text
bracketed id = b'<' ∷ (id ++ b'>' ∷ [])

-- No separator opens a bracket and no id closes one.
abbrev pub IsFolded : Text × Text → Type 0
IsFolded (sep, id) = Free b'<' sep × Free b'>' id

open_id-round :
    (more : Text → List Text) (sep id t : Text)
    → Free b'>' id
    → open_id more (sep ++ b'<' ∷ (id ++ b'>' ∷ t)) (some (length sep)) ≡ bracketed id ∷ more t
unfolding open_id close_id
open_id-round more sep id t hi =
    let rest = b'<' ∷ (id ++ b'>' ∷ t) in
    let opening : Text = b'<' ∷ id in
    let free : Free b'>' opening = ((λ e. omega (arith, e)), hi) in
    simp (drop-length sep rest) (
      simp (index_of-Free b'>' opening t free)
        (simp (take-past b'>' opening t, drop-past b'>' opening t) refl))

-- One id of the header is one round.
bracketed_ids-round :
    (f : ℕ) (sep id t : Text)
    → Free b'<' sep
    → Free b'>' id
    → bracketed_ids (suc f) (sep ++ b'<' ∷ (id ++ b'>' ∷ t)) ≡ bracketed id ∷ bracketed_ids f t
unfolding bracketed_ids
bracketed_ids-round f sep id t hs hi =
    ap (open_id (bracketed_ids f) _) (index_of-Free b'<' sep (id ++ b'>' ∷ t) hs)
    ∙ open_id-round (bracketed_ids f) sep id t hi

bracketed_ids-written :
    (f : ℕ) (r : List (Text × Text)) (tail : Text)
    → length r ≤ f
    → All IsFolded r
    → Free b'<' tail
    → bracketed_ids f (written r tail) ≡ map (λ (x : Text × Text). bracketed x.1) r
bracketed_ids-written zero [] tail h folded free = unfold bracketed_ids in refl
bracketed_ids-written (suc f) [] tail h folded free =
    unfold bracketed_ids open_id in rw (index_of_absent b'<' tail free) refl
bracketed_ids-written zero (x ∷ r) tail h folded free = let no : ⊥ = omega (arith, h) in absurd no
bracketed_ids-written (suc f) ((sep, id) ∷ r) tail h folded free =
    bracketed_ids-round f sep id (written r tail) folded.0.0 folded.0.1
    ∙ ap (λ t. bracketed id ∷ t) (bracketed_ids-written f r tail (omega (arith, h)) folded.1 free)

length-append : (xs ys : Text) → length (xs ++ ys) ≡ length xs + length ys
length-append [] ys = omega arith
length-append (x ∷ xs) ys = omega (arith, length-append xs ys)

length-written : (r : List (Text × Text)) (tail : Text) → length r ≤ length (written r tail)
length-written [] tail = omega arith
length-written ((sep, id) ∷ r) tail = omega (
  arith,
  length-append sep (b'<' ∷ (id ++ b'>' ∷ written r tail)),
  length-append id (b'>' ∷ written r tail),
  length-written r tail,
)

-- What the header loop makes of a header's text: the ids in their brackets.
pub split_references-written :
    (x : Text × Text) (r : List (Text × Text)) (tail : Text)
    → All IsFolded (x ∷ r)
    → Free b'<' tail
    → split_references (written (x ∷ r) tail) ≡ map (λ (y : Text × Text). bracketed y.1) (x ∷ r)
unfolding split_references
split_references-written x r tail folded free =
    simp (bracketed_ids-written _ (x ∷ r) tail (length-written (x ∷ r) tail) folded free) refl

-- An id that is not empty and holds no bracket.
abbrev pub IsBare : Text → Type 0
IsBare id = (id ≢ []) × (Free b'<' id × Free b'>' id)

All-snoc : (c x : ℕ) (s : Text) → Free c s → x ≢ c → Free c (s ++ x ∷ [])
All-snoc c x [] h hx = (hx, tt)
All-snoc c x (y ∷ s) h hx = (h.0, All-snoc c x s h.1 hx)

Free-reverse : (c : ℕ) (s : Text) → Free c s → Free c (reverse s)
Free-reverse c [] h = tt
Free-reverse c (x ∷ s) h =
    subst (Free c) (sym (reverse-cons x s)) (All-snoc c x (reverse s) (Free-reverse c s h.1) h.0)

trim_left_set-Free : (s : Text) → Free b'<' s → Free b'>' s → trim_left_set (codes "<>") s ≡ s
unfolding trim_left_set
trim_left_set-Free [] h h' = refl
trim_left_set-Free (c ∷ s) h h' = ground (arith, h.0, h'.0)

trim_left_set-append :
    (c : ℕ) (s t : Text)
    → c ≢ b'<'
    → c ≢ b'>'
    → trim_left_set (codes "<>") (c ∷ s ++ t) ≡ c ∷ s ++ t
unfolding trim_left_set
trim_left_set-append c s t h h' = ground (arith, h, h')

trim_angle-bracketed : (id : Text) → IsBare id → trim_angle (bracketed id) ≡ id
unfolding trim_angle trim_set
trim_angle-bracketed [] h = absurd (h.0 refl)
trim_angle-bracketed (c ∷ id) (ne, (lt, gt)) =
    let opened = trim_left_set-append c id (b'>' ∷ []) lt.0 gt.0 in
    let bare =
      trim_left_set-Free (reverse (c ∷ id)) (Free-reverse b'<' (c ∷ id) lt)
        (Free-reverse b'>' (c ∷ id) gt) in
    ap (λ s. reverse (trim_left_set (codes "<>") (reverse s))) (unfold trim_left_set in opened)
    ∙ ap (λ s. reverse (trim_left_set (codes "<>") s)) (reverse-append (c ∷ id) (b'>' ∷ []))
    ∙ ap reverse (unfold trim_left_set in bare)
    ∙ reverse-reverse (c ∷ id)

-- Bare ids come back out of the header of which they are the bracketed ids.
pub trim_angles-bracketed :
    (ids : List Text) → All IsBare ids → trim_angles (map bracketed ids) ≡ ids
unfolding trim_angles
trim_angles-bracketed [] h = refl
trim_angles-bracketed ([] ∷ ids) h = absurd (h.0.0 refl)
trim_angles-bracketed ((c ∷ id) ∷ ids) h =
    simp (trim_angle-bracketed (c ∷ id) h.0)
      (ap (λ t. (c ∷ id) ∷ t) (trim_angles-bracketed ids h.1))
