-- ===== src/Infrastructure/Smtp/Folding.antt =====
-- internal/infrastructure/email/smtp.go: the ids and the lines of the References header.
use submission_triage.Prelude.{
  ℕ, zero, suc, ◌+◌, ◌-◌, ◌≤◌, ◌≡◌, ◌≢◌, refl, sym, ◌∙◌, ap, inl, inr, Bool, true, false, not, List,
  [], ◌∷◌, ◌++◌, map, Text, nat_eq, if◌then◌else◌, keep_if, drop, length, ltb, trim_space, All,
  All-keep_if, arith, Bool-cases,
}
use mathlib.Core.List.{append_assoc}
use submission_triage.Infrastructure.Smtp.{
  header_fold_octets, max_refs, max_msg_id_len, crlf, is_stripped, sanitize_msg_id, is_written,
  most_recent, kept_ids, in_angles, fold_tokens, render_tokens, build_refs,
}

-- A byte that ends no line and is no bracket.
abbrev pub IsIdByte : ℕ → Type 0
IsIdByte c = (c ≢ 13) × ((c ≢ 10) × ((c ≢ b'<') × (c ≢ b'>')))

pub record IsId (id : Text) : Type 0 where
  pub not_empty : id ≢ []
  pub short : length id ≤ max_msg_id_len
  pub bytes : All IsIdByte id

kept_byte : (c : ℕ) → is_stripped c ≡ false → IsIdByte c
unfolding is_stripped
kept_byte c h = ground arith

keep_if-holds : {A : Type 0} (p : A → Bool) (xs : List A) → All (λ x. p x ≡ true) (keep_if p xs)
keep_if-holds p [] = tt
keep_if-holds p (x ∷ xs) = elim (Bool-cases (p x)) [
  | inl e ↦ simp e (refl, keep_if-holds p xs)
  | inr e ↦ simp e (keep_if-holds p xs)
]

pub All-map2 :
    {A : Type 0} {P Q R : A → Type 0} (xs : List A)
    → ((x : A) → P x → Q x → R x)
    → All P xs
    → All Q xs
    → All R xs
All-map2 [] f h h' = tt
All-map2 (x ∷ xs) f h h' = (f x h.0 h'.0, All-map2 xs f h.1 h'.1)

pub sanitize_msg_id-bytes : (s : Text) → All IsIdByte (sanitize_msg_id s)
unfolding sanitize_msg_id
sanitize_msg_id-bytes s =
    let kept = keep_if-holds (λ c. not (is_stripped c)) (trim_space s) in
    All-map2 (keep_if (λ c. not (is_stripped c)) (trim_space s))
      (λ c h _. kept_byte c (ground arith)) kept kept

all_sanitized : (refs : List Text) → All (λ id. All IsIdByte id) (map sanitize_msg_id refs)
all_sanitized [] = tt
all_sanitized (r ∷ refs) = (sanitize_msg_id-bytes r, all_sanitized refs)

written-IsId : (id : Text) → is_written id ≡ true → All IsIdByte id → IsId id
unfolding is_written
written-IsId [] h hb = cc
written-IsId (c ∷ id) h hb = record { not_empty = λ e. cc; short = ground arith; bytes = hb }

-- The ids that are kept are short and hold no bracket and no line end.
pub kept_ids-IsId : (refs : List Text) → All IsId (kept_ids refs)
unfolding kept_ids
kept_ids-IsId refs =
    let ids = map sanitize_msg_id (most_recent refs) in
    All-map2 (keep_if is_written ids) written-IsId (keep_if-holds is_written ids)
      (All-keep_if (λ id. All IsIdByte id) is_written ids (all_sanitized (most_recent refs)))

-- No end of a line within the text.
abbrev pub OneLine : Text → Type 0
OneLine s = All (λ c. (c ≢ 13) × (c ≢ 10)) s

-- The lines after the first one, each after a break and a space.
abbrev pub folded : List Text → Text
folded [] = []
folded (l ∷ ls) = crlf ++ (32 ∷ (l ++ folded ls))

-- A token as the loop writes it.
record IsToken (t : Text) : Type 0 where
  pub short : 2 + length t ≤ header_fold_octets
  pub one_line : OneLine t

-- The rest of the line that is being written, and the lines to come.
fold_lines : ℕ → List Text → Text × List Text
fold_lines line_len [] = ([], [])
fold_lines line_len (t ∷ ts) =
    let (x, xs) = fold_lines (1 + length t) ts in
    let (y, ys) = fold_lines (line_len + 1 + length t) ts in
    if ltb header_fold_octets (line_len + 1 + length t)
    then ([], (t ++ x) ∷ xs)
    else (32 ∷ (t ++ y), ys)

fold_lines-folded :
    (line_len : ℕ) (ts : List Text)
    → (fold_lines line_len ts).0 ++ folded (fold_lines line_len ts).1 ≡ fold_tokens line_len ts
unfolding fold_lines fold_tokens
fold_lines-folded line_len [] = refl
fold_lines-folded line_len (t ∷ ts) =
    let folds = fold_lines-folded (1 + length t) ts in
    let joins = fold_lines-folded (line_len + 1 + length t) ts in
    elim (Bool-cases (ltb header_fold_octets (line_len + 1 + length t))) [
      | inl e ↦ simp e (ap (λ s. crlf ++ (32 ∷ s)) (append_assoc t _ _ ∙ ap (λ s. t ++ s) folds))
      | inr e ↦ simp e (ap (λ s. 32 ∷ s) (append_assoc t _ _ ∙ ap (λ s. t ++ s) joins))
    ]

-- HasShortLines that are short enough with what stands before them, a length and a space.
record Fits (line_len : ℕ) (lines : Text × List Text) : Type 0 where
  pub first_short : line_len + length lines.0 ≤ header_fold_octets
  pub rest_short : All (λ (l : Text). 1 + length l ≤ header_fold_octets) lines.1
  pub first_line : OneLine lines.0
  pub rest_lines : All OneLine lines.1

length-append : (xs ys : Text) → length (xs ++ ys) ≡ length xs + length ys
length-append [] ys = omega arith
length-append (x ∷ xs) ys = omega (arith, length-append xs ys)

pub OneLine-append : (s t : Text) → OneLine s → OneLine t → OneLine (s ++ t)
OneLine-append [] t h h' = h'
OneLine-append (c ∷ s) t h h' = (h.0, OneLine-append s t h.1 h')

fold_lines-Fits :
    (line_len : ℕ) (ts : List Text)
    → line_len ≤ header_fold_octets
    → All IsToken ts
    → Fits line_len (fold_lines line_len ts)
unfolding fold_lines
fold_lines-Fits line_len [] h ht = record {
  first_short = omega (arith, h);
  rest_short = tt;
  first_line = tt;
  rest_lines = tt;
}
fold_lines-Fits line_len (t ∷ ts) h ht =
    let (x, xs) = fold_lines (1 + length t) ts in
    let (y, ys) = fold_lines (line_len + 1 + length t) ts in
    elim (Bool-cases (ltb header_fold_octets (line_len + 1 + length t))) [
      | inl e ↦
          let f = fold_lines-Fits (1 + length t) ts (omega (arith, ht.0.short)) ht.1 in
          simp e (record {
            first_short = omega (arith, h);
            rest_short = (omega (arith, f.first_short, length-append t x), f.rest_short);
            first_line = tt;
            rest_lines = (OneLine-append t x ht.0.one_line f.first_line, f.rest_lines);
          })
      | inr e ↦
          let f = fold_lines-Fits (line_len + 1 + length t) ts (ground (arith, e)) ht.1 in
          simp e (record {
            first_short = omega (arith, f.first_short, length-append t y);
            rest_short = f.rest_short;
            first_line = (
              ((λ p. omega (arith, p)), (λ p. omega (arith, p))),
              OneLine-append t y ht.0.one_line f.first_line,
            );
            rest_lines = f.rest_lines;
          })
    ]

in_angles-IsToken : (id : Text) → IsId id → IsToken (in_angles id)
in_angles-IsToken id h = record {
  short = omega (arith, length-append id (b'>' ∷ []), h.short);
  one_line = (
    ((λ p. omega (arith, p)), (λ p. omega (arith, p))),
    OneLine-append id (b'>' ∷ []) (All-map2 id (λ c b _. (b.0, b.1.0)) h.bytes h.bytes)
        (((λ p. omega (arith, p)), (λ p. omega (arith, p))), tt),
  );
}

map-in_angles-IsToken : (ids : List Text) → All IsId ids → All IsToken (map in_angles ids)
map-in_angles-IsToken [] h = tt
map-in_angles-IsToken (id ∷ ids) h = (in_angles-IsToken id h.0, map-in_angles-IsToken ids h.1)

-- The lines of the value: the header's name stands before the first, a space before each other.
pub record HasShortLines (value : Text) : Type 0 where
  pub first : Text
  pub rest : List Text
  pub split : value ≡ first ++ folded rest
  pub first_short : 12 + length first ≤ header_fold_octets
  pub rest_short : All (λ (l : Text). 1 + length l ≤ header_fold_octets) rest
  pub first_line : OneLine first
  pub rest_lines : All OneLine rest

render_tokens-HasShortLines :
    (ids : List Text) → All IsId ids → HasShortLines (render_tokens (map in_angles ids))
unfolding render_tokens
render_tokens-HasShortLines [] h = record {
  first = [];
  rest = [];
  split = refl;
  first_short = omega arith;
  rest_short = tt;
  first_line = tt;
  rest_lines = tt;
}
render_tokens-HasShortLines (id ∷ ids) h =
    let t = in_angles id in
    let token = in_angles-IsToken id h.0 in
    let ts = map in_angles ids in
    let line_len = 12 + length t in
    let short : line_len ≤ header_fold_octets =
      omega (arith, h.0.short, length-append id (b'>' ∷ [])) in
    let f = fold_lines-Fits line_len ts short (map-in_angles-IsToken ids h.1) in
    let lines = fold_lines line_len ts in
    record {
      first = t ++ lines.0;
      rest = lines.1;
      split =
          ap (λ s. t ++ s) (sym (fold_lines-folded line_len ts))
          ∙ sym (append_assoc t lines.0 (folded lines.1));
      first_short = omega (arith, f.first_short, length-append t lines.0);
      rest_short = f.rest_short;
      first_line = OneLine-append t lines.0 token.one_line f.first_line;
      rest_lines = f.rest_lines;
    }

length-keep_if-le : (p : Text → Bool) (xs : List Text) → length (keep_if p xs) ≤ length xs
length-keep_if-le p [] = omega arith
length-keep_if-le p (x ∷ xs) = ground (arith, length-keep_if-le p xs)

length-map : (f : Text → Text) (xs : List Text) → length (map f xs) ≡ length xs
length-map f [] = refl
length-map f (x ∷ xs) = ap (λ n. suc n) (length-map f xs)

length-drop : (n : ℕ) (xs : List Text) → length (drop n xs) ≡ length xs - n
length-drop zero xs = omega arith
length-drop (suc n) [] = omega arith
length-drop (suc n) (x ∷ xs) = omega (arith, length-drop n xs)

-- A References value has at most fifty ids, and lines of at most 900 bytes that are broken nowhere
-- else, whatever the references are.
pub build_refs-HasShortLines :
    (refs : List Text) → (length (kept_ids refs) ≤ max_refs) × HasShortLines (build_refs refs)
unfolding build_refs
build_refs-HasShortLines refs =
    let ids = map sanitize_msg_id (most_recent refs) in
    (
      unfold kept_ids in
          omega (
            arith,
            length-keep_if-le is_written ids,
            length-map sanitize_msg_id (most_recent refs),
            length-drop (length refs - max_refs) refs,
          ),
      render_tokens-HasShortLines (kept_ids refs) (kept_ids-IsId refs),
    )
