-- ===== src/Infrastructure/Llm/Parsing.antt =====
-- internal/infrastructure/llm/anthropic.go: what is read of the text that the model wrote, and the
-- confidence that is read.
use submission_triage.Prelude.{
  ℕ, ◌≤◌, ◌≡◌, refl, sym, Bool, false, ◌&&◌, not, Option, none, some, [], ◌∷◌, ◌++◌, Text, nat_eq,
  ◌==◌, Float, finite, pos, negsuc, arith, Bool-cases, inl, inr,
}
use submission_triage.Infrastructure.Llm.Requests.{
  clamp_confidence, from_brace, consed, next_depth, next_in_str, next_escaped, balanced,
  first_object, extract_json,
}

abbrev IsPrefix : Text → Option Text → Type 0
IsPrefix s none = Unit
IsPrefix s (some r) = (rest : Text) × (s ≡ r ++ rest)

consed-IsPrefix :
    (c : ℕ) (s : Text) (o : Option Text) → IsPrefix s o → IsPrefix (c ∷ s) (consed c o)
consed-IsPrefix c s none h = tt
consed-IsPrefix c s (some r) (rest, e) = (rest, cc)

balanced-IsPrefix :
    (depth : ℕ) (in_str escaped : Bool) (s : Text) → IsPrefix s (balanced depth in_str escaped s)
unfolding balanced
balanced-IsPrefix depth in_str escaped [] = tt
balanced-IsPrefix depth in_str escaped (c ∷ s) =
    elim (Bool-cases ((not in_str && c == b'}') && depth == 1)) [
      | inl e ↦ simp e (s, refl)
      | inr e ↦ simp e (
          consed-IsPrefix c s _ (
            balanced-IsPrefix (next_depth in_str c depth) (next_in_str in_str escaped c)
              (next_escaped in_str escaped c) s))
    ]

-- A part of a text.
abbrev pub IsPart : Text → Text → Type 0
IsPart s r = (front : Text) × ((rest : Text) × (s ≡ front ++ (r ++ rest)))

-- What `from_brace` leaves off.
abbrev IsRest : Text → Option Text → Type 0
IsRest s none = Unit
IsRest s (some t) = (front : Text) × (s ≡ front ++ t)

cons-IsRest : (c : ℕ) (s : Text) (o : Option Text) → IsRest s o → IsRest (c ∷ s) o
cons-IsRest c s none h = tt
cons-IsRest c s (some t) (front, e) = (c ∷ front, cc)

from_brace-IsRest : (s : Text) → IsRest s (from_brace s)
unfolding from_brace
from_brace-IsRest [] = tt
from_brace-IsRest (c ∷ s) = elim (Bool-cases (c == b'{')) [
  | inl e ↦ simp e ([], refl)
  | inr e ↦ simp e (cons-IsRest c s (from_brace s) (from_brace-IsRest s))
]

append_nil : (s : Text) → s ++ [] ≡ s
append_nil [] = refl
append_nil (c ∷ s) = let rest = append_nil s in cc

whole-IsPart : (s : Text) → IsPart s s
whole-IsPart s = ([], ([], sym (append_nil s)))

prefix-IsPart :
    (s front t : Text) (o : Option Text)
    → s ≡ front ++ t
    → IsPrefix t o
    → IsPart s (elim o [ none ↦ s | some object ↦ object ])
prefix-IsPart s front t none e h = whole-IsPart s
prefix-IsPart s front t (some r) e (rest, h) = (front, (rest, cc))

first_object-IsPart : (s : Text) (o : Option Text) → IsRest s o → IsPart s (first_object s o)
unfolding first_object
first_object-IsPart s none h = whole-IsPart s
first_object-IsPart s (some t) (front, e) =
    prefix-IsPart s front t (balanced 0 false false t) e (balanced-IsPrefix 0 false false t)

-- What is parsed as the answer is a part of what the model wrote.
pub extract_json-IsPart : (s : Text) → IsPart s (extract_json s)
unfolding extract_json
extract_json-IsPart s = first_object-IsPart s (from_brace s) (from_brace-IsRest s)

-- A finite number from 0 to 1.
abbrev pub IsUnit : Float → Type 0
IsUnit (finite (pos c)) = c ≤ 1000000
IsUnit _ = ⊥

-- Whatever the model says of its confidence is read as a number from 0 to 1.
pub clamp_confidence-IsUnit : (c : Float) → IsUnit (clamp_confidence c)
unfolding clamp_confidence
clamp_confidence-IsUnit (finite (pos c)) = ground arith
clamp_confidence-IsUnit (finite (negsuc c)) = ground arith
clamp_confidence-IsUnit _ = omega arith
