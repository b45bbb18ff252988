-- ===== src/Prelude/Bytes.antt =====
-- Go strings as their bytes, with the functions of package `strings` that the program calls.
-- Case and white space are those of ASCII; other bytes are left as they are.
use Prim.Native.Nat.{ℕ, zero, suc, ◌+◌, ◌/◌, ◌%◌}
use Prim.Native.Char.{code}
use Prim.Native.String.{String}
use mathlib.Core.Path.{◌≡◌, refl}
use mathlib.Core.Logic.{◌↔◌}
use mathlib.Core.Bool.{Bool, true, false, ◌&&◌, ◌||◌}
use mathlib.Core.Option
use mathlib.Core.Option.{Option, none, some}
use mathlib.Core.List.{List, [], ◌∷◌, ◌++◌, map, reverse}
use native.Mathlib.Omega.{arith}
use submission_triage.Prelude.Lists.{any}
use submission_triage.Prelude.Tests.{Comparable, nat_beq, ltb, leb, if◌then◌else◌, is_some}

abbrev pub Text : Type 0
Text = List ℕ

abbrev pub codes : String → Text
codes String.[] = []
codes (String.◌∷◌ c s) = code c ∷ codes s

abbrev pub text_beq : Text → Text → Bool
text_beq [] [] = true
text_beq (a ∷ s) (b ∷ t) = nat_beq a b && text_beq s t
text_beq _ _ = false

pub text_beq_iff : (s t : Text) → (text_beq s t ≡ true) ↔ (s ≡ t)
text_beq_iff [] [] = (λ _. refl, λ _. refl)
text_beq_iff [] (b ∷ t) = (λ h. cc, λ h. cc)
text_beq_iff (a ∷ s) [] = (λ h. cc, λ h. cc)
text_beq_iff (a ∷ s) (b ∷ t) = ground (arith, text_beq_iff s t)

instance abbrev pub text_eq : Comparable Text
text_eq = record { same = text_beq; same_iff = text_beq_iff }

is_upper : ℕ → Bool
is_upper c = leb b'A' c && leb c b'Z'

unfoldable pub lower_byte : ℕ → ℕ
unfolding is_upper
lower_byte c = if is_upper c then c + 32 else c

-- strings.ToLower
unfoldable pub to_lower : Text → Text
unfolding lower_byte
to_lower s = map lower_byte s

unfoldable pub is_space : ℕ → Bool
is_space c = nat_beq c 32 || leb 9 c && leb c 13

unfoldable pub trim_left : Text → Text
unfolding is_space
trim_left [] = []
trim_left (c ∷ s) = let rest = trim_left s in if is_space c then rest else c ∷ s

-- strings.TrimSpace
unfoldable pub trim_space : Text → Text
unfolding trim_left
trim_space s = reverse (trim_left (reverse (trim_left s)))

-- strings.HasPrefix
unfoldable pub has_prefix : Text → Text → Bool
has_prefix s [] = true
has_prefix [] (p ∷ ps) = false
has_prefix (c ∷ s) (p ∷ ps) = nat_beq c p && has_prefix s ps

-- strings.Index, with `none` for -1.
unfoldable pub index_of : Text → Text → Option ℕ
unfolding has_prefix
index_of [] t = if has_prefix [] t then some 0 else none
index_of (c ∷ s) t =
    let rest = index_of s t in if has_prefix (c ∷ s) t then some 0 else Option.map (λ i. suc i) rest

-- strings.Contains
unfoldable pub contains_text : Text → Text → Bool
unfolding index_of
contains_text s t = is_some (index_of s t)

abbrev is_nil : Text → Bool
is_nil [] = true
is_nil (_ ∷ _) = false

-- strings.TrimLeft
unfoldable pub trim_left_set : Text → Text → Text
trim_left_set cutset [] = []
trim_left_set cutset (c ∷ s) =
    let rest = trim_left_set cutset s in if any (nat_beq c) cutset then rest else c ∷ s

-- strings.Trim
unfoldable pub trim_set : Text → Text → Text
unfolding trim_left_set
trim_set cutset s = reverse (trim_left_set cutset (reverse (trim_left_set cutset s)))

-- strings.EqualFold
unfoldable pub equal_fold : Text → Text → Bool
unfolding to_lower
equal_fold s t = text_beq (to_lower s) (to_lower t)

-- strings.Split on a newline.
unfoldable pub split_lines : Text → Text → List Text
split_lines [] acc = acc ∷ []
split_lines (c ∷ s) acc =
    let ended = split_lines s [] in
    let longer = split_lines s (acc ++ c ∷ []) in if nat_beq c 10 then acc ∷ ended else longer

-- strings.Join
unfoldable pub join : Text → List Text → Text
join sep [] = []
join sep (t ∷ []) = t
join sep (t ∷ u ∷ ts) = t ++ sep ++ join sep (u ∷ ts)

to_digits : ℕ → ℕ → Text → Text
to_digits zero n acc = acc
to_digits (suc f) n acc =
    let rest = to_digits f (n / 10) ((48 + n % 10) ∷ acc) in
    if ltb n 10 then (48 + n) ∷ acc else rest

-- %d of a number that is not negative.
unfoldable pub show_nat : ℕ → Text
unfolding to_digits
show_nat n = to_digits (suc n) n []

-- The loop of strings.Fields, with the field being read reversed.
unfoldable pub fields_from : Text → Text → List Text
fields_from [] acc = if is_nil acc then [] else reverse acc ∷ []
fields_from (c ∷ s) acc =
    let ended = fields_from s [] in
    let longer = fields_from s (c ∷ acc) in
    if is_space c then (if is_nil acc then ended else reverse acc ∷ ended) else longer

-- strings.Fields
unfoldable pub fields : Text → List Text
unfolding fields_from
fields s = fields_from s []

abbrev pub newline : Text
newline = 10 ∷ []
