-- ===== src/Pkg/EmlParse/Charset.antt =====
-- pkg/emlparse/charset.go: texts in the two encodings that are turned into UTF-8.
use Prim.Native.Nat.{◌/◌, ◌%◌}
use submission_triage.Prelude.{
  ℕ, zero, suc, ◌+◌, ◌-◌, ◌*◌, ◌<◌, ◌≡◌, refl, ◌∙◌, ap, inl, inr, ◌&&◌, not, List, [], ◌∷◌, ◌++◌,
  map, All, Text, codes, text_eq, ◌==◌, nat_eq, contains, ltb, leb, arith, if◌then◌else◌, to_lower,
  trim_space, Bool-cases,
}

-- strings.Builder.WriteRune, for the code points below 0x10000 that are written here.
unfoldable pub write_rune : ℕ → Text
write_rune c =
    if ltb c 0x80
    then c ∷ []
    else if ltb c 0x800
    then (0xc0 + c / 64) ∷ (0x80 + c % 64) ∷ []
    else (0xe0 + c / 4096) ∷ (0x80 + c / 64 % 64) ∷ (0x80 + c % 64) ∷ []

decode_latin1 : Text → Text
unfolding write_rune
decode_latin1 [] = []
decode_latin1 (c ∷ b) = write_rune c ++ decode_latin1 b

-- `cp1252High` from 0x80 on, 0 where it has no entry.
abbrev pub cp1252_high : List ℕ
cp1252_high =
    0x20ac ∷ 0 ∷ 0x201a ∷ 0x192 ∷ 0x201e ∷ 0x2026 ∷ 0x2020 ∷ 0x2021 ∷ 0x2c6 ∷ 0x2030 ∷ 0x160
    ∷ 0x2039 ∷ 0x152 ∷ 0 ∷ 0x17d ∷ 0 ∷ 0 ∷ 0x2018 ∷ 0x2019 ∷ 0x201c ∷ 0x201d ∷ 0x2022 ∷ 0x2013
    ∷ 0x2014 ∷ 0x2dc ∷ 0x2122 ∷ 0x161 ∷ 0x203a ∷ 0x153 ∷ 0 ∷ 0x17e ∷ 0x178 ∷ []

abbrev pub entry_or_zero : List ℕ → ℕ → ℕ
entry_or_zero [] i = 0
entry_or_zero (x ∷ xs) zero = x
entry_or_zero (x ∷ xs) (suc i) = entry_or_zero xs i

unfoldable pub cp1252_rune : ℕ → ℕ
cp1252_rune c =
    let high = entry_or_zero cp1252_high (c - 0x80) in
    if leb 0x80 c && leb c 0x9f && not (high == 0) then high else c

decode_windows1252 : Text → Text
unfolding write_rune cp1252_rune
decode_windows1252 [] = []
decode_windows1252 (c ∷ b) = write_rune (cp1252_rune c) ++ decode_windows1252 b

abbrev pub latin1_names : List Text
latin1_names = codes "iso-8859-1" ∷ codes "iso8859-1" ∷ codes "latin-1" ∷ codes "latin1" ∷ []

abbrev pub windows1252_names : List Text
windows1252_names = codes "windows-1252" ∷ codes "cp1252" ∷ []

unfoldable pub to_utf8 : Text → Text → Text
unfolding decode_latin1 decode_windows1252
to_utf8 b charset =
    let name = to_lower (trim_space charset) in
    if contains latin1_names name
    then decode_latin1 b
    else if contains windows1252_names name
    then decode_windows1252 b
    else b

-- The code points of a UTF-8 text with up to three bytes for each: `n` more bytes of one are to come.
runes_from : ℕ → ℕ → Text → List ℕ
runes_from n acc [] = []
runes_from zero acc (b ∷ s) =
    let one = runes_from zero 0 s in
    let two = runes_from 1 (b - 0xc0) s in
    let three = runes_from 2 (b - 0xe0) s in
    if ltb b 0x80 then b ∷ one else if ltb b 0xe0 then two else three
runes_from (suc zero) acc (b ∷ s) = (acc * 64 + (b - 0x80)) ∷ runes_from zero 0 s
runes_from (suc (suc n)) acc (b ∷ s) = runes_from (suc n) (acc * 64 + (b - 0x80)) s

unfoldable pub runes : Text → List ℕ
unfolding runes_from
runes s = runes_from 0 0 s

runes-write_rune : (c : ℕ) (s : Text) → c < 0x10000 → runes (write_rune c ++ s) ≡ c ∷ runes s
unfolding write_rune runes runes_from
runes-write_rune c s h = ground arith

-- The code points that the bytes stand for in the charset of a name.
abbrev pub code_points : Text → Text → List ℕ
code_points charset b =
    let name = to_lower (trim_space charset) in
    if contains latin1_names name
    then b
    else if contains windows1252_names name
    then map cp1252_rune b
    else runes b

entry_or_zero-lt : (xs : List ℕ) (i : ℕ) → All (λ x. x < 0x10000) xs → entry_or_zero xs i < 0x10000
entry_or_zero-lt [] i h = omega arith
entry_or_zero-lt (x ∷ xs) zero h = h.0
entry_or_zero-lt (x ∷ xs) (suc i) h = entry_or_zero-lt xs i h.1

cp1252_high-lt : All (λ x. x < 0x10000) cp1252_high
cp1252_high-lt = omega arith

cp1252_rune-lt : (c : ℕ) → c < 256 → cp1252_rune c < 0x10000
unfolding cp1252_rune
cp1252_rune-lt c h =
    let high = entry_or_zero cp1252_high (c - 0x80) in
    let small : high < 0x10000 = entry_or_zero-lt cp1252_high (c - 0x80) cp1252_high-lt in
    elim (Bool-cases (leb 0x80 c && leb c 0x9f && not (high == 0))) [
      | inl e ↦ simp e small
      | inr e ↦ simp e (omega arith)
    ]

runes-decode_latin1 : (b : Text) → All (λ c. c < 256) b → runes (decode_latin1 b) ≡ b
unfolding decode_latin1
runes-decode_latin1 [] h = unfold runes runes_from in refl
runes-decode_latin1 (c ∷ b) h =
    runes-write_rune c (decode_latin1 b) (omega (arith, h.0))
    ∙ ap (λ t. c ∷ t) (runes-decode_latin1 b h.1)

runes-decode_windows1252 :
    (b : Text) → All (λ c. c < 256) b → runes (decode_windows1252 b) ≡ map cp1252_rune b
unfolding decode_windows1252
runes-decode_windows1252 [] h = unfold runes runes_from in refl
runes-decode_windows1252 (c ∷ b) h =
    runes-write_rune (cp1252_rune c) (decode_windows1252 b) (cp1252_rune-lt c h.0)
    ∙ ap (λ t. cp1252_rune c ∷ t) (runes-decode_windows1252 b h.1)

-- Reading the text back as UTF-8 gives the code points that the bytes stand for in the named
-- charset; a charset that is not known leaves the bytes as they are.
pub to_utf8-runes :
    (b charset : Text) → All (λ c. c < 256) b → runes (to_utf8 b charset) ≡ code_points charset b
unfolding to_utf8
to_utf8-runes b charset h =
    let name = to_lower (trim_space charset) in
    elim (Bool-cases (contains latin1_names name)) [
      | inl e ↦ simp e (runes-decode_latin1 b h)
      | inr e ↦ elim (Bool-cases (contains windows1252_names name)) [
        | inl e' ↦ simp (e, e') (runes-decode_windows1252 b h)
        | inr e' ↦ simp (e, e') refl
      ]
    ]
