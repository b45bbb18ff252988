-- ===== src/Pkg/TextUtil.antt =====
-- pkg/textutil/text.go: cutting a text to a number of bytes between two characters.
use mathlib.Core.List.{append-nil}
use submission_triage.Prelude.{
  ℕ, zero, suc, ◌≤◌, ◌≡◌, refl, ◌⊎◌, inl, inr, Bool, true, ◌||◌, [], ◌∷◌, ◌++◌, Text, take, drop,
  length, leb, ltb, arith, if◌then◌else◌, Bool-cases,
}

-- utf8.RuneStart: not a continuation byte.
abbrev pub rune_start : ℕ → Bool
rune_start c = ltb c 0x80 || leb 0xc0 c

abbrev pub starts_rune : Text → Bool
starts_rune [] = true
starts_rune (c ∷ _) = rune_start c

-- The loop: back to a byte that starts a character, or to 0.
back_up : Text → ℕ → ℕ
back_up s zero = zero
back_up s (suc n) = let less = back_up s n in if starts_rune (drop (suc n) s) then suc n else less

unfoldable pub truncate_bytes : Text → ℕ → Text
unfolding back_up
truncate_bytes s max_bytes = if leb (length s) max_bytes then s else take (back_up s max_bytes) s

back_up-le : (s : Text) (n : ℕ) → back_up s n ≤ n
unfolding back_up
back_up-le s zero = omega arith
back_up-le s (suc n) = ground (arith, back_up-le s n)

back_up-starts :
    (s : Text) (n : ℕ) → (back_up s n ≡ 0) ⊎ (starts_rune (drop (back_up s n) s) ≡ true)
unfolding back_up
back_up-starts s zero = inl refl
back_up-starts s (suc n) = elim (Bool-cases (starts_rune (drop (suc n) s))) [
  | inl e ↦ inr (simp e refl)
  | inr e ↦ simp e (back_up-starts s n)
]

take-append-drop : (n : ℕ) (s : Text) → take n s ++ drop n s ≡ s
take-append-drop zero s = refl
take-append-drop (suc n) [] = refl
take-append-drop (suc n) (c ∷ s) = rw (take-append-drop n s) refl

take-length : (n : ℕ) (s : Text) → length (take n s) ≤ n
take-length zero s = omega arith
take-length (suc n) [] = omega arith
take-length (suc n) (c ∷ s) = omega (arith, take-length n s)

take-empty : (n : ℕ) (s : Text) → n ≡ 0 → take n s ≡ []
take-empty n s e = rw e refl

-- A cut text is no longer than asked, and is a beginning of the text that is empty or ends where
-- the text ends or where a character starts.
pub truncate_bytes-cut :
    (s : Text) (max_bytes : ℕ)
    → (length (truncate_bytes s max_bytes) ≤ max_bytes)
      × ((rest : Text) × (truncate_bytes s max_bytes ++ rest ≡ s)
          × ((truncate_bytes s max_bytes ≡ []) ⊎ (starts_rune rest ≡ true)))
unfolding truncate_bytes
truncate_bytes-cut s max_bytes = elim (Bool-cases (leb (length s) max_bytes)) [
  | inl e ↦ simp e (ground (arith, e), ([], append-nil s, inr refl))
  | inr e ↦
      let n = back_up s max_bytes in
      simp e (
        omega (arith, take-length n s, back_up-le s max_bytes),
        (
          drop n s,
          take-append-drop n s,
          elim (back_up-starts s max_bytes) [ inl z ↦ inl (take-empty n s z) | inr t ↦ inr t ],
        ),
      )
]
