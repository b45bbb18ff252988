-- ===== src/Prelude/Sort.antt =====
-- Package sort: a stable sort by a Boolean order, and the byte order of Go strings.
use mathlib.Core.Path.{◌≡◌, refl, ◌∙◌}
use mathlib.Core.Bool.{Bool, true, false, ◌&&◌, ◌||◌}
use mathlib.Core.List.{List, [], ◌∷◌, Permᴰ}
use native.Mathlib.Omega.{arith}
use mathlib.Core.List.Permᴰ
use mathlib.Core.Logic.{inl, inr}
use submission_triage.Prelude.Lists.{All, any}
use submission_triage.Prelude.Tests.{Bool-cases, if◌then◌else◌, nat_beq, ltb}
use submission_triage.Prelude.Bytes.{Text}

module _ {ℓ} {A : Type ℓ} (le : A → A → Bool) where
  unfoldable pub insert_sorted : A → List A → List A
  insert_sorted x [] = x ∷ []
  insert_sorted x (y ∷ l) = let rest = insert_sorted x l in if le x y then x ∷ y ∷ l else y ∷ rest

  -- Where `le x y` and `le y x` both hold, the earlier stays first.
  unfoldable pub sort_by : List A → List A
  unfolding insert_sorted
  sort_by [] = []
  sort_by (x ∷ l) = insert_sorted x (sort_by l)

  -- Any other order of the same elements is sorted to the same list.
  pub record IsTotalOrder : Type ℓ where
    pub total : (a b : A) → le a b ≡ false → le b a ≡ true
    pub antisym : (a b : A) → le a b ≡ true → le b a ≡ true → a ≡ b
    pub trans : (a b c : A) → le a b ≡ true → le b c ≡ true → le a c ≡ true

module _ {ℓ} {A : Type ℓ} (le : A → A → Bool) (o : IsTotalOrder le) where
  insert_comm :
      (a b : A) (l : List A)
      → insert_sorted le a (insert_sorted le b l) ≡ insert_sorted le b (insert_sorted le a l)
  unfolding insert_sorted
  insert_comm a b [] = ground (arith, o.total a b, o.antisym a b)
  insert_comm a b (y ∷ l) =
      ground (arith, o.total a b, o.antisym a b, o.trans a b y, o.trans b a y, insert_comm a b l)

  pub sort_by-perm : {l m : List A} → Permᴰ l m → sort_by le l ≡ sort_by le m
  unfolding sort_by
  sort_by-perm Permᴰ.nil = refl
  sort_by-perm (Permᴰ.cons {a = a} {b = b} {l₁ = l} {l₂ = m} e p) = cc (e, sort_by-perm p)
  sort_by-perm (Permᴰ.swap {a = a} {b = b} {a' = c} {b' = d} {l = l} e f) =
      insert_comm a b (sort_by le l) ∙ cc (e, f)
  sort_by-perm (Permᴰ.trans p q) = sort_by-perm p ∙ sort_by-perm q

module _ {ℓ κ} {A : Type ℓ} (P : A → Type κ) (le : A → A → Bool) where
  All-insert_sorted : (x : A) (l : List A) → P x → All P l → All P (insert_sorted le x l)
  unfolding insert_sorted
  All-insert_sorted x [] h hs = (h, tt)
  All-insert_sorted x (y ∷ l) h hs = elim (Bool-cases (le x y)) [
    | inl e ↦ simp e (h, hs)
    | inr e ↦ simp e (hs.0, All-insert_sorted x l h hs.1)
  ]

  pub All-sort_by : (l : List A) → All P l → All P (sort_by le l)
  unfolding sort_by
  All-sort_by [] h = tt
  All-sort_by (x ∷ l) h = All-insert_sorted x (sort_by le l) h.0 (All-sort_by l h.1)

module _ {ℓ} {A : Type ℓ} (le : A → A → Bool) where
  insert_sorted-perm : (x : A) (l : List A) → Permᴰ (insert_sorted le x l) (x ∷ l)
  unfolding insert_sorted
  insert_sorted-perm x [] = Permᴰ.refl (x ∷ [])
  insert_sorted-perm x (y ∷ l) = elim (Bool-cases (le x y)) [
    | inl e ↦ simp e (Permᴰ.refl (x ∷ y ∷ l))
    | inr e ↦ simp e (Permᴰ.trans (Permᴰ.cons refl (insert_sorted-perm x l)) (Permᴰ.swap refl refl))
  ]

  pub sort_by-Permᴰ : (l : List A) → Permᴰ (sort_by le l) l
  unfolding sort_by
  sort_by-Permᴰ [] = Permᴰ.nil
  sort_by-Permᴰ (x ∷ l) =
      Permᴰ.trans (insert_sorted-perm x (sort_by le l)) (Permᴰ.cons refl (sort_by-Permᴰ l))

module _ {ℓ} {A : Type ℓ} (le : A → A → Bool) (p : A → Bool) where
  any-insert_sorted : (x : A) (l : List A) → any p (insert_sorted le x l) ≡ (p x || any p l)
  unfolding insert_sorted
  any-insert_sorted x [] = refl
  any-insert_sorted x (y ∷ l) = ground (arith, any-insert_sorted x l)

  -- Sorting loses no element and makes none.
  pub any-sort_by : (l : List A) → any p (sort_by le l) ≡ any p l
  unfolding sort_by
  any-sort_by [] = refl
  any-sort_by (x ∷ l) = ground (arith, any-insert_sorted x (sort_by le l), any-sort_by l)

-- The order of strings, byte by byte.
abbrev pub text_le : Text → Text → Bool
text_le [] t = true
text_le (a ∷ s) [] = false
text_le (a ∷ s) (b ∷ t) = ltb a b || nat_beq a b && text_le s t

text_le-total : (s t : Text) → text_le s t ≡ false → text_le t s ≡ true
text_le-total [] t h = cc
text_le-total (a ∷ s) [] h = refl
text_le-total (a ∷ s) (b ∷ t) h = ground (arith, text_le-total s t)

text_le-antisym : (s t : Text) → text_le s t ≡ true → text_le t s ≡ true → s ≡ t
text_le-antisym [] [] h k = refl
text_le-antisym [] (b ∷ t) h k = cc
text_le-antisym (a ∷ s) [] h k = cc
text_le-antisym (a ∷ s) (b ∷ t) h k = ground (arith, text_le-antisym s t)

text_le_trans : (s t u : Text) → text_le s t ≡ true → text_le t u ≡ true → text_le s u ≡ true
text_le_trans [] t u h k = refl
text_le_trans (a ∷ s) [] u h k = cc
text_le_trans (a ∷ s) (b ∷ t) [] h k = cc
text_le_trans (a ∷ s) (b ∷ t) (c ∷ u) h k = ground (arith, text_le_trans s t u)

pub text_le-IsTotalOrder : IsTotalOrder text_le
text_le-IsTotalOrder = record {
  total = text_le-total;
  antisym = text_le-antisym;
  trans = text_le_trans;
}

-- sort.Strings
unfoldable pub sort_texts : List Text → List Text
unfolding sort_by
sort_texts = sort_by text_le
