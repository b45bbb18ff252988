-- ===== src/Model/Reply/Fingerprint.antt =====
-- internal/model/reply.go: a fingerprint stands for the set of asks and nothing else.
use mathlib.Core.List.{Permᴰ}
use mathlib.Core.List.Permᴰ
use submission_triage.Prelude.{
  ◌≡◌, refl, ap, ◌≢◌, List, [], ◌∷◌, ◌++◌, map, Text, arith, All, All-sort_by, sort_by-perm,
  sort_by, sort_texts, text_le-IsTotalOrder, text_le, sort_by-Permᴰ, if◌then◌else◌, nat_eq, ◌==◌,
}
use submission_triage.Model.Submission.{MissingItem}
use submission_triage.Model.Reply.{
  ReplyKind, ask_policy, completion, missing_items, item_key, fingerprint_input, reply_fingerprint,
  write_keys, kind_text, reason_text,
}

-- The order in which the missing items are listed does not change the fingerprint.
pub reply_fingerprint-perm :
    (sha256 : Text → Text) (kind : ReplyKind) {xs ys : List MissingItem}
    → Permᴰ xs ys
    → reply_fingerprint sha256 kind xs ≡ reply_fingerprint sha256 kind ys
unfolding reply_fingerprint sort_texts
reply_fingerprint-perm sha256 kind p =
    ap (λ keys. sha256 (kind_text kind ++ write_keys keys))
      (sort_by-perm text_le text_le-IsTotalOrder (Permᴰ.map item_key p))

-- The separator byte does not occur.
abbrev pub HasNoZero : Text → Type 0
HasNoZero s = All (λ c. c ≢ 0) s

abbrev HeadIsZero : Text → Type 0
HeadIsZero [] = Unit
HeadIsZero (c ∷ _) = c ≡ 0

write_keys-head : (ks : List Text) → HeadIsZero (write_keys ks)
unfolding write_keys
write_keys-head [] = tt
write_keys-head (k ∷ ks) = refl

-- A text without the separator ends where the separator or the end of the input stands.
split_unique :
    (s t u v : Text)
    → HasNoZero s
    → HasNoZero t
    → HeadIsZero u
    → HeadIsZero v
    → s ++ u ≡ t ++ v
    → (s ≡ t) × (u ≡ v)
split_unique [] [] u v hs ht hu hv e = (refl, e)
split_unique [] (b ∷ t) [] v hs ht hu hv e = cc
split_unique [] (b ∷ t) (c ∷ u) v hs ht hu hv e = ground arith
split_unique (a ∷ s) [] u [] hs ht hu hv e = cc
split_unique (a ∷ s) [] u (c ∷ v) hs ht hu hv e = ground arith
split_unique (a ∷ s) (b ∷ t) u v hs ht hu hv e =
    ground (arith, split_unique s t u v hs.1 ht.1 hu hv)

write_keys-injective :
    (ks ls : List Text)
    → All HasNoZero ks
    → All HasNoZero ls
    → write_keys ks ≡ write_keys ls
    → ks ≡ ls
unfolding write_keys
write_keys-injective [] [] hk hl e = refl
write_keys-injective [] (l ∷ ls) hk hl e = cc
write_keys-injective (k ∷ ks) [] hk hl e = cc
write_keys-injective (k ∷ ks) (l ∷ ls) hk hl e = ground (
  arith,
  split_unique k l (write_keys ks) (write_keys ls) hk.0 hl.0 (write_keys-head ks)
      (write_keys-head ls),
  write_keys-injective ks ls hk.1 hl.1,
)

kind_text-HasNoZero : (k : ReplyKind) → HasNoZero (kind_text k)
unfolding kind_text
kind_text-HasNoZero ask_policy = omega arith
kind_text-HasNoZero completion = omega arith
kind_text-HasNoZero missing_items = omega arith

kind_text-injective : (k j : ReplyKind) → kind_text k ≡ kind_text j → k ≡ j
unfolding kind_text
kind_text-injective ask_policy ask_policy e = refl
kind_text-injective _ _ e = ground arith

-- What an item asks for: which item, and the code of the reason.
abbrev pub ask : MissingItem → Text × Text
ask m = (m.id, reason_text m.code)

-- A key at its first unit separator.
cut : Text → Text × Text
cut [] = ([], [])
cut (c ∷ s) = let (id, reason) = cut s in if c == 0x1f then ([], s) else (c ∷ id, reason)

-- The unit separator does not occur.
abbrev pub HasNoUnit : Text → Type 0
HasNoUnit s = All (λ c. c ≢ 0x1f) s

cut-joined : (id reason : Text) → HasNoUnit id → cut (id ++ 0x1f ∷ reason) ≡ (id, reason)
unfolding cut
cut-joined [] reason h = refl
cut-joined (c ∷ id) reason h = ground (arith, h.0, cut-joined id reason h.1)

map-cut :
    (xs : List MissingItem) → All (λ m. HasNoUnit m.id) xs → map cut (map item_key xs) ≡ map ask xs
unfolding item_key
map-cut [] h = refl
map-cut (m ∷ xs) h = ground (arith, cut-joined m.id (reason_text m.code) h.0, map-cut xs h.1)

keys-Permᴰ :
    (xs ys : List MissingItem)
    → All (λ m. HasNoUnit m.id) xs
    → All (λ m. HasNoUnit m.id) ys
    → sort_by text_le (map item_key xs) ≡ sort_by text_le (map item_key ys)
    → Permᴰ (map ask xs) (map ask ys)
keys-Permᴰ xs ys hx hy e =
    let sorted = sort_by-Permᴰ text_le in
    let same : Permᴰ (map item_key xs) (map item_key ys) =
      Permᴰ.trans (Permᴰ.symm (sorted (map item_key xs))) (rw e (sorted (map item_key ys))) in
    rw (← map-cut xs hx, ← map-cut ys hy) (Permᴰ.map cut same)

-- Two asks with one fingerprint are of one kind and name the same items for the same reasons, each
-- as often, in whatever order, if no key holds a zero byte, no id a unit separator, and SHA-256 does
-- not collide on the two inputs.
pub reply_fingerprint-injective :
    (sha256 : Text → Text) (k j : ReplyKind) (xs ys : List MissingItem)
    → All HasNoZero (map item_key xs)
    → All HasNoZero (map item_key ys)
    → All (λ m. HasNoUnit m.id) xs
    → All (λ m. HasNoUnit m.id) ys
    → (sha256 (fingerprint_input k xs) ≡ sha256 (fingerprint_input j ys)
        → fingerprint_input k xs ≡ fingerprint_input j ys)
    → reply_fingerprint sha256 k xs ≡ reply_fingerprint sha256 j ys
    → (k ≡ j) × Permᴰ (map ask xs) (map ask ys)
unfolding reply_fingerprint sort_texts
reply_fingerprint-injective sha256 k j xs ys hx hy ux uy no_collision e =
    let sx = sort_by text_le (map item_key xs) in
    let sy = sort_by text_le (map item_key ys) in
    let (same_kind, same_keys) =
      split_unique (kind_text k) (kind_text j) (write_keys sx) (write_keys sy)
        (kind_text-HasNoZero k) (kind_text-HasNoZero j) (write_keys-head sx) (write_keys-head sy)
        (no_collision e) in
    (
      kind_text-injective k j same_kind,
      keys-Permᴰ xs ys ux uy (
          write_keys-injective sx sy (All-sort_by HasNoZero text_le (map item_key xs) hx)
            (All-sort_by HasNoZero text_le (map item_key ys) hy) same_keys),
    )
