-- ===== src/Service/Threads/Earliest.antt =====
-- internal/service/submissions.go: the line of business is the one that is named first.
use mathlib.Core.List.{Memᴰ}
use mathlib.Core.Path.{subst}
use submission_triage.Prelude.{
  ◌≢◌, ℕ, ◌≤◌, ◌≡◌, refl, ◌⊎◌, inl, inr, Option, none, some, List, [], ◌∷◌, Text, is_empty,
  to_lower, index_of, arith, All, if◌then◌else◌, ap, ◌∙◌,
}
use submission_triage.Model.Checklist.{Checklist}
use submission_triage.Service.Threads.{
  candidates, consider, consider_all, infer_policy_type, policy_type_unknown,
}

-- Where a needle that is not empty stands.
abbrev pub place : Text → Text × Text → Option ℕ
place lower (needle, _) = if is_empty needle then none else index_of lower (to_lower needle)

-- No needle that occurs stands before the place found, and if one occurs a place was found.
abbrev pub NotBefore : Option ℕ → Option ℕ → Type 0
NotBefore none _ = Unit
NotBefore (some _) none = ⊥
NotBefore (some at) (some best) = best ≤ at

keeps_NotBefore :
    (lower : Text) (x : Option ℕ) (c : Text × Text) (found : Text × Option ℕ)
    → NotBefore x found.1
    → NotBefore x (consider lower c found).1
unfolding consider
keeps_NotBefore lower none c found h = tt
keeps_NotBefore lower (some at) c found h = ground arith

consider-NotBefore :
    (lower : Text) (c : Text × Text) (found : Text × Option ℕ)
    → NotBefore (place lower c) (consider lower c found).1
unfolding consider
consider-NotBefore lower c found = ground arith

consider_all-keeps :
    (lower : Text) (x : Option ℕ) (cs : List (Text × Text)) (found : Text × Option ℕ)
    → NotBefore x found.1
    → NotBefore x (consider_all lower cs found).1
unfolding consider_all
consider_all-keeps lower x [] found h = h
consider_all-keeps lower x (c ∷ cs) found h =
    consider_all-keeps lower x cs (consider lower c found) (keeps_NotBefore lower x c found h)

consider_all-NotBefore :
    (lower : Text) (cs : List (Text × Text)) (found : Text × Option ℕ)
    → All (λ c. NotBefore (place lower c) (consider_all lower cs found).1) cs
unfolding consider_all
consider_all-NotBefore lower [] found = tt
consider_all-NotBefore lower (c ∷ cs) found = (
  consider_all-keeps lower (place lower c) cs (consider lower c found)
      (consider-NotBefore lower c found),
  consider_all-NotBefore lower cs (consider lower c found),
)

-- Where a result comes from: it is the start, or one of the candidates at its place.
data Comes (lower : Text) (start : Text × Option ℕ) (cs : List (Text × Text))
    (found : Text × Option ℕ) : Type 0 where
  kept : found ≡ start → Comes lower start cs found
  chosen :
      (c : Text × Text)
      → Memᴰ c cs
      → found.0 ≡ c.1
      → found.1 ≡ place lower c
      → place lower c ≢ none
      → Comes lower start cs found

consider-Comes :
    (lower : Text) (c : Text × Text) (cs : List (Text × Text)) (found : Text × Option ℕ)
    → (consider lower c found ≡ found)
      ⊎ ((consider lower c found).0 ≡ c.1)
        × ((consider lower c found).1 ≡ place lower c)
        × (place lower c ≢ none)
unfolding consider
consider-Comes lower c cs found = ground arith

consider_all-Comes :
    (lower : Text) (cs : List (Text × Text)) (found : Text × Option ℕ)
    → Comes lower found cs (consider_all lower cs found)
unfolding consider_all
consider_all-Comes lower [] found = kept refl
consider_all-Comes lower (c ∷ cs) found =
    later (consider_all-Comes lower cs (consider lower c found))
  where
    later :
        Comes lower (consider lower c found) cs (consider_all lower cs (consider lower c found))
        → Comes lower found (c ∷ cs) (consider_all lower cs (consider lower c found))
    later (chosen d m e p occurs) = chosen d (Memᴰ.tail m) e p occurs
    later (kept e) = elim (consider-Comes lower c cs found) [
      | inl same ↦ kept (e ∙ same)
      | inr (policy, at, occurs) ↦
          chosen c (Memᴰ.head refl) (ap (λ f. f.0) e ∙ policy) (ap (λ f. f.1) e ∙ at) occurs
    ]

none_before :
    (lower : Text) (cs : List (Text × Text))
    → All (λ c. NotBefore (place lower c) none) cs
    → All (λ c. place lower c ≡ none) cs
none_before lower [] h = tt
none_before lower (c ∷ cs) h = (ground (arith, h.0), none_before lower cs h.1)

-- Nothing, when no needle occurs at all; or the policy of a candidate that occurs where no other
-- candidate stands before it.
abbrev pub IsEarliest : Text → List (Text × Text) → Text → Type 0
IsEarliest lower cs policy =
    (policy ≡ policy_type_unknown) × All (λ c. place lower c ≡ none) cs
    ⊎ ((c : Text × Text) × Memᴰ c cs
        × (policy ≡ c.1)
        × (place lower c ≢ none)
        × All (λ d. NotBefore (place lower d) (place lower c)) cs)

Comes-IsEarliest :
    (lower : Text) (cs : List (Text × Text)) (found : Text × Option ℕ)
    → Comes lower (policy_type_unknown, none) cs found
    → All (λ c. NotBefore (place lower c) found.1) cs
    → IsEarliest lower cs found.0
Comes-IsEarliest lower cs found (kept e) h = inl (
  ap (λ f. f.0) e,
  none_before lower cs
      (subst (λ at. All (λ c. NotBefore (place lower c) at) cs) (ap (λ f. f.1) e) h),
)
Comes-IsEarliest lower cs found (chosen c m e p occurs) h =
    inr (c, m, e, occurs, subst (λ at. All (λ d. NotBefore (place lower d) at) cs) p h)

-- The line of business of a text is the candidate whose name, type or alias occurs earliest in it,
-- and unknown only where none occurs.
pub infer_policy_type-IsEarliest :
    (text : Text) (all : List Checklist)
    → IsEarliest (to_lower text) (candidates all) (infer_policy_type text all)
unfolding infer_policy_type
infer_policy_type-IsEarliest text all =
    let start : Text × Option ℕ = (policy_type_unknown, none) in
    Comes-IsEarliest (to_lower text) (candidates all)
      (consider_all (to_lower text) (candidates all) start)
      (consider_all-Comes (to_lower text) (candidates all) start)
      (consider_all-NotBefore (to_lower text) (candidates all) start)
