-- ===== src/Infrastructure/Classifier/Choice.antt =====
-- internal/infrastructure/classifier/classifier.go: which items a document may be filed under.
use mathlib.Core.Bool.{false≢true}
use mathlib.Core.Path.{subst}
use submission_triage.Prelude.{
  ◌≡◌, refl, sym, ◌∙◌, ap, ◌⊎◌, inl, inr, Bool, true, ◌&&◌, ◌||◌, Option, none, some, List, [], ◌∷◌,
  map, Text, text_eq, text_beq_iff, ◌==◌, ==_refl, if◌then◌else◌, contains, any, arith, All,
  Bool-cases,
}
use submission_triage.Model.Checklist.{RequiredItem}
use submission_triage.Model.Documents.{add_id, contains-add_id, by_filename, by_filename_keyword}
use submission_triage.Service.World.{ClassifierInput}
use submission_triage.Infrastructure.Classifier.{
  LlmVerdict, over_cap, failed_call, chosen, Classifier, confidence_filename, matches_of, named,
  mentioned, match_by_filename, match_by_content, add_ids, merge, single_match, unmatched,
  judge_verdict, classify_by_llm, without_match, matched_as, by_merged, by_name_first, classify,
}

-- An item of the checklist that passes a test has the id.
abbrev pub some_item : (RequiredItem → Bool) → Text → List RequiredItem → Bool
some_item p id items = any (λ item. item.id == id && p item) items

matches_of-contains :
    (p : RequiredItem → Bool) (items : List RequiredItem) (set : List Text) (id : Text)
    → contains (matches_of p items set) id ≡ (contains set id || some_item p id items)
unfolding matches_of
matches_of-contains p [] set id = ground arith
matches_of-contains p (item ∷ items) set id = elim (Bool-cases (p item)) [
  | inl e ↦ simp e (
      ground (
        arith,
        matches_of-contains p items (add_id item.id set) id,
        contains-add_id item.id id set,
      ))
  | inr e ↦ simp e (ground (arith, matches_of-contains p items set id))
]

add_ids-contains :
    (ids out : List Text) (id : Text)
    → contains (add_ids ids out) id ≡ (contains out id || contains ids id)
unfolding add_ids
add_ids-contains [] out id = ground arith
add_ids-contains (x ∷ ids) out id =
    ground (arith, add_ids-contains ids (add_id x out) id, contains-add_id x id out)

single_match-contains :
    (set : List Text) (id : Text) → single_match set ≡ some id → contains set id ≡ true
unfolding single_match
single_match-contains [] id h = cc
single_match-contains (x ∷ []) id h = ground (arith, text_beq_iff x id)
single_match-contains (x ∷ y ∷ set) id h = cc

some_item-is_id :
    (p : RequiredItem → Bool) (items : List RequiredItem) (id : Text)
    → some_item p id items ≡ true
    → contains (map (λ (i : RequiredItem). i.id) items) id ≡ true
some_item-is_id p [] id h = h
some_item-is_id p (item ∷ items) id h = ground (arith, h, some_item-is_id p items id)

-- No item, or one of the checklist.
abbrev pub IsCandidate : List RequiredItem → Text → Type 0
IsCandidate items id = (id ≡ []) ⊎ (contains (map (λ (i : RequiredItem). i.id) items) id ≡ true)

judge_verdict-IsCandidate :
    (items : List RequiredItem) (v : LlmVerdict)
    → IsCandidate items (judge_verdict (map (λ (i : RequiredItem). i.id) items) v).candidate_id
unfolding judge_verdict unmatched
judge_verdict-IsCandidate items over_cap = inl refl
judge_verdict-IsCandidate items (failed_call used) = inl refl
judge_verdict-IsCandidate items (chosen used id confidence) = ground arith

classify_by_llm-IsCandidate :
    (client : ClassifierInput → List (Text × Text) → LlmVerdict) (input : ClassifierInput)
    → IsCandidate input.checklist.required (classify_by_llm client input).candidate_id
unfolding classify_by_llm
classify_by_llm-IsCandidate client input =
    judge_verdict-IsCandidate input.checklist.required
      (client input (map (λ (i : RequiredItem). (i.id, i.description)) input.checklist.required))

by_merged-IsCandidate :
    (c : Classifier) (input : ClassifierInput) (found : Option Text)
    → ((id : Text) → found ≡ some id → IsCandidate input.checklist.required id)
    → IsCandidate input.checklist.required (by_merged c input found).candidate_id
unfolding by_merged matched_as
by_merged-IsCandidate c input (some id) h = h id refl
by_merged-IsCandidate c input none h = go c.client
  where
    go :
        (client : Option (ClassifierInput → List (Text × Text) → LlmVerdict))
        → IsCandidate input.checklist.required (without_match client input).candidate_id
    go none = unfold without_match unmatched in inl refl
    go (some client) = unfold without_match in classify_by_llm-IsCandidate client input

named-IsCandidate :
    (p : RequiredItem → Bool) (items : List RequiredItem) (id : Text)
    → contains (matches_of p items []) id ≡ true
    → IsCandidate items id
named-IsCandidate p items id h =
    inr (some_item-is_id p items id (sym (matches_of-contains p items [] id) ∙ h))

merged-IsCandidate :
    (c : Classifier) (input : ClassifierInput) (id : Text)
    → contains (merge (match_by_filename c input) (match_by_content input)) id ≡ true
    → IsCandidate input.checklist.required id
unfolding merge match_by_filename match_by_content
merged-IsCandidate c input id h =
    let items = input.checklist.required in
    let a = matches_of (named c input) items [] in
    let b = matches_of (mentioned input) items [] in
    elim (Bool-cases (contains a id)) [
      | inl e ↦ named-IsCandidate (named c input) items id e
      | inr e ↦
          named-IsCandidate (mentioned input) items id
            (ground (arith, h, add_ids-contains b (add_ids a []) id, add_ids-contains a [] id))
    ]

-- A document is filed under no item or under one of the checklist, also where the language model
-- names another.
pub classify-IsCandidate :
    (c : Classifier) (input : ClassifierInput)
    → IsCandidate input.checklist.required (classify c input).candidate_id
unfolding classify
classify-IsCandidate c input = go (single_match (match_by_filename c input)) (λ id e. e)
  where
    go :
        (found : Option Text)
        → ((id : Text) → found ≡ some id → single_match (match_by_filename c input) ≡ some id)
        → IsCandidate input.checklist.required (by_name_first c input found).candidate_id
    go (some id) h =
        unfold by_name_first matched_as match_by_filename in
        named-IsCandidate (named c input) input.checklist.required id
          (single_match-contains _ id (h id refl))
    go none h =
        unfold by_name_first in
        by_merged-IsCandidate c input _
          (λ id e. merged-IsCandidate c input id (single_match-contains _ id e))

-- The id is that of an item that passes the test, and of every item that does.
abbrev pub IsLone : (RequiredItem → Bool) → List RequiredItem → Text → Type 0
IsLone p items id = (some_item p id items ≡ true) × All (λ item. p item ≡ true → item.id ≡ id) items

-- A set of one id at most.
abbrev AtMost : Text → List Text → Type 0
AtMost id set = (set ≡ []) ⊎ (set ≡ id ∷ [])

add_id-AtMost : (id : Text) (set : List Text) → AtMost id set → AtMost id (add_id id set)
unfolding add_id
add_id-AtMost id set (inl e) = rw e (inr refl)
add_id-AtMost id set (inr e) = rw e (rw (==_refl id) (inr refl))

matches_of-AtMost :
    (p : RequiredItem → Bool) (items : List RequiredItem) (set : List Text) (id : Text)
    → All (λ item. p item ≡ true → item.id ≡ id) items
    → AtMost id set
    → AtMost id (matches_of p items set)
unfolding matches_of
matches_of-AtMost p [] set id h hs = hs
matches_of-AtMost p (item ∷ items) set id h hs = elim (Bool-cases (p item)) [
  | inl e ↦ simp e (
      matches_of-AtMost p items (add_id item.id set) id h.1
        (subst (λ x. AtMost id (add_id x set)) (sym (h.0 e)) (add_id-AtMost id set hs)))
  | inr e ↦ simp e (matches_of-AtMost p items set id h.1 hs)
]

lone-single_match :
    (set : List Text) (id : Text)
    → AtMost id set
    → contains set id ≡ true
    → single_match set ≡ some id
unfolding single_match
lone-single_match set id (inl e) h = absurd (false≢true (ap (λ s. contains s id) (sym e) ∙ h))
lone-single_match set id (inr e) h = rw e refl

-- Where the file name fits items of one id alone, the document is filed under it with the confidence
-- of a file name, whatever the language model says; the content only tells how it was found.
pub classify-lone :
    (c : Classifier) (input : ClassifierInput) (id : Text)
    → IsLone (named c input) input.checklist.required id
    → classify c input
      ≡ matched_as id
          (if some_item (mentioned input) id input.checklist.required
            then by_filename_keyword
            else by_filename)
          confidence_filename
unfolding classify match_by_filename
classify-lone c input id lone =
    let items = input.checklist.required in
    let found : single_match (matches_of (named c input) items []) ≡ some id =
      lone-single_match _ id (matches_of-AtMost (named c input) items [] id lone.1 (inl refl))
        (matches_of-contains (named c input) items [] id ∙ lone.0) in
    ap (by_name_first c input) found
    ∙ (unfold by_name_first match_by_content in
        ap (λ b. matched_as id (if b then by_filename_keyword else by_filename) confidence_filename)
          (matches_of-contains (mentioned input) items [] id))
