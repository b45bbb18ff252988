-- ===== src/Model/Checklist/Routing.antt =====
-- internal/model/checklist.go: who a missing item is sent to.
use submission_triage.Prelude.{
  ◌≡◌, refl, ◌+◌, false, not, none, some, List, [], ◌∷◌, arith, Float, All, length, count_if,
  Option, Option-cases, inl, inr,
}
use submission_triage.Model.Submission.{Document, MissingItem}
use submission_triage.Model.Checklist.{
  Strconv, RequiredItem, Checklist, ItemDocs, ByItem, is_review, is_actionable, requires_review,
  broker_actionable, bucket_docs, unsatisfied_item, check_item, check_items, check_field,
  find_bucket, evaluate_checklist,
}

-- Exactly one of the agency and the broker has to act on it.
abbrev pub IsRouted : MissingItem → Type 0
IsRouted m = is_review m.code ≡ not (is_actionable m.code)

abbrev WhenRouted : Option MissingItem → Type 0
WhenRouted none = Unit
WhenRouted (some m) = IsRouted m

unsatisfied_item-IsRouted :
    (item : RequiredItem) (b : Option ItemDocs) → IsRouted (unsatisfied_item item b)
unfolding unsatisfied_item
unsatisfied_item-IsRouted item none = refl
unsatisfied_item-IsRouted item (some b) = ground arith

check_item-IsRouted :
    (conv : Strconv) (m : ByItem) (item : RequiredItem) → WhenRouted (check_item conv m item)
unfolding check_item check_field
check_item-IsRouted conv m item = elim (Option-cases (find_bucket item.id m)) [
  | inl e ↦ ground (arith, e, unsatisfied_item-IsRouted item none)
  | inr (b, e) ↦ ground (arith, e, unsatisfied_item-IsRouted item (some b))
]

check_items-IsRouted :
    (conv : Strconv) (m : ByItem) (items : List RequiredItem)
    → All IsRouted (check_items conv m items)
unfolding check_items
check_items-IsRouted conv m [] = tt
check_items-IsRouted conv m (item ∷ items) =
    ground (arith, check_item-IsRouted conv m item, check_items-IsRouted conv m items)

pub evaluate_checklist-IsRouted :
    (conv : Strconv) (floor : Float) (docs : List Document) (c : Checklist)
    → All IsRouted (evaluate_checklist conv floor docs c)
unfolding evaluate_checklist
evaluate_checklist-IsRouted conv floor docs c =
    check_items-IsRouted conv (bucket_docs floor docs []) c.required

pub routed_count :
    (xs : List MissingItem)
    → All IsRouted xs
    → length (broker_actionable xs) + count_if (λ m. is_review m.code) xs ≡ length xs
unfolding broker_actionable
routed_count [] h = refl
routed_count (x ∷ xs) h = ground (arith, h.0, routed_count xs h.1)

requires_review-count :
    (xs : List MissingItem) → requires_review xs ≡ false → count_if (λ m. is_review m.code) xs ≡ 0
unfolding requires_review
requires_review-count [] h = refl
requires_review-count (x ∷ xs) h = ground (arith, requires_review-count xs)

-- Every missing item of an evaluation is the broker's or the agency's, and no item is both.
pub evaluate_checklist-routing :
    (conv : Strconv) (floor : Float) (docs : List Document) (c : Checklist)
    → let missing = evaluate_checklist conv floor docs c in
      length (broker_actionable missing) + count_if (λ m. is_review m.code) missing ≡ length missing
unfolding evaluate_checklist
evaluate_checklist-routing conv floor docs c =
    routed_count (evaluate_checklist conv floor docs c)
      (check_items-IsRouted conv (bucket_docs floor docs []) c.required)

-- Something missing that needs no human leaves something to ask the broker for.
pub evaluate_checklist-has_ask :
    (conv : Strconv) (floor : Float) (docs : List Document) (c : Checklist)
    → let missing = evaluate_checklist conv floor docs c in
      requires_review missing ≡ false → length (broker_actionable missing) ≡ length missing
evaluate_checklist-has_ask conv floor docs c h =
    let missing = evaluate_checklist conv floor docs c in
    omega (arith, evaluate_checklist-routing conv floor docs c, requires_review-count missing h)
