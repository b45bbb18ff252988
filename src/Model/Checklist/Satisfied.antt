-- ===== src/Model/Checklist/Satisfied.antt =====
-- internal/model/checklist.go: the missing items are the required ones that are not satisfied.
use submission_triage.Prelude.{
  ◌≡◌, refl, ap, ◌∙◌, Bool, true, false, ◌&&◌, ◌||◌, not, Option, none, some, List, [], ◌∷◌, map,
  Text, arith, Float, if◌then◌else◌, is_empty, keep_if, any, is_some, Option-cases, inl, inr,
}
use submission_triage.Model.Submission.{Document, MissingItem}
use submission_triage.Model.Checklist.{
  Strconv, RequiresField, RequiredItem, Checklist, ByItem, find_bucket, bucket_docs, evaluate_field,
  scan_field, check_field, check_item, check_items, evaluate_checklist,
}
use submission_triage.Model.Checklist.Buckets.{
  find_bucket-bucket_docs, good_docs, qualifying_of, qualifying-bucket_of,
}

-- The field was read from the document and meets its rule.
abbrev pub affirms : Strconv → RequiresField → Document → Bool
affirms conv rf d = let v = evaluate_field conv rf d in v.passed && v.ran

abbrev pub fails : Strconv → RequiresField → Document → Bool
fails conv rf d = not (evaluate_field conv rf d).passed

abbrev field_ok : Strconv → Option RequiresField → List Document → Bool
field_ok conv none ds = true
field_ok conv (some rf) ds = any (affirms conv rf) ds || not (any (fails conv rf) ds)

-- The rule, with no map and no loop variable: some document counts, and where a field is required
-- one of those affirms it or none of them fails it.
abbrev pub is_satisfied : Strconv → Float → List Document → RequiredItem → Bool
is_satisfied conv floor docs item =
    let good = good_docs floor item.id docs in
    not (is_empty good) && field_ok conv item.requires_field good

abbrev failed_of : Option (Bool × Text) → Bool
failed_of none = false
failed_of (some (failed, _)) = failed

scan_field-failed :
    (conv : Strconv) (rf : RequiresField) (ds : List Document) (failed : Bool) (reason : Text)
    → failed_of (scan_field conv rf ds failed reason)
      ≡ (not (any (affirms conv rf) ds) && (failed || any (fails conv rf) ds))
unfolding scan_field
scan_field-failed conv rf [] failed reason = ground arith
scan_field-failed conv rf (d ∷ ds) failed reason =
    let v = evaluate_field conv rf d in
    ground (
      arith,
      scan_field-failed conv rf ds (failed || not v.passed) (if v.passed then reason else v.reason),
    )

check_field-field_ok :
    (conv : Strconv) (item : RequiredItem) (ds : List Document)
    → is_some (check_field conv item ds) ≡ not (field_ok conv item.requires_field ds)
unfolding check_field
check_field-field_ok conv item ds = elim (Option-cases item.requires_field) [
  | inl e ↦ rw e refl
  | inr (rf, e) ↦ ground (arith, e, scan_field-failed conv rf ds false [])
]

check_item-bucket :
    (conv : Strconv) (m : ByItem) (item : RequiredItem)
    → let good = qualifying_of (find_bucket item.id m) in
      is_some (check_item conv m item)
      ≡ not (not (is_empty good) && field_ok conv item.requires_field good)
unfolding check_item
check_item-bucket conv m item = elim (Option-cases (find_bucket item.id m)) [
  | inl e ↦ ground (arith, e)
  | inr (b, e) ↦ ground (arith, e, check_field-field_ok conv item b.qualifying)
]

abbrev SameId : RequiredItem → Option MissingItem → Type 0
SameId item none = Unit
SameId item (some m) = m.id ≡ item.id

check_item-id :
    (conv : Strconv) (m : ByItem) (item : RequiredItem) → SameId item (check_item conv m item)
unfolding check_item
check_item-id conv m item = ground arith

check_item-is_satisfied :
    (conv : Strconv) (floor : Float) (docs : List Document) (item : RequiredItem)
    → is_some (check_item conv (bucket_docs floor docs []) item)
      ≡ not (is_satisfied conv floor docs item)
unfolding find_bucket
check_item-is_satisfied conv floor docs item =
    check_item-bucket conv (bucket_docs floor docs []) item
    ∙ ap (λ good. not (not (is_empty good) && field_ok conv item.requires_field good))
        (ap qualifying_of (find_bucket-bucket_docs floor item.id docs [])
          ∙ qualifying-bucket_of floor item.id docs none)

check_items-ids :
    (conv : Strconv) (m : ByItem) (ok? : RequiredItem → Bool)
    → ((item : RequiredItem) → is_some (check_item conv m item) ≡ not (ok? item))
    → (items : List RequiredItem)
    → map (λ (x : MissingItem). x.id) (check_items conv m items)
      ≡ map (λ (item : RequiredItem). item.id) (keep_if (λ item. not (ok? item)) items)
unfolding check_items
check_items-ids conv m ok? same [] = refl
check_items-ids conv m ok? same (item ∷ items) =
    ground (arith, same item, check_item-id conv m item, check_items-ids conv m ok? same items)

-- The items reported missing are, in the checklist's order, those that are not satisfied.
pub evaluate_checklist-is_satisfied :
    (conv : Strconv) (floor : Float) (docs : List Document) (c : Checklist)
    → map (λ (x : MissingItem). x.id) (evaluate_checklist conv floor docs c)
      ≡ map
          (λ (item : RequiredItem). item.id)
          (keep_if (λ item. not (is_satisfied conv floor docs item)) c.required)
unfolding evaluate_checklist
evaluate_checklist-is_satisfied conv floor docs c =
    check_items-ids conv (bucket_docs floor docs []) (is_satisfied conv floor docs)
      (check_item-is_satisfied conv floor docs) c.required
