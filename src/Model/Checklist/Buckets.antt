-- ===== src/Model/Checklist/Buckets.antt =====
-- internal/model/checklist.go: what the first loop of `EvaluateChecklist` puts into a bucket.
use mathlib.Core.List.{append-nil, append_assoc}
use submission_triage.Prelude.{
  ◌≡◌, refl, sym, ap, ◌∙◌, Bool, true, false, ◌&&◌, not, Option, none, some, List, [], ◌∷◌, ◌++◌,
  Text, ◌==◌, text_eq, text_beq_iff, arith, Float, float_lt, if◌then◌else◌, is_empty, keep_if,
}
use submission_triage.Model.Submission.{Document}
use submission_triage.Model.Checklist.{
  ItemDocs, no_docs, ByItem, find_bucket, change_bucket, add_to_bucket, bucket_docs,
}

abbrev pub or_no_docs : Option ItemDocs → ItemDocs
or_no_docs none = no_docs
or_no_docs (some b) = b

find_bucket-change_bucket :
    (j k : Text) (f : ItemDocs → ItemDocs) (m : ByItem)
    → find_bucket j (change_bucket k f m)
      ≡ (if k == j then some (f (or_no_docs (find_bucket j m))) else find_bucket j m)
unfolding find_bucket change_bucket
find_bucket-change_bucket j k f [] = refl
find_bucket-change_bucket j k f ((i, b) ∷ m) =
    ground (
      arith,
      text_beq_iff k j,
      text_beq_iff i k,
      text_beq_iff i j,
      find_bucket-change_bucket j k f m,
    )

-- A document that the classifier gave to the item `id`.
abbrev pub is_for : Text → Document → Bool
is_for id d = not (is_empty d.classified_as) && d.classified_as == id

abbrev step_bucket : Float → Text → Document → Option ItemDocs → Option ItemDocs
step_bucket floor id d b = if is_for id d then some (add_to_bucket floor d (or_no_docs b)) else b

abbrev pub bucket_of : Float → Text → List Document → Option ItemDocs → Option ItemDocs
bucket_of floor id [] b = b
bucket_of floor id (d ∷ ds) b = bucket_of floor id ds (step_bucket floor id d b)

find_bucket-step :
    (floor : Float) (id : Text) (d : Document) (m : ByItem)
    → find_bucket id (
        if is_empty d.classified_as
        then m
        else change_bucket d.classified_as (add_to_bucket floor d) m)
      ≡ step_bucket floor id d (find_bucket id m)
find_bucket-step floor id d m =
    ground (arith, find_bucket-change_bucket id d.classified_as (add_to_bucket floor d) m)

-- One pass over the documents fills each bucket as a pass for that item alone would.
pub find_bucket-bucket_docs :
    (floor : Float) (id : Text) (ds : List Document) (m : ByItem)
    → find_bucket id (bucket_docs floor ds m) ≡ bucket_of floor id ds (find_bucket id m)
unfolding bucket_docs
find_bucket-bucket_docs floor id [] m = refl
find_bucket-bucket_docs floor id (d ∷ ds) m =
    find_bucket-bucket_docs floor id ds _
    ∙ ap (bucket_of floor id ds) (find_bucket-step floor id d m)

-- A document that counts: unlocked, readable and not below the floor.
abbrev pub qualifies : Float → Document → Bool
qualifies floor d = not d.encrypted && (not d.unreadable && not (float_lt d.confidence floor))

abbrev pub good_docs : Float → Text → List Document → List Document
good_docs floor id docs = keep_if (λ d. is_for id d && qualifies floor d) docs

abbrev pub qualifying_of : Option ItemDocs → List Document
qualifying_of none = []
qualifying_of (some b) = b.qualifying

qualifying-step :
    (floor : Float) (id : Text) (d : Document) (b : Option ItemDocs)
    → qualifying_of (step_bucket floor id d b)
      ≡ qualifying_of b ++ (if is_for id d && qualifies floor d then d ∷ [] else [])
unfolding add_to_bucket
qualifying-step floor id d none = ground (arith, append-nil (qualifying_of none))
qualifying-step floor id d (some b) = ground (arith, append-nil b.qualifying)

pub qualifying-bucket_of :
    (floor : Float) (id : Text) (ds : List Document) (b : Option ItemDocs)
    → qualifying_of (bucket_of floor id ds b) ≡ qualifying_of b ++ good_docs floor id ds
qualifying-bucket_of floor id [] b = sym (append-nil (qualifying_of b))
qualifying-bucket_of floor id (d ∷ ds) b =
    qualifying-bucket_of floor id ds (step_bucket floor id d b)
    ∙ ap (λ q. q ++ good_docs floor id ds) (qualifying-step floor id d b)
    ∙ append_assoc (qualifying_of b) (if is_for id d && qualifies floor d then d ∷ [] else [])
        (good_docs floor id ds)
    ∙ ap (λ q. qualifying_of b ++ q) (front (is_for id d && qualifies floor d))
  where
    front :
        (t : Bool)
        → (if t then d ∷ [] else []) ++ good_docs floor id ds
          ≡ (if t then d ∷ good_docs floor id ds else good_docs floor id ds)
    front true = refl
    front false = refl
