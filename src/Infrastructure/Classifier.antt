-- ===== src/Infrastructure/Classifier.antt =====
-- internal/infrastructure/classifier/classifier.go: the checklist item that a document is for.
-- A map of ids is a list without repetition. The reasons, which are only logged, are left out.
pub mod Choice
use submission_triage.Prelude.{
  ℕ, Bool, true, false, ◌&&◌, ◌||◌, not, Option, none, some, List, [], ◌∷◌, map, Text, codes,
  text_eq, ◌==◌, if◌then◌else◌, is_empty, contains, Float, finite, pos, float_zero,
}
use submission_triage.Model.Checklist.{RequiredItem, Checklist}
use submission_triage.Model.Documents.{
  add_id, by_filename, by_keyword, by_filename_keyword, by_llm, by_heuristic,
}
use submission_triage.Pkg.Glob.{Paths, match_any, contains_any}
use submission_triage.Service.World.{ClassifierInput, Classified}

-- The end of the client's call: over the spend cap, an error, or an id with a confidence; the last two
-- with whether tokens were used.
pub data LlmVerdict : Type 0 where
  over_cap : LlmVerdict
  failed_call : Bool → LlmVerdict
  chosen : Bool → Text → Float → LlmVerdict

-- The client, none where there is no language model, is asked with the ids and descriptions.
pub record Classifier : Type 0 where
  pub paths : Paths
  pub client : Option (ClassifierInput → List (Text × Text) → LlmVerdict)

unfoldable pub confidence_filename : Float
confidence_filename = finite (pos 950000)

unfoldable pub confidence_keyword : Float
confidence_keyword = finite (pos 850000)

-- The ids of the items that pass a test, added to a set.
unfoldable pub matches_of : (RequiredItem → Bool) → List RequiredItem → List Text → List Text
unfolding add_id
matches_of p [] set = set
matches_of p (item ∷ items) set = matches_of p items (if p item then add_id item.id set else set)

unfoldable pub named : Classifier → ClassifierInput → RequiredItem → Bool
named c input item = match_any c.paths item.rules.filename_patterns input.filename

unfoldable pub mentioned : ClassifierInput → RequiredItem → Bool
mentioned input item =
    not (is_empty item.rules.content_keywords)
    && contains_any item.rules.content_keywords input.body_text

unfoldable pub match_by_filename : Classifier → ClassifierInput → List Text
unfolding matches_of named
match_by_filename c input = matches_of (named c input) input.checklist.required []

unfoldable pub match_by_content : ClassifierInput → List Text
unfolding matches_of mentioned
match_by_content input = matches_of (mentioned input) input.checklist.required []

unfoldable pub add_ids : List Text → List Text → List Text
unfolding add_id
add_ids [] out = out
add_ids (id ∷ ids) out = add_ids ids (add_id id out)

unfoldable pub merge : List Text → List Text → List Text
unfolding add_ids
merge a b = add_ids b (add_ids a [])

unfoldable pub single_match : List Text → Option Text
single_match (id ∷ []) = some id
single_match _ = none

unfoldable pub unmatched : Text → Float → Classified
unmatched by confidence = record {
  candidate_id = [];
  confidence = confidence;
  by = by;
  capped = false;
  failed = false;
  used = false;
}

-- What becomes of the client's answer.
unfoldable pub judge_verdict : List Text → LlmVerdict → Classified
unfolding unmatched by_llm by_heuristic
judge_verdict ids over_cap = record (unmatched by_heuristic float_zero) { capped = true }
judge_verdict ids (failed_call used) = record (unmatched by_llm float_zero) {
  failed = true;
  used = used;
}
judge_verdict ids (chosen used id confidence) =
    let none_of_them = record (unmatched by_llm confidence) { used = used } in
    if is_empty id || id == codes "unknown"
    then none_of_them
    else if not (contains ids id)
    then none_of_them
    else record none_of_them { candidate_id = id }

unfoldable pub classify_by_llm :
    (ClassifierInput → List (Text × Text) → LlmVerdict) → ClassifierInput → Classified
unfolding judge_verdict
classify_by_llm client input =
    let items = input.checklist.required in
    judge_verdict (map (λ (i : RequiredItem). i.id) items)
      (client input (map (λ (i : RequiredItem). (i.id, i.description)) items))

unfoldable pub without_match :
    Option (ClassifierInput → List (Text × Text) → LlmVerdict) → ClassifierInput → Classified
unfolding classify_by_llm unmatched by_heuristic
without_match none input = unmatched by_heuristic float_zero
without_match (some client) input = classify_by_llm client input

unfoldable pub matched_as : Text → Text → Float → Classified
unfolding unmatched
matched_as id by confidence = record (unmatched by confidence) { candidate_id = id }

-- After the file name: the content alone, then the language model.
unfoldable pub by_merged : Classifier → ClassifierInput → Option Text → Classified
unfolding matched_as by_keyword confidence_keyword without_match
by_merged c input (some id) = matched_as id by_keyword confidence_keyword
by_merged c input none = without_match c.client input

unfoldable pub by_name_first : Classifier → ClassifierInput → Option Text → Classified
unfolding matched_as by_filename by_filename_keyword confidence_filename by_merged
by_name_first c input (some id) =
    matched_as id
      (if contains (match_by_content input) id then by_filename_keyword else by_filename)
      confidence_filename
by_name_first c input none =
    by_merged c input (single_match (merge (match_by_filename c input) (match_by_content input)))

-- `Classify`, which serves as the environment's classifier.
unfoldable pub classify : Classifier → ClassifierInput → Classified
unfolding by_name_first match_by_filename single_match
classify c input = by_name_first c input (single_match (match_by_filename c input))
