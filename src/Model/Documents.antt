-- ===== src/Model/Documents.antt =====
-- internal/model/document.go: items that only a filename speaks for.
use submission_triage.Prelude.{
  ◌≡◌, refl, Bool, true, false, ◌&&◌, ◌||◌, not, List, [], ◌∷◌, ◌++◌, Text, codes, text_eq,
  text_beq_iff, any-sort_by, ◌∙◌, text_le, ◌==◌, contains, keep_if, Bool-cases, inl, inr,
  if◌then◌else◌, is_empty, sort_texts, any, arith,
}
use submission_triage.Model.Submission.{Document}

unfoldable pub by_filename : Text
by_filename = codes "filename"

unfoldable pub by_keyword : Text
by_keyword = codes "keyword"

unfoldable pub by_filename_keyword : Text
by_filename_keyword = codes "filename+keyword"

unfoldable pub by_llm : Text
by_llm = codes "llm"

unfoldable pub by_heuristic : Text
by_heuristic = codes "heuristic"

-- `set[id] = true` on a set kept as a list without repetition.
unfoldable pub add_id : Text → List Text → List Text
add_id id set = if contains set id then set else set ++ id ∷ []

abbrev is_corroborating : Text → Bool
is_corroborating by = by == by_keyword || (by == by_filename_keyword || by == by_llm)

-- One round of the loop over the documents, on the two sets.
collect_one : Document → List Text × List Text → List Text × List Text
unfolding add_id by_filename by_keyword by_filename_keyword by_llm
collect_one d (filename, corroborated) =
    if is_empty d.classified_as
    then (filename, corroborated)
    else if d.classified_by == by_filename
    then (add_id d.classified_as filename, corroborated)
    else if is_corroborating d.classified_by
    then (filename, add_id d.classified_as corroborated)
    else (filename, corroborated)

collect : List Document → List Text × List Text → List Text × List Text
unfolding collect_one
collect [] sets = sets
collect (d ∷ ds) sets = collect ds (collect_one d sets)

unfoldable pub filename_only_matches : List Document → List Text
unfolding collect
filename_only_matches docs =
    let (filename, corroborated) = collect docs ([], []) in
    sort_texts (keep_if (λ id. not (contains corroborated id)) filename)

abbrev pub named_by_filename : Text → Document → Bool
named_by_filename id d =
    not (is_empty d.classified_as) && (d.classified_as == id && d.classified_by == by_filename)

abbrev pub corroborated_for : Text → Document → Bool
corroborated_for id d =
    not (is_empty d.classified_as) && (d.classified_as == id && is_corroborating d.classified_by)

contains-append :
    (set : List Text) (id a : Text) → contains (set ++ id ∷ []) a ≡ (contains set a || id == a)
contains-append [] id a = ground arith
contains-append (x ∷ set) id a = ground (arith, contains-append set id a)

pub contains-add_id :
    (id a : Text) (set : List Text) → contains (add_id id set) a ≡ (contains set a || id == a)
unfolding add_id
contains-add_id id a set = ground (arith, contains-append set id a, text_beq_iff id a)

not_both : (by : Text) → (by == by_filename) ≡ true → is_corroborating by ≡ false
unfolding by_filename by_keyword by_filename_keyword by_llm
not_both by e = rw ((text_beq_iff by (codes "filename")).0 e) refl

collect_one-sets :
    (id : Text) (d : Document) (sets : List Text × List Text)
    → (contains (collect_one d sets).0 id ≡ (contains sets.0 id || named_by_filename id d))
      × (contains (collect_one d sets).1 id ≡ (contains sets.1 id || corroborated_for id d))
unfolding collect_one
collect_one-sets id d (f, c) = ground (
  arith,
  contains-add_id d.classified_as id f,
  contains-add_id d.classified_as id c,
  not_both d.classified_by,
)

collect-sets :
    (id : Text) (ds : List Document) (sets : List Text × List Text)
    → (contains (collect ds sets).0 id ≡ (contains sets.0 id || any (named_by_filename id) ds))
      × (contains (collect ds sets).1 id ≡ (contains sets.1 id || any (corroborated_for id) ds))
unfolding collect
collect-sets id [] sets = ground arith
collect-sets id (d ∷ ds) sets =
    ground (arith, collect_one-sets id d sets, collect-sets id ds (collect_one d sets))

contains-keep_if :
    (bad set : List Text) (a : Text)
    → contains (keep_if (λ id. not (contains bad id)) set) a
      ≡ (contains set a && not (contains bad a))
contains-keep_if bad [] a = refl
contains-keep_if bad (x ∷ set) a = elim (Bool-cases (x == a)) [
  | inl e ↦ rw ((text_beq_iff x a).0 e) (ground (arith, contains-keep_if bad set a))
  | inr e ↦ ground (arith, contains-keep_if bad set a)
]

-- An item is flagged exactly when some document was classified to it by its filename alone and
-- none with its content or by the model.
pub filename_only_matches-contains :
    (docs : List Document) (id : Text)
    → contains (filename_only_matches docs) id
      ≡ (any (named_by_filename id) docs && not (any (corroborated_for id) docs))
unfolding filename_only_matches sort_texts
filename_only_matches-contains docs id =
    let sets = collect docs ([], []) in
    any-sort_by text_le (λ x. x == id) (keep_if (λ x. not (contains sets.1 x)) sets.0)
    ∙ contains-keep_if sets.1 sets.0 id
    ∙ ground (arith, collect-sets id docs ([], []))
