-- ===== src/Service/Threads.antt =====
-- internal/service/submissions.go: what an email is taken to be about. The email's id, the thread
-- references, the line of business, and the named insured.
pub mod References
pub mod Earliest
use submission_triage.Prelude.{
  ℕ, suc, zero, ◌+◌, Bool, true, false, ◌&&◌, ◌||◌, not, Option, none, some, List, [], ◌∷◌, ◌++◌,
  map, Text, codes, text_eq, ◌==◌, contains, if◌then◌else◌, is_empty, trim_space, to_lower,
  index_of, contains_text, take, drop, length, leb, ltb, sort_texts, newline, any, is_some, nat_eq,
  split_lines,
}
use submission_triage.Model.Submission.{Attachment}
use submission_triage.Model.Checklist.{Checklist}
use submission_triage.Service.World.{Env}

hashes_of : (Text → Text) → List Attachment → List Text
hashes_of sha256 [] = []
hashes_of sha256 (a ∷ atts) =
    (if is_empty a.sha256 then sha256 a.content else a.sha256) ∷ hashes_of sha256 atts

write_hashes : List Text → Text
write_hashes [] = []
write_hashes (h ∷ hs) = (0 ∷ h) ++ write_hashes hs

-- SHA-256 in hexadecimal of the message id, the body and the sorted attachment hashes.
unfoldable pub compute_email_id : (Text → Text) → Text → Text → List Attachment → Text
unfolding hashes_of write_hashes
compute_email_id sha256 message_id body atts =
    sha256 (message_id ++ 0 ∷ body ++ write_hashes (sort_texts (hashes_of sha256 atts)))

-- The loop of `cleanThreadRefs` over the references, on the set `seen`.
pub clean_refs : List Text → List Text → List Text
clean_refs [] seen = []
clean_refs (r ∷ raw) seen =
    let v = trim_space r in
    let skipped = clean_refs raw seen in
    let kept = clean_refs raw (v ∷ seen) in
    if is_empty v then skipped else if contains seen v then skipped else v ∷ kept

unfoldable pub clean_thread_refs : Text → Text → List Text → List Text
unfolding clean_refs
clean_thread_refs message_id in_reply_to references =
    clean_refs (message_id ∷ in_reply_to ∷ references) []

unfoldable pub policy_type_unknown : Text
policy_type_unknown = codes "unknown"

unfoldable pub policy_aliases : List (Text × Text)
policy_aliases =
    (codes "general liability", codes "cgl")
    ∷ (codes "cgl", codes "cgl")
    ∷ (codes "business owners", codes "bop")
    ∷ (codes "bop", codes "bop")
    ∷ (codes "workers' comp", codes "workers_compensation")
    ∷ (codes "workers comp", codes "workers_compensation")
    ∷ (codes "property", codes "commercial_property")
    ∷ (codes "cyber", codes "cyber_liability")
    ∷ []

-- The calls of `consider`, in their order: needle and policy.
unfoldable pub candidates : List Checklist → List (Text × Text)
unfolding policy_aliases
candidates [] = policy_aliases
candidates (c ∷ cs) = (c.name, c.policy_type) ∷ (c.policy_type, c.policy_type) ∷ candidates cs

-- An occurrence replaces the best so far if it is earlier.
take_earlier : Text → ℕ → Text × Option ℕ → Text × Option ℕ
take_earlier policy at (best, none) = (policy, some at)
take_earlier policy at (best, some best_at) =
    if leb best_at at then (best, some best_at) else (policy, some at)

-- `consider`, on `best` and `bestAt`; `none` is -1.
pub consider : Text → Text × Text → Text × Option ℕ → Text × Option ℕ
unfolding take_earlier
consider lower (needle, policy) found =
    if is_empty needle then found else elim (index_of lower (to_lower needle)) [
      | none ↦ found
      | some at ↦ take_earlier policy at found
    ]

pub consider_all : Text → List (Text × Text) → Text × Option ℕ → Text × Option ℕ
unfolding consider
consider_all lower [] found = found
consider_all lower (c ∷ cs) found = consider_all lower cs (consider lower c found)

unfoldable pub infer_policy_type : Text → List Checklist → Text
unfolding policy_type_unknown consider_all candidates
infer_policy_type text all =
    (consider_all (to_lower text) (candidates all) (policy_type_unknown, none)).0

-- Store.Get: the checklist of a policy type.
unfoldable pub get_checklist : Text → List Checklist → Option Checklist
get_checklist policy [] = none
get_checklist policy (c ∷ cs) =
    let rest = get_checklist policy cs in if c.policy_type == policy then some c else rest

quote_markers : List Text
quote_markers =
    (10 ∷ codes ">")
    ∷ codes "-----Original Message-----"
    ∷ (10 ∷ codes "From:")
    ∷ (10 ∷ codes "________________________________")
    ∷ []

cut_at : List Text → Text → Text
cut_at [] body = body
cut_at (m ∷ ms) body = cut_at ms (elim (index_of body m) [ none ↦ body | some i ↦ take i body ])

unfoldable pub reply_body_prefix : Text → Text
unfolding quote_markers cut_at
reply_body_prefix body = take 512 (cut_at quote_markers body)

-- strings.TrimLeft of the characters that follow a label.
trim_label : Text → Text
trim_label [] = []
trim_label (c ∷ s) =
    let rest = trim_label s in if contains (9 ∷ codes ":.-# ") c then rest else c ∷ s

-- "" for a value that is no name.
clean_insured : Text → Text
clean_insured raw =
    let s = trim_space raw in
    let low = to_lower s in
    if ltb (length s) 2 || ltb 120 (length s)
    then []
    else if contains_text low (codes "named insured") || contains_text low (codes "mailing address")
    then []
    else s

-- The two lines under the label.
first_clean : List Text → Text
unfolding clean_insured
first_clean [] = []
first_clean (l ∷ ls) =
    let v = clean_insured (trim_space l) in
    let rest = first_clean ls in if is_empty v then rest else v

scan_lines : List Text → Text
unfolding first_clean trim_label
scan_lines [] = []
scan_lines (line ∷ lines) =
    let rest = scan_lines lines in
    elim (index_of (to_lower line) (codes "named insured")) [
      | none ↦ rest
      | some idx ↦
          let v = clean_insured (trim_space (trim_label (trim_space (drop (idx + 13) line)))) in
          if is_empty v
          then (let below = first_clean (take 2 lines) in if is_empty below then rest else below)
          else v
    ]

unfoldable pub named_insured_from_text : Text → Text
unfolding scan_lines
named_insured_from_text text = scan_lines (split_lines text [])
