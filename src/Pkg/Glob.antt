-- ===== src/Pkg/Glob.antt =====
-- pkg/glob/glob.go: file name patterns and keywords.
use submission_triage.Prelude.{
  Bool, false, ◌&&◌, not, Option, none, some, List, Text, is_empty, any, to_lower, contains_text,
}

-- path.Base, and filepath.Match with none for a malformed pattern.
pub record Paths : Type 0 where
  pub base : Text → Text
  pub match : Text → Text → Option Bool

abbrev matched : Option Bool → Bool
matched none = false
matched (some b) = b

unfoldable pub match_any : Paths → List Text → Text → Bool
match_any paths patterns target =
    let lower = to_lower (paths.base target) in
    any (λ pattern. not (is_empty pattern) && matched (paths.match (to_lower pattern) lower))
      patterns

unfoldable pub contains_any : List Text → Text → Bool
contains_any keywords body =
    not (is_empty body)
    && any (λ kw. not (is_empty kw) && contains_text (to_lower body) (to_lower kw)) keywords
