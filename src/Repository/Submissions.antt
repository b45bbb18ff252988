-- ===== src/Repository/Submissions.antt =====
-- internal/repository/submissions.go: the tables of submissions, emails and documents.
-- A row of `submissions` is a submission without its emails and documents. Columns in JSON are the
-- values that they encode. Rows that tie under ORDER BY come in the order of insertion. An error of
-- SQLite itself is left to the callers.
pub mod Rows
pub mod Queries
pub mod Kept
unfoldable pub use Rows.*
unfoldable pub use Queries.*
