-- ===== src/Node/FileEdit.antt =====
-- Edits of a file by named pieces of text (internal/node/file_edit.go, file_edit_atomic.go).
pub mod Bytes
pub mod Newlines
pub mod Ranges
pub mod Splice
pub mod Matches
pub mod NewlineLaws
pub mod Plan
pub mod PlanFacts
pub mod Edit
pub mod Promises
pub mod Diff
pub mod DiffText
