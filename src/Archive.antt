-- ===== src/Archive.antt =====
-- The jobs that build ZIP archives: internal/archive/archive.go.
--
-- Archive.Selection has the checks on a request, Archive.Jobs the state of `Manager` and its critical
-- sections, between which other goroutines run. The context of a job is a Boolean that says whether
-- it has been cancelled. What the temporary file holds is its size; that and whether writing it fails
-- are arguments.
pub mod Selection
pub mod Jobs
pub mod Moves
pub mod Selected
pub mod Cancelled
pub mod Stranded
mod Tests
