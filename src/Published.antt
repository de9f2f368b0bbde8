-- ===== src/Published.antt =====
-- The HTTP handlers that create, serve, rename and delete files, and the recovery of what they
-- leave behind: internal/httpapi/published.go and downloads.go, internal/publishedrecovery/recovery.go.
--
-- A response is its status. The bodies of requests have been decoded, and `uid` is what the session
-- middleware puts into the context. Calls of the database, of the object store and of the authorizer
-- that can fail take a Boolean, or the answer; the authorizer is a function. Audit events, headers and times are left out.
pub mod Data
pub mod Rows
pub mod Handlers
pub mod Serve
pub mod Rename
pub mod Renamed
pub mod Directories
pub mod Parents
pub mod Trees
pub mod Recovery
pub mod Lost
pub mod Checked
pub mod Requested
pub mod Created
pub mod Served
pub mod Deleted
mod Tests
mod RenameTests
mod DirectoryTests
