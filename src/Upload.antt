-- ===== src/Upload.antt =====
-- internal/upload/session.go over the upload rows of internal/db/repository.go and the staging
-- files of internal/storage/objects_unix.go.
--
-- A database call or a system call that can fail takes a Boolean that says whether it does; the
-- error is then `failed`. `time.Now()` is an argument of the operation, one for each reading. Row
-- timestamps other than the expiry are left out. While an operation waits for the lifecycle flock
-- any other process may run: what they did is a function on the world.
pub mod Data
pub mod Rows
pub mod Staging
pub mod Lock
pub mod Manager
pub mod Transfer
pub mod Locked
pub mod Valid
pub mod Write
pub mod Cleanup
pub mod Kept
pub mod Failed
pub mod Committed
pub mod Publish
pub mod Complete
pub mod Reachable
pub mod Recover
pub mod Recovered
pub mod Survives
pub mod Paged
pub mod Removes
mod RecoverTests
mod Tests
