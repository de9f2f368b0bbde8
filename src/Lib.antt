-- ===== src/Lib.antt =====
-- SafeFileHub keeps files behind logical paths. A request names a path or a file id; the path is
-- parsed and normalised, the rows of `permissions` decide whether the user may act on it, and the
-- handlers then change rows of SQLite and files of the object store, which has a staging area for
-- resumable uploads. The modules model the part of that core that decides and changes state:
--
-- - Base: lists, bytes, signed numbers and tables that the components share; split and join, and
--   the decoding of UTF-8.
-- - PathPolicy: internal/pathpolicy/path.go, function by function. NFC normalisation is a
--   parameter; a Go string is the list of its bytes.
-- - Permission: `Authorize` of internal/permission/authorize.go over the rows that the repository
--   returns; it reads every stored prefix again by PathPolicy.
-- - Limits: internal/limits, the two limiters with their channels of slots and their counters; a
--   call is one step.
-- - Download: `ParseRange` of internal/download/range.go with the `ParseInt` that it calls, which
--   refuses what does not fit into 63 bits.
-- - Upload: internal/upload/session.go. Upload.Data and Upload.Rows have the rows and queries of
--   internal/db/repository.go, Upload.Staging the staging files and objects of
--   internal/storage/objects_unix.go, Upload.Lock the lifecycle lock, Upload.Manager `Create`,
--   `Get` and the clean-up, Upload.Transfer `Write` and `Complete`, Upload.Recover `Recover`, which
--   gets the entries of the staging directory. The loop of the lock runs over a list of rounds, one
--   for each time it is taken, in which other processes may do anything; the last round finds the
--   row unchanged, as the loop does when it ends.
-- - Published: the handlers of internal/httpapi/published.go and downloads.go that create, serve,
--   rename and delete files, and the pass of internal/publishedrecovery/recovery.go. The id of the
--   URL has been parsed. `Authorize` is a function that the handlers on files call with user, root,
--   path and action, and its answer an argument of those on directories. Published.Directories has
--   the handlers that create and delete directories, with the triggers of internal/db/migrations;
--   SQLite's LIKE is a parameter.
-- - Md5: the queue of MD5 tasks in internal/db/repository.go that internal/checksum/worker.go
--   works off.
-- - Auth: internal/auth/session.go with its store in memory, on tables. The worker that collects
--   sessions runs on fuel; one pass for every 64 expired sessions and one more are enough.
--   Auth.Passwords is internal/auth/password.go, with Argon2 and base64 as parameters.
-- - Archive: internal/archive/archive.go. Archive.Selection checks a request, Archive.Jobs has the
--   critical sections of the manager, Archive.Moves puts them in any order.
-- - SiteAssets: internal/siteassets/store.go, the reader of ICO files included. What the image
--   library says of other files is a parameter.
--
-- Calls of the database and the file system that can fail have a Boolean that says whether they
-- do, but for those of the MD5 queue, so that a theorem covers each point of failure. Sizes,
-- offsets and times are natural numbers; requests carry signed ones where the code tests the sign.
--
-- Not modelled are the HTTP server and its middleware, the handlers on archives, settings and
-- site assets, the cleanup queue of assets, the bytes of a ZIP file, the loop of the checksum
-- worker, metrics and the clients; of the storage layer only what it promises; audit events,
-- headers and row timestamps other than the expiry are left out.
pub mod Base
pub mod Limits
pub mod Download
pub mod PathPolicy
pub mod Permission
pub mod Upload
pub mod Published
pub mod Md5
pub mod Auth
pub mod Archive
pub mod SiteAssets
