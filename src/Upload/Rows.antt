-- ===== src/Upload/Rows.antt =====
-- The queries of internal/db/repository.go on `upload_sessions`, and `CompleteUpload`.
use safe_file_hub.Base.{
  ℕ, suc, String, Bool, true, false, ◌&&◌, ◌||◌, Option, none, some, List, [], ◌∷◌, ◌++◌, ltb, ◌==◌,
  str_eq, if◌then◌else◌,
}
use safe_file_hub.Base.Store.{lookup, insert, erase}
use safe_file_hub.Upload.Data.{
  Status, active, cancelled, cleanup_pending, complete, UploadSession, File, World, Result, ok, err,
  not_found, conflict, failed, Outcome, found,
}

unfoldable pub status_eq : Status → Status → Bool
status_eq active active = true
status_eq cancelled cancelled = true
status_eq cleanup_pending cleanup_pending = true
status_eq complete complete = true
status_eq _ _ = false

-- `UploadSessionByID`
unfoldable pub session_by_id : Bool → String → World → Result UploadSession
session_by_id fails id w = if fails then err failed else found (lookup id w.sessions)

-- A row as an UPDATE leaves it, if its condition holds.
unfoldable pub update_where : Bool → String → UploadSession → World → Outcome Unit
update_where true id row w = (ok tt, record w { sessions = insert id row w.sessions })
update_where false id row w = (err conflict, w)

unfoldable pub offset_of_row : Option UploadSession → String → ℕ → ℕ → World → Outcome Unit
unfolding update_where
offset_of_row none id expected offset w = (err conflict, w)
offset_of_row (some row) id expected offset w =
    update_where (row.offset == expected) id (record row { offset = offset }) w

-- `UpdateUploadOffset`
unfoldable pub update_upload_offset : Bool → String → ℕ → ℕ → World → Outcome Unit
unfolding offset_of_row
update_upload_offset fails id expected offset w =
    if fails then (err failed, w) else offset_of_row (lookup id w.sessions) id expected offset w

unfoldable pub status_of_row :
    Option UploadSession → String → Status → Status → World → Outcome Unit
unfolding update_where status_eq
status_of_row none id expected status w = (err conflict, w)
status_of_row (some row) id expected status w =
    update_where (status_eq row.status expected) id (record row { status = status }) w

-- `UpdateUploadStatus`
unfoldable pub update_upload_status : Bool → String → Status → Status → World → Outcome Unit
unfolding status_of_row
update_upload_status fails id expected status w =
    if fails then (err failed, w) else status_of_row (lookup id w.sessions) id expected status w

-- `DeleteUploadSession`
unfoldable pub delete_upload_session : Bool → String → World → Outcome Unit
delete_upload_session fails id w = if fails then (err failed, w) else (elim (lookup id w.sessions) [
  | none ↦ (err not_found, w)
  | some row ↦ (ok tt, record w { sessions = erase id w.sessions })
])

-- UNIQUE (root_id, logical_path) and UNIQUE object_key on `files`
unfoldable pub file_taken : List File → ℕ → String → String → Bool
file_taken [] root path key = false
file_taken (f ∷ fs) root path key =
    ((f.root_id == root && str_eq f.logical_path path) || str_eq f.object_key key)
    || file_taken fs root path key

-- the trigger `files_path_not_directory`
unfoldable pub directory_taken : List (ℕ × String) → ℕ → String → Bool
directory_taken [] root path = false
directory_taken ((r, p) ∷ ds) root path =
    (r == root && str_eq p path) || directory_taken ds root path

unfoldable pub may_insert : World → UploadSession → String → Bool
unfolding file_taken directory_taken
may_insert w s key =
    if file_taken w.files s.root_id s.logical_path key
    then false
    else if directory_taken w.directories s.root_id s.logical_path
    then false
    else true

unfoldable pub file_row : World → UploadSession → String → File
file_row w s key = record {
  id = w.next_file_id;
  root_id = s.root_id;
  logical_path = s.logical_path;
  object_key = key;
  size = s.length;
  created_by_user_id = s.user_id;
  md5_pending = w.md5_enabled;
}

-- The committed transaction.
unfoldable pub committed : World → UploadSession → String → World
unfolding file_row
committed w s key = record w {
  sessions = erase s.id w.sessions;
  files = w.files ++ file_row w s key ∷ [];
  md5_tasks = if w.md5_enabled then w.md5_tasks ++ w.next_file_id ∷ [] else w.md5_tasks;
  next_file_id = suc w.next_file_id;
}

unfoldable pub commit_row : Option UploadSession → ℕ → UploadSession → String → World → Outcome Unit
unfolding may_insert committed status_eq
commit_row none now s key w = (err conflict, w)
commit_row (some row) now s key w =
    if status_eq row.status active && ltb now row.expires_at
    then (if may_insert w s key then (ok tt, committed w s key) else (err conflict, w))
    else (err conflict, w)

-- `CompleteUpload` for the file that `Complete` builds from the session: one transaction, which a
-- failure at any point rolls back.
unfoldable pub complete_upload : Bool → ℕ → UploadSession → String → World → Outcome Unit
unfolding commit_row
complete_upload fails now s key w =
    if fails then (err failed, w) else commit_row (lookup s.id w.sessions) now s key w
