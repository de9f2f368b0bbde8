-- ===== src/Published/Rows.antt =====
-- The queries of internal/db/repository.go on `files` and `object_cleanup_jobs`, and the objects.
use safe_file_hub.Base.{
  ℕ, suc, String, Bool, true, false, not, ◌&&◌, ◌||◌, none, some, List, [], ◌∷◌, ◌++◌, ◌==◌, str_eq,
  bytes_eq, Bytes, if◌then◌else◌,
}
use safe_file_hub.Base.Store.{lookup, erase}
use safe_file_hub.Published.Data.{
  DeleteState, active, deleting, FileRow, Hub, not_found, conflict, failed, Answer, ok, err,
}

unfoldable pub is_active : DeleteState → Bool
is_active active = true
is_active deleting = false

unfoldable pub first_active : ℕ → List FileRow → Answer FileRow
unfolding is_active
first_active id [] = err not_found
first_active id (f ∷ fs) =
    let rest = first_active id fs in if f.id == id && is_active f.delete_state then ok f else rest

-- `FileByID`
unfoldable pub file_by_id : Bool → ℕ → Hub → Answer FileRow
file_by_id fails id h = if fails then err failed else first_active id h.files

unfoldable pub first_at : ℕ → Bytes → List FileRow → Answer FileRow
unfolding is_active
first_at root path [] = err not_found
first_at root path (f ∷ fs) =
    let rest = first_at root path fs in
    if (f.root_id == root && bytes_eq f.logical_path path) && is_active f.delete_state
    then ok f
    else rest

-- `FileByRootAndPath`
unfoldable pub file_by_root_and_path : Bool → ℕ → Bytes → Hub → Answer FileRow
file_by_root_and_path fails root path h = if fails then err failed else first_at root path h.files

unfoldable pub is_directory : List (ℕ × Bytes) → ℕ → Bytes → Bool
is_directory [] root path = false
is_directory ((r, p) ∷ ds) root path =
    let rest = is_directory ds root path in (r == root && bytes_eq p path) || rest

-- `DirectoryByRootAndPath`
unfoldable pub directory_by_root_and_path : Bool → ℕ → Bytes → Hub → Answer Unit
directory_by_root_and_path fails root path h =
    if fails
    then err failed
    else if is_directory h.directories root path
    then ok tt
    else err not_found

unfoldable pub is_root : List ℕ → ℕ → Bool
is_root [] root = false
is_root (r ∷ rs) root = let rest = is_root rs root in r == root || rest

-- `StorageRootByID`
unfoldable pub storage_root_by_id : Bool → ℕ → Hub → Answer Unit
storage_root_by_id fails root h =
    if fails then err failed else if is_root h.roots root then ok tt else err not_found

-- UNIQUE (root_id, logical_path) and UNIQUE object_key, over active and deleted rows
unfoldable pub row_taken : List FileRow → ℕ → Bytes → String → Bool
row_taken [] root path key = false
row_taken (f ∷ fs) root path key =
    let rest = row_taken fs root path key in
    ((f.root_id == root && bytes_eq f.logical_path path) || str_eq f.object_key key) || rest

-- `CreateFile`; the foreign key of the root and the trigger `files_path_not_directory` are conflicts.
unfoldable pub create_file_row : Bool → FileRow → Hub → Answer ℕ × Hub
unfolding row_taken is_directory is_root
create_file_row fails f h =
    if fails
    then (err failed, h)
    else if row_taken h.files f.root_id f.logical_path f.object_key
        || (is_directory h.directories f.root_id f.logical_path || not (is_root h.roots f.root_id))
    then (err conflict, h)
    else (
      ok h.next_file_id,
      record h {
        files = h.files ++ record f { id = h.next_file_id } ∷ [];
        next_file_id = suc h.next_file_id;
      },
    )

unfoldable pub is_pair : FileRow → ℕ → String → Bool
is_pair f id key = f.id == id && str_eq f.object_key key

-- The rows behind the UPDATE, and how many it changed.
unfoldable pub mark_deleting : ℕ → String → List FileRow → List FileRow × ℕ
unfolding is_pair is_active
mark_deleting id key [] = ([], 0)
mark_deleting id key (f ∷ fs) =
    let (rest, n) = mark_deleting id key fs in
    if is_pair f id key && is_active f.delete_state
    then (record f { delete_state = deleting } ∷ rest, suc n)
    else (f ∷ rest, n)

unfoldable pub drop_deleting : ℕ → String → List FileRow → List FileRow × ℕ
unfolding is_pair is_active
drop_deleting id key [] = ([], 0)
drop_deleting id key (f ∷ fs) =
    let (rest, n) = drop_deleting id key fs in
    if is_pair f id key && not (is_active f.delete_state) then (rest, suc n) else (f ∷ rest, n)

-- The statement has been run; `ErrNotFound` unless it changed one row.
unfoldable pub changed_one : List FileRow × ℕ → Hub → Answer Unit × Hub
changed_one (files, n) h = (if n == 1 then ok tt else err not_found, record h { files = files })

-- `BeginFileDelete`
unfoldable pub begin_file_delete : Bool → ℕ → String → Hub → Answer Unit × Hub
unfolding mark_deleting changed_one
begin_file_delete fails id key h =
    if fails then (err failed, h) else changed_one (mark_deleting id key h.files) h

-- `FinalizeFileDelete`
unfoldable pub finalize_file_delete : Bool → ℕ → String → Hub → Answer Unit × Hub
unfolding drop_deleting changed_one
finalize_file_delete fails id key h =
    if fails then (err failed, h) else changed_one (drop_deleting id key h.files) h

unfoldable pub is_job : String → List String → Bool
is_job key [] = false
is_job key (j ∷ js) = let rest = is_job key js in str_eq j key || rest

-- `EnqueueObjectCleanup`
unfoldable pub enqueue_object_cleanup : Bool → String → Hub → Answer Unit × Hub
unfolding is_job
enqueue_object_cleanup fails key h =
    if fails
    then (err failed, h)
    else if is_job key h.cleanup_jobs
    then (ok tt, h)
    else (ok tt, record h { cleanup_jobs = h.cleanup_jobs ++ key ∷ [] })

unfoldable pub drop_job : String → List String → List String
drop_job key [] = []
drop_job key (j ∷ js) = let rest = drop_job key js in if str_eq j key then rest else j ∷ rest

-- `CompleteObjectCleanup`
unfoldable pub complete_object_cleanup : Bool → String → Hub → Answer Unit × Hub
unfolding drop_job
complete_object_cleanup fails key h =
    if fails
    then (err failed, h)
    else (ok tt, record h { cleanup_jobs = drop_job key h.cleanup_jobs })

-- The failures of `Remove`: before the unlink, and in the fsync behind it.
pub record RemoveFaults : Type 0 where
  pub unlink : Bool
  pub sync : Bool

-- `ObjectStore.Remove`: the unlink of an object that is not there is an error.
unfoldable pub remove_object : RemoveFaults → String → Hub → Answer Unit × Hub
remove_object f key h = if f.unlink then (err failed, h) else (elim (lookup key h.objects) [
  | none ↦ (err failed, h)
  | some content ↦
      (if f.sync then err failed else ok tt, record h { objects = erase key h.objects })
])
