-- ===== src/Published/Rename.antt =====
-- `renameFile`, and `RenameFile` behind it.
use safe_file_hub.Base.{
  ℕ, suc, Bool, false, not, ◌&&◌, ◌||◌, Option, none, some, List, [], ◌∷◌, ◌==◌, Bytes, bytes_eq,
  if◌then◌else◌,
}
use safe_file_hub.PathPolicy.{NamePolicy, parse_decoded_path}
use safe_file_hub.Published.Data.{
  FileRow, Hub, not_found, conflict, failed, Answer, Authorizer, ok, err, Response,
}
use safe_file_hub.Published.Rows.{is_active, file_by_id, file_by_root_and_path}
use safe_file_hub.Published.Handlers.{
  Check, refuse, go, then_check, check_user, check_allowed, check_found, check_free,
  check_canonical, check_parent,
}

-- UNIQUE (root_id, logical_path), for the row with this id.
unfoldable pub taken_by_other : List FileRow → ℕ → ℕ → Bytes → Bool
taken_by_other [] id root path = false
taken_by_other (f ∷ fs) id root path =
    let rest = taken_by_other fs id root path in
    (not (f.id == id) && (f.root_id == root && bytes_eq f.logical_path path)) || rest

-- The rows behind the UPDATE, and how many it changed.
unfoldable pub move_rows : ℕ → Bytes → Bytes → List FileRow → List FileRow × ℕ
move_rows id old new [] = ([], 0)
move_rows id old new (f ∷ fs) =
    let (rest, n) = move_rows id old new fs in
    if f.id == id && (bytes_eq f.logical_path old && is_active f.delete_state)
    then (record f { logical_path = new } ∷ rest, suc n)
    else (f ∷ rest, n)

unfoldable pub moved_one : Bool → List FileRow × ℕ → Hub → Answer Unit × Hub
moved_one taken (files, n) h =
    if n == 0
    then (err not_found, h)
    else if taken
    then (err conflict, h)
    else (if n == 1 then ok tt else err not_found, record h { files = files })

-- `RenameFile`; no trigger watches an UPDATE of `files`.
unfoldable pub rename_row : Bool → FileRow → Bytes → Hub → Answer Unit × Hub
unfolding moved_one move_rows taken_by_other
rename_row fails f new h =
    if fails
    then (err failed, h)
    else moved_one (taken_by_other h.files f.id f.root_id new)
        (move_rows f.id f.logical_path new h.files) h

pub record RenameFaults : Type 0 where
  pub file : Bool
  pub destination : Bool
  pub parent : Bool
  pub rename : Bool

unfoldable pub check_body : (Bytes → Bytes) → NamePolicy → Option Bytes → Check Bytes
unfolding check_canonical
check_body nfc policy none = refuse 400
check_body nfc policy (some path) = check_canonical (parse_decoded_path nfc path policy)

-- The tests on the destination.
unfoldable pub check_destination : RenameFaults → FileRow → Hub → Bytes → Check (FileRow × Bytes)
unfolding check_free check_parent
check_destination f file h path =
    then_check (check_free (file_by_root_and_path f.destination file.root_id path h))
      (λ _. then_check (check_parent f.parent file.root_id path h) (λ _. go (file, path)))

-- The authorizer is asked about the old path and about the new one.
unfoldable pub check_rename :
    (Bytes → Bytes)
    → NamePolicy
    → RenameFaults
    → Authorizer
    → Option Bytes
    → Option ℕ
    → ℕ
    → Hub
    → Check (FileRow × Bytes)
unfolding check_found check_user check_allowed check_body check_destination
check_rename nfc policy f ask body user id h =
    then_check (check_found (file_by_id f.file id h)) (λ file. then_check (check_user user) (λ uid.
      then_check (check_body nfc policy body) (λ path.
        then_check (check_allowed (ask uid file.root_id file.logical_path "write")) (λ _.
          then_check (check_allowed (ask uid file.root_id path "write"))
            (λ _. check_destination f file h path)))))

unfoldable pub after_rename : Answer Unit × Hub → Response
after_rename (ok _, h) = (200, h)
after_rename (err _, h) = (409, h)

unfoldable pub rename_checked : RenameFaults → Hub → Check (FileRow × Bytes) → Response
unfolding after_rename rename_row
rename_checked f h (refuse status) = (status, h)
rename_checked f h (go (file, path)) = after_rename (rename_row f.rename file path h)

-- `renameFile`
unfoldable pub rename_file :
    (Bytes → Bytes)
    → NamePolicy
    → RenameFaults
    → Authorizer
    → Option Bytes
    → Option ℕ
    → ℕ
    → Hub
    → Response
unfolding rename_checked check_rename
rename_file nfc policy f ask body user id h =
    rename_checked f h (check_rename nfc policy f ask body user id h)
