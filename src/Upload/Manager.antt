-- ===== src/Upload/Manager.antt =====
-- `Create`, `Get` and the clean-up of `upload.Manager`.
use safe_file_hub.Base.{
  ℕ, String, Bool, true, false, ◌&&◌, ◌||◌, none, some, List, [], ◌∷◌, str_eq, if◌then◌else◌, Bytes,
  length,
}
use safe_file_hub.Base.Int.{ℤ, pos, negsuc}
use safe_file_hub.Base.Store.{lookup, insert}
use safe_file_hub.Upload.Data.{
  Status, active, cancelled, cleanup_pending, complete, UploadSession, World, Result, ok, err,
  not_found, conflict, too_large, failed, Outcome, and_then,
}
use safe_file_hub.Upload.Rows.{session_by_id, update_upload_status, delete_upload_session}
use safe_file_hub.Upload.Staging.{remove_staging}
use safe_file_hub.Upload.Lock.{Lock, with_lifecycle_lock, is_live}

-- `Create`, with the random id that it draws and the expiry that it computes.
pub record CreateFaults : Type 0 where
  pub create : Bool
  pub close : Bool
  pub insert : Bool
  pub undo : Bool

unfoldable pub new_session : String → String → ℕ → ℕ → String → ℕ → ℕ → UploadSession
new_session id name user root path length expires = record {
  id = id;
  user_id = user;
  root_id = root;
  logical_path = path;
  staging_path = name;
  offset = 0;
  length = length;
  status = active;
  expires_at = expires;
}

abbrev pub staged : String → Bytes → World → World
staged name content w = record w { staging = insert name content w.staging }

-- The insert: a primary key, and a unique staging path.
unfoldable pub staging_path_taken : String → List (String × UploadSession) → Bool
staging_path_taken name [] = false
staging_path_taken name ((id, s) ∷ rest) =
    str_eq s.staging_path name || staging_path_taken name rest

unfoldable pub create_session : Bool → UploadSession → World → Outcome Unit
unfolding staging_path_taken
create_session fails s w = if fails then (err failed, w) else (elim (lookup s.id w.sessions) [
  | some row ↦ (err conflict, w)
  | none ↦
      if staging_path_taken s.staging_path w.sessions
      then (err conflict, w)
      else (ok tt, record w { sessions = insert s.id s w.sessions })
])

unfoldable pub undo_create : CreateFaults → UploadSession → Outcome Unit → Outcome UploadSession
undo_create f s (ok _, w) = (ok s, w)
undo_create f s (err e, w) = (err e, (remove_staging f.undo s.staging_path w).1)

unfoldable pub create_row : CreateFaults → UploadSession → World → Outcome UploadSession
unfolding undo_create
create_row f s w = undo_create f s (create_session f.insert s w)

unfoldable pub create_of_length :
    CreateFaults → (ℕ → UploadSession) → String → World → ℕ → Outcome UploadSession
unfolding create_row
create_of_length f make name w length = elim (lookup name w.staging) [
  | some content ↦ (err failed, w)
  | none ↦
      if f.create
      then (err failed, w)
      else if f.close
      then (err failed, staged name [] w)
      else create_row f (make length) (staged name [] w)
]

unfoldable pub create :
    CreateFaults → (ℕ → UploadSession) → String → ℤ → World → Outcome UploadSession
unfolding create_of_length
create f make name (negsuc n) w = (err too_large, w)
create f make name (pos length) w = create_of_length f make name w length

pub record CleanupFaults : Type 0 where
  pub cancel : Bool
  pub pend : Bool
  pub remove : Bool
  pub delete : Bool

unfoldable pub remove_and_delete : CleanupFaults → UploadSession → World → Outcome Unit
remove_and_delete f s w =
    and_then (remove_staging f.remove s.staging_path w) (λ _. delete_upload_session f.delete s.id)

unfoldable pub cleanup_cancelled : CleanupFaults → UploadSession → World → Outcome Unit
unfolding remove_and_delete
cleanup_cancelled f s w =
    and_then (update_upload_status f.pend s.id cancelled cleanup_pending w)
      (λ _. remove_and_delete f s)

unfoldable pub cleanup_at : Status → CleanupFaults → UploadSession → World → Outcome Unit
unfolding cleanup_cancelled
cleanup_at complete f s w = (err not_found, w)
cleanup_at active f s w =
    and_then (update_upload_status f.cancel s.id active cancelled w) (λ _. cleanup_cancelled f s)
cleanup_at cancelled f s w = cleanup_cancelled f s w
cleanup_at cleanup_pending f s w = remove_and_delete f s w

-- `cleanupLocked`
unfoldable pub cleanup_locked : CleanupFaults → UploadSession → World → Outcome Unit
unfolding cleanup_at
cleanup_locked f s w = cleanup_at s.status f s w

-- The function under the lock in `cleanup`; `Cancel` passes false.
unfoldable pub cleanup_unless_live : CleanupFaults → Bool → ℕ → UploadSession → World → Outcome Unit
cleanup_unless_live f expiry_only now s w =
    if expiry_only && is_live now s then (ok tt, w) else cleanup_locked f s w

-- `cleanup`
unfoldable pub cleanup : Lock → CleanupFaults → Bool → ℕ → String → World → Outcome Unit
unfolding cleanup_unless_live
cleanup l f expiry_only now id w =
    with_lifecycle_lock l id (cleanup_unless_live f expiry_only now) w

-- `Get`: what it returns and does after the row has been read.
unfoldable pub get_row :
    Lock → CleanupFaults → ℕ → ℕ → String → Result UploadSession → World → Outcome UploadSession
get_row l f now later id (err e) w = (err e, w)
get_row l f now later id (ok s) w =
    if is_live now s then (ok s, w) else (err not_found, (cleanup l f true later id w).1)

unfoldable pub get : Bool → Lock → CleanupFaults → ℕ → ℕ → String → World → Outcome UploadSession
unfolding get_row
get fails l f now later id w = get_row l f now later id (session_by_id fails id w) w
