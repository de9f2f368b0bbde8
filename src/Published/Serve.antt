-- ===== src/Published/Serve.antt =====
-- `downloadFile` and `deleteFile`.
use safe_file_hub.Base.{
  ℕ, zero, suc, Bool, true, false, not, Option, none, some, [], ◌∷◌, ◌==◌, Bytes, length,
  if◌then◌else◌,
}
use safe_file_hub.Base.Int.{pos}
use safe_file_hub.Base.Store.{lookup}
use safe_file_hub.Download.{ByteRange, parse_range}
use safe_file_hub.Upload.Staging.{take}
use safe_file_hub.Published.Data.{FileRow, Hub, Answer, Authorizer, ok, err, Response}
use safe_file_hub.Published.Rows.{
  file_by_id, storage_root_by_id, begin_file_delete, finalize_file_delete, RemoveFaults,
  remove_object,
}
use safe_file_hub.Published.Handlers.{
  Check, refuse, go, then_check, check_user, check_allowed, check_found,
}

-- The status and the body of a download.
pub data Served : Type 0 where
  refused : ℕ → Served
  whole : Bytes → Served
  part : ByteRange → Bytes → Served

pub record DownloadFaults : Type 0 where
  pub file : Bool
  pub root : Bool
  pub open_object : Bool
  pub seek : Bool

-- Denied and unauthenticated requests see the status of a file that does not exist.
unfoldable pub hidden_user : Option ℕ → Check ℕ
hidden_user none = refuse 404
hidden_user (some zero) = refuse 404
hidden_user (some (suc n)) = go (suc n)

unfoldable pub hidden_allowed : Answer Bool → Check Unit
hidden_allowed (err e) = refuse 500
hidden_allowed (ok true) = go tt
hidden_allowed (ok false) = refuse 404

unfoldable pub drop : ℕ → Bytes → Bytes
drop zero s = s
drop (suc n) [] = []
drop (suc n) (c ∷ s) = drop n s

-- The part of the object that is sent; a HEAD request sends none.
unfoldable pub section_of : Bytes → ByteRange → Bytes
section_of content r = take r.length (drop r.start content)

unfoldable pub serve_range : Bool → Bytes → Option ByteRange → Served
unfolding section_of
serve_range seek_fails content none = refused 416
serve_range seek_fails content (some r) =
    if seek_fails then refused 404 else part r (section_of content r)

-- The range counts where `If-Range` names this version of the file.
unfoldable pub serve_object : DownloadFaults → Option Bytes → FileRow → Bytes → Served
unfolding serve_range
serve_object f range file content =
    if not (file.size == length content) then refused 404 else (elim range [
      | none ↦ if f.seek then refused 404 else whole content
      | some raw ↦ serve_range f.seek content (parse_range raw (pos (length content)))
    ])

unfoldable pub open_and_serve : DownloadFaults → Option Bytes → FileRow → Option Bytes → Served
unfolding serve_object
open_and_serve f range file none = refused 404
open_and_serve f range file (some content) =
    if f.open_object then refused 404 else serve_object f range file content

unfoldable pub serve_checked : DownloadFaults → Option Bytes → Hub → Check FileRow → Served
unfolding open_and_serve
serve_checked f range h (refuse status) = refused status
serve_checked f range h (go file) = open_and_serve f range file (lookup file.object_key h.objects)

unfoldable pub check_download : DownloadFaults → Authorizer → Option ℕ → ℕ → Hub → Check FileRow
unfolding hidden_user hidden_allowed check_found
check_download f ask user id h = then_check (hidden_user user) (λ uid.
    then_check (check_found (file_by_id f.file id h)) (λ file.
      then_check (hidden_allowed (ask uid file.root_id file.logical_path "read"))
        (λ _. then_check (check_found (storage_root_by_id f.root file.root_id h)) (λ _. go file))))

-- `downloadFile` for GET; `range` is the header that `If-Range` lets through.
unfoldable pub download_file :
    DownloadFaults → Option Bytes → Authorizer → Option ℕ → ℕ → Hub → Served
unfolding serve_checked check_download
download_file f range ask user id h = serve_checked f range h (check_download f ask user id h)

pub record DeleteFaults : Type 0 where
  pub file : Bool
  pub begin : Bool
  pub remove : RemoveFaults
  pub finalize : Bool

unfoldable pub check_delete : DeleteFaults → Authorizer → Option ℕ → ℕ → Hub → Check FileRow
unfolding check_user check_allowed check_found
check_delete f ask user id h = then_check (check_found (file_by_id f.file id h)) (λ file.
    then_check (check_user user) (λ uid.
      then_check (check_allowed (ask uid file.root_id file.logical_path "delete")) (λ _. go file)))

unfoldable pub after_finalize : Answer Unit × Hub → Response
after_finalize (ok _, h) = (204, h)
after_finalize (err _, h) = (500, h)

unfoldable pub after_unlink : DeleteFaults → FileRow → Answer Unit × Hub → Response
unfolding after_finalize
after_unlink f file (ok _, h) =
    after_finalize (finalize_file_delete f.finalize file.id file.object_key h)
after_unlink f file (err _, h) = (500, h)

unfoldable pub after_begin : DeleteFaults → FileRow → Answer Unit × Hub → Response
unfolding after_unlink
after_begin f file (ok _, h) = after_unlink f file (remove_object f.remove file.object_key h)
after_begin f file (err _, h) = (409, h)

unfoldable pub delete_checked : DeleteFaults → Hub → Check FileRow → Response
unfolding after_begin
delete_checked f h (refuse status) = (status, h)
delete_checked f h (go file) =
    after_begin f file (begin_file_delete f.begin file.id file.object_key h)

-- `deleteFile`
unfoldable pub delete_file : DeleteFaults → Authorizer → Option ℕ → ℕ → Hub → Response
unfolding delete_checked check_delete
delete_file f ask user id h = delete_checked f h (check_delete f ask user id h)
