-- ===== src/Upload/Transfer.antt =====
-- `Write` and `Complete` of `upload.Manager`.
use safe_file_hub.Base.{
  ℕ, ◌+◌, ◌-◌, ◌^◌, String, Bool, true, false, not, ◌&&◌, Option, none, some, ◌++◌, ltb, ◌==◌,
  if◌then◌else◌, Bytes, bytes_eq, length,
}
use safe_file_hub.Base.Store.{lookup}
use safe_file_hub.Upload.Data.{
  UploadSession, World, Result, ok, err, not_found, too_large, incomplete, checksum, failed,
  offset_conflict, Outcome, and_then,
}
use safe_file_hub.Upload.Rows.{update_upload_offset, complete_upload}
use safe_file_hub.Upload.Staging.{resize, take, PublishFaults, publish_staging, restore_published}
use safe_file_hub.Upload.Lock.{Lock, with_lifecycle_lock, is_live}
use safe_file_hub.Upload.Manager.{staged, CleanupFaults, cleanup_locked}

-- The request body: the bytes that arrive, and whether reading or writing fails behind them.
pub record Body : Type 0 where
  pub bytes : Bytes
  pub broken : Bool

pub record WriteFaults : Type 0 where
  pub open_file : Bool
  pub truncate : Bool
  pub seek : Bool
  pub sync : Bool
  pub update : Bool
  -- the truncation that undoes a write
  pub undo : Bool
  pub cleanup : CleanupFaults

unfoldable pub after_update : UploadSession → ℕ → Bytes → Outcome Unit → Outcome ℕ
after_update s next undone (ok _, w) = (ok next, w)
after_update s next undone (err e, w) = (err e, staged s.staging_path undone w)

-- From the end of the copy on: `base` is what the file held, `chunk` what was copied behind it.
unfoldable pub finish_write : WriteFaults → UploadSession → Bytes → Bytes → Bool → World → Outcome ℕ
unfolding after_update
finish_write f s base chunk copy_failed w =
    let written = base ++ chunk in
    let undone = if f.undo then written else resize s.offset written in
    let next = s.offset + length chunk in
    if copy_failed
    then (err failed, staged s.staging_path undone w)
    else if ltb s.length next
    then (err too_large, staged s.staging_path undone w)
    else if f.sync
    then (err failed, staged s.staging_path undone w)
    else after_update s next undone
        (update_upload_offset f.update s.id s.offset next (staged s.staging_path written w))

-- `s.Length-offset+1` in 64 bits: where it wraps it is negative, and `io.LimitReader` reads nothing.
unfoldable pub copy_limit : UploadSession → ℕ
copy_limit s = let n = (s.length + 1) - s.offset in if ltb n (2 ^ 63) then n else 0

-- `io.Copy` behind `io.LimitReader`: a body that is cut off at the limit is not read to its failure.
unfoldable pub copy_and_finish : WriteFaults → Body → UploadSession → Bytes → World → Outcome ℕ
unfolding finish_write
copy_and_finish f body s base w =
    let limit = copy_limit s in
    finish_write f s base (take limit body.bytes) (body.broken && ltb (length body.bytes) limit) w

unfoldable pub write_open : WriteFaults → ℕ → ℕ → Body → UploadSession → Bytes → World → Outcome ℕ
unfolding copy_and_finish
write_open f now offset body s content w =
    if not (is_live now s)
    then (err not_found, (cleanup_locked f.cleanup s w).1)
    else if not (offset == s.offset)
    then (err (offset_conflict s.offset), w)
    else if f.truncate
    then (err failed, w)
    else if f.seek
    then (err failed, staged s.staging_path (resize s.offset content) w)
    else copy_and_finish f body s (resize s.offset content)
        (staged s.staging_path (resize s.offset content) w)

-- The function under the lock in `Write`.
unfoldable pub write_locked : WriteFaults → ℕ → ℕ → Body → UploadSession → World → Outcome ℕ
unfolding write_open
write_locked f now offset body s w =
    if f.open_file then (err failed, w) else (elim (lookup s.staging_path w.staging) [
      | none ↦ (err failed, w)
      | some content ↦ write_open f now offset body s content w
    ])

-- `Write`
unfoldable pub write : Lock → WriteFaults → ℕ → ℕ → Body → String → World → Outcome ℕ
write l f now offset body id w = with_lifecycle_lock l id (write_locked f now offset body) w

-- `equalHash`: the bytes are compared without an early exit.
unfoldable pub equal_hash : Bytes → Bytes → Bool
equal_hash a b = bytes_eq a b

-- The first function under the lock in `Complete`; `sha` is SHA-256.
unfoldable pub hash_staging : Bool → (Bytes → Bytes) → UploadSession → Option Bytes → Result Bytes
hash_staging fails sha s none = err failed
hash_staging fails sha s (some content) =
    if fails
    then err failed
    else if length content == s.length
    then ok (sha content)
    else err incomplete

unfoldable pub hash_locked : Bool → (Bytes → Bytes) → ℕ → UploadSession → World → Outcome Bytes
unfolding hash_staging
hash_locked fails sha now s w =
    if not (is_live now s)
    then (err not_found, w)
    else if not (s.offset == s.length)
    then (err incomplete, w)
    else (hash_staging fails sha s (lookup s.staging_path w.staging), w)

-- The digest in the request: none, no hexadecimal text, or its bytes.
pub data Expected : Type 0 where
  no_digest bad_digest : Expected
  digest : Bytes → Expected

unfoldable pub digest_ok : Bytes → Expected → Bool
unfolding equal_hash
digest_ok sum no_digest = true
digest_ok sum bad_digest = false
digest_ok sum (digest want) = (length want == 32) && equal_hash sum want

pub record CompleteFaults : Type 0 where
  pub hash : Bool
  pub publish : PublishFaults
  pub commit : Bool
  pub restore : PublishFaults

unfoldable pub restore_after : CompleteFaults → UploadSession → String → Outcome Unit → Outcome Unit
restore_after f s key (ok _, w) = (ok tt, w)
restore_after f s key (err e, w) = (err e, (restore_published f.restore key s.staging_path w).1)

-- The second function under the lock; `committed_at` is the time that the transaction reads.
unfoldable pub publish_locked :
    CompleteFaults → String → ℕ → ℕ → UploadSession → World → Outcome Unit
unfolding restore_after
publish_locked f key now committed_at s w =
    if not (is_live now s)
    then (err not_found, w)
    else if not (s.offset == s.length)
    then (err incomplete, w)
    else and_then (publish_staging f.publish s.staging_path key w)
        (λ _ w'. restore_after f s key (complete_upload f.commit committed_at s key w'))

-- `Complete`: between its two critical sections the lock is free.
unfoldable pub complete_upload_session :
    Lock
    → Lock
    → CompleteFaults
    → (Bytes → Bytes)
    → Expected
    → String
    → (ℕ × ℕ × ℕ)
    → String
    → World
    → Outcome Unit
unfolding digest_ok
complete_upload_session first second f sha expected key (t1, t2, t3) id w =
    and_then (with_lifecycle_lock first id (hash_locked f.hash sha t1) w) (λ sum w'.
      if digest_ok sum expected
      then with_lifecycle_lock second id (publish_locked f key t2 t3) w'
      else (err checksum, w'))
