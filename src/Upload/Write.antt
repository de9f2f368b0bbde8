-- ===== src/Upload/Write.antt =====
-- What the function under the lock in `Write` does to the row and to the staging file.
use safe_file_hub.Base.{
  ℕ, zero, suc, ◌+◌, ◌-◌, ◌^◌, ◌≤◌, ◌<◌, ◌≡◌, refl, ap, inl, inr, String, Bool, true, false, ◌&&◌,
  some, [], ◌∷◌, ◌++◌, ltb, if◌then◌else◌, Bytes, length, arith, Option-cases, eq_iff,
}
use safe_file_hub.Base.Store.{Table, lookup, insert}
use safe_file_hub.Upload.Data.{UploadSession, World, ok, err, failed}
use safe_file_hub.Upload.Rows.{update_upload_offset, offset_of_row, update_where}
use safe_file_hub.Upload.Staging.{resize, take}
use safe_file_hub.Upload.Lock.{is_live}
use safe_file_hub.Upload.Manager.{staged}
use safe_file_hub.Upload.Transfer.{
  Body, WriteFaults, after_update, finish_write, copy_limit, copy_and_finish, write_open,
  write_locked,
}

take_all : (n : ℕ) (s : Bytes) → length (take n s) < n → take n s ≡ s
unfolding take
take_all zero s h = absurd (omega (arith, h))
take_all (suc n) [] h = refl
take_all (suc n) (c ∷ s) h = ap (λ t. c ∷ t) (take_all n s (omega (arith, h)))

-- What a world holds after a write of these bytes behind the row's offset.
abbrev pub advanced : UploadSession → Bytes → ℕ → World → World
advanced s written next w = record w {
  sessions = insert s.id (record s { offset = next }) w.sessions;
  staging = insert s.staging_path written w.staging;
}

pub update_of_row :
    (s : UploadSession) (fails : Bool) (next : ℕ) (w : World)
    → lookup s.id w.sessions ≡ some s
    → update_upload_offset fails s.id s.offset next w ≡ (
        if fails
        then (err failed, w)
        else (ok tt, record w { sessions = insert s.id (record s { offset = next }) w.sessions }))
unfolding update_upload_offset offset_of_row update_where
update_of_row s fails next w h = rw h (ground arith)

finish_write-ok :
    (f : WriteFaults) (s : UploadSession) (base chunk : Bytes) (broken : Bool) (w : World)
    {next : ℕ} {w' : World}
    → lookup s.id w.sessions ≡ some s
    → finish_write f s base chunk broken w ≡ (ok next, w')
    → (broken ≡ false)
      × (next ≡ s.offset + length chunk)
      × (next ≤ s.length)
      × (w' ≡ advanced s (base ++ chunk) next w)
unfolding finish_write after_update
finish_write-ok f s base chunk broken w row h =
    let u =
      update_of_row s f.update (s.offset + length chunk) (staged s.staging_path (base ++ chunk) w)
        row in
    ground (arith, u)

-- The effect of a successful write: the body goes behind the first bytes of the file.
pub record Wrote (body : Body) (s : UploadSession) (content : Bytes) (w : World) (next : ℕ)
    (w' : World) : Type 0 where
  pub whole : body.broken ≡ false
  pub reached : next ≡ s.offset + length body.bytes
  pub fits : next ≤ s.length
  pub world : w' ≡ advanced s (resize s.offset content ++ body.bytes) next w

pub insert_twice :
    (key : String) (a b : Bytes) (t : Table Bytes) → insert key b (insert key a t) ≡ insert key b t
unfolding insert
insert_twice key a b [] = ground (arith, eq_iff key key)
insert_twice key a b ((name, value) ∷ rest) =
    ground (arith, eq_iff key key, eq_iff name key, insert_twice key a b rest)

copy_limit_lem :
    (s : UploadSession) → s.length + 1 < 2 ^ 63 → copy_limit s ≡ (s.length + 1) - s.offset
unfolding copy_limit
copy_limit_lem s small = ground (arith, small)

chunk_whole :
    (body : Body) (s : UploadSession) {next : ℕ}
    → s.length + 1 < 2 ^ 63
    → next ≡ s.offset + length (take (copy_limit s) body.bytes)
    → next ≤ s.length
    → take (copy_limit s) body.bytes ≡ body.bytes
chunk_whole body s small h k =
    take_all (copy_limit s) body.bytes (omega (arith, copy_limit_lem s small, h, k))

-- What a successful write takes of the body, whatever the announced length is.
pub record Took (body : Body) (s : UploadSession) (content : Bytes) (w : World) (next : ℕ)
    (w' : World) : Type 0 where
  pub unbroken : (body.broken && ltb (length body.bytes) (copy_limit s)) ≡ false
  pub reached : next ≡ s.offset + length (take (copy_limit s) body.bytes)
  pub fits : next ≤ s.length
  pub world : w' ≡ advanced s (resize s.offset content ++ take (copy_limit s) body.bytes) next w

copy_and_finish-Took :
    (f : WriteFaults) (body : Body) (s : UploadSession) (content : Bytes) (w : World) {next : ℕ}
    {w' : World}
    → lookup s.id w.sessions ≡ some s
    → copy_and_finish f body s
        (resize s.offset content)
        (staged s.staging_path (resize s.offset content) w)
      ≡ (ok next, w')
    → Took body s content w next w'
unfolding copy_and_finish
copy_and_finish-Took f body s content w {next} {w'} row h =
    let chunk = take (copy_limit s) body.bytes in
    let (a, b, c, d) =
      finish_write-ok f s (resize s.offset content) chunk
        (body.broken && ltb (length body.bytes) (copy_limit s))
        (staged s.staging_path (resize s.offset content) w) row h in
    let one_write =
      insert_twice s.staging_path (resize s.offset content) (resize s.offset content ++ chunk)
        w.staging in
    record { unbroken = a; reached = b; fits = c; world = cc (d, one_write) }

pub write_locked-Took :
    (f : WriteFaults) (now offset : ℕ) (body : Body) (s : UploadSession) (w : World) {next : ℕ}
    {w' : World}
    → lookup s.id w.sessions ≡ some s
    → write_locked f now offset body s w ≡ (ok next, w')
    → (is_live now s ≡ true)
      × (offset ≡ s.offset)
      × (content : Bytes) × (lookup s.staging_path w.staging ≡ some content)
      × Took body s content w next w'
unfolding write_locked write_open
write_locked-Took f now offset body s w {next} {w'} row h =
    elim (Option-cases (lookup s.staging_path w.staging)) [
      | inl e ↦ absurd (ground (arith, e))
      | inr (content, e) ↦
          let k = copy_and_finish-Took f body s content w {next = next} {w' = w'} row in
          ground (arith, k, e)
    ]

Took-Wrote :
    (body : Body) (s : UploadSession) (content : Bytes) (w : World) {next : ℕ} {w' : World}
    → s.length + 1 < 2 ^ 63
    → Took body s content w next w'
    → Wrote body s content w next w'
Took-Wrote body s content w {next} small t =
    let q = chunk_whole body s {next = next} small t.reached t.fits in
    let limit = copy_limit_lem s small in
    let a = t.unbroken in
    let b = t.reached in
    let c = t.fits in
    let d = t.world in
    record {
      whole = ground (arith, a, b, c, limit, ap length q);
      reached = ground (arith, b, ap length q);
      fits = c;
      world = cc (d, q);
    }

-- A write that returns no error, of a session whose length is below 2 ^ 63 - 1, found the row live
-- and at its offset, took the whole of an unbroken body that fits into the length, and left the
-- staging file as its first bytes followed by the body and the offset of the row behind it.
pub write_locked-Wrote :
    (f : WriteFaults) (now offset : ℕ) (body : Body) (s : UploadSession) (w : World) {next : ℕ}
    {w' : World}
    → s.length + 1 < 2 ^ 63
    → lookup s.id w.sessions ≡ some s
    → write_locked f now offset body s w ≡ (ok next, w')
    → (is_live now s ≡ true)
      × (offset ≡ s.offset)
      × (content : Bytes) × (lookup s.staging_path w.staging ≡ some content)
      × Wrote body s content w next w'
write_locked-Wrote f now offset body s w small row h =
    let (a, b, content, c, t) = write_locked-Took f now offset body s w row h in
    (a, b, content, c, Took-Wrote body s content w small t)
