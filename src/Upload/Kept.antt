-- ===== src/Upload/Kept.antt =====
-- What a failed `write_locked` does to the rows and to the staging file.
use safe_file_hub.Base.{
  ℕ, zero, suc, ◌+◌, ◌≡◌, refl, ap, ◌∙◌, inl, inr, Bool, true, ◌&&◌, some, [], ◌∷◌, ◌++◌, ltb,
  if◌then◌else◌, Bytes, length, arith, Bool-cases, eq_iff,
}
use safe_file_hub.Base.Store.{lookup, insert, lookup-insert}
use safe_file_hub.Upload.Data.{UploadSession, World, err, Error}
use safe_file_hub.Upload.Staging.{resize, take}
use safe_file_hub.Upload.Lock.{is_live}
use safe_file_hub.Upload.Manager.{staged}
use safe_file_hub.Upload.Transfer.{
  Body, WriteFaults, after_update, finish_write, copy_limit, copy_and_finish, write_open,
  write_locked,
}
use safe_file_hub.Upload.Write.{insert_twice, update_of_row}

resize-resize : (n : ℕ) (s : Bytes) → resize n (resize n s) ≡ resize n s
unfolding resize
resize-resize zero s = refl
resize-resize (suc n) [] = ap (λ t. 0 ∷ t) (resize-resize n [])
resize-resize (suc n) (c ∷ s) = ap (λ t. c ∷ t) (resize-resize n s)

resize-append : (n : ℕ) (s t : Bytes) → resize n (resize n s ++ t) ≡ resize n s
unfolding resize
resize-append zero s t = refl
resize-append (suc n) [] t = ap (λ q. 0 ∷ q) (resize-append n [] t)
resize-append (suc n) (c ∷ s) t = ap (λ q. c ∷ q) (resize-append n s t)

-- Nothing that was received is lost: the rows are as before, and the file begins as before.
pub record Kept (s : UploadSession) (content : Bytes) (w w' : World) : Type 0 where
  pub sessions : w'.sessions ≡ w.sessions
  pub after : Bytes
  pub file : lookup s.staging_path w'.staging ≡ some after
  pub begins : resize s.offset after ≡ resize s.offset content

Kept-staged :
    (s : UploadSession) (content new : Bytes) (w w' : World)
    → resize s.offset new ≡ resize s.offset content
    → w'.sessions ≡ w.sessions
    → w'.staging ≡ insert s.staging_path new w.staging
    → Kept s content w w'
Kept-staged s content new w w' e a b = record {
  sessions = a;
  after = new;
  file = ground (
    arith,
    b,
    lookup-insert s.staging_path s.staging_path new w.staging,
    eq_iff s.staging_path s.staging_path,
  );
  begins = e;
}

-- What a failed write leaves in the file.
abbrev pub left_behind : WriteFaults → UploadSession → Bytes → Bytes → Bytes
left_behind f s content chunk =
    let written = resize s.offset content ++ chunk in
    if f.undo then written else resize s.offset written

left_behind-begins :
    (f : WriteFaults) (s : UploadSession) (content chunk : Bytes)
    → resize s.offset (left_behind f s content chunk) ≡ resize s.offset content
left_behind-begins f s content chunk = elim (Bool-cases f.undo) [
  | inl e ↦ ground (arith, e, resize-append s.offset content chunk)
  | inr e ↦ ground (
    arith,
    e,
    resize-append s.offset content chunk,
    resize-resize s.offset (resize s.offset content ++ chunk),
  )
]

finish_write-err :
    (f : WriteFaults) (s : UploadSession) (content chunk : Bytes) (broken : Bool) (w : World)
    {e : Error} {w' : World}
    → lookup s.id w.sessions ≡ some s
    → finish_write f s (resize s.offset content) chunk broken w ≡ (err e, w')
    → (w'.sessions ≡ w.sessions)
      × (w'.staging ≡ insert s.staging_path (left_behind f s content chunk) w.staging)
unfolding finish_write after_update
finish_write-err f s content chunk broken w row h =
    let u =
      update_of_row s f.update (s.offset + length chunk)
        (staged s.staging_path (resize s.offset content ++ chunk) w) row in
    ground (
      arith,
      u,
      insert_twice s.staging_path (resize s.offset content ++ chunk) (left_behind f s content chunk)
          w.staging,
    )

copy_and_finish-Kept :
    (f : WriteFaults) (body : Body) (s : UploadSession) (content : Bytes) (w : World) {e : Error}
    {w' : World}
    → lookup s.id w.sessions ≡ some s
    → copy_and_finish f body s
        (resize s.offset content)
        (staged s.staging_path (resize s.offset content) w)
      ≡ (err e, w')
    → Kept s content w w'
unfolding copy_and_finish
copy_and_finish-Kept f body s content w {e} {w'} row h =
    let limit = copy_limit s in
    let chunk = take limit body.bytes in
    let (a, b) =
      finish_write-err f s content chunk (body.broken && ltb (length body.bytes) limit)
        (staged s.staging_path (resize s.offset content) w) row h in
    let new = left_behind f s content chunk in
    Kept-staged s content new w w' (left_behind-begins f s content chunk) a
      (b ∙ insert_twice s.staging_path (resize s.offset content) new w.staging)

Kept-same :
    (s : UploadSession) (content : Bytes) (w : World)
    → lookup s.staging_path w.staging ≡ some content
    → Kept s content w w
Kept-same s content w file = record { sessions = refl; after = content; file = file; begins = refl }

-- A write to a live session that fails changes no row, and the file still begins with the bytes that were received before.
pub write_locked-Kept :
    (f : WriteFaults) (now offset : ℕ) (body : Body) (s : UploadSession) (w : World)
    (content : Bytes) {e : Error} {w' : World}
    → lookup s.id w.sessions ≡ some s
    → is_live now s ≡ true
    → lookup s.staging_path w.staging ≡ some content
    → write_locked f now offset body s w ≡ (err e, w')
    → Kept s content w w'
unfolding write_locked write_open
write_locked-Kept f now offset body s w content {e} {w'} row live file h =
    let k = copy_and_finish-Kept f body s content w {e = e} {w' = w'} row in
    let same = Kept-same s content w file in
    let cut =
      Kept-staged s content (resize s.offset content) w
        (staged s.staging_path (resize s.offset content) w) (resize-resize s.offset content) refl
        refl in
    ground (arith, k, live, file, same, cut)
