-- ===== src/Upload/Valid.antt =====
-- Rows of `upload_sessions` stand under their own ids, and no offset is past the length.
use safe_file_hub.Base.{
  ℕ, ◌≤◌, ◌≡◌, refl, inl, inr, String, Bool, true, false, ◌&&◌, Option, none, some, str_eq, arith,
  Bool-cases, Option-cases, eq_iff,
}
use safe_file_hub.Base.Store.{Table, lookup, insert, erase, lookup-insert, lookup-erase}
use safe_file_hub.Upload.Data.{
  Status, active, cancelled, cleanup_pending, complete, UploadSession, World, ok, err, Outcome,
  and_then,
}
use safe_file_hub.Upload.Rows.{
  update_where, update_upload_status, status_of_row, status_eq, delete_upload_session,
}
use safe_file_hub.Upload.Staging.{remove_staging}
use safe_file_hub.Upload.Lock.{is_live}
use safe_file_hub.Upload.Manager.{
  CleanupFaults, create_session, staging_path_taken, cleanup_locked, cleanup_at, cleanup_cancelled,
  remove_and_delete, cleanup_unless_live,
}

pub record ValidRow (id : String) (s : UploadSession) : Type 0 where
  pub own : s.id ≡ id
  pub within : s.offset ≤ s.length

abbrev pub ValidRows : Table UploadSession → Type 0
ValidRows t = (id : String) (s : UploadSession) → lookup id t ≡ some s → ValidRow id s

abbrev pub Valid : World → Type 0
Valid w = ValidRows w.sessions

pub ValidRows-insert :
    (id : String) (s : UploadSession) (t : Table UploadSession)
    → ValidRow id s
    → ValidRows t
    → ValidRows (insert id s t)
ValidRows-insert id s t v h any r e =
    let q = lookup-insert id any s t in
    elim (Bool-cases (str_eq id any)) [
      | inl k ↦ let same = eq_iff id any in ground (arith, e, q, k, v, same)
      | inr k ↦ h any r (ground (arith, e, q, k))
    ]

pub ValidRows-erase : (id : String) (t : Table UploadSession) → ValidRows t → ValidRows (erase id t)
ValidRows-erase id t h any r e = let q = lookup-erase id any t in h any r (ground (arith, e, q))

-- An update that leaves the row under its id, with the offset inside the length.
update_where-Valid :
    (b : Bool) (id : String) (row : UploadSession) (w : World)
    → ValidRow id row
    → Valid w
    → Valid (update_where b id row w).1
unfolding update_where
update_where-Valid true id row w v h = ValidRows-insert id row w.sessions v h
update_where-Valid false id row w v h = h

status_of_row-Valid :
    (o : Option UploadSession) (id : String) (a b : Status) (w : World)
    → ((s : UploadSession) → o ≡ some s → ValidRow id s)
    → Valid w
    → Valid (status_of_row o id a b w).1
unfolding status_of_row
status_of_row-Valid none id a b w v h = h
status_of_row-Valid (some s) id a b w v h =
    let q = v s refl in
    update_where-Valid (status_eq s.status a) id (record s { status = b }) w
      (record { own = q.own; within = q.within }) h

update_upload_status-Valid :
    (fails : Bool) (id : String) (a b : Status) (w : World)
    → Valid w
    → Valid (update_upload_status fails id a b w).1
unfolding update_upload_status
update_upload_status-Valid true id a b w h = h
update_upload_status-Valid false id a b w h =
    status_of_row-Valid (lookup id w.sessions) id a b w (λ s e. h id s e) h

delete_upload_session-Valid :
    (fails : Bool) (id : String) (w : World) → Valid w → Valid (delete_upload_session fails id w).1
unfolding delete_upload_session
delete_upload_session-Valid true id w h = h
delete_upload_session-Valid false id w h = elim (Option-cases (lookup id w.sessions)) [
  | inl e ↦ rw e h
  | inr (s, e) ↦ rw e (ValidRows-erase id w.sessions h)
]

pub and_then-Valid :
    {A B : Type 0}
    → (o : Outcome A) (rest : A → World → Outcome B) → Valid o.1
    → ((a : A) (w : World) → Valid w → Valid (rest a w).1)
    → Valid (and_then o rest).1
and_then-Valid (ok a, w) rest h k = k a w h
and_then-Valid (err e, w) rest h k = h

pub remove_staging-Valid :
    (fails : Bool) (name : String) (w : World) → Valid w → Valid (remove_staging fails name w).1
unfolding remove_staging
remove_staging-Valid true name w h = h
remove_staging-Valid false name w h = h

remove_and_delete-Valid :
    (f : CleanupFaults) (s : UploadSession) (w : World)
    → Valid w
    → Valid (remove_and_delete f s w).1
unfolding remove_and_delete
remove_and_delete-Valid f s w h =
    and_then-Valid (remove_staging f.remove s.staging_path w)
      (λ _. delete_upload_session f.delete s.id) (remove_staging-Valid f.remove s.staging_path w h)
      (λ _. delete_upload_session-Valid f.delete s.id)

cleanup_cancelled-Valid :
    (f : CleanupFaults) (s : UploadSession) (w : World)
    → Valid w
    → Valid (cleanup_cancelled f s w).1
unfolding cleanup_cancelled
cleanup_cancelled-Valid f s w h =
    and_then-Valid (update_upload_status f.pend s.id cancelled cleanup_pending w)
      (λ _. remove_and_delete f s)
      (update_upload_status-Valid f.pend s.id cancelled cleanup_pending w h)
      (λ _. remove_and_delete-Valid f s)

cleanup_at-Valid :
    (status : Status) (f : CleanupFaults) (s : UploadSession) (w : World)
    → Valid w
    → Valid (cleanup_at status f s w).1
unfolding cleanup_at
cleanup_at-Valid complete f s w h = h
cleanup_at-Valid active f s w h =
    and_then-Valid (update_upload_status f.cancel s.id active cancelled w)
      (λ _. cleanup_cancelled f s) (update_upload_status-Valid f.cancel s.id active cancelled w h)
      (λ _. cleanup_cancelled-Valid f s)
cleanup_at-Valid cancelled f s w h = cleanup_cancelled-Valid f s w h
cleanup_at-Valid cleanup_pending f s w h = remove_and_delete-Valid f s w h

pub cleanup_locked-Valid :
    (f : CleanupFaults) (s : UploadSession) (w : World) → Valid w → Valid (cleanup_locked f s w).1
unfolding cleanup_locked
cleanup_locked-Valid f s w h = cleanup_at-Valid s.status f s w h

pub cleanup_unless_live-Valid :
    (f : CleanupFaults) (expiry_only : Bool) (now : ℕ) (s : UploadSession) (w : World)
    → Valid w
    → Valid (cleanup_unless_live f expiry_only now s w).1
unfolding cleanup_unless_live
cleanup_unless_live-Valid f expiry_only now s w h =
    elim (Bool-cases (expiry_only && is_live now s)) [
      | inl e ↦ rw e h
      | inr e ↦ rw e (cleanup_locked-Valid f s w h)
    ]

pub create_session-Valid :
    (fails : Bool) (s : UploadSession) (w : World)
    → s.offset ≤ s.length
    → Valid w
    → Valid (create_session fails s w).1
unfolding create_session
create_session-Valid true s w b h = h
create_session-Valid false s w b h = elim (Option-cases (lookup s.id w.sessions)) [
  | inr (r, e) ↦ rw e h
  | inl e ↦ rw e (elim (Bool-cases (staging_path_taken s.staging_path w.sessions)) [
    | inl k ↦ rw k h
    | inr k ↦ rw k (ValidRows-insert s.id s w.sessions (record { own = refl; within = b }) h)
  ])
]
