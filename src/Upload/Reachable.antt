-- ===== src/Upload/Reachable.antt =====
-- Sequences of operations on uploads, each disturbed by other processes while it waits.
use safe_file_hub.Base.{
  ℕ, ◌≤◌, ◌≡◌, refl, sym, subst, inl, inr, ◌⊎◌, String, Bool, true, false, Option, none, some, List,
  [], ◌∷◌, if◌then◌else◌, Bytes, length, arith, Option-cases, All,
}
use safe_file_hub.Base.Int.{ℤ, pos, negsuc}
use safe_file_hub.Base.Store.{lookup}
use safe_file_hub.Upload.Data.{UploadSession, World, ok, err, Error, conflict, checksum, Outcome}
use safe_file_hub.Upload.Rows.{complete_upload, commit_row, committed, may_insert}
use safe_file_hub.Upload.Staging.{PublishFaults, publish_staging, restore_published}
use safe_file_hub.Upload.Lock.{Lock, with_lifecycle_lock, is_live}
use safe_file_hub.Upload.Locked.{Keeps, KeepsLocked, with_lifecycle_lock-keeps}
use safe_file_hub.Upload.Manager.{
  CreateFaults, CleanupFaults, create, create_of_length, create_row, undo_create, create_session,
  cleanup_unless_live, cleanup, staged, new_session,
}
use safe_file_hub.Upload.Transfer.{
  Body, WriteFaults, write, write_locked, write_open, CompleteFaults, Expected, digest_ok,
  hash_locked, publish_locked, complete_upload_session, restore_after,
}
use safe_file_hub.Upload.Write.{write_locked-Took}
use safe_file_hub.Upload.Kept.{write_locked-Kept}
use safe_file_hub.Upload.Valid.{
  Valid, ValidRows-insert, ValidRows-erase, cleanup_locked-Valid, cleanup_unless_live-Valid,
  create_session-Valid, remove_staging-Valid, and_then-Valid,
}

Outcome-cases :
    {A : Type 0}
    → (o : Outcome A)
    → ((a : A) × (w : World) × (o ≡ (ok a, w))) ⊎ ((e : Error) × (w : World) × (o ≡ (err e, w)))
Outcome-cases (ok a, w) = inl (a, w, refl)
Outcome-cases (err e, w) = inr (e, w, refl)

if-Valid :
    {A : Type 0}
    → (b : Bool) (x y : Outcome A) → Valid x.1
    → Valid y.1
    → Valid (if b then x else y).1
if-Valid true x y h k = h
if-Valid false x y h k = k

undo_create-Valid :
    (f : CreateFaults) (s : UploadSession) (o : Outcome Unit)
    → Valid o.1
    → Valid (undo_create f s o).1
unfolding undo_create
undo_create-Valid f s (ok _, w) h = h
undo_create-Valid f s (err e, w) h = remove_staging-Valid f.undo s.staging_path w h

create_of_length-Valid :
    (f : CreateFaults) (make : ℕ → UploadSession) (name : String) (w : World) (n : ℕ)
    → (make n).offset ≤ (make n).length
    → Valid w
    → Valid (create_of_length f make name w n).1
unfolding create_of_length create_row
create_of_length-Valid f make name w n b h =
    let v =
      undo_create-Valid f (make n) (create_session f.insert (make n) (staged name [] w))
        (create_session-Valid f.insert (make n) (staged name [] w) b h) in
    ground (arith, v, h)

create-Valid :
    (f : CreateFaults) (id name path : String) (user root expires : ℕ) (length : ℤ) (w : World)
    → Valid w
    → Valid (create f (λ n. new_session id name user root path n expires) name length w).1
unfolding create new_session
create-Valid f id name path user root expires (negsuc n) w h = h
create-Valid f id name path user root expires (pos n) w h =
    create_of_length-Valid f (λ n'. new_session id name user root path n' expires) name w n
      (omega arith) h

live_write-Valid :
    (f : WriteFaults) (now offset : ℕ) (body : Body) (s : UploadSession) (w : World)
    (content : Bytes)
    → lookup s.id w.sessions ≡ some s
    → is_live now s ≡ true
    → lookup s.staging_path w.staging ≡ some content
    → Valid w
    → Valid (write_locked f now offset body s w).1
live_write-Valid f now offset body s w content row live file h =
    elim (Outcome-cases (write_locked f now offset body s w)) [
      | inl (next, w', e) ↦
          let (a, b, c, d, done) = write_locked-Took f now offset body s w row e in
          let v =
            ValidRows-insert s.id (record s { offset = next }) w.sessions
              (record { own = refl; within = done.fits }) h in
          ground (arith, e, done.world, v)
      | inr (bad, w', e) ↦
          let k = write_locked-Kept f now offset body s w content row live file e in
          ground (arith, e, k.sessions, h)
    ]

write_locked-Valid :
    (f : WriteFaults) (now offset : ℕ) (body : Body) (id : String)
    → KeepsLocked Valid id (write_locked f now offset body)
unfolding write_locked write_open
write_locked-Valid f now offset body id s w row h =
    let own = (h id s row).own in
    let dead = cleanup_locked-Valid f.cleanup s w h in
    elim (Option-cases (lookup s.staging_path w.staging)) [
      | inl e ↦ ground (arith, e, h)
      | inr (content, e) ↦
          let v =
            live_write-Valid f now offset body s w content
              (subst (λ i. lookup i w.sessions ≡ some s) (sym own) row) in
          ground (arith, e, h, dead, v)
    ]

commit_row-Valid :
    (o : Option UploadSession) (now : ℕ) (s : UploadSession) (key : String) (w : World)
    → Valid w
    → Valid (commit_row o now s key w).1
unfolding commit_row committed
commit_row-Valid none now s key w h = h
commit_row-Valid (some row) now s key w h =
    if-Valid _ _ (err conflict, w)
      (if-Valid (may_insert w s key) _ (err conflict, w) (ValidRows-erase s.id w.sessions h) h) h

complete_upload-Valid :
    (fails : Bool) (now : ℕ) (s : UploadSession) (key : String) (w : World)
    → Valid w
    → Valid (complete_upload fails now s key w).1
unfolding complete_upload
complete_upload-Valid true now s key w h = h
complete_upload-Valid false now s key w h = commit_row-Valid (lookup s.id w.sessions) now s key w h

publish_staging-sessions :
    (f : PublishFaults) (name key : String) (w : World)
    → (publish_staging f name key w).1.sessions ≡ w.sessions
unfolding publish_staging
publish_staging-sessions f name key w = ground arith

restore_published-sessions :
    (f : PublishFaults) (key name : String) (w : World)
    → (restore_published f key name w).1.sessions ≡ w.sessions
unfolding restore_published
restore_published-sessions f key name w = ground arith

restore_after-Valid :
    (f : CompleteFaults) (s : UploadSession) (key : String) (o : Outcome Unit)
    → Valid o.1
    → Valid (restore_after f s key o).1
unfolding restore_after
restore_after-Valid f s key (ok _, w) h = h
restore_after-Valid f s key (err e, w) h =
    rw (restore_published-sessions f.restore key s.staging_path w) h

publish_locked-Valid :
    (f : CompleteFaults) (key : String) (now at : ℕ) (s : UploadSession) (w : World)
    → Valid w
    → Valid (publish_locked f key now at s w).1
unfolding publish_locked
publish_locked-Valid f key now at s w h =
    let commit = λ (w' : World). restore_after f s key (complete_upload f.commit at s key w') in
    let v =
      and_then-Valid (publish_staging f.publish s.staging_path key w) (λ _. commit)
        (rw (publish_staging-sessions f.publish s.staging_path key w) h)
        (λ _ w' k.
          restore_after-Valid f s key (complete_upload f.commit at s key w')
            (complete_upload-Valid f.commit at s key w' k)) in
    ground (arith, v, h)

hash_locked-world :
    (fails : Bool) (sha : Bytes → Bytes) (now : ℕ) (s : UploadSession) (w : World)
    → (hash_locked fails sha now s w).1 ≡ w
unfolding hash_locked
hash_locked-world fails sha now s w = ground arith

-- The operations that clients start, with everything that they depend on.
pub data Operation : Type 0 where
  creates : CreateFaults → (id name path : String) → (user root expires : ℕ) → ℤ → Operation
  writes : Lock → WriteFaults → (now offset : ℕ) → Body → String → Operation
  cleans : Lock → CleanupFaults → (expiry_only : Bool) → ℕ → String → Operation
  completes :
      Lock
      → Lock
      → CompleteFaults
      → (Bytes → Bytes)
      → Expected
      → (key : String) → (ℕ × ℕ × ℕ)
      → String
      → Operation

abbrev pub perform : Operation → World → World
perform (creates f id name path user root expires length) w =
    (create f (λ n. new_session id name user root path n expires) name length w).1
perform (writes l f now offset body id) w = (write l f now offset body id w).1
perform (cleans l f expiry_only now id) w = (cleanup l f expiry_only now id w).1
perform (completes a b f sha expected key times id) w =
    (complete_upload_session a b f sha expected key times id w).1

abbrev pub perform_all : List Operation → World → World
perform_all [] w = w
perform_all (o ∷ os) w = perform_all os (perform o w)

-- Other processes keep a property whenever the operation waits.
abbrev pub Undisturbed : (World → Type 0) → Operation → Type 0
Undisturbed P (creates f id name path user root expires length) = Unit
Undisturbed P (writes l f now offset body id) = All (Keeps P) l.rounds
Undisturbed P (cleans l f expiry_only now id) = All (Keeps P) l.rounds
Undisturbed P (completes a b f sha expected key times id) =
    All (Keeps P) a.rounds × All (Keeps P) b.rounds

perform-Valid : (o : Operation) (w : World) → Undisturbed Valid o → Valid w → Valid (perform o w)
unfolding write cleanup complete_upload_session
perform-Valid (creates f id name path user root expires length) w u h =
    create-Valid f id name path user root expires length w h
perform-Valid (writes l f now offset body id) w u h =
    with_lifecycle_lock-keeps Valid id (write_locked f now offset body)
      (write_locked-Valid f now offset body id) l u w h
perform-Valid (cleans l f expiry_only now id) w u h =
    with_lifecycle_lock-keeps Valid id (cleanup_unless_live f expiry_only now)
      (λ s w' _. cleanup_unless_live-Valid f expiry_only now s w') l u w h
perform-Valid (completes a b f sha expected key (t1, t2, t3) id) w (u, v) h =
    and_then-Valid (with_lifecycle_lock a id (hash_locked f.hash sha t1) w)
      (λ sum w'.
        if digest_ok sum expected
        then with_lifecycle_lock b id (publish_locked f key t2 t3) w'
        else (err checksum, w'))
      (with_lifecycle_lock-keeps Valid id (hash_locked f.hash sha t1)
        (λ s w' _ p. rw (hash_locked-world f.hash sha t1 s w') p) a u w h)
      (λ sum w' p.
        if-Valid (digest_ok sum expected) (with_lifecycle_lock b id (publish_locked f key t2 t3) w')
          (err checksum, w')
          (with_lifecycle_lock-keeps Valid id (publish_locked f key t2 t3)
            (λ s w'' _. publish_locked-Valid f key t2 t3 s w'') b v w' p)
          p)

-- After any sequence of operations, whatever fails in them and whatever other processes do that
-- keeps rows valid, no row's offset is past its length and every row stands under its own id.
pub perform_all-Valid :
    (os : List Operation) (w : World)
    → All (Undisturbed Valid) os
    → Valid w
    → Valid (perform_all os w)
perform_all-Valid [] w u h = h
perform_all-Valid (o ∷ os) w (u, v) h = perform_all-Valid os (perform o w) v (perform-Valid o w u h)
