-- ===== src/Upload/Failed.antt =====
-- What `Write` leaves where it fails, with the lifecycle lock and the other processes around it.
use safe_file_hub.Base.{ℕ, ◌≡◌, refl, sym, subst, ◌∙◌, true, false, some, Bytes, arith, All}
use safe_file_hub.Base.Store.{Table, lookup}
use safe_file_hub.Upload.Data.{UploadSession, World, ok, err, Error, Outcome}
use safe_file_hub.Upload.Staging.{resize}
use safe_file_hub.Upload.Lock.{Lock, is_live}
use safe_file_hub.Upload.Locked.{Keeps, OnError, with_lifecycle_lock-OnError}
use safe_file_hub.Upload.Transfer.{Body, WriteFaults, write_locked, write}
use safe_file_hub.Upload.Kept.{Kept, write_locked-Kept}

-- The session's row, a staging file that begins with the bytes received, and what else is said of
-- the rows.
pub record Holding (Rows : Table UploadSession → Type 0) (s : UploadSession) (content : Bytes)
    (w : World) : Type 0 where
  pub rows : Rows w.sessions
  pub row : lookup s.id w.sessions ≡ some s
  pub after : Bytes
  pub file : lookup s.staging_path w.staging ≡ some after
  pub begins : resize s.offset after ≡ resize s.offset content

OnError-intro :
    {A : Type 0}
    → (P : World → Type 0) (o : Outcome A) → ((e : Error) (w' : World) → o ≡ (err e, w') → P w')
    → OnError P o
OnError-intro P (err e, w) k = k e w refl
OnError-intro P (ok a, w) k = tt

OnError-elim :
    {A : Type 0}
    → (P : World → Type 0) (o : Outcome A) {e : Error} {w' : World} → OnError P o
    → o ≡ (err e, w')
    → P w'
OnError-elim P o p q = subst (OnError P) q p

Kept-Holding :
    (Rows : Table UploadSession → Type 0) (s : UploadSession) (content : Bytes) (w w' : World)
    (h : Holding Rows s content w)
    → Kept s h.after w w'
    → Holding Rows s content w'
Kept-Holding Rows s content w w' h k = record {
  rows = subst Rows (sym k.sessions) h.rows;
  row = subst (λ t. lookup s.id t ≡ some s) (sym k.sessions) h.row;
  after = k.after;
  file = k.file;
  begins = k.begins ∙ h.begins;
}

write_locked-Holding :
    (Rows : Table UploadSession → Type 0) (f : WriteFaults) (now offset : ℕ) (body : Body)
    (s : UploadSession) (content : Bytes)
    → is_live now s ≡ true
    → (t : UploadSession) (w : World) → lookup s.id w.sessions ≡ some t
    → Holding Rows s content w
    → OnError (Holding Rows s content) (write_locked f now offset body t w)
write_locked-Holding Rows f now offset body s content live t w row h =
    let own = h.row in
    let same : s ≡ t = ground (arith, own, row) in
    subst (λ u. OnError (Holding Rows s content) (write_locked f now offset body u w)) same
      (OnError-intro (Holding Rows s content) (write_locked f now offset body s w) (λ e w' q.
        Kept-Holding Rows s content w w' h
          (write_locked-Kept f now offset body s w h.after {e = e} {w' = w'} own live h.file q)))

-- A write to a live session that comes back with an error, which is not that of the unlock, while
-- the other processes leave the session's row and the received bytes of its file alone, changes no
-- row: the session's row is as before, its file begins with the bytes that were received before,
-- and what the other processes keep of the rows holds of them.
pub write-Holding :
    (Rows : Table UploadSession → Type 0) (l : Lock) (f : WriteFaults) (now offset : ℕ)
    (body : Body) (s : UploadSession) (content : Bytes) (w : World) {e : Error} {w' : World}
    → l.unlock ≡ false
    → is_live now s ≡ true
    → All (Keeps (Holding Rows s content)) l.rounds
    → Holding Rows s content w
    → write l f now offset body s.id w ≡ (err e, w')
    → Holding Rows s content w'
unfolding write
write-Holding Rows l f now offset body s content w {e} {w'} clean live others h q =
    OnError-elim (Holding Rows s content) (write l f now offset body s.id w) {e = e} {w' = w'}
      (with_lifecycle_lock-OnError (Holding Rows s content) s.id (write_locked f now offset body)
        (write_locked-Holding Rows f now offset body s content live) l clean others w h)
      q
