-- ===== src/Upload/Lock.antt =====
-- The lifecycle lock of `upload.Manager`: a session row is read, its lock file is locked, and the row
-- is read again before anything is done to it.
use safe_file_hub.Base.{ℕ, String, Bool, ◌&&◌, List, [], ◌∷◌, ltb, str_eq, if◌then◌else◌}
use safe_file_hub.Upload.Data.{active, UploadSession, World, Result, ok, err, failed, Outcome}
use safe_file_hub.Upload.Rows.{status_eq, session_by_id}

-- One pass through the loop of `withLifecycleLock`: which of its calls fail, and what other
-- processes did while it waited for the flock.
pub record LockRound : Type 0 where
  pub read : Bool
  pub lock : Bool
  pub reread : Bool
  pub others : World → World

-- The second half of a pass: `retry` runs when the staging path has changed.
unfoldable pub checked_round :
    {A : Type 0}
    → (UploadSession → World → Outcome A)
    → (World → Outcome A)
    → UploadSession
    → Result UploadSession
    → World
    → Outcome A
checked_round fn retry before (err e) w = (err e, w)
checked_round fn retry before (ok s) w =
    if str_eq s.staging_path before.staging_path then fn s w else retry w

-- What follows the first read.
unfoldable pub read_round :
    {A : Type 0}
    → LockRound
    → String
    → (UploadSession → World → Outcome A)
    → (World → Outcome A)
    → Result UploadSession
    → World
    → Outcome A
read_round r id fn retry (err e) w = (err e, w)
read_round r id fn retry (ok before) w =
    if r.lock
    then (err failed, w)
    else (let w' = r.others w in checked_round fn retry before (session_by_id r.reread id w') w')

unfoldable pub lock_round :
    {A : Type 0}
    → LockRound
    → String
    → (UploadSession → World → Outcome A)
    → (World → Outcome A)
    → World
    → Outcome A
lock_round r id fn retry w = read_round r id fn retry (session_by_id r.read id w) w

-- The loop, over the passes that other processes can disturb and a last one that they leave alone,
-- so that it finds the path unchanged.
unfoldable pub locked_loop :
    {A : Type 0}
    → List LockRound
    → LockRound
    → String
    → (UploadSession → World → Outcome A)
    → World
    → Outcome A
locked_loop [] last id fn w =
    lock_round (record last { others = λ w'. w' }) id fn (λ w'. (err failed, w')) w
locked_loop (r ∷ rs) last id fn w = lock_round r id fn (locked_loop rs last id fn) w

-- The error of the unlock comes back only where the function under the lock had none.
unfoldable pub unlocked : {A : Type 0} → Bool → Outcome A → Outcome A
unlocked fails (err e, w) = (err e, w)
unlocked fails (ok a, w) = if fails then (err failed, w) else (ok a, w)

pub record Lock : Type 0 where
  pub rounds : List LockRound
  pub last : LockRound
  pub unlock : Bool

-- `withLifecycleLock`
unfoldable pub with_lifecycle_lock :
    {A : Type 0} → Lock → String → (UploadSession → World → Outcome A) → World → Outcome A
with_lifecycle_lock l id fn w = unlocked l.unlock (locked_loop l.rounds l.last id fn w)

abbrev pub is_live : ℕ → UploadSession → Bool
is_live now s = status_eq s.status active && ltb now s.expires_at
