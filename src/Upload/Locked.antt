-- ===== src/Upload/Locked.antt =====
-- What holds behind the lifecycle lock, whatever other processes do while it is waited for.
use safe_file_hub.Base.{
  String, Bool, ◌≡◌, refl, sym, subst, false, true, if◌then◌else◌, str_eq, inl, inr, some, List, [],
  ◌∷◌, arith, Option-cases, All,
}
use safe_file_hub.Base.Store.{lookup}
use safe_file_hub.Upload.Data.{UploadSession, World, Result, ok, err, Error, failed, Outcome}
use safe_file_hub.Upload.Rows.{session_by_id}
use safe_file_hub.Upload.Lock.{
  LockRound, Lock, checked_round, read_round, lock_round, locked_loop, unlocked,
  with_lifecycle_lock,
}

-- What others do in one pass keeps a property of the world.
abbrev pub Keeps : (World → Type 0) → LockRound → Type 0
Keeps P r = (w : World) → P w → P (r.others w)

-- So does the function under the lock, which gets the row that stands in the world it starts from.
abbrev pub KeepsLocked :
    {A : Type 0} → (World → Type 0) → String → (UploadSession → World → Outcome A) → Type 0
KeepsLocked P id fn =
    (s : UploadSession) (w : World) → lookup id w.sessions ≡ some s → P w → P (fn s w).1

session_by_id-ok :
    (fails : Bool) (id : String) (w : World) (s : UploadSession)
    → session_by_id fails id w ≡ ok s
    → lookup id w.sessions ≡ some s
unfolding session_by_id
session_by_id-ok fails id w t h = elim (Option-cases (lookup id w.sessions)) [
  | inl e ↦ ground (arith, e)
  | inr (s, e) ↦ ground (arith, e)
]

if-Good :
    {A : Type 0}
    → (Good : A → Type 0) (b : Bool) (x y : A) → Good x
    → Good y
    → Good (if b then x else y)
if-Good Good true x y p q = p
if-Good Good false x y p q = q

-- A property of the outcome that the function under the lock and every early error has.
module _ {A : Type 0} (P : World → Type 0) (Good : Outcome A → Type 0) (id : String)
    (fn : UploadSession → World → Outcome A)
    (stops : (e : Error) (w : World) → P w → Good (err e, w))
    (good : (s : UploadSession) (w : World)
      → lookup id w.sessions ≡ some s
      → P w
      → Good (fn s w)) where
  checked_round-Good :
      (retry : World → Outcome A)
      → ((w : World) → P w → Good (retry w))
      → (before : UploadSession) (r : Result UploadSession) (w : World)
      → ((s : UploadSession) → r ≡ ok s → lookup id w.sessions ≡ some s)
      → P w
      → Good (checked_round fn retry before r w)
  unfolding checked_round
  checked_round-Good retry again before (err e) w row p = stops e w p
  checked_round-Good retry again before (ok s) w row p =
      if-Good Good (str_eq s.staging_path before.staging_path) (fn s w) (retry w)
        (good s w (row s refl) p) (again w p)

  read_round-Good :
      (r : LockRound) (retry : World → Outcome A)
      → Keeps P r
      → ((w : World) → P w → Good (retry w))
      → (first : Result UploadSession) (w : World) → P w
      → Good (read_round r id fn retry first w)
  unfolding read_round
  read_round-Good r retry others again (err e) w p = stops e w p
  read_round-Good r retry others again (ok before) w p =
      let after = r.others w in
      let second = session_by_id r.reread id after in
      if-Good Good r.lock (err failed, w) (checked_round fn retry before second after)
        (stops failed w p)
        (checked_round-Good retry again before second after (session_by_id-ok r.reread id after)
          (others w p))

  lock_round-Good :
      (r : LockRound) (retry : World → Outcome A)
      → Keeps P r
      → ((w : World) → P w → Good (retry w))
      → (w : World) → P w
      → Good (lock_round r id fn retry w)
  unfolding lock_round
  lock_round-Good r retry others again w p =
      read_round-Good r retry others again (session_by_id r.read id w) w p

  pub locked_loop-Good :
      (rs : List LockRound) (last : LockRound)
      → All (Keeps P) rs
      → (w : World) → P w
      → Good (locked_loop rs last id fn w)
  unfolding locked_loop
  locked_loop-Good [] last others w p =
      lock_round-Good (record last { others = λ w'. w' }) (λ w'. (err failed, w')) (λ w' q. q)
        (stops failed) w p
  locked_loop-Good (r ∷ rs) last (here, others) w p =
      lock_round-Good r (locked_loop rs last id fn) here (locked_loop-Good rs last others) w p

unlocked-keeps :
    {A : Type 0}
    → (P : World → Type 0) (fails : Bool) (o : Outcome A) → P o.1
    → P (unlocked fails o).1
unfolding unlocked
unlocked-keeps P fails (err e, w) p = p
unlocked-keeps P fails (ok a, w) p = ground (arith, p)

-- A property that the function under the lock and the other processes keep, the whole operation
-- keeps.
pub with_lifecycle_lock-keeps :
    {A : Type 0}
    → (P : World → Type 0) (id : String) (fn : UploadSession → World → Outcome A)
    → KeepsLocked P id fn
    → (l : Lock) → All (Keeps P) l.rounds
    → (w : World) → P w
    → P (with_lifecycle_lock l id fn w).1
unfolding with_lifecycle_lock
with_lifecycle_lock-keeps P id fn kept l others w p =
    unlocked-keeps P l.unlock (locked_loop l.rounds l.last id fn w)
      (locked_loop-Good P (λ o. P o.1) id fn (λ e w' q. q) kept l.rounds l.last others w p)

-- What holds where an operation comes back with an error.
abbrev pub OnError : {A : Type 0} → (World → Type 0) → Outcome A → Type 0
OnError P (err e, w) = P w
OnError P (ok a, w) = Unit

unlocked-OnError :
    {A : Type 0} → (P : World → Type 0) (o : Outcome A) → OnError P o → OnError P (unlocked false o)
unfolding unlocked
unlocked-OnError P (err e, w) p = p
unlocked-OnError P (ok a, w) p = tt

-- A property that the other processes keep, and the function under the lock where it fails, holds
-- where the whole operation fails, unless the error is that of the unlock.
pub with_lifecycle_lock-OnError :
    {A : Type 0}
    → (P : World → Type 0) (id : String) (fn : UploadSession → World → Outcome A)
    → ((s : UploadSession) (w : World) → lookup id w.sessions ≡ some s → P w → OnError P (fn s w))
    → (l : Lock) → l.unlock ≡ false
    → All (Keeps P) l.rounds
    → (w : World) → P w
    → OnError P (with_lifecycle_lock l id fn w)
unfolding with_lifecycle_lock
with_lifecycle_lock-OnError P id fn good l clean others w p =
    let o = locked_loop l.rounds l.last id fn w in
    subst (λ b. OnError P (unlocked b o)) (sym clean)
      (unlocked-OnError P o
        (locked_loop-Good P (OnError P) id fn (λ e w' q. q) good l.rounds l.last others w p))
