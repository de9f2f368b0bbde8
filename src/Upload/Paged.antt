-- ===== src/Upload/Paged.antt =====
-- What one call of `Recover` reaches when nothing fails and no other process runs.
use Prim.Native.String.{◌++◌ as append_str}
use safe_file_hub.Base.{
  ℕ, zero, suc, ◌+◌, ◌-◌, ◌≡◌, refl, ap, String, true, false, none, some, List, [], ◌∷◌, eq_iff,
  length, arith, All,
}
use safe_file_hub.Base.Int.{ℤ}
use safe_file_hub.Base.Store.{lookup}
use safe_file_hub.Upload.Data.{UploadSession, World, ok, err, not_found, Outcome}
use safe_file_hub.Upload.Rows.{session_by_id}
use safe_file_hub.Upload.Lock.{
  LockRound, checked_round, read_round, lock_round, locked_loop, unlocked, with_lifecycle_lock,
}
use safe_file_hub.Upload.Cleanup.{no_faults}
use safe_file_hub.Upload.Recover.{
  valid_staging_name, valid_names, firsts, RowFaults, recoverable_staging, keep_or_clean,
  recover_row, RecoveryReport, after_row, recover_rows, NameFaults, recover_names, RecoverFaults,
  then_names, recover_listed, recover, upload_sessions, staging_names, page_limit, new_report,
}

abbrev pub quiet_round : LockRound
quiet_round = record { read = false; lock = false; reread = false; others = λ w. w }

abbrev pub quiet_row : ℕ → RowFaults
quiet_row now = record {
  stop = false;
  now = now;
  open_fails = false;
  stat_fails = false;
  lock = record { rounds = []; last = quiet_round; unlock = false };
  cleanup = no_faults;
}

abbrev pub quiet_name : NameFaults
quiet_name = record {
  stop = false;
  read = false;
  lock = false;
  others = λ w. w;
  reread = false;
  remove = false;
  unlock = false;
}

abbrev pub quiet : ℕ → RecoverFaults
quiet now = record {
  stop = false;
  query = false;
  list = false;
  rows = λ _. quiet_row now;
  names = λ _. quiet_name;
}

unlocked_quiet : {A : Type 0} → (o : Outcome A) → unlocked false o ≡ o
unfolding unlocked
unlocked_quiet (err e, w) = refl
unlocked_quiet (ok a, w) = refl

pub recover_row-here :
    (now : ℕ) (r s : UploadSession) (w : World)
    → lookup r.id w.sessions ≡ some s
    → recover_row (quiet_row now) false r w ≡ keep_or_clean (quiet_row now) s w
unfolding recover_row with_lifecycle_lock locked_loop lock_round read_round checked_round
    session_by_id
recover_row-here now r s w row = rw row (
    ground (
      arith,
      eq_iff s.staging_path s.staging_path,
      unlocked_quiet (keep_or_clean (quiet_row now) s w),
    ))

pub recover_row-gone :
    (now : ℕ) (r : UploadSession) (w : World)
    → lookup r.id w.sessions ≡ none
    → recover_row (quiet_row now) false r w ≡ (err not_found, w)
unfolding recover_row with_lifecycle_lock locked_loop lock_round read_round session_by_id unlocked
recover_row-gone now r w row = rw row refl

-- The row stands under its id and its session can go on.
abbrev pub GoesOn : ℕ → World → UploadSession → Type 0
GoesOn now w s =
    (lookup s.id w.sessions ≡ some s) × (recoverable_staging (quiet_row now) s w ≡ true)

-- The directory entry is no part, such as the lock file of one.
abbrev pub IsNoPart : String → Type 0
IsNoPart entry = valid_staging_name (append_str "staging/" entry) ≡ false

recover_rows-full :
    (now i : ℕ) (rows : List UploadSession) (rep : RecoveryReport) (w : World)
    → All (GoesOn now w) rows
    → recover_rows (λ _. quiet_row now) false i rows rep w
      ≡ (record rep { kept = length rows + rep.kept }, (ok tt, w))
unfolding recover_rows after_row keep_or_clean
recover_rows-full now i [] rep w a =
    let none_more : rep.kept ≡ 0 + rep.kept = omega arith in
    ap (λ k. (record rep { kept = k }, (ok tt, w))) none_more
recover_rows-full now i (s ∷ rows) rep w ((row, goes_on), a) =
    let kept : RecoveryReport = record rep { kept = suc rep.kept } in
    let ih = recover_rows-full now (suc i) rows kept w a in
    let here = recover_row-here now s s w row in ground (arith, here, goes_on, ih)

valid_names-none : (entries : List String) → All IsNoPart entries → valid_names entries ≡ []
unfolding valid_names
valid_names-none [] a = refl
valid_names-none (e ∷ es) (here, a) = let ih = valid_names-none es a in ground (arith, here, ih)

pub staging_names-none :
    (n : ℕ) (listing : List String)
    → All IsNoPart (firsts n listing)
    → staging_names false n listing ≡ ok []
unfolding staging_names
staging_names-none zero listing a = refl
staging_names-none (suc n) listing a = ap ok (valid_names-none (firsts (suc n) listing) a)

-- When every session of the page can go on, and the entries of the directory that the rest of the budget
-- pays for are no parts, `Recover` changes nothing, even if nothing fails: no row behind the page and no
-- orphan behind those entries is ever reached.
pub recover-full :
    (now : ℕ) (limit : ℤ) (listing : List String) (w : World)
    → All (GoesOn now w) (upload_sessions (page_limit limit) w)
    → All IsNoPart
        (firsts (page_limit limit - length (upload_sessions (page_limit limit) w)) listing)
    → recover (quiet now) limit false listing w ≡ (
      record {
        checked = length (upload_sessions (page_limit limit) w);
        kept = length (upload_sessions (page_limit limit) w);
        cancelled = 0;
        orphans = 0;
      },
      (ok tt, w),
    )
unfolding recover recover_listed then_names recover_names
recover-full now limit listing w a b =
    let rows = upload_sessions (page_limit limit) w in
    let names = staging_names-none (page_limit limit - length rows) listing b in
    let handled = recover_rows-full now 0 rows (new_report (length rows)) w a in
    rw (names, handled) (ground arith)
