-- ===== src/Limits.antt =====
-- internal/limits: the upload limiter (limiter.go) and the download limiter (download.go).
--
-- A buffered channel that is used as a counting semaphore is the number of values in it: a send
-- under `select`/`default` fails when the channel is full, a receive from an empty channel blocks,
-- which is `none` here. A Go map from strings to int is a `Table ℤ`, read as 0 at a missing key.
-- Calls are atomic here; the short time in which `TryAcquire` holds a global slot and not yet the
-- mutex is not modelled, so a concurrent caller that this slot turns away is not shown.
pub mod Counts
pub mod Upload
pub mod Download
mod Tests
use safe_file_hub.Base.{
  ℕ, zero, suc, ◌+◌, ◌-◌, String, Bool, true, false, ◌||◌, Option, none, some, List, [], ◌∷◌, ◌++◌,
  ltb, leb, if◌then◌else◌, ◌==◌,
}
use safe_file_hub.Base.Int.{ℤ, pos, negsuc, ltb_ℤ, leb_ℤ}
use safe_file_hub.Base.Store.{Table, lookup, insert, erase}

pub record UploadLimiter : Type 0 where
  -- the capacity of the channel `global`, and the number of values in it
  pub capacity : ℕ
  pub in_use : ℕ
  pub per_user : ℤ
  pub per_ip : ℤ
  pub users : Table ℤ
  pub ips : Table ℤ

-- A lease with its `sync.Once`: `done` says that `Release` has run.
pub record Lease : Type 0 where
  pub user : String
  pub ip : String
  pub done : Bool

-- The limiter and every lease that it gave out, in the order of acquisition.
pub record World : Type 0 where
  pub limiter : UploadLimiter
  pub leases : List Lease

unfoldable pub new_upload_limiter : ℤ → ℤ → ℤ → Option UploadLimiter
new_upload_limiter (pos (suc global)) per_user per_ip =
    if leb_ℤ per_user (pos 0) || leb_ℤ per_ip (pos 0)
    then none
    else some (record {
      capacity = suc global;
      in_use = 0;
      per_user = per_user;
      per_ip = per_ip;
      users = [];
      ips = [];
    })
new_upload_limiter _ per_user per_ip = none

-- `m[key]`
unfoldable pub count : String → Table ℤ → ℤ
count key m = elim (lookup key m) [ none ↦ pos 0 | some n ↦ n ]

pub suc_ℤ : ℤ → ℤ
suc_ℤ (pos n) = pos (suc n)
suc_ℤ (negsuc zero) = pos 0
suc_ℤ (negsuc (suc n)) = negsuc n

pub pred_ℤ : ℤ → ℤ
pred_ℤ (pos zero) = negsuc 0
pred_ℤ (pos (suc n)) = pos n
pred_ℤ (negsuc n) = negsuc (suc n)

pub is_zero_ℤ : ℤ → Bool
is_zero_ℤ (pos zero) = true
is_zero_ℤ _ = false

-- `m[key]++`
pub increment : String → Table ℤ → Table ℤ
unfolding suc_ℤ
increment key m = insert key (suc_ℤ (count key m)) m

-- `m[key]--; if m[key] == 0 { delete(m, key) }`
pub decrement : String → Table ℤ → Table ℤ
unfolding pred_ℤ is_zero_ℤ
decrement key m =
    let m' = insert key (pred_ℤ (count key m)) m in
    if is_zero_ℤ (count key m') then erase key m' else m'

-- A non-blocking send.
pub try_send : ℕ → ℕ → Option ℕ
try_send capacity n = if ltb n capacity then some (suc n) else none

-- A receive; `none` when it would block.
pub receive : ℕ → Option ℕ
receive zero = none
receive (suc n) = some n

-- `UploadLimiter.TryAcquire`: the new state and whether a lease was given out.
pub try_acquire_locked : String → String → World → ℕ → Option (World × Bool)
unfolding receive increment
try_acquire_locked user ip w sent =
    let l = w.limiter in
    if leb_ℤ l.per_user (count user l.users) || leb_ℤ l.per_ip (count ip l.ips)
    then (elim (receive sent) [
      | none ↦ none
      | some n ↦ some (record w { limiter = record l { in_use = n } }, false)
    ])
    else some (
      record {
        limiter = record l {
          in_use = sent;
          users = increment user l.users;
          ips = increment ip l.ips;
        };
        leases = w.leases ++ record { user = user; ip = ip; done = false } ∷ [];
      },
      true,
    )

pub try_acquire : String → String → World → Option (World × Bool)
unfolding try_send try_acquire_locked
try_acquire user ip w = elim (try_send w.limiter.capacity w.limiter.in_use) [
  | none ↦ some (w, false)
  | some sent ↦ try_acquire_locked user ip w sent
]

-- The function under `once.Do` in `Lease.Release`.
pub release_slots : UploadLimiter → Lease → Option UploadLimiter
unfolding decrement receive
release_slots l lease = elim (receive l.in_use) [
  | none ↦ none
  | some n ↦ some (record l {
    in_use = n;
    users = decrement lease.user l.users;
    ips = decrement lease.ip l.ips;
  })
]

unfoldable pub lease_at : ℕ → List Lease → Option Lease
lease_at i [] = none
lease_at zero (l ∷ ls) = some l
lease_at (suc i) (l ∷ ls) = lease_at i ls

unfoldable pub mark_done : ℕ → List Lease → List Lease
mark_done i [] = []
mark_done zero (l ∷ ls) = record l { done = true } ∷ ls
mark_done (suc i) (l ∷ ls) = l ∷ mark_done i ls

-- `Lease.Release` of the i-th lease. An index past the end stands for a nil lease.
pub release : ℕ → World → Option World
unfolding release_slots lease_at mark_done
release i w = elim (lease_at i w.leases) [
  | none ↦ some w
  | some lease ↦ if lease.done then some w else (elim (release_slots w.limiter lease) [
    | none ↦ none
    | some l ↦ some (record { limiter = l; leases = mark_done i w.leases })
  ])
]

pub data Call : Type 0 where
  acquire_call : String → String → Call
  release_call : ℕ → Call

-- The state that a call of `TryAcquire` leaves.
pub state_of : Option (World × Bool) → Option World
state_of none = none
state_of (some (w, _)) = some w

pub step : Call → World → Option World
unfolding state_of
step (acquire_call user ip) w = state_of (try_acquire user ip w)
step (release_call i) w = release i w

-- A sequence of calls; `none` when one of them blocks.
pub run_on : Option World → (World → Option World) → Option World
run_on none rest = none
run_on (some w) rest = rest w

pub run : List Call → World → Option World
unfolding run_on
run [] w = some w
run (c ∷ cs) w = run_on (step c w) (run cs)

-- The download limiter is one semaphore; its leases are their `done` flags.
pub record DownloadLimiter : Type 0 where
  pub slots : ℕ
  pub used : ℕ
  pub released : List Bool

pub new_download_limiter : ℤ → Option DownloadLimiter
new_download_limiter (pos (suc capacity)) =
    some (record { slots = suc capacity; used = 0; released = [] })
new_download_limiter _ = none

pub try_acquire_download : DownloadLimiter → DownloadLimiter × Bool
unfolding try_send
try_acquire_download l = elim (try_send l.slots l.used) [
  | none ↦ (l, false)
  | some n ↦ (record l { used = n; released = l.released ++ false ∷ [] }, true)
]

pub set_released : ℕ → List Bool → List Bool
set_released i [] = []
set_released zero (b ∷ bs) = true ∷ bs
set_released (suc i) (b ∷ bs) = b ∷ set_released i bs

pub is_live : ℕ → List Bool → Bool
is_live i [] = false
is_live zero (true ∷ bs) = false
is_live zero (false ∷ bs) = true
is_live (suc i) (b ∷ bs) = is_live i bs

pub release_download : ℕ → DownloadLimiter → Option DownloadLimiter
unfolding receive set_released is_live
release_download i l =
    if is_live i l.released
    then (elim (receive l.used) [
      | none ↦ none
      | some n ↦ some (record l { used = n; released = set_released i l.released })
    ])
    else some l

pub data DownloadCall : Type 0 where
  acquire_slot : DownloadCall
  release_slot : ℕ → DownloadCall

pub step_download : DownloadCall → DownloadLimiter → Option DownloadLimiter
step_download acquire_slot l = some (try_acquire_download l).0
step_download (release_slot i) l = release_download i l

pub run_on_download :
    Option DownloadLimiter → (DownloadLimiter → Option DownloadLimiter) → Option DownloadLimiter
run_on_download none rest = none
run_on_download (some l) rest = rest l

pub run_download : List DownloadCall → DownloadLimiter → Option DownloadLimiter
unfolding run_on_download
run_download [] l = some l
run_download (c ∷ cs) l = run_on_download (step_download c l) (run_download cs)
