-- ===== src/Md5.antt =====
-- The queue of MD5 tasks: `ClaimMD5Task`, `CompleteMD5Task`, `FailMD5Task` and
-- `RequeueComputingMD5Tasks` of internal/db/repository.go, which the worker of
-- internal/checksum/worker.go calls. Rows of `files` are left out, and so are failures of the
-- database.
use safe_file_hub.Base.{
  ℕ, zero, suc, Bool, true, false, not, ◌&&◌, ◌||◌, Option, none, some, List, [], ◌∷◌, ltb, leb,
  ◌==◌, if◌then◌else◌,
}
pub mod Tries
pub mod Bounded
mod Tests

pub data TaskStatus : Type 0 where
  pending computing failed complete : TaskStatus

-- `db.MD5Task`; the claim time counts while the task is being computed.
pub record Task : Type 0 where
  pub file_id : ℕ
  pub status : TaskStatus
  pub attempts : ℕ
  pub max_attempts : ℕ
  pub available_at : ℕ
  pub claimed_at : ℕ

pub data Claim : Type 0 where
  claimed : Task → Claim
  none_due : Claim
  -- the CHECK `attempts <= max_attempts` refuses the UPDATE
  check_failed : Claim

pub is_pending : TaskStatus → Bool
is_pending pending = true
is_pending computing = false
is_pending failed = false
is_pending complete = false

pub is_computing : TaskStatus → Bool
is_computing pending = false
is_computing computing = true
is_computing failed = false
is_computing complete = false

-- The order of two rows by a time and then by the id.
pub before : ℕ → ℕ → ℕ → ℕ → Bool
before time id time' id' = ltb time time' || (time == time' && ltb id id')

-- Of a row and of the first one behind it, the first.
pub earlier_due : Task → Option Task → Task
unfolding before
earlier_due t none = t
earlier_due t (some u) = if before u.available_at u.file_id t.available_at t.file_id then u else t

-- The row that the inner SELECT of a claim picks.
pub first_due : ℕ → List Task → Option Task
unfolding earlier_due is_pending
first_due now [] = none
first_due now (t ∷ ts) =
    let rest = first_due now ts in
    if is_pending t.status && leb t.available_at now then some (earlier_due t rest) else rest

-- The row with this id, written anew.
pub write_task : Task → List Task → List Task
write_task u [] = []
write_task u (t ∷ ts) =
    let rest = write_task u ts in (if t.file_id == u.file_id then u else t) ∷ rest

pub started : ℕ → Task → Task
started now t = record t { status = computing; attempts = suc t.attempts; claimed_at = now }

pub claim_row : ℕ → List Task → Option Task → Claim × List Task
unfolding write_task started
claim_row now ts none = (none_due, ts)
claim_row now ts (some t) =
    if ltb t.max_attempts (suc t.attempts)
    then (check_failed, ts)
    else (claimed (started now t), write_task (started now t) ts)

-- `ClaimMD5Task`
pub claim : ℕ → List Task → Claim × List Task
unfolding claim_row first_due
claim now ts = claim_row now ts (first_due now ts)

-- `CompleteMD5Task` for a digest that is well formed; `ErrNotFound` where no row was computing.
pub complete_task : ℕ → List Task → List Task
unfolding is_computing
complete_task id [] = []
complete_task id (t ∷ ts) =
    let rest = complete_task id ts in
    (if t.file_id == id && is_computing t.status then record t { status = complete } else t) ∷ rest

pub after_failure : ℕ → Task → Task
after_failure now t = record t {
  status = if leb t.max_attempts t.attempts then failed else pending;
  available_at = now;
  claimed_at = 0;
}

-- `FailMD5Task`
pub fail_task : ℕ → ℕ → List Task → List Task
unfolding is_computing after_failure
fail_task now id [] = []
fail_task now id (t ∷ ts) =
    let rest = fail_task now id ts in
    (if t.file_id == id && is_computing t.status then after_failure now t else t) ∷ rest

pub earlier_claimed : Task → Option Task → Task
unfolding before
earlier_claimed t none = t
earlier_claimed t (some u) = if before u.claimed_at u.file_id t.claimed_at t.file_id then u else t

pub first_stale : ℕ → List Task → Option Task
unfolding earlier_claimed is_computing
first_stale stale [] = none
first_stale stale (t ∷ ts) =
    let rest = first_stale stale ts in
    if is_computing t.status && leb t.claimed_at stale then some (earlier_claimed t rest) else rest

pub requeued : ℕ → Task → Task
requeued now t = record t { status = pending; available_at = now; claimed_at = 0 }

pub requeue_row : ℕ → List Task → Option Task → List Task
unfolding write_task requeued
requeue_row now ts none = ts
requeue_row now ts (some t) = write_task (requeued now t) ts

-- `RequeueComputingMD5Tasks`: the first rows of the order, up to the limit, one after the other.
pub requeue : ℕ → ℕ → ℕ → List Task → List Task
unfolding requeue_row first_stale
requeue now stale zero ts = ts
requeue now stale (suc limit) ts =
    requeue now stale limit (requeue_row now ts (first_stale stale ts))
