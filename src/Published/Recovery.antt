-- ===== src/Published/Recovery.antt =====
-- `publishedrecovery.Recover`: one pass over the cleanup jobs and the tombstones.
use safe_file_hub.Base.{ℕ, zero, suc, String, Bool, not, List, [], ◌∷◌, if◌then◌else◌}
use safe_file_hub.Published.Data.{FileRow, Hub, not_found, conflict, failed, Answer, ok, err}
use safe_file_hub.Published.Rows.{
  is_active, RemoveFaults, remove_object, complete_object_cleanup, finalize_file_delete,
}

-- What fails for one key, and whether the context is cancelled before it.
pub record ItemFaults : Type 0 where
  pub cancelled : Bool
  pub remove : RemoveFaults
  pub update : Bool

-- `Report`
pub record Report : Type 0 where
  pub cleanup_checked : ℕ
  pub cleanup_completed : ℕ
  pub tombstones_checked : ℕ
  pub tombstones_finalized : ℕ

-- A loop goes on with the next item, or ends the whole pass.
pub data Loop : Type 0 where
  goes_on ends : Loop

unfoldable pub unless_ended :
    Loop × (Report × Hub) → (Report × Hub → Loop × (Report × Hub)) → Loop × (Report × Hub)
unless_ended (goes_on, s) rest = rest s
unless_ended (ends, s) rest = (ends, s)

unfoldable pub after_job : Answer Unit × Hub → Report → Loop × (Report × Hub)
after_job (err _, h) out = (ends, (out, h))
after_job (ok _, h) out =
    (goes_on, (record out { cleanup_completed = suc out.cleanup_completed }, h))

unfoldable pub job_removed :
    ItemFaults → String → Answer Unit × Hub → Report → Loop × (Report × Hub)
unfolding after_job
job_removed f key (err _, h) out = (goes_on, (out, h))
job_removed f key (ok _, h) out = after_job (complete_object_cleanup f.update key h) out

-- The body of the first loop.
unfoldable pub recover_job : ItemFaults → String → Report × Hub → Loop × (Report × Hub)
unfolding job_removed
recover_job f key (out, h) =
    if f.cancelled
    then (ends, (out, h))
    else job_removed f key (remove_object f.remove key h)
        (record out { cleanup_checked = suc out.cleanup_checked })

-- The loop over the jobs; item `i` of the pass fails as `faults i` says.
unfoldable pub recover_jobs :
    (ℕ → ItemFaults) → ℕ → List String → Report × Hub → Loop × (Report × Hub)
recover_jobs faults i [] s = (goes_on, s)
recover_jobs faults i (key ∷ keys) s =
    unless_ended (recover_job (faults i) key s) (recover_jobs faults (suc i) keys)

-- `err != nil && !errors.Is(err, db.ErrNotFound)`
unfoldable pub after_tombstone : Answer Unit × Hub → Report → Loop × (Report × Hub)
after_tombstone (err failed, h) out = (ends, (out, h))
after_tombstone (err conflict, h) out = (ends, (out, h))
after_tombstone (err not_found, h) out =
    (goes_on, (record out { tombstones_finalized = suc out.tombstones_finalized }, h))
after_tombstone (ok _, h) out =
    (goes_on, (record out { tombstones_finalized = suc out.tombstones_finalized }, h))

unfoldable pub tombstone_removed :
    ItemFaults → FileRow → Answer Unit × Hub → Report → Loop × (Report × Hub)
unfolding after_tombstone
tombstone_removed f file (err _, h) out = (goes_on, (out, h))
tombstone_removed f file (ok _, h) out =
    after_tombstone (finalize_file_delete f.update file.id file.object_key h) out

unfoldable pub recover_tombstone : ItemFaults → FileRow → Report × Hub → Loop × (Report × Hub)
unfolding tombstone_removed
recover_tombstone f file (out, h) =
    if f.cancelled
    then (ends, (out, h))
    else tombstone_removed f file (remove_object f.remove file.object_key h)
        (record out { tombstones_checked = suc out.tombstones_checked })

unfoldable pub recover_tombstones :
    (ℕ → ItemFaults) → ℕ → List FileRow → Report × Hub → Loop × (Report × Hub)
recover_tombstones faults i [] s = (goes_on, s)
recover_tombstones faults i (f ∷ fs) s =
    unless_ended (recover_tombstone (faults i) f s) (recover_tombstones faults (suc i) fs)

unfoldable pub first_of {ℓ} : {A : Type ℓ} → ℕ → List A → List A
first_of n [] = []
first_of zero (x ∷ xs) = []
first_of (suc n) (x ∷ xs) = x ∷ first_of n xs

-- The rows that `DeletingFiles` selects, without its limit.
unfoldable pub deleting_files : List FileRow → List FileRow
deleting_files [] = []
deleting_files (f ∷ fs) =
    let rest = deleting_files fs in if not (is_active f.delete_state) then f ∷ rest else rest

pub record PassFaults : Type 0 where
  pub jobs : Bool
  pub files : Bool
  pub job : ℕ → ItemFaults
  pub tombstone : ℕ → ItemFaults

-- The second loop, over the tombstones that the first one has left.
unfoldable pub recover_files : PassFaults → ℕ → Report × Hub → Loop × (Report × Hub)
recover_files f limit (out, h) =
    if f.files
    then (ends, (out, h))
    else recover_tombstones f.tombstone 0 (first_of limit (deleting_files h.files)) (out, h)

abbrev pub nothing_done : Report
nothing_done = record {
  cleanup_checked = 0;
  cleanup_completed = 0;
  tombstones_checked = 0;
  tombstones_finalized = 0;
}

-- `Recover`
unfoldable pub recover : PassFaults → ℕ → Hub → Loop × (Report × Hub)
recover f limit h =
    if f.jobs
    then (ends, (nothing_done, h))
    else unless_ended (recover_jobs f.job 0 (first_of limit h.cleanup_jobs) (nothing_done, h))
        (recover_files f limit)
