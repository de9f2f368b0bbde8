-- ===== src/Published/Lost.antt =====
-- What a pass of the recovery does with a key whose object is already gone.
use safe_file_hub.Base.{
  ℕ, suc, ◌≡◌, String, true, false, none, List, [], ◌∷◌, str_eq, if◌then◌else◌, arith, eq_iff,
  Bool-cases, inl, inr,
}
use safe_file_hub.Base.Store.{lookup, lookup-erase}
use safe_file_hub.Published.Data.{FileRow, Hub}
use safe_file_hub.Published.Rows.{
  remove_object, complete_object_cleanup, finalize_file_delete, changed_one, is_job, drop_job,
}
use safe_file_hub.Published.Recovery.{
  ItemFaults, Report, Loop, goes_on, ends, unless_ended, after_job, job_removed, recover_job,
  recover_jobs, after_tombstone, tombstone_removed, recover_tombstone, recover_tombstones,
  PassFaults, recover_files, recover, nothing_done, first_of, deleting_files,
}

-- A cleanup job whose object does not exist.
pub record Lost (key : String) (h : Hub) : Type 0 where
  pub gone : lookup key h.objects ≡ none
  pub job : is_job key h.cleanup_jobs ≡ true

abbrev pub hub_of : Loop × (Report × Hub) → Hub
hub_of (l, (out, h)) = h

is_job-drop_job :
    (key any : String) (js : List String)
    → is_job any (drop_job key js) ≡ (if str_eq key any then false else is_job any js)
unfolding is_job drop_job
is_job-drop_job key any [] = ground arith
is_job-drop_job key any (j ∷ js) =
    let ih = is_job-drop_job key any js in
    ground (arith, ih, eq_iff j key, eq_iff key any, eq_iff j any)

recover_job-Lost :
    (key : String) (f : ItemFaults) (k : String) (out : Report) (h : Hub)
    → Lost key h
    → Lost key (hub_of (recover_job f k (out, h)))
unfolding recover_job job_removed after_job remove_object complete_object_cleanup
recover_job-Lost key f k out h l =
    let gone = l.gone in
    let job = l.job in
    let a = lookup-erase k key h.objects in
    let b = is_job-drop_job k key h.cleanup_jobs in
    let c = eq_iff k key in
    record { gone = ground (arith, gone, a, c); job = ground (arith, gone, job, b, c) }

recover_tombstone-Lost :
    (key : String) (f : ItemFaults) (k : FileRow) (out : Report) (h : Hub)
    → Lost key h
    → Lost key (hub_of (recover_tombstone f k (out, h)))
unfolding recover_tombstone tombstone_removed after_tombstone remove_object finalize_file_delete
    changed_one
recover_tombstone-Lost key f k out h l =
    let gone = l.gone in
    let job = l.job in
    let a = lookup-erase k.object_key key h.objects in
    let c = eq_iff k.object_key key in
    record { gone = ground (arith, gone, a, c); job = ground (arith, gone, job, c) }

module _ (key : String) where
  unless_ended-Lost :
      (o : Loop × (Report × Hub)) (rest : Report × Hub → Loop × (Report × Hub))
      → Lost key (hub_of o)
      → ((out : Report) (h : Hub) → Lost key h → Lost key (hub_of (rest (out, h))))
      → Lost key (hub_of (unless_ended o rest))
  unfolding unless_ended
  unless_ended-Lost (goes_on, (out, h)) rest l k = k out h l
  unless_ended-Lost (ends, (out, h)) rest l k = l

  recover_jobs-Lost :
      (faults : ℕ → ItemFaults) (i : ℕ) (keys : List String) (out : Report) (h : Hub)
      → Lost key h
      → Lost key (hub_of (recover_jobs faults i keys (out, h)))
  unfolding recover_jobs
  recover_jobs-Lost faults i [] out h l = l
  recover_jobs-Lost faults i (k ∷ keys) out h l =
      unless_ended-Lost (recover_job (faults i) k (out, h)) (recover_jobs faults (suc i) keys)
        (recover_job-Lost key (faults i) k out h l) (recover_jobs-Lost faults (suc i) keys)

  recover_tombstones-Lost :
      (faults : ℕ → ItemFaults) (i : ℕ) (fs : List FileRow) (out : Report) (h : Hub)
      → Lost key h
      → Lost key (hub_of (recover_tombstones faults i fs (out, h)))
  unfolding recover_tombstones
  recover_tombstones-Lost faults i [] out h l = l
  recover_tombstones-Lost faults i (f ∷ fs) out h l =
      unless_ended-Lost (recover_tombstone (faults i) f (out, h))
        (recover_tombstones faults (suc i) fs) (recover_tombstone-Lost key (faults i) f out h l)
        (recover_tombstones-Lost faults (suc i) fs)

  recover_files-Lost :
      (f : PassFaults) (limit : ℕ) (out : Report) (h : Hub)
      → Lost key h
      → Lost key (hub_of (recover_files f limit (out, h)))
  unfolding recover_files
  recover_files-Lost f limit out h l = elim (Bool-cases f.files) [
    | inl e ↦ rw e l
    | inr e ↦
        rw e
          (recover_tombstones-Lost f.tombstone 0 (first_of limit (deleting_files h.files)) out h l)
  ]

  -- A cleanup job whose object does not exist is there after every pass of the recovery, whatever
  -- fails in it: the removal of the object fails each time.
  pub recover-Lost :
      (f : PassFaults) (limit : ℕ) (h : Hub) → Lost key h → Lost key (hub_of (recover f limit h))
  unfolding recover recover_files
  recover-Lost f limit h l = elim (Bool-cases f.jobs) [
    | inl e ↦ rw e l
    | inr e ↦ rw e (
        unless_ended-Lost (recover_jobs f.job 0 (first_of limit h.cleanup_jobs) (nothing_done, h))
          (recover_files f limit)
          (recover_jobs-Lost f.job 0 (first_of limit h.cleanup_jobs) nothing_done h l)
          (recover_files-Lost f limit))
  ]
