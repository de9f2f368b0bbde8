-- ===== src/Upload/Tests.antt =====
-- The theorems on uploads at a concrete session.
use safe_file_hub.Base.{
  ℕ, ◌≤◌, ◌≡◌, refl, str_eq, eq_iff, true, false, some, List, [], ◌∷◌, Bytes, length, arith,
  Bool-cases, inl, inr,
}
use safe_file_hub.Base.Store.{Table, lookup, insert, erase}
use safe_file_hub.Upload.Data.{active, UploadSession, World, ok, err, failed, conflict, too_large}
use safe_file_hub.Upload.Rows.{
  session_by_id, update_upload_offset, offset_of_row, update_where, status_eq, complete_upload,
  commit_row, committed, may_insert, file_taken, directory_taken, file_row, update_upload_status,
  status_of_row, delete_upload_session,
}
use safe_file_hub.Upload.Staging.{
  resize, take, publish_staging, restore_published, move_to_objects, move_to_staging,
  remove_staging,
}
use safe_file_hub.Upload.Lock.{
  Lock, with_lifecycle_lock, unlocked, locked_loop, lock_round, read_round, checked_round, is_live,
}
use safe_file_hub.Upload.Manager.{
  CleanupFaults, cleanup_locked, cleanup_at, cleanup_cancelled, remove_and_delete,
}
use safe_file_hub.Upload.Transfer.{
  Body, WriteFaults, write_locked, write_open, copy_and_finish, copy_limit, finish_write,
  after_update, write, CompleteFaults, no_digest, digest_ok, hash_staging, hash_locked,
  publish_locked, restore_after, complete_upload_session,
}
use safe_file_hub.Upload.Write.{Wrote, advanced, write_locked-Wrote}
use safe_file_hub.Upload.Failed.{Holding, write-Holding}
use safe_file_hub.Upload.Valid.{Valid}
use safe_file_hub.Upload.Reachable.{Operation, writes, cleans, perform_all, perform_all-Valid}
use safe_file_hub.Upload.Cleanup.{no_faults, removed, cleanup_locked-resumes}
use safe_file_hub.Upload.Committed.{Ready, Published, no_publish_faults}
use safe_file_hub.Upload.Publish.{Unchanged, Stuck, publish_locked-Unchanged, publish_locked-Stuck}
use safe_file_hub.Upload.Complete.{complete_upload_session-Published}

abbrev session : ℕ → UploadSession
session offset = record {
  id = "s";
  user_id = 1;
  root_id = 2;
  logical_path = "/a";
  staging_path = "staging/x";
  offset = offset;
  length = 3;
  status = active;
  expires_at = 10;
}

abbrev world : ℕ → Bytes → World
world offset content = record {
  sessions = ("s", session offset) ∷ [];
  staging = ("staging/x", content) ∷ [];
  objects = [];
  files = [];
  directories = [];
  md5_enabled = true;
  md5_tasks = [];
  next_file_id = 7;
}

abbrev no_write_faults : WriteFaults
no_write_faults = record {
  open_file = false;
  truncate = false;
  seek = false;
  sync = false;
  update = false;
  undo = false;
  cleanup = no_faults;
}

abbrev body : Bytes → Body
body bytes = record { bytes = bytes; broken = false }

abbrev no_complete_faults : CompleteFaults
no_complete_faults = record {
  hash = false;
  publish = no_publish_faults;
  commit = false;
  restore = no_publish_faults;
}

abbrev quiet : Lock
quiet = record {
  rounds = [];
  last = record { read = false; lock = false; reread = false; others = λ w. w };
  unlock = false;
}

world-Valid : (offset : ℕ) (content : Bytes) → offset ≤ 3 → Valid (world offset content)
unfolding lookup
world-Valid offset content b id s h = elim (Bool-cases (str_eq "s" id)) [
  | inl e ↦
      let q = eq_iff "s" id in
      record { own = ground (arith, e, h, q); within = ground (arith, e, h, b) }
  | inr e ↦ absurd (ground (arith, e, h))
]

write_locked-Wrote_example :
    (is_live 5 (session 1) ≡ true)
    × ◌≡◌ {A = ℕ} 1 1
    × (content : Bytes) × (lookup "staging/x" (world 1 (9 ∷ 9 ∷ [])).staging ≡ some content)
    × Wrote
        (body (8 ∷ 7 ∷ []))
        (session 1)
        content
        (world 1 (9 ∷ 9 ∷ []))
        3
        (advanced (session 1) (9 ∷ 8 ∷ 7 ∷ []) 3 (world 1 (9 ∷ 9 ∷ [])))
unfolding write_locked write_open copy_and_finish finish_write after_update update_upload_offset
    offset_of_row update_where status_eq lookup insert resize take copy_limit
write_locked-Wrote_example =
    write_locked-Wrote no_write_faults 5 1 (body (8 ∷ 7 ∷ [])) (session 1) (world 1 (9 ∷ 9 ∷ []))
      (omega arith) refl refl

-- The writes of another process while a write waits.
abbrev disturbed : Lock
disturbed = record {
  rounds =
      record {
        read = false;
        lock = false;
        reread = false;
        others = λ w. record w { next_file_id = 8 };
      }
      ∷ [];
  last = record { read = false; lock = false; reread = false; others = λ w. w };
  unlock = false;
}

abbrev RowsOf : World → Table UploadSession → Type 0
RowsOf w t = t ≡ w.sessions

holding : Holding (RowsOf (world 1 [])) (session 1) (9 ∷ 9 ∷ []) (world 1 (9 ∷ 9 ∷ []))
unfolding lookup
holding = record { rows = refl; row = refl; after = 9 ∷ 9 ∷ []; file = refl; begins = refl }

-- The body is too long.
write-Holding_example :
    Holding
      (RowsOf (world 1 []))
      (session 1)
      (9 ∷ 9 ∷ [])
      (record (world 1 (9 ∷ [])) { next_file_id = 8 })
unfolding write with_lifecycle_lock unlocked locked_loop lock_round read_round checked_round
    session_by_id write_locked write_open copy_and_finish finish_write after_update
    update_upload_offset offset_of_row update_where status_eq lookup insert resize take copy_limit
write-Holding_example =
    write-Holding (RowsOf (world 1 [])) disturbed no_write_faults 5 1 (body (8 ∷ 7 ∷ 6 ∷ []))
      (session 1) (9 ∷ 9 ∷ []) (world 1 (9 ∷ 9 ∷ [])) {e = too_large} refl refl
      (
        (λ w h. record {
          rows = h.rows;
          row = h.row;
          after = h.after;
          file = h.file;
          begins = h.begins;
        }),
        tt,
      )
      holding refl

-- A length of 2 ^ 63 - 1 lets the limit wrap: the write succeeds and takes no bytes.
abbrev longest : UploadSession
longest = record (session 0) { length = 9223372036854775807 }

abbrev longest_world : World
longest_world = record (world 0 []) { sessions = ("s", longest) ∷ [] }

takes_nothing :
    write_locked no_write_faults 5 0 (body (8 ∷ 7 ∷ [])) longest longest_world
    ≡ (ok 0, longest_world)
unfolding write_locked write_open copy_and_finish finish_write after_update update_upload_offset
    offset_of_row update_where status_eq lookup insert resize take copy_limit
takes_nothing = refl

abbrev operations : List Operation
operations =
    writes disturbed no_write_faults 5 1 (body (8 ∷ 7 ∷ [])) "s"
    ∷ cleans quiet no_faults false 6 "s"
    ∷ []

perform_all-Valid_example : Valid (perform_all operations (world 1 (9 ∷ [])))
perform_all-Valid_example =
    perform_all-Valid operations (world 1 (9 ∷ [])) ((λ w h. h, tt), (tt, tt))
      (world-Valid 1 (9 ∷ []) (omega arith))

abbrev no_delete : CleanupFaults
no_delete = record { cancel = false; pend = false; remove = false; delete = true }

cleanup_locked-resumes_example :
    (s' : UploadSession) × (lookup "s"
        (cleanup_locked no_delete (session 1) (world 1 (9 ∷ []))).1.sessions
      ≡ some s')
    × (cleanup_locked no_faults s' (cleanup_locked no_delete (session 1) (world 1 (9 ∷ []))).1
        ≡ (ok tt, removed (session 1) (world 1 (9 ∷ []))))
unfolding lookup status_eq cleanup_locked cleanup_at cleanup_cancelled update_upload_status
    status_of_row update_where insert remove_and_delete remove_staging delete_upload_session
cleanup_locked-resumes_example =
    cleanup_locked-resumes no_delete (session 1) (world 1 (9 ∷ [])) {e = failed} refl refl refl

abbrev full : World
full = world 3 (9 ∷ 8 ∷ 7 ∷ [])

ready : Ready 5 (session 3) (9 ∷ 8 ∷ 7 ∷ []) full
unfolding lookup status_eq
ready = record { live = refl; received = refl; file = refl }

-- The session expires between the check and the transaction.
publish_locked-Unchanged_example :
    Unchanged full (publish_locked no_complete_faults "k" 5 10 (session 3) full).1
unfolding publish_locked publish_staging move_to_objects restore_after complete_upload commit_row
    restore_published move_to_staging status_eq lookup insert erase
publish_locked-Unchanged_example =
    publish_locked-Unchanged no_complete_faults "k" 5 10 (session 3) (9 ∷ 8 ∷ 7 ∷ []) full
      {e = conflict} ready refl refl refl refl

abbrev sync_fault : CompleteFaults
sync_fault = record no_complete_faults { publish = record { rename = false; sync = true } }

publish_locked-Stuck_example :
    (w' : World) × (publish_locked sync_fault "k" 5 6 (session 3) full ≡ (err failed, w'))
    × Stuck 5 (session 3) "k" (9 ∷ 8 ∷ 7 ∷ []) w'
unfolding lookup
publish_locked-Stuck_example =
    publish_locked-Stuck sync_fault "k" 5 6 (session 3) (9 ∷ 8 ∷ 7 ∷ []) full ready refl tt refl
      refl

abbrev same_bytes : Bytes → Bytes
same_bytes b = b

complete_upload_session-Published_example :
    (s : UploadSession) × (content : Bytes) × (lookup "s" full.sessions ≡ some s)
    × (length content ≡ s.length)
    × (digest_ok (same_bytes content) no_digest ≡ true)
    × Published s "k" content full
        (complete_upload_session quiet quiet no_complete_faults same_bytes no_digest "k"
          (4, 5, 6)
          "s"
          full).1
unfolding complete_upload_session digest_ok with_lifecycle_lock unlocked locked_loop lock_round
    read_round checked_round session_by_id hash_locked hash_staging publish_locked publish_staging
    move_to_objects restore_after complete_upload commit_row committed may_insert file_taken
    directory_taken file_row status_eq lookup insert erase
complete_upload_session-Published_example =
    complete_upload_session-Published quiet quiet no_complete_faults same_bytes no_digest "k" 4 5 6
      "s" full refl refl (world-Valid 3 (9 ∷ 8 ∷ 7 ∷ []) (omega arith)) refl
