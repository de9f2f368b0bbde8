-- ===== src/Upload/RecoverTests.antt =====
-- The theorems on `Recover` at a live and an expired session.
use safe_file_hub.Base.{
  ℕ, ◌≡◌, refl, inl, inr, ◌==◌, String, true, false, [], ◌∷◌, str_eq, eq_iff, arith, Bool-cases,
}
use safe_file_hub.Base.Int.{pos}
use safe_file_hub.Base.Store.{lookup}
use safe_file_hub.Upload.Data.{active, UploadSession, World, ok}
use safe_file_hub.Upload.Rows.{status_eq}
use safe_file_hub.Upload.Recover.{
  id_of_name, trim_prefix, trim_suffix, ends_with, valid_staging_name, RecoverFaults, firsts,
  upload_sessions, unfinished_rows, insert_row, page_limit, recover, recoverable_staging,
  holds_offset,
}
use safe_file_hub.Upload.Paged.{quiet_row, quiet, recover-full}
use safe_file_hub.Upload.Removes.{Named, Finished, recover-Finished}

abbrev live_id : String
live_id = "0123456789abcdef0123456789abcdef"

abbrev old_id : String
old_id = "f123456789abcdef0123456789abcdef"

abbrev live_part : String
live_part = "staging/0123456789abcdef0123456789abcdef.part"

abbrev old_part : String
old_part = "staging/f123456789abcdef0123456789abcdef.part"

abbrev session : String → String → ℕ → UploadSession
session id part expires = record {
  id = id;
  user_id = 1;
  root_id = 1;
  logical_path = "/a";
  staging_path = part;
  offset = 1;
  length = 2;
  status = active;
  expires_at = expires;
}

abbrev live_session : UploadSession
live_session = session live_id live_part 30

abbrev old_session : UploadSession
old_session = session old_id old_part 10

abbrev world : World
world = record {
  sessions = (old_id, old_session) ∷ (live_id, live_session) ∷ [];
  staging = (live_part, 7 ∷ []) ∷ (old_part, 8 ∷ []) ∷ [];
  objects = [];
  files = [];
  directories = [];
  md5_enabled = false;
  md5_tasks = [];
  next_file_id = 1;
}

live_part_id : id_of_name live_part ≡ live_id
unfolding id_of_name trim_prefix trim_suffix ends_with
live_part_id = refl

old_part_id : id_of_name old_part ≡ old_id
unfolding id_of_name trim_prefix trim_suffix ends_with
old_part_id = refl

lock_invalid : valid_staging_name "staging/0123456789abcdef0123456789abcdef.part.lock" ≡ false
unfolding valid_staging_name trim_prefix ends_with
lock_invalid = refl

world-Named : Named world
unfolding lookup
world-Named id r h = elim (Bool-cases (str_eq old_id id)) [
  | inl k ↦ let same = eq_iff old_id id in ground (arith, h, k, same, old_part_id)
  | inr k ↦ let same = eq_iff live_id id in ground (arith, h, k, same, live_part_id)
]

-- The deletion of rows fails, and the part of the old session cannot be opened.
abbrev deletes_fail : RecoverFaults
deletes_fail = record (quiet 20) {
  rows = λ i. record (quiet_row 20) {
    open_fails = i == 1;
    cleanup = record { cancel = false; pend = false; remove = false; delete = true };
  };
}

abbrev lock_entry : String
lock_entry = "0123456789abcdef0123456789abcdef.part.lock"

abbrev orphan_entry : String
orphan_entry = "f123456789abcdef0123456789abcdef.part"

-- The old session has lost its row.
abbrev orphaned : World
orphaned = record world { sessions = (live_id, live_session) ∷ [] }

recover-full_example :
    recover (quiet 20) (pos 2) false (lock_entry ∷ orphan_entry ∷ []) orphaned
    ≡ (record { checked = 1; kept = 1; cancelled = 0; orphans = 0 }, (ok tt, orphaned))
unfolding upload_sessions unfinished_rows insert_row firsts page_limit status_eq recoverable_staging
    holds_offset lookup
recover-full_example =
    recover-full 20 (pos 2) (lock_entry ∷ orphan_entry ∷ []) orphaned ((refl, refl), tt)
      (lock_invalid, tt)

recover-Finished_example : Finished old_session (recover (quiet 20) (pos 64) false ("x" ∷ []) world)
unfolding upload_sessions unfinished_rows insert_row firsts page_limit status_eq recoverable_staging
    holds_offset lookup
recover-Finished_example =
    recover-Finished 20 (pos 64) ("x" ∷ []) old_session (live_session ∷ []) [] world refl refl refl
      refl world-Named
