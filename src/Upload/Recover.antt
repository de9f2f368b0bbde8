-- ===== src/Upload/Recover.antt =====
-- `Recover` of internal/upload/session.go, with `UploadSessions` and `StagingNames`.
--
-- The entries of the staging directory are an argument, in the order in which the system lists them:
-- parts, and the files of their lifecycle locks. For each row and each name there is a record of what
-- fails and of what other processes do meanwhile.
use Prim.Native.String.{len, slice, find, compare, ◌++◌ as append_str}
use text.Mathlib.Text.{starts_with, is_lt}
use safe_file_hub.Base.{
  ℕ, zero, suc, ◌-◌, String, Bool, true, false, not, ◌&&◌, ◌||◌, Option, none, some, List, [], ◌∷◌,
  ltb, leb, ◌==◌, str_eq, if◌then◌else◌, Bytes, length,
}
use safe_file_hub.Base.Int.{ℤ, pos, negsuc}
use safe_file_hub.Base.Store.{Table, lookup}
use safe_file_hub.Upload.Data.{
  complete, UploadSession, World, Result, ok, err, Error, not_found, conflict, too_large,
  incomplete, checksum, failed, offset_conflict, Outcome, and_then,
}
use safe_file_hub.Upload.Rows.{status_eq, session_by_id}
use safe_file_hub.Upload.Staging.{remove_staging}
use safe_file_hub.Upload.Lock.{Lock, with_lifecycle_lock, is_live}
use safe_file_hub.Upload.Manager.{CleanupFaults, cleanup_locked}

unfoldable pub trim_prefix : String → String → String
trim_prefix s p = if starts_with s p then slice s (len p) (len s) else s

unfoldable pub ends_with : String → String → Bool
ends_with s p = leb (len p) (len s) && str_eq (slice s (len s - len p) (len s)) p

unfoldable pub trim_suffix : String → String → String
unfolding ends_with
trim_suffix s p = if ends_with s p then slice s 0 (len s - len p) else s

-- `validStagingName`
unfoldable pub valid_staging_name : String → Bool
unfolding trim_prefix ends_with
valid_staging_name name =
    let rest = trim_prefix name "staging/" in
    starts_with name "staging/"
    && (len rest == 37 && (ends_with name ".part" && not (leb (find rest "/") (len rest))))

-- The id in the name of a part.
unfoldable pub id_of_name : String → String
unfolding trim_prefix trim_suffix
id_of_name name = trim_suffix (trim_prefix name "staging/") ".part"

unfoldable pub firsts {ℓ} : {A : Type ℓ} → ℕ → List A → List A
firsts zero xs = []
firsts (suc n) [] = []
firsts (suc n) (x ∷ xs) = x ∷ firsts n xs

-- ORDER BY id
unfoldable pub insert_row : UploadSession → List UploadSession → List UploadSession
insert_row s [] = s ∷ []
insert_row s (r ∷ rest) =
    let later = insert_row s rest in if is_lt (compare r.id s.id) then r ∷ later else s ∷ r ∷ rest

-- The rows of one of the three statuses.
unfoldable pub unfinished_rows : Table UploadSession → List UploadSession
unfolding insert_row status_eq
unfinished_rows [] = []
unfinished_rows ((id, s) ∷ rest) =
    let later = unfinished_rows rest in
    if status_eq s.status complete then later else insert_row s later

-- `UploadSessions`
unfoldable pub upload_sessions : ℕ → World → List UploadSession
unfolding firsts unfinished_rows
upload_sessions limit w = firsts limit (unfinished_rows w.sessions)

unfoldable pub valid_names : List String → List String
unfolding valid_staging_name
valid_names [] = []
valid_names (entry ∷ entries) =
    let rest = valid_names entries in
    let name = append_str "staging/" entry in if valid_staging_name name then name ∷ rest else rest

-- `StagingNames`
unfoldable pub staging_names : Bool → ℕ → List String → Result (List String)
unfolding valid_names firsts
staging_names fails zero listing = ok []
staging_names fails (suc n) listing =
    if fails then err failed else ok (valid_names (firsts (suc n) listing))

-- What happens to one row: whether the context is done, the time, and what fails.
pub record RowFaults : Type 0 where
  pub stop : Bool
  pub now : ℕ
  pub open_fails : Bool
  pub stat_fails : Bool
  pub lock : Lock
  pub cleanup : CleanupFaults

unfoldable pub holds_offset : ℕ → Option Bytes → Bool
holds_offset offset none = false
holds_offset offset (some content) = length content == offset

-- `recoverableStaging`
unfoldable pub recoverable_staging : RowFaults → UploadSession → World → Bool
unfolding status_eq holds_offset
recoverable_staging f s w =
    is_live f.now s
    && (not f.open_fails
        && (not f.stat_fails && holds_offset s.offset (lookup s.staging_path w.staging)))

-- The function under the lock: whether the session is kept.
unfoldable pub keep_or_clean : RowFaults → UploadSession → World → Outcome Bool
unfolding recoverable_staging
keep_or_clean f s w =
    if recoverable_staging f s w
    then (ok true, w)
    else and_then (cleanup_locked f.cleanup s w) (λ _ w'. (ok false, w'))

unfoldable pub recover_row : RowFaults → Bool → UploadSession → World → Outcome Bool
unfolding recoverable_staging
recover_row f dry_run s w =
    if dry_run
    then (ok (recoverable_staging f s w), w)
    else with_lifecycle_lock f.lock s.id (keep_or_clean f) w

-- `RecoveryReport`
pub record RecoveryReport : Type 0 where
  pub checked : ℕ
  pub kept : ℕ
  pub cancelled : ℕ
  pub orphans : ℕ

abbrev pub Recovered : Type 0
Recovered = RecoveryReport × Outcome Unit

unfoldable pub is_not_found : Error → Bool
is_not_found not_found = true
is_not_found conflict = false
is_not_found too_large = false
is_not_found incomplete = false
is_not_found checksum = false
is_not_found failed = false
is_not_found (offset_conflict n) = false

abbrev pub count_cancelled : RecoveryReport → RecoveryReport
count_cancelled r = record r { cancelled = suc r.cancelled }

-- The rest of the loop's body, and then the rest of the loop.
unfoldable pub after_row :
    Outcome Bool → RecoveryReport → (RecoveryReport → World → Recovered) → Recovered
unfolding is_not_found
after_row (ok true, w) r rest = rest (record r { kept = suc r.kept }) w
after_row (ok false, w) r rest = rest (count_cancelled r) w
after_row (err e, w) r rest = if is_not_found e then rest (count_cancelled r) w else (r, (err e, w))

-- The loop over the rows; row `i` meets the failures `fs i`.
unfoldable pub recover_rows :
    (ℕ → RowFaults) → Bool → ℕ → List UploadSession → RecoveryReport → World → Recovered
unfolding after_row
recover_rows fs dry_run i [] r w = (r, (ok tt, w))
recover_rows fs dry_run i (s ∷ ss) r w =
    let next = after_row (recover_row (fs i) dry_run s w) r (recover_rows fs dry_run (suc i) ss) in
    if (fs i).stop then (r, (err failed, w)) else next

pub record NameFaults : Type 0 where
  pub stop : Bool
  pub read : Bool
  pub lock : Bool
  pub others : World → World
  pub reread : Bool
  pub remove : Bool
  pub unlock : Bool

-- From the unlock on.
unfoldable pub after_check :
    Bool → Outcome Unit → RecoveryReport → (RecoveryReport → World → Recovered) → Recovered
unfolding is_not_found
after_check unlock (ok _, w) r rest = if unlock then (r, (err failed, w)) else rest r w
after_check unlock (err e, w) r rest =
    if not (is_not_found e)
    then (r, (err e, w))
    else if unlock
    then (r, (err failed, w))
    else rest r w

-- Under the lock of the name, with the second answer of the database.
unfoldable pub check_orphan :
    NameFaults
    → Bool
    → String
    → Result UploadSession
    → RecoveryReport
    → World
    → (RecoveryReport → World → Recovered)
    → Recovered
unfolding after_check
check_orphan f dry_run name (ok s) r w rest = after_check f.unlock (ok tt, w) r rest
check_orphan f dry_run name (err e) r w rest =
    if is_not_found e
    then after_check f.unlock
        (if dry_run then (err not_found, w) else remove_staging f.remove name w)
        (record r { orphans = suc r.orphans }) rest
    else after_check f.unlock (err e, w) r rest

-- The first answer of the database, and the lock.
unfoldable pub recover_name :
    NameFaults
    → Bool
    → String
    → Result UploadSession
    → RecoveryReport
    → World
    → (RecoveryReport → World → Recovered)
    → Recovered
unfolding check_orphan
recover_name f dry_run name (ok s) r w rest = rest r w
recover_name f dry_run name (err e) r w rest =
    let counted : RecoveryReport = record r { checked = suc r.checked } in
    let w' = f.others w in
    if not (is_not_found e)
    then (r, (err e, w))
    else if f.lock
    then (counted, (err failed, w))
    else check_orphan f dry_run name (session_by_id f.reread (id_of_name name) w') counted w' rest

unfoldable pub is_seen : String → List UploadSession → Bool
is_seen name [] = false
is_seen name (s ∷ ss) = str_eq s.staging_path name || is_seen name ss

-- The loop over the names.
unfoldable pub recover_names :
    (ℕ → NameFaults)
    → Bool
    → List UploadSession
    → ℕ
    → List String
    → RecoveryReport
    → World
    → Recovered
unfolding recover_name is_seen
recover_names fs dry_run rows i [] r w = (r, (ok tt, w))
recover_names fs dry_run rows i (name ∷ names) r w =
    let rest = recover_names fs dry_run rows (suc i) names in
    if is_seen name rows
    then rest r w
    else if (fs i).stop
    then (r, (err failed, w))
    else recover_name (fs i) dry_run name (session_by_id (fs i).read (id_of_name name) w) r w rest

pub record RecoverFaults : Type 0 where
  pub stop : Bool
  pub query : Bool
  pub list : Bool
  pub rows : ℕ → RowFaults
  pub names : ℕ → NameFaults

unfoldable pub page_limit : ℤ → ℕ
page_limit (negsuc n) = 64
page_limit (pos n) = if n == 0 || ltb 64 n then 64 else n

abbrev pub new_report : ℕ → RecoveryReport
new_report n = record { checked = n; kept = 0; cancelled = 0; orphans = 0 }

unfoldable pub then_names : Recovered → (RecoveryReport → World → Recovered) → Recovered
then_names (r, (ok _, w)) rest = rest r w
then_names (r, (err e, w)) rest = (r, (err e, w))

-- Both loops.
unfoldable pub recover_listed :
    RecoverFaults → Bool → List UploadSession → Result (List String) → World → Recovered
unfolding recover_rows recover_names then_names
recover_listed f dry_run rows (err e) w = (new_report 0, (err e, w))
recover_listed f dry_run rows (ok names) w =
    then_names (recover_rows f.rows dry_run 0 rows (new_report (length rows)) w)
      (recover_names f.names dry_run rows 0 names)

-- `Recover`
unfoldable pub recover : RecoverFaults → ℤ → Bool → List String → World → Recovered
unfolding recover_listed upload_sessions staging_names page_limit
recover f limit dry_run listing w =
    let n = page_limit limit in
    let rows = upload_sessions n w in
    if f.stop || f.query
    then (new_report 0, (err failed, w))
    else recover_listed f dry_run rows (staging_names f.list (n - length rows) listing) w
