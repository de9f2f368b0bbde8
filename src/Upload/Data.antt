-- ===== src/Upload/Data.antt =====
-- The state of uploads: rows, staging files and objects, and the results of operations.
use safe_file_hub.Base.{ℕ, String, Bool, Option, none, some, List, Bytes}
use safe_file_hub.Base.Store.{Table}

pub data Status : Type 0 where
  active cancelled cleanup_pending complete : Status

-- `db.UploadSession`
pub record UploadSession : Type 0 where
  pub id : String
  pub user_id : ℕ
  pub root_id : ℕ
  pub logical_path : String
  pub staging_path : String
  pub offset : ℕ
  pub length : ℕ
  pub status : Status
  pub expires_at : ℕ

-- `db.File`, without its timestamps, digest and deletion state
pub record File : Type 0 where
  pub id : ℕ
  pub root_id : ℕ
  pub logical_path : String
  pub object_key : String
  pub size : ℕ
  pub created_by_user_id : ℕ
  -- `md5_status` of a new row: pending or disabled
  pub md5_pending : Bool

pub record World : Type 0 where
  pub sessions : Table UploadSession
  pub staging : Table Bytes
  pub objects : Table Bytes
  pub files : List File
  -- root and path of each row of `directories`
  pub directories : List (ℕ × String)
  pub md5_enabled : Bool
  -- the file ids of `md5_tasks`
  pub md5_tasks : List ℕ
  -- the row id that the next insert into `files` gets
  pub next_file_id : ℕ

pub data Error : Type 0 where
  not_found conflict too_large incomplete checksum failed : Error
  -- `ErrOffset`, with the offset that is returned beside it
  offset_conflict : ℕ → Error

pub data Result {ℓ} (A : Type ℓ) : Type ℓ where
  ok : A → Result A
  err : Error → Result A

abbrev pub Outcome : Type 0 → Type 0
Outcome A = Result A × World

-- Runs the rest on the value of a step that did not fail, in the state that the step left.
abbrev pub and_then : {A B : Type 0} → Outcome A → (A → World → Outcome B) → Outcome B
and_then (ok a, w) rest = rest a w
and_then (err e, w) rest = (err e, w)

abbrev pub found : Option UploadSession → Result UploadSession
found none = err not_found
found (some s) = ok s
