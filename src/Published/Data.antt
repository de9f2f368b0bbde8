-- ===== src/Published/Data.antt =====
-- The state that the handlers share: rows of `files` and of the cleanup queue, and the objects.
use safe_file_hub.Base.{ℕ, String, Bool, List, Bytes}
use safe_file_hub.Base.Store.{Table}

pub data DeleteState : Type 0 where
  active deleting : DeleteState

-- `db.File`
pub record FileRow : Type 0 where
  pub id : ℕ
  pub root_id : ℕ
  pub logical_path : Bytes
  pub object_key : String
  pub size : ℕ
  pub created_by_user_id : ℕ
  pub delete_state : DeleteState

pub record Hub : Type 0 where
  pub files : List FileRow
  -- root and path of each row of `directories`
  pub directories : List (ℕ × Bytes)
  pub roots : List ℕ
  -- the keys of `object_cleanup_jobs`, oldest first
  pub cleanup_jobs : List String
  pub objects : Table Bytes
  pub next_file_id : ℕ

pub data Failure : Type 0 where
  not_found conflict failed : Failure

pub data Answer (A : Type 0) : Type 0 where
  ok : A → Answer A
  err : Failure → Answer A

-- `Authorize` for a user, a root, a path and an action.
abbrev pub Authorizer : Type 0
Authorizer = ℕ → ℕ → Bytes → String → Answer Bool

-- The status of a response, and the state behind the request.
abbrev pub Response : Type 0
Response = ℕ × Hub
