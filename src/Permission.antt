-- ===== src/Permission.antt =====
-- internal/permission/authorize.go: the one authorization decision. The rows that the repository
-- returns for one user and root are an argument, `none` when the query fails. Log texts and
-- wrapped messages are left out of the errors.
pub mod Verdict
pub mod Authorize
pub mod Prefix
mod Tests
use safe_file_hub.Base.{
  ℕ, zero, suc, ◌+◌, Bool, true, false, not, ◌&&◌, ◌||◌, Option, none, some, List, [], ◌∷◌, ◌++◌,
  ltb, ◌==◌, if◌then◌else◌, Bytes, codes, bytes_eq, has_prefix, drop_prefix, length,
}
use safe_file_hub.Base.Int.{ℤ, pos, negsuc, ltb_ℤ, leb_ℤ, eq_ℤ}
use safe_file_hub.Base.Utf8.{normal_word}
use safe_file_hub.PathPolicy
use safe_file_hub.PathPolicy.{NamePolicy, LogicalPath, slash, parse_decoded_path}

-- The fields of `db.Permission` that the decision reads.
pub record Permission : Type 0 where
  pub path_prefix : Bytes
  pub action : Bytes
  pub allow : Bool

pub data Error : Type 0 where
  bad_path bad_action query_failed bad_stored_prefix : Error

pub data Result {ℓ} (A : Type ℓ) : Type ℓ where
  ok : A → Result A
  err : Error → Result A

-- `canonicalPath`; `none` is an error.
pub accept_same : Bytes → PathPolicy.Result LogicalPath → Option Bytes
accept_same value (PathPolicy.ok p) = if bytes_eq p.canonical value then some p.canonical else none
accept_same value (PathPolicy.err e) = none

pub canonical_path : (Bytes → Bytes) → Bytes → NamePolicy → Option Bytes
unfolding accept_same
canonical_path nfc value policy =
    if bytes_eq value (slash ∷ [])
    then some (slash ∷ [])
    else if has_prefix value (slash ∷ [])
    then accept_same value (parse_decoded_path nfc (drop_prefix value (slash ∷ [])) policy)
    else none

pub matches : Bytes → Bytes → Bool
matches path prefix =
    bytes_eq prefix (slash ∷ []) || (bytes_eq path prefix || has_prefix path (prefix ++ slash ∷ []))

-- The test of the action at the start of `Authorize`, with `TrimSpace` and `ToLower` before it.
pub normalize_action : Bytes → Option Bytes
normalize_action action =
    let a = normal_word action in
    if bytes_eq a (codes "read")
      || (bytes_eq a (codes "write")
          || (bytes_eq a (codes "delete") || bytes_eq a (codes "archive")))
    then some a
    else none

-- The three variables of the loop.
pub record Scan : Type 0 where
  pub best : ℤ
  pub allow : Bool
  pub denied : Bool

abbrev pub start : Scan
start = record { best = negsuc 0; allow = false; denied = false }

-- The end of the loop body, for a prefix of `n` bytes that matches.
pub consider : Scan → ℕ → Bool → Scan
consider s n allow =
    if ltb_ℤ s.best (pos n)
    then record { best = pos n; allow = allow; denied = not allow }
    else if eq_ℤ (pos n) s.best && not allow
    then record s { denied = true }
    else s

pub verdict : Scan → Bool
verdict s = leb_ℤ (pos 0) s.best && (s.allow && not s.denied)

-- The prefix of a row is read again by the policy of the day.
pub take_row : Bytes → Permission → Option Bytes → Scan → Option Scan
unfolding matches consider
take_row path p none s = none
take_row path p (some prefix) s =
    if matches path prefix then some (consider s (length prefix) p.allow) else some s

module _ (nfc : Bytes → Bytes) (policy : NamePolicy) (path action : Bytes) where
  pub scan_row : Permission → Scan → Option Scan
  unfolding take_row
  scan_row p s =
      if bytes_eq p.action action
      then take_row path p (canonical_path nfc p.path_prefix policy) s
      else some s

  pub scan : List Permission → Scan → Option Scan
  scan [] s = some s
  scan (p ∷ ps) s = elim (scan_row p s) [ none ↦ none | some s' ↦ scan ps s' ]

pub decide : Option Scan → Result Bool
unfolding verdict
decide none = err bad_stored_prefix
decide (some s) = ok (verdict s)

module _ (nfc : Bytes → Bytes) (policy : NamePolicy) where
  pub decide_rows : Bytes → Bytes → Option (List Permission) → Result Bool
  unfolding decide
  decide_rows path action none = err query_failed
  decide_rows path action (some rows) = decide (scan nfc policy path action rows start)

  pub decide_action : Bytes → Option Bytes → Option (List Permission) → Result Bool
  unfolding decide_rows
  decide_action path none rows = err bad_action
  decide_action path (some action) rows = decide_rows path action rows

  -- `Authorizer.Authorize`
  pub authorize_path : Option Bytes → Bytes → Option (List Permission) → Result Bool
  unfolding decide_action
  authorize_path none action rows = err bad_path
  authorize_path (some path) action rows = decide_action path (normalize_action action) rows

  pub authorize : Bytes → Bytes → Option (List Permission) → Result Bool
  unfolding authorize_path
  authorize logical_path action rows =
      authorize_path (canonical_path nfc logical_path policy) action rows
