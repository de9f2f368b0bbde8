-- ===== src/PathPolicy.antt =====
-- internal/pathpolicy/path.go: logical paths. A Go string is the list of its bytes. Unicode
-- normalisation to NFC (golang.org/x/text, no part of the repository) is the parameter `nfc`.
pub mod Safe
pub mod Canonical
pub mod Escaped
mod Tests
use safe_file_hub.Base.{
  ℕ, zero, suc, ◌+◌, ◌-◌, ◌*◌, Bool, true, false, not, ◌&&◌, ◌||◌, Option, none, some, List, [],
  ◌∷◌, ◌++◌, ltb, leb, ◌==◌, if◌then◌else◌, Bytes, codes, bytes_eq, has_prefix, split, join,
  contains_byte,
}
use safe_file_hub.Base.Utf8.{valid_string, runes, between}

-- `config.NamePolicy`
pub record NamePolicy : Type 0 where
  pub reject_leading_dot : Bool
  pub reject_leading_tilde : Bool
  pub reject_leading_dollar : Bool
  pub reject_leading_hash : Bool

-- `Path`
pub record LogicalPath : Type 0 where
  pub canonical : Bytes
  pub segments : List Bytes

pub data PathError : Type 0 where
  not_relative bad_escape double_encoding not_utf8 : PathError
  empty_segment traversal backslash drive_prefix trailing control reserved leading : PathError

pub data Result {ℓ} (A : Type ℓ) : Type ℓ where
  ok : A → Result A
  err : PathError → Result A

abbrev pub slash : ℕ
slash = b'/'

pub is_hex : ℕ → Bool
is_hex b = between b'0' b'9' b || (between b'a' b'f' b || between b'A' b'F' b)

-- A loop over `i` with `i+2 < len(s)`.
pub contains_percent_escape : Bytes → Bool
unfolding is_hex
contains_percent_escape (p ∷ a ∷ b ∷ s) =
    (p == b'%' && (is_hex a && is_hex b)) || contains_percent_escape (a ∷ b ∷ s)
contains_percent_escape _ = false

has_windows_drive_prefix : Bytes → Bool
has_windows_drive_prefix (a ∷ b ∷ s) = (between b'A' b'Z' a || between b'a' b'z' a) && (b == b':')
has_windows_drive_prefix _ = false

-- `base[:dot]` at the first dot, all of it without one
before_dot : Bytes → Bytes
before_dot [] = []
before_dot (c ∷ s) = let rest = before_dot s in if c == b'.' then [] else c ∷ rest

-- A rune and an ASCII capital or digit that `strings.EqualFold` takes for the same: K has the
-- Kelvin sign U+212A beside its two ASCII forms. (S, with U+017F, is in none of the names.)
folds_to : ℕ → ℕ → Bool
folds_to r c =
    (r == c) || ((between b'A' b'Z' c && (r == c + 32)) || ((c == b'K') && (r == 0x212A)))

equal_fold : List ℕ → Bytes → Bool
unfolding folds_to
equal_fold [] [] = true
equal_fold (r ∷ rs) (c ∷ cs) = folds_to r c && equal_fold rs cs
equal_fold _ _ = false

digits_1_to_9 : Bytes
digits_1_to_9 = codes "123456789"

-- The stem with each of the digits behind it.
numbered : Bytes → Bytes → List Bytes
numbered stem [] = []
numbered stem (d ∷ ds) = (stem ++ d ∷ []) ∷ numbered stem ds

reserved_names : List Bytes
unfolding numbered digits_1_to_9
reserved_names =
    codes "CON"
    ∷ codes "PRN"
    ∷ codes "AUX"
    ∷ codes "NUL"
    ∷ (numbered (codes "COM") digits_1_to_9
        ++ (numbered (codes "LPT") digits_1_to_9
            ++ (codes "KON"
                ∷ (numbered (codes "KOM") digits_1_to_9 ++ numbered (codes "KPT") digits_1_to_9))))

any_folds : List ℕ → List Bytes → Bool
unfolding equal_fold
any_folds rs [] = false
any_folds rs (n ∷ ns) = equal_fold rs n || any_folds rs ns

pub is_windows_reserved_name : Bytes → Bool
unfolding before_dot any_folds reserved_names
is_windows_reserved_name s = any_folds (runes (before_dot s)) reserved_names

rejects_leading : Bytes → NamePolicy → Bool
rejects_leading [] policy = false
rejects_leading (c ∷ s) policy =
    if c == b'.'
    then policy.reject_leading_dot
    else if c == b'~'
    then policy.reject_leading_tilde
    else if c == b'$'
    then policy.reject_leading_dollar
    else if c == b'#'
    then policy.reject_leading_hash
    else false

-- `strings.HasSuffix(s, " ") || strings.HasSuffix(s, ".")`
ends_badly : Bytes → Bool
ends_badly [] = false
ends_badly (c ∷ []) = (c == b' ') || (c == b'.')
ends_badly (c ∷ d ∷ s) = ends_badly (d ∷ s)

-- `r == 0 || unicode.IsControl(r)`
pub is_control : ℕ → Bool
is_control r = ltb r 0x20 || between 0x7F 0x9F r

pub any_control : List ℕ → Bool
unfolding is_control
any_control [] = false
any_control (r ∷ rs) = is_control r || any_control rs

abbrev pub dot : Bytes
dot = codes "."

abbrev pub dot_dot : Bytes
dot_dot = codes ".."

-- The first test that a segment fails; `none` for a segment that passes them all.
pub validate_segment : Bytes → NamePolicy → Option PathError
unfolding has_windows_drive_prefix ends_badly any_control is_windows_reserved_name rejects_leading
validate_segment s policy =
    if bytes_eq s []
    then some empty_segment
    else if bytes_eq s dot || bytes_eq s dot_dot
    then some traversal
    else if contains_byte b'\\' s
    then some backslash
    else if has_windows_drive_prefix s
    then some drive_prefix
    else if ends_badly s
    then some trailing
    else if any_control (runes s)
    then some control
    else if is_windows_reserved_name s
    then some reserved
    else if rejects_leading s policy
    then some leading
    else none

pub validate_all : List Bytes → NamePolicy → Option PathError
unfolding validate_segment
validate_all [] policy = none
validate_all (s ∷ ss) policy =
    let rest = validate_all ss policy in
    elim (validate_segment s policy) [ none ↦ rest | some e ↦ some e ]

pub unhex : ℕ → ℕ
unhex b =
    if between b'0' b'9' b
    then b - b'0'
    else if between b'a' b'f' b
    then b - b'a' + 10
    else b - b'A' + 10

pub prepend : ℕ → Option Bytes → Option Bytes
prepend c none = none
prepend c (some s) = some (c ∷ s)

-- `url.PathUnescape`; `none` is its error.
pub unescape : Bytes → Option Bytes
unfolding is_hex unhex prepend
unescape [] = some []
unescape (p ∷ a ∷ b ∷ s) =
    let escaped = prepend (unhex a * 16 + unhex b) (unescape s) in
    let plain = prepend p (unescape (a ∷ b ∷ s)) in
    if p == b'%' then (if is_hex a && is_hex b then escaped else none) else plain
unescape (c ∷ s) = let rest = prepend c (unescape s) in if c == b'%' then none else rest

abbrev pub root : LogicalPath
root = record { canonical = slash ∷ []; segments = [] }

pub path_of : List Bytes → LogicalPath
path_of segments = record { canonical = slash ∷ join slash segments; segments = segments }

module _ (nfc : Bytes → Bytes) where
  pub parse_segments : List Bytes → NamePolicy → Result LogicalPath
  unfolding validate_all path_of
  parse_segments segments policy = elim (validate_all segments policy) [
    | none ↦ ok (path_of segments)
    | some e ↦ err e
  ]

  -- `parseDecodedPath`
  pub parse_valid_path : Bytes → NamePolicy → Result LogicalPath
  unfolding parse_segments
  parse_valid_path decoded policy =
      if valid_string decoded
      then parse_segments (split slash (nfc decoded)) policy
      else err not_utf8

  -- `ParseDecodedPath`
  unfoldable pub parse_decoded_path : Bytes → NamePolicy → Result LogicalPath
  unfolding parse_valid_path
  parse_decoded_path decoded policy =
      if bytes_eq decoded (slash ∷ [])
      then ok root
      else if bytes_eq decoded [] || has_prefix decoded (slash ∷ [])
      then err not_relative
      else parse_valid_path decoded policy

  -- The rest of `ParseEscapedPath` once the text has been decoded.
  pub parse_unescaped : Option Bytes → NamePolicy → Result LogicalPath
  unfolding parse_valid_path contains_percent_escape
  parse_unescaped none policy = err bad_escape
  parse_unescaped (some decoded) policy =
      if contains_percent_escape decoded
      then err double_encoding
      else parse_valid_path decoded policy

  -- `ParseEscapedPath`, and `Parse`, which calls it
  unfoldable pub parse_escaped_path : Bytes → NamePolicy → Result LogicalPath
  unfolding parse_unescaped unescape
  parse_escaped_path raw policy =
      if bytes_eq raw (slash ∷ [])
      then ok root
      else if bytes_eq raw [] || has_prefix raw (slash ∷ [])
      then err not_relative
      else parse_unescaped (unescape raw) policy
