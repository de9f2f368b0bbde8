-- ===== src/Archive/Selection.antt =====
-- `validate`, and the part of `create` that looks at the request.
use safe_file_hub.Base.{
  ℕ, ◌+◌, ◌-◌, Bool, true, false, not, ◌&&◌, ◌||◌, Option, none, some, List, [], ◌∷◌, ◌++◌, ltb,
  ◌==◌, if◌then◌else◌, Bytes, bytes_eq, codes, length, has_prefix, trim_prefix, split, join,
  contains_byte,
}
use safe_file_hub.Base.Int.{ℤ, pos, negsuc}

-- `Entry`
pub record Entry : Type 0 where
  pub logical_path : Bytes
  pub object_key : Bytes
  pub size : ℤ

pub record Limits : Type 0 where
  pub max_files : ℕ
  pub max_bytes : ℕ

abbrev slash : Bytes
slash = codes "/"

unfoldable pub is_dots : Bytes → Bool
is_dots s = bytes_eq s (codes ".") || bytes_eq s (codes "..")

unfoldable pub bad_segment : Bytes → Bytes → Bool
unfolding is_dots
bad_segment v s = (bytes_eq s [] && not (bytes_eq v slash)) || is_dots s

unfoldable pub any_bad : Bytes → List Bytes → Bool
unfolding bad_segment
any_bad v [] = false
any_bad v (s ∷ ss) = let rest = any_bad v ss in bad_segment v s || rest

-- The segments that `path.Clean` keeps of a rooted path, the last one first.
unfoldable pub clean_segments : List Bytes → List Bytes → List Bytes
clean_segments done [] = done
clean_segments done (s ∷ ss) =
    clean_segments
      (if bytes_eq s [] || bytes_eq s (codes ".")
        then done
        else if bytes_eq s (codes "..")
        then (elim done [ [] ↦ [] | d ∷ ds ↦ ds ])
        else s ∷ done)
      ss

unfoldable pub reversed : List Bytes → List Bytes → List Bytes
reversed [] out = out
reversed (s ∷ ss) out = reversed ss (s ∷ out)

-- `path.Clean` of a rooted path.
unfoldable pub clean : Bytes → Bytes
unfolding clean_segments reversed
clean v = slash ++ join b'/' (reversed (clean_segments [] (split b'/' v)) [])

-- `safeLogical`
unfoldable pub safe_logical : Bytes → Bool
unfolding any_bad clean
safe_logical v =
    if not (has_prefix v slash) || (contains_byte b'\\' v || contains_byte 0 v)
    then false
    else if any_bad v (split b'/' (trim_prefix v slash))
    then false
    else bytes_eq (clean v) v

-- `within`
unfoldable pub within : Bytes → Bytes → Bool
within root p = bytes_eq root slash || (bytes_eq p root || has_prefix p (root ++ slash))

pub data Refusal : Type 0 where
  bad_selection bad_entry too_large forbidden failed : Refusal

-- What is wrong with a size, or the new total.
unfoldable pub add_size : ℕ → ℕ → ℤ → Option ℕ
add_size max total (negsuc n) = none
add_size max total (pos n) = if ltb (max - total) n then none else some (total + n)

unfoldable pub is_negative : ℤ → Bool
is_negative (negsuc n) = true
is_negative (pos n) = false

-- The loop of `validate`: the first refusal.
unfoldable pub validate_entries : Bytes → ℕ → ℕ → List Entry → Option Refusal
unfolding safe_logical within is_negative add_size
validate_entries root max total [] = none
validate_entries root max total (e ∷ es) =
    if not (safe_logical e.logical_path)
      || (not (within root e.logical_path) || (bytes_eq e.object_key [] || is_negative e.size))
    then some bad_entry
    else (elim (add_size max total e.size) [
      | none ↦ some too_large
      | some total' ↦ validate_entries root max total' es
    ])

-- `validate`
unfoldable pub validate : Bytes → List Entry → Limits → Option Refusal
unfolding safe_logical validate_entries
validate root es o =
    if not (safe_logical root) || (length es == 0 || ltb o.max_files (length es))
    then some bad_selection
    else validate_entries root o.max_bytes 0 es

-- The authorizer's answer: none is an error.
unfoldable pub ask : Option Bool → Option Refusal → Option Refusal
ask none rest = some failed
ask (some true) rest = rest
ask (some false) rest = some forbidden

unfoldable pub authorize_entries : (Bytes → Option Bool) → List Entry → Option Refusal
unfolding ask
authorize_entries allow [] = none
authorize_entries allow (e ∷ es) =
    let rest = authorize_entries allow es in ask (allow e.logical_path) rest

-- `create` up to the new id.
unfoldable pub check_create : (Bytes → Option Bool) → Bytes → List Entry → Limits → Option Refusal
unfolding validate authorize_entries
check_create allow root es o = elim (validate root es o) [
  | some r ↦ some r
  | none ↦ authorize_entries allow es
]
