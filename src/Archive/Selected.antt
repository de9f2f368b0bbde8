-- ===== src/Archive/Selected.antt =====
-- What a request has shown when it passes the checks.
use safe_file_hub.Base.{
  ℕ, ◌+◌, ◌≤◌, ◌<◌, ◌≡◌, refl, Bool, true, false, Option, none, some, List, [], ◌∷◌, Bytes, length,
  All, arith, Option-cases, inl, inr,
}
use safe_file_hub.Base.Int.{ℤ, pos, negsuc}
use safe_file_hub.Archive.Selection.{
  Entry, Limits, safe_logical, within, add_size, is_negative, validate_entries, validate, ask,
  authorize_entries, check_create,
}

-- The bytes of a size; a negative one has none.
abbrev pub bytes_of : ℤ → ℕ
bytes_of (pos n) = n
bytes_of (negsuc n) = 0

abbrev pub total_size : List Entry → ℕ
total_size [] = 0
total_size (e ∷ es) = bytes_of e.size + total_size es

-- An entry below the root that may be archived.
pub record Chosen (allow : Bytes → Option Bool) (root : Bytes) (e : Entry) : Type 0 where
  pub safe : safe_logical e.logical_path ≡ true
  pub inside : within root e.logical_path ≡ true
  pub sized : (n : ℕ) × (e.size ≡ pos n)
  pub allowed : allow e.logical_path ≡ some true

add_size-some :
    (max total : ℕ) (z : ℤ) {n : ℕ}
    → total ≤ max
    → add_size max total z ≡ some n
    → (n ≡ total + bytes_of z) × (n ≤ max)
unfolding add_size
add_size-some max total (negsuc k) b h = absurd (ground (arith, h))
add_size-some max total (pos k) b h = ground (arith, h, b)

not_negative : (z : ℤ) → is_negative z ≡ false → (n : ℕ) × (z ≡ pos n)
unfolding is_negative
not_negative (pos n) h = (n, refl)
not_negative (negsuc n) h = absurd (ground (arith, h))

entries_pass :
    (allow : Bytes → Option Bool) (root : Bytes) (max total : ℕ) (es : List Entry)
    → total ≤ max
    → validate_entries root max total es ≡ none
    → authorize_entries allow es ≡ none
    → All (Chosen allow root) es × (total + total_size es ≤ max)
unfolding validate_entries authorize_entries ask
entries_pass allow root max total [] b v a = (tt, omega (arith, b))
entries_pass allow root max total (e ∷ es) b v a = elim (Option-cases (add_size max total e.size)) [
  | inl k ↦ absurd (ground (arith, k, v))
  | inr (n, k) ↦
      let (c, d) = add_size-some max total e.size b k in
      let (rest, bound) =
        entries_pass allow root max n es d (ground (arith, k, v)) (ground (arith, a)) in
      let chosen : Chosen allow root e = record {
        safe = ground (arith, v);
        inside = ground (arith, v);
        sized = not_negative e.size (ground (arith, v));
        allowed = ground (arith, a);
      } in
      ((chosen, rest), omega (arith, c, bound))
]

-- A request that passes all checks.
pub record Passed (allow : Bytes → Option Bool) (root : Bytes) (es : List Entry) (o : Limits)
    : Type 0 where
  pub root_safe : safe_logical root ≡ true
  pub some_files : 0 < length es
  pub not_too_many : length es ≤ o.max_files
  pub chosen : All (Chosen allow root) es
  pub fits : total_size es ≤ o.max_bytes

-- Where the checks of `create` refuse nothing, the selection is not empty and within the limit on its
-- number, every entry is a safe path below the root with a size that is not negative and the
-- permission to archive it, and the sizes together are within the limit.
pub check_create-Passed :
    (allow : Bytes → Option Bool) (root : Bytes) (es : List Entry) (o : Limits)
    → check_create allow root es o ≡ none
    → Passed allow root es o
unfolding check_create validate
check_create-Passed allow root es o h =
    let a : validate root es o ≡ none = ground (arith, h) in
    let b : authorize_entries allow es ≡ none = ground (arith, h) in
    let (chosen, fits) =
      entries_pass allow root o.max_bytes 0 es (omega arith) (ground (arith, a)) b in
    record {
      root_safe = ground (arith, a);
      some_files = ground (arith, a);
      not_too_many = ground (arith, a);
      chosen = chosen;
      fits = omega (arith, fits);
    }
