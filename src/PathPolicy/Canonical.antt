-- ===== src/PathPolicy/Canonical.antt =====
-- Parsing is idempotent: a canonical path without its slash is read as itself.
use safe_file_hub.Base.{
  ◌≡◌, ◌≢◌, refl, ◌⊎◌, inl, inr, true, false, none, List, [], ◌∷◌, Bytes, bytes_eq, split, arith,
  Bool-cases, has_prefix, ◌==◌,
}
use safe_file_hub.Base.Utf8.{valid_string}
use safe_file_hub.Base.Split.{join-split}
use safe_file_hub.PathPolicy.{
  NamePolicy, LogicalPath, ok, slash, root, path_of, validate_all, validate_segment, parse_segments,
  parse_valid_path, parse_decoded_path,
}

-- What golang.org/x/text promises of NFC: normalising twice is normalising once, and valid UTF-8
-- stays valid.
pub record IsNormalForm (nfc : Bytes → Bytes) : Type 0 where
  pub idem : (s : Bytes) → nfc (nfc s) ≡ nfc s
  pub valid : (s : Bytes) → valid_string s ≡ true → valid_string (nfc s) ≡ true

empty_invalid : (policy : NamePolicy) (ss : List Bytes) → validate_all ([] ∷ ss) policy ≢ none
unfolding validate_all validate_segment bytes_eq
empty_invalid policy ss h = ground arith

-- A text whose words pass does not begin with a slash, and is not empty.
starts_with_name :
    (policy : NamePolicy) (s : Bytes)
    → validate_all (split slash s) policy ≡ none
    → (bytes_eq s [] ≡ false)
      × (has_prefix s (slash ∷ []) ≡ false)
      × (bytes_eq s (slash ∷ []) ≡ false)
unfolding split bytes_eq has_prefix
starts_with_name policy [] h = absurd (empty_invalid policy [] h)
starts_with_name policy (c ∷ s) h = elim (Bool-cases (c == slash)) [
  | inl e ↦ absurd (empty_invalid policy (split slash s) (ground (arith, e, h)))
  | inr e ↦ ground arith
]

inversion :
    (nfc : Bytes → Bytes) (d : Bytes) (policy : NamePolicy) {p : LogicalPath}
    → parse_valid_path nfc d policy ≡ ok p
    → (valid_string d ≡ true)
      × (validate_all (split slash (nfc d)) policy ≡ none)
      × (p ≡ path_of (split slash (nfc d)))
unfolding parse_valid_path parse_segments
inversion nfc d policy h = ground arith

parse_valid_path-again :
    (nfc : Bytes → Bytes) (d : Bytes) (policy : NamePolicy)
    → IsNormalForm nfc
    → valid_string d ≡ true
    → validate_all (split slash (nfc d)) policy ≡ none
    → parse_decoded_path nfc (nfc d) policy ≡ ok (path_of (split slash (nfc d)))
unfolding parse_decoded_path parse_segments
parse_valid_path-again nfc d policy n v h =
    let start = starts_with_name policy (nfc d) h in
    rw (start.2, start.0, start.1, n.valid d v, n.idem d) (ground (arith, h))

relative_inversion :
    (nfc : Bytes → Bytes) (d : Bytes) (policy : NamePolicy) {p : LogicalPath}
    → parse_decoded_path nfc d policy ≡ ok p
    → (p ≡ root) ⊎ (parse_valid_path nfc d policy ≡ ok p)
unfolding parse_decoded_path
relative_inversion nfc d policy h = ground arith

-- A path that is accepted is the root, or its canonical text without the slash is accepted again
-- with the same result, if NFC is a normal form that keeps UTF-8 valid.
pub parse_decoded_path_idem :
    (nfc : Bytes → Bytes) (d : Bytes) (policy : NamePolicy) {p : LogicalPath}
    → IsNormalForm nfc
    → parse_decoded_path nfc d policy ≡ ok p
    → (p ≡ root)
      ⊎ ((t : Bytes) × (p.canonical ≡ slash ∷ t) × (parse_decoded_path nfc t policy ≡ ok p))
unfolding path_of
parse_decoded_path_idem nfc d policy n h = elim (relative_inversion nfc d policy h) [
  | inl r ↦ inl r
  | inr q ↦
      let i = inversion nfc d policy q in
      inr (nfc d, rw (i.2, join-split) refl, rw i.2 (parse_valid_path-again nfc d policy n i.0 i.1))
]
