-- ===== src/PathPolicy/Escaped.antt =====
-- Escaped paths: percent-encoding every byte of a path is undone by the parser, and a path that
-- still holds an escape after one decoding is refused.
use safe_file_hub.Base.{
  ℕ, ◌+◌, ◌-◌, ◌/◌, ◌%◌, ◌<◌, ◌≡◌, ◌≢◌, refl, true, false, some, [], ◌∷◌, Bytes, All, bytes_eq,
  has_prefix, if◌then◌else◌, ltb, arith,
}
use safe_file_hub.PathPolicy.{
  NamePolicy, err, double_encoding, slash, is_hex, unhex, unescape, contains_percent_escape,
  parse_escaped_path, parse_decoded_path,
}

-- The digit of a value below 16.
hex_digit : ℕ → ℕ
hex_digit n = if ltb n 10 then b'0' + n else b'A' + (n - 10)

-- Every byte as a percent sign and two hexadecimal digits.
pub escape_all : Bytes → Bytes
escape_all [] = []
escape_all (c ∷ s) = b'%' ∷ hex_digit (c / 16) ∷ hex_digit (c % 16) ∷ escape_all s

abbrev pub IsByte : ℕ → Type 0
IsByte c = c < 256

hex_digit-hex : (n : ℕ) → n < 16 → (is_hex (hex_digit n) ≡ true) × (unhex (hex_digit n) ≡ n)
unfolding hex_digit is_hex unhex
hex_digit-hex n h = ground arith

unescape-escape_all : (s : Bytes) → All IsByte s → unescape (escape_all s) ≡ some s
unfolding unescape escape_all
unescape-escape_all [] h = refl
unescape-escape_all (c ∷ s) h =
    let hi = hex_digit-hex (c / 16) (omega (arith, h.0)) in
    let lo = hex_digit-hex (c % 16) (omega arith) in
    rw (hi.0, lo.0, hi.1, lo.1, unescape-escape_all s h.1) (ground arith)

escape_all-relative :
    (c : ℕ) (s : Bytes)
    → (bytes_eq (escape_all (c ∷ s)) (slash ∷ []) ≡ false)
      × (bytes_eq (escape_all (c ∷ s)) [] ≡ false)
      × (has_prefix (escape_all (c ∷ s)) (slash ∷ []) ≡ false)
unfolding escape_all bytes_eq has_prefix
escape_all-relative c s = (refl, refl, refl)

not_root : (d : Bytes) → has_prefix d (slash ∷ []) ≡ false → bytes_eq d (slash ∷ []) ≡ false
unfolding bytes_eq has_prefix
not_root [] h = refl
not_root (c ∷ s) h = ground arith

-- A relative path with every byte percent-encoded is read as the path itself is when it is given
-- decoded, and is refused for its double encoding exactly when the path still holds an escape.
pub parse_escaped_path-escape_all :
    (nfc : Bytes → Bytes) (d : Bytes) (policy : NamePolicy)
    → All IsByte d
    → d ≢ []
    → has_prefix d (slash ∷ []) ≡ false
    → parse_escaped_path nfc (escape_all d) policy
      ≡ (if contains_percent_escape d then err double_encoding else parse_decoded_path nfc d policy)
unfolding parse_escaped_path parse_decoded_path bytes_eq
parse_escaped_path-escape_all nfc [] policy b n r = absurd (n refl)
parse_escaped_path-escape_all nfc (c ∷ s) policy b n r =
    let e = escape_all-relative c s in
    rw (e.0, e.1, e.2, unescape-escape_all (c ∷ s) b, not_root (c ∷ s) r, r) refl
