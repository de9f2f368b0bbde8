-- ===== src/Download/Forms.antt =====
-- The three forms of a header, and what each of them selects.
use safe_file_hub.Base.{
  ℕ, ◌+◌, ◌-◌, ◌*◌, ◌<◌, ◌≡◌, ◌≢◌, refl, false, ◌||◌, none, some, [], ◌∷◌, ◌++◌, ltb, leb, ◌==◌,
  if◌then◌else◌, Bytes, has_prefix-append, drop_prefix-append, contains_byte, arith,
}
use safe_file_hub.Base.Int.{pos}
use safe_file_hub.Base.Split.{Lacks, Lacks-append, split-append, split-Lacks}
use safe_file_hub.Download.{
  digits, is_digit, int64_limit, clamp_end, range_to, range_of_parts, range_of_spec, parse_int,
  parse_range, bytes_unit,
}

-- Decimal digits for `n`, which an int64 can hold.
pub record IsNumber (s : Bytes) (n : ℕ) : Type 0 where
  pub nonempty : s ≢ []
  pub value : digits 0 s ≡ some n
  pub small : n < int64_limit

digits-Lacks :
    (b acc : ℕ) (s : Bytes) {n : ℕ} → digits acc s ≡ some n → is_digit b ≡ false → Lacks b s
unfolding digits is_digit contains_byte
digits-Lacks b acc [] h d = refl
digits-Lacks b acc (c ∷ s) {n} h d =
    ground (arith, digits-Lacks b (acc * 10 + (c - b'0')) s {n = n})

number-Lacks : (b : ℕ) (s : Bytes) {n : ℕ} → IsNumber s n → is_digit b ≡ false → Lacks b s
number-Lacks b s h d = digits-Lacks b 0 s h.value d

plus : is_digit b'+' ≡ false
unfolding is_digit
plus = refl

dash : is_digit b'-' ≡ false
unfolding is_digit
dash = refl

comma : is_digit b',' ≡ false
unfolding is_digit
comma = refl

-- An explicit plus sign does not change the value.
parse_int_plus : (s : Bytes) {n : ℕ} → IsNumber s n → parse_int (b'+' ∷ s) ≡ some (pos n)
unfolding parse_int
parse_int_plus [] h = absurd (h.nonempty refl)
parse_int_plus (c ∷ s) h = ground (arith, h.value, h.small)

parse_int_number : (s : Bytes) {n : ℕ} → IsNumber s n → parse_int s ≡ some (pos n)
unfolding parse_int contains_byte
parse_int_number [] h = absurd (h.nonempty refl)
parse_int_number (c ∷ s) h =
    ground
      (arith, h.value, h.small, number-Lacks b'+' (c ∷ s) h plus, number-Lacks b'-' (c ∷ s) h dash)

contains_nil : (b : ℕ) → contains_byte b [] ≡ false
unfolding contains_byte
contains_nil b = refl

spec_of :
    (spec : Bytes) (size : ℕ)
    → parse_range (bytes_unit ++ spec) (pos size) ≡ range_of_spec spec size
unfolding parse_range
spec_of spec size = rw (has_prefix-append bytes_unit spec, drop_prefix-append bytes_unit spec)

-- The headers `bytes=first-last`, with what stands on the two sides of the dash.
abbrev pub header_of : Bytes → Bytes → Bytes
header_of first last = bytes_unit ++ (first ++ b'-' ∷ last)

parts_of :
    (first last : Bytes) (size : ℕ)
    → Lacks b'-' first
    → Lacks b'-' last
    → Lacks b',' first
    → Lacks b',' last
    → parse_range (header_of first last) (pos size) ≡ range_of_parts (first ∷ last ∷ []) size
unfolding range_of_spec contains_byte
parts_of first last size hf hl cf cl =
    rw
      (
        spec_of (first ++ b'-' ∷ last) size,
        range_of_spec,
        split-append b'-' first last hf,
        split-Lacks b'-' last hl,
        Lacks-append b',' first (b'-' ∷ last) cf cl,
      )
      (ground arith)

parts_of_numbers :
    (first last : Bytes) (size : ℕ) {a b : ℕ}
    → IsNumber first a
    → IsNumber last b
    → parse_range (header_of first last) (pos size) ≡ range_of_parts (first ∷ last ∷ []) size
parts_of_numbers first last size ha hb =
    parts_of first last size (number-Lacks b'-' first ha dash) (number-Lacks b'-' last hb dash)
      (number-Lacks b',' first ha comma) (number-Lacks b',' last hb comma)

-- A range with both ends: refused when it starts past the end of the file or ends before it
-- starts, and otherwise cut off at the last byte.
parse_range-closed :
    (first last : Bytes) (a b size : ℕ)
    → IsNumber first a
    → IsNumber last b
    → parse_range (header_of first last) (pos size) ≡ (
        if leb size a || ltb b a
        then none
        else some (record { start = a; length = (if leb size b then size - 1 else b) - a + 1 }))
unfolding range_of_parts range_to clamp_end
parse_range-closed [] last a b size ha hb = absurd (ha.nonempty refl)
parse_range-closed (c ∷ s) [] a b size ha hb = absurd (hb.nonempty refl)
parse_range-closed (c ∷ s) (d ∷ t) a b size ha hb =
    rw (parts_of_numbers (c ∷ s) (d ∷ t) size ha hb)
      (ground (arith, parse_int_number (c ∷ s) ha, parse_int_number (d ∷ t) hb))

-- A range without an end runs to the last byte.
parse_range-open :
    (first : Bytes) (a size : ℕ)
    → IsNumber first a
    → parse_range (header_of first []) (pos size)
      ≡ (if leb size a then none else some (record { start = a; length = size - a }))
unfolding range_of_parts range_to
parse_range-open [] a size ha = absurd (ha.nonempty refl)
parse_range-open (c ∷ s) a size ha =
    rw
      (parts_of (c ∷ s) [] size (number-Lacks b'-' (c ∷ s) ha dash) (contains_nil b'-')
        (number-Lacks b',' (c ∷ s) ha comma) (contains_nil b','))
      (ground (arith, parse_int_number (c ∷ s) ha))

-- A range without a start selects the last bytes, all of them when there are fewer.
parse_range-suffix :
    (last : Bytes) (n size : ℕ)
    → IsNumber last n
    → parse_range (header_of [] last) (pos size) ≡ (
        if (n == 0) || (size == 0)
        then none
        else some (
            if ltb size n
            then record { start = 0; length = size }
            else record { start = size - n; length = n }))
unfolding range_of_parts
parse_range-suffix last n size h =
    rw
      (parts_of [] last size (contains_nil b'-') (number-Lacks b'-' last h dash) (contains_nil b',')
        (number-Lacks b',' last h comma))
      (ground (arith, parse_int_number last h))

-- A plus sign in front of both numbers of a range with two ends changes nothing, though the
-- grammar of RFC 9110 has no signs.
parse_range_plus :
    (first last : Bytes) (a b : ℕ) (size : ℕ)
    → IsNumber first a
    → IsNumber last b
    → parse_range (header_of (b'+' ∷ first) (b'+' ∷ last)) (pos size)
      ≡ parse_range (header_of first last) (pos size)
unfolding range_of_parts contains_byte
parse_range_plus [] last a b size ha hb = absurd (ha.nonempty refl)
parse_range_plus (c ∷ s) [] a b size ha hb = absurd (hb.nonempty refl)
parse_range_plus (c ∷ s) (d ∷ t) a b size ha hb = rw (
  parts_of_numbers (c ∷ s) (d ∷ t) size ha hb,
  parts_of (b'+' ∷ c ∷ s) (b'+' ∷ d ∷ t) size (number-Lacks b'-' (c ∷ s) ha dash)
      (number-Lacks b'-' (d ∷ t) hb dash) (number-Lacks b',' (c ∷ s) ha comma)
      (number-Lacks b',' (d ∷ t) hb comma),
  parse_int_plus (c ∷ s) ha,
  parse_int_plus (d ∷ t) hb,
  parse_int_number (c ∷ s) ha,
  parse_int_number (d ∷ t) hb,
  range_of_parts,
)

-- What each form of a header selects, with decimal numbers that an int64 holds. A range with both ends is
-- refused when it starts past the end of the file or ends before it starts, and is otherwise cut off
-- at the last byte. A range without an end runs to the last byte, and is refused when it starts past the
-- end. A range without a start selects the last bytes, all of them when there are fewer, and is refused
-- when it asks for none or the file is empty. A plus sign in front of both numbers changes nothing.
pub parse_range-forms :
    (first last : Bytes) (a b size : ℕ)
    → IsNumber first a
    → IsNumber last b
    → (parse_range (header_of first last) (pos size) ≡ (
        if leb size a || ltb b a
        then none
        else some (record { start = a; length = (if leb size b then size - 1 else b) - a + 1 })))
      × (parse_range (header_of first []) (pos size)
          ≡ (if leb size a then none else some (record { start = a; length = size - a })))
      × (parse_range (header_of [] last) (pos size) ≡ (
          if (b == 0) || (size == 0)
          then none
          else some (
              if ltb size b
              then record { start = 0; length = size }
              else record { start = size - b; length = b })))
      × (parse_range (header_of (b'+' ∷ first) (b'+' ∷ last)) (pos size)
          ≡ parse_range (header_of first last) (pos size))
parse_range-forms first last a b size ha hb = (
  parse_range-closed first last a b size ha hb,
  parse_range-open first a size ha,
  parse_range-suffix last b size hb,
  parse_range_plus first last a b size ha hb,
)
