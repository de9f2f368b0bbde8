-- ===== src/Download.antt =====
-- internal/download/range.go: the single-range policy of `ParseRange`. `none` is
-- `ErrInvalidRange`, the only error. A Go string is the list of its bytes. A size is an int64: the
-- integers here are unbounded, and `parse_int` makes the range checks of `strconv.ParseInt`.
pub mod Bounds
pub mod Forms
mod Tests
use safe_file_hub.Base.{
  ℕ, zero, suc, ◌+◌, ◌-◌, ◌*◌, ◌^◌, Bool, true, false, ◌&&◌, ◌||◌, Option, none, some, List, [],
  ◌∷◌, ltb, leb, ◌==◌, if◌then◌else◌, Bytes, codes, has_prefix, drop_prefix, split, contains_byte,
}
use safe_file_hub.Base.Int.{ℤ, pos, negsuc}

-- `Range`: both numbers are non-negative in every value that `ParseRange` returns.
pub record ByteRange : Type 0 where
  pub start : ℕ
  pub length : ℕ

pub is_digit : ℕ → Bool
is_digit c = leb b'0' c && leb c b'9'

-- Decimal digits, read after the value `acc`.
pub digits : ℕ → Bytes → Option ℕ
unfolding is_digit
digits acc [] = some acc
digits acc (c ∷ s) =
    let rest = digits (acc * 10 + (c - b'0')) s in if is_digit c then rest else none

abbrev pub int64_limit : ℕ
int64_limit = 2 ^ 63

abbrev is_empty : Bytes → Bool
is_empty [] = true
is_empty (c ∷ s) = false

pub positive : Option ℕ → Option ℤ
positive none = none
positive (some n) = if ltb n int64_limit then some (pos n) else none

pub negative : Option ℕ → Option ℤ
negative none = none
negative (some zero) = some (pos 0)
negative (some (suc n)) = if ltb n int64_limit then some (negsuc n) else none

pub unsigned : Bytes → Option ℕ
unfolding digits
unsigned [] = none
unsigned (c ∷ s) = digits 0 (c ∷ s)

-- `strconv.ParseInt(s, 10, 64)`; `none` is any of its errors.
unfoldable pub parse_int : Bytes → Option ℤ
unfolding positive negative unsigned digits is_digit
parse_int [] = none
parse_int (c ∷ s) =
    if c == b'+'
    then positive (unsigned s)
    else if c == b'-'
    then negative (unsigned s)
    else positive (unsigned (c ∷ s))

-- `bytes=-n`
pub suffix_range : Option ℤ → ℕ → Option ByteRange
suffix_range (some (pos n)) size =
    if (n == 0) || (size == 0)
    then none
    else (let n' = if ltb size n then size else n in
        some (record { start = size - n'; length = n' }))
suffix_range _ size = none

-- `end` of `bytes=start-end` from the parsed second part.
pub clamp_end : ℕ → ℕ → Option ℤ → Option ℕ
clamp_end start size (some (pos last)) =
    if ltb last start then none else some (if leb size last then size - 1 else last)
clamp_end start size _ = none

pub end_of : ℕ → ℕ → Bytes → Option ℕ
unfolding clamp_end
end_of start size last =
    if is_empty last then some (size - 1) else clamp_end start size (parse_int last)

pub range_to : ℕ → Option ℕ → Option ByteRange
range_to start none = none
range_to start (some last) = some (record { start = start; length = last - start + 1 })

-- `bytes=start-` and `bytes=start-end`
pub start_range : Option ℤ → Bytes → ℕ → Option ByteRange
unfolding range_to end_of
start_range (some (pos start)) last size =
    if leb size start then none else range_to start (end_of start size last)
start_range _ last size = none

pub range_of_parts : List Bytes → ℕ → Option ByteRange
unfolding suffix_range start_range
range_of_parts (first ∷ last ∷ []) size =
    if is_empty first
    then suffix_range (parse_int last) size
    else start_range (parse_int first) last size
range_of_parts _ size = none

abbrev pub bytes_unit : Bytes
bytes_unit = codes "bytes="

pub range_of_spec : Bytes → ℕ → Option ByteRange
unfolding range_of_parts
range_of_spec spec size =
    if is_empty spec || contains_byte b',' spec then none else range_of_parts (split b'-' spec) size

-- `ParseRange`
pub parse_range : Bytes → ℤ → Option ByteRange
unfolding range_of_spec
parse_range header (negsuc _) = none
parse_range header (pos size) =
    if has_prefix header bytes_unit
    then range_of_spec (drop_prefix header bytes_unit) size
    else none
