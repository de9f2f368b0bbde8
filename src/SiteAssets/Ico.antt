-- ===== src/SiteAssets/Ico.antt =====
-- `icoDimensions` and `validICOImagePayload`.
use safe_file_hub.Base.{
  ℕ, zero, suc, ◌+◌, ◌-◌, ◌*◌, Bool, false, not, ◌&&◌, ◌||◌, Option, none, some, [], ◌∷◌, ltb, leb,
  ◌==◌, Bytes, bytes_eq, length, if◌then◌else◌,
}

unfoldable pub byte_at : ℕ → Bytes → ℕ
byte_at n [] = 0
byte_at zero (c ∷ s) = c
byte_at (suc n) (c ∷ s) = byte_at n s

unfoldable pub drop : ℕ → Bytes → Bytes
drop zero s = s
drop (suc n) [] = []
drop (suc n) (c ∷ s) = drop n s

unfoldable pub take : ℕ → Bytes → Bytes
take zero s = []
take (suc n) [] = []
take (suc n) (c ∷ s) = c ∷ take n s

-- Two and four bytes, the lowest first; no bits overlap, so that `|` adds.
unfoldable pub u16 : ℕ → Bytes → ℕ
unfolding byte_at
u16 at s = byte_at at s + byte_at (at + 1) s * 256

unfoldable pub u32 : ℕ → Bytes → ℕ
unfolding byte_at
u32 at s =
    byte_at at s
    + byte_at (at + 1) s * 256
    + byte_at (at + 2) s * 65536
    + byte_at (at + 3) s * 16777216

-- Four bytes, the highest first.
unfoldable pub u32_be : ℕ → Bytes → ℕ
unfolding byte_at
u32_be at s =
    byte_at at s * 16777216
    + byte_at (at + 1) s * 65536
    + byte_at (at + 2) s * 256
    + byte_at (at + 3) s

abbrev pub png_signature : Bytes
png_signature = 137 ∷ 80 ∷ 78 ∷ 71 ∷ 13 ∷ 10 ∷ 26 ∷ 10 ∷ []

unfoldable pub is_bitmap_header : Bytes → Bool
unfolding byte_at
is_bitmap_header p =
    leb 40 (length p)
    && (byte_at 0 p == 40 && (byte_at 1 p == 0 && (byte_at 2 p == 0 && byte_at 3 p == 0)))

-- `validICOImagePayload`
unfoldable pub valid_payload : Bytes → ℕ → ℕ → Bool
unfolding u32 u32_be take is_bitmap_header
valid_payload p width height =
    if leb 24 (length p) && bytes_eq (take 8 p) png_signature
    then u32_be 16 p == width && u32_be 20 p == height
    else if not (is_bitmap_header p)
    then false
    else u32 4 p == width && (u32 8 p == height * 2 && (byte_at 12 p == 1 && byte_at 13 p == 0))

-- A side of 0 stands for 256.
unfoldable pub side : ℕ → ℕ
side n = if n == 0 then 256 else n

-- Where entry `i` stands, and what it says.
abbrev pub entry_at : ℕ → ℕ
entry_at i = 6 + 16 * i

unfoldable pub entry_width : Bytes → ℕ → ℕ
unfolding side byte_at
entry_width s i = side (byte_at (entry_at i) s)

unfoldable pub entry_height : Bytes → ℕ → ℕ
unfolding side byte_at
entry_height s i = side (byte_at (entry_at i + 1) s)

unfoldable pub entry_bytes : Bytes → ℕ → ℕ
unfolding u32
entry_bytes s i = u32 (entry_at i + 8) s

unfoldable pub entry_offset : Bytes → ℕ → ℕ
unfolding u32
entry_offset s i = u32 (entry_at i + 12) s

-- The checks on an entry.
unfoldable pub valid_entry : Bytes → ℕ → ℕ → Bool
unfolding entry_bytes entry_offset entry_width entry_height valid_payload drop take
valid_entry s count i =
    not (
      entry_bytes s i == 0
      || (ltb (entry_offset s i) (entry_at count)
          || (ltb (length s) (entry_offset s i)
              || ltb (length s - entry_offset s i) (entry_bytes s i))))
    && valid_payload (take (entry_bytes s i) (drop (entry_offset s i) s)) (entry_width s i)
        (entry_height s i)

abbrev pub larger : ℕ → ℕ → ℕ
larger a b = if ltb b a then a else b

-- The loop over the entries: `left` of them from entry `i` on, with the largest sides so far.
unfoldable pub ico_entries : Bytes → ℕ → ℕ → ℕ → ℕ → ℕ → Option (ℕ × ℕ)
unfolding valid_entry entry_width entry_height
ico_entries s count zero i width height = some (width, height)
ico_entries s count (suc left) i width height =
    let later =
      ico_entries s count left (suc i) (larger (entry_width s i) width)
        (larger (entry_height s i) height) in
    if valid_entry s count i then later else none

unfoldable pub is_ico_header : Bytes → Bool
unfolding byte_at
is_ico_header s =
    leb 6 (length s)
    && (byte_at 0 s == 0 && (byte_at 1 s == 0 && (byte_at 2 s == 1 && byte_at 3 s == 0)))

-- `icoDimensions`
unfoldable pub ico_dimensions : Bytes → Option (ℕ × ℕ)
unfolding is_ico_header u16 ico_entries
ico_dimensions s =
    let count = u16 4 s in
    if not (is_ico_header s)
    then none
    else if count == 0 || ltb (length s) (entry_at count)
    then none
    else ico_entries s count count 0 0 0
