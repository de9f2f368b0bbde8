-- ===== src/SiteAssets/Entries.antt =====
-- The images of an ICO file that is accepted lie inside it.
use safe_file_hub.Base.{
  ℕ, zero, suc, ◌+◌, ◌≤◌, ◌<◌, ◌≡◌, ◌⊎◌, ◌&&◌, subst, true, some, ◌==◌, leb, Bytes, bytes_eq,
  bytes_eq_iff, length, arith, Bool-cases, inl, inr,
}
use safe_file_hub.SiteAssets.Ico.{
  byte_at, u16, side, entry_at, entry_width, entry_height, entry_bytes, entry_offset, valid_entry,
  valid_payload, take, drop, larger, u32, u32_be, png_signature, is_bitmap_header, ico_entries,
  ico_dimensions,
}

-- A PNG image: its signature, and the sides in its header, the highest byte first.
pub record PngSides (p : Bytes) (width height : ℕ) : Type 0 where
  pub long : 24 ≤ length p
  pub signature : take 8 p ≡ png_signature
  pub wide : u32_be 16 p ≡ width
  pub high : u32_be 20 p ≡ height

-- A bitmap: a header of 40 bytes, which says so, one plane, and the sides, the height twice, since
-- the mask comes behind the image.
pub record BitmapSides (p : Bytes) (width height : ℕ) : Type 0 where
  pub long : 40 ≤ length p
  pub header : u32 0 p ≡ 40
  pub wide : u32 4 p ≡ width
  pub high : u32 8 p ≡ height + height
  pub planes : u16 12 p ≡ 1

-- An image of these sides.
abbrev pub HasSides : Bytes → ℕ → ℕ → Type 0
HasSides p width height = PngSides p width height ⊎ BitmapSides p width height

valid_payload-HasSides :
    (p : Bytes) (width height : ℕ) → valid_payload p width height ≡ true → HasSides p width height
unfolding valid_payload is_bitmap_header
valid_payload-HasSides p width height v =
    elim (Bool-cases (leb 24 (length p) && bytes_eq (take 8 p) png_signature)) [
      | inl e ↦
          let same = bytes_eq_iff (take 8 p) png_signature in
          inl (record {
            long = ground (arith, e);
            signature = ground (arith, e, same);
            wide = ground (arith, v, e);
            high = ground (arith, v, e);
          })
      | inr e ↦ inr (record {
        long = ground (arith, v, e);
        header = unfold u32 in ground (arith, v, e);
        wide = ground (arith, v, e);
        high = ground (arith, v, e);
        planes = unfold u16 in ground (arith, v, e);
      })
    ]

-- An entry whose image is not empty, starts behind the directory, ends inside the file and has the
-- sides that the entry says, neither of them 0 or larger than the sides of the whole.
pub record EntryFits (s : Bytes) (count width height i : ℕ) : Type 0 where
  pub nonempty : 0 < entry_bytes s i
  pub behind : entry_at count ≤ entry_offset s i
  pub inside : entry_offset s i + entry_bytes s i ≤ length s
  pub image :
      HasSides
        (take (entry_bytes s i) (drop (entry_offset s i) s))
        (entry_width s i)
        (entry_height s i)
  pub wide : (0 < entry_width s i) × (entry_width s i ≤ width)
  pub high : (0 < entry_height s i) × (entry_height s i ≤ height)

side_pos : (n : ℕ) → 0 < side n
unfolding side
side_pos n = ground arith

ico_entries-grow :
    (s : Bytes) (count left i w h : ℕ) {width height : ℕ}
    → ico_entries s count left i w h ≡ some (width, height)
    → (w ≤ width) × (h ≤ height)
unfolding ico_entries
ico_entries-grow s count zero i w h e = ground (arith, e)
ico_entries-grow s count (suc left) i w h {width} {height} e =
    let ih =
      ico_entries-grow s count left (suc i) (larger (entry_width s i) w)
        (larger (entry_height s i) h) {width = width} {height = height} in
    ground (arith, e, ih)

valid_entry-EntryFits :
    (s : Bytes) (count width height i : ℕ)
    → valid_entry s count i ≡ true
    → (larger (entry_width s i) 0 ≤ width) × (larger (entry_height s i) 0 ≤ height)
    → EntryFits s count width height i
unfolding valid_entry
valid_entry-EntryFits s count width height i v (w, h) = record {
  nonempty = ground (arith, v);
  behind = ground (arith, v);
  inside = ground (arith, v);
  image =
      valid_payload-HasSides (take (entry_bytes s i) (drop (entry_offset s i) s)) (entry_width s i)
        (entry_height s i) (ground (arith, v));
  wide = (unfold entry_width in side_pos (byte_at (entry_at i) s), ground (arith, w));
  high = (unfold entry_height in side_pos (byte_at (entry_at i + 1) s), ground (arith, h));
}

ico_entries-EntryFits :
    (s : Bytes) (count left i w h : ℕ) {width height : ℕ}
    → ico_entries s count left i w h ≡ some (width, height)
    → (j : ℕ) → i ≤ j
    → j < i + left
    → EntryFits s count width height j
unfolding ico_entries
ico_entries-EntryFits s count zero i w h e j a b = absurd (omega (arith, a, b))
ico_entries-EntryFits s count (suc left) i w h {width} {height} e j a b =
    let wider = larger (entry_width s i) w in
    let higher = larger (entry_height s i) h in
    let valid : valid_entry s count i ≡ true = ground (arith, e) in
    let later : ico_entries s count left (suc i) wider higher ≡ some (width, height) =
      ground (arith, e) in
    let grown = ico_entries-grow s count left (suc i) wider higher later in
    elim (Bool-cases (i == j)) [
      | inl k ↦
          let same : i ≡ j = ground (arith, k) in
          subst (EntryFits s count width height) same
            (valid_entry-EntryFits s count width height i valid (ground (arith, grown)))
      | inr k ↦
          ico_entries-EntryFits s count left (suc i) wider higher later j (ground (arith, k, a))
            (omega (arith, b))
    ]

-- What an accepted ICO file is.
pub record Accepted (s : Bytes) (width height : ℕ) : Type 0 where
  pub count : 0 < u16 4 s
  pub directory : entry_at (u16 4 s) ≤ length s
  pub entries : (i : ℕ) → i < u16 4 s → EntryFits s (u16 4 s) width height i
  pub wide : 0 < width
  pub high : 0 < height

-- A file that is accepted has at least one entry, all entries lie inside the file, and so do their
-- images, behind the directory; none of them is empty, the header of each, of a PNG image or of a
-- bitmap, has the sides that its entry says, and none is wider or higher than the sides that are
-- returned, which are positive.
pub ico_dimensions-Accepted :
    (s : Bytes) (width height : ℕ)
    → ico_dimensions s ≡ some (width, height)
    → Accepted s width height
unfolding ico_dimensions
ico_dimensions-Accepted s width height e =
    let count = u16 4 s in
    let some_entry : 0 < count = ground (arith, e) in
    let directory : entry_at count ≤ length s = ground (arith, e) in
    let entries : ico_entries s count count 0 0 0 ≡ some (width, height) = ground (arith, e) in
    let fits = λ (i : ℕ) (b : i < count).
      ico_entries-EntryFits s count count 0 0 0 entries i (omega arith) (omega (arith, b)) in
    let first = fits 0 some_entry in
    let (w, wide) = first.wide in
    let (h, high) = first.high in
    record {
      count = some_entry;
      directory = directory;
      entries = fits;
      wide = omega (arith, w, wide);
      high = omega (arith, h, high);
    }
