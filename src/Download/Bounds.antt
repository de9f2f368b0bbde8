-- ===== src/Download/Bounds.antt =====
-- Every range that the parser accepts lies inside the file.
use safe_file_hub.Base.{
  ℕ, ◌+◌, ◌≤◌, ◌<◌, ◌≡◌, refl, inl, inr, Option, none, some, List, [], ◌∷◌, leb, Bytes, split,
  drop_prefix, arith, Bool-cases,
}
use safe_file_hub.Base.Int.{ℤ, pos, negsuc}
use safe_file_hub.Download.{
  ByteRange, suffix_range, clamp_end, end_of, range_to, start_range, range_of_parts, range_of_spec,
  parse_int, parse_range, bytes_unit,
}

-- A non-empty part of a file of this size.
pub record Inside (size : ℕ) (r : ByteRange) : Type 0 where
  pub nonempty : 0 < r.length
  pub fits : r.start + r.length ≤ size

abbrev AllInside : ℕ → Option ByteRange → Type 0
AllInside size none = Unit
AllInside size (some r) = Inside size r

suffix_range-Inside : (n : Option ℤ) (size : ℕ) → AllInside size (suffix_range n size)
unfolding suffix_range
suffix_range-Inside none size = tt
suffix_range-Inside (some (negsuc n)) size = tt
suffix_range-Inside (some (pos n)) size = ground arith

end_of-bounds :
    (start size : ℕ) (last : Bytes) {e : ℕ}
    → start < size
    → end_of start size last ≡ some e
    → (start ≤ e) × (e < size)
unfolding end_of clamp_end
end_of-bounds start size last h q = ground arith

range_to-Inside :
    (start size : ℕ) (o : Option ℕ)
    → ((e : ℕ) → o ≡ some e → (start ≤ e) × (e < size))
    → AllInside size (range_to start o)
unfolding range_to
range_to-Inside start size none h = tt
range_to-Inside start size (some e) h = let b = h e refl in omega (arith, b.0, b.1)

start_range-Inside :
    (n : Option ℤ) (last : Bytes) (size : ℕ) → AllInside size (start_range n last size)
unfolding start_range
start_range-Inside none last size = tt
start_range-Inside (some (negsuc n)) last size = tt
start_range-Inside (some (pos start)) last size = elim (Bool-cases (leb size start)) [
  | inl e ↦ rw e tt
  | inr e ↦
      rw e (range_to-Inside start size _ (λ b q. end_of-bounds start size last (ground arith) q))
]

range_of_parts-Inside : (ps : List Bytes) (size : ℕ) → AllInside size (range_of_parts ps size)
unfolding range_of_parts
range_of_parts-Inside [] size = tt
range_of_parts-Inside (a ∷ []) size = tt
range_of_parts-Inside (a ∷ b ∷ c ∷ ps) size = tt
range_of_parts-Inside ([] ∷ last ∷ []) size = suffix_range-Inside (parse_int last) size
range_of_parts-Inside ((c ∷ s) ∷ last ∷ []) size = start_range-Inside (parse_int (c ∷ s)) last size

-- A range that is accepted is not empty and lies inside the file.
pub parse_range-Inside :
    (header : Bytes) (size : ℕ) {r : ByteRange}
    → parse_range header (pos size) ≡ some r
    → Inside size r
unfolding parse_range range_of_spec
parse_range-Inside header size h =
    ground (arith, range_of_parts-Inside (split b'-' (drop_prefix header bytes_unit)) size)
