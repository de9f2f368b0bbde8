-- ===== src/SiteAssets/Tests.antt =====
-- The theorems on site images at an ICO file of one pixel.
use safe_file_hub.Base.{
  ℕ, ◌+◌, ◌<◌, ◌≡◌, refl, false, Option, none, some, [], ◌∷◌, ◌++◌, Bytes, bytes_eq, codes, All,
  arith, leb, ◌&&◌, if◌then◌else◌, contains_byte, trim_prefix, has_prefix, drop_prefix,
}
use safe_file_hub.SiteAssets.Ico.{
  byte_at, u16, u32, u32_be, take, drop, side, entry_width, entry_height, entry_bytes, entry_offset,
  is_bitmap_header, valid_payload, valid_entry, ico_entries, is_ico_header, ico_dimensions,
}
use safe_file_hub.SiteAssets.Entries.{Accepted, ico_dimensions-Accepted}
use safe_file_hub.SiteAssets.Images.{
  extension_of, has_two_dots, is_type, known_extension, safe_extension, hex_of, hex_digit, key_of,
  Config, checked_ico, validate_image, AssetLimits, Asset, without_key, stored, PutFaults,
  store_image, put_as, put,
}
use safe_file_hub.SiteAssets.Names.{KeepsLower, is_lower}
use safe_file_hub.SiteAssets.Stored.{StoredAs, put-StoredAs}

-- A directory of one entry, and a bitmap header behind it.
abbrev icon : Bytes
icon =
    0 ∷ 0 ∷ 1 ∷ 0 ∷ 1 ∷ 0 ∷ 1 ∷ 1 ∷ 0 ∷ 0 ∷ 1 ∷ 0 ∷ 32 ∷ 0 ∷ 40 ∷ 0 ∷ 0 ∷ 0 ∷ 22 ∷ 0 ∷ 0 ∷ 0 ∷ 40
    ∷ 0 ∷ 0 ∷ 0 ∷ 1 ∷ 0 ∷ 0 ∷ 0 ∷ 2 ∷ 0 ∷ 0 ∷ 0 ∷ 1 ∷ 0 ∷ 32 ∷ 0 ∷ 0 ∷ 0 ∷ 0 ∷ 0 ∷ 0 ∷ 0 ∷ 0 ∷ 0 ∷ 0
    ∷ 0 ∷ 0 ∷ 0 ∷ 0 ∷ 0 ∷ 0 ∷ 0 ∷ 0 ∷ 0 ∷ 0 ∷ 0 ∷ 0 ∷ 0 ∷ 0 ∷ 0 ∷ []

icon_accepted : ico_dimensions icon ≡ some (1, 1)
unfolding ico_dimensions is_ico_header u16 ico_entries valid_entry entry_bytes entry_offset
    entry_width entry_height valid_payload drop take side byte_at u32 u32_be is_bitmap_header
    bytes_eq
icon_accepted = refl

ico_dimensions-Accepted_example : Accepted icon 1 1
ico_dimensions-Accepted_example = ico_dimensions-Accepted icon 1 1 icon_accepted

icon_cut_off : ico_dimensions (take 61 icon) ≡ none
unfolding ico_dimensions is_ico_header u16 ico_entries valid_entry entry_bytes entry_offset
    entry_width entry_height valid_payload drop take side byte_at u32 u32_be is_bitmap_header
    bytes_eq
icon_cut_off = refl

to_lower_byte : ℕ → ℕ
to_lower_byte c = if leb b'A' c && leb c b'Z' then c + 32 else c

abbrev to_lower : Bytes → Bytes
to_lower [] = []
to_lower (c ∷ s) = to_lower_byte c ∷ to_lower s

to_lower-KeepsLower : KeepsLower to_lower
unfolding is_lower to_lower_byte
to_lower-KeepsLower [] h = refl
to_lower-KeepsLower (c ∷ s) h = let ih = to_lower-KeepsLower s in ground (arith, h, ih)

abbrev no_decoder : Bytes → Option Config
no_decoder s = none

abbrev limits : AssetLimits
limits = record { max_bytes = 100; max_pixels = 4 }

abbrev no_put_faults : PutFaults
no_put_faults = record {
  create = false;
  copy = false;
  close = false;
  reopen = false;
  rename = false;
  chmod = false;
}

abbrev eight : Bytes
eight = 1 ∷ 35 ∷ 69 ∷ 103 ∷ 137 ∷ 171 ∷ 205 ∷ 239 ∷ []

abbrev random : Bytes
random = eight ++ eight ++ eight ++ eight

abbrev key : Bytes
key = codes "site/0123456789abcdef0123456789abcdef0123456789abcdef0123456789abcdef.ico"

abbrev asset : Asset
asset = record { key = key; size = 62; width = 1; height = 1 }

stores :
    put to_lower no_decoder limits no_put_faults random (codes "Logo.ICO") icon []
    ≡ (stored asset, (key, icon) ∷ [])
unfolding put put_as safe_extension extension_of has_two_dots known_extension is_type validate_image
    checked_ico store_image without_key key_of hex_of hex_digit to_lower_byte ico_dimensions
    is_ico_header u16 ico_entries valid_entry entry_bytes entry_offset entry_width entry_height
    valid_payload drop take side byte_at u32 u32_be is_bitmap_header bytes_eq contains_byte
    trim_prefix has_prefix drop_prefix
stores = refl

random_bytes : All (λ c. c < 256) random
random_bytes = ground arith

put-StoredAs_example : StoredAs to_lower limits icon asset ((key, icon) ∷ [])
put-StoredAs_example =
    put-StoredAs to_lower no_decoder limits no_put_faults random (codes "Logo.ICO") icon []
      ((key, icon) ∷ []) asset to_lower-KeepsLower refl random_bytes stores
