-- ===== src/SiteAssets/Images.antt =====
-- `Put`, `Open` and `Remove` of the store, and the names of its files.
use safe_file_hub.Base.{
  ℕ, ◌+◌, ◌*◌, ◌/◌, ◌%◌, Bool, true, false, not, ◌&&◌, ◌||◌, Option, none, some, List, [], ◌∷◌,
  ◌++◌, ltb, leb, ◌==◌, Bytes, bytes_eq, codes, length, if◌then◌else◌, split, trim_prefix,
  contains_byte,
}
use safe_file_hub.SiteAssets.Ico.{ico_dimensions}

-- `filepath.Ext` of a name without separators: from the last dot on.
unfoldable pub extension_of : Bytes → Bytes
extension_of [] = []
extension_of (c ∷ s) =
    let later = extension_of s in
    if contains_byte b'.' s then later else if c == b'.' then c ∷ s else []

-- A name without its extension.
unfoldable pub stem_of : Bytes → Bytes
stem_of [] = []
stem_of (c ∷ s) =
    let later = stem_of s in
    if contains_byte b'.' s then c ∷ later else if c == b'.' then [] else c ∷ later

unfoldable pub has_two_dots : Bytes → Bool
has_two_dots [] = false
has_two_dots (c ∷ []) = false
has_two_dots (c ∷ d ∷ s) = let later = has_two_dots (d ∷ s) in (c == b'.' && d == b'.') || later

unfoldable pub is_type : Bytes → Bool
is_type ext =
    bytes_eq ext (codes "png")
    || (bytes_eq ext (codes "jpeg") || (bytes_eq ext (codes "gif") || bytes_eq ext (codes "ico")))

-- From the extension on.
unfoldable pub known_extension : Bytes → Option Bytes
unfolding is_type
known_extension ext =
    let name = if bytes_eq ext (codes "jpg") then codes "jpeg" else ext in
    if is_type name then some name else none

-- `safeExtension`; `filepath.Base` gives back a name without slashes, and the slash alone.
unfoldable pub safe_extension : (Bytes → Bytes) → Bytes → Option Bytes
unfolding extension_of has_two_dots known_extension
safe_extension to_lower name =
    if bytes_eq name []
      || ((contains_byte b'/' name && not (bytes_eq name (codes "/")))
          || (contains_byte b'\\' name || has_two_dots name))
    then none
    else known_extension (trim_prefix (to_lower (extension_of name)) (codes "."))

unfoldable pub is_hex : Bytes → Bool
is_hex [] = true
is_hex (c ∷ s) = ((leb b'0' c && leb c b'9') || (leb b'a' c && leb c b'f')) && is_hex s

unfoldable pub is_some : {A : Type 0} → Option A → Bool
is_some none = false
is_some (some a) = true

-- `validKey`, from the split on.
unfoldable pub valid_parts : (Bytes → Bytes) → List Bytes → Bool
unfolding stem_of is_hex safe_extension is_some
valid_parts to_lower [] = false
valid_parts to_lower (folder ∷ []) = false
valid_parts to_lower (folder ∷ name ∷ []) =
    bytes_eq folder (codes "site")
    && (length (stem_of name) == 64
        && (is_hex (stem_of name) && is_some (safe_extension to_lower name)))
valid_parts to_lower (folder ∷ name ∷ more ∷ rest) = false

-- `validKey`
unfoldable pub valid_key : (Bytes → Bytes) → Bytes → Bool
unfolding valid_parts
valid_key to_lower key = valid_parts to_lower (split b'/' key)

unfoldable pub hex_digit : ℕ → ℕ
hex_digit n = if ltb n 10 then b'0' + n else n + 87

-- `hex.EncodeToString`
unfoldable pub hex_of : Bytes → Bytes
unfolding hex_digit
hex_of [] = []
hex_of (c ∷ s) = hex_digit (c / 16) ∷ hex_digit (c % 16) ∷ hex_of s

-- The key that `Put` gives a file.
unfoldable pub key_of : Bytes → Bytes → Bytes
unfolding hex_of
key_of random ext = codes "site/" ++ (hex_of random ++ b'.' ∷ ext)

-- What `image.DecodeConfig` finds: the format and the sides; none is an error.
pub record Config : Type 0 where
  pub format : Bytes
  pub width : ℕ
  pub height : ℕ

unfoldable pub is_raster : Bytes → Bool
is_raster f = bytes_eq f (codes "png") || (bytes_eq f (codes "jpeg") || bytes_eq f (codes "gif"))

unfoldable pub checked_config : Bytes → ℕ → Option Config → Option (ℕ × ℕ)
unfolding is_raster
checked_config ext max_pixels none = none
checked_config ext max_pixels (some c) =
    if not (is_raster c.format) || not (bytes_eq ext c.format)
    then none
    else if c.width == 0 || (c.height == 0 || ltb max_pixels (c.width * c.height))
    then none
    else some (c.width, c.height)

unfoldable pub checked_ico : ℕ → Option (ℕ × ℕ) → Option (ℕ × ℕ)
checked_ico max_pixels none = none
checked_ico max_pixels (some (width, height)) =
    if ltb max_pixels (width * height) then none else some (width, height)

-- `validateImage`
unfoldable pub validate_image : (Bytes → Option Config) → Bytes → Bytes → ℕ → Option (ℕ × ℕ)
unfolding checked_ico checked_config ico_dimensions
validate_image decode content ext max_pixels =
    if bytes_eq ext (codes "ico")
    then checked_ico max_pixels (ico_dimensions content)
    else checked_config ext max_pixels (decode content)

pub record AssetLimits : Type 0 where
  pub max_bytes : ℕ
  pub max_pixels : ℕ

-- `Asset`, without its content type.
pub record Asset : Type 0 where
  pub key : Bytes
  pub size : ℕ
  pub width : ℕ
  pub height : ℕ

-- The keys and contents of the files below the root.
abbrev pub Files : Type 0
Files = List (Bytes × Bytes)

unfoldable pub without_key : Bytes → Files → Files
without_key key [] = []
without_key key ((k, content) ∷ rest) =
    let later = without_key key rest in if bytes_eq k key then later else (k, content) ∷ later

unfoldable pub content_at : Bytes → Files → Option Bytes
content_at key [] = none
content_at key ((k, content) ∷ rest) =
    let later = content_at key rest in if bytes_eq k key then some content else later

-- How `Put` ends; `invalid` is an error that wraps `ErrInvalidAsset`.
pub data Stored : Type 0 where
  stored : Asset → Stored
  invalid failed : Stored

-- The failures of the file system: up to the temporary file, in the copy, in the close, when the file is
-- opened to look at the image, up to the rename, and behind it.
pub record PutFaults : Type 0 where
  pub create : Bool
  pub copy : Bool
  pub close : Bool
  pub reopen : Bool
  pub rename : Bool
  pub chmod : Bool

-- The rename to the key, for the sides that the image has.
unfoldable pub store_image : PutFaults → Bytes → Bytes → Option (ℕ × ℕ) → Files → Stored × Files
unfolding without_key
store_image f key content none files = (invalid, files)
store_image f key content (some (width, height)) files =
    let moved : Files = (key, content) ∷ without_key key files in
    let asset : Asset = record {
      key = key;
      size = length content;
      width = width;
      height = height;
    } in
    if f.rename then (failed, files) else if f.chmod then (failed, moved) else (stored asset, moved)

unfoldable pub put_as :
    (Bytes → Option Config)
    → AssetLimits
    → PutFaults
    → Bytes
    → Bytes
    → Option Bytes
    → Files
    → Stored × Files
unfolding validate_image store_image key_of
put_as decode limits f random content none files = (invalid, files)
put_as decode limits f random content (some ext) files =
    if f.create || f.copy
    then (failed, files)
    else if ltb limits.max_bytes (length content)
    then (invalid, files)
    else if f.close
    then (failed, files)
    else if f.reopen
    then (invalid, files)
    else store_image f (key_of random ext) content
        (validate_image decode content ext limits.max_pixels) files

-- `Put`, with the random bytes that it draws.
unfoldable pub put :
    (Bytes → Bytes)
    → (Bytes → Option Config)
    → AssetLimits
    → PutFaults
    → Bytes
    → Bytes
    → Bytes
    → Files
    → Stored × Files
unfolding put_as safe_extension
put to_lower decode limits f random filename content files =
    put_as decode limits f random content (safe_extension to_lower filename) files

-- `Open`
unfoldable pub open_asset : (Bytes → Bytes) → Bytes → Files → Option Bytes
unfolding valid_key content_at
open_asset to_lower key files = if not (valid_key to_lower key) then none else content_at key files

-- `Remove`: whether it succeeds, and the files that are left.
unfoldable pub remove_asset : (Bytes → Bytes) → Bool → Bytes → Files → Bool × Files
unfolding valid_key without_key
remove_asset to_lower fails key files =
    if not (valid_key to_lower key) || fails then (false, files) else (true, without_key key files)
