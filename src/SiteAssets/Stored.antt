-- ===== src/SiteAssets/Stored.antt =====
-- What `Put` has stored when it succeeds.
use safe_file_hub.Base.{
  ℕ, ◌*◌, ◌≤◌, ◌<◌, ◌≡◌, refl, sym, subst, inl, inr, Bool, true, false, Option, none, some, [], ◌∷◌,
  Bytes, bytes_eq, bytes_eq_refl, codes, length, if◌then◌else◌, arith, All, Bool-cases,
  Option-cases, trim_prefix,
}
use safe_file_hub.SiteAssets.Ico.{ico_dimensions}
use safe_file_hub.SiteAssets.Entries.{ico_dimensions-Accepted}
use safe_file_hub.SiteAssets.Names.{KeepsLower, valid_key-key_of}
use safe_file_hub.SiteAssets.Images.{
  is_type, known_extension, safe_extension, extension_of, valid_key, key_of, Config, checked_config,
  checked_ico, validate_image, AssetLimits, Asset, Files, without_key, content_at, Stored, stored,
  invalid, PutFaults, store_image, put_as, put, open_asset, remove_asset,
}

-- The asset and the files behind a `Put`: the key is valid, the file is read back under it and removed
-- under it, and size and sides are within the limits, the sides not 0.
pub record StoredAs (to_lower : Bytes → Bytes) (limits : AssetLimits) (content : Bytes) (a : Asset)
    (files : Files) : Type 0 where
  pub key : valid_key to_lower a.key ≡ true
  pub opened : open_asset to_lower a.key files ≡ some content
  pub removed : content_at a.key (remove_asset to_lower false a.key files).1 ≡ none
  pub size : (a.size ≡ length content) × (length content ≤ limits.max_bytes)
  pub sides : (0 < a.width) × (0 < a.height)
  pub pixels : a.width * a.height ≤ limits.max_pixels

known_extension-type : (e ext : Bytes) → known_extension e ≡ some ext → is_type ext ≡ true
unfolding known_extension
known_extension-type e ext h = ground (arith, h)

safe_extension-type :
    (to_lower : Bytes → Bytes) (name ext : Bytes)
    → safe_extension to_lower name ≡ some ext
    → is_type ext ≡ true
unfolding safe_extension
safe_extension-type to_lower name ext h =
    let rest = trim_prefix (to_lower (extension_of name)) (codes ".") in
    known_extension-type rest ext (passed _ (known_extension rest) h)
  where
    passed : (b : Bool) (o : Option Bytes) → (if b then none else o) ≡ some ext → o ≡ some ext
    passed true o e = absurd (ground (arith, e))
    passed false o e = e

checked_config-sides :
    (ext : Bytes) (max : ℕ) (o : Option Config) {w h : ℕ}
    → checked_config ext max o ≡ some (w, h)
    → ((0 < w) × (0 < h)) × (w * h ≤ max)
unfolding checked_config
checked_config-sides ext max none e = absurd (ground (arith, e))
checked_config-sides ext max (some c) e = ground (arith, e)

validate_image-sides :
    (decode : Bytes → Option Config) (content ext : Bytes) (max : ℕ) {w h : ℕ}
    → validate_image decode content ext max ≡ some (w, h)
    → ((0 < w) × (0 < h)) × (w * h ≤ max)
unfolding validate_image checked_ico
validate_image-sides decode content ext max {w} {h} e =
    elim (Bool-cases (bytes_eq ext (codes "ico"))) [
      | inr k ↦ checked_config-sides ext max (decode content) {w = w} {h = h} (ground (arith, e, k))
      | inl k ↦ elim (Option-cases (ico_dimensions content)) [
        | inl n ↦ absurd (ground (arith, e, k, n))
        | inr ((w', h'), n) ↦
            let a = ico_dimensions-Accepted content w' h' n in
            let wide = a.wide in let high = a.high in ground (arith, e, k, n, wide, high)
      ]
    ]

content_at-without_key :
    (key : Bytes) (files : Files) → content_at key (without_key key files) ≡ none
unfolding content_at without_key
content_at-without_key key [] = refl
content_at-without_key key ((k, content) ∷ rest) =
    let ih = content_at-without_key key rest in ground (arith, ih)

-- How `store_image` succeeds.
store_image-stored :
    (f : PutFaults) (key content : Bytes) (o : Option (ℕ × ℕ)) (files files' : Files) (a : Asset)
    → store_image f key content o files ≡ (stored a, files')
    → (o ≡ some (a.width, a.height))
      × (a.key ≡ key)
      × (a.size ≡ length content)
      × (files' ≡ (key, content) ∷ without_key key files)
unfolding store_image
store_image-stored f key content none files files' a e = absurd (ground (arith, e))
store_image-stored f key content (some (w, h)) files files' a e = ground (arith, e)

put_as-stored :
    (decode : Bytes → Option Config) (limits : AssetLimits) (f : PutFaults)
    (random content ext : Bytes) (files files' : Files) (a : Asset)
    → put_as decode limits f random content (some ext) files ≡ (stored a, files')
    → (length content ≤ limits.max_bytes)
      × (store_image f
            (key_of random ext)
            content
            (validate_image decode content ext limits.max_pixels)
            files
          ≡ (stored a, files'))
unfolding put_as
put_as-stored decode limits f random content ext files files' a e = ground (arith, e)

open_asset-stored :
    (to_lower : Bytes → Bytes) (key content : Bytes) (files : Files)
    → valid_key to_lower key ≡ true
    → open_asset to_lower key ((key, content) ∷ files) ≡ some content
unfolding open_asset content_at
open_asset-stored to_lower key content files v = rw (v, bytes_eq_refl key) refl

remove_asset-gone :
    (to_lower : Bytes → Bytes) (key : Bytes) (files : Files)
    → valid_key to_lower key ≡ true
    → content_at key (remove_asset to_lower false key files).1 ≡ none
unfolding remove_asset
remove_asset-gone to_lower key files v = rw v (content_at-without_key key files)

-- When `Put` succeeds, the key that it returns is one that `Open` and `Remove` take, `Open` reads back
-- exactly the content, a removal leaves nothing under the key, and size and sides are within the
-- limits, neither side 0, whatever the filename is.
pub put-StoredAs :
    (to_lower : Bytes → Bytes) (decode : Bytes → Option Config) (limits : AssetLimits)
    (f : PutFaults) (random filename content : Bytes) (files files' : Files) (a : Asset)
    → KeepsLower to_lower
    → length random ≡ 32
    → All (λ c. c < 256) random
    → put to_lower decode limits f random filename content files ≡ (stored a, files')
    → StoredAs to_lower limits content a files'
unfolding put
put-StoredAs to_lower decode limits f random filename content files files' a lower n small e =
    elim (Option-cases (safe_extension to_lower filename)) [
      | inl none_ok ↦ absurd (let k = refused none_ok in ground (arith, k))
      | inr (ext, x) ↦
          let (fits, kept) =
            put_as-stored decode limits f random content ext files files' a (
              subst (λ o. put_as decode limits f random content o files ≡ (stored a, files')) x
                e) in
          let (image, key, size, world) =
            store_image-stored f (key_of random ext) content
              (validate_image decode content ext limits.max_pixels) files files' a kept in
          let (sides, pixels) = validate_image-sides decode content ext limits.max_pixels image in
          let valid : valid_key to_lower a.key ≡ true =
            subst (λ k. valid_key to_lower k ≡ true) (sym key)
              (valid_key-key_of to_lower random ext lower n small
                (safe_extension-type to_lower filename ext x)) in
          let here = subst (λ k. files' ≡ (k, content) ∷ without_key k files) (sym key) world in
          record {
            key = valid;
            opened =
                subst (λ v. open_asset to_lower a.key v ≡ some content) (sym here)
                  (open_asset-stored to_lower a.key content (without_key a.key files) valid);
            removed = remove_asset-gone to_lower a.key files' valid;
            size = (size, fits);
            sides = sides;
            pixels = pixels;
          }
    ]
  where
    refused :
        safe_extension to_lower filename ≡ none
        → Path (Stored × Files) (invalid, files) (stored a, files')
    refused x = subst (λ o. put_as decode limits f random content o files ≡ (stored a, files')) x e
