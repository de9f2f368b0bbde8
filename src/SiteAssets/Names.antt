-- ===== src/SiteAssets/Names.antt =====
-- The keys of the store: what `Put` writes, `Open` and `Remove` take.
use safe_file_hub.Base.{
  ℕ, ◌*◌, ◌/◌, ◌%◌, ◌<◌, ◌≡◌, ◌⊎◌, refl, sym, ap, ◌∙◌, subst, inl, inr, Bool, true, false, not,
  ◌&&◌, ◌||◌, some, [], ◌∷◌, ◌++◌, ltb, leb, ◌==◌, Bytes, bytes_eq, bytes_eq_iff, bytes_eq_refl,
  codes, length, trim_prefix, has_prefix, drop_prefix, contains_byte, arith, All,
}
use safe_file_hub.Base.Split.{Lacks, Lacks-append, split-append, split-Lacks}
use safe_file_hub.SiteAssets.Images.{
  extension_of, stem_of, has_two_dots, is_type, known_extension, safe_extension, is_hex, is_some,
  valid_key, hex_digit, hex_of, key_of,
}

-- No capital letter, and nothing outside ASCII.
unfoldable pub is_lower : Bytes → Bool
is_lower [] = true
is_lower (c ∷ s) = (ltb c 128 && not (leb b'A' c && leb c b'Z')) && is_lower s

-- `strings.ToLower` leaves such a text alone.
abbrev pub KeepsLower : (Bytes → Bytes) → Type 0
KeepsLower to_lower = (s : Bytes) → is_lower s ≡ true → to_lower s ≡ s

dot_inside : (u v : Bytes) → contains_byte b'.' (u ++ b'.' ∷ v) ≡ true
unfolding contains_byte
dot_inside [] v = ground arith
dot_inside (c ∷ u) v = let ih = dot_inside u v in ground (arith, ih)

extension_of-Lacks : (s : Bytes) → Lacks b'.' s → extension_of s ≡ []
unfolding extension_of contains_byte
extension_of-Lacks [] h = refl
extension_of-Lacks (c ∷ s) h = ground (arith, h)

extension_of-append : (u v : Bytes) → Lacks b'.' v → extension_of (u ++ b'.' ∷ v) ≡ b'.' ∷ v
unfolding extension_of
extension_of-append [] v h = ground (arith, h)
extension_of-append (c ∷ u) v h =
    let ih = extension_of-append u v h in ground (arith, ih, dot_inside u v)

stem_of-append : (u v : Bytes) → Lacks b'.' v → stem_of (u ++ b'.' ∷ v) ≡ u
unfolding stem_of
stem_of-append [] v h = ground (arith, h)
stem_of-append (c ∷ u) v h = let ih = stem_of-append u v h in ground (arith, ih, dot_inside u v)

has_two_dots-Lacks : (s : Bytes) → Lacks b'.' s → has_two_dots s ≡ false
unfolding has_two_dots contains_byte
has_two_dots-Lacks [] h = refl
has_two_dots-Lacks (c ∷ []) h = refl
has_two_dots-Lacks (c ∷ d ∷ s) h = let ih = has_two_dots-Lacks (d ∷ s) in ground (arith, ih, h)

has_two_dots-append :
    (u v : Bytes) → Lacks b'.' u → Lacks b'.' v → has_two_dots (u ++ b'.' ∷ v) ≡ false
unfolding has_two_dots contains_byte
has_two_dots-append [] [] h k = refl
has_two_dots-append [] (d ∷ v) h k =
    let rest = has_two_dots-Lacks (d ∷ v) k in ground (arith, k, rest)
has_two_dots-append (c ∷ []) v h k =
    let ih = has_two_dots-append [] v refl k in ground (arith, h, ih)
has_two_dots-append (c ∷ d ∷ u) v h k =
    let ih = has_two_dots-append (d ∷ u) v in ground (arith, h, ih, k)

hex_digit-hex : (n : ℕ) → n < 16 → is_hex (hex_digit n ∷ []) ≡ true
unfolding is_hex hex_digit
hex_digit-hex n h = ground (arith, h)

is_hex-hex_of : (r : Bytes) → All (λ c. c < 256) r → is_hex (hex_of r) ≡ true
unfolding is_hex hex_of hex_digit
is_hex-hex_of [] a = refl
is_hex-hex_of (c ∷ r) (h, a) =
    let ih = is_hex-hex_of r a in
    let high : c / 16 < 16 = omega (arith, h) in
    let low : c % 16 < 16 = omega arith in
    ground (arith, ih, hex_digit-hex (c / 16) high, hex_digit-hex (c % 16) low)

length-hex_of : (r : Bytes) → length (hex_of r) ≡ 2 * length r
unfolding hex_of
length-hex_of [] = refl
length-hex_of (c ∷ r) = let ih = length-hex_of r in omega (arith, ih)

hex-Lacks : (s : Bytes) → is_hex s ≡ true → Lacks b'/' s × (Lacks b'.' s × Lacks b'\\' s)
unfolding is_hex contains_byte
hex-Lacks [] h = (refl, (refl, refl))
hex-Lacks (c ∷ s) h = let ih = hex-Lacks s in ground (arith, h, ih)

-- What makes an extension one that a key may have.
record Fits (to_lower : Bytes → Bytes) (ext : Bytes) : Type 0 where
  no_slash : Lacks b'/' ext
  no_dot : Lacks b'.' ext
  no_backslash : Lacks b'\\' ext
  kept : to_lower (b'.' ∷ ext) ≡ b'.' ∷ ext
  known : known_extension ext ≡ some ext

is_type-Fits :
    (to_lower : Bytes → Bytes) (ext : Bytes)
    → KeepsLower to_lower
    → is_type ext ≡ true
    → Fits to_lower ext
unfolding is_type known_extension is_lower contains_byte bytes_eq
is_type-Fits to_lower ext lower h =
    elim (one_of (bytes_eq ext (codes "png")) (bytes_eq ext (codes "jpeg"))
      (bytes_eq ext (codes "gif")) (bytes_eq ext (codes "ico")) h) [
        | inl (inl e) ↦ same (codes "png") e (record {
          no_slash = refl;
          no_dot = refl;
          no_backslash = refl;
          kept = lower (codes ".png") refl;
          known = refl;
        })
        | inl (inr e) ↦ same (codes "jpeg") e (record {
          no_slash = refl;
          no_dot = refl;
          no_backslash = refl;
          kept = lower (codes ".jpeg") refl;
          known = refl;
        })
        | inr (inl e) ↦ same (codes "gif") e (record {
          no_slash = refl;
          no_dot = refl;
          no_backslash = refl;
          kept = lower (codes ".gif") refl;
          known = refl;
        })
        | inr (inr e) ↦ same (codes "ico") e (record {
          no_slash = refl;
          no_dot = refl;
          no_backslash = refl;
          kept = lower (codes ".ico") refl;
          known = refl;
        })
      ]
  where
    one_of :
        (a b c d : Bool)
        → (a || (b || (c || d))) ≡ true
        → ((a ≡ true) ⊎ (b ≡ true)) ⊎ ((c ≡ true) ⊎ (d ≡ true))
    one_of true b c d e = inl (inl refl)
    one_of false true c d e = inl (inr refl)
    one_of false false true d e = inr (inl refl)
    one_of false false false d e = inr (inr e)

    same : (t : Bytes) → bytes_eq ext t ≡ true → Fits to_lower t → Fits to_lower ext
    same t e f = subst (Fits to_lower) (sym ((bytes_eq_iff ext t).0 e)) f

append_nonempty : (u : Bytes) (c : ℕ) (v : Bytes) → bytes_eq (u ++ c ∷ v) [] ≡ false
unfolding bytes_eq
append_nonempty [] c v = refl
append_nonempty (d ∷ u) c v = refl

dot_before : (x : ℕ) (s : Bytes) → Lacks x s → (b'.' == x) ≡ false → Lacks x (b'.' ∷ s)
unfolding contains_byte
dot_before x s h k = ground (arith, h, k)

trim_prefix-dot : (s : Bytes) → trim_prefix (b'.' ∷ s) (codes ".") ≡ s
unfolding trim_prefix has_prefix drop_prefix
trim_prefix-dot s = refl

-- The extension of a name that `Put` gives is read again as it is.
safe_extension-name :
    (to_lower : Bytes → Bytes) (u ext : Bytes)
    → Lacks b'/' u
    → Lacks b'.' u
    → Lacks b'\\' u
    → Fits to_lower ext
    → safe_extension to_lower (u ++ b'.' ∷ ext) ≡ some ext
unfolding safe_extension
safe_extension-name to_lower u ext a b c f =
    let name = u ++ b'.' ∷ ext in
    let same : trim_prefix (to_lower (extension_of name)) (codes ".") ≡ ext =
      ap (λ e. trim_prefix (to_lower e) (codes ".")) (extension_of-append u ext f.no_dot)
      ∙ (ap (λ e. trim_prefix e (codes ".")) f.kept ∙ trim_prefix-dot ext) in
    rw
      (
        append_nonempty u (b'.') ext,
        Lacks-append b'/' u (b'.' ∷ ext) a (dot_before b'/' ext f.no_slash refl),
        Lacks-append b'\\' u (b'.' ∷ ext) c (dot_before b'\\' ext f.no_backslash refl),
        has_two_dots-append u ext b f.no_dot,
      )
      (subst (λ e. known_extension e ≡ some ext) (sym same) f.known)

-- A key that is made of 32 random bytes and one of the four extensions is valid.
pub valid_key-key_of :
    (to_lower : Bytes → Bytes) (random ext : Bytes)
    → KeepsLower to_lower
    → length random ≡ 32
    → All (λ c. c < 256) random
    → is_type ext ≡ true
    → valid_key to_lower (key_of random ext) ≡ true
unfolding valid_key key_of is_some contains_byte
valid_key-key_of to_lower random ext lower n small t =
    let u = hex_of random in
    let name = u ++ b'.' ∷ ext in
    let f = is_type-Fits to_lower ext lower t in
    let hex = is_hex-hex_of random small in
    let (slash, (dot, backslash)) = hex-Lacks u hex in
    let alone =
      split-Lacks b'/' name
        (Lacks-append b'/' u (b'.' ∷ ext) slash (dot_before b'/' ext f.no_slash refl)) in
    let parts = split-append b'/' (codes "site") name refl in
    let long : length u ≡ 64 = (let double = length-hex_of random in omega (arith, double, n)) in
    rw
      (
        parts,
        alone,
        stem_of-append u ext f.no_dot,
        hex,
        safe_extension-name to_lower u ext slash dot backslash f,
      )
      (rw (long, bytes_eq_refl (codes "site")) refl)
