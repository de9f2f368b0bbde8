-- ===== src/Permission/Tests.antt =====
-- Decisions of authorize_test.go, and the theorems at concrete rows.
use safe_file_hub.Base.{
  ◌≡◌, ◌≢◌, refl, Bool, true, false, List, [], ◌∷◌, none, some, codes, Bytes, arith, join,
  contains_byte, drop_prefix, bytes_eq, has_prefix, split,
}
use safe_file_hub.Base.Utf8.{normal_word, valid_string, runes}
use safe_file_hub.PathPolicy.{NamePolicy, slash, parse_decoded_path}
use safe_file_hub.Permission.{
  Permission, ok, authorize, canonical_path, normalize_action, matches, scan, scan_row,
}
use safe_file_hub.Permission.Verdict.{Judged, Granted}
use safe_file_hub.Permission.Authorize.{IsAction, applied, authorize-Judged, authorize-true}
use safe_file_hub.Permission.Prefix.{is_segment_prefix, matches-eq}

abbrev plain : Bytes → Bytes
plain s = s

abbrev lax : NamePolicy
lax = record {
  reject_leading_dot = false;
  reject_leading_tilde = false;
  reject_leading_dollar = false;
  reject_leading_hash = false;
}

abbrev row : Bytes → Bool → Permission
row prefix allow = record { path_prefix = prefix; action = codes "read"; allow = allow }

-- Everything may be read but what is under `/private`.
abbrev rows : List Permission
rows = row (codes "/") true ∷ row (codes "/private") false ∷ []

reads_public : authorize plain lax (codes "/public/a") (codes " Read ") (some rows) ≡ ok true
unfolding authorize canonical_path normalize_action scan scan_row parse_decoded_path drop_prefix
    normal_word bytes_eq has_prefix valid_string split contains_byte runes join
reads_public = refl

hides_private : authorize plain lax (codes "/private/a") (codes "read") (some rows) ≡ ok false
unfolding authorize canonical_path normalize_action scan scan_row parse_decoded_path drop_prefix
    normal_word bytes_eq has_prefix valid_string split contains_byte runes join
hides_private = refl

abbrev private_a : Bytes
private_a = codes "/private/a"

private_a-canonical : canonical_path plain private_a lax ≡ some private_a
unfolding canonical_path parse_decoded_path drop_prefix bytes_eq has_prefix valid_string split
    contains_byte runes join
private_a-canonical = refl

read_word : normalize_action (codes "read") ≡ some (codes "read")
unfolding normalize_action normal_word bytes_eq
read_word = refl

readable_root : canonical_path plain (codes "/") lax ≢ none
unfolding canonical_path bytes_eq
readable_root e = cc e

readable_private : canonical_path plain (codes "/private") lax ≢ none
unfolding canonical_path parse_decoded_path drop_prefix bytes_eq has_prefix valid_string split
    contains_byte runes join
readable_private e = cc e

authorize-Judged_example :
    (b : Bool) × (authorize plain lax private_a (codes "read") (some rows) ≡ ok b)
    × Judged b (applied private_a (codes "read") rows)
authorize-Judged_example =
    authorize-Judged plain lax private_a (codes "read") (codes "read") rows private_a-canonical
      read_word ((λ _. readable_root), ((λ _. readable_private), tt))

authorize-true_example :
    (word : Bytes) × (ps : List Permission) × (canonical_path plain (codes "/public/a") lax
      ≡ some (codes "/public/a"))
    × (normalize_action (codes " Read ") ≡ some word)
    × IsAction word
    × (some rows ≡ some ps)
    × Granted (applied (codes "/public/a") word ps)
authorize-true_example =
    authorize-true plain lax (codes "/public/a") (codes " Read ") (some rows) reads_public

matches-eq_example :
    matches (slash ∷ join slash (codes "a" ∷ codes "b" ∷ [])) (slash ∷ join slash (codes "ab" ∷ []))
    ≡ is_segment_prefix (codes "ab" ∷ []) (codes "a" ∷ codes "b" ∷ [])
unfolding contains_byte
matches-eq_example =
    matches-eq (codes "a") (codes "b" ∷ []) (codes "ab" ∷ []) (refl, (refl, tt)) (refl, tt)
      (ground arith, tt)
