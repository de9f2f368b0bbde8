-- ===== src/PathPolicy/Tests.antt =====
-- Paths of path_test.go, and the theorems at concrete paths. ASCII text is its own normal form.
use safe_file_hub.Base.{
  ◌≡◌, refl, true, [], ◌∷◌, codes, Bytes, arith, ◌⊎◌, bytes_eq, has_prefix, if◌then◌else◌, split,
  contains_byte, join,
}
use safe_file_hub.Base.Utf8.{valid_string, runes}
use safe_file_hub.PathPolicy.{
  NamePolicy, LogicalPath, ok, err, traversal, double_encoding, reserved, slash, root,
  contains_percent_escape, parse_decoded_path, parse_escaped_path,
}
use safe_file_hub.PathPolicy.Safe.{Holds, IsSafe, parse-IsSafe}
use safe_file_hub.PathPolicy.Canonical.{IsNormalForm, parse_decoded_path_idem}
use safe_file_hub.PathPolicy.Escaped.{escape_all, parse_escaped_path-escape_all}

abbrev plain : Bytes → Bytes
plain s = s

abbrev strict : NamePolicy
strict = record {
  reject_leading_dot = true;
  reject_leading_tilde = true;
  reject_leading_dollar = true;
  reject_leading_hash = true;
}

abbrev report : LogicalPath
report = record {
  canonical = codes "/reports/a.txt";
  segments = codes "reports" ∷ codes "a.txt" ∷ [];
}

accepts_report : parse_decoded_path plain (codes "reports/a.txt") strict ≡ ok report
unfolding parse_decoded_path bytes_eq has_prefix valid_string split contains_byte runes join
accepts_report = refl

decodes_once : parse_escaped_path plain (codes "reports%2fa.txt") strict ≡ ok report
unfolding parse_escaped_path bytes_eq has_prefix valid_string split contains_byte runes join
decodes_once = refl

refuses_traversal : parse_escaped_path plain (codes "a/%2e%2e/b") strict ≡ err traversal
unfolding parse_escaped_path bytes_eq has_prefix valid_string split contains_byte runes join
refuses_traversal = refl

refuses_double : parse_escaped_path plain (codes "%252e") strict ≡ err double_encoding
unfolding parse_escaped_path bytes_eq has_prefix valid_string split contains_byte runes join
refuses_double = refl

refuses_device : parse_decoded_path plain (codes "a/com7.log") strict ≡ err reserved
unfolding parse_decoded_path bytes_eq has_prefix valid_string split contains_byte runes join
refuses_device = refl

plain-IsNormalForm : IsNormalForm plain
plain-IsNormalForm = record { idem = λ s. refl; valid = λ s h. h }

parse-IsSafe_example :
    Holds IsSafe (parse_decoded_path plain (codes "reports/a.txt") strict)
    × Holds IsSafe (parse_escaped_path plain (codes "reports/a.txt") strict)
parse-IsSafe_example = parse-IsSafe plain (codes "reports/a.txt") strict

parse_decoded_path_idem_example :
    (report ≡ root)
    ⊎ ((t : Bytes) × (report.canonical ≡ slash ∷ t)
        × (parse_decoded_path plain t strict ≡ ok report))
parse_decoded_path_idem_example =
    parse_decoded_path_idem plain (codes "reports/a.txt") strict plain-IsNormalForm accepts_report

parse_escaped_path-escape_all_example :
    parse_escaped_path plain (escape_all (codes "a/b")) strict ≡ (
      if contains_percent_escape (codes "a/b")
      then err double_encoding
      else parse_decoded_path plain (codes "a/b") strict)
unfolding has_prefix
parse_escaped_path-escape_all_example =
    parse_escaped_path-escape_all plain (codes "a/b") strict (omega arith) (ground arith) refl
