-- ===== src/PathPolicy/Safe.antt =====
-- What an accepted path consists of.
use safe_file_hub.Base.{
  ℕ, ◌≡◌, ◌≢◌, refl, inl, inr, Bool, true, false, ◌||◌, Option, none, some, List, [], ◌∷◌, Bytes,
  bytes_eq, bytes_eq_iff, All, split, join, if◌then◌else◌, arith, Bool-cases, Option-cases,
  contains_byte, has_prefix,
}
use safe_file_hub.Base.Utf8.{runes, valid_string}
use safe_file_hub.Base.Split.{Lacks, All-split}
use safe_file_hub.PathPolicy.{
  NamePolicy, LogicalPath, Result, ok, err, slash, dot, dot_dot, root, path_of, is_control,
  any_control, is_windows_reserved_name, validate_segment, validate_all, parse_segments,
  parse_valid_path, parse_decoded_path, parse_unescaped, parse_escaped_path,
  contains_percent_escape, unescape,
}

-- A segment that names one entry of a directory on any platform, and nothing else.
pub record IsSafeSegment (s : Bytes) : Type 0 where
  pub nonempty : s ≢ []
  pub not_dot : s ≢ dot
  pub not_dot_dot : s ≢ dot_dot
  pub no_slash : Lacks slash s
  pub no_backslash : Lacks b'\\' s
  pub no_control : All (λ r. is_control r ≡ false) (runes s)
  pub not_reserved : is_windows_reserved_name s ≡ false

-- A canonical path: a slash, and safe segments joined by slashes.
pub record IsSafe (p : LogicalPath) : Type 0 where
  pub text : p.canonical ≡ slash ∷ join slash p.segments
  pub safe : All IsSafeSegment p.segments

no_control_of : (rs : List ℕ) → any_control rs ≡ false → All (λ r. is_control r ≡ false) rs
unfolding any_control
no_control_of [] h = tt
no_control_of (r ∷ rs) h = (ground arith, no_control_of rs (ground arith))

pub record Passed (s : Bytes) : Type 0 where
  pub nonempty : bytes_eq s [] ≡ false
  pub not_dot : bytes_eq s dot ≡ false
  pub not_dot_dot : bytes_eq s dot_dot ≡ false
  pub no_backslash : contains_byte b'\\' s ≡ false
  pub no_control : any_control (runes s) ≡ false
  pub not_reserved : is_windows_reserved_name s ≡ false

passed : (s : Bytes) (policy : NamePolicy) → validate_segment s policy ≡ none → Passed s
unfolding validate_segment
passed s policy h = ground arith

differs : (a b : Bytes) → bytes_eq a b ≡ false → a ≢ b
differs a b h e = cc ((bytes_eq_iff a b).1 e)

pub validate_segment-IsSafe :
    (s : Bytes) (policy : NamePolicy)
    → Lacks slash s
    → validate_segment s policy ≡ none
    → IsSafeSegment s
validate_segment-IsSafe s policy l h =
    let p : Passed s = passed s policy h in
    record {
      nonempty = differs s [] p.nonempty;
      not_dot = differs s dot p.not_dot;
      not_dot_dot = differs s dot_dot p.not_dot_dot;
      no_slash = l;
      no_backslash = p.no_backslash;
      no_control = no_control_of (runes s) p.no_control;
      not_reserved = p.not_reserved;
    }

pub validate_all-tail :
    (s : Bytes) (ss : List Bytes) (policy : NamePolicy)
    → validate_all (s ∷ ss) policy ≡ none
    → (validate_segment s policy ≡ none) × (validate_all ss policy ≡ none)
unfolding validate_all
validate_all-tail s ss policy h = ground arith

pub validate_all-IsSafe :
    (ss : List Bytes) (policy : NamePolicy)
    → All (Lacks slash) ss
    → validate_all ss policy ≡ none
    → All IsSafeSegment ss
validate_all-IsSafe [] policy l h = tt
validate_all-IsSafe (s ∷ ss) policy l h =
    let (first, rest) = validate_all-tail s ss policy h in
    (validate_segment-IsSafe s policy l.0 first, validate_all-IsSafe ss policy l.1 rest)

root-IsSafe : IsSafe root
unfolding join
root-IsSafe = record { text = refl; safe = tt }

abbrev pub Holds : (LogicalPath → Type 0) → Result LogicalPath → Type 0
Holds P (ok p) = P p
Holds P (err e) = Unit

parse_segments-IsSafe :
    (nfc : Bytes → Bytes) (ss : List Bytes) (policy : NamePolicy)
    → All (Lacks slash) ss
    → Holds IsSafe (parse_segments nfc ss policy)
unfolding parse_segments path_of
parse_segments-IsSafe nfc ss policy l = elim (Option-cases (validate_all ss policy)) [
  | inl e ↦
      rw (e, parse_segments) (record { text = refl; safe = validate_all-IsSafe ss policy l e })
  | inr (x, e) ↦ rw (e, parse_segments) tt
]

pub parse_valid_path-IsSafe :
    (nfc : Bytes → Bytes) (d : Bytes) (policy : NamePolicy)
    → Holds IsSafe (parse_valid_path nfc d policy)
unfolding parse_valid_path
parse_valid_path-IsSafe nfc d policy = elim (Bool-cases (valid_string d)) [
  | inl e ↦ rw e (parse_segments-IsSafe nfc (split slash (nfc d)) policy (All-split slash (nfc d)))
  | inr e ↦ rw e tt
]

Holds-if :
    (P : LogicalPath → Type 0) (b : Bool) (x y : Result LogicalPath)
    → Holds P x
    → Holds P y
    → Holds P (if b then x else y)
Holds-if P true x y hx hy = hx
Holds-if P false x y hx hy = hy

parse_unescaped-IsSafe :
    (nfc : Bytes → Bytes) (d : Option Bytes) (policy : NamePolicy)
    → Holds IsSafe (parse_unescaped nfc d policy)
unfolding parse_unescaped
parse_unescaped-IsSafe nfc none policy = tt
parse_unescaped-IsSafe nfc (some d) policy =
    Holds-if IsSafe (contains_percent_escape d) _ _ tt (parse_valid_path-IsSafe nfc d policy)

-- Whatever text is parsed, encoded or decoded, and however Unicode is normalised, a path that is
-- accepted is a slash and segments joined by slashes, none of them empty, `.`, `..` or a name that
-- Windows reserves, and none with a slash, a backslash or a control character.
pub parse-IsSafe :
    (nfc : Bytes → Bytes) (text : Bytes) (policy : NamePolicy)
    → Holds IsSafe (parse_decoded_path nfc text policy)
      × Holds IsSafe (parse_escaped_path nfc text policy)
unfolding parse_decoded_path parse_escaped_path
parse-IsSafe nfc text policy = (
  Holds-if IsSafe (bytes_eq text (slash ∷ [])) _ _ root-IsSafe (
      Holds-if IsSafe (bytes_eq text [] || has_prefix text (slash ∷ [])) _ _ tt
        (parse_valid_path-IsSafe nfc text policy)),
  Holds-if IsSafe (bytes_eq text (slash ∷ [])) _ _ root-IsSafe (
      Holds-if IsSafe (bytes_eq text [] || has_prefix text (slash ∷ [])) _ _ tt
        (parse_unescaped-IsSafe nfc (unescape text) policy)),
)
