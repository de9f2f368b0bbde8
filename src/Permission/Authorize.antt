-- ===== src/Permission/Authorize.antt =====
-- `Authorize` decides by the rows that apply: those of the action whose prefix covers the path.
use safe_file_hub.Base.{
  ◌≡◌, ◌≢◌, refl, ap, sym, ◌⊎◌, inl, inr, Bool, true, ◌&&◌, Option, none, some, List, [], ◌∷◌, ◌++◌,
  append-nil, append_assoc, has_prefix, if◌then◌else◌, Bytes, bytes_eq, bytes_eq_iff, length, All,
  arith, codes, Bool-cases, Option-cases,
}
use safe_file_hub.PathPolicy
use safe_file_hub.PathPolicy.{NamePolicy, LogicalPath, slash}
use safe_file_hub.Permission.{
  Permission, ok, canonical_path, accept_same, matches, normal_word, normalize_action, Scan, start,
  consider, take_row, verdict, scan, scan_row, decide, authorize,
}
use safe_file_hub.Permission.Verdict.{Applied, Seen, Seen-consider, Seen-verdict, Judged, Granted}

-- The rows of the action whose prefix covers the path, as the length of the prefix and its effect.
pub applied : Bytes → Bytes → List Permission → List Applied
applied path action [] = []
applied path action (p ∷ ps) =
    let rest = applied path action ps in
    if bytes_eq p.action action && matches path p.path_prefix
    then (length p.path_prefix, p.allow) ∷ rest
    else rest

accept_same-cases :
    (v : Bytes) (r : PathPolicy.Result LogicalPath)
    → (accept_same v r ≡ none) ⊎ (accept_same v r ≡ some v)
unfolding accept_same
accept_same-cases v (PathPolicy.err e) = inl refl
accept_same-cases v (PathPolicy.ok p) = elim (Bool-cases (bytes_eq p.canonical v)) [
  | inl e ↦ inr (rw e (ap some ((bytes_eq_iff p.canonical v).0 e)))
  | inr e ↦ inl (rw e refl)
]

-- A canonical path is the text that was given.
pub canonical_path-cases :
    (nfc : Bytes → Bytes) (v : Bytes) (policy : NamePolicy)
    → (canonical_path nfc v policy ≡ none) ⊎ (canonical_path nfc v policy ≡ some v)
unfolding canonical_path
canonical_path-cases nfc v policy = elim (Bool-cases (bytes_eq v (slash ∷ []))) [
  | inl e ↦ inr (rw e (ap some (sym ((bytes_eq_iff v (slash ∷ [])).0 e))))
  | inr n ↦ elim (Bool-cases (has_prefix v (slash ∷ []))) [
    | inl e ↦ rw (n, e) (accept_same-cases v _)
    | inr e ↦ inl (rw (n, e) refl)
  ]
]

-- One of the four words that a row can have.
abbrev pub IsAction : Bytes → Type 0
IsAction word =
    (word ≡ codes "read")
    ⊎ ((word ≡ codes "write") ⊎ ((word ≡ codes "delete") ⊎ (word ≡ codes "archive")))

normalize_action-IsAction :
    (action word : Bytes) → normalize_action action ≡ some word → IsAction word
unfolding normalize_action
normalize_action-IsAction action word e =
    let a = normal_word action in
    ground (
      arith,
      bytes_eq_iff a (codes "read"),
      bytes_eq_iff a (codes "write"),
      bytes_eq_iff a (codes "delete"),
      bytes_eq_iff a (codes "archive"),
    )

module _ (nfc : Bytes → Bytes) (policy : NamePolicy) (path action : Bytes) where
  -- The row is read without an error.
  abbrev pub IsReadable : Permission → Type 0
  IsReadable p = bytes_eq p.action action ≡ true → canonical_path nfc p.path_prefix policy ≢ none

  covers : Permission → Bool
  covers p = bytes_eq p.action action && matches path p.path_prefix

  next_scan : Permission → Scan → Scan
  next_scan p s = if covers p then consider s (length p.path_prefix) p.allow else s

  scan_row-cases :
      (p : Permission) (s : Scan)
      → ((scan_row nfc policy path action p s ≡ none)
          × (bytes_eq p.action action ≡ true)
          × (canonical_path nfc p.path_prefix policy ≡ none))
        ⊎ (scan_row nfc policy path action p s ≡ some (next_scan p s))
  unfolding scan_row take_row next_scan covers
  scan_row-cases p s = elim (canonical_path-cases nfc p.path_prefix policy) [
    | inl e ↦ ground (arith, e)
    | inr e ↦ ground (arith, e)
  ]

  applied-covers :
      (p : Permission) (ps : List Permission)
      → applied path action (p ∷ ps) ≡ (
          if covers p
          then (length p.path_prefix, p.allow) ∷ applied path action ps
          else applied path action ps)
  unfolding applied covers
  applied-covers p ps = refl

  abbrev Ends : List Applied → Option Scan → Type 0
  Ends ms none = Unit
  Ends ms (some s) = Seen ms s

  scan_stop :
      (p : Permission) (ps : List Permission) (s : Scan)
      → scan_row nfc policy path action p s ≡ none
      → scan nfc policy path action (p ∷ ps) s ≡ none
  unfolding scan
  scan_stop p ps s e = ground (arith, e)

  scan_go :
      (p : Permission) (ps : List Permission) (s s' : Scan)
      → scan_row nfc policy path action p s ≡ some s'
      → scan nfc policy path action (p ∷ ps) s ≡ scan nfc policy path action ps s'
  unfolding scan
  scan_go p ps s s' e = ground (arith, e)

  Seen-next :
      (p : Permission) (ms : List Applied) (s : Scan)
      → Seen ms s
      → Seen (ms ++ (if covers p then (length p.path_prefix, p.allow) ∷ [] else [])) (next_scan p s)
  unfolding next_scan
  Seen-next p ms s h = elim (Bool-cases (covers p)) [
    | inl c ↦ rw c (Seen-consider ms s (length p.path_prefix) p.allow h)
    | inr c ↦ rw (c, append-nil) h
  ]

  applied-append :
      (p : Permission) (ms : List Applied) (ps : List Permission)
      → ms ++ applied path action (p ∷ ps)
        ≡ (ms ++ (if covers p then (length p.path_prefix, p.allow) ∷ [] else []))
          ++ applied path action ps
  applied-append p ms ps = elim (Bool-cases (covers p)) [
    | inl c ↦ rw (applied-covers p ps, c, append_assoc) refl
    | inr c ↦ rw (applied-covers p ps, c, append-nil) refl
  ]

  scan-Seen :
      (ps : List Permission) (ms : List Applied) (s : Scan)
      → Seen ms s
      → Ends (ms ++ applied path action ps) (scan nfc policy path action ps s)
  scan-Seen [] ms s h = unfold scan applied in rw append-nil h
  scan-Seen (p ∷ ps) ms s h = elim (scan_row-cases p s) [
    | inl (e, _, _) ↦ rw (scan_stop p ps s e) tt
    | inr e ↦
        rw (scan_go p ps s (next_scan p s) e, applied-append p ms ps)
          (scan-Seen ps _ (next_scan p s) (Seen-next p ms s h))
  ]

  scan-IsReadable :
      (ps : List Permission) (s : Scan)
      → All IsReadable ps
      → scan nfc policy path action ps s ≢ none
  scan-IsReadable [] s h e = unfold scan in cc e
  scan-IsReadable (p ∷ ps) s h e = elim (scan_row-cases p s) [
    | inl (_, a, c) ↦ h.0 a c
    | inr r ↦ scan-IsReadable ps (next_scan p s) h.1 (rw (scan_go p ps s (next_scan p s) r) at e)
  ]

module _ (nfc : Bytes → Bytes) (policy : NamePolicy) where
  ok_true : {b : Bool} → ok b ≡ ok true → b ≡ true
  ok_true h = cc

  at_word :
      (path action : Bytes) (rows : List Permission) {word : Bytes}
      → canonical_path nfc path policy ≡ some path
      → normalize_action action ≡ some word
      → authorize nfc policy path action (some rows) ≡ decide (scan nfc policy path word rows start)
  unfolding authorize decide
  at_word path action rows c w = rw (c, w) refl

  -- Where the path is canonical, the action is one of the four and every stored prefix of the action
  -- is canonical, the decision is made. Access is granted exactly when some row applies and every
  -- one of the longest prefixes that apply allows: without a row the answer is no, and a denial
  -- wins among prefixes of one length.
  pub authorize-Judged :
      (path action word : Bytes) (rows : List Permission)
      → canonical_path nfc path policy ≡ some path
      → normalize_action action ≡ some word
      → All (IsReadable nfc policy path word) rows
      → (b : Bool) × (authorize nfc policy path action (some rows) ≡ ok b)
        × Judged b (applied path word rows)
  unfolding decide
  authorize-Judged path action word rows c w r =
      elim (Option-cases (scan nfc policy path word rows start)) [
        | inl e ↦ absurd (scan-IsReadable nfc policy path word rows start r e)
        | inr (s, e) ↦ (
          verdict s,
          rw (at_word path action rows c w, e, decide) refl,
          Seen-verdict (applied path word rows) s
              (rw e at (scan-Seen nfc policy path word rows [] start (inl (refl, refl)))),
        )
      ]

  true_of_rows :
      (path action : Bytes) (ps : List Permission) {word : Bytes}
      → canonical_path nfc path policy ≡ some path
      → normalize_action action ≡ some word
      → authorize nfc policy path action (some ps) ≡ ok true
      → Granted (applied path word ps)
  unfolding decide
  true_of_rows path action ps {word} c w h =
      elim (Option-cases (scan nfc policy path word ps start)) [
        | inl e ↦ cc (rw (at_word path action ps c w, e, decide) at h)
        | inr (s, e) ↦
            let v : Judged (verdict s) (applied path word ps) =
              Seen-verdict (applied path word ps) s
                (rw e at (scan-Seen nfc policy path word ps [] start (inl (refl, refl)))) in
            let q : verdict s ≡ true = ok_true (rw (at_word path action ps c w, e, decide) at h) in
            rw q at v
      ]

  never_without_path :
      (path action : Bytes) (rows : Option (List Permission))
      → canonical_path nfc path policy ≡ none
      → authorize nfc policy path action rows ≢ ok true
  unfolding authorize
  never_without_path path action rows e h = cc (rw e at h)

  never_without_action :
      (path action : Bytes) (rows : Option (List Permission))
      → canonical_path nfc path policy ≡ some path
      → normalize_action action ≡ none
      → authorize nfc policy path action rows ≢ ok true
  unfolding authorize
  never_without_action path action rows c e h = cc (rw (c, e) at h)

  never_without_rows : (path action : Bytes) → authorize nfc policy path action none ≢ ok true
  unfolding authorize
  never_without_rows path action h = elim (canonical_path-cases nfc path policy) [
    | inl e ↦ never_without_path path action none e h
    | inr c ↦ elim (Option-cases (normalize_action action)) [
      | inl e ↦ never_without_action path action none c e h
      | inr (word, w) ↦ cc (rw (c, w) at h)
    ]
  ]

  -- Access is never granted without a canonical path, one of the four actions, a query that
  -- succeeds, and rows that grant it.
  pub authorize-true :
      (path action : Bytes) (rows : Option (List Permission))
      → authorize nfc policy path action rows ≡ ok true
      → (word : Bytes) × (ps : List Permission) × (canonical_path nfc path policy ≡ some path)
        × (normalize_action action ≡ some word)
        × IsAction word
        × (rows ≡ some ps)
        × Granted (applied path word ps)
  authorize-true path action none h = absurd (never_without_rows path action h)
  authorize-true path action (some ps) h = elim (canonical_path-cases nfc path policy) [
    | inl e ↦ absurd (never_without_path path action (some ps) e h)
    | inr c ↦ elim (Option-cases (normalize_action action)) [
      | inl e ↦ absurd (never_without_action path action (some ps) c e h)
      | inr (word, w) ↦ (
        word,
        ps,
        c,
        w,
        normalize_action-IsAction action word w,
        refl,
        true_of_rows path action ps c w h,
      )
    ]
  ]
