-- ===== src/Permission/Verdict.antt =====
-- The decision of the loop: the longest prefixes that apply decide, and a denial among them wins.
use safe_file_hub.Base.{
  ℕ, ◌≤◌, ◌<◌, ◌≡◌, refl, ◌⊎◌, inl, inr, Bool, true, false, not, ◌&&◌, List, [], ◌∷◌, ◌++◌, All,
  All-append, arith, Bool-cases,
}
use safe_file_hub.Base.Int.{pos, negsuc}
use safe_file_hub.Permission.{Scan, consider, verdict}

abbrev pub Any {ℓ} : {A : Type ℓ} → (A → Type 0) → List A → Type 0
Any P [] = ⊥
Any P (x ∷ xs) = P x ⊎ Any P xs

Any-append_left {ℓ} : {A : Type ℓ} (P : A → Type 0) (xs ys : List A) → Any P xs → Any P (xs ++ ys)
Any-append_left P [] ys h = absurd h
Any-append_left P (x ∷ xs) ys (inl h) = inl h
Any-append_left P (x ∷ xs) ys (inr h) = inr (Any-append_left P xs ys h)

Any-append_right {ℓ} : {A : Type ℓ} (P : A → Type 0) (xs ys : List A) → Any P ys → Any P (xs ++ ys)
Any-append_right P [] ys h = h
Any-append_right P (x ∷ xs) ys h = inr (Any-append_right P xs ys h)

All-map {ℓ κ} :
    {A : Type ℓ} (P Q : A → Type κ) (xs : List A) → ((x : A) → P x → Q x) → All P xs → All Q xs
All-map P Q [] f h = tt
All-map P Q (x ∷ xs) f h = (f x h.0, All-map P Q xs f h.1)

-- A row that applies to a request: the length of its prefix, and whether it allows.
abbrev pub Applied : Type 0
Applied = ℕ × Bool

-- Every row is at most this long, and the rows of just this length allow.
abbrev pub Longest : ℕ → List Applied → Type 0
Longest n = All (λ m. m.0 ≤ n)

abbrev pub Granting : ℕ → List Applied → Type 0
Granting n = All (λ m. m.0 ≡ n → m.1 ≡ true)

-- Access is granted: some row applies, and all of the longest allow.
abbrev pub Granted : List Applied → Type 0
Granted ms = (n : ℕ) × Any (λ m. m.0 ≡ n) ms × Longest n ms × Granting n ms

-- Access is refused: no row applies, or one of the longest denies.
abbrev pub Refused : List Applied → Type 0
Refused ms = (ms ≡ []) ⊎ ((n : ℕ) × Longest n ms × Any (λ m. (m.0 ≡ n) × (m.1 ≡ false)) ms)

abbrev pub Judged : Bool → List Applied → Type 0
Judged true ms = Granted ms
Judged false ms = Refused ms

-- What the variables of the loop say of the rows that it has read.
abbrev pub Seen : List Applied → Scan → Type 0
Seen ms s =
    ((s.best ≡ negsuc 0) × (ms ≡ []))
    ⊎ ((n : ℕ) × (s.best ≡ pos n)
        × Any (λ m. m.0 ≡ n) ms
        × Longest n ms
        × (((s.allow && not s.denied) ≡ true × Granting n ms)
            ⊎ ((s.allow && not s.denied) ≡ false × Any (λ m. (m.0 ≡ n) × (m.1 ≡ false)) ms)))

All-snoc {ℓ κ} :
    {A : Type ℓ} (P : A → Type κ) (xs : List A) (x : A) → All P xs → P x → All P (xs ++ x ∷ [])
All-snoc P xs x h p = All-append P xs (x ∷ []) h (p, tt)

Any-last {ℓ} : {A : Type ℓ} (P : A → Type 0) (xs : List A) (x : A) → P x → Any P (xs ++ x ∷ [])
Any-last P xs x p = Any-append_right P xs (x ∷ []) (inl p)

-- A row with a longer prefix than all before it takes over.
longer :
    (ms : List Applied) (n k : ℕ) (a : Bool)
    → Longest n ms
    → n < k
    → Longest k (ms ++ (k, a) ∷ []) × (a ≡ true → Granting k (ms ++ (k, a) ∷ []))
longer ms n k a h lt = (
  All-snoc _ ms (k, a) (All-map _ _ ms (λ m le. omega arith) h) (omega arith),
  λ e. All-snoc _ ms (k, a) (All-map _ _ ms (λ m le eq. absurd (omega arith)) h) (λ _. e),
)

Seen-first : (s : Scan) (k : ℕ) (a : Bool) → s.best ≡ negsuc 0 → Seen ((k, a) ∷ []) (consider s k a)
unfolding consider
Seen-first s k true e =
    inr (k, ground arith, inl refl, (omega arith, tt), inl (ground arith, ((λ _. refl), tt)))
Seen-first s k false e =
    inr (k, ground arith, inl refl, (omega arith, tt), inr (ground arith, inl (refl, refl)))

consider-new :
    (s : Scan) (n k : ℕ) (a : Bool)
    → s.best ≡ pos n
    → n < k
    → consider s k a ≡ record { best = pos k; allow = a; denied = not a }
unfolding consider
consider-new s n k a e lt = ground arith

consider-old :
    (s : Scan) (n k : ℕ) (a : Bool)
    → s.best ≡ pos n
    → ((k < n) ⊎ (a ≡ true))
    → k ≤ n
    → consider s k a ≡ s
unfolding consider
consider-old s n k a e w le = ground arith

consider-deny :
    (s : Scan) (n : ℕ) → s.best ≡ pos n → consider s n false ≡ record s { denied = true }
unfolding consider
consider-deny s n e = ground arith

-- Either side of the last disjunction of `Seen` after a row that changes nothing.
kept :
    (ms : List Applied) (s : Scan) (n k : ℕ) (a : Bool)
    → s.best ≡ pos n
    → Any (λ m. m.0 ≡ n) ms
    → Longest n ms
    → (((s.allow && not s.denied) ≡ true × Granting n ms)
        ⊎ ((s.allow && not s.denied) ≡ false × Any (λ m. (m.0 ≡ n) × (m.1 ≡ false)) ms))
    → k ≤ n
    → (k ≡ n → a ≡ true)
    → Seen (ms ++ (k, a) ∷ []) s
kept ms s n k a e some_n le (inl (g, all)) kn w = inr (
  n,
  e,
  Any-append_left _ ms _ some_n,
  All-snoc _ ms (k, a) le kn,
  inl (g, All-snoc _ ms (k, a) all w),
)
kept ms s n k a e some_n le (inr (g, d)) kn w = inr (
  n,
  e,
  Any-append_left _ ms _ some_n,
  All-snoc _ ms (k, a) le kn,
  inr (g, Any-append_left _ ms _ d),
)

replaced :
    (ms : List Applied) (n k : ℕ) (a : Bool)
    → Longest n ms
    → n < k
    → Seen (ms ++ (k, a) ∷ []) (record { best = pos k; allow = a; denied = not a })
replaced ms n k true le lt =
    let l = longer ms n k true le lt in
    inr (k, refl, Any-last _ ms (k, true) refl, l.0, inl (refl, l.1 refl))
replaced ms n k false le lt =
    let l = longer ms n k false le lt in
    inr (
      k,
      refl,
      Any-last _ ms (k, false) refl,
      l.0,
      inr (refl, Any-last _ ms (k, false) (refl, refl)),
    )

denying :
    (ms : List Applied) (s : Scan) (n : ℕ)
    → s.best ≡ pos n
    → Any (λ m. m.0 ≡ n) ms
    → Longest n ms
    → Seen (ms ++ (n, false) ∷ []) (record s { denied = true })
denying ms s n e some_n le = inr (
  n,
  e,
  Any-append_left _ ms _ some_n,
  All-snoc _ ms (n, false) le (omega arith),
  inr (ground arith, Any-last _ ms (n, false) (refl, refl)),
)

order : (a b : ℕ) → (a < b) ⊎ ((b < a) ⊎ (a ≡ b))
order a b = grind arith

pub Seen-consider :
    (ms : List Applied) (s : Scan) (k : ℕ) (a : Bool)
    → Seen ms s
    → Seen (ms ++ (k, a) ∷ []) (consider s k a)
Seen-consider ms s k a (inl (e, none_yet)) = rw none_yet (Seen-first s k a e)
Seen-consider ms s k a (inr (n, e, some_n, le, w)) = elim (order n k) [
  | inl lt ↦ rw (consider-new s n k a e lt) (replaced ms n k a le lt)
  | inr (inl gt) ↦
      rw (consider-old s n k a e (inl gt) (omega arith))
        (kept ms s n k a e some_n le w (omega arith) (λ q. absurd (omega arith)))
  | inr (inr eq) ↦ elim (Bool-cases a) [
    | inl allows ↦
        rw (consider-old s n k a e (inr allows) (omega arith))
          (kept ms s n k a e some_n le w (omega arith) (λ _. allows))
    | inr denies ↦ rw (denies, ← eq, consider-deny s n e) (denying ms s n e some_n le)
  ]
]

verdict_at : (s : Scan) (n : ℕ) → s.best ≡ pos n → verdict s ≡ (s.allow && not s.denied)
unfolding verdict
verdict_at s n e = ground arith

verdict_none : (s : Scan) → s.best ≡ negsuc 0 → verdict s ≡ false
unfolding verdict
verdict_none s e = ground arith

pub Seen-verdict : (ms : List Applied) (s : Scan) → Seen ms s → Judged (verdict s) ms
Seen-verdict ms s (inl (e, none_yet)) = rw (verdict_none s e) (inl none_yet)
Seen-verdict ms s (inr (n, e, some_n, le, inl (g, all))) =
    rw (verdict_at s n e, g) (n, some_n, le, all)
Seen-verdict ms s (inr (n, e, some_n, le, inr (g, d))) = rw (verdict_at s n e, g) (inr (n, le, d))
