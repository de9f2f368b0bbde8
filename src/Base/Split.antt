-- ===== src/Base/Split.antt =====
-- The laws of `strings.Split` and `strings.Join` at a separator of one byte.
use safe_file_hub.Base.Lists.{Bytes, All, split, join, cons_head, contains_byte}
use safe_file_hub.Base.Tests.{◌==◌, Bool-cases}
use Prim.Native.Nat.{ℕ}
use mathlib.Core.Path.{◌≡◌, refl, ap}
use mathlib.Core.Logic.{◌≢◌, inl, inr}
use mathlib.Core.Bool.{false}
use mathlib.Core.List.{List, [], ◌∷◌, ◌++◌}
use native.Mathlib.Omega.{arith}

-- No byte of the text is the separator.
abbrev pub Lacks : ℕ → Bytes → Type 0
Lacks sep s = contains_byte sep s ≡ false

pub Lacks-append : (b : ℕ) (u v : Bytes) → Lacks b u → Lacks b v → Lacks b (u ++ v)
unfolding contains_byte
Lacks-append b [] v h k = k
Lacks-append b (c ∷ u) v h k = ground (arith, Lacks-append b u v)

pub split-ne-nil : (sep : ℕ) (s : Bytes) → split sep s ≢ []
unfolding split
split-ne-nil sep [] = λ e. ground arith
split-ne-nil sep (c ∷ s) = λ e. ground (arith, split-ne-nil sep s)

-- The first separator cuts off the first word.
pub split-append :
    (sep : ℕ) (u v : Bytes) → Lacks sep u → split sep (u ++ sep ∷ v) ≡ u ∷ split sep v
unfolding split contains_byte
split-append sep [] v h = ground arith
split-append sep (c ∷ u) v h = ground (arith, split-append sep u v)

pub split-Lacks : (sep : ℕ) (u : Bytes) → Lacks sep u → split sep u ≡ u ∷ []
unfolding split contains_byte
split-Lacks sep [] h = refl
split-Lacks sep (c ∷ u) h = ground (arith, split-Lacks sep u)

join-cons_head :
    (sep c : ℕ) (ws : List Bytes) → ws ≢ [] → join sep (cons_head c ws) ≡ c ∷ join sep ws
unfolding join
join-cons_head sep c [] h = absurd (h refl)
join-cons_head sep c (w ∷ []) h = refl
join-cons_head sep c (w ∷ v ∷ ws) h = refl

join-nil_cons : (sep : ℕ) (ws : List Bytes) → ws ≢ [] → join sep ([] ∷ ws) ≡ sep ∷ join sep ws
unfolding join
join-nil_cons sep [] h = absurd (h refl)
join-nil_cons sep (v ∷ ws) h = refl

-- Joining what was split gives the text back.
pub join-split : (sep : ℕ) (s : Bytes) → join sep (split sep s) ≡ s
unfolding split
join-split sep [] = unfold join in refl
join-split sep (c ∷ s) = ground (
  arith,
  join-split sep s,
  split-ne-nil sep s,
  join-nil_cons sep (split sep s),
  join-cons_head sep c (split sep s),
)

-- Splitting what was joined gives the words back, where no word has a separator.
pub split-join :
    (sep : ℕ) (w : Bytes) (ws : List Bytes)
    → Lacks sep w
    → All (Lacks sep) ws
    → split sep (join sep (w ∷ ws)) ≡ w ∷ ws
unfolding join
split-join sep w [] h hs = split-Lacks sep w h
split-join sep w (v ∷ ws) h hs =
    rw (split-append sep w (join sep (v ∷ ws)) h) (ap (λ t. w ∷ t) (split-join sep v ws hs.0 hs.1))

All-cons_head :
    (sep c : ℕ) (ws : List Bytes)
    → (c == sep) ≡ false
    → All (Lacks sep) ws
    → All (Lacks sep) (cons_head c ws)
unfolding contains_byte
All-cons_head sep c [] e h = (ground arith, tt)
All-cons_head sep c (w ∷ ws) e h = (ground (arith, h.0), h.1)

-- No word of a split has a separator.
pub All-split : (sep : ℕ) (s : Bytes) → All (Lacks sep) (split sep s)
unfolding split contains_byte
All-split sep [] = (refl, tt)
All-split sep (c ∷ s) = elim (Bool-cases (c == sep)) [
  | inl e ↦ rw e (refl, All-split sep s)
  | inr e ↦ rw e (All-cons_head sep c (split sep s) e (All-split sep s))
]

pub join_one : (sep : ℕ) (w : Bytes) → join sep (w ∷ []) ≡ w
unfolding join
join_one sep w = refl

pub join_more :
    (sep : ℕ) (w v : Bytes) (ws : List Bytes) → join sep (w ∷ v ∷ ws) ≡ w ++ sep ∷ join sep (v ∷ ws)
unfolding join
join_more sep w v ws = refl
