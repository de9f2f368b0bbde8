-- ===== src/Permission/Prefix.antt =====
-- A prefix covers whole segments: `/a` covers `/a/b` and not `/ab`.
use safe_file_hub.Base.{
  ◌≡◌, ◌≢◌, refl, ap, Bool, true, false, ◌&&◌, ◌||◌, List, [], ◌∷◌, ◌++◌, Bytes, All, bytes_eq,
  has_prefix, join, contains_byte, append_assoc, arith,
}
use safe_file_hub.Base.Split.{Lacks, join_one, join_more}
use safe_file_hub.PathPolicy.{slash}
use safe_file_hub.Permission.{matches}

-- The first list of segments is where the second begins.
pub is_segment_prefix : List Bytes → List Bytes → Bool
is_segment_prefix [] ps = true
is_segment_prefix (q ∷ qs) [] = false
is_segment_prefix (q ∷ qs) (p ∷ ps) = bytes_eq p q && is_segment_prefix qs ps

-- Past a segment without a slash, on both sides, the texts are compared from the next slash on.
has_prefix-segment :
    (p q r t : Bytes)
    → Lacks slash p
    → Lacks slash q
    → has_prefix (p ++ slash ∷ r) (q ++ slash ∷ t) ≡ (bytes_eq p q && has_prefix r t)
unfolding has_prefix bytes_eq contains_byte
has_prefix-segment [] [] r t hp hq = refl
has_prefix-segment [] (d ∷ q) r t hp hq = ground arith
has_prefix-segment (c ∷ p) [] r t hp hq = ground arith
has_prefix-segment (c ∷ p) (d ∷ q) r t hp hq = ground (arith, has_prefix-segment p q r t)

-- A last segment has no slash left to match.
has_prefix_last : (p q t : Bytes) → Lacks slash p → has_prefix p (q ++ slash ∷ t) ≡ false
unfolding has_prefix contains_byte
has_prefix_last [] [] t h = refl
has_prefix_last [] (d ∷ q) t h = refl
has_prefix_last (c ∷ p) [] t h = ground arith
has_prefix_last (c ∷ p) (d ∷ q) t h = ground (arith, has_prefix_last p q t)

bytes_eq-segment :
    (p q r t : Bytes)
    → Lacks slash p
    → Lacks slash q
    → bytes_eq (p ++ slash ∷ r) (q ++ slash ∷ t) ≡ (bytes_eq p q && bytes_eq r t)
unfolding bytes_eq contains_byte
bytes_eq-segment [] [] r t hp hq = refl
bytes_eq-segment [] (d ∷ q) r t hp hq = ground arith
bytes_eq-segment (c ∷ p) [] r t hp hq = ground arith
bytes_eq-segment (c ∷ p) (d ∷ q) r t hp hq = ground (arith, bytes_eq-segment p q r t)

bytes_eq_short : (p q t : Bytes) → Lacks slash p → bytes_eq p (q ++ slash ∷ t) ≡ false
unfolding bytes_eq contains_byte
bytes_eq_short [] [] t h = refl
bytes_eq_short [] (d ∷ q) t h = refl
bytes_eq_short (c ∷ p) [] t h = ground arith
bytes_eq_short (c ∷ p) (d ∷ q) t h = ground (arith, bytes_eq_short p q t)

bytes_eq_long : (p q r : Bytes) → Lacks slash q → bytes_eq (p ++ slash ∷ r) q ≡ false
unfolding bytes_eq contains_byte
bytes_eq_long [] [] r h = refl
bytes_eq_long [] (d ∷ q) r h = ground arith
bytes_eq_long (c ∷ p) [] r h = refl
bytes_eq_long (c ∷ p) (d ∷ q) r h = ground (arith, bytes_eq_long p q r)

-- The two tests of `matches` behind the leading slash.
covers : List Bytes → List Bytes → Bool
covers ps qs =
    bytes_eq (join slash ps) (join slash qs)
    || has_prefix (join slash ps) (join slash qs ++ slash ∷ [])

with_slash :
    (w v : Bytes) (ws : List Bytes)
    → join slash (w ∷ v ∷ ws) ++ slash ∷ [] ≡ w ++ slash ∷ (join slash (v ∷ ws) ++ slash ∷ [])
with_slash w v ws = rw (join_more, append_assoc) refl

and-or : (a b c : Bool) → (a && b || a && c) ≡ (a && (b || c))
and-or true b c = refl
and-or false b c = refl

has_prefix_nil : (r : Bytes) → has_prefix r [] ≡ true
unfolding has_prefix
has_prefix_nil r = ground arith

covers-eq :
    (p : Bytes) (ps : List Bytes) (q : Bytes) (qs : List Bytes)
    → All (Lacks slash) (p ∷ ps)
    → All (Lacks slash) (q ∷ qs)
    → covers (p ∷ ps) (q ∷ qs) ≡ is_segment_prefix (q ∷ qs) (p ∷ ps)
unfolding covers is_segment_prefix
covers-eq p [] q [] hp hq =
    rw (join_one slash p, join_one slash q) (ground (arith, has_prefix_last p q [] hp.0))
covers-eq p [] q (q' ∷ qs) hp hq =
    rw
      (
        with_slash q q' qs,
        join_more slash q q' qs,
        join_one slash p,
        has_prefix_last p q (join slash (q' ∷ qs) ++ slash ∷ []) hp.0,
        bytes_eq_short p q (join slash (q' ∷ qs)) hp.0,
      )
      (ground arith)
covers-eq p (p' ∷ ps) q [] hp hq =
    rw
      (
        join_more slash p p' ps,
        join_one slash q,
        has_prefix-segment p q (join slash (p' ∷ ps)) [] hp.0 hq.0,
        bytes_eq_long p q (join slash (p' ∷ ps)) hq.0,
        has_prefix_nil,
      )
      refl
covers-eq p (p' ∷ ps) q (q' ∷ qs) hp hq =
    rw
      (
        with_slash q q' qs,
        join_more slash q q' qs,
        join_more slash p p' ps,
        has_prefix-segment p q (join slash (p' ∷ ps)) (join slash (q' ∷ qs) ++ slash ∷ []) hp.0
            hq.0,
        bytes_eq-segment p q (join slash (p' ∷ ps)) (join slash (q' ∷ qs)) hp.0 hq.0,
        and-or,
      )
      (ap (λ t. bytes_eq p q && t) (covers-eq p' ps q' qs hp.1 hq.1))

join_nonempty : (q : Bytes) (qs : List Bytes) → q ≢ [] → bytes_eq (join slash (q ∷ qs)) [] ≡ false
unfolding bytes_eq join
join_nonempty [] qs ne = absurd (ne refl)
join_nonempty (c ∷ q) [] ne = refl
join_nonempty (c ∷ q) (q' ∷ qs) ne = refl

behind_slash :
    (a b : Bytes)
    → matches (slash ∷ a) (slash ∷ b)
      ≡ (bytes_eq b [] || (bytes_eq a b || has_prefix a (b ++ slash ∷ [])))
unfolding matches bytes_eq has_prefix
behind_slash a b = ground arith

-- For canonical paths, given by their segments, a prefix covers a path exactly when its segments
-- are the first segments of the path. A prefix without segments is the root and covers all.
pub matches-eq :
    (p : Bytes) (ps qs : List Bytes)
    → All (Lacks slash) (p ∷ ps)
    → All (Lacks slash) qs
    → All (λ q. q ≢ []) qs
    → matches (slash ∷ join slash (p ∷ ps)) (slash ∷ join slash qs) ≡ is_segment_prefix qs (p ∷ ps)
unfolding covers is_segment_prefix join bytes_eq
matches-eq p ps [] hp hq ne = rw (behind_slash (join slash (p ∷ ps)) (join slash [])) refl
matches-eq p ps (q ∷ qs) hp hq ne =
    rw (behind_slash (join slash (p ∷ ps)) (join slash (q ∷ qs)), join_nonempty q qs ne.0)
      (covers-eq p ps q qs hp hq)
