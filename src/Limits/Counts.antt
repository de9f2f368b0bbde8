-- ===== src/Limits/Counts.antt =====
-- The per-key counters of the upload limiter, and the live leases that they count.
use safe_file_hub.Base.{
  ℕ, zero, suc, ◌+◌, ◌≡◌, refl, inl, inr, String, true, false, not, ◌&&◌, some, List, [], ◌∷◌, ◌++◌,
  if◌then◌else◌, arith, str_eq, eq_iff, Bool-cases,
}
use safe_file_hub.Base.Int.{ℤ, pos, negsuc}
use safe_file_hub.Base.Store.{Table, insert, erase, lookup-insert, lookup-erase}
use safe_file_hub.Limits.{
  Lease, count, increment, decrement, suc_ℤ, pred_ℤ, is_zero_ℤ, lease_at, mark_done,
}

pub count-increment :
    (k j : String) (m : Table ℤ)
    → count j (increment k m) ≡ (if str_eq k j then suc_ℤ (count k m) else count j m)
unfolding count increment
count-increment k j m = ground (arith, lookup-insert k j (suc_ℤ (count k m)) m)

is_zero_ℤ→eq : (n : ℤ) → is_zero_ℤ n ≡ true → n ≡ pos 0
unfolding is_zero_ℤ
is_zero_ℤ→eq (pos zero) h = refl
is_zero_ℤ→eq (pos (suc n)) h = ground arith
is_zero_ℤ→eq (negsuc n) h = ground arith

count-insert :
    (k j : String) (n : ℤ) (m : Table ℤ)
    → count j (insert k n m) ≡ (if str_eq k j then n else count j m)
unfolding count
count-insert k j n m = ground (arith, lookup-insert k j n m)

count-erase :
    (k j : String) (m : Table ℤ) → count j (erase k m) ≡ (if str_eq k j then pos 0 else count j m)
unfolding count
count-erase k j m = ground (arith, lookup-erase k j m)

pub count-decrement :
    (k j : String) (m : Table ℤ)
    → count j (decrement k m) ≡ (if str_eq k j then pred_ℤ (count k m) else count j m)
unfolding decrement
count-decrement k j m =
    let m' = insert k (pred_ℤ (count k m)) m in
    elim (Bool-cases (is_zero_ℤ (count k m'))) [
      | inl z ↦ ground (
        arith,
        z,
        is_zero_ℤ→eq (count k m') z,
        eq_iff k k,
        eq_iff k j,
        count-insert k k (pred_ℤ (count k m)) m,
        count-insert k j (pred_ℤ (count k m)) m,
        count-erase k j m',
      )
      | inr n ↦ ground (arith, n, count-insert k j (pred_ℤ (count k m)) m)
    ]

-- The leases of a key that have not been released.
abbrev pub live_by : (Lease → String) → String → List Lease → ℕ
live_by key k [] = 0
live_by key k (l ∷ ls) = (if not l.done && str_eq (key l) k then 1 else 0) + live_by key k ls

abbrev pub live : List Lease → ℕ
live [] = 0
live (l ∷ ls) = (if l.done then 0 else 1) + live ls

pub live_by-append :
    (key : Lease → String) (k : String) (ls : List Lease) (l : Lease)
    → live_by key k (ls ++ l ∷ [])
      ≡ live_by key k ls + (if not l.done && str_eq (key l) k then 1 else 0)
live_by-append key k [] l = ground arith
live_by-append key k (x ∷ ls) l = ground (arith, live_by-append key k ls l)

pub live-append :
    (ls : List Lease) (l : Lease) → live (ls ++ l ∷ []) ≡ live ls + (if l.done then 0 else 1)
live-append [] l = ground arith
live-append (x ∷ ls) l = ground (arith, live-append ls l)

abbrev pub KeepsKey : (Lease → String) → Type 0
KeepsKey key = (l : Lease) → key (record l { done = true }) ≡ key l

pub live_by-mark_done :
    (key : Lease → String) (keeps : KeepsKey key) (k : String) (i : ℕ) (ls : List Lease) {l : Lease}
    → lease_at i ls ≡ some l
    → l.done ≡ false
    → live_by key k ls ≡ live_by key k (mark_done i ls) + (if str_eq (key l) k then 1 else 0)
unfolding lease_at mark_done
live_by-mark_done key keeps k i [] h d = ground arith
live_by-mark_done key keeps k zero (x ∷ ls) h d = ground arith
live_by-mark_done key keeps k (suc i) (x ∷ ls) h d =
    ground (arith, live_by-mark_done key keeps k i ls h d)

pub live-mark_done :
    (i : ℕ) (ls : List Lease) {l : Lease}
    → lease_at i ls ≡ some l
    → l.done ≡ false
    → live ls ≡ suc (live (mark_done i ls))
unfolding lease_at mark_done
live-mark_done i [] h d = ground arith
live-mark_done zero (x ∷ ls) h d = ground arith
live-mark_done (suc i) (x ∷ ls) h d = ground (arith, live-mark_done i ls h d)

pub lease_at-mark_done :
    (i : ℕ) (ls : List Lease) {l : Lease}
    → lease_at i ls ≡ some l
    → lease_at i (mark_done i ls) ≡ some (record l { done = true })
unfolding lease_at mark_done
lease_at-mark_done i [] h = ground arith
lease_at-mark_done zero (x ∷ ls) h = ground arith
lease_at-mark_done (suc i) (x ∷ ls) h = lease_at-mark_done i ls h
