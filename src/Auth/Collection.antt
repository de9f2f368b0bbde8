-- ===== src/Auth/Collection.antt =====
-- The worker that collects expired sessions ends, leaves none, and takes no live one.
use safe_file_hub.Base.{
  ℕ, zero, suc, ◌+◌, ◌*◌, ◌≤◌, ◌<◌, ◌≡◌, refl, String, Option, none, some, [], ◌∷◌, ltb,
  if◌then◌else◌, arith, inl, inr, ◌⊎◌, Bool-cases,
}
use safe_file_hub.Base.Store.{Table, lookup}
use safe_file_hub.Auth.{Session, is_expired, delete_up_to, session_gc_max_deletes, gc, run_gc}

unfoldable pub expired_count : ℕ → Table Session → ℕ
unfolding is_expired
expired_count now [] = 0
expired_count now ((id, s) ∷ rest) =
    let n = expired_count now rest in if is_expired now s then suc n else n

-- What one pass leaves.
record Collected (now limit : ℕ) (t : Table Session) : Type 0 where
  counts :
      (delete_up_to now limit t).1 + expired_count now (delete_up_to now limit t).0
      ≡ expired_count now t
  full_or_done :
      ((delete_up_to now limit t).1 ≡ limit) ⊎ (expired_count now (delete_up_to now limit t).0 ≡ 0)

delete_up_to-Collected : (now limit : ℕ) (t : Table Session) → Collected now limit t
unfolding delete_up_to expired_count is_expired
delete_up_to-Collected now zero t = record { counts = omega arith; full_or_done = inl refl }
delete_up_to-Collected now (suc limit) [] = record { counts = omega arith; full_or_done = inr refl }
delete_up_to-Collected now (suc limit) ((id, s) ∷ rest) =
    let a = (delete_up_to-Collected now limit rest).counts in
    let b = (delete_up_to-Collected now (suc limit) rest).counts in
    let c = (delete_up_to-Collected now limit rest).full_or_done in
    let d = (delete_up_to-Collected now (suc limit) rest).full_or_done in
    record { counts = ground (arith, a, b); full_or_done = ground (arith, c, d) }

pub delete_up_to-keeps :
    (now limit : ℕ) (t : Table Session) (id : String) (s : Session)
    → lookup id t ≡ some s
    → now < s.expires_at
    → lookup id (delete_up_to now limit t).0 ≡ some s
unfolding delete_up_to is_expired lookup
delete_up_to-keeps now zero t id s h l = h
delete_up_to-keeps now (suc limit) [] id s h l = h
delete_up_to-keeps now (suc limit) ((key, r) ∷ rest) id s h l =
    let a = delete_up_to-keeps now limit rest id s in
    let b = delete_up_to-keeps now (suc limit) rest id s in ground (arith, a, b, h, l)

-- Between two passes, the order in which the map is ranged over and the requests of other goroutines
-- change neither a session that is there nor add one that has expired.
pub record Rearranges (now : ℕ) (arrange : ℕ → Table Session → Table Session) : Type 0 where
  pub count : (i : ℕ) (t : Table Session) → expired_count now (arrange i t) ≤ expired_count now t
  pub same :
      (i : ℕ) (t : Table Session) (id : String) (s : Session)
      → lookup id t ≡ some s
      → lookup id (arrange i t) ≡ some s

-- The end of the worker: no session has expired, and no live one is gone.
pub record Drained (now : ℕ) (t t' : Table Session) : Type 0 where
  pub none_expired : expired_count now t' ≡ 0
  pub live_kept :
      (id : String) (s : Session)
      → lookup id t ≡ some s
      → now < s.expires_at
      → lookup id t' ≡ some s

abbrev pub Ends : ℕ → Table Session → Option (Table Session) → Type 0
Ends now t none = ⊥
Ends now t (some t') = Drained now t t'

Ends-later :
    (now : ℕ) (t u : Table Session) (o : Option (Table Session))
    → ((id : String) (s : Session)
        → lookup id t ≡ some s
        → now < s.expires_at
        → lookup id u ≡ some s)
    → Ends now u o
    → Ends now t o
Ends-later now t u none k e = e
Ends-later now t u (some v) k e = record {
  none_expired = e.none_expired;
  live_kept = λ id s h l. e.live_kept id s (k id s h l) l;
}

-- With fuel for more passes than full ones can be, and however the map is ranged over and whatever
-- requests add live sessions between the passes, the worker ends; it then leaves no expired session
-- and has deleted no live one.
pub run_gc-Ends :
    (arrange : ℕ → Table Session → Table Session) (now i fuel : ℕ) (t : Table Session)
    → Rearranges now arrange
    → expired_count now t < session_gc_max_deletes * fuel
    → Ends now t (run_gc arrange now i fuel t)
unfolding run_gc gc
run_gc-Ends arrange now i zero t r h = absurd (omega (arith, h))
run_gc-Ends arrange now i (suc fuel) t r h =
    let u = arrange i t in
    let c = delete_up_to-Collected now 64 u in
    let counts = c.counts in
    let same = r.count i t in
    let kept = λ (id : String) (s : Session) (e : lookup id t ≡ some s).
      delete_up_to-keeps now 64 u id s (r.same i t id s e) in
    elim (Bool-cases (ltb (delete_up_to now 64 u).1 64)) [
      | inl e ↦ rw e (record { none_expired = ground (arith, c.full_or_done, e); live_kept = kept })
      | inr e ↦ rw e (
          Ends-later now t (delete_up_to now 64 u).0
            (run_gc arrange now (suc i) fuel (delete_up_to now 64 u).0) kept
            (run_gc-Ends arrange now (suc i) fuel (delete_up_to now 64 u).0 r
              (ground (arith, counts, same, h, e))))
    ]
