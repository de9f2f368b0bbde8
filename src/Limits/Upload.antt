-- ===== src/Limits/Upload.antt =====
-- limiter.go: the counters of the upload limiter are the live leases, so no call ever blocks, the
-- three caps hold, and a lease is given out exactly when the live leases leave room.
use safe_file_hub.Base.{
  ℕ, zero, suc, ◌≤◌, ◌<◌, ◌≡◌, refl, inl, inr, String, Bool, true, false, ◌&&◌, Option, none, some,
  List, [], ◌∷◌, ◌++◌, if◌then◌else◌, arith, eq_iff, Bool-cases, Option-cases, ltb,
}
use safe_file_hub.Base.Int.{ℤ, pos, negsuc, leb_ℤ, ltb_ℤ}
use safe_file_hub.Base.Store.{lookup}
use safe_file_hub.Limits.{
  UploadLimiter, Lease, World, new_upload_limiter, count, increment, decrement, suc_ℤ, pred_ℤ,
  lease_at, mark_done, try_acquire, receive, release, release_slots, Call, acquire_call,
  release_call, state_of, step, run_on, run,
}
use safe_file_hub.Limits.Counts.{
  count-increment, count-decrement, live, live_by, live-append, live_by-append, live-mark_done,
  live_by-mark_done, lease_at-mark_done,
}

abbrev pub user_of : Lease → String
user_of l = l.user

abbrev pub ip_of : Lease → String
ip_of l = l.ip

pub record IsValid (w : World) : Type 0 where
  pub within : w.limiter.in_use ≤ w.limiter.capacity
  pub total : w.limiter.in_use ≡ live w.leases
  pub by_user : (k : String) → count k w.limiter.users ≡ pos (live_by user_of k w.leases)
  pub by_ip : (k : String) → count k w.limiter.ips ≡ pos (live_by ip_of k w.leases)
  pub user_cap : (k : String) → leb_ℤ (pos (live_by user_of k w.leases)) w.limiter.per_user ≡ true
  pub ip_cap : (k : String) → leb_ℤ (pos (live_by ip_of k w.leases)) w.limiter.per_ip ≡ true

-- Whether the live leases leave room for one more of this user and address.
abbrev pub has_room : String → String → World → Bool
has_room user ip w =
    ltb (live w.leases) w.limiter.capacity
    && (ltb_ℤ (pos (live_by user_of user w.leases)) w.limiter.per_user
        && ltb_ℤ (pos (live_by ip_of ip w.leases)) w.limiter.per_ip)

-- What a call of `TryAcquire` leaves behind.
abbrev pub admitted : String → String → World → World
admitted user ip w = record {
  limiter = record w.limiter {
    in_use = suc w.limiter.in_use;
    users = increment user w.limiter.users;
    ips = increment ip w.limiter.ips;
  };
  leases = w.leases ++ record { user = user; ip = ip; done = false } ∷ [];
}

-- In a valid state `TryAcquire` never blocks; it gives out a lease exactly when the live leases
-- leave room globally, for the user and for the address, and changes nothing otherwise.
pub try_acquire-eq :
    (user ip : String) (w : World)
    → IsValid w
    → try_acquire user ip w
      ≡ (if has_room user ip w then some (admitted user ip w, true) else some (w, false))
unfolding try_acquire
try_acquire-eq user ip w v = ground (arith, v.by_user user, v.by_ip ip)

room-caps :
    (user ip : String) (w : World)
    → has_room user ip w ≡ true
    → (live w.leases < w.limiter.capacity)
      × (leb_ℤ (pos (suc (live_by user_of user w.leases))) w.limiter.per_user ≡ true)
      × (leb_ℤ (pos (suc (live_by ip_of ip w.leases))) w.limiter.per_ip ≡ true)
room-caps user ip w h = ground arith

admitted-IsValid :
    (user ip : String) (w : World)
    → IsValid w
    → has_room user ip w ≡ true
    → IsValid (admitted user ip w)
unfolding suc_ℤ
admitted-IsValid user ip w v room =
    let caps = room-caps user ip w room in
    let new : Lease = record { user = user; ip = ip; done = false } in
    record {
      within = omega (arith, caps.0, v.total);
      total = ground (arith, v.total, live-append w.leases new);
      by_user = λ k. ground (
        arith,
        v.by_user k,
        v.by_user user,
        count-increment user k w.limiter.users,
        eq_iff user k,
        live_by-append user_of k w.leases new,
      );
      by_ip = λ k. ground (
        arith,
        v.by_ip k,
        v.by_ip ip,
        count-increment ip k w.limiter.ips,
        eq_iff ip k,
        live_by-append ip_of k w.leases new,
      );
      user_cap = λ k.
          ground
            (arith, v.user_cap k, caps.1, eq_iff user k, live_by-append user_of k w.leases new);
      ip_cap =
          λ k. ground (arith, v.ip_cap k, caps.2, eq_iff ip k, live_by-append ip_of k w.leases new);
    }

-- The state after the first `Release` of the i-th lease.
abbrev pub freed : ℕ → Lease → ℕ → World → World
freed i lease n w = record {
  limiter = record w.limiter {
    in_use = n;
    users = decrement lease.user w.limiter.users;
    ips = decrement lease.ip w.limiter.ips;
  };
  leases = mark_done i w.leases;
}

release-eq :
    (i : ℕ) (w : World) {lease : Lease} {n : ℕ}
    → lease_at i w.leases ≡ some lease
    → lease.done ≡ false
    → w.limiter.in_use ≡ suc n
    → release i w ≡ some (freed i lease n w)
unfolding release receive
release-eq i w at live_lease e = ground arith

live-pos :
    (i : ℕ) (w : World) {lease : Lease}
    → IsValid w
    → lease_at i w.leases ≡ some lease
    → lease.done ≡ false
    → w.limiter.in_use ≡ suc (live (mark_done i w.leases))
live-pos i w v at d = ground (arith, v.total, live-mark_done i w.leases at d)

freed-IsValid :
    (i : ℕ) (w : World) {lease : Lease}
    → IsValid w
    → lease_at i w.leases ≡ some lease
    → lease.done ≡ false
    → IsValid (freed i lease (live (mark_done i w.leases)) w)
unfolding pred_ℤ
freed-IsValid i w {lease} v at d = record {
  within = omega (arith, v.within, live-pos i w v at d);
  total = refl;
  by_user = λ k. ground (
    arith,
    v.by_user k,
    v.by_user lease.user,
    count-decrement lease.user k w.limiter.users,
    eq_iff lease.user k,
    eq_iff lease.user lease.user,
    live_by-mark_done user_of (λ l. refl) k i w.leases at d,
    live_by-mark_done user_of (λ l. refl) lease.user i w.leases at d,
  );
  by_ip = λ k. ground (
    arith,
    v.by_ip k,
    v.by_ip lease.ip,
    count-decrement lease.ip k w.limiter.ips,
    eq_iff lease.ip k,
    eq_iff lease.ip lease.ip,
    live_by-mark_done ip_of (λ l. refl) k i w.leases at d,
    live_by-mark_done ip_of (λ l. refl) lease.ip i w.leases at d,
  );
  user_cap =
      λ k. ground (arith, v.user_cap k, live_by-mark_done user_of (λ l. refl) k i w.leases at d);
  ip_cap = λ k. ground (arith, v.ip_cap k, live_by-mark_done ip_of (λ l. refl) k i w.leases at d);
}

-- What a call has to leave: a valid state, so in particular it returns.
abbrev pub Leaves : Option World → Type 0
Leaves none = ⊥
Leaves (some w) = IsValid w

release-Leaves : (i : ℕ) (w : World) → IsValid w → Leaves (release i w)
release-Leaves i w v = elim (Option-cases (lease_at i w.leases)) [
  | inl e ↦ unfold release in rw (e, release) v
  | inr (lease, at) ↦ elim (Bool-cases lease.done) [
    | inl d ↦ unfold release in rw (at, release) (rw d v)
    | inr d ↦
        rw (release-eq i w {n = live (mark_done i w.leases)} at d (live-pos i w v at d))
          (freed-IsValid i w v at d)
  ]
]

-- Releasing a lease twice is releasing it once.
release_idem : (i : ℕ) (w w' : World) → release i w ≡ some w' → release i w' ≡ some w'
unfolding release release_slots
release_idem i w w' h = elim (Option-cases (lease_at i w.leases)) [
  | inl e ↦ ground (arith, e)
  | inr (lease, at) ↦ ground (arith, lease_at-mark_done i w.leases at)
]

step-Leaves : (c : Call) (w : World) → IsValid w → Leaves (step c w)
unfolding step
step-Leaves (acquire_call user ip) w v = elim (Bool-cases (has_room user ip w)) [
  | inl room ↦ rw (try_acquire-eq user ip w v, room, state_of) (admitted-IsValid user ip w v room)
  | inr full ↦ rw (try_acquire-eq user ip w v, full, state_of) v
]
step-Leaves (release_call i) w v = release-Leaves i w v

run_on-Leaves :
    (o : Option World) (rest : World → Option World)
    → Leaves o
    → ((w : World) → IsValid w → Leaves (rest w))
    → Leaves (run_on o rest)
unfolding run_on
run_on-Leaves none rest h k = h
run_on-Leaves (some w) rest h k = k w h

-- From a valid state no sequence of calls blocks, and the state it ends in is valid: the counters
-- are the live leases, and no cap is exceeded.
pub run-Leaves : (cs : List Call) (w : World) → IsValid w → Leaves (run cs w)
unfolding run
run-Leaves [] w v = v
run-Leaves (c ∷ cs) w v =
    run_on-Leaves (step c w) (run cs) (step-Leaves c w v) (λ w' v'. run-Leaves cs w' v')

-- A limiter as it is created is valid.
pub new_upload_limiter-IsValid :
    (global per_user per_ip : ℤ) {l : UploadLimiter}
    → new_upload_limiter global per_user per_ip ≡ some l
    → IsValid (record { limiter = l; leases = [] })
unfolding new_upload_limiter count lookup
new_upload_limiter-IsValid (pos zero) per_user per_ip h = absurd (ground arith)
new_upload_limiter-IsValid (negsuc n) per_user per_ip h = absurd (ground arith)
new_upload_limiter-IsValid (pos (suc n)) per_user per_ip h = record {
  within = ground arith;
  total = ground arith;
  by_user = λ k. ground arith;
  by_ip = λ k. ground arith;
  user_cap = λ k. ground arith;
  ip_cap = λ k. ground arith;
}

-- From its creation on, no sequence of calls on an upload limiter blocks, and afterwards the used
-- slots and the counters are the live leases, with at most `global` leases live, and at most
-- `per_user` of one user and `per_ip` of one address.
pub run_new-Leaves :
    (global per_user per_ip : ℤ) (cs : List Call) {l : UploadLimiter}
    → new_upload_limiter global per_user per_ip ≡ some l
    → Leaves (run cs (record { limiter = l; leases = [] }))
run_new-Leaves global per_user per_ip cs h =
    run-Leaves cs _ (new_upload_limiter-IsValid global per_user per_ip h)
