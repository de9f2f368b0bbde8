-- ===== src/Limits/Download.antt =====
-- download.go: the used slots are the leases that have not been released.
use safe_file_hub.Base.{
  ℕ, zero, suc, ◌+◌, ◌≤◌, ◌≡◌, refl, Bool, true, false, Option, none, some, List, [], ◌∷◌, ◌++◌,
  if◌then◌else◌, arith,
}
use safe_file_hub.Base.Int.{pos}
use safe_file_hub.Limits.{
  DownloadLimiter, new_download_limiter, try_acquire_download, release_download, set_released,
  is_live, receive, DownloadCall, acquire_slot, release_slot, step_download, run_on_download,
  run_download,
}

-- The leases that have not been released.
abbrev pub held : List Bool → ℕ
held [] = 0
held (b ∷ bs) = (if b then 0 else 1) + held bs

pub record IsValid (l : DownloadLimiter) : Type 0 where
  pub within : l.used ≤ l.slots
  pub counted : l.used ≡ held l.released

abbrev pub Leaves : ℕ → Option DownloadLimiter → Type 0
Leaves n none = ⊥
Leaves n (some l) = IsValid l × (l.slots ≡ n)

held-append : (bs : List Bool) → held (bs ++ false ∷ []) ≡ suc (held bs)
held-append [] = refl
held-append (b ∷ bs) = ground (arith, held-append bs)

held-set_released :
    (i : ℕ) (bs : List Bool) → is_live i bs ≡ true → held bs ≡ suc (held (set_released i bs))
unfolding is_live set_released
held-set_released i [] h = ground arith
held-set_released zero (true ∷ bs) h = ground arith
held-set_released zero (false ∷ bs) h = ground arith
held-set_released (suc i) (b ∷ bs) h = ground (arith, held-set_released i bs h)

step-Leaves :
    (c : DownloadCall) (l : DownloadLimiter) → IsValid l → Leaves l.slots (step_download c l)
unfolding step_download try_acquire_download release_download receive
step-Leaves acquire_slot l v = ground (arith, held-append l.released)
step-Leaves (release_slot i) l v = ground (arith, held-set_released i l.released)

run_on-Leaves :
    (n : ℕ) (o : Option DownloadLimiter) (rest : DownloadLimiter → Option DownloadLimiter)
    → Leaves n o
    → ((l : DownloadLimiter) → IsValid l → l.slots ≡ n → Leaves n (rest l))
    → Leaves n (run_on_download o rest)
unfolding run_on_download
run_on-Leaves n none rest h k = h
run_on-Leaves n (some l) rest h k = k l h.0 h.1

run-Leaves :
    (n : ℕ) (cs : List DownloadCall) (l : DownloadLimiter)
    → IsValid l
    → l.slots ≡ n
    → Leaves n (run_download cs l)
unfolding run_download
run-Leaves n [] l v e = (v, e)
run-Leaves n (c ∷ cs) l v e =
    run_on-Leaves n (step_download c l) (run_download cs) (rw (← e) (step-Leaves c l v))
      (λ l' v' e'. run-Leaves n cs l' v' e')

-- From the creation of a download limiter with a positive capacity on, no sequence of calls blocks,
-- and afterwards the used slots are the unreleased leases and at most the capacity.
run_download_bounded :
    (capacity : ℕ) (cs : List DownloadCall) {l : DownloadLimiter}
    → new_download_limiter (pos capacity) ≡ some l
    → Leaves capacity (run_download cs l)
unfolding new_download_limiter
run_download_bounded zero cs h = absurd (ground arith)
run_download_bounded (suc n) cs {l} h = run-Leaves (suc n) cs l (ground arith) (ground arith)
