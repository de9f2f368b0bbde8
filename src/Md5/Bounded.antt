-- ===== src/Md5/Bounded.antt =====
-- The number of tries of a task, and what becomes of a task whose last try was lost.
use safe_file_hub.Base.{
  ℕ, zero, suc, ◌≡◌, ◌≢◌, ◌≤◌, ◌<◌, refl, true, false, Option, none, some, List, [], ◌∷◌, ltb, All,
  arith,
}
use safe_file_hub.Md5.{
  Task, pending, computing, check_failed, is_pending, is_computing, earlier_due, first_due,
  write_task, started, claim_row, claim, complete_task, after_failure, fail_task, earlier_claimed,
  first_stale, requeued, requeue_row, requeue,
}
use safe_file_hub.Md5.Tries.{
  Picked, first_due-Picked, write_task-All, complete_task-Tried, fail_task-Tried, requeue-Tried,
  ClaimTried, claim_row-Tried, Tried, after_claim,
}

-- The calls of workers on the queue.
pub data Call : Type 0 where
  claims : (now : ℕ) → Call
  completes : (id : ℕ) → Call
  fails : (now id : ℕ) → Call
  requeues : (now stale limit : ℕ) → Call

abbrev pub perform : Call → List Task → List Task
perform (claims now) ts = (claim now ts).1
perform (completes id) ts = complete_task id ts
perform (fails now id) ts = fail_task now id ts
perform (requeues now stale limit) ts = requeue now stale limit ts

abbrev pub perform_all : List Call → List Task → List Task
perform_all [] ts = ts
perform_all (c ∷ cs) ts = perform_all cs (perform c ts)

-- The tries of a file's task behind a call: only a claim that hands it out adds one.
abbrev pub after_call : ℕ → Call → List Task → ℕ → ℕ
after_call id (claims now) ts tries = after_claim id (claim now ts).0 tries
after_call id (completes done) ts tries = tries
after_call id (fails now bad) ts tries = tries
after_call id (requeues now stale limit) ts tries = tries

-- The tries of a file's task behind calls, counted from those that it has had.
abbrev pub count_tries : ℕ → List Call → List Task → ℕ → ℕ
count_tries id [] ts tries = tries
count_tries id (c ∷ cs) ts tries = count_tries id cs (perform c ts) (after_call id c ts tries)

perform-Tried :
    (id tries most : ℕ) (c : Call) (ts : List Task)
    → tries ≤ most
    → All (Tried id tries most) ts
    → (after_call id c ts tries ≤ most)
      × All (Tried id (after_call id c ts tries) most) (perform c ts)
perform-Tried id tries most (claims now) ts b h =
    unfold claim ClaimTried in
    claim_row-Tried id tries most now ts (first_due now ts) b
      (first_due-Picked (Tried id tries most) now ts (any_status ts h)) h
  where
    any_status :
        (us : List Task)
        → All (Tried id tries most) us
        → All (λ t. is_pending t.status ≡ true → Tried id tries most t) us
    any_status [] k = tt
    any_status (u ∷ us) (k, ks) = ((λ _. k), any_status us ks)
perform-Tried id tries most (completes done) ts b h =
    (b, complete_task-Tried id tries most done ts h)
perform-Tried id tries most (fails now bad) ts b h = (b, fail_task-Tried id tries most now bad ts h)
perform-Tried id tries most (requeues now stale limit) ts b h =
    (b, requeue-Tried id tries most now stale limit ts h)

count_tries-Tried :
    (id tries most : ℕ) (cs : List Call) (ts : List Task)
    → tries ≤ most
    → All (Tried id tries most) ts
    → (count_tries id cs ts tries ≤ most)
      × All (Tried id (count_tries id cs ts tries) most) (perform_all cs ts)
count_tries-Tried id tries most [] ts b h = (b, h)
count_tries-Tried id tries most (c ∷ cs) ts b h =
    let (b', h') = perform-Tried id tries most c ts b h in
    count_tries-Tried id (after_call id c ts tries) most cs (perform c ts) b' h'

-- A pending task can be tried again.
abbrev pub HasTries : Task → Type 0
HasTries t = is_pending t.status ≡ true → t.attempts < t.max_attempts

-- Up to the first requeue, no claim is refused by the CHECK on the tries.
abbrev pub NoneRefused : List Call → List Task → Type 0
NoneRefused [] ts = Unit
NoneRefused (claims now ∷ cs) ts =
    ((claim now ts).0 ≢ check_failed) × NoneRefused cs (perform (claims now) ts)
NoneRefused (completes id ∷ cs) ts = NoneRefused cs (perform (completes id) ts)
NoneRefused (fails now id ∷ cs) ts = NoneRefused cs (perform (fails now id) ts)
NoneRefused (requeues now stale limit ∷ cs) ts = Unit

complete_task-HasTries :
    (id : ℕ) (ts : List Task) → All HasTries ts → All HasTries (complete_task id ts)
unfolding complete_task is_pending
complete_task-HasTries id [] h = tt
complete_task-HasTries id (t ∷ ts) (h, hs) = (ground (arith, h), complete_task-HasTries id ts hs)

fail_task-HasTries :
    (now id : ℕ) (ts : List Task) → All HasTries ts → All HasTries (fail_task now id ts)
unfolding fail_task after_failure is_pending
fail_task-HasTries now id [] h = tt
fail_task-HasTries now id (t ∷ ts) (h, hs) = (ground (arith, h), fail_task-HasTries now id ts hs)

claim_row-HasTries :
    (now : ℕ) (ts : List Task) (o : Option Task)
    → Picked (λ t. t.attempts < t.max_attempts) o
    → All HasTries ts
    → ((claim_row now ts o).0 ≢ check_failed) × All HasTries (claim_row now ts o).1
unfolding claim_row Picked started is_pending
claim_row-HasTries now ts none k h = ((λ q. ground (arith, q)), h)
claim_row-HasTries now ts (some t) k h =
    let room : ltb t.max_attempts (suc t.attempts) ≡ false = ground (arith, k) in
    rw room (
      (λ q. ground (arith, q)),
      write_task-All HasTries (started now t) ts (λ q. absurd (ground (arith, q))) h,
    )

perform_all-NoneRefused : (cs : List Call) (ts : List Task) → All HasTries ts → NoneRefused cs ts
perform_all-NoneRefused [] ts h = tt
perform_all-NoneRefused (claims now ∷ cs) ts h =
    let (a, b) =
      claim_row-HasTries now ts (first_due now ts)
        (first_due-Picked (λ t. t.attempts < t.max_attempts) now ts h) h in
    (unfold claim in a, perform_all-NoneRefused cs (perform (claims now) ts) (unfold claim in b))
perform_all-NoneRefused (completes id ∷ cs) ts h =
    perform_all-NoneRefused cs (complete_task id ts) (complete_task-HasTries id ts h)
perform_all-NoneRefused (fails now id ∷ cs) ts h =
    perform_all-NoneRefused cs (fail_task now id ts) (fail_task-HasTries now id ts h)
perform_all-NoneRefused (requeues now stale limit ∷ cs) ts h = tt

-- In a queue where every pending task has tries left, whatever workers call in whatever order: the
-- claims that hand out a file's task are, with the tries that it has had, no more than it may have,
-- its row counts them, and up to the first requeue no claim is refused by the CHECK on the tries.
pub perform_all-Tried :
    (id tries most : ℕ) (cs : List Call) (ts : List Task)
    → tries ≤ most
    → All (Tried id tries most) ts
    → All HasTries ts
    → (count_tries id cs ts tries ≤ most)
      × All (Tried id (count_tries id cs ts tries) most) (perform_all cs ts)
      × NoneRefused cs ts
perform_all-Tried id tries most cs ts b h r =
    let (a, c) = count_tries-Tried id tries most cs ts b h in
    (a, c, perform_all-NoneRefused cs ts r)

requeue-pending :
    (now stale limit : ℕ) (t : Task)
    → t.status ≡ pending
    → requeue now stale limit (t ∷ []) ≡ t ∷ []
unfolding requeue requeue_row first_stale is_computing
requeue-pending now stale zero t s = refl
requeue-pending now stale (suc limit) t s =
    let ih = requeue-pending now stale limit t s in ground (arith, ih, s)

requeue_lost :
    (t : Task) (now stale limit : ℕ)
    → t.status ≡ computing
    → t.claimed_at ≤ stale
    → requeue now stale (suc limit) (t ∷ []) ≡ requeued now t ∷ []
unfolding requeue requeue_row first_stale is_computing earlier_claimed write_task requeued
requeue_lost t now stale limit s c =
    let ih = requeue-pending now stale limit (requeued now t) refl in ground (arith, ih, s, c)

claim_lost :
    (t : Task) (now later : ℕ)
    → t.attempts ≡ t.max_attempts
    → now ≤ later
    → claim later (requeued now t ∷ []) ≡ (check_failed, requeued now t ∷ [])
unfolding claim claim_row first_due earlier_due is_pending requeued
claim_lost t now later a l = ground (arith, a, l)

-- When the lease of the last try of a task runs out, the task becomes pending again, and in a queue
-- that holds only this task every later claim fails and changes nothing.
pub requeue-Blocked :
    (t : Task) (now stale limit later : ℕ)
    → t.status ≡ computing
    → t.attempts ≡ t.max_attempts
    → t.claimed_at ≤ stale
    → now ≤ later
    → claim later (requeue now stale (suc limit) (t ∷ []))
      ≡ (check_failed, requeue now stale (suc limit) (t ∷ []))
requeue-Blocked t now stale limit later s a c l =
    rw (requeue_lost t now stale limit s c) (claim_lost t now later a l)
