-- ===== src/Md5/Tries.antt =====
-- How many tries the rows of a file's MD5 task say that it has had, behind each query of the queue.
use safe_file_hub.Base.{
  ℕ, zero, suc, ◌≡◌, ◌≤◌, refl, Bool, true, false, ◌&&◌, Option, none, some, List, [], ◌∷◌, ltb,
  leb, ◌==◌, if◌then◌else◌, All, arith, Bool-cases, inl, inr,
}
use safe_file_hub.Md5.{
  Task, Claim, claimed, none_due, check_failed, is_pending, is_computing, earlier_due, first_due,
  write_task, started, claim_row, complete_task, after_failure, fail_task, earlier_claimed,
  first_stale, requeued, requeue_row, requeue,
}

-- A property of the row that a query has picked, if it has.
unfoldable pub Picked : (Task → Type 0) → Option Task → Type 0
Picked P none = Unit
Picked P (some t) = P t

module _ (P : Task → Type 0) where
  earlier_due-Picked : (t : Task) (o : Option Task) → P t → Picked P o → P (earlier_due t o)
  unfolding earlier_due Picked
  earlier_due-Picked t none h k = h
  earlier_due-Picked t (some u) h k = ground (arith, h, k)

  earlier_claimed-Picked : (t : Task) (o : Option Task) → P t → Picked P o → P (earlier_claimed t o)
  unfolding earlier_claimed Picked
  earlier_claimed-Picked t none h k = h
  earlier_claimed-Picked t (some u) h k = ground (arith, h, k)

  if-Picked :
      (b : Bool) (t : Task) (o : Option Task)
      → (b ≡ true → P t)
      → Picked P o
      → Picked P (if b then some t else o)
  unfolding Picked
  if-Picked true t o h k = h refl
  if-Picked false t o h k = k

  -- The row of a claim is a pending one.
  pub first_due-Picked :
      (now : ℕ) (ts : List Task)
      → All (λ t. is_pending t.status ≡ true → P t) ts
      → Picked P (first_due now ts)
  unfolding first_due
  first_due-Picked now [] h = unfold Picked in tt
  first_due-Picked now (t ∷ ts) (h, hs) =
      let rest = first_due-Picked now ts hs in
      if-Picked (is_pending t.status && leb t.available_at now) (earlier_due t (first_due now ts))
        (first_due now ts)
        (λ e. earlier_due-Picked t (first_due now ts) (h (ground (arith, e))) rest) rest

  first_stale-Picked : (stale : ℕ) (ts : List Task) → All P ts → Picked P (first_stale stale ts)
  unfolding first_stale
  first_stale-Picked stale [] h = unfold Picked in tt
  first_stale-Picked stale (t ∷ ts) (h, hs) =
      let rest = first_stale-Picked stale ts hs in
      if-Picked (is_computing t.status && leb t.claimed_at stale)
        (earlier_claimed t (first_stale stale ts)) (first_stale stale ts)
        (λ e. earlier_claimed-Picked t (first_stale stale ts) h rest) rest

  pub write_task-All : (u : Task) (ts : List Task) → P u → All P ts → All P (write_task u ts)
  unfolding write_task
  write_task-All u [] k h = tt
  write_task-All u (t ∷ ts) k (h, hs) = (ground (arith, k, h), write_task-All u ts k hs)

-- The rows of this file have had this many tries, and may have `most`.
abbrev pub Tried : ℕ → ℕ → ℕ → Task → Type 0
Tried id tries most t = t.file_id ≡ id → (t.attempts ≡ tries) × (t.max_attempts ≡ most)

pub complete_task-Tried :
    (id tries most done : ℕ) (ts : List Task)
    → All (Tried id tries most) ts
    → All (Tried id tries most) (complete_task done ts)
unfolding complete_task
complete_task-Tried id tries most done [] h = tt
complete_task-Tried id tries most done (t ∷ ts) (h, hs) =
    (ground (arith, h), complete_task-Tried id tries most done ts hs)

pub fail_task-Tried :
    (id tries most now bad : ℕ) (ts : List Task)
    → All (Tried id tries most) ts
    → All (Tried id tries most) (fail_task now bad ts)
unfolding fail_task after_failure
fail_task-Tried id tries most now bad [] h = tt
fail_task-Tried id tries most now bad (t ∷ ts) (h, hs) =
    (ground (arith, h), fail_task-Tried id tries most now bad ts hs)

requeue_row-Tried :
    (id tries most now : ℕ) (ts : List Task) (o : Option Task)
    → Picked (Tried id tries most) o
    → All (Tried id tries most) ts
    → All (Tried id tries most) (requeue_row now ts o)
unfolding requeue_row requeued Picked
requeue_row-Tried id tries most now ts none k h = h
requeue_row-Tried id tries most now ts (some t) k h =
    write_task-All (Tried id tries most) (requeued now t) ts k h

pub requeue-Tried :
    (id tries most now stale limit : ℕ) (ts : List Task)
    → All (Tried id tries most) ts
    → All (Tried id tries most) (requeue now stale limit ts)
unfolding requeue
requeue-Tried id tries most now stale zero ts h = h
requeue-Tried id tries most now stale (suc limit) ts h =
    requeue-Tried id tries most now stale limit (requeue_row now ts (first_stale stale ts)) (
      requeue_row-Tried id tries most now ts (first_stale stale ts)
        (first_stale-Picked (Tried id tries most) stale ts h) h)

-- The tries of this file's task behind a claim that ended so.
abbrev pub after_claim : ℕ → Claim → ℕ → ℕ
after_claim id (claimed t) tries = if t.file_id == id then suc tries else tries
after_claim id none_due tries = tries
after_claim id check_failed tries = tries

write_own :
    (id tries most : ℕ) (u : Task) (ts : List Task)
    → u.file_id ≡ id
    → (u.attempts ≡ tries) × (u.max_attempts ≡ most)
    → All (Tried id tries most) (write_task u ts)
unfolding write_task
write_own id tries most u [] own h = tt
write_own id tries most u (t ∷ ts) own h =
    (ground (arith, own, h), write_own id tries most u ts own h)

-- What a claim does to the tries of a file's task.
unfoldable pub ClaimTried : ℕ → ℕ → ℕ → Claim × List Task → Type 0
ClaimTried id tries most (c, ts) =
    (after_claim id c tries ≤ most) × All (Tried id (after_claim id c tries) most) ts

pub claim_row-Tried :
    (id tries most now : ℕ) (ts : List Task) (o : Option Task)
    → tries ≤ most
    → Picked (Tried id tries most) o
    → All (Tried id tries most) ts
    → ClaimTried id tries most (claim_row now ts o)
unfolding claim_row ClaimTried Picked started
claim_row-Tried id tries most now ts none b k h = (b, h)
claim_row-Tried id tries most now ts (some t) b k h =
    elim (Bool-cases (ltb t.max_attempts (suc t.attempts))) [
      | inl e ↦ rw e (b, h)
      | inr e ↦ rw e (elim (Bool-cases (t.file_id == id)) [
        | inl own ↦
            let same : t.file_id ≡ id = ground (arith, own) in
            let (a, m) = k same in
            rw own (
              ground (arith, e, a, m),
              write_own id (suc tries) most (started now t) ts same (ground (arith, a), m),
            )
        | inr other ↦ rw other (
          b,
          write_task-All (Tried id tries most) (started now t) ts
              (λ q. absurd (ground (arith, other, q))) h,
        )
      ])
    ]
