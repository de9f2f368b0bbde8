-- ===== src/Archive/Stranded.antt =====
-- A job whose `create` gave up before its task was sent.
use safe_file_hub.Base.{
  ℕ, zero, suc, ◌≡◌, refl, ap, ◌∙◌, String, Bool, true, false, ◌||◌, Option, none, some, List, [],
  ◌∷◌, ◌++◌, str_eq, eq_iff, if◌then◌else◌, arith, Option-cases, inl, inr, All,
}
use safe_file_hub.Base.Store.{Table, lookup, lookup-insert}
use safe_file_hub.Archive.Jobs.{
  Job, Build, Manager, is_running, register, new_job, cancel, cancel_found, send, give_up, take,
  take_first, took, without, has_id, Written, finish, finish_found, finish_job, outcome_of, is_due,
  cleanup, cleanup_jobs, cancel_all, close_start, remove_file,
}
use safe_file_hub.Archive.Moves.{
  Move, registers, sends, gives_up, cancels, takes, finishes, cleans, starts_closing, ends_closing,
  pick, finish_picked, perform, perform_all, Leaves,
}
use safe_file_hub.Archive.Cancelled.{finished, finish_job-jobs}

unfoldable pub runs : Option Job → Bool
unfolding is_running
runs none = false
runs (some j) = is_running j.status

unfoldable pub is_built : String → List Build → Bool
is_built id [] = false
is_built id (b ∷ bs) = let rest = is_built id bs in str_eq b.id id || rest

-- The job is running, and no creator, task or worker is left to change that.
pub record Stranded (id : String) (m : Manager) : Type 0 where
  pub job : runs (lookup id m.jobs) ≡ true
  pub unsent : has_id id m.sending ≡ false
  pub no_task : has_id id m.tasks ≡ false
  pub no_worker : is_built id m.building ≡ false

-- `Close` has not come to its end.
abbrev pub StaysOpen : Move → Type 0
StaysOpen (registers _ _ _) = Unit
StaysOpen (sends _) = Unit
StaysOpen (gives_up _) = Unit
StaysOpen (cancels _) = Unit
StaysOpen (takes _) = Unit
StaysOpen (finishes _ _) = Unit
StaysOpen (cleans _) = Unit
StaysOpen starts_closing = Unit
StaysOpen ends_closing = ⊥

has_id-without :
    (id key : String) (xs : List String)
    → has_id id (without key xs) ≡ (if str_eq key id then false else has_id id xs)
unfolding has_id without
has_id-without id key [] = ground arith
has_id-without id key (x ∷ xs) =
    let ih = has_id-without id key xs in
    ground (arith, ih, eq_iff x key, eq_iff key id, eq_iff x id)

has_id-append :
    (id key : String) (xs : List String)
    → has_id id (xs ++ key ∷ []) ≡ (has_id id xs || str_eq key id)
unfolding has_id
has_id-append id key [] = ground arith
has_id-append id key (x ∷ xs) = let ih = has_id-append id key xs in ground (arith, ih)

cancel_found-runs :
    (id key : String) (t : Table Job)
    → runs (lookup id (cancel_found key (lookup key t) t)) ≡ runs (lookup id t)
unfolding cancel_found runs is_running
cancel_found-runs id key t = elim (Option-cases (lookup key t)) [
  | inl e ↦ rw e refl
  | inr (j, e) ↦
      let l = lookup-insert key id (record j { context = true }) t in
      ground (arith, e, l, eq_iff key id)
]

cancel_all-runs :
    (id : String) (t : Table Job) → runs (lookup id (cancel_all t)) ≡ runs (lookup id t)
unfolding cancel_all lookup runs is_running
cancel_all-runs id [] = refl
cancel_all-runs id ((key, j) ∷ rest) = let ih = cancel_all-runs id rest in ground (arith, ih)

cleanup_jobs-runs :
    (now : ℕ) (id : String) (t : Table Job) (files : Table ℕ)
    → runs (lookup id t) ≡ true
    → runs (lookup id (cleanup_jobs now t files).0) ≡ true
unfolding cleanup_jobs lookup runs is_due is_running
cleanup_jobs-runs now id [] files h = h
cleanup_jobs-runs now id ((key, j) ∷ rest) files h =
    let ih =
      cleanup_jobs-runs now id rest (if is_due now j then remove_file j.file files else files) in
    ground (arith, ih, h)

pick_other :
    (id : String) (n : ℕ) (bs : List Build) (b : Build) (cs : List Build)
    → is_built id bs ≡ false
    → pick n bs ≡ some (b, cs)
    → (str_eq b.id id ≡ false) × (is_built id cs ≡ false)
unfolding pick is_built
pick_other id n [] b cs h e = absurd (ground (arith, e))
pick_other id zero (c ∷ bs) b cs h e = ground (arith, h, e)
pick_other id (suc n) (c ∷ bs) b cs h e = elim (Option-cases (pick n bs)) [
  | inl q ↦ absurd (ground (arith, e, q))
  | inr ((d, ds), q) ↦
      let ih = pick_other id n bs d ds (ground (arith, h)) q in ground (arith, h, e, q, ih)
]

take_first-Stranded :
    (id : String) (ids : List String) (name : Option String) (m : Manager)
    → m.tasks ≡ ids
    → Stranded id m
    → Stranded id (take_first ids name m)
unfolding take_first took is_built has_id
take_first-Stranded id [] name m e s = s
take_first-Stranded id (key ∷ rest) none m e s =
    let a = ap (has_id id) e in
    let b = s.no_task in
    let c = s.no_worker in
    record {
      job = ground (arith, s.job);
      unsent = ground (arith, s.unsent);
      no_task = ground (arith, a, b);
      no_worker = ground (arith, a, b, c);
    }
take_first-Stranded id (key ∷ rest) (some n) m e s =
    let a = ap (has_id id) e in
    let b = s.no_task in
    let c = s.no_worker in
    record {
      job = ground (arith, s.job);
      unsent = ground (arith, s.unsent);
      no_task = ground (arith, a, b);
      no_worker = ground (arith, a, b, c);
    }

finish_found-runs :
    (id : String) (b : Build) (w : Written) (o : Option Job) (m : Manager)
    → str_eq b.id id ≡ false
    → lookup id (finish_found b w o m).jobs ≡ lookup id m.jobs
unfolding finish_found
finish_found-runs id b w none m h = refl
finish_found-runs id b w (some j) m h =
    ap (lookup id) (finish_job-jobs b w j m)
    ∙ ground (arith, lookup-insert b.id id (finished b w j) m.jobs, h)

finish_found-rest :
    (b : Build) (w : Written) (o : Option Job) (m : Manager)
    → ((finish_found b w o m).sending ≡ m.sending)
      × ((finish_found b w o m).tasks ≡ m.tasks)
      × ((finish_found b w o m).building ≡ m.building)
unfolding finish_found finish_job
finish_found-rest b w none m = (refl, refl, refl)
finish_found-rest b w (some j) m = (ground arith, ground arith, ground arith)

finish_picked-Stranded :
    (id : String) (n : ℕ) (w : Written) (m : Manager)
    → Stranded id m
    → (o : Option (Build × List Build)) → pick n m.building ≡ o
    → Stranded id (finish_picked o w m)
unfolding finish_picked finish
finish_picked-Stranded id n w m s none e = s
finish_picked-Stranded id n w m s (some (b, bs)) e =
    let (other, left) = pick_other id n m.building b bs s.no_worker e in
    let m' = record m { building = bs } in
    let found = lookup b.id m.jobs in
    let out = outcome_of b.file w in
    let (x, y, z) = finish_found-rest b out found m' in
    record {
      job = ap runs (finish_found-runs id b out found m' other) ∙ s.job;
      unsent = ap (has_id id) x ∙ s.unsent;
      no_task = ap (has_id id) y ∙ s.no_task;
      no_worker = ap (is_built id) z ∙ left;
    }

register-Stranded :
    (id new : String) (user expires : ℕ) (m : Manager)
    → str_eq new id ≡ false
    → Stranded id m
    → Stranded id (register new user expires m)
unfolding register has_id
register-Stranded id new user expires m l s =
    let there = lookup-insert new id (new_job user expires) m.jobs in
    let job = s.job in
    let unsent = s.unsent in
    record {
      job = ground (arith, there, l, job);
      unsent = ground (arith, l, unsent);
      no_task = ground (arith, s.no_task);
      no_worker = ground (arith, s.no_worker);
    }

send-Stranded : (id key : String) (m : Manager) → Stranded id m → Stranded id (send key m)
unfolding send
send-Stranded id key m s =
    let a = has_id-without id key m.sending in
    let b = has_id-append id key m.tasks in
    let job = s.job in
    let unsent = s.unsent in
    let no_task = s.no_task in
    let q = eq_iff key id in
    record {
      job = ground (arith, job);
      unsent = ground (arith, a, unsent);
      no_task = ground (arith, b, unsent, no_task, q);
      no_worker = ground (arith, s.no_worker);
    }

give_up-Stranded : (id key : String) (m : Manager) → Stranded id m → Stranded id (give_up key m)
unfolding give_up cancel
give_up-Stranded id key m s =
    let a = has_id-without id key m.sending in
    let c = cancel_found-runs id key m.jobs in
    let job = s.job in
    let unsent = s.unsent in
    record {
      job = ground (arith, job, c);
      unsent = ground (arith, a, unsent);
      no_task = ground (arith, s.no_task);
      no_worker = ground (arith, s.no_worker);
    }

perform-Stranded :
    (id : String) (a : Move) (m : Manager)
    → Leaves id a
    → StaysOpen a
    → Stranded id m
    → Stranded id (perform a m)
unfolding cancel take cleanup close_start
perform-Stranded id (registers new user expires) m l o s =
    register-Stranded id new user expires m l s
perform-Stranded id (sends key) m l o s = send-Stranded id key m s
perform-Stranded id (gives_up key) m l o s = give_up-Stranded id key m s
perform-Stranded id (cancels key) m l o s = record {
  job = cancel_found-runs id key m.jobs ∙ s.job;
  unsent = s.unsent;
  no_task = s.no_task;
  no_worker = s.no_worker;
}
perform-Stranded id (takes name) m l o s = take_first-Stranded id m.tasks name m refl s
perform-Stranded id (finishes n w) m l o s =
    finish_picked-Stranded id n w m s (pick n m.building) refl
perform-Stranded id (cleans now) m l o s = record {
  job = cleanup_jobs-runs now id m.jobs m.files s.job;
  unsent = s.unsent;
  no_task = s.no_task;
  no_worker = s.no_worker;
}
perform-Stranded id starts_closing m l o s = record {
  job = cancel_all-runs id m.jobs ∙ s.job;
  unsent = s.unsent;
  no_task = s.no_task;
  no_worker = s.no_worker;
}
perform-Stranded id ends_closing m l o s = absurd o

perform_all-Stranded :
    (id : String) (as_ : List Move) (m : Manager)
    → All (Leaves id) as_
    → All StaysOpen as_
    → Stranded id m
    → Stranded id (perform_all as_ m)
perform_all-Stranded id [] m l o s = s
perform_all-Stranded id (a ∷ as_) m (l, ls) (o, os) s =
    perform_all-Stranded id as_ (perform a m) ls os (perform-Stranded id a m l o s)

-- When `create` gives up on a job whose task it has not sent, the job is running after all further
-- moves, clean-ups at any time included, until the manager has been closed.
pub give_up-Stays :
    (id : String) (as_ : List Move) (m : Manager)
    → runs (lookup id m.jobs) ≡ true
    → has_id id m.sending ≡ true
    → has_id id m.tasks ≡ false
    → is_built id m.building ≡ false
    → All (Leaves id) as_
    → All StaysOpen as_
    → runs (lookup id (perform_all as_ (give_up id m)).jobs) ≡ true
unfolding give_up cancel
give_up-Stays id as_ m job unsent no_task no_worker l o =
    let a = has_id-without id id m.sending in
    let c = cancel_found-runs id id m.jobs in
    let s : Stranded id (give_up id m) = record {
      job = ground (arith, job, c, unsent);
      unsent = ground (arith, a, unsent, eq_iff id id);
      no_task = ground (arith, no_task, unsent);
      no_worker = ground (arith, no_worker, unsent);
    } in
    (perform_all-Stranded id as_ (give_up id m) l o s).job
