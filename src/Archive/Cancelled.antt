-- ===== src/Archive/Cancelled.antt =====
-- Whatever runs in between, a job keeps its owner, and one that was cancelled never becomes complete.
use safe_file_hub.Base.{
  ℕ, ◌≡◌, refl, sym, subst, String, true, false, ◌&&◌, Option, none, some, List, [], ◌∷◌, ◌==◌,
  str_eq, eq_iff, if◌then◌else◌, arith, Bool-cases, inl, inr, All, length,
}
use safe_file_hub.Base.Store.{Table, lookup, insert, lookup-insert}
use safe_file_hub.Base.Keys.{Distinct, Distinct-insert}
use safe_file_hub.Archive.Jobs.{
  complete, cancelled, failed, Job, Build, Manager, is_running, is_complete, register, new_job,
  cancel, cancel_found, send, give_up, take, take_first, took, Written, not_written, not_read,
  written, finish, finish_found, finish_job, outcome_of, is_due, cleanup, cleanup_jobs, cancel_all,
  close_start, close_end, remove_file, open_file, open_found, owned_by, owned_found,
}
use safe_file_hub.Archive.Moves.{
  Move, registers, sends, gives_up, cancels, takes, finishes, cleans, starts_closing, ends_closing,
  pick, finish_picked, perform, perform_all, Leaves, evolves, evolves_refl, evolves_trans,
}

-- The effect of a move on the job under an id.
record Evolved (id : String) (t t' : Table Job) : Type 0 where
  change : evolves (lookup id t) (lookup id t') ≡ true
  distinct : Distinct t'

same_jobs : (id : String) (t : Table Job) → Distinct t → Evolved id t t
same_jobs id t d = record { change = evolves_refl (lookup id t); distinct = d }

Evolved-insert :
    (id key : String) (j k : Job) (t : Table Job)
    → Distinct t
    → lookup key t ≡ some j
    → evolves (some j) (some k) ≡ true
    → Evolved id t (insert key k t)
Evolved-insert id key j k t d e h = record {
  change = elim (Bool-cases (str_eq key id)) [
    | inl q ↦
        let l = lookup-insert key id k t in
        let same = eq_iff key id in
        let here : lookup id t ≡ some j = ground (arith, e, same, q) in
        let there : lookup id (insert key k t) ≡ some k = ground (arith, l, q) in rw (here, there) h
    | inr q ↦
        let l = lookup-insert key id k t in
        let there : lookup id (insert key k t) ≡ lookup id t = ground (arith, l, q) in
        rw there (evolves_refl (lookup id t))
  ];
  distinct = Distinct-insert key k t d;
}

cancel_evolves : (j : Job) → evolves (some j) (some (record j { context = true })) ≡ true
unfolding evolves is_complete
cancel_evolves j = ground arith

cancel_found-Evolved :
    (id key : String) (o : Option Job) (t : Table Job)
    → Distinct t
    → lookup key t ≡ o
    → Evolved id t (cancel_found key o t)
unfolding cancel_found
cancel_found-Evolved id key none t d e = same_jobs id t d
cancel_found-Evolved id key (some j) t d e = elim (Bool-cases (is_running j.status)) [
  | inl q ↦ rw q (Evolved-insert id key j (record j { context = true }) t d e (cancel_evolves j))
  | inr q ↦ rw q (same_jobs id t d)
]

-- The job behind the end of its build.
abbrev pub finished : Build → Written → Job → Job
finished b w j = if j.context then record j { status = cancelled } else (elim w [
  | not_written ↦ record j { status = failed }
  | not_read ↦ record j { status = failed }
  | written n ↦ record j { status = complete; size = n; file = b.file }
])

pub finish_job-jobs :
    (b : Build) (w : Written) (j : Job) (m : Manager)
    → (finish_job b w j m).jobs ≡ insert b.id (finished b w j) m.jobs
unfolding finish_job
finish_job-jobs b w j m = ground arith

finish_evolves :
    (b : Build) (w : Written) (j : Job) → evolves (some j) (some (finished b w j)) ≡ true
unfolding evolves is_complete
finish_evolves b w j = ground arith

finish_found-Evolved :
    (id : String) (b : Build) (w : Written) (o : Option Job) (m : Manager)
    → Distinct m.jobs
    → lookup b.id m.jobs ≡ o
    → Evolved id m.jobs (finish_found b w o m).jobs
unfolding finish_found
finish_found-Evolved id b w none m d e = same_jobs id m.jobs d
finish_found-Evolved id b w (some j) m d e =
    subst (λ t. Evolved id m.jobs t) (sym (finish_job-jobs b w j m))
      (Evolved-insert id b.id j (finished b w j) m.jobs d e (finish_evolves b w j))

cancel_all-gone :
    (id : String) (t : Table Job) → lookup id t ≡ none → lookup id (cancel_all t) ≡ none
unfolding cancel_all lookup
cancel_all-gone id [] e = e
cancel_all-gone id ((key, j) ∷ rest) e = let ih = cancel_all-gone id rest in ground (arith, ih, e)

cancel_all-Distinct : (t : Table Job) → Distinct t → Distinct (cancel_all t)
unfolding cancel_all
cancel_all-Distinct [] d = d
cancel_all-Distinct ((key, j) ∷ rest) (a, d) =
    (cancel_all-gone key rest a, cancel_all-Distinct rest d)

cancel_all-evolves :
    (id : String) (t : Table Job) → evolves (lookup id t) (lookup id (cancel_all t)) ≡ true
unfolding cancel_all lookup
cancel_all-evolves id [] = evolves_refl none
cancel_all-evolves id ((key, j) ∷ rest) =
    let ih = cancel_all-evolves id rest in let here = cancel_evolves j in ground (arith, ih, here)

cleanup_jobs-gone :
    (now : ℕ) (id : String) (t : Table Job) (files : Table ℕ)
    → lookup id t ≡ none
    → lookup id (cleanup_jobs now t files).0 ≡ none
unfolding cleanup_jobs lookup
cleanup_jobs-gone now id [] files e = e
cleanup_jobs-gone now id ((key, j) ∷ rest) files e =
    let ih =
      cleanup_jobs-gone now id rest (if is_due now j then remove_file j.file files else files) in
    ground (arith, ih, e)

cleanup_jobs-Distinct :
    (now : ℕ) (t : Table Job) (files : Table ℕ) → Distinct t → Distinct (cleanup_jobs now t files).0
unfolding cleanup_jobs
cleanup_jobs-Distinct now [] files d = d
cleanup_jobs-Distinct now ((key, j) ∷ rest) files (a, d) =
    let left = if is_due now j then remove_file j.file files else files in
    let ih = cleanup_jobs-Distinct now rest left d in
    let out = cleanup_jobs-gone now key rest left a in ground (arith, ih, out)

gone_evolves : (o : Option Job) → evolves o none ≡ true
unfolding evolves
gone_evolves o = ground arith

cleanup_jobs-evolves :
    (now : ℕ) (id : String) (t : Table Job) (files : Table ℕ)
    → Distinct t
    → evolves (lookup id t) (lookup id (cleanup_jobs now t files).0) ≡ true
unfolding cleanup_jobs lookup
cleanup_jobs-evolves now id [] files d = evolves_refl none
cleanup_jobs-evolves now id ((key, j) ∷ rest) files (a, d) =
    let left = if is_due now j then remove_file j.file files else files in
    let ih = cleanup_jobs-evolves now id rest left d in
    let out = cleanup_jobs-gone now key rest left a in
    let refl_job = evolves_refl (some j) in
    let gone = gone_evolves (some j) in ground (arith, ih, out, refl_job, gone, eq_iff key id)

register-Evolved :
    (id new : String) (user expires : ℕ) (m : Manager)
    → str_eq new id ≡ false
    → Distinct m.jobs
    → Evolved id m.jobs (register new user expires m).jobs
unfolding register
register-Evolved id new user expires m l d = elim (Bool-cases m.closed) [
  | inl q ↦ let same = same_jobs id m.jobs d in ground (arith, q, same)
  | inr q ↦
      let j = new_job user expires in
      let there = lookup-insert new id j m.jobs in
      let old = evolves_refl (lookup id m.jobs) in
      let added = Distinct-insert new j m.jobs d in
      record { change = ground (arith, q, there, old, l); distinct = ground (arith, q, added) }
]

take_first-jobs :
    (ids : List String) (name : Option String) (m : Manager) → (take_first ids name m).jobs ≡ m.jobs
unfolding take_first took
take_first-jobs [] name m = refl
take_first-jobs (id ∷ rest) none m = ground arith
take_first-jobs (id ∷ rest) (some n) m = ground arith

finish_picked-Evolved :
    (id : String) (o : Option (Build × List Build)) (w : Written) (m : Manager)
    → Distinct m.jobs
    → Evolved id m.jobs (finish_picked o w m).jobs
unfolding finish_picked finish
finish_picked-Evolved id none w m d = same_jobs id m.jobs d
finish_picked-Evolved id (some (b, bs)) w m d =
    finish_found-Evolved id b (outcome_of b.file w) (lookup b.id m.jobs)
      (record m { building = bs }) d refl

close_end-Evolved :
    (id : String) (m : Manager) → Distinct m.jobs → Evolved id m.jobs (close_end m).jobs
unfolding close_end lookup
close_end-Evolved id m d = elim (Bool-cases (m.closed && length m.building == 0)) [
  | inl q ↦
      let gone = gone_evolves (lookup id m.jobs) in
      record { change = ground (arith, q, gone); distinct = ground (arith, q) }
  | inr q ↦
      let same = evolves_refl (lookup id m.jobs) in
      record { change = ground (arith, q, same); distinct = ground (arith, q, d) }
]

perform-Evolved :
    (id : String) (a : Move) (m : Manager)
    → Leaves id a
    → Distinct m.jobs
    → Evolved id m.jobs (perform a m).jobs
unfolding cancel send give_up take cleanup close_start close_end
perform-Evolved id (registers new user expires) m l d = register-Evolved id new user expires m l d
perform-Evolved id (sends key) m l d = let same = same_jobs id m.jobs d in ground (arith, same)
perform-Evolved id (gives_up key) m l d =
    let same = same_jobs id m.jobs d in
    let c = cancel_found-Evolved id key (lookup key m.jobs) m.jobs d refl in ground (arith, same, c)
perform-Evolved id (cancels key) m l d =
    cancel_found-Evolved id key (lookup key m.jobs) m.jobs d refl
perform-Evolved id (takes name) m l d =
    subst (λ t. Evolved id m.jobs t) (sym (take_first-jobs m.tasks name m)) (same_jobs id m.jobs d)
perform-Evolved id (finishes n w) m l d = finish_picked-Evolved id (pick n m.building) w m d
perform-Evolved id (cleans now) m l d = record {
  change = cleanup_jobs-evolves now id m.jobs m.files d;
  distinct = cleanup_jobs-Distinct now m.jobs m.files d;
}
perform-Evolved id starts_closing m l d = record {
  change = cancel_all-evolves id m.jobs;
  distinct = cancel_all-Distinct m.jobs d;
}
perform-Evolved id ends_closing m l d = close_end-Evolved id m d

perform_all-Evolved :
    (id : String) (as_ : List Move) (m : Manager)
    → All (Leaves id) as_
    → Distinct m.jobs
    → Evolved id m.jobs (perform_all as_ m).jobs
perform_all-Evolved id [] m l d = same_jobs id m.jobs d
perform_all-Evolved id (a ∷ as_) m (l, ls) d =
    let one = perform-Evolved id a m l d in
    let more = perform_all-Evolved id as_ (perform a m) ls one.distinct in
    record {
      change =
          evolves_trans (lookup id m.jobs) (lookup id (perform a m).jobs)
            (lookup id (perform_all as_ (perform a m)).jobs) one.change more.change;
      distinct = more.distinct;
    }

barred :
    (o p : Option Job) (j : Job)
    → o ≡ some j
    → j.context ≡ true
    → is_complete j.status ≡ false
    → evolves o p ≡ true
    → open_found p ≡ none
unfolding evolves open_found
barred o p j e c n h = ground (arith, e, c, n, h)

-- A job that has been cancelled before it was complete can never be opened, whatever moves follow in
-- whatever order, as long as its id is not drawn again.
pub open_file-cancelled :
    (id : String) (as_ : List Move) (m : Manager) (j : Job)
    → Distinct m.jobs
    → lookup id m.jobs ≡ some j
    → is_running j.status ≡ true
    → All (Leaves id) as_
    → open_file id (perform_all as_ (cancel id m)) ≡ none
unfolding open_file cancel cancel_found is_running is_complete
open_file-cancelled id as_ m j d e r l =
    let c = record j { context = true } in
    let kept = cancel_found-Evolved id id (lookup id m.jobs) m.jobs d refl in
    let more = perform_all-Evolved id as_ (cancel id m) l kept.distinct in
    let here = lookup-insert id id c m.jobs in
    let there : lookup id (cancel id m).jobs ≡ some c = ground (arith, e, r, here, eq_iff id id) in
    barred (lookup id (cancel id m).jobs) (lookup id (perform_all as_ (cancel id m)).jobs) c there
      refl (ground (arith, r)) more.change

owner_kept :
    (o p : Option Job) (user : ℕ)
    → evolves o p ≡ true
    → owned_found p user ≡ true
    → owned_found o user ≡ true
unfolding evolves owned_found
owner_kept o p user h k = ground (arith, h, k)

-- No sequence of moves makes a user the owner of a job that the user did not own before.
owned_by-before :
    (id : String) (user : ℕ) (as_ : List Move) (m : Manager)
    → Distinct m.jobs
    → All (Leaves id) as_
    → owned_by id user (perform_all as_ m) ≡ true
    → owned_by id user m ≡ true
unfolding owned_by
owned_by-before id user as_ m d l k =
    owner_kept (lookup id m.jobs) (lookup id (perform_all as_ m).jobs) user
      (perform_all-Evolved id as_ m l d).change k
