-- ===== src/Archive/Jobs.antt =====
-- The state of `archive.Manager` and its critical sections.
use safe_file_hub.Base.{
  ℕ, suc, String, Bool, true, false, not, ◌&&◌, ◌||◌, Option, none, some, List, [], ◌∷◌, ◌++◌, ltb,
  leb, ◌==◌, str_eq, if◌then◌else◌, length,
}
use safe_file_hub.Base.Store.{Table, lookup, insert, erase}

pub data Status : Type 0 where
  running complete cancelled failed : Status

-- `managedJob`; an error is only that there is one. `context` says whether `cancel` has been called.
pub record Job : Type 0 where
  pub user_id : ℕ
  pub status : Status
  pub expires_at : ℕ
  pub size : ℕ
  pub file : Option String
  pub context : Bool

-- A worker in `build`, with its temporary file unless that could not be created.
pub record Build : Type 0 where
  pub id : String
  pub file : Option String

pub record Manager : Type 0 where
  pub workers : ℕ
  pub jobs : Table Job
  -- the sizes of the temporary files
  pub files : Table ℕ
  -- the jobs whose `create` stands before its second select
  pub sending : List String
  -- the channel, which holds as many tasks as there are workers
  pub tasks : List String
  pub building : List Build
  pub closed : Bool

unfoldable pub is_running : Status → Bool
is_running running = true
is_running complete = false
is_running cancelled = false
is_running failed = false

unfoldable pub is_complete : Status → Bool
is_complete running = false
is_complete complete = true
is_complete cancelled = false
is_complete failed = false

-- A list without the entries of an id.
unfoldable pub without : String → List String → List String
without id [] = []
without id (x ∷ xs) = let rest = without id xs in if str_eq x id then rest else x ∷ rest

unfoldable pub has_id : String → List String → Bool
has_id id [] = false
has_id id (x ∷ xs) = let rest = has_id id xs in str_eq x id || rest

unfoldable pub new_job : ℕ → ℕ → Job
new_job user expires = record {
  user_id = user;
  status = running;
  expires_at = expires;
  size = 0;
  file = none;
  context = false;
}

-- The first critical section of `create`.
unfoldable pub register : String → ℕ → ℕ → Manager → Manager
unfolding new_job
register id user expires m =
    if m.closed
    then m
    else record m { jobs = insert id (new_job user expires) m.jobs; sending = id ∷ m.sending }

unfoldable pub cancel_found : String → Option Job → Table Job → Table Job
unfolding is_running
cancel_found id none jobs = jobs
cancel_found id (some j) jobs =
    if is_running j.status then insert id (record j { context = true }) jobs else jobs

-- `Cancel`
unfoldable pub cancel : String → Manager → Manager
unfolding cancel_found
cancel id m = record m { jobs = cancel_found id (lookup id m.jobs) m.jobs }

-- The second select of `create`: the task is sent,
unfoldable pub send : String → Manager → Manager
unfolding has_id without
send id m =
    if has_id id m.sending && ltb (length m.tasks) m.workers
    then record m { sending = without id m.sending; tasks = m.tasks ++ id ∷ [] }
    else m

-- or `create` gives up, since its context is done or the manager closed.
unfoldable pub give_up : String → Manager → Manager
unfolding cancel has_id without
give_up id m =
    if has_id id m.sending then cancel id (record m { sending = without id m.sending }) else m

unfoldable pub took : String → Option String → List String → Manager → Manager
took id none rest m = record m {
  tasks = rest;
  building = record { id = id; file = none } ∷ m.building;
}
took id (some name) rest m = record m {
  tasks = rest;
  building = record { id = id; file = some name } ∷ m.building;
  files = insert name 0 m.files;
}

-- A worker receives a task and creates its file, with a name that nothing has.
unfoldable pub take_first : List String → Option String → Manager → Manager
unfolding took
take_first [] name m = m
take_first (id ∷ rest) name m = if ltb (length m.building) m.workers then took id name rest m else m

unfoldable pub take : Option String → Manager → Manager
unfolding take_first
take name m = take_first m.tasks name m

-- What the file has become: it could not be written, its size could not be read, or its size.
pub data Written : Type 0 where
  not_written not_read : Written
  written : ℕ → Written

unfoldable pub remove_file : Option String → Table ℕ → Table ℕ
remove_file none files = files
remove_file (some name) files = erase name files

unfoldable pub size_file : Option String → ℕ → Table ℕ → Table ℕ
size_file none n files = files
size_file (some name) n files = insert name n files

-- The last critical section of `build`, for a job that is there.
unfoldable pub finish_job : Build → Written → Job → Manager → Manager
unfolding remove_file size_file
finish_job b w j m =
    if j.context
    then record m {
      jobs = insert b.id (record j { status = cancelled }) m.jobs;
      files = remove_file b.file m.files;
    }
    else (elim w [
      | not_written ↦ record m {
        jobs = insert b.id (record j { status = failed }) m.jobs;
        files = remove_file b.file m.files;
      }
      | not_read ↦ record m { jobs = insert b.id (record j { status = failed }) m.jobs }
      | written n ↦ record m {
        jobs = insert b.id (record j { status = complete; size = n; file = b.file }) m.jobs;
        files = size_file b.file n m.files;
      }
    ])

unfoldable pub finish_found : Build → Written → Option Job → Manager → Manager
unfolding finish_job remove_file
finish_found b w none m = record m { files = remove_file b.file m.files }
finish_found b w (some j) m = finish_job b w j m

-- A build whose file could not be created has failed.
unfoldable pub outcome_of : Option String → Written → Written
outcome_of none w = not_written
outcome_of (some name) w = w

unfoldable pub finish : Build → List Build → Written → Manager → Manager
unfolding finish_found outcome_of
finish b rest w m =
    finish_found b (outcome_of b.file w) (lookup b.id m.jobs) (record m { building = rest })

unfoldable pub is_due : ℕ → Job → Bool
unfolding is_running
is_due now j = leb j.expires_at now && not (is_running j.status)

-- The loop of `Cleanup`: the jobs that stay, the files that stay, and how many jobs went.
unfoldable pub cleanup_jobs : ℕ → Table Job → Table ℕ → Table Job × (Table ℕ × ℕ)
unfolding is_due remove_file
cleanup_jobs now [] files = ([], (files, 0))
cleanup_jobs now ((id, j) ∷ rest) files =
    let (jobs, (left, n)) =
      cleanup_jobs now rest (if is_due now j then remove_file j.file files else files) in
    if is_due now j then (jobs, (left, suc n)) else ((id, j) ∷ jobs, (left, n))

-- `Cleanup`
unfoldable pub cleanup : ℕ → Manager → Manager
unfolding cleanup_jobs
cleanup now m =
    let (jobs, (files, n)) = cleanup_jobs now m.jobs m.files in
    record m { jobs = jobs; files = files }

unfoldable pub cancel_all : Table Job → Table Job
cancel_all [] = []
cancel_all ((id, j) ∷ rest) = (id, record j { context = true }) ∷ cancel_all rest

-- `Close` up to its wait for the workers,
unfoldable pub close_start : Manager → Manager
unfolding cancel_all
close_start m = record m { closed = true; jobs = cancel_all m.jobs }

unfoldable pub remove_files : Table Job → Table ℕ → Table ℕ
unfolding remove_file
remove_files [] files = files
remove_files ((id, j) ∷ rest) files = remove_files rest (remove_file j.file files)

-- and behind it.
unfoldable pub close_end : Manager → Manager
unfolding remove_files
close_end m =
    if m.closed && length m.building == 0
    then record m { jobs = []; files = remove_files m.jobs m.files }
    else m

unfoldable pub open_found : Option Job → Option String
unfolding is_complete
open_found none = none
open_found (some j) = if is_complete j.status then j.file else none

-- `Open`: the file that is opened.
unfoldable pub open_file : String → Manager → Option String
unfolding open_found
open_file id m = open_found (lookup id m.jobs)

unfoldable pub owned_found : Option Job → ℕ → Bool
owned_found none user = false
owned_found (some j) user = j.user_id == user && ltb 0 user

-- `OwnedBy`
unfoldable pub owned_by : String → ℕ → Manager → Bool
unfolding owned_found
owned_by id user m = owned_found (lookup id m.jobs) user
