-- ===== src/Archive/Tests.antt =====
-- A request for two files, and a job that is cancelled in the middle of its build.
use safe_file_hub.Base.{
  ℕ, ◌≡◌, refl, true, false, none, some, List, [], ◌∷◌, Bytes, codes, bytes_eq, has_prefix,
  trim_prefix, drop_prefix, split, join, contains_byte,
}
use safe_file_hub.Base.Int.{pos}
use safe_file_hub.Base.Store.{lookup}
use safe_file_hub.Archive.Selection.{Entry, Limits, check_create}
use safe_file_hub.Archive.Jobs.{
  Manager, new_job, written, cancel, give_up, open_file, is_running, has_id,
}
use safe_file_hub.Archive.Moves.{registers, takes, finishes, cleans, perform_all}
use safe_file_hub.Archive.Selected.{Passed, check_create-Passed}
use safe_file_hub.Archive.Cancelled.{open_file-cancelled}
use safe_file_hub.Archive.Stranded.{runs, is_built, give_up-Stays}

abbrev entry : Bytes → ℕ → Entry
entry path n = record { logical_path = path; object_key = codes "k"; size = pos n }

abbrev two_files : List Entry
two_files = entry (codes "/a/b") 3 ∷ entry (codes "/a/c") 4 ∷ []

abbrev limits : Limits
limits = record { max_files = 2; max_bytes = 7 }

check_create-Passed_example : Passed (λ p. some true) (codes "/a") two_files limits
unfolding check_create bytes_eq has_prefix trim_prefix drop_prefix split join contains_byte
check_create-Passed_example =
    check_create-Passed (λ p. some true) (codes "/a") two_files limits refl

-- One job that is registered and not yet sent.
abbrev manager : Manager
manager = record {
  workers = 1;
  jobs = ("j", new_job 5 30) ∷ [];
  files = [];
  sending = "j" ∷ [];
  tasks = [];
  building = [];
  closed = false;
}

-- It is being built.
abbrev busy : Manager
busy = record {
  workers = 1;
  jobs = ("j", new_job 5 30) ∷ [];
  files = ("f", 0) ∷ [];
  sending = [];
  tasks = [];
  building = record { id = "j"; file = some "f" } ∷ [];
  closed = false;
}

open_file-cancelled_example :
    open_file "j"
      (perform_all (registers "k" 6 40 ∷ finishes 0 (written 9) ∷ cleans 35 ∷ []) (cancel "j" busy))
    ≡ none
unfolding lookup is_running new_job
open_file-cancelled_example =
    open_file-cancelled "j" (registers "k" 6 40 ∷ finishes 0 (written 9) ∷ cleans 35 ∷ []) busy
      (new_job 5 30) (refl, tt) refl refl (refl, (tt, (tt, tt)))

give_up-Stays_example :
    runs (lookup "j" (perform_all (cleans 1000 ∷ takes none ∷ []) (give_up "j" manager)).jobs)
    ≡ true
unfolding runs is_running new_job lookup has_id is_built
give_up-Stays_example =
    give_up-Stays "j" (cleans 1000 ∷ takes none ∷ []) manager refl refl refl refl (tt, (tt, tt))
      (tt, (tt, tt))
