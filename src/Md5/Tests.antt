-- ===== src/Md5/Tests.antt =====
-- A task whose third and last try was lost.
use safe_file_hub.Base.{◌≡◌, ◌≤◌, refl, List, [], ◌∷◌, All, arith}
use safe_file_hub.Md5.{Task, pending, computing, check_failed, claim, requeue}
use safe_file_hub.Md5.Tries.{Tried}
use safe_file_hub.Md5.Bounded.{
  Call, claims, fails, requeues, perform_all, count_tries, NoneRefused, perform_all-Tried,
  requeue-Blocked,
}

abbrev lost : Task
lost = record {
  file_id = 1;
  status = computing;
  attempts = 3;
  max_attempts = 3;
  available_at = 2;
  claimed_at = 5;
}

abbrev tried_twice : Task
tried_twice = record lost { status = pending; attempts = 2 }

-- The last try of the task fails, and nothing is due any more.
abbrev calls : List Call
calls = claims 6 ∷ fails 7 1 ∷ claims 8 ∷ requeues 20 10 4 ∷ []

perform_all-Tried_example :
    (count_tries 1 calls (tried_twice ∷ []) 2 ≤ 3)
    × All
        (Tried 1 (count_tries 1 calls (tried_twice ∷ []) 2) 3)
        (perform_all calls (tried_twice ∷ []))
    × NoneRefused calls (tried_twice ∷ [])
perform_all-Tried_example =
    perform_all-Tried 1 2 3 calls (tried_twice ∷ []) (omega arith) ((λ _. (refl, refl)), tt)
      ((λ _. omega arith), tt)

requeue-Blocked_example :
    claim 21 (requeue 20 10 4 (lost ∷ [])) ≡ (check_failed, requeue 20 10 4 (lost ∷ []))
requeue-Blocked_example = requeue-Blocked lost 20 10 3 21 refl refl (omega arith) (omega arith)
