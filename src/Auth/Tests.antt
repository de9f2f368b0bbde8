-- ===== src/Auth/Tests.antt =====
-- Three sessions, a lookup and a collection.
use safe_file_hub.Base.{ℕ, ◌≡◌, refl, none, some, List, [], ◌∷◌, arith}
use safe_file_hub.Base.Store.{Table}
use safe_file_hub.Auth.{Session, is_expired, run_gc, user_of}
use safe_file_hub.Auth.Collection.{expired_count, Ends, run_gc-Ends}
use safe_file_hub.Auth.Distinct.{live}
use safe_file_hub.Auth.Refinement.{
  Event, created, looked_up, collected, revoked, happen_all, grant_all, grant, user_in, signed_in,
  user_of-signed_in,
}

abbrev events : List (ℕ × Event)
events =
    (1, created 10 "a" 7)
    ∷ (2, created 50 "b" 8)
    ∷ (3, created 60 "c" 7)
    ∷ (20, collected)
    ∷ (21, looked_up "b")
    ∷ (22, revoked "c")
    ∷ []

user_of-signed_in_example :
    user_in (user_of 30 "b" (happen_all events [])).0
    ≡ signed_in (live 30 (grant_all events (λ any. none) "b"))
user_of-signed_in_example =
    user_of-signed_in 30 events "b"
      (omega arith, (omega arith, (omega arith, (omega arith, (omega arith, (omega arith, tt))))))

b_is_signed_in : signed_in (live 30 (grant_all events (λ any. none) "b")) ≡ some 8
unfolding signed_in live grant
b_is_signed_in = refl

abbrev sessions : Table Session
sessions =
    ("a", record { user_id = 7; expires_at = 11 })
    ∷ ("b", record { user_id = 8; expires_at = 52 })
    ∷ []

run_gc-Ends_example : Ends 20 sessions (run_gc (λ i t. t) 20 0 1 sessions)
unfolding expired_count is_expired
run_gc-Ends_example =
    run_gc-Ends (λ i t. t) 20 0 1 sessions
      (record { count = λ i t. omega arith; same = λ i t id s h. h }) (omega arith)
