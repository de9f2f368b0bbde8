-- ===== src/Limits/Tests.antt =====
-- Runs of the two limiters, and the theorems at concrete inputs.
use safe_file_hub.Base.{◌≡◌, refl, true, false, none, some, List, [], ◌∷◌, if◌then◌else◌}
use safe_file_hub.Base.Int.{pos}
use safe_file_hub.Base.Store.{lookup, insert, erase}
use safe_file_hub.Limits.{
  UploadLimiter, Lease, World, new_upload_limiter, try_acquire, release, run, Call, increment,
  count, receive, acquire_call, release_call,
}
use safe_file_hub.Limits.Upload.{
  Leaves, has_room, admitted, try_acquire-eq, run_new-Leaves, new_upload_limiter-IsValid,
}

abbrev fresh : UploadLimiter
fresh = record { capacity = 2; in_use = 0; per_user = pos 1; per_ip = pos 1; users = []; ips = [] }

abbrev fresh_world : World
fresh_world = record { limiter = fresh; leases = [] }

refuses_no_capacity : new_upload_limiter (pos 0) (pos 1) (pos 1) ≡ none
unfolding new_upload_limiter
refuses_no_capacity = refl

abbrev calls : List Call
calls =
    acquire_call "alice" "192.0.2.1"
    ∷ acquire_call "alice" "192.0.2.2"
    ∷ acquire_call "bob" "192.0.2.1"
    ∷ acquire_call "bob" "192.0.2.2"
    ∷ acquire_call "carol" "192.0.2.3"
    ∷ release_call 0
    ∷ release_call 0
    ∷ []

abbrev first_lease : Lease
first_lease = record { user = "alice"; ip = "192.0.2.1"; done = false }

try_acquire-eq_example : try_acquire "alice" "192.0.2.1" fresh_world ≡ (
    if has_room "alice" "192.0.2.1" fresh_world
    then some (admitted "alice" "192.0.2.1" fresh_world, true)
    else some (fresh_world, false))
unfolding new_upload_limiter
try_acquire-eq_example =
    try_acquire-eq "alice" "192.0.2.1" fresh_world
      (new_upload_limiter-IsValid (pos 2) (pos 1) (pos 1) refl)

run_new-Leaves_example : Leaves (run calls (record { limiter = fresh; leases = [] }))
unfolding new_upload_limiter
run_new-Leaves_example = run_new-Leaves (pos 2) (pos 1) (pos 1) calls refl

abbrev one_lease : World
one_lease = admitted "alice" "192.0.2.1" fresh_world

abbrev no_lease : World
no_lease = record {
  limiter = fresh;
  leases = record { user = "alice"; ip = "192.0.2.1"; done = true } ∷ [];
}

released : release 0 one_lease ≡ some no_lease
unfolding release increment count receive lookup insert erase
released = refl
