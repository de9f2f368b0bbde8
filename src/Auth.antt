-- ===== src/Auth.antt =====
-- Sign-in and server-side sessions: internal/auth/password.go and session.go with its store in
-- memory. Auth.Passwords has the hashes and `Authenticate`, this file the sessions.
--
-- Times are natural numbers. The store is a table; `delete_up_to` goes through it in its order,
-- and `arrange` puts it in the order in which Go happens to range over the map. Cookies, logging and
-- the shutdown of the worker are left out; `rand.Read` has drawn the id that `create` gets.
use safe_file_hub.Base.{
  ℕ, zero, suc, ◌+◌, String, Bool, true, false, not, Option, none, some, List, [], ◌∷◌, ltb, leb,
  ◌==◌, str_eq, if◌then◌else◌,
}
use safe_file_hub.Base.Store.{Table, lookup, insert, erase}
pub mod Distinct
pub mod Refinement
pub mod Collection
pub mod Passwords
pub mod SignIn
mod Tests
mod SignInTests

-- `Session`, without its id, which is the key in the store.
pub record Session : Type 0 where
  pub user_id : ℕ
  pub expires_at : ℕ

pub data Lookup : Type 0 where
  session_of : ℕ → Lookup
  not_found expired : Lookup

-- `!session.ExpiresAt.After(now)`
unfoldable pub is_expired : ℕ → Session → Bool
is_expired now s = leb s.expires_at now

-- `memorySessionStore.DeleteForUser`
unfoldable pub delete_for_user : ℕ → Table Session → Table Session
delete_for_user user [] = []
delete_for_user user ((id, s) ∷ rest) =
    let later = delete_for_user user rest in if s.user_id == user then later else (id, s) ∷ later

-- `memorySessionStore.DeleteExpired`: what is left, and how many were deleted. The loop ends at
-- the limit.
unfoldable pub delete_up_to : ℕ → ℕ → Table Session → Table Session × ℕ
unfolding is_expired
delete_up_to now zero t = (t, 0)
delete_up_to now (suc limit) [] = ([], 0)
delete_up_to now (suc limit) ((id, s) ∷ rest) =
    let (kept, n) = delete_up_to now (if is_expired now s then limit else suc limit) rest in
    if is_expired now s then (kept, suc n) else ((id, s) ∷ kept, n)

-- `SessionManager.Create`, apart from the collection that it starts.
unfoldable pub create : ℕ → ℕ → String → ℕ → Table Session → Table Session
create now ttl id user t = insert id (record { user_id = user; expires_at = now + ttl }) t

-- `SessionManager.Revoke`, which `Logout` calls.
unfoldable pub revoke : String → Table Session → Table Session
revoke id t = if str_eq id "" then t else erase id t

-- `SessionManager.RevokeUser`
unfoldable pub revoke_user : ℕ → Table Session → Table Session
unfolding delete_for_user
revoke_user user t = if user == 0 then t else delete_for_user user t

unfoldable pub resolve : ℕ → String → Option Session → Table Session → Lookup × Table Session
resolve now id none t = (not_found, t)
resolve now id (some s) t =
    if ltb now s.expires_at then (session_of s.user_id, t) else (expired, erase id t)

-- `SessionManager.UserID`
unfoldable pub user_of : ℕ → String → Table Session → Lookup × Table Session
unfolding resolve
user_of now id t = resolve now id (lookup id t) t

abbrev pub session_gc_max_deletes : ℕ
session_gc_max_deletes = 64

-- `SessionManager.GC`
unfoldable pub gc : ℕ → Table Session → Table Session × ℕ
gc now t = delete_up_to now session_gc_max_deletes t

-- The loop of `runGC`, on fuel; `none` where the fuel was not enough. Pass `i` goes through the map
-- that `arrange i` gives: in another order, and with what other goroutines did since the last pass.
unfoldable pub run_gc :
    (ℕ → Table Session → Table Session) → ℕ → ℕ → ℕ → Table Session → Option (Table Session)
unfolding gc
run_gc arrange now i zero t = none
run_gc arrange now i (suc fuel) t =
    let (left, deleted) = gc now (arrange i t) in
    let later = run_gc arrange now (suc i) fuel left in
    if ltb deleted session_gc_max_deletes then some left else later
