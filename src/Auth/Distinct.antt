-- ===== src/Auth/Distinct.antt =====
-- The store is a map: every id stands in the table at most once.
use safe_file_hub.Base.{
  ℕ, zero, suc, ◌≤◌, ◌≡◌, refl, String, Option, none, some, [], ◌∷◌, ltb, ◌==◌, eq_iff,
  if◌then◌else◌, arith,
}
use safe_file_hub.Base.Store.{Table, lookup}
use safe_file_hub.Base.Keys.{Distinct}
use safe_file_hub.Auth.{Session, is_expired, delete_for_user, delete_up_to}

-- A session unless it is this user's.
unfoldable pub unless_of : ℕ → Option Session → Option Session
unless_of user none = none
unless_of user (some s) = if s.user_id == user then none else some s

-- The sessions that count at a time.
unfoldable pub live : ℕ → Option Session → Option Session
live now none = none
live now (some s) = if ltb now s.expires_at then some s else none

pub lookup-delete_for_user :
    (user : ℕ) (id : String) (t : Table Session)
    → Distinct t
    → lookup id (delete_for_user user t) ≡ unless_of user (lookup id t)
unfolding delete_for_user unless_of lookup
lookup-delete_for_user user id [] d = refl
lookup-delete_for_user user id ((key, r) ∷ rest) (a, d) =
    let ih = lookup-delete_for_user user id rest d in ground (arith, ih, a, eq_iff key id)

pub Distinct-delete_for_user :
    (user : ℕ) (t : Table Session) → Distinct t → Distinct (delete_for_user user t)
unfolding delete_for_user unless_of
Distinct-delete_for_user user [] d = tt
Distinct-delete_for_user user ((key, r) ∷ rest) (a, d) =
    let ih = Distinct-delete_for_user user rest d in
    ground (arith, ih, a, lookup-delete_for_user user key rest d)

delete_up_to-gone :
    (now limit : ℕ) (id : String) (t : Table Session)
    → lookup id t ≡ none
    → lookup id (delete_up_to now limit t).0 ≡ none
unfolding delete_up_to lookup
delete_up_to-gone now zero id t e = e
delete_up_to-gone now (suc limit) id [] e = e
delete_up_to-gone now (suc limit) id ((key, r) ∷ rest) e =
    let a = delete_up_to-gone now limit id rest in
    let b = delete_up_to-gone now (suc limit) id rest in ground (arith, a, b, e)

pub Distinct-delete_up_to :
    (now limit : ℕ) (t : Table Session) → Distinct t → Distinct (delete_up_to now limit t).0
unfolding delete_up_to
Distinct-delete_up_to now zero t d = d
Distinct-delete_up_to now (suc limit) [] d = d
Distinct-delete_up_to now (suc limit) ((key, r) ∷ rest) (a, d) =
    let x = Distinct-delete_up_to now limit rest d in
    let y = Distinct-delete_up_to now (suc limit) rest d in
    let z = delete_up_to-gone now (suc limit) key rest a in ground (arith, x, y, z)

-- What a collection takes does not count at any later time.
pub live-delete_up_to :
    (now limit later : ℕ) (id : String) (t : Table Session)
    → now ≤ later
    → Distinct t
    → live later (lookup id (delete_up_to now limit t).0) ≡ live later (lookup id t)
unfolding delete_up_to is_expired lookup live
live-delete_up_to now zero later id t h d = refl
live-delete_up_to now (suc limit) later id [] h d = refl
live-delete_up_to now (suc limit) later id ((key, r) ∷ rest) h (a, d) =
    let x = live-delete_up_to now limit later id rest h d in
    let y = live-delete_up_to now (suc limit) later id rest h d in
    let z = delete_up_to-gone now limit key rest a in ground (arith, x, y, z, a, h, eq_iff key id)
