-- ===== src/Auth/Refinement.antt =====
-- Who is signed in is a function of the sign-ins and revocations alone.
use safe_file_hub.Base.{
  ℕ, ◌+◌, ◌≤◌, ◌≡◌, refl, ap, ◌∙◌, String, Option, none, some, List, [], ◌∷◌, ◌==◌, str_eq, eq_iff,
  if◌then◌else◌, arith, inl, inr, Option-cases, All,
}
use safe_file_hub.Base.Store.{Table, lookup, lookup-insert, lookup-erase}
use safe_file_hub.Base.Keys.{Distinct, Distinct-insert, Distinct-erase}
use safe_file_hub.Auth.{
  Session, Lookup, session_of, not_found, expired, create, revoke, revoke_user, resolve, user_of,
  gc,
}
use safe_file_hub.Auth.Distinct.{
  unless_of, live, Distinct-delete_for_user, lookup-delete_for_user, Distinct-delete_up_to,
  live-delete_up_to,
}

-- What happens to the store, each event at its time.
pub data Event : Type 0 where
  created : (ttl : ℕ) → String → (user : ℕ) → Event
  revoked : String → Event
  user_revoked : ℕ → Event
  looked_up : String → Event
  collected : Event

abbrev pub happen : ℕ × Event → Table Session → Table Session
happen (now, created ttl id user) t = create now ttl id user t
happen (now, revoked id) t = revoke id t
happen (now, user_revoked user) t = revoke_user user t
happen (now, looked_up id) t = (user_of now id t).1
happen (now, collected) t = (gc now t).0

abbrev pub happen_all : List (ℕ × Event) → Table Session → Table Session
happen_all [] t = t
happen_all (e ∷ es) t = happen_all es (happen e t)

-- The specification: each id stands for at most one session, which only sign-ins and revocations
-- change; nothing is ever collected.
abbrev pub Grants : Type 0
Grants = String → Option Session

unfoldable pub grant : ℕ × Event → Grants → Grants
unfolding unless_of
grant (now, created ttl id user) g any =
    if str_eq id any then some (record { user_id = user; expires_at = now + ttl }) else g any
grant (now, revoked id) g any =
    if str_eq id any then (if str_eq id "" then g any else none) else g any
grant (now, user_revoked user) g any = if user == 0 then g any else unless_of user (g any)
grant (now, looked_up id) g any = g any
grant (now, collected) g any = g any

abbrev pub grant_all : List (ℕ × Event) → Grants → Grants
grant_all [] g = g
grant_all (e ∷ es) g = grant_all es (grant e g)

-- The answer that the specification gives.
unfoldable pub signed_in : Option Session → Option ℕ
signed_in none = none
signed_in (some s) = some s.user_id

-- The user in an answer of the code.
unfoldable pub user_in : Lookup → Option ℕ
user_in (session_of user) = some user
user_in not_found = none
user_in expired = none

-- The table is a map, and has the live sessions of the specification.
pub record Agree (now : ℕ) (t : Table Session) (g : Grants) : Type 0 where
  pub distinct : Distinct t
  pub same : (id : String) → live now (lookup id t) ≡ live now (g id)

user_of-live :
    (now : ℕ) (id : String) (t : Table Session)
    → user_in (user_of now id t).0 ≡ signed_in (live now (lookup id t))
unfolding user_in user_of resolve signed_in live
user_of-live now id t = elim (Option-cases (lookup id t)) [
  | inl e ↦ rw e refl
  | inr (s, e) ↦ rw e (ground arith)
]

live-unless_of :
    (now user : ℕ) (a b : Option Session)
    → live now a ≡ live now b
    → live now (unless_of user a) ≡ live now (unless_of user b)
unfolding live unless_of
live-unless_of now user a b e = ground (arith, e)

resolve-Distinct :
    (now : ℕ) (id : String) (o : Option Session) (t : Table Session)
    → Distinct t
    → Distinct (resolve now id o t).1
unfolding resolve
resolve-Distinct now id none t d = d
resolve-Distinct now id (some s) t d = let a = Distinct-erase id t d in ground (arith, a, d)

-- A lookup deletes only what does not count any more.
resolve-live :
    (now later : ℕ) (id any : String) (t : Table Session)
    → now ≤ later
    → live later (lookup any (user_of now id t).1) ≡ live later (lookup any t)
unfolding user_of resolve live
resolve-live now later id any t h = elim (Option-cases (lookup id t)) [
  | inl e ↦ rw e refl
  | inr (s, e) ↦
      let a = lookup-erase id any t in let same = eq_iff id any in ground (arith, e, a, h, same)
]

happen-Agree :
    (later now : ℕ) (e : Event) (t : Table Session) (g : Grants)
    → now ≤ later
    → Agree later t g
    → Agree later (happen (now, e) t) (grant (now, e) g)
unfolding create revoke revoke_user user_of gc grant
happen-Agree later now (created ttl id user) t g h a = record {
  distinct = Distinct-insert id (record { user_id = user; expires_at = now + ttl }) t a.distinct;
  same = λ any.
      let l = lookup-insert id any (record { user_id = user; expires_at = now + ttl }) t in
      let s = a.same any in ground (arith, l, s);
}
happen-Agree later now (revoked id) t g h a = record {
  distinct = let d = Distinct-erase id t a.distinct in let e = a.distinct in ground (arith, d, e);
  same = λ any. let l = lookup-erase id any t in let s = a.same any in ground (arith, l, s);
}
happen-Agree later now (user_revoked user) t g h a = record {
  distinct =
      let d = Distinct-delete_for_user user t a.distinct in
      let e = a.distinct in ground (arith, d, e);
  same = λ any.
      let l = lookup-delete_for_user user any t a.distinct in
      let s = a.same any in
      let u = live-unless_of later user (lookup any t) (g any) s in ground (arith, l, s, u);
}
happen-Agree later now (looked_up id) t g h a = record {
  distinct = resolve-Distinct now id (lookup id t) t a.distinct;
  same = λ any. resolve-live now later id any t h ∙ a.same any;
}
happen-Agree later now collected t g h a = record {
  distinct = Distinct-delete_up_to now 64 t a.distinct;
  same = λ any. live-delete_up_to now 64 later any t h a.distinct ∙ a.same any;
}

happen_all-Agree :
    (now : ℕ) (es : List (ℕ × Event)) (t : Table Session) (g : Grants)
    → All (λ e. e.0 ≤ now) es
    → Agree now t g
    → Agree now (happen_all es t) (grant_all es g)
happen_all-Agree now [] t g h a = a
happen_all-Agree now ((time, e) ∷ es) t g (b, h) a =
    happen_all-Agree now es (happen (time, e) t) (grant (time, e) g) h
      (happen-Agree now time e t g b a)

-- Whatever has happened to an empty store up to now, lookups and collections included, the
-- user that the store resolves an id to is the one of the specification, in which nothing is ever
-- deleted for its age.
pub user_of-signed_in :
    (now : ℕ) (es : List (ℕ × Event)) (id : String)
    → All (λ e. e.0 ≤ now) es
    → user_in (user_of now id (happen_all es [])).0
      ≡ signed_in (live now (grant_all es (λ any. none) id))
unfolding lookup
user_of-signed_in now es id h =
    let a =
      happen_all-Agree now es [] (λ any. none) h (record { distinct = tt; same = λ any. refl }) in
    user_of-live now id (happen_all es []) ∙ ap signed_in (a.same id)
