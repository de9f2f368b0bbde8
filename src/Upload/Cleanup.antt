-- ===== src/Upload/Cleanup.antt =====
-- The clean-up of a session: it converges from every status, and again after a failure.
use safe_file_hub.Base.{
  ◌≡◌, refl, subst, ap, ◌∙◌, inl, inr, String, Bool, true, false, some, [], ◌∷◌, if◌then◌else◌,
  arith, Bool-cases, eq_iff,
}
use safe_file_hub.Base.Store.{Table, lookup, insert, erase, lookup-insert}
use safe_file_hub.Upload.Data.{
  Status, active, cancelled, cleanup_pending, complete, UploadSession, World, ok, err, failed,
  Error, Outcome,
}
use safe_file_hub.Upload.Rows.{
  update_where, update_upload_status, status_of_row, status_eq, delete_upload_session,
}
use safe_file_hub.Upload.Staging.{remove_staging}
use safe_file_hub.Upload.Manager.{
  CleanupFaults, cleanup_locked, cleanup_at, cleanup_cancelled, remove_and_delete,
}

module _ {ℓ} {V : Type ℓ} where
  erase-insert : (key : String) (v : V) (t : Table V) → erase key (insert key v t) ≡ erase key t
  unfolding erase insert
  erase-insert key v [] = ground (arith, eq_iff key key)
  erase-insert key v ((name, value) ∷ rest) =
      ground (arith, eq_iff key key, eq_iff name key, erase-insert key v rest)

  erase_twice : (key : String) (t : Table V) → erase key (erase key t) ≡ erase key t
  unfolding erase
  erase_twice key [] = refl
  erase_twice key ((name, value) ∷ rest) = ground (arith, eq_iff name key, erase_twice key rest)

abbrev pub no_faults : CleanupFaults
no_faults = record { cancel = false; pend = false; remove = false; delete = false }

-- The world without the session's row and staging file.
abbrev pub removed : UploadSession → World → World
removed s w = record w {
  sessions = erase s.id w.sessions;
  staging = erase s.staging_path w.staging;
}

-- The world with the row in another status.
abbrev pub with_status : UploadSession → Status → World → World
with_status s status w = record w {
  sessions = insert s.id (record s { status = status }) w.sessions;
}

status_eq_refl : (a : Status) → status_eq a a ≡ true
unfolding status_eq
status_eq_refl active = refl
status_eq_refl cancelled = refl
status_eq_refl cleanup_pending = refl
status_eq_refl complete = refl

update_status-eq :
    (fails : Bool) (s : UploadSession) (from to : Status) (w : World)
    → s.status ≡ from
    → lookup s.id w.sessions ≡ some s
    → update_upload_status fails s.id from to w
      ≡ (if fails then (err failed, w) else (ok tt, with_status s to w))
unfolding update_upload_status status_of_row update_where
update_status-eq fails s from to w at row = rw (row, at, status_eq_refl from) refl

-- What is left of the session `s` of the world `w`: the row `s'` of the world `w'`, from which the
-- clean-up can go on to the same end.
pub record Left (s : UploadSession) (w : World) (s' : UploadSession) (w' : World) : Type 0 where
  pub own : s'.id ≡ s.id
  pub path : s'.staging_path ≡ s.staging_path
  pub row : lookup s'.id w'.sessions ≡ some s'
  pub unfinished : status_eq s'.status complete ≡ false
  pub same : removed s' w' ≡ removed s w

with_status-Left :
    {s : UploadSession} {w : World} (s' : UploadSession) (w' : World) (st : Status)
    → status_eq st complete ≡ false
    → Left s w s' w'
    → Left s w (record s' { status = st }) (with_status s' st w')
with_status-Left {s} {w} s' w' st u l =
    let r = record s' { status = st } in
    record {
      own = l.own;
      path = l.path;
      row = ground (arith, lookup-insert s'.id s'.id r w'.sessions, eq_iff s'.id s'.id);
      unfinished = u;
      same =
          ap (λ t. record w' { sessions = t; staging = erase s'.staging_path w'.staging })
            (erase-insert s'.id r w'.sessions)
          ∙ l.same;
    }

-- How an operation of the clean-up ends: all is removed, or something is left.
abbrev pub Ends : UploadSession → World → Outcome Unit → Type 0
Ends s w (ok a, w') = w' ≡ removed s w
Ends s w (err e, w') = (s' : UploadSession) × Left s w s' w'

remove_and_delete-Ends :
    (f : CleanupFaults) {s : UploadSession} {w : World} (s' : UploadSession) (w' : World)
    → Left s w s' w'
    → Ends s w (remove_and_delete f s' w')
unfolding remove_and_delete remove_staging delete_upload_session
remove_and_delete-Ends f {s} {w} s' w' l = elim (Bool-cases f.remove) [
  | inl e ↦ rw e (s', l)
  | inr e ↦ rw e (elim (Bool-cases f.delete) [
    | inl k ↦ rw k (
      s',
      record {
        own = l.own;
        path = l.path;
        row = l.row;
        unfinished = l.unfinished;
        same =
            ap (λ t. record w' { sessions = erase s'.id w'.sessions; staging = t })
              (erase_twice s'.staging_path w'.staging)
            ∙ l.same;
      },
    )
    | inr k ↦ rw (k, l.row) l.same
  ])
]

cleanup_cancelled-Ends :
    (f : CleanupFaults) {s : UploadSession} {w : World} (s' : UploadSession) (w' : World)
    → s'.status ≡ cancelled
    → Left s w s' w'
    → Ends s w (cleanup_cancelled f s' w')
unfolding cleanup_cancelled remove_and_delete status_eq
cleanup_cancelled-Ends f {s} {w} s' w' at l =
    rw (update_status-eq f.pend s' cancelled cleanup_pending w' at l.row)
      (elim (Bool-cases f.pend) [
        | inl e ↦ rw e (s', l)
        | inr e ↦ rw e (
            remove_and_delete-Ends f (record s' { status = cleanup_pending })
              (with_status s' cleanup_pending w') (with_status-Left s' w' cleanup_pending refl l))
      ])

cleanup_at-Ends :
    (f : CleanupFaults) {s : UploadSession} {w : World} (s' : UploadSession) (w' : World)
    (st : Status)
    → s'.status ≡ st
    → Left s w s' w'
    → Ends s w (cleanup_at st f s' w')
unfolding cleanup_at cleanup_cancelled remove_and_delete status_eq
cleanup_at-Ends f s' w' complete at l = (s', l)
cleanup_at-Ends f s' w' cleanup_pending at l = remove_and_delete-Ends f s' w' l
cleanup_at-Ends f s' w' cancelled at l = cleanup_cancelled-Ends f s' w' at l
cleanup_at-Ends f s' w' active at l =
    rw (update_status-eq f.cancel s' active cancelled w' at l.row) (elim (Bool-cases f.cancel) [
      | inl e ↦ rw e (s', l)
      | inr e ↦ rw e (
          cleanup_cancelled-Ends f (record s' { status = cancelled }) (with_status s' cancelled w')
            refl (with_status-Left s' w' cancelled refl l))
    ])

remove_and_delete-converges :
    {s : UploadSession} {w : World} (s' : UploadSession) (w' : World)
    → Left s w s' w'
    → remove_and_delete no_faults s' w' ≡ (ok tt, removed s w)
unfolding remove_and_delete remove_staging delete_upload_session
remove_and_delete-converges s' w' l = rw (l.row) (ap (λ v. (ok tt, v)) l.same)

cleanup_cancelled-converges :
    {s : UploadSession} {w : World} (s' : UploadSession) (w' : World)
    → s'.status ≡ cancelled
    → Left s w s' w'
    → cleanup_cancelled no_faults s' w' ≡ (ok tt, removed s w)
unfolding cleanup_cancelled remove_and_delete status_eq
cleanup_cancelled-converges s' w' at l =
    rw (update_status-eq false s' cancelled cleanup_pending w' at l.row) (
      remove_and_delete-converges (record s' { status = cleanup_pending })
        (with_status s' cleanup_pending w') (with_status-Left s' w' cleanup_pending refl l))

cleanup_at-converges :
    {s : UploadSession} {w : World} (s' : UploadSession) (w' : World) (st : Status)
    → s'.status ≡ st
    → Left s w s' w'
    → cleanup_at st no_faults s' w' ≡ (ok tt, removed s w)
unfolding cleanup_at cleanup_cancelled remove_and_delete status_eq
cleanup_at-converges s' w' complete at l = absurd (let u = l.unfinished in ground (arith, at, u))
cleanup_at-converges s' w' cleanup_pending at l = remove_and_delete-converges s' w' l
cleanup_at-converges s' w' cancelled at l = cleanup_cancelled-converges s' w' at l
cleanup_at-converges s' w' active at l =
    rw (update_status-eq false s' active cancelled w' at l.row) (
      cleanup_cancelled-converges (record s' { status = cancelled }) (with_status s' cancelled w')
        refl (with_status-Left s' w' cancelled refl l))

Left-here :
    (s : UploadSession) (w : World)
    → lookup s.id w.sessions ≡ some s
    → status_eq s.status complete ≡ false
    → Left s w s w
Left-here s w row u = record { own = refl; path = refl; row = row; unfinished = u; same = refl }

-- However a clean-up ends, all is removed or something is left from which it can go on.
pub cleanup_locked-Ends :
    (f : CleanupFaults) (s : UploadSession) (w : World)
    → lookup s.id w.sessions ≡ some s
    → status_eq s.status complete ≡ false
    → Ends s w (cleanup_locked f s w)
unfolding cleanup_locked
cleanup_locked-Ends f s w row u = cleanup_at-Ends f s w s.status refl (Left-here s w row u)

-- Whatever the row's status but complete, the clean-up without failures removes exactly the row and
-- the staging file of the session.
pub cleanup_locked-converges :
    (s : UploadSession) (w : World)
    → lookup s.id w.sessions ≡ some s
    → status_eq s.status complete ≡ false
    → cleanup_locked no_faults s w ≡ (ok tt, removed s w)
unfolding cleanup_locked
cleanup_locked-converges s w row u = cleanup_at-converges s w s.status refl (Left-here s w row u)

-- A clean-up that any of its steps cut short can be started again: a row with the session's id is
-- left, and from it a clean-up without failures ends where the first one would have.
pub cleanup_locked-resumes :
    (f : CleanupFaults) (s : UploadSession) (w : World) {e : Error} {w' : World}
    → lookup s.id w.sessions ≡ some s
    → status_eq s.status complete ≡ false
    → cleanup_locked f s w ≡ (err e, w')
    → (s' : UploadSession) × (lookup s.id w'.sessions ≡ some s')
      × (cleanup_locked no_faults s' w' ≡ (ok tt, removed s w))
unfolding cleanup_locked
cleanup_locked-resumes f s w {e} {w'} row u h =
    let (s', l) = subst (Ends s w) h (cleanup_locked-Ends f s w row u) in
    (
      s',
      subst (λ i. lookup i w'.sessions ≡ some s') l.own l.row,
      cleanup_at-converges s' w' s'.status refl l,
    )
