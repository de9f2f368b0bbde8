-- ===== src/Upload/Removes.antt =====
-- `Recover` removes a session of its page that cannot go on.
use safe_file_hub.Base.{
  ℕ, zero, suc, ◌-◌, ◌≡◌, refl, sym, ap, ◌∙◌, subst, inl, inr, ◌⊎◌, String, false, Option, none,
  some, List, [], ◌∷◌, ◌++◌, str_eq, eq_iff, length, arith, Bool-cases, Option-cases,
}
use safe_file_hub.Base.Int.{ℤ}
use safe_file_hub.Base.Store.{lookup, erase, lookup-erase}
use safe_file_hub.Upload.Data.{complete, UploadSession, World, ok, err}
use safe_file_hub.Upload.Rows.{status_eq, session_by_id}
use safe_file_hub.Upload.Staging.{remove_staging}
use safe_file_hub.Upload.Manager.{cleanup_locked}
use safe_file_hub.Upload.Cleanup.{removed, cleanup_locked-converges}
use safe_file_hub.Upload.Recovered.{cleanup_complete}
use safe_file_hub.Upload.Paged.{quiet_row, quiet_name, quiet, recover_row-here, recover_row-gone}
use safe_file_hub.Upload.Recover.{
  id_of_name, valid_names, firsts, recoverable_staging, keep_or_clean, recover_row, RecoveryReport,
  Recovered, is_not_found, after_row, recover_rows, after_check, check_orphan, recover_name,
  is_seen, recover_names, then_names, recover_listed, recover, upload_sessions, staging_names,
  page_limit, new_report, count_cancelled,
}

-- Every row stands under its own id, which the name of its part spells.
abbrev pub Named : World → Type 0
Named w =
    (id : String) (r : UploadSession)
    → lookup id w.sessions ≡ some r
    → (r.id ≡ id) × (id_of_name r.staging_path ≡ id)

-- A session that cannot go on is still there with its row.
record Doomed (now : ℕ) (s : UploadSession) (w : World) : Type 0 where
  row : lookup s.id w.sessions ≡ some s
  stuck : recoverable_staging (quiet_row now) s w ≡ false
  named : Named w

abbrev pub Gone : UploadSession → World → Type 0
Gone s w = (lookup s.id w.sessions ≡ none) × (lookup s.staging_path w.staging ≡ none)

-- How one row changes the world: not at all, or the row and its part are removed.
Changes : World → World → Type 0
Changes w w' =
    (w' ≡ w) ⊎ ((r : UploadSession) × (lookup r.id w.sessions ≡ some r) × (w' ≡ removed r w))

keep_or_clean-Changes :
    (now : ℕ) (s : UploadSession) (w : World)
    → lookup s.id w.sessions ≡ some s
    → (rep : RecoveryReport) (rest : RecoveryReport → World → Recovered)
    → (rep' : RecoveryReport) × (w' : World) × (Changes w w'
        × (after_row (keep_or_clean (quiet_row now) s w) rep rest ≡ rest rep' w'))
unfolding keep_or_clean after_row is_not_found Changes cleanup_locked
keep_or_clean-Changes now s w row rep rest =
    elim (Bool-cases (recoverable_staging (quiet_row now) s w)) [
      | inl e ↦ rw e (record rep { kept = suc rep.kept }, w, (inl refl, refl))
      | inr e ↦ rw e (elim (Bool-cases (status_eq s.status complete)) [
        | inl k ↦
            rw (cleanup_complete (quiet_row now) s w s.status k)
              (count_cancelled rep, w, (inl refl, refl))
        | inr k ↦
            rw (cleanup_locked-converges s w row k)
              (count_cancelled rep, removed s w, (inr (s, row, refl), refl))
      ])
    ]

-- The session itself.
keep_or_clean-removes :
    (now : ℕ) (s : UploadSession) (w : World)
    → Doomed now s w
    → status_eq s.status complete ≡ false
    → keep_or_clean (quiet_row now) s w ≡ (ok false, removed s w)
unfolding keep_or_clean
keep_or_clean-removes now s w d u = rw (d.stuck, cleanup_locked-converges s w d.row u) refl

removed-Gone : (s : UploadSession) (w : World) → Gone s (removed s w)
removed-Gone s w =
    let a = lookup-erase s.id s.id w.sessions in
    let b = lookup-erase s.staging_path s.staging_path w.staging in
    (ground (arith, a, eq_iff s.id s.id), ground (arith, b, eq_iff s.staging_path s.staging_path))

Changes-Gone : (s : UploadSession) (w w' : World) → Changes w w' → Gone s w → Gone s w'
unfolding Changes
Changes-Gone s w w' (inl e) g = subst (Gone s) (sym e) g
Changes-Gone s w w' (inr (r, row, e)) (a, b) =
    let p = lookup-erase r.id s.id w.sessions in
    let q = lookup-erase r.staging_path s.staging_path w.staging in
    subst (Gone s) (sym e) (ground (arith, p, a), ground (arith, q, b))

Changes-Named : (w w' : World) → Changes w w' → Named w → Named w'
unfolding Changes
Changes-Named w w' (inl e) n = subst Named (sym e) n
Changes-Named w w' (inr (r, row, e)) n =
    subst Named (sym e)
      (λ id q h. let k = lookup-erase r.id id w.sessions in n id q (ground (arith, k, h)))

-- One row leaves the session as it was, or removes it.
Changes-Doomed :
    (now : ℕ) (s : UploadSession) (w w' : World)
    → Changes w w'
    → Doomed now s w
    → Doomed now s w' ⊎ Gone s w'
unfolding Changes recoverable_staging
Changes-Doomed now s w w' (inl e) d = inl (subst (Doomed now s) (sym e) d)
Changes-Doomed now s w w' (inr (r, row, e)) d = elim (Bool-cases (str_eq r.id s.id)) [
  | inl k ↦
      let same : r ≡ s =
        (let here = d.row in let ids = eq_iff r.id s.id in ground (arith, row, here, k, ids)) in
      inr (subst (Gone s) (sym (e ∙ ap (λ q. removed q w) same)) (removed-Gone s w))
  | inr k ↦
      let p = lookup-erase r.id s.id w.sessions in
      let q = lookup-erase r.staging_path s.staging_path w.staging in
      let (_, a) = d.named r.id r row in
      let (_, b) = d.named s.id s d.row in
      let paths = eq_iff r.staging_path s.staging_path in
      let ids = eq_iff r.id s.id in
      let here = d.row in
      let stuck = d.stuck in
      inl (record {
        row = ground (arith, e, p, k, here);
        stuck = ground (arith, e, q, k, a, b, paths, ids, stuck);
        named = Changes-Named w w' (inr (r, row, e)) d.named;
      })
]

recover_row-Changes :
    (now : ℕ) (r : UploadSession) (w : World)
    → Named w
    → (rep : RecoveryReport) (rest : RecoveryReport → World → Recovered)
    → (rep' : RecoveryReport) × (w' : World) × (Changes w w'
        × (after_row (recover_row (quiet_row now) false r w) rep rest ≡ rest rep' w'))
unfolding after_row is_not_found Changes
recover_row-Changes now r w n rep rest = elim (Option-cases (lookup r.id w.sessions)) [
  | inl e ↦ rw (recover_row-gone now r w e) (count_cancelled rep, w, (inl refl, refl))
  | inr (s, e) ↦ rw (recover_row-here now r s w e) (
      keep_or_clean-Changes now s w
        (subst (λ i. lookup i w.sessions ≡ some s) (sym (n r.id s e).0) e) rep rest)
]

-- No error, and the session is gone.
abbrev pub Finished : UploadSession → Recovered → Type 0
Finished s r = (r.1.0 ≡ ok tt) × Gone s r.1.1

recover_rows-Gone :
    (now i : ℕ) (s : UploadSession) (rows : List UploadSession) (rep : RecoveryReport) (w : World)
    → Named w
    → Gone s w
    → Finished s (recover_rows (λ _. quiet_row now) false i rows rep w)
unfolding recover_rows
recover_rows-Gone now i s [] rep w n g = (refl, g)
recover_rows-Gone now i s (r ∷ rows) rep w n g =
    let (rep', w', (c, e)) =
      recover_row-Changes now r w n rep (recover_rows (λ _. quiet_row now) false (suc i) rows) in
    subst (Finished s) (sym e) (
      recover_rows-Gone now (suc i) s rows rep' w' (Changes-Named w w' c n)
        (Changes-Gone s w w' c g))

recover_rows-Doomed :
    (now i : ℕ) (s : UploadSession) (front back : List UploadSession) (rep : RecoveryReport)
    (w : World)
    → status_eq s.status complete ≡ false
    → Doomed now s w
    → Finished s (recover_rows (λ _. quiet_row now) false i (front ++ s ∷ back) rep w)
unfolding recover_rows after_row
recover_rows-Doomed now i s [] back rep w u d =
    let here = recover_row-here now s s w d.row in
    let removes = keep_or_clean-removes now s w d u in
    rw (here, removes)
      (recover_rows-Gone now (suc i) s back _ (removed s w)
        (λ id q h. let k = lookup-erase s.id id w.sessions in d.named id q (ground (arith, k, h)))
        (removed-Gone s w))
recover_rows-Doomed now i s (r ∷ front) back rep w u d =
    let (rep', w', (c, e)) =
      recover_row-Changes now r w d.named rep
        (recover_rows (λ _. quiet_row now) false (suc i) (front ++ s ∷ back)) in
    subst (Finished s) (sym e) (elim (Changes-Doomed now s w w' c d) [
      | inl d' ↦ recover_rows-Doomed now (suc i) s front back rep' w' u d'
      | inr g ↦
          recover_rows-Gone now (suc i) s (front ++ s ∷ back) rep' w' (Changes-Named w w' c d.named)
            g
    ])

-- What comes behind a world without the session.
Continues : UploadSession → (RecoveryReport → World → Recovered) → Type 0
Continues s rest = (rep : RecoveryReport) (w : World) → Gone s w → Finished s (rest rep w)

erase-Gone :
    (s : UploadSession) (name : String) (w : World)
    → Gone s w
    → Gone s (record w { staging = erase name w.staging })
erase-Gone s name w (a, b) =
    let p = lookup-erase name s.staging_path w.staging in (a, ground (arith, p, b))

recover_name-Finished :
    (s : UploadSession) (name : String) (o : Option UploadSession) (rep : RecoveryReport)
    (w : World) (rest : RecoveryReport → World → Recovered)
    → lookup (id_of_name name) w.sessions ≡ o
    → Continues s rest
    → Gone s w
    → Finished s
        (recover_name quiet_name false name (session_by_id false (id_of_name name) w) rep w rest)
unfolding recover_name check_orphan after_check is_not_found session_by_id remove_staging Continues
recover_name-Finished s name (some r) rep w rest e k g = rw e (k rep w g)
recover_name-Finished s name none rep w rest e k g =
    let found_twice : RecoveryReport = record rep {
      checked = suc rep.checked;
      orphans = suc rep.orphans;
    } in
    let cleared =
      k found_twice (record w { staging = erase name w.staging }) (erase-Gone s name w g) in
    ground (arith, e, cleared)

recover_names-Finished :
    (s : UploadSession) (rows : List UploadSession) (i : ℕ) (names : List String)
    (rep : RecoveryReport) (w : World)
    → Gone s w
    → Finished s (recover_names (λ _. quiet_name) false rows i names rep w)
unfolding recover_names Continues
recover_names-Finished s rows i [] rep w g = (refl, g)
recover_names-Finished s rows i (name ∷ names) rep w g = elim (Bool-cases (is_seen name rows)) [
  | inl e ↦ rw e (recover_names-Finished s rows (suc i) names rep w g)
  | inr e ↦ rw e (
      recover_name-Finished s name (lookup (id_of_name name) w.sessions) rep w
        (recover_names (λ _. quiet_name) false rows (suc i) names) refl
        (λ rep' w' g'. recover_names-Finished s rows (suc i) names rep' w' g') g)
]

then_names-Finished :
    (s : UploadSession) (r : Recovered) (rest : RecoveryReport → World → Recovered)
    → Continues s rest
    → Finished s r
    → Finished s (then_names r rest)
unfolding then_names Continues
then_names-Finished s (rep, (ok _, w)) rest k (e, g) = k rep w g
then_names-Finished s (rep, (err e', w)) rest k (e, g) = absurd (ground (arith, e))

staging_names-ok :
    (n : ℕ) (listing : List String)
    → (names : List String) × (staging_names false n listing ≡ ok names)
unfolding staging_names
staging_names-ok zero listing = ([], refl)
staging_names-ok (suc n) listing = (valid_names (firsts (suc n) listing), refl)

-- Without failures, `Recover` succeeds and removes row and part of every session in its page that cannot
-- go on, as are those that are expired, cancelled or half cleaned up and those whose part is missing or of
-- another length than their offset, if every part is named after the id of its row.
pub recover-Finished :
    (now : ℕ) (limit : ℤ) (listing : List String) (s : UploadSession)
    (front back : List UploadSession) (w : World)
    → upload_sessions (page_limit limit) w ≡ front ++ s ∷ back
    → lookup s.id w.sessions ≡ some s
    → status_eq s.status complete ≡ false
    → recoverable_staging (quiet_row now) s w ≡ false
    → Named w
    → Finished s (recover (quiet now) limit false listing w)
unfolding recover recover_listed Continues
recover-Finished now limit listing s front back w page row u stuck named =
    let rows = front ++ s ∷ back in
    let (names, e) = staging_names-ok (page_limit limit - length rows) listing in
    let d : Doomed now s w = record { row = row; stuck = stuck; named = named } in
    rw (page, e)
      (then_names-Finished s _ (recover_names (λ _. quiet_name) false rows 0 names)
        (λ rep w' g. recover_names-Finished s rows 0 names rep w' g)
        (recover_rows-Doomed now 0 s front back (new_report (length rows)) w u d))
