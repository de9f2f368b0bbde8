-- ===== src/Upload/Recovered.antt =====
-- Recovery keeps sessions that can go on, and removes the others of its page.
use safe_file_hub.Base.{
  ℕ, suc, ◌<◌, ◌≡◌, refl, sym, ap, ◌∙◌, subst, inl, inr, String, Bool, true, false, some, List, [],
  ◌∷◌, if◌then◌else◌, str_eq, eq_iff, Bytes, length, arith, Bool-cases, All,
}
use safe_file_hub.Base.Store.{lookup, lookup-erase}
use safe_file_hub.Upload.Data.{
  Status, active, cancelled, cleanup_pending, complete, UploadSession, World, ok, err, not_found,
  Outcome, and_then,
}
use safe_file_hub.Upload.Rows.{status_eq}
use safe_file_hub.Upload.Locked.{Keeps, KeepsLocked, with_lifecycle_lock-keeps}
use safe_file_hub.Upload.Manager.{cleanup_locked, cleanup_at}
use safe_file_hub.Upload.Cleanup.{Left, Ends, removed, cleanup_locked-Ends}
use safe_file_hub.Upload.Recover.{
  id_of_name, RowFaults, holds_offset, recoverable_staging, keep_or_clean, recover_row,
  RecoveryReport, Recovered, after_row, recover_rows, count_cancelled,
}

-- The session stands with this content, and every row under its own id, which the name of its part
-- spells, as `Create` makes them.
pub record Stands (s : UploadSession) (content : Bytes) (w : World) : Type 0 where
  pub row : lookup s.id w.sessions ≡ some s
  pub file : lookup s.staging_path w.staging ≡ some content
  pub named :
      (id : String) (r : UploadSession)
      → lookup id w.sessions ≡ some r
      → (r.id ≡ id) × (id_of_name r.staging_path ≡ id)

pub removed-others :
    (r' r : UploadSession) (w' w : World)
    → r'.id ≡ r.id
    → r'.staging_path ≡ r.staging_path
    → removed r' w' ≡ removed r w
    → (id name : String)
    → (str_eq r.id id ≡ false → lookup id w'.sessions ≡ lookup id w.sessions)
      × (str_eq r.staging_path name ≡ false → lookup name w'.staging ≡ lookup name w.staging)
removed-others r' r w' w own path same id name =
    let a = ap (λ v. lookup id v.sessions) same in
    let b = ap (λ v. lookup name v.staging) same in
    let c = lookup-erase r'.id id w'.sessions in
    let d = lookup-erase r.id id w.sessions in
    let e = lookup-erase r'.staging_path name w'.staging in
    let g = lookup-erase r.staging_path name w.staging in
    (λ h. ground (arith, h, a, c, d, own), λ h. ground (arith, h, b, e, g, path))

-- Another row's part is another file.
other_part :
    (s r : UploadSession) (content : Bytes) (w : World)
    → Stands s content w
    → lookup r.id w.sessions ≡ some r
    → str_eq r.id s.id ≡ false
    → str_eq r.staging_path s.staging_path ≡ false
other_part s r content w st row other = elim (Bool-cases (str_eq r.staging_path s.staging_path)) [
  | inr e ↦ e
  | inl e ↦
      let (_, a) = st.named r.id r row in
      let (_, b) = st.named s.id s st.row in
      let same = eq_iff r.staging_path s.staging_path in
      let ids = eq_iff r.id s.id in absurd (ground (arith, a, b, same, e, ids, other))
]

Left-Stands :
    (s r r' : UploadSession) (content : Bytes) (w w' : World)
    → str_eq r.id s.id ≡ false
    → lookup r.id w.sessions ≡ some r
    → Left r w r' w'
    → Stands s content w
    → Stands s content w'
Left-Stands s r r' content w w' other row l st =
    let (rows, _) = removed-others r' r w' w l.own l.path l.same s.id s.staging_path in
    let (_, files) = removed-others r' r w' w l.own l.path l.same s.id s.staging_path in
    record {
      row = rows other ∙ st.row;
      file = files (other_part s r content w st row other) ∙ st.file;
      named = λ id q e. elim (Bool-cases (str_eq r.id id)) [
        | inr k ↦
            let (same, _) = removed-others r' r w' w l.own l.path l.same id s.staging_path in
            st.named id q (sym (same k) ∙ e)
        | inl k ↦
            let a = l.row in
            let b = l.own in
            let c = l.path in
            let (_, d) = st.named r.id r row in
            let same = eq_iff r.id id in ground (arith, a, b, c, d, k, same, e)
      ];
    }

removed-Stands :
    (s r : UploadSession) (content : Bytes) (w : World)
    → str_eq r.id s.id ≡ false
    → lookup r.id w.sessions ≡ some r
    → Stands s content w
    → Stands s content (removed r w)
removed-Stands s r content w other row st =
    let a = lookup-erase r.id s.id w.sessions in
    let b = lookup-erase r.staging_path s.staging_path w.staging in
    let c = other_part s r content w st row other in
    let d = st.row in
    let e = st.file in
    record {
      row = ground (arith, a, other, d);
      file = ground (arith, b, c, e);
      named =
          λ id q h. let k = lookup-erase r.id id w.sessions in st.named id q (ground (arith, k, h));
    }

Ends-Stands :
    (s r : UploadSession) (content : Bytes) (w : World) (o : Outcome Unit)
    → str_eq r.id s.id ≡ false
    → lookup r.id w.sessions ≡ some r
    → Ends r w o
    → Stands s content w
    → Stands s content o.1
Ends-Stands s r content w (ok a, w') other row e st =
    subst (Stands s content) (sym e) (removed-Stands s r content w other row st)
Ends-Stands s r content w (err e', w') other row (r', l) st =
    Left-Stands s r r' content w w' other row l st

-- A completed session has nothing to clean up.
pub cleanup_complete :
    (f : RowFaults) (r : UploadSession) (w : World) (a : Status)
    → status_eq a complete ≡ true
    → cleanup_at a f.cleanup r w ≡ (err not_found, w)
unfolding cleanup_at status_eq
cleanup_complete f r w complete e = refl
cleanup_complete f r w active e = absurd (ground (arith, e))
cleanup_complete f r w cancelled e = absurd (ground (arith, e))
cleanup_complete f r w cleanup_pending e = absurd (ground (arith, e))

-- The clean-up of another session.
cleanup_locked-Stands :
    (f : RowFaults) (s r : UploadSession) (content : Bytes) (w : World)
    → str_eq r.id s.id ≡ false
    → lookup r.id w.sessions ≡ some r
    → Stands s content w
    → Stands s content (cleanup_locked f.cleanup r w).1
unfolding cleanup_locked
cleanup_locked-Stands f s r content w other row st =
    elim (Bool-cases (status_eq r.status complete)) [
      | inr e ↦ Ends-Stands s r content w _ other row (cleanup_locked-Ends f.cleanup r w row e) st
      | inl e ↦ rw (cleanup_complete f r w r.status e) st
    ]

-- The session's own row is handled before the session expires, with its part readable.
pub record Readable (s : UploadSession) (f : RowFaults) : Type 0 where
  pub early : f.now < s.expires_at
  pub opened : f.open_fails ≡ false
  pub sized : f.stat_fails ≡ false

-- How the row of an id meets the session: if it is the session's own it can be read, and other
-- processes leave the session alone meanwhile.
pub record MeetsRow (s : UploadSession) (content : Bytes) (id : String) (f : RowFaults)
    : Type 0 where
  pub own : str_eq id s.id ≡ true → Readable s f
  pub others : All (Keeps (Stands s content)) f.lock.rounds

-- So do the rows of a page, from its row `i` on.
abbrev pub MeetsRows : UploadSession → Bytes → (ℕ → RowFaults) → ℕ → List UploadSession → Type 0
MeetsRows s content fs i [] = Unit
MeetsRows s content fs i (r ∷ rows) =
    MeetsRow s content r.id (fs i) × MeetsRows s content fs (suc i) rows

module _ (s : UploadSession) (content : Bytes) (live : s.status ≡ active)
    (whole : length content ≡ s.offset) where
  kept-recoverable :
      (f : RowFaults) (w : World)
      → Readable s f
      → Stands s content w
      → recoverable_staging f s w ≡ true
  unfolding recoverable_staging status_eq holds_offset
  kept-recoverable f w m st =
      let a = m.early in
      let b = m.opened in
      let c = m.sized in let d = st.file in ground (arith, live, whole, a, b, c, d)

  keep_or_clean-Stands :
      (f : RowFaults) (id : String)
      → MeetsRow s content id f
      → KeepsLocked (Stands s content) id (keep_or_clean f)
  unfolding keep_or_clean
  keep_or_clean-Stands f id m r w row st = elim (Bool-cases (str_eq r.id s.id)) [
    | inl e ↦
        let same : r ≡ s =
          (let (own, _) = st.named id r row in
            let here = st.row in
            let k = eq_iff r.id s.id in ground (arith, own, here, k, e, row)) in
        let (own, _) = st.named id r row in
        let again = kept-recoverable f w (m.own (subst (λ i. str_eq i s.id ≡ true) own e)) st in
        ground (arith, same, again, st)
    | inr e ↦
        let (own, _) = st.named id r row in
        let there = subst (λ i. lookup i w.sessions ≡ some r) (sym own) row in
        let cleaned = cleanup_locked-Stands f s r content w e there st in
        kept_if (recoverable_staging f r w) (cleanup_locked f.cleanup r w) w st cleaned
  ]
    where
      kept_if :
          (b : Bool) (o : Outcome Unit) (v : World)
          → Stands s content v
          → Stands s content o.1
          → Stands s content (if b then (ok true, v) else and_then o (λ _ w'. (ok false, w'))).1
      kept_if true o v p q = p
      kept_if false (ok _, v') v p q = q
      kept_if false (err e, v') v p q = q

  recover_row-Stands :
      (f : RowFaults) (dry_run : Bool) (r : UploadSession) (w : World)
      → MeetsRow s content r.id f
      → Stands s content w
      → Stands s content (recover_row f dry_run r w).1
  unfolding recover_row
  recover_row-Stands f true r w m st = st
  recover_row-Stands f false r w m st =
      with_lifecycle_lock-keeps (Stands s content) r.id (keep_or_clean f)
        (keep_or_clean-Stands f r.id m) f.lock m.others w st

  after_row-Stands :
      (o : Outcome Bool) (rep : RecoveryReport) (rest : RecoveryReport → World → Recovered)
      → Stands s content o.1
      → ((rep' : RecoveryReport) (w : World)
          → Stands s content w
          → Stands s content (rest rep' w).1.1)
      → Stands s content (after_row o rep rest).1.1
  unfolding after_row
  after_row-Stands (ok true, w) rep rest st k = k _ w st
  after_row-Stands (ok false, w) rep rest st k = k _ w st
  after_row-Stands (err e, w) rep rest st k = ground (arith, st, k (count_cancelled rep) w st)

  pub recover_rows-Stands :
      (fs : ℕ → RowFaults) (dry_run : Bool) (i : ℕ) (rows : List UploadSession)
      (rep : RecoveryReport) (w : World)
      → MeetsRows s content fs i rows
      → Stands s content w
      → Stands s content (recover_rows fs dry_run i rows rep w).1.1
  unfolding recover_rows
  recover_rows-Stands fs dry_run i [] rep w m st = st
  recover_rows-Stands fs dry_run i (r ∷ rows) rep w (m, ms) st =
      let next =
        after_row-Stands (recover_row (fs i) dry_run r w) rep (recover_rows fs dry_run (suc i) rows)
          (recover_row-Stands (fs i) dry_run r w m st)
          (λ rep' w' st'. recover_rows-Stands fs dry_run (suc i) rows rep' w' ms st') in
      ground (arith, st, next)
