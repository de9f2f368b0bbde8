-- ===== src/Upload/Complete.antt =====
-- `Complete` as a whole, where no other process runs in between.
use safe_file_hub.Base.{
  ℕ, ◌≡◌, refl, sym, subst, ap, ◌∙◌, inl, inr, String, Bool, true, false, some, [], if◌then◌else◌,
  Bytes, length, arith, Option-cases, eq_iff,
}
use safe_file_hub.Base.Store.{lookup}
use safe_file_hub.Upload.Data.{UploadSession, World, ok, err, checksum, Error, Outcome, and_then}
use safe_file_hub.Upload.Rows.{session_by_id}
use safe_file_hub.Upload.Valid.{Valid}
use safe_file_hub.Upload.Lock.{
  Lock, with_lifecycle_lock, unlocked, locked_loop, lock_round, read_round, checked_round,
}
use safe_file_hub.Upload.Transfer.{
  CompleteFaults, Expected, digest_ok, hash_staging, hash_locked, publish_locked,
  complete_upload_session,
}
use safe_file_hub.Upload.Committed.{Published, publish_locked-Published}

-- With nobody else at work, what succeeds behind the lock is the function on the session's row.
locked-ok :
    {A : Type 0}
    → (l : Lock) (id : String) (fn : UploadSession → World → Outcome A) (w : World) {a : A}
      {w' : World}
    → l.rounds ≡ []
    → with_lifecycle_lock l id fn w ≡ (ok a, w')
    → (s : UploadSession) × (lookup id w.sessions ≡ some s) × (fn s w ≡ (ok a, w'))
unfolding with_lifecycle_lock locked_loop lock_round read_round checked_round unlocked session_by_id
locked-ok l id fn w quiet h = elim (Option-cases (lookup id w.sessions)) [
  | inl e ↦ absurd (ground (arith, e, h, quiet))
  | inr (s, e) ↦ (s, e, ground (arith, e, h, quiet, eq_iff s.staging_path s.staging_path))
]

hash_locked-ok :
    (fails : Bool) (sha : Bytes → Bytes) (now : ℕ) (s : UploadSession) (w : World) {sum : Bytes}
    {w' : World}
    → hash_locked fails sha now s w ≡ (ok sum, w')
    → (w' ≡ w)
      × (content : Bytes) × (lookup s.staging_path w.staging ≡ some content)
      × (length content ≡ s.length)
      × (sum ≡ sha content)
unfolding hash_locked hash_staging
hash_locked-ok fails sha now s w h = elim (Option-cases (lookup s.staging_path w.staging)) [
  | inl e ↦ absurd (ground (arith, e, h))
  | inr (content, e) ↦ (ground (arith, h), content, e, ground (arith, e, h), ground (arith, e, h))
]

and_then-ok :
    {A B : Type 0}
    → (o : Outcome A) (rest : A → World → Outcome B) {b : B} {w' : World}
    → and_then o rest ≡ (ok b, w')
    → (a : A) × (w : World) × (o ≡ (ok a, w)) × (rest a w ≡ (ok b, w'))
and_then-ok (ok a, w) rest h = (a, w, refl, h)
and_then-ok (err e, w) rest h = absurd (ground arith)

if-ok :
    {A : Type 0}
    → (b : Bool) (o : Outcome A) (e : Error) (w : World) {a : A} {w' : World}
    → (if b then o else (err e, w)) ≡ (ok a, w')
    → (b ≡ true) × (o ≡ (ok a, w'))
if-ok true o e w h = (refl, h)
if-ok false o e w h = absurd (ground arith)

some_inj {ℓ} : {A : Type ℓ} → {a b : A} → some a ≡ some b → a ≡ b
some_inj e = ground (arith, e)

-- A completion that no other process comes between, and that returns no error, has published a
-- file of the length that was announced, whose SHA-256 is the expected one, if one was given; the
-- session and its staging file are gone.
pub complete_upload_session-Published :
    (first second : Lock) (f : CompleteFaults) (sha : Bytes → Bytes) (expected : Expected)
    (key : String)
    → (t1 t2 t3 : ℕ) (id : String) (w : World) {w' : World} → first.rounds ≡ []
    → second.rounds ≡ []
    → Valid w
    → complete_upload_session first second f sha expected key (t1, t2, t3) id w ≡ (ok tt, w')
    → (s : UploadSession) × (content : Bytes) × (lookup id w.sessions ≡ some s)
      × (length content ≡ s.length)
      × (digest_ok (sha content) expected ≡ true)
      × Published s key content w w'
unfolding complete_upload_session
complete_upload_session-Published first second f sha expected key t1 t2 t3 id w {w'} a b valid h =
    let (sum, w1, h1, h2) =
      and_then-ok (with_lifecycle_lock first id (hash_locked f.hash sha t1) w)
        (λ sum w1.
          if digest_ok sum expected
          then with_lifecycle_lock second id (publish_locked f key t2 t3) w1
          else (err checksum, w1))
        h in
    let (s, row, q) = locked-ok first id (hash_locked f.hash sha t1) w {a = sum} {w' = w1} a h1 in
    let (same, content, file, size, digest) = hash_locked-ok f.hash sha t1 s w q in
    let (good, h3) =
      if-ok (digest_ok sum expected) (with_lifecycle_lock second id (publish_locked f key t2 t3) w1)
        checksum w1 h2 in
    let h4 =
      subst (λ v. with_lifecycle_lock second id (publish_locked f key t2 t3) v ≡ (ok tt, w')) same
        h3 in
    let (s', row', q') = locked-ok second id (publish_locked f key t2 t3) w b h4 in
    let mine = subst (λ i. lookup i w.sessions ≡ some s') (sym (valid id s' row').own) row' in
    let (content', ready, live, done) = publish_locked-Published f key t2 t3 s' w mine q' in
    let same_row = some_inj (sym row ∙ row') in
    let same_file = some_inj (
      sym file
      ∙ (ap (λ (r : UploadSession). lookup r.staging_path w.staging) same_row ∙ ready.file)) in
    let full = sym (ap length same_file) ∙ (size ∙ ap (λ (r : UploadSession). r.length) same_row) in
    let checked = subst (λ d. digest_ok d expected ≡ true) (digest ∙ ap sha same_file) good in
    (s', content', row', full, checked, done)
