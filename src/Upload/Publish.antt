-- ===== src/Upload/Publish.antt =====
-- What the second critical section of `Complete` does, with and without failures.
use safe_file_hub.Base.{
  ℕ, ◌≡◌, refl, sym, subst, ◌∙◌, inl, inr, String, Bool, true, false, ◌&&◌, none, some, List, ◌==◌,
  str_eq, All, Bool-cases, Bytes, arith, eq_iff,
}
use safe_file_hub.Base.Store.{Table, lookup, insert, erase, lookup-insert, lookup-erase}
use safe_file_hub.Upload.Data.{UploadSession, File, World, err, not_found, failed, Error}
use safe_file_hub.Upload.Rows.{complete_upload, commit_row}
use safe_file_hub.Upload.Staging.{move_to_objects, restore_published, move_to_staging}
use safe_file_hub.Upload.Lock.{is_live}
use safe_file_hub.Upload.Transfer.{
  CompleteFaults, restore_after, publish_locked, hash_locked, hash_staging, Body, WriteFaults,
  write_locked,
}
use safe_file_hub.Upload.Committed.{no_publish_faults, Ready, moved, publish_locked-eq}

-- No file has this object key.
abbrev pub Unnamed : String → List File → Type 0
Unnamed key fs = All (λ f. str_eq f.object_key key ≡ false) fs

-- No file or directory of the root has this path.
abbrev pub FreePath : ℕ → String → World → Type 0
FreePath root path w =
    All (λ f. (f.root_id == root && str_eq f.logical_path path) ≡ false) w.files
    × All (λ d. (d.0 == root && str_eq d.1 path) ≡ false) w.directories

-- The lookups of two tables agree.
abbrev pub Same {ℓ} : {V : Type ℓ} → Table V → Table V → Type ℓ
Same t u = (name : String) → lookup name t ≡ lookup name u

restored_err :
    (f : CompleteFaults) (s : UploadSession) (key : String) (at : ℕ) (content : Bytes) (w : World)
    {e : Error} {w' : World}
    → f.restore ≡ no_publish_faults
    → restore_after f s key (complete_upload f.commit at s key (moved s key content w))
      ≡ (err e, w')
    → w' ≡ move_to_staging key s.staging_path content (moved s key content w)
unfolding restore_after complete_upload commit_row restore_published move_to_objects
restored_err f s key at content w q h =
    let k = lookup-insert key key content w.objects in ground (arith, q, h, k, eq_iff key key)

there_and_back-staging :
    (name : String) (content : Bytes) (t : Table Bytes)
    → lookup name t ≡ some content
    → Same (insert name content (erase name t)) t
there_and_back-staging name content t file any = ground (
  arith,
  lookup-insert name any content (erase name t),
  lookup-erase name any t,
  eq_iff name any,
  file,
)

there_and_back-objects :
    (key : String) (content : Bytes) (t : Table Bytes)
    → lookup key t ≡ none
    → Same (erase key (insert key content t)) t
there_and_back-objects key content t fresh any = ground (
  arith,
  lookup-erase key any (insert key content t),
  lookup-insert key any content t,
  eq_iff key any,
  fresh,
)

-- What a completion that failed has left as it was.
pub record Unchanged (w w' : World) : Type 0 where
  pub sessions : w'.sessions ≡ w.sessions
  pub files : w'.files ≡ w.files
  pub staging : Same w'.staging w.staging
  pub objects : Same w'.objects w.objects

-- When the transaction of a completion fails, and the renames work, the session, its staging file,
-- the files and the objects are as before.
pub publish_locked-Unchanged :
    (f : CompleteFaults) (key : String) (now at : ℕ) (s : UploadSession) (content : Bytes)
    (w : World) {e : Error} {w' : World}
    → Ready now s content w
    → f.publish ≡ no_publish_faults
    → f.restore ≡ no_publish_faults
    → lookup key w.objects ≡ none
    → publish_locked f key now at s w ≡ (err e, w')
    → Unchanged w w'
unfolding move_to_objects move_to_staging
publish_locked-Unchanged f key now at s content w {e} {w'} r p q fresh h =
    let a = sym (publish_locked-eq f key now at s content w r) ∙ h in
    let b = restored_err f s key at content w {e = e} {w' = w'} q (ground (arith, a, p)) in
    subst (Unchanged w) (sym b) (record {
      sessions = refl;
      files = refl;
      staging = there_and_back-staging s.staging_path content w.staging r.file;
      objects = there_and_back-objects key content w.objects fresh;
    })

-- The row is as before and live, but the content is under a key that no file names, and every later
-- write or completion fails.
pub record Stuck (now : ℕ) (s : UploadSession) (key : String) (content : Bytes) (w' : World)
    : Type 0 where
  pub session : lookup s.id w'.sessions ≡ some s
  pub live : is_live now s ≡ true
  pub object : lookup key w'.objects ≡ some content
  pub unnamed : Unnamed key w'.files
  pub no_write :
      (f : WriteFaults) (t offset : ℕ) (body : Body)
      → write_locked f t offset body s w' ≡ (err failed, w')
  pub no_completion :
      (fails : Bool) (sha : Bytes → Bytes) (t : ℕ)
      → (e : Error) × (hash_locked fails sha t s w' ≡ (err e, w'))

moved-Stuck :
    (now : ℕ) (s : UploadSession) (key : String) (content : Bytes) (w : World)
    → Ready now s content w
    → lookup s.id w.sessions ≡ some s
    → Unnamed key w.files
    → Stuck now s key content (moved s key content w)
unfolding move_to_objects hash_locked hash_staging write_locked
moved-Stuck now s key content w r row unnamed =
    let gone = lookup-erase s.staging_path s.staging_path w.staging in
    let same = eq_iff s.staging_path s.staging_path in
    let all = r.received in
    record {
      session = row;
      live = r.live;
      object = ground (arith, lookup-insert key key content w.objects, eq_iff key key);
      unnamed = unnamed;
      no_write = λ f t offset body. ground (arith, gone, same);
      no_completion = λ fails sha t. elim (Bool-cases (is_live t s)) [
        | inl live ↦ (failed, ground (arith, gone, same, live, all))
        | inr dead ↦ (not_found, ground (arith, dead))
      ];
    }

-- The rename is not undone where an fsync behind it fails: the completion returns the error, the
-- session stays live, without its staging file, the content is under a key that no file names, if
-- none named it before, and in this world every write to the session and the first half of every
-- completion, at any time, fails and changes nothing.
pub publish_locked-Stuck :
    (f : CompleteFaults) (key : String) (now at : ℕ) (s : UploadSession) (content : Bytes)
    (w : World)
    → Ready now s content w
    → lookup s.id w.sessions ≡ some s
    → Unnamed key w.files
    → f.publish.rename ≡ false
    → f.publish.sync ≡ true
    → (w' : World) × (publish_locked f key now at s w ≡ (err failed, w'))
      × Stuck now s key content w'
publish_locked-Stuck f key now at s content w r row unnamed p q =
    let e = publish_locked-eq f key now at s content w r in
    (moved s key content w, ground (arith, e, p, q), moved-Stuck now s key content w r row unnamed)
