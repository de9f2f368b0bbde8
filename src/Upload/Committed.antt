-- ===== src/Upload/Committed.antt =====
-- The second critical section of `Complete`: its outcome as a decision, and the published file.
use safe_file_hub.Base.{
  ℕ, ◌≡◌, refl, sym, subst, ◌∙◌, inl, inr, String, true, false, ◌&&◌, none, some, [], ◌∷◌, str_eq,
  ◌++◌, if◌then◌else◌, Bytes, arith, Option-cases, eq_iff,
}
use safe_file_hub.Base.Store.{lookup, lookup-insert, lookup-erase}
use safe_file_hub.Upload.Data.{UploadSession, World, ok, err, failed, conflict}
use safe_file_hub.Upload.Rows.{complete_upload, commit_row, committed, may_insert, file_row}
use safe_file_hub.Upload.Staging.{PublishFaults, publish_staging, move_to_objects}
use safe_file_hub.Upload.Lock.{is_live}
use safe_file_hub.Upload.Transfer.{CompleteFaults, restore_after, publish_locked}

abbrev pub no_publish_faults : PublishFaults
no_publish_faults = record { rename = false; sync = false }

-- A session that can be completed, in its world.
pub record Ready (now : ℕ) (s : UploadSession) (content : Bytes) (w : World) : Type 0 where
  pub live : is_live now s ≡ true
  pub received : s.offset ≡ s.length
  pub file : lookup s.staging_path w.staging ≡ some content

abbrev pub moved : UploadSession → String → Bytes → World → World
moved s key content w = move_to_objects s.staging_path key content w

-- From the rename on.
pub publish_locked-eq :
    (f : CompleteFaults) (key : String) (now at : ℕ) (s : UploadSession) (content : Bytes)
    (w : World)
    → Ready now s content w
    → publish_locked f key now at s w ≡ (
        if f.publish.rename
        then (err failed, w)
        else if f.publish.sync
        then (err failed, moved s key content w)
        else restore_after f s key (complete_upload f.commit at s key (moved s key content w)))
unfolding publish_locked publish_staging
publish_locked-eq f key now at s content w r =
    let a = r.live in let b = r.received in let c = r.file in ground (arith, a, b, c)

pub complete_upload-eq :
    (at : ℕ) (s : UploadSession) (key : String) (w : World)
    → lookup s.id w.sessions ≡ some s
    → complete_upload false at s key w ≡ (
        if is_live at s && may_insert w s key
        then (ok tt, committed w s key)
        else (err conflict, w))
unfolding complete_upload commit_row
complete_upload-eq at s key w row = ground (arith, row)

-- The world in which the file has been published: row and object are there, session and staging
-- file are gone, the task for its digest is queued where digests are enabled, and all else is as
-- before.
pub record Published (s : UploadSession) (key : String) (content : Bytes) (w w' : World)
    : Type 0 where
  pub object : lookup key w'.objects ≡ some content
  pub files :
      w'.files
      ≡ w.files
        ++ record {
          id = w.next_file_id;
          root_id = s.root_id;
          logical_path = s.logical_path;
          object_key = key;
          size = s.length;
          created_by_user_id = s.user_id;
          md5_pending = w.md5_enabled;
        }
          ∷ []
  pub no_session : lookup s.id w'.sessions ≡ none
  pub no_staging : lookup s.staging_path w'.staging ≡ none
  pub other_objects :
      (any : String) → str_eq key any ≡ false → lookup any w'.objects ≡ lookup any w.objects
  pub other_sessions :
      (any : String) → str_eq s.id any ≡ false → lookup any w'.sessions ≡ lookup any w.sessions
  pub other_staging :
      (any : String)
      → str_eq s.staging_path any ≡ false
      → lookup any w'.staging ≡ lookup any w.staging
  pub queued : w.md5_enabled ≡ true → w'.md5_tasks ≡ w.md5_tasks ++ w.next_file_id ∷ []
  pub not_queued : w.md5_enabled ≡ false → w'.md5_tasks ≡ w.md5_tasks
  pub directories : w'.directories ≡ w.directories

pub committed-Published :
    (s : UploadSession) (key : String) (content : Bytes) (w : World)
    → Published s key content w (committed (moved s key content w) s key)
unfolding committed move_to_objects file_row
committed-Published s key content w = record {
  object = ground (arith, lookup-insert key key content w.objects, eq_iff key key);
  files = refl;
  no_session = ground (arith, lookup-erase s.id s.id w.sessions, eq_iff s.id s.id);
  no_staging = ground (
    arith,
    lookup-erase s.staging_path s.staging_path w.staging,
    eq_iff s.staging_path s.staging_path,
  );
  other_objects = λ any n. ground (arith, lookup-insert key any content w.objects, n);
  other_sessions = λ any n. ground (arith, lookup-erase s.id any w.sessions, n);
  other_staging = λ any n. ground (arith, lookup-erase s.staging_path any w.staging, n);
  queued = λ b. ground (arith, b);
  not_queued = λ b. ground (arith, b);
  directories = refl;
}

publish_locked-Ready :
    (f : CompleteFaults) (key : String) (now at : ℕ) (s : UploadSession) (w : World) {w' : World}
    → publish_locked f key now at s w ≡ (ok tt, w')
    → (content : Bytes) × Ready now s content w
unfolding publish_locked publish_staging
publish_locked-Ready f key now at s w h = elim (Option-cases (lookup s.staging_path w.staging)) [
  | inl e ↦ absurd (ground (arith, e))
  | inr (content, e) ↦
      (content, record { live = ground (arith, h); received = ground (arith, h); file = e })
]

restored_ok :
    (f : CompleteFaults) (s : UploadSession) (key : String) (at : ℕ) (w : World) {w' : World}
    → lookup s.id w.sessions ≡ some s
    → restore_after f s key (complete_upload f.commit at s key w) ≡ (ok tt, w')
    → (is_live at s ≡ true) × (w' ≡ committed w s key)
unfolding restore_after complete_upload commit_row
restored_ok f s key at w row h = ground (arith, row, h)

-- A completion that returns no error found a live session, also when the transaction read the
-- time, whose bytes had all arrived, and has published its staging file as the new object and its
-- row as the last of the files; the session and the staging file are gone.
pub publish_locked-Published :
    (f : CompleteFaults) (key : String) (now at : ℕ) (s : UploadSession) (w : World) {w' : World}
    → lookup s.id w.sessions ≡ some s
    → publish_locked f key now at s w ≡ (ok tt, w')
    → (content : Bytes) × Ready now s content w
      × (is_live at s ≡ true)
      × Published s key content w w'
unfolding move_to_objects
publish_locked-Published f key now at s w {w'} row h =
    let (content, r) = publish_locked-Ready f key now at s w h in
    let q = sym (publish_locked-eq f key now at s content w r) ∙ h in
    let (a, b) = restored_ok f s key at (moved s key content w) {w' = w'} row (ground (arith, q)) in
    (content, r, a, subst (Published s key content w) (sym b) (committed-Published s key content w))
