-- ===== src/Published/Created.antt =====
-- What `createFile` leaves behind, and what a download makes of it.
use safe_file_hub.Base.{
  ℕ, suc, ◌≡◌, ◌≢◌, ◌≤◌, ◌⊎◌, refl, String, Bool, true, false, not, ◌||◌, Option, none, some, List,
  [], ◌∷◌, ◌++◌, str_eq, arith, eq_iff, Bool-cases, inl, inr, Bytes, sym, subst,
}
use safe_file_hub.Base.Store.{lookup, insert, lookup-erase, lookup-insert}
use safe_file_hub.PathPolicy.{NamePolicy}
use safe_file_hub.Published.Data.{
  FileRow, Hub, Failure, conflict, failed, Answer, Authorizer, ok, err, Response,
}
use safe_file_hub.Published.Rows.{
  RemoveFaults, remove_object, complete_object_cleanup, enqueue_object_cleanup, create_file_row,
  row_taken, is_directory, is_root, is_job,
}
use safe_file_hub.Published.Handlers.{
  Check, refuse, go, CreateFaults, ContentFaults, FileCreateRequest, Target, create_content,
  new_row, status_of_failure, after_remove, after_enqueue, after_row, after_content, create_checked,
  check_create, create_file,
}
use safe_file_hub.Published.Checked.{Ends}
use safe_file_hub.Published.Requested.{Requested, Permitted, check_create-Ends}

-- The new file: its row, which says that it is empty, and its object.
pub record Created (t : Target) (key : String) (content : Bytes) (h h' : Hub) : Type 0 where
  pub files : h'.files ≡ h.files ++ record (new_row t key) { id = h.next_file_id } ∷ []
  pub object : lookup key h'.objects ≡ some content

-- No row has been added, no other object has changed, and the new object is gone or in the queue.
pub record Clean (key : String) (h h' : Hub) : Type 0 where
  pub files : h'.files ≡ h.files
  pub others :
      (any : String) → str_eq key any ≡ false → lookup any h'.objects ≡ lookup any h.objects
  pub tracked : (lookup key h'.objects ≡ none) ⊎ (is_job key h'.cleanup_jobs ≡ true)

abbrev pub NoRemoveFaults : RemoveFaults → Type 0
NoRemoveFaults f = (f.unlink ≡ false) × (f.sync ≡ false)

is_job-added : (key : String) (js : List String) → is_job key (js ++ key ∷ []) ≡ true
unfolding is_job
is_job-added key [] = ground (arith, eq_iff key key)
is_job-added key (j ∷ js) = ground (arith, is_job-added key js)

after_enqueue-Clean :
    (f : CreateFaults) (key : String) (e : Failure) (content : Bytes) (h h1 : Hub)
    → h1.files ≡ h.files
    → h1.objects ≡ insert key content h.objects
    → f.enqueue ≡ false
    → Clean key h (after_enqueue f key e (enqueue_object_cleanup f.enqueue key h1)).1
unfolding after_enqueue after_remove enqueue_object_cleanup remove_object complete_object_cleanup
after_enqueue-Clean f key e content h h1 same objects enq =
    let here = lookup-insert key key content h.objects in
    let gone = lookup-erase key key h1.objects in
    let me = eq_iff key key in
    let queued = is_job-added key h1.cleanup_jobs in
    record {
      files = ground (arith, enq, same);
      others = λ any n.
          let a = lookup-insert key any content h.objects in
          let b = lookup-erase key any h1.objects in ground (arith, enq, objects, a, b, n);
      tracked = ground (arith, enq, objects, here, gone, me, queued);
    }

Clean-same : (key : String) (h : Hub) → lookup key h.objects ≡ none → Clean key h h
Clean-same key h fresh = record { files = refl; others = λ any n. refl; tracked = inl fresh }

-- The end of a creation that passed the checks.
abbrev pub CreateEnds : Target → String → Bytes → Hub → Response → Type 0
CreateEnds t key content h (status, h') =
    ((status ≡ 201) × Created t key content h h') ⊎ ((status ≢ 201) × Clean key h h')

create_content-ok :
    (f : ContentFaults) (key : String) (content : Bytes) (h : Hub) {h1 : Hub}
    → create_content f key content h ≡ (ok tt, h1)
    → h1 ≡ record h { objects = insert key content h.objects }
unfolding create_content
create_content-ok f key content h e = ground (arith, e)

create_content-Clean :
    (f : ContentFaults) (key : String) (content : Bytes) (h : Hub) {b : Failure} {h1 : Hub}
    → lookup key h.objects ≡ none
    → NoRemoveFaults f.remove
    → create_content f key content h ≡ (err b, h1)
    → Clean key h h1
unfolding create_content remove_object
create_content-Clean f key content h {b} {h1} fresh (u, v) e =
    let created = insert key content h.objects in
    let here = lookup-insert key key content h.objects in
    let gone = lookup-erase key key created in
    let me = eq_iff key key in
    record {
      files = ground (arith, e, u, v, here, me);
      others = λ any n.
          let a = lookup-insert key any content h.objects in
          let c = lookup-erase key any created in ground (arith, e, u, v, here, me, a, c, n);
      tracked = inl (ground (arith, e, u, v, here, me, gone, fresh));
    }

after_enqueue-refuses :
    (f : CreateFaults) (key : String) (e : Failure) (o : Answer Unit × Hub)
    → (after_enqueue f key e o).0 ≢ 201
unfolding after_enqueue after_remove status_of_failure
after_enqueue-refuses f key e o q = ground (arith, q)

abbrev row_added : FileRow → Hub → Hub
row_added r h = record h {
  files = h.files ++ record r { id = h.next_file_id } ∷ [];
  next_file_id = suc h.next_file_id;
}

create_file_row-cases :
    (fails : Bool) (r : FileRow) (h : Hub)
    → (create_file_row fails r h ≡ (ok h.next_file_id, row_added r h))
      ⊎ ((e : Failure) × (create_file_row fails r h ≡ (err e, h)))
unfolding create_file_row
create_file_row-cases true r h = inr (failed, refl)
create_file_row-cases false r h =
    elim (Bool-cases (
      row_taken h.files r.root_id r.logical_path r.object_key
      || (is_directory h.directories r.root_id r.logical_path
          || not (is_root h.roots r.root_id)))) [
            | inl e ↦ inr (conflict, ground (arith, e))
            | inr e ↦ inl (ground (arith, e))
          ]

after_row-Ends :
    (f : CreateFaults) (key : String) (t : Target) (content : Bytes) (h : Hub)
    → f.enqueue ≡ false
    → CreateEnds t key content h (
        after_row f key (
          create_file_row f.row
            (new_row t key)
            (record h { objects = insert key content h.objects })))
unfolding after_row
after_row-Ends f key t content h enq =
    let h1 = record h { objects = insert key content h.objects } in
    elim (create_file_row-cases f.row (new_row t key) h1) [
      | inl q ↦
          subst (λ o. CreateEnds t key content h (after_row f key o)) (sym q)
            (inl (
              refl,
              record {
                files = refl;
                object = ground (arith, lookup-insert key key content h.objects, eq_iff key key);
              },
            ))
      | inr (e, q) ↦
          subst (λ o. CreateEnds t key content h (after_row f key o)) (sym q)
            (inr (
              after_enqueue-refuses f key e (enqueue_object_cleanup f.enqueue key h1),
              after_enqueue-Clean f key e content h h1 refl refl enq,
            ))
    ]

after_content-Ends :
    (f : CreateFaults) (key : String) (t : Target) (content : Bytes) (h : Hub)
    → f.enqueue ≡ false
    → NoRemoveFaults f.content.remove
    → lookup key h.objects ≡ none
    → (o : Answer Unit × Hub) → create_content f.content key content h ≡ o
    → CreateEnds t key content h (after_content f key t o)
unfolding after_content
after_content-Ends f key t content h enq safe fresh (err e, h1) q = inr (
  (λ k. ground (arith, k)),
  create_content-Clean f.content key content h {b = e} {h1 = h1} fresh safe q,
)
after_content-Ends f key t content h enq safe fresh (ok _, h1) q =
    subst
      (λ v. CreateEnds t key content h (after_row f key (create_file_row f.row (new_row t key) v)))
      (sym (create_content-ok f.content key content h {h1 = h1} q))
      (after_row-Ends f key t content h enq)

create_checked-Ends :
    (f : CreateFaults) (key : String) (t : Target) (content : Bytes) (h : Hub)
    → f.enqueue ≡ false
    → NoRemoveFaults f.content.remove
    → lookup key h.objects ≡ none
    → CreateEnds t key content h (create_checked f key content h (go t))
unfolding create_checked
create_checked-Ends f key t content h enq safe fresh =
    after_content-Ends f key t content h enq safe fresh (create_content f.content key content h)
      refl

pub Check-cases :
    {A : Type 0} → (c : Check A) → ((status : ℕ) × (c ≡ refuse status)) ⊎ ((a : A) × (c ≡ go a))
Check-cases (refuse status) = inl (status, refl)
Check-cases (go a) = inr (a, refl)

-- How a creation ends: refused, with an error and nothing changed, or with its
-- request and the hub in order.
abbrev pub CreationEnds :
    (Bytes → Bytes)
    → NamePolicy
    → Authorizer
    → String
    → FileCreateRequest
    → Option ℕ
    → Hub
    → Response
    → Type 0
CreationEnds nfc policy ask key r user h (status, h') =
    ((400 ≤ status) × (h' ≡ h))
    ⊎ ((t : Target) × Requested nfc policy r user t
        × Permitted ask r.content h t
        × CreateEnds t key r.content h (status, h'))

-- A creation, when the cleanup record can be written and the object store can undo a broken write
-- of a new key, is refused with an error status and nothing changed, or it comes from a
-- signed-in user, names a root and a path that is accepted and not the root directory, the authorizer
-- lets the user write the path in the root, the root exists, and so does the parent directory, no
-- active file has the path, and the content is UTF-8 text of at most 16 MiB. Then it either answers 201 with
-- the row and the object in place, or answers otherwise with no row added, no other object
-- changed, and the new object gone or named by a cleanup job.
pub create_file-Ends :
    (nfc : Bytes → Bytes) (policy : NamePolicy) (with_content : Bool) (f : CreateFaults)
    (ask : Authorizer)
    → (key : String) (r : FileCreateRequest) (user : Option ℕ) (h : Hub) → f.enqueue ≡ false
    → NoRemoveFaults f.content.remove
    → lookup key h.objects ≡ none
    → CreationEnds nfc policy ask key r user h
        (create_file nfc policy with_content f ask key (some r) user h)
unfolding create_file
create_file-Ends nfc policy with_content f ask key r user h enq safe fresh =
    checked_ends (check_create nfc policy with_content f ask (some r) user h)
      (check_create-Ends nfc policy with_content f ask r user h)
  where
    checked_ends :
        (c : Check Target)
        → Ends (λ t. Requested nfc policy r user t × Permitted ask r.content h t) c
        → CreationEnds nfc policy ask key r user h (create_checked f key r.content h c)
    checked_ends (refuse status) n = unfold create_checked in inl (n, refl)
    checked_ends (go t) (asked, may) =
        inr (t, asked, may, create_checked-Ends f key t r.content h enq safe fresh)
