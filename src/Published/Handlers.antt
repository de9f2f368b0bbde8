-- ===== src/Published/Handlers.antt =====
-- `createFile`, `deleteFile` and `downloadFile`.
use safe_file_hub.Base.{
  ℕ, zero, suc, String, Bool, true, false, not, ◌&&◌, Option, none, some, List, [], ◌∷◌, ltb, Bytes,
  bytes_eq, length, split, join, if◌then◌else◌,
}
use safe_file_hub.Base.Int.{ℤ, pos, negsuc}
use safe_file_hub.Base.Store.{insert}
use safe_file_hub.Base.Utf8.{valid_string}
use safe_file_hub.PathPolicy.{NamePolicy, LogicalPath, parse_decoded_path, slash}
use safe_file_hub.PathPolicy as PathPolicy
use safe_file_hub.Published.Data.{
  active, FileRow, Hub, Failure, not_found, conflict, failed, Answer, Authorizer, ok, err, Response,
}
use safe_file_hub.Published.Rows.{
  file_by_root_and_path, directory_by_root_and_path, storage_root_by_id, create_file_row,
  enqueue_object_cleanup, complete_object_cleanup, RemoveFaults, remove_object,
}

unfoldable pub all_but_last : List Bytes → List Bytes
all_but_last [] = []
all_but_last (w ∷ []) = []
all_but_last (w ∷ v ∷ ws) = w ∷ all_but_last (v ∷ ws)

-- `path.Dir` of a canonical path.
unfoldable pub parent_of : Bytes → Bytes
unfolding all_but_last
parent_of path =
    let parent = join slash (all_but_last (split slash path)) in
    if bytes_eq parent [] then slash ∷ [] else parent

-- `fileCreateRequest`
pub record FileCreateRequest : Type 0 where
  pub root_id : ℤ
  pub path : Bytes
  pub content : Bytes

-- What the checks of a handler end with: a status, or what it goes on with.
pub data Check (A : Type 0) : Type 0 where
  refuse : ℕ → Check A
  go : A → Check A

abbrev pub then_check : {A B : Type 0} → Check A → (A → Check B) → Check B
then_check (refuse status) rest = refuse status
then_check (go a) rest = rest a

-- `!ok || uid <= 0`
unfoldable pub check_user : Option ℕ → Check ℕ
check_user none = refuse 401
check_user (some zero) = refuse 401
check_user (some (suc n)) = go (suc n)

unfoldable pub check_allowed : Answer Bool → Check Unit
check_allowed (err e) = refuse 500
check_allowed (ok true) = go tt
check_allowed (ok false) = refuse 403

unfoldable pub check_found : {A : Type 0} → Answer A → Check A
check_found (ok a) = go a
check_found (err not_found) = refuse 404
check_found (err conflict) = refuse 500
check_found (err failed) = refuse 500

-- The lookup of the destination.
unfoldable pub check_free : {A : Type 0} → Answer A → Check Unit
check_free (ok a) = refuse 409
check_free (err not_found) = go tt
check_free (err conflict) = refuse 500
check_free (err failed) = refuse 500

abbrev pub check_test : Bool → ℕ → Check Unit
check_test true status = refuse status
check_test false status = go tt

unfoldable pub check_root_id : ℤ → Check ℕ
check_root_id (negsuc n) = refuse 400
check_root_id (pos zero) = refuse 400
check_root_id (pos (suc n)) = go (suc n)

unfoldable pub check_canonical : PathPolicy.Result LogicalPath → Check Bytes
check_canonical (PathPolicy.err e) = refuse 400
check_canonical (PathPolicy.ok p) =
    if bytes_eq p.canonical (slash ∷ []) then refuse 400 else go p.canonical

-- What can fail in `CreateContent`: the creation, or the write, which then removes the object.
pub record ContentFaults : Type 0 where
  pub create : Bool
  pub write : Bool
  pub remove : RemoveFaults

unfoldable pub create_content : ContentFaults → String → Bytes → Hub → Answer Unit × Hub
create_content f key content h =
    if f.create
    then (err failed, h)
    else (let created = record h { objects = insert key content h.objects } in
        if f.write then (err failed, (remove_object f.remove key created).1) else (ok tt, created))

pub record CreateFaults : Type 0 where
  pub root : Bool
  pub parent : Bool
  pub destination : Bool
  pub content : ContentFaults
  pub row : Bool
  pub enqueue : Bool
  pub remove : RemoveFaults
  pub complete : Bool

pub record Target : Type 0 where
  pub user : ℕ
  pub root : ℕ
  pub path : Bytes

unfoldable pub check_parent : Bool → ℕ → Bytes → Hub → Check Unit
unfolding parent_of
check_parent fails root path h =
    let parent = parent_of path in
    if bytes_eq parent (slash ∷ [])
    then go tt
    else check_found (directory_by_root_and_path fails root parent h)

-- From the question to the authorizer on, up to the first change.
unfoldable pub check_target : CreateFaults → Authorizer → Bytes → Hub → Target → Check Target
unfolding check_allowed check_found check_free check_parent
check_target f ask content h t = then_check (check_allowed (ask t.user t.root t.path "write")) (λ _.
    then_check (check_found (storage_root_by_id f.root t.root h)) (λ _.
      then_check (check_parent f.parent t.root t.path h) (λ _.
        then_check (check_free (file_by_root_and_path f.destination t.root t.path h))
          (λ _. then_check (check_test (ltb 16777216 (length content)) 413) (λ _. go t)))))

module _ (nfc : Bytes → Bytes) (policy : NamePolicy) (with_content : Bool) where
  -- The checks on the decoded body.
  unfoldable pub check_request : FileCreateRequest → Option ℕ → Check Target
  unfolding check_root_id check_canonical check_user
  check_request r user = then_check (check_root_id r.root_id) (λ root.
      then_check (check_test (not with_content && not (bytes_eq r.content [])) 400) (λ _.
        then_check (check_test (not (valid_string r.content)) 400) (λ _.
          then_check (check_canonical (parse_decoded_path nfc r.path policy)) (λ path.
            then_check (check_user user)
              (λ uid. go (record { user = uid; root = root; path = path }))))))

  unfoldable pub check_create :
      CreateFaults → Authorizer → Option FileCreateRequest → Option ℕ → Hub → Check Target
  unfolding check_request check_target
  check_create f ask none user h = refuse 400
  check_create f ask (some r) user h =
      then_check (check_request r user) (check_target f ask r.content h)

-- The row is written with size 0, whatever the content is.
unfoldable pub new_row : Target → String → FileRow
new_row t key = record {
  id = 0;
  root_id = t.root;
  logical_path = t.path;
  object_key = key;
  size = 0;
  created_by_user_id = t.user;
  delete_state = active;
}

unfoldable pub status_of_failure : Failure → ℕ
status_of_failure not_found = 500
status_of_failure conflict = 409
status_of_failure failed = 500

unfoldable pub after_remove : CreateFaults → String → Failure → Answer Unit × Hub → Response
unfolding status_of_failure
after_remove f key e (ok _, h) = (status_of_failure e, (complete_object_cleanup f.complete key h).1)
after_remove f key e (err _, h) = (500, h)

unfoldable pub after_enqueue : CreateFaults → String → Failure → Answer Unit × Hub → Response
unfolding after_remove
after_enqueue f key e (err _, h) = (500, h)
after_enqueue f key e (ok _, h) = after_remove f key e (remove_object f.remove key h)

unfoldable pub after_row : CreateFaults → String → Answer ℕ × Hub → Response
unfolding after_enqueue
after_row f key (ok id, h) = (201, h)
after_row f key (err e, h) = after_enqueue f key e (enqueue_object_cleanup f.enqueue key h)

unfoldable pub after_content : CreateFaults → String → Target → Answer Unit × Hub → Response
unfolding after_row new_row
after_content f key t (err _, h) = (500, h)
after_content f key t (ok _, h) = after_row f key (create_file_row f.row (new_row t key) h)

unfoldable pub create_checked : CreateFaults → String → Bytes → Hub → Check Target → Response
unfolding after_content create_content
create_checked f key content h (refuse status) = (status, h)
create_checked f key content h (go t) =
    after_content f key t (create_content f.content key content h)

abbrev pub content_of : Option FileCreateRequest → Bytes
content_of none = []
content_of (some r) = r.content

-- `createFile`, with the random key that the object gets.
unfoldable pub create_file :
    (Bytes → Bytes)
    → NamePolicy
    → Bool
    → CreateFaults
    → Authorizer
    → String
    → Option FileCreateRequest
    → Option ℕ
    → Hub
    → Response
unfolding create_checked check_create
create_file nfc policy with_content f ask key request user h =
    create_checked f key (content_of request) h
      (check_create nfc policy with_content f ask request user h)
