-- ===== src/Published/Directories.antt =====
-- `createDirectory` and `deleteDirectory` of internal/httpapi/published.go, with the queries on
-- `directories` and the triggers of internal/db/migrations.
--
-- `like` is the operator LIKE of SQLite, text first. The id of the URL has been parsed, the user of a
-- session is a row of `users`, and other processes run between the checks of a handler and its write.
use safe_file_hub.Base.{
  ℕ, suc, Bool, true, false, not, ◌&&◌, ◌||◌, Option, none, some, List, [], ◌∷◌, ◌++◌, ◌==◌, Bytes,
  bytes_eq, codes, has_prefix, contains_byte, if◌then◌else◌,
}
use safe_file_hub.Base.Int.{ℤ}
use safe_file_hub.PathPolicy.{NamePolicy, parse_decoded_path, slash}
use safe_file_hub.Published.Data.{FileRow, Hub, not_found, conflict, failed, Answer, ok, err}
use safe_file_hub.Published.Rows.{file_by_root_and_path, storage_root_by_id, is_root}
use safe_file_hub.Published.Handlers.{
  Check, refuse, go, then_check, check_user, check_allowed, check_found, check_free, check_root_id,
  check_canonical, check_parent, Target, status_of_failure,
}

-- `db.Directory`
pub record DirectoryRow : Type 0 where
  pub id : ℕ
  pub root_id : ℕ
  pub logical_path : Bytes
  pub created_by_user_id : ℕ

pub record Tree : Type 0 where
  pub rows : List DirectoryRow
  pub files : List FileRow
  pub roots : List ℕ
  pub next_id : ℕ

unfoldable pub pairs : List DirectoryRow → List (ℕ × Bytes)
pairs [] = []
pairs (d ∷ ds) = (d.root_id, d.logical_path) ∷ pairs ds

-- What the queries that the handlers on files share read.
unfoldable pub hub_of : Tree → Hub
unfolding pairs
hub_of t = record {
  files = t.files;
  directories = pairs t.rows;
  roots = t.roots;
  cleanup_jobs = [];
  objects = [];
  next_file_id = 0;
}

abbrev pub Like : Type 0
Like = Bytes → Bytes → Bool

-- `logical_path || '/%'`
abbrev pub below_pattern : Bytes → Bytes
below_pattern path = path ++ codes "/%"

unfoldable pub files_like : Like → ℕ → Bytes → List FileRow → Bool
files_like like root path [] = false
files_like like root path (f ∷ fs) =
    let rest = files_like like root path fs in
    (f.root_id == root && like f.logical_path (below_pattern path)) || rest

unfoldable pub directories_like : Like → ℕ → Bytes → List DirectoryRow → Bool
directories_like like root path [] = false
directories_like like root path (d ∷ ds) =
    let rest = directories_like like root path ds in
    (d.root_id == root && like d.logical_path (below_pattern path)) || rest

-- The subquery of `directories_parent_directory_exists`.
unfoldable pub has_ancestor : Like → ℕ → Bytes → List DirectoryRow → Bool
has_ancestor like root path [] = false
has_ancestor like root path (d ∷ ds) =
    let rest = has_ancestor like root path ds in
    (d.root_id == root && like path (below_pattern d.logical_path)) || rest

-- `instr(substr(path, 2), '/') > 0`
unfoldable pub is_nested : Bytes → Bool
is_nested [] = false
is_nested (c ∷ rest) = contains_byte slash rest

unfoldable pub directory_at : ℕ → Bytes → List DirectoryRow → Bool
directory_at root path [] = false
directory_at root path (d ∷ ds) =
    let rest = directory_at root path ds in
    (d.root_id == root && bytes_eq d.logical_path path) || rest

-- `directories_path_not_file`, which looks at deleted files too.
unfoldable pub file_at_path : ℕ → Bytes → List FileRow → Bool
file_at_path root path [] = false
file_at_path root path (f ∷ fs) =
    let rest = file_at_path root path fs in
    (f.root_id == root && bytes_eq f.logical_path path) || rest

unfoldable pub may_create : Like → Target → Tree → Bool
unfolding directory_at file_at_path is_root is_nested has_ancestor
may_create like g t =
    not (directory_at g.root g.path t.rows)
    && (not (file_at_path g.root g.path t.files)
        && (is_root t.roots g.root
            && (not (is_nested g.path) || has_ancestor like g.root g.path t.rows)))

unfoldable pub new_directory : ℕ → Target → DirectoryRow
new_directory id g = record {
  id = id;
  root_id = g.root;
  logical_path = g.path;
  created_by_user_id = g.user;
}

-- `CreateDirectory`
unfoldable pub insert_directory : Like → Bool → Target → Tree → Answer ℕ × Tree
unfolding may_create new_directory
insert_directory like fails g t =
    if fails
    then (err failed, t)
    else if may_create like g t
    then (
      ok t.next_id,
      record t { rows = t.rows ++ new_directory t.next_id g ∷ []; next_id = suc t.next_id },
    )
    else (err conflict, t)

-- `directoryRequest`
pub record DirectoryRequest : Type 0 where
  pub root_id : ℤ
  pub path : Bytes

pub record DirectoryFaults : Type 0 where
  pub root : Bool
  pub parent : Bool
  pub destination : Bool
  pub insert : Bool

-- The checks on the decoded body.
unfoldable pub check_directory_request :
    (Bytes → Bytes) → NamePolicy → Option DirectoryRequest → Option ℕ → Check Target
unfolding check_root_id check_canonical check_user
check_directory_request nfc policy none user = refuse 400
check_directory_request nfc policy (some r) user = then_check (check_root_id r.root_id) (λ root.
    then_check (check_canonical (parse_decoded_path nfc r.path policy)) (λ path.
      then_check (check_user user) (λ uid. go (record { user = uid; root = root; path = path }))))

-- From the authorizer's answer on, up to the insert.
unfoldable pub check_directory_target : DirectoryFaults → Answer Bool → Tree → Target → Check Target
unfolding check_allowed check_found check_free check_parent hub_of
check_directory_target f allowed t g = then_check (check_allowed allowed) (λ _.
    then_check (check_found (storage_root_by_id f.root g.root (hub_of t))) (λ _.
      then_check (check_parent f.parent g.root g.path (hub_of t)) (λ _.
        then_check (check_free (file_by_root_and_path f.destination g.root g.path (hub_of t)))
          (λ _. go g))))

unfoldable pub after_insert : Answer ℕ × Tree → ℕ × Tree
unfolding status_of_failure
after_insert (ok id, t) = (201, t)
after_insert (err e, t) = (status_of_failure e, t)

unfoldable pub create_directory_checked :
    Like → DirectoryFaults → (Tree → Tree) → Tree → Check Target → ℕ × Tree
unfolding after_insert insert_directory
create_directory_checked like f others t (refuse status) = (status, t)
create_directory_checked like f others t (go g) =
    after_insert (insert_directory like f.insert g (others t))

-- `createDirectory`
unfoldable pub create_directory :
    (Bytes → Bytes)
    → NamePolicy
    → Like
    → DirectoryFaults
    → (Tree → Tree)
    → Answer Bool
    → Option DirectoryRequest
    → Option ℕ
    → Tree
    → ℕ × Tree
unfolding check_directory_request check_directory_target create_directory_checked
create_directory nfc policy like f others allowed request user t =
    create_directory_checked like f others t (
      then_check (check_directory_request nfc policy request user)
        (check_directory_target f allowed t))

unfoldable pub first_directory : ℕ → List DirectoryRow → Answer DirectoryRow
first_directory id [] = err not_found
first_directory id (d ∷ ds) = let rest = first_directory id ds in if d.id == id then ok d else rest

-- `DirectoryByID`
unfoldable pub directory_by_id : Bool → ℕ → Tree → Answer DirectoryRow
unfolding first_directory
directory_by_id fails id t = if fails then err failed else first_directory id t.rows

unfoldable pub files_under : ℕ → Bytes → List FileRow → Bool
files_under root path [] = false
files_under root path (f ∷ fs) =
    let rest = files_under root path fs in
    (f.root_id == root && has_prefix f.logical_path (path ++ slash ∷ [])) || rest

unfoldable pub directories_under : ℕ → Bytes → List DirectoryRow → Bool
directories_under root path [] = false
directories_under root path (d ∷ ds) =
    let rest = directories_under root path ds in
    (d.root_id == root && has_prefix d.logical_path (path ++ slash ∷ [])) || rest

-- `DirectoryEmpty`
unfoldable pub directory_empty : Bool → DirectoryRow → Tree → Answer Bool
unfolding files_under directories_under
directory_empty fails d t =
    if fails
    then err failed
    else ok (
        not (
          files_under d.root_id d.logical_path t.files
          || directories_under d.root_id d.logical_path t.rows))

-- `directories_must_be_empty`, for the rows of the id among `ds`.
unfoldable pub is_blocked : Like → ℕ → Tree → List DirectoryRow → Bool
unfolding files_like directories_like
is_blocked like id t [] = false
is_blocked like id t (d ∷ ds) =
    let rest = is_blocked like id t ds in
    (d.id == id
      && (files_like like d.root_id d.logical_path t.files
          || directories_like like d.root_id d.logical_path t.rows))
    || rest

-- The rows behind the DELETE, and how many it removed.
unfoldable pub drop_rows : ℕ → List DirectoryRow → List DirectoryRow × ℕ
drop_rows id [] = ([], 0)
drop_rows id (d ∷ ds) =
    let (rest, n) = drop_rows id ds in if d.id == id then (rest, suc n) else (d ∷ rest, n)

unfoldable pub dropped_one : List DirectoryRow × ℕ → Tree → Answer Unit × Tree
dropped_one (rows, n) t = (if n == 1 then ok tt else err not_found, record t { rows = rows })

-- `DeleteDirectory`
unfoldable pub drop_directory : Like → Bool → ℕ → Tree → Answer Unit × Tree
unfolding is_blocked drop_rows dropped_one
drop_directory like fails id t =
    if fails
    then (err failed, t)
    else if is_blocked like id t t.rows
    then (err conflict, t)
    else dropped_one (drop_rows id t.rows) t

pub record DeleteFaults : Type 0 where
  pub directory : Bool
  pub empty : Bool
  pub delete : Bool

unfoldable pub check_empty : DirectoryRow → Answer Bool → Check DirectoryRow
check_empty d (err e) = refuse 500
check_empty d (ok false) = refuse 409
check_empty d (ok true) = go d

unfoldable pub check_delete_directory :
    DeleteFaults → Answer Bool → Option ℕ → ℕ → Tree → Check DirectoryRow
unfolding check_found check_user check_allowed check_empty directory_by_id directory_empty
check_delete_directory f allowed user id t =
    then_check (check_found (directory_by_id f.directory id t)) (λ d.
      then_check (check_user user) (λ _.
        then_check (check_allowed allowed) (λ _. check_empty d (directory_empty f.empty d t))))

unfoldable pub after_delete : Answer Unit × Tree → ℕ × Tree
unfolding status_of_failure
after_delete (ok _, t) = (204, t)
after_delete (err e, t) = (status_of_failure e, t)

unfoldable pub delete_directory_checked :
    Like → DeleteFaults → (Tree → Tree) → ℕ → Tree → Check DirectoryRow → ℕ × Tree
unfolding after_delete drop_directory
delete_directory_checked like f others id t (refuse status) = (status, t)
delete_directory_checked like f others id t (go d) =
    after_delete (drop_directory like f.delete id (others t))

-- `deleteDirectory`
unfoldable pub delete_directory :
    Like → DeleteFaults → (Tree → Tree) → Answer Bool → Option ℕ → ℕ → Tree → ℕ × Tree
unfolding delete_directory_checked check_delete_directory
delete_directory like f others allowed user id t =
    delete_directory_checked like f others id t (check_delete_directory f allowed user id t)
