-- ===== src/Published/Trees.antt =====
-- What creations and deletions of directories keep, and what a race breaks.
use safe_file_hub.Base.{
  ℕ, suc, ◌≡◌, ◌≢◌, refl, sym, ap, ◌∙◌, subst, inl, inr, Bool, true, false, ◌&&◌, ◌||◌, Option,
  List, [], ◌∷◌, ◌++◌, ◌==◌, Bytes, bytes_eq, has_prefix, has_prefix→append, append_assoc,
  bytes_eq_iff, bytes_eq_refl, length, length-append, not, arith, Bool-cases, All,
}
use safe_file_hub.PathPolicy.{NamePolicy, slash}
use safe_file_hub.Published.Data.{FileRow, Answer, ok, err, not_found}
use safe_file_hub.Published.Rows.{is_root}
use safe_file_hub.Published.Handlers.{
  Check, refuse, go, then_check, Target, check_user, check_allowed, check_found, parent_of,
  status_of_failure,
}
use safe_file_hub.Published.Directories.{
  DirectoryRow, Tree, Like, below_pattern, files_like, directories_like, has_ancestor, is_nested,
  directory_at, file_at_path, may_create, new_directory, insert_directory, DirectoryRequest,
  DirectoryFaults, check_directory_request, check_directory_target, after_insert, create_directory,
  first_directory, directory_by_id, files_under, directories_under, is_blocked, drop_rows,
  dropped_one, drop_directory, DeleteFaults, check_delete_directory, after_delete,
  delete_directory_checked, delete_directory,
}
use safe_file_hub.Published.Parents.{
  LikesOwn, Parented, path-below, then_check-ind, delete_directory-Parented,
  create_directory-Parented,
}

-- A request with what fails in it, the answer of the authorizer and the user of the session.
pub data Request : Type 0 where
  creates : DirectoryFaults → Answer Bool → Option DirectoryRequest → Option ℕ → Request
  deletes : DeleteFaults → Answer Bool → Option ℕ → ℕ → Request

module _ (nfc : Bytes → Bytes) (policy : NamePolicy) (like : Like) where
  abbrev pub perform : Request → Tree → Tree
  perform (creates f allowed request user) t =
      (create_directory nfc policy like f (λ v. v) allowed request user t).1
  perform (deletes f allowed user id) t = (delete_directory like f (λ v. v) allowed user id t).1

  abbrev pub perform_all : List Request → Tree → Tree
  perform_all [] t = t
  perform_all (r ∷ rs) t = perform_all rs (perform r t)

  -- Requests on directories, one after the other and whatever fails in them, leave every directory
  -- with its parent: the parent of its path is the root, or a directory of the same storage root.
  pub perform_all-Parented :
      LikesOwn like → (rs : List Request) (t : Tree) → Parented t → Parented (perform_all rs t)
  perform_all-Parented own [] t p = p
  perform_all-Parented own (creates f allowed request user ∷ rs) t p =
      perform_all-Parented own rs (perform (creates f allowed request user) t)
        (create_directory-Parented nfc policy like f allowed request user t p)
  perform_all-Parented own (deletes f allowed user id ∷ rs) t p =
      perform_all-Parented own rs (perform (deletes f allowed user id) t)
        (delete_directory-Parented like own f allowed user id t p)

-- The row is gone, and nothing is left below the directory that it was.
pub record Emptied (id : ℕ) (before after : Tree) : Type 0 where
  pub row : first_directory id after.rows ≡ err not_found
  pub below :
      All
        (λ d.
          d.id ≡ id
          → (files_under d.root_id d.logical_path after.files ≡ false)
            × (directories_under d.root_id d.logical_path after.rows ≡ false))
        before.rows

module _ (like : Like) (own : LikesOwn like) where
  likes-has_prefix :
      (path q : Bytes)
      → has_prefix q (path ++ slash ∷ []) ≡ true
      → like q (below_pattern path) ≡ true
  likes-has_prefix path q h =
      let (r, e) = has_prefix→append q (path ++ slash ∷ []) h in
      subst (λ v. like v (below_pattern path) ≡ true) (sym (e ∙ append_assoc path (slash ∷ []) r))
        (own path r)

  files_under-like :
      (root : ℕ) (path : Bytes) (fs : List FileRow)
      → files_like like root path fs ≡ false
      → files_under root path fs ≡ false
  unfolding files_like files_under
  files_under-like root path [] h = refl
  files_under-like root path (f ∷ fs) h =
      let ih = files_under-like root path fs in
      let k = likes-has_prefix path f.logical_path in ground (arith, h, ih, k)

  directories_under-like :
      (root : ℕ) (path : Bytes) (id : ℕ) (ds : List DirectoryRow)
      → directories_like like root path ds ≡ false
      → directories_under root path (drop_rows id ds).0 ≡ false
  unfolding directories_like directories_under drop_rows
  directories_under-like root path id [] h = refl
  directories_under-like root path id (d ∷ ds) h =
      let ih = directories_under-like root path id ds in
      let k = likes-has_prefix path d.logical_path in ground (arith, h, ih, k)

  first_directory-drop_rows :
      (id : ℕ) (ds : List DirectoryRow) → first_directory id (drop_rows id ds).0 ≡ err not_found
  unfolding first_directory drop_rows
  first_directory-drop_rows id [] = refl
  first_directory-drop_rows id (d ∷ ds) =
      let ih = first_directory-drop_rows id ds in ground (arith, ih)

  unblocked-below :
      (id : ℕ) (t : Tree) (ds : List DirectoryRow)
      → is_blocked like id t ds ≡ false
      → All
          (λ d.
            d.id ≡ id
            → (files_under d.root_id d.logical_path t.files ≡ false)
              × (directories_under d.root_id d.logical_path (drop_rows id t.rows).0 ≡ false))
          ds
  unfolding is_blocked
  unblocked-below id t [] b = tt
  unblocked-below id t (d ∷ ds) b = (
    λ e.
        let k = files_under-like d.root_id d.logical_path t.files in
        let m = directories_under-like d.root_id d.logical_path id t.rows in
        ground (arith, b, e, k, m),
    unblocked-below id t ds (ground (arith, b)),
  )

  drop_directory-Emptied :
      (fails : Bool) (id : ℕ) (t t' : Tree)
      → after_delete (drop_directory like fails id t) ≡ (204, t')
      → Emptied id t t'
  unfolding drop_directory after_delete status_of_failure dropped_one
  drop_directory-Emptied fails id t t' h = elim (Bool-cases (is_blocked like id t t.rows)) [
    | inl b ↦ absurd (ground (arith, h, b))
    | inr b ↦
        let rows : List DirectoryRow = (drop_rows id t.rows).0 in
        let same : t' ≡ record t { rows = rows } = ground (arith, h, b) in
        subst (Emptied id t) (sym same) (record {
          row = first_directory-drop_rows id t.rows;
          below = unblocked-below id t t.rows b;
        })
  ]

allowed_go : {u : Unit} (a : Answer Bool) → check_allowed a ≡ go u → a ≡ ok true
unfolding check_allowed
allowed_go (err b) e = absurd (ground (arith, e))
allowed_go (ok true) e = refl
allowed_go (ok false) e = absurd (ground (arith, e))

check_delete_directory-allowed :
    (f : DeleteFaults) (allowed : Answer Bool) (user : Option ℕ) (id : ℕ) (t : Tree)
    (d : DirectoryRow)
    → check_delete_directory f allowed user id t ≡ go d
    → allowed ≡ ok true
unfolding check_delete_directory
check_delete_directory-allowed f allowed user id t d =
    then_check-ind Q refused (check_found (directory_by_id f.directory id t)) _ (λ d' _.
      then_check-ind Q refused (check_user user) _
        (λ _ _. then_check-ind Q refused (check_allowed allowed) _ (λ _ e _. allowed_go allowed e)))
  where
    Q : Check DirectoryRow → Type 0
    Q c = c ≡ go d → allowed ≡ ok true

    refused : (status : ℕ) → Q (refuse status)
    refused status e = absurd (ground (arith, e))

-- A deletion that passes its checks and answers 204 was allowed, its row is gone, and neither a file,
-- deleted ones included, nor a directory lies below where the directory was, whatever other processes did
-- between the checks and the deletion, where LIKE finds what begins with its pattern.
pub delete_directory-Emptied :
    (like : Like) (f : DeleteFaults) (others : Tree → Tree) (allowed : Answer Bool)
    (user : Option ℕ) (id : ℕ) (d : DirectoryRow) (t t' : Tree)
    → LikesOwn like
    → check_delete_directory f allowed user id t ≡ go d
    → delete_directory like f others allowed user id t ≡ (204, t')
    → (allowed ≡ ok true) × Emptied id (others t) t'
unfolding delete_directory
delete_directory-Emptied like f others allowed user id d t t' own passes done =
    let checked = ap (delete_directory_checked like f others id t) passes in
    (
      check_delete_directory-allowed f allowed user id t d passes,
      drop_directory-Emptied like own f.delete id (others t) t' (sym checked ∙ done),
    )

-- The directory has been made, and its parent is no directory.
pub record Orphan (root : ℕ) (path : Bytes) (t : Tree) : Type 0 where
  pub made : directory_at root path t.rows ≡ true
  pub parentless : directory_at root (parent_of path) t.rows ≡ false

directory_at-last :
    (root : ℕ) (path : Bytes) (ds : List DirectoryRow) (d : DirectoryRow)
    → directory_at root path (ds ++ d ∷ [])
      ≡ directory_at root path ds || (d.root_id == root && bytes_eq d.logical_path path)
unfolding directory_at
directory_at-last root path [] d = ground arith
directory_at-last root path (e ∷ ds) d =
    let ih = directory_at-last root path ds d in ground (arith, ih)

parent-other : (path : Bytes) → parent_of path ≢ slash ∷ [] → bytes_eq path (parent_of path) ≡ false
parent-other path n = elim (Bool-cases (bytes_eq path (parent_of path))) [
  | inr e ↦ e
  | inl e ↦
      let (s, below) = path-below path n in
      let same = (bytes_eq_iff path (parent_of path)).0 e in
      let long = ap length (sym same ∙ below) in
      let sum = length-append (parent_of path) (slash ∷ s) in absurd (omega (arith, long, sum))
]

or_true : (b : Bool) → (b || true) ≡ true
or_true true = refl
or_true false = refl

-- When the parent is deleted between the checks of a creation and its insert, and some directory further
-- up is left, the creation answers 201 and leaves a directory without its parent.
pub create_directory-Orphan :
    (nfc : Bytes → Bytes) (policy : NamePolicy) (like : Like) (f : DirectoryFaults)
    (others : Tree → Tree) (allowed : Answer Bool) (request : Option DirectoryRequest)
    (user : Option ℕ) (t : Tree) (g : Target)
    → then_check
        (check_directory_request nfc policy request user)
        (check_directory_target f allowed t)
      ≡ go g
    → f.insert ≡ false
    → parent_of g.path ≢ slash ∷ []
    → directory_at g.root (parent_of g.path) (others t).rows ≡ false
    → has_ancestor like g.root g.path (others t).rows ≡ true
    → directory_at g.root g.path (others t).rows ≡ false
    → file_at_path g.root g.path (others t).files ≡ false
    → is_root (others t).roots g.root ≡ true
    → ((create_directory nfc policy like f others allowed request user t).0 ≡ 201)
      × Orphan g.root g.path (create_directory nfc policy like f others allowed request user t).1
unfolding create_directory insert_directory after_insert may_create new_directory
create_directory-Orphan nfc policy like f others allowed request user t g passes ins n gone up free
      nofile root =
    let v = others t in
    let d : DirectoryRow = new_directory v.next_id g in
    let a = directory_at-last g.root g.path v.rows d in
    let b = directory_at-last g.root (parent_of g.path) v.rows d in
    let c = parent-other g.path n in
    let self = bytes_eq_refl g.path in
    let orphan : Orphan g.root g.path
        (record v { rows = v.rows ++ d ∷ []; next_id = suc v.next_id }) =
      record { made = ground (arith, a, self); parentless = ground (arith, b, c, gone) } in
    rw (passes, ins, up, free, nofile, root, or_true (not (is_nested g.path))) (refl, orphan)
