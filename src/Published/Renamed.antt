-- ===== src/Published/Renamed.antt =====
-- What a rename asks for, and what it leaves.
use safe_file_hub.Base.{
  ℕ, suc, ◌≡◌, refl, ap, sym, subst, ◌∙◌, Bool, true, false, ◌&&◌, ◌||◌, Option, none, some, List,
  [], ◌∷◌, ◌==◌, Bytes, bytes_eq, bytes_eq_iff, bytes_eq_refl, arith,
}
use safe_file_hub.PathPolicy.{NamePolicy, LogicalPath, parse_decoded_path, slash}
use safe_file_hub.PathPolicy as PathPolicy
use safe_file_hub.Published.Data.{FileRow, Hub, Authorizer, ok}
use safe_file_hub.Published.Rows.{is_active, first_active, file_by_id, file_by_root_and_path}
use safe_file_hub.Published.Handlers.{
  Check, refuse, go, check_user, check_allowed, check_found, check_free, check_parent,
}
use safe_file_hub.Published.Checked.{
  Ends, Refuses, then_check-Ends, user-Refuses, allowed-Refuses, found-Refuses, free-Refuses,
  canonical-Refuses, parent-Refuses, canonical-go, parent-go, destination-go, NoFileAt,
  ParentStands,
}
use safe_file_hub.Published.Served.{asked_as, found_checked, file_by_id-ok}
use safe_file_hub.Published.Rename.{
  move_rows, moved_one, rename_row, RenameFaults, check_body, check_destination, check_rename,
  after_rename, rename_checked, rename_file,
}

-- A row with this root and path that is active.
unfoldable pub has_file : ℕ → Bytes → List FileRow → Bool
has_file root path [] = false
has_file root path (f ∷ fs) =
    let rest = has_file root path fs in
    ((f.root_id == root && bytes_eq f.logical_path path) && is_active f.delete_state) || rest

has_file-move_rows :
    (id root : ℕ) (old new : Bytes) (fs : List FileRow) (file : FileRow)
    → first_active id fs ≡ ok file
    → file.logical_path ≡ old
    → file.root_id ≡ root
    → has_file root new (move_rows id old new fs).0 ≡ true
unfolding has_file move_rows first_active
has_file-move_rows id root old new [] file e p q = absurd (ground (arith, e))
has_file-move_rows id root old new (f ∷ fs) file e p q =
    let ih = has_file-move_rows id root old new fs file in
    let path = bytes_eq_iff f.logical_path old in
    let same = bytes_eq_refl new in ground (arith, ih, e, p, q, path, same)

-- What must hold before a file is renamed: the user is signed in, the authorizer lets the user
-- write both paths in the file's root, the new path is the one of the request and accepted, no active
-- file has it, and its parent stands.
pub record MayMove (nfc : Bytes → Bytes) (policy : NamePolicy) (ask : Authorizer)
    (body : Option Bytes) (user : Option ℕ) (id : ℕ) (h : Hub) (file : FileRow) (path : Bytes)
    : Type 0 where
  pub row : first_active id h.files ≡ ok file
  pub may_leave :
      (n : ℕ) × (user ≡ some (suc n))
      × (ask (suc n) file.root_id file.logical_path "write" ≡ ok true)
  pub may_arrive :
      (n : ℕ) × (user ≡ some (suc n)) × (ask (suc n) file.root_id path "write" ≡ ok true)
  pub asked :
      (raw : Bytes) × (body ≡ some raw)
      × (p : LogicalPath) × (parse_decoded_path nfc raw policy ≡ PathPolicy.ok p)
      × (p.canonical ≡ path)
      × (bytes_eq path (slash ∷ []) ≡ false)
  pub free : NoFileAt file.root_id path h.files
  pub parent : ParentStands file.root_id path h

-- A rename that succeeded: afterwards an active file of the root has the new path, and the
-- directories are as before.
pub record Moved (nfc : Bytes → Bytes) (policy : NamePolicy) (ask : Authorizer)
    (body : Option Bytes) (user : Option ℕ) (id : ℕ) (h : Hub) (file : FileRow) (path : Bytes)
    (h' : Hub) : Type 0 where
  pub may : MayMove nfc policy ask body user id h file path
  pub arrived : has_file file.root_id path h'.files ≡ true
  pub directories : h'.directories ≡ h.directories

body-Refuses :
    (nfc : Bytes → Bytes) (policy : NamePolicy) (body : Option Bytes)
    → Refuses (check_body nfc policy body)
unfolding check_body
body-Refuses nfc policy none = omega arith
body-Refuses nfc policy (some raw) = canonical-Refuses (parse_decoded_path nfc raw policy)

body-go :
    (nfc : Bytes → Bytes) (policy : NamePolicy) (body : Option Bytes) (path : Bytes)
    → check_body nfc policy body ≡ go path
    → (raw : Bytes) × (body ≡ some raw)
      × (p : LogicalPath) × (parse_decoded_path nfc raw policy ≡ PathPolicy.ok p)
      × (p.canonical ≡ path)
      × (bytes_eq path (slash ∷ []) ≡ false)
unfolding check_body
body-go nfc policy none path e = absurd (ground (arith, e))
body-go nfc policy (some raw) path e =
    let (p, a, b, c) = canonical-go (parse_decoded_path nfc raw policy) path e in
    (raw, refl, p, a, b, c)

destination-Ends :
    (f : RenameFaults) (file : FileRow) (h : Hub) (path : Bytes) (Good : FileRow × Bytes → Type 0)
    → (NoFileAt file.root_id path h.files → ParentStands file.root_id path h → Good (file, path))
    → Ends Good (check_destination f file h path)
unfolding check_destination
destination-Ends f file h path Good k =
    then_check-Ends Good (check_free (file_by_root_and_path f.destination file.root_id path h)) _
      (free-Refuses (file_by_root_and_path f.destination file.root_id path h))
      (λ _ a.
        then_check-Ends Good (check_parent f.parent file.root_id path h) _
          (parent-Refuses f.parent file.root_id path h)
          (λ _ b.
            k (destination-go f.destination file.root_id path h a)
              (parent-go f.parent file.root_id path h b)))

check_rename-Ends :
    (nfc : Bytes → Bytes) (policy : NamePolicy) (f : RenameFaults) (ask : Authorizer)
    (body : Option Bytes) (user : Option ℕ) (id : ℕ) (h : Hub)
    → Ends
        (λ (m : FileRow × Bytes). MayMove nfc policy ask body user id h m.0 m.1)
        (check_rename nfc policy f ask body user id h)
unfolding check_rename
check_rename-Ends nfc policy f ask body user id h =
    let Good : (FileRow × Bytes) → Type 0 = λ m. MayMove nfc policy ask body user id h m.0 m.1 in
    then_check-Ends Good (check_found (file_by_id f.file id h)) _
      (found-Refuses (file_by_id f.file id h))
      (λ file a. then_check-Ends Good (check_user user) _ (user-Refuses user) (λ uid b.
        then_check-Ends Good (check_body nfc policy body) _ (body-Refuses nfc policy body)
          (λ path c.
            then_check-Ends Good (check_allowed (ask uid file.root_id file.logical_path "write")) _
              (allowed-Refuses (ask uid file.root_id file.logical_path "write"))
              (λ _ d.
                then_check-Ends Good (check_allowed (ask uid file.root_id path "write")) _
                  (allowed-Refuses (ask uid file.root_id path "write"))
                  (λ _ e. destination-Ends f file h path Good (λ free parent. record {
                    row =
                        file_by_id-ok f.file id h file
                          (found_checked (file_by_id f.file id h) file a);
                    may_leave = asked_as ask user uid file.root_id file.logical_path "write" b d;
                    may_arrive = asked_as ask user uid file.root_id path "write" b e;
                    asked = body-go nfc policy body path c;
                    free = free;
                    parent = parent;
                  }))))))

rename_row-ok :
    (f : RenameFaults) (file : FileRow) (path : Bytes) (h : Hub) {h' : Hub}
    → rename_checked f h (go (file, path)) ≡ (200, h')
    → h' ≡ record h { files = (move_rows file.id file.logical_path path h.files).0 }
unfolding rename_checked after_rename rename_row moved_one
rename_row-ok f file path h e = ground (arith, e)

first_active-id :
    (id : ℕ) (fs : List FileRow) (file : FileRow) → first_active id fs ≡ ok file → file.id ≡ id
unfolding first_active
first_active-id id [] file e = absurd (ground (arith, e))
first_active-id id (f ∷ fs) file e = let ih = first_active-id id fs file in ground (arith, ih, e)

move_row-Moved :
    (nfc : Bytes → Bytes) (policy : NamePolicy) (f : RenameFaults) (ask : Authorizer)
    (body : Option Bytes) (user : Option ℕ) (id : ℕ) (h : Hub) (file : FileRow) (path : Bytes)
    {h' : Hub}
    → MayMove nfc policy ask body user id h file path
    → rename_checked f h (go (file, path)) ≡ (200, h')
    → Moved nfc policy ask body user id h file path h'
move_row-Moved nfc policy f ask body user id h file path {h'} may e =
    let moved = rename_row-ok f file path h {h' = h'} e in
    let own = first_active-id id h.files file may.row in
    let there =
      has_file-move_rows file.id file.root_id file.logical_path path h.files file
        (subst (λ i. first_active i h.files ≡ ok file) (sym own) may.row) refl refl in
    record {
      may = may;
      arrived = ap (λ (k : Hub). has_file file.root_id path k.files) moved ∙ there;
      directories = ap (λ (k : Hub). k.directories) moved;
    }

-- A rename that answers 200 was asked for by a signed-in user whom the authorizer lets write the
-- file's path and the new one in the file's root; the new path is the one of the request and
-- accepted, no active file had it, and its parent stood. Afterwards an active file of the root has the new
-- path, and no directory has changed.
pub rename_file-Moved :
    (nfc : Bytes → Bytes) (policy : NamePolicy) (f : RenameFaults) (ask : Authorizer)
    (body : Option Bytes) (user : Option ℕ) (id : ℕ) (h : Hub) {h' : Hub}
    → rename_file nfc policy f ask body user id h ≡ (200, h')
    → (file : FileRow) × (path : Bytes) × Moved nfc policy ask body user id h file path h'
unfolding rename_file
rename_file-Moved nfc policy f ask body user id h {h'} e =
    checked_moves (check_rename nfc policy f ask body user id h)
      (check_rename-Ends nfc policy f ask body user id h) e
  where
    checked_moves :
        (c : Check (FileRow × Bytes))
        → Ends (λ (m : FileRow × Bytes). MayMove nfc policy ask body user id h m.0 m.1) c
        → rename_checked f h c ≡ (200, h')
        → (file : FileRow) × (path : Bytes) × Moved nfc policy ask body user id h file path h'
    checked_moves (refuse status) n q = absurd (unfold rename_checked in ground (arith, n, q))
    checked_moves (go (file, path)) may q =
        (file, path, move_row-Moved nfc policy f ask body user id h file path may q)
