-- ===== src/Published/DirectoryTests.antt =====
-- Directories of one storage root, with a LIKE that knows both wildcards and the case of letters.
use safe_file_hub.Base.{
  ℕ, ◌+◌, ◌≡◌, refl, ap, inl, inr, Bool, true, false, ◌&&◌, ◌||◌, some, List, [], ◌∷◌, ◌++◌, leb,
  ◌==◌, Bytes, codes, bytes_eq, has_prefix, split, contains_byte, join, if◌then◌else◌, arith,
}
use safe_file_hub.Base.Int.{pos}
use safe_file_hub.Base.Utf8.{valid_string, runes}
use safe_file_hub.PathPolicy.{NamePolicy, parse_decoded_path, slash}
use safe_file_hub.Published.Data.{ok}
use safe_file_hub.Published.Rows.{
  is_active, first_at, file_by_root_and_path, is_directory, directory_by_root_and_path, is_root,
  storage_root_by_id,
}
use safe_file_hub.Published.Handlers.{
  go, parent_of, all_but_last, check_user, check_allowed, check_found, check_free, check_root_id,
  check_canonical, check_parent, then_check, Target,
}
use safe_file_hub.Published.Directories.{
  DirectoryRow, Tree, pairs, hub_of, Like, files_like, directories_like, has_ancestor, directory_at,
  file_at_path, DirectoryRequest, DirectoryFaults, check_directory_request, check_directory_target,
  create_directory, first_directory, directory_by_id, files_under, directories_under,
  directory_empty, is_blocked, drop_rows, dropped_one, drop_directory, DeleteFaults, check_empty,
  check_delete_directory, after_delete, delete_directory_checked, delete_directory,
}
use safe_file_hub.Published.Parents.{LikesOwn, Parented}
use safe_file_hub.Published.Trees.{
  creates, deletes, perform_all, perform_all-Parented, Emptied, delete_directory-Emptied, Orphan,
  create_directory-Orphan,
}

fold_case : ℕ → ℕ
fold_case c = if leb b'A' c && leb c b'Z' then c + 32 else c

any_tail : (Bytes → Bool) → Bytes → Bool
any_tail m [] = m []
any_tail m (c ∷ s) = m (c ∷ s) || any_tail m s

one_byte : ℕ → (Bytes → Bool) → Bytes → Bool
one_byte c m [] = false
one_byte c m (d ∷ s) = (c == b'_' || fold_case c == fold_case d) && m s

fits : Bytes → Bytes → Bool
fits [] [] = true
fits [] (c ∷ s) = false
fits (c ∷ p) s = if c == b'%' then any_tail (fits p) s else one_byte c (fits p) s

abbrev sql_like : Like
sql_like text pattern = fits pattern text

any_tail-here : (m : Bytes → Bool) (s : Bytes) → m s ≡ true → any_tail m s ≡ true
unfolding any_tail
any_tail-here m [] h = h
any_tail-here m (c ∷ s) h = ground (arith, h)

any_tail-end : (s : Bytes) → any_tail (fits []) s ≡ true
unfolding any_tail fits
any_tail-end [] = refl
any_tail-end (c ∷ s) = let ih = any_tail-end s in ground (arith, ih)

fold_case_refl : (c : ℕ) → (fold_case c == fold_case c) ≡ true
fold_case_refl c = ground arith

sql_like-LikesOwn : LikesOwn sql_like
unfolding fits any_tail one_byte fold_case
sql_like-LikesOwn [] s = any_tail-end s
sql_like-LikesOwn (c ∷ p) s =
    let ih = sql_like-LikesOwn p s in
    let here = any_tail-here (fits (p ++ codes "/%")) (p ++ slash ∷ s) ih in
    ground (arith, ih, here, fold_case_refl c)

abbrev identity : Bytes → Bytes
identity s = s

abbrev any_name : NamePolicy
any_name = record {
  reject_leading_dot = false;
  reject_leading_tilde = false;
  reject_leading_dollar = false;
  reject_leading_hash = false;
}

abbrev directory : ℕ → Bytes → DirectoryRow
directory id path = record { id = id; root_id = 1; logical_path = path; created_by_user_id = 1 }

abbrev top : DirectoryRow
top = directory 1 (codes "/a")

abbrev middle : DirectoryRow
middle = directory 2 (codes "/a/b")

abbrev tree : List DirectoryRow → Tree
tree rows = record { rows = rows; files = []; roots = 1 ∷ []; next_id = 3 }

abbrev both : Tree
both = tree (top ∷ middle ∷ [])

abbrev only_top : Tree
only_top = tree (top ∷ [])

abbrev no_directory_faults : DirectoryFaults
no_directory_faults = record { root = false; parent = false; destination = false; insert = false }

abbrev no_delete_faults : DeleteFaults
no_delete_faults = record { directory = false; empty = false; delete = false }

abbrev request : DirectoryRequest
request = record { root_id = pos 1; path = codes "a/b/c" }

abbrev target : Target
target = record { user = 1; root = 1; path = codes "/a/b/c" }

both-Parented : Parented both
unfolding parent_of directory_at bytes_eq all_but_last split join
both-Parented = (inl refl, (inr refl, tt))

perform_all-Parented_example : Parented (
    perform_all identity any_name sql_like
      (creates no_directory_faults (ok true) (some request) (some 1)
        ∷ deletes no_delete_faults (ok true) (some 1) 2
        ∷ [])
      both)
perform_all-Parented_example =
    perform_all-Parented identity any_name sql_like sql_like-LikesOwn
      (creates no_directory_faults (ok true) (some request) (some 1)
        ∷ deletes no_delete_faults (ok true) (some 1) 2
        ∷ [])
      both both-Parented

passes_deletion : check_delete_directory no_delete_faults (ok true) (some 1) 2 both ≡ go middle
unfolding check_delete_directory check_found check_user check_allowed check_empty directory_by_id
    directory_empty first_directory files_under directories_under has_prefix
passes_deletion = refl

deletes_middle :
    delete_directory sql_like no_delete_faults (λ v. v) (ok true) (some 1) 2 both ≡ (204, only_top)
unfolding check_delete_directory check_found check_user check_allowed check_empty directory_by_id
    directory_empty first_directory files_under directories_under has_prefix delete_directory
    delete_directory_checked after_delete drop_directory is_blocked drop_rows dropped_one files_like
    directories_like fits any_tail one_byte fold_case
deletes_middle = refl

delete_directory-Emptied_example : (ok true ≡ ok true) × Emptied 2 both only_top
delete_directory-Emptied_example =
    delete_directory-Emptied sql_like no_delete_faults (λ v. v) (ok true) (some 1) 2 middle both
      only_top sql_like-LikesOwn passes_deletion deletes_middle

-- Another client deletes the parent meanwhile.
abbrev others : Tree → Tree
others v = (delete_directory sql_like no_delete_faults (λ u. u) (ok true) (some 1) 2 v).1

meanwhile : others both ≡ only_top
meanwhile = ap (λ r. r.1) deletes_middle

passes_creation :
    then_check
      (check_directory_request identity any_name (some request) (some 1))
      (check_directory_target no_directory_faults (ok true) both)
    ≡ go target
unfolding check_directory_request check_directory_target check_root_id check_canonical check_user
    check_allowed check_found check_free check_parent hub_of pairs parent_of all_but_last
    storage_root_by_id is_root directory_by_root_and_path is_directory file_by_root_and_path
    first_at is_active parse_decoded_path bytes_eq has_prefix valid_string split contains_byte runes
    join
passes_creation = refl

create_directory-Orphan_example :
    ((create_directory identity any_name sql_like no_directory_faults others
        (ok true)
        (some request)
        (some 1)
        both).0
      ≡ 201)
    × Orphan 1
        (codes "/a/b/c")
        (create_directory identity any_name sql_like no_directory_faults others
          (ok true)
          (some request)
          (some 1)
          both).1
unfolding parent_of all_but_last split join bytes_eq directory_at has_ancestor file_at_path is_root
    fits any_tail one_byte fold_case
create_directory-Orphan_example =
    create_directory-Orphan identity any_name sql_like no_directory_faults others (ok true)
      (some request) (some 1) both target passes_creation refl (λ e. ground (arith, e))
      (rw meanwhile refl) (rw meanwhile refl) (rw meanwhile refl) (rw meanwhile refl)
      (rw meanwhile refl)
