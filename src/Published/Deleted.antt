-- ===== src/Published/Deleted.antt =====
-- What a deletion leaves.
use safe_file_hub.Base.{
  ℕ, suc, ◌≡◌, refl, String, Bool, true, false, ◌||◌, Option, none, some, List, [], ◌∷◌, arith,
  eq_iff, subst,
}
use safe_file_hub.Base.Store.{lookup, lookup-erase}
use safe_file_hub.Published.Data.{FileRow, Hub, Authorizer, ok}
use safe_file_hub.Published.Rows.{
  is_active, first_active, file_by_id, is_pair, mark_deleting, drop_deleting, changed_one,
  begin_file_delete, finalize_file_delete, remove_object,
}
use safe_file_hub.Published.Handlers.{go, check_user, check_allowed, check_found}
use safe_file_hub.Published.Serve.{
  DeleteFaults, check_delete, after_finalize, after_unlink, after_begin, delete_checked,
  delete_file,
}
use safe_file_hub.Published.Served.{asked_as, then_check-go, file_by_id-ok, found_checked}

unfoldable pub has_pair : ℕ → String → List FileRow → Bool
unfolding is_pair
has_pair id key [] = false
has_pair id key (f ∷ fs) = let rest = has_pair id key fs in is_pair f id key || rest

pair_dropped :
    (id : ℕ) (key : String) (fs : List FileRow)
    → has_pair id key (drop_deleting id key (mark_deleting id key fs).0).0 ≡ false
unfolding has_pair is_pair mark_deleting drop_deleting is_active
pair_dropped id key [] = refl
pair_dropped id key (f ∷ fs) = let ih = pair_dropped id key fs in ground (arith, ih)

-- A deletion that answers 204.
pub record Deleted (id : ℕ) (h h' : Hub) (file : FileRow) : Type 0 where
  pub row : first_active id h.files ≡ ok file
  pub no_row : has_pair file.id file.object_key h'.files ≡ false
  pub no_object : lookup file.object_key h'.objects ≡ none

delete_go :
    (f : DeleteFaults) (h : Hub) (file : FileRow) {h' : Hub}
    → delete_checked f h (go file) ≡ (204, h')
    → (has_pair file.id file.object_key h'.files ≡ false)
      × (lookup file.object_key h'.objects ≡ none)
unfolding delete_checked after_begin after_unlink after_finalize begin_file_delete changed_one
    finalize_file_delete remove_object
delete_go f h file {h'} e =
    let a = pair_dropped file.id file.object_key h.files in
    let b = lookup-erase file.object_key file.object_key h.objects in
    let c = eq_iff file.object_key file.object_key in ground (arith, a, b, c, e)

-- The user is signed in, and the authorizer lets the user delete the file.
abbrev pub MayDelete : Authorizer → Option ℕ → FileRow → Type 0
MayDelete ask user file =
    (n : ℕ) × (user ≡ some (suc n))
    × (ask (suc n) file.root_id file.logical_path "delete" ≡ ok true)

check_delete-ok :
    (f : DeleteFaults) (ask : Authorizer) (user : Option ℕ) (id : ℕ) (h : Hub) (file : FileRow)
    → check_delete f ask user id h ≡ go file
    → (first_active id h.files ≡ ok file) × MayDelete ask user file
unfolding check_delete
check_delete-ok f ask user id h file e =
    let (file', b, e2) = then_check-go (check_found (file_by_id f.file id h)) _ e in
    let (uid, u, e3) = then_check-go (check_user user) _ e2 in
    let (v, c, e4) =
      then_check-go (check_allowed (ask uid file'.root_id file'.logical_path "delete"))
        (λ _. go file') e3 in
    let same : file' ≡ file = ground (arith, e4) in
    subst (λ r. (first_active id h.files ≡ ok r) × MayDelete ask user r) same
      (
        file_by_id-ok f.file id h file' (found_checked (file_by_id f.file id h) file' b),
        asked_as ask user uid file'.root_id file'.logical_path "delete" u c,
      )

-- A deletion that passes its checks and answers 204 was asked for by a signed-in user whom the
-- authorizer lets delete the file's path in its root, the file was active, and no row of the file's
-- id and key, tombstones included, and no object of the key is left.
pub delete_file-Deleted :
    (f : DeleteFaults) (ask : Authorizer) (user : Option ℕ) (id : ℕ) (h : Hub) (file : FileRow)
    {h' : Hub}
    → check_delete f ask user id h ≡ go file
    → delete_file f ask user id h ≡ (204, h')
    → MayDelete ask user file × Deleted id h h' file
unfolding delete_file
delete_file-Deleted f ask user id h file {h'} c e =
    let (row, may) = check_delete-ok f ask user id h file c in
    let (a, b) = delete_go f h file {h' = h'} (subst (λ q. delete_checked f h q ≡ (204, h')) c e) in
    (may, record { row = row; no_row = a; no_object = b })
