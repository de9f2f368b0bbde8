-- ===== src/Published/Served.antt =====
-- What a download serves.
use safe_file_hub.Base.{
  ℕ, zero, suc, ◌≡◌, refl, String, Bool, true, false, Option, none, some, List, [], ◌∷◌, ◌++◌,
  arith, inl, inr, Bytes, length, ap, subst, ◌∙◌, ◌<◌,
}
use safe_file_hub.Base.Store.{lookup}
use safe_file_hub.Published.Data.{
  FileRow, Hub, not_found, conflict, failed, Answer, Authorizer, ok, err,
}
use safe_file_hub.Published.Rows.{is_active, first_active, file_by_id, storage_root_by_id}
use safe_file_hub.Published.Handlers.{
  Check, refuse, go, then_check, Target, new_row, check_found, check_user, check_allowed,
}
use safe_file_hub.Published.Serve.{
  refused, whole, DownloadFaults, hidden_user, hidden_allowed, serve_range, serve_object,
  open_and_serve, serve_checked, check_download, download_file,
}
use safe_file_hub.Published.Checked.{allowed_go}
use safe_file_hub.Published.Created.{Created, Check-cases}

-- What lets a download answer with content.
pub record MayRead (ask : Authorizer) (user : Option ℕ) (id : ℕ) (h : Hub) (file : FileRow)
    : Type 0 where
  pub permitted :
      (n : ℕ) × (user ≡ some (suc n))
      × (ask (suc n) file.root_id file.logical_path "read" ≡ ok true)
  pub row : first_active id h.files ≡ ok file

open_whole :
    (f : DownloadFaults) (range : Option Bytes) (file : FileRow) (o : Option Bytes) {body : Bytes}
    → open_and_serve f range file o ≡ whole body
    → (o ≡ some body) × (length body ≡ file.size)
unfolding open_and_serve serve_object serve_range
open_whole f range file none e = absurd (ground (arith, e))
open_whole f none file (some content) e = (ground (arith, e), ground (arith, e))
open_whole f (some raw) file (some content) e = absurd (ground (arith, e))

serve_whole :
    (f : DownloadFaults) (range : Option Bytes) (h : Hub) (c : Check FileRow) {body : Bytes}
    → serve_checked f range h c ≡ whole body
    → (file : FileRow) × (c ≡ go file)
      × (lookup file.object_key h.objects ≡ some body)
      × (length body ≡ file.size)
unfolding serve_checked
serve_whole f range h (refuse status) e = absurd (ground (arith, e))
serve_whole f range h (go file) {body} e =
    let (a, b) = open_whole f range file (lookup file.object_key h.objects) e in (file, refl, a, b)

-- The checks one by one.
user_checked :
    (user : Option ℕ) (n : ℕ)
    → hidden_user user ≡ go n
    → (m : ℕ) × (user ≡ some (suc m)) × (n ≡ suc m)
unfolding hidden_user
user_checked none n e = absurd (ground (arith, e))
user_checked (some zero) n e = absurd (ground (arith, e))
user_checked (some (suc m)) n e = (m, refl, ground (arith, e))

allowed_checked : (allowed : Answer Bool) → hidden_allowed allowed ≡ go tt → allowed ≡ ok true
unfolding hidden_allowed
allowed_checked (err b) e = absurd (ground (arith, e))
allowed_checked (ok true) e = refl
allowed_checked (ok false) e = absurd (ground (arith, e))

-- The user whom a handler has let through is the one that it asks the authorizer about.
pub asked_as :
    (ask : Authorizer) (user : Option ℕ) (uid root : ℕ) (path : Bytes) (action : String)
    → check_user user ≡ go uid
    → check_allowed (ask uid root path action) ≡ go tt
    → (n : ℕ) × (user ≡ some (suc n)) × (ask (suc n) root path action ≡ ok true)
unfolding check_user
asked_as ask none uid root path action u c = absurd (ground (arith, u))
asked_as ask (some zero) uid root path action u c = absurd (ground (arith, u))
asked_as ask (some (suc n)) uid root path action u c =
    let same : uid ≡ suc n = ground (arith, u) in
    (
      n,
      refl,
      subst (λ k. ask k root path action ≡ ok true) same (allowed_go (ask uid root path action) c),
    )

pub found_checked : {A : Type 0} → (o : Answer A) (a : A) → check_found o ≡ go a → o ≡ ok a
unfolding check_found
found_checked (ok b) a e = ground (arith, e)
found_checked (err not_found) a e = absurd (ground (arith, e))
found_checked (err conflict) a e = absurd (ground (arith, e))
found_checked (err failed) a e = absurd (ground (arith, e))

pub then_check-go :
    {A B : Type 0}
    → (c : Check A) (rest : A → Check B) {b : B} → then_check c rest ≡ go b
    → (a : A) × (c ≡ go a) × (rest a ≡ go b)
then_check-go (refuse status) rest e = absurd (ground (arith, e))
then_check-go (go a) rest e = (a, refl, e)

pub file_by_id-ok :
    (fails : Bool) (id : ℕ) (h : Hub) (file : FileRow)
    → file_by_id fails id h ≡ ok file
    → first_active id h.files ≡ ok file
unfolding file_by_id
file_by_id-ok fails id h file e = ground (arith, e)

permitted_as :
    (ask : Authorizer) (user : Option ℕ) (n : ℕ) (file : FileRow)
    → hidden_user user ≡ go n
    → hidden_allowed (ask n file.root_id file.logical_path "read") ≡ go tt
    → (m : ℕ) × (user ≡ some (suc m))
      × (ask (suc m) file.root_id file.logical_path "read" ≡ ok true)
permitted_as ask user n file a c =
    let (m, u, q) = user_checked user n a in
    (
      m,
      u,
      subst (λ k. ask k file.root_id file.logical_path "read" ≡ ok true) q
          (allowed_checked (ask n file.root_id file.logical_path "read") c),
    )

check_download-MayRead :
    (f : DownloadFaults) (ask : Authorizer) (user : Option ℕ) (id : ℕ) (h : Hub) (file : FileRow)
    → check_download f ask user id h ≡ go file
    → MayRead ask user id h file
unfolding check_download
check_download-MayRead f ask user id h file e =
    let (n, a, e1) = then_check-go (hidden_user user) _ e in
    let (file', b, e2) = then_check-go (check_found (file_by_id f.file id h)) _ e1 in
    let (u, c, e3) =
      then_check-go (hidden_allowed (ask n file'.root_id file'.logical_path "read")) _ e2 in
    let (v, d, e4) =
      then_check-go (check_found (storage_root_by_id f.root file'.root_id h)) (λ _. go file') e3 in
    let same : file' ≡ file = ground (arith, e4) in
    subst (MayRead ask user id h) same (record {
      permitted = permitted_as ask user n file' a c;
      row = file_by_id-ok f.file id h file' (found_checked (file_by_id f.file id h) file' b);
    })

-- A download answers with the whole content only to a signed-in user whom the authorizer lets
-- read the path of an active file in its root, and then the body is the object of the file's row,
-- of the row's size.
pub download_file-MayRead :
    (f : DownloadFaults) (range : Option Bytes) (ask : Authorizer) (user : Option ℕ) (id : ℕ)
    (h : Hub) {body : Bytes}
    → download_file f range ask user id h ≡ whole body
    → (file : FileRow) × MayRead ask user id h file
      × (lookup file.object_key h.objects ≡ some body)
      × (length body ≡ file.size)
unfolding download_file
download_file-MayRead f range ask user id h e =
    let (file, a, b, c) = serve_whole f range h (check_download f ask user id h) e in
    (file, check_download-MayRead f ask user id h file a, b, c)

first_active-append :
    (id : ℕ) (fs : List FileRow) (r : FileRow)
    → first_active id fs ≡ err not_found
    → first_active id (fs ++ r ∷ []) ≡ first_active id (r ∷ [])
unfolding first_active
first_active-append id [] r e = refl
first_active-append id (f ∷ fs) r e = let ih = first_active-append id fs r in ground (arith, e, ih)

open_unreadable :
    (f : DownloadFaults) (range : Option Bytes) (file : FileRow) (content : Bytes)
    → file.size ≡ 0
    → 0 < length content
    → open_and_serve f range file (some content) ≡ refused 404
unfolding open_and_serve serve_object
open_unreadable f range file content zero_size full = ground (arith, zero_size, full)

new_row-found :
    (t : Target) (key : String) (content : Bytes) (h h' : Hub) (file : FileRow)
    → Created t key content h h'
    → first_active h.next_file_id h.files ≡ err not_found
    → first_active h.next_file_id h'.files ≡ ok file
    → file ≡ record (new_row t key) { id = h.next_file_id }
unfolding first_active is_active new_row
new_row-found t key content h h' file made fresh row =
    let a =
      first_active-append h.next_file_id h.files (record (new_row t key) { id = h.next_file_id })
        fresh in
    let b = ap (first_active h.next_file_id) made.files in ground (arith, a, b, row)

-- A file that has been created with content, under an id that no active row had, is never served:
-- its row says that it is empty.
pub Created-unreadable :
    (t : Target) (key : String) (content : Bytes) (h h' : Hub)
    → Created t key content h h'
    → first_active h.next_file_id h.files ≡ err not_found
    → 0 < length content
    → (f : DownloadFaults) (range : Option Bytes) (ask : Authorizer) (user : Option ℕ)
    → (status : ℕ) × (download_file f range ask user h.next_file_id h' ≡ refused status)
unfolding download_file serve_checked new_row
Created-unreadable t key content h h' made fresh full f range ask user =
    elim (Check-cases (check_download f ask user h.next_file_id h')) [
      | inl (status, e) ↦ (status, ap (serve_checked f range h') e)
      | inr (file, e) ↦
          let may = check_download-MayRead f ask user h.next_file_id h' file e in
          let same = new_row-found t key content h h' file made fresh may.row in
          let there = ap (λ (r : FileRow). lookup r.object_key h'.objects) same ∙ made.object in
          (
            404,
            ap (serve_checked f range h') e
                ∙ (ap (open_and_serve f range file) there
                    ∙ open_unreadable f range file content (ap (λ (r : FileRow). r.size) same)
                        full),
          )
    ]
