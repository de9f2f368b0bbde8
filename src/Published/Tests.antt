-- ===== src/Published/Tests.antt =====
-- The theorems on published files at a concrete hub.
use safe_file_hub.Base.{
  ℕ, ◌≡◌, refl, ◌&&◌, ◌==◌, true, false, none, some, [], ◌∷◌, ◌++◌, Bytes, codes, length, arith,
}
use safe_file_hub.Base.Int.{pos}
use safe_file_hub.Base.Store.{lookup, insert, erase}
use safe_file_hub.PathPolicy.{NamePolicy}
use safe_file_hub.Published.Data.{active, FileRow, Hub, Authorizer, ok}
use safe_file_hub.Published.Rows.{
  is_active, first_active, file_by_id, storage_root_by_id, is_root, RemoveFaults, is_job, is_pair,
  mark_deleting, drop_deleting, changed_one, begin_file_delete, finalize_file_delete, remove_object,
}
use safe_file_hub.Published.Handlers.{
  CreateFaults, FileCreateRequest, Target, create_file, new_row, check_found, check_user,
  check_allowed,
}
use safe_file_hub.Published.Serve.{
  refused, DownloadFaults, download_file, check_download, serve_checked, open_and_serve,
  serve_object, hidden_user, hidden_allowed, DeleteFaults, check_delete, delete_checked,
  after_begin, after_unlink, after_finalize, delete_file,
}
use safe_file_hub.Published.Recovery.{ItemFaults, PassFaults, recover}
use safe_file_hub.Published.Lost.{Lost, hub_of, recover-Lost}
use safe_file_hub.Published.Created.{Created, CreationEnds, create_file-Ends}
use safe_file_hub.Published.Served.{MayRead, download_file-MayRead, Created-unreadable}
use safe_file_hub.Published.Deleted.{Deleted, MayDelete, delete_file-Deleted}

abbrev no_remove : RemoveFaults
no_remove = record { unlink = false; sync = false }

abbrev no_create_faults : CreateFaults
no_create_faults = record {
  root = false;
  parent = false;
  destination = false;
  content = record { create = false; write = false; remove = no_remove };
  row = false;
  enqueue = false;
  remove = no_remove;
  complete = false;
}

abbrev no_item_faults : ItemFaults
no_item_faults = record { cancelled = false; remove = no_remove; update = false }

abbrev no_pass_faults : PassFaults
no_pass_faults = record {
  jobs = false;
  files = false;
  job = λ i. no_item_faults;
  tombstone = λ i. no_item_faults;
}

abbrev a_file : FileRow
a_file = record {
  id = 3;
  root_id = 1;
  logical_path = codes "/a";
  object_key = "k";
  size = 2;
  created_by_user_id = 1;
  delete_state = active;
}

abbrev hub : Hub
hub = record {
  files = a_file ∷ [];
  directories = [];
  roots = 1 ∷ [];
  cleanup_jobs = "gone" ∷ [];
  objects = ("k", 7 ∷ 8 ∷ []) ∷ [];
  next_file_id = 4;
}

abbrev plain : Bytes → Bytes
plain s = s

abbrev lax : NamePolicy
lax = record {
  reject_leading_dot = false;
  reject_leading_tilde = false;
  reject_leading_dollar = false;
  reject_leading_hash = false;
}

abbrev request : FileCreateRequest
request = record { root_id = pos 1; path = codes "b"; content = 9 ∷ [] }

recover-Lost_example : Lost "gone" (hub_of (recover no_pass_faults 10 hub))
unfolding lookup is_job
recover-Lost_example =
    recover-Lost "gone" no_pass_faults 10 hub (record { gone = refl; job = refl })

-- The user may do everything in the root.
abbrev ask : Authorizer
ask user root path action = ok (user == 1 && root == 1)

create_file-Ends_example :
    CreationEnds plain lax ask "new" request
      (some 1)
      hub
      (create_file plain lax true no_create_faults ask "new" (some request) (some 1) hub)
unfolding lookup
create_file-Ends_example =
    create_file-Ends plain lax true no_create_faults ask "new" request (some 1) hub refl
      (refl, refl) refl

abbrev target : Target
target = record { user = 1; root = 1; path = codes "/b" }

abbrev behind : Hub
behind = record hub {
  files = hub.files ++ record (new_row target "new") { id = 4 } ∷ [];
  objects = insert "new" (9 ∷ []) hub.objects;
  next_file_id = 5;
}

behind-Created : Created target "new" (9 ∷ []) hub behind
unfolding lookup insert
behind-Created = record { files = refl; object = refl }

abbrev no_download_faults : DownloadFaults
no_download_faults = record { file = false; root = false; open_object = false; seek = false }

Created-unreadable_example :
    (status : ℕ) × (download_file no_download_faults none ask (some 1) 4 behind ≡ refused status)
unfolding first_active is_active
Created-unreadable_example =
    Created-unreadable target "new" (9 ∷ []) hub behind behind-Created refl (omega arith)
      no_download_faults none ask (some 1)

download_file-MayRead_example :
    (file : FileRow) × MayRead ask (some 1) 3 hub file
    × (lookup file.object_key hub.objects ≡ some (7 ∷ 8 ∷ []))
    × (length {A = ℕ} (7 ∷ 8 ∷ []) ≡ file.size)
unfolding download_file check_download serve_checked open_and_serve serve_object hidden_user
    hidden_allowed check_found file_by_id storage_root_by_id first_active is_active is_root lookup
download_file-MayRead_example =
    download_file-MayRead no_download_faults none ask (some 1) 3 hub refl

abbrev no_delete_faults : DeleteFaults
no_delete_faults = record { file = false; begin = false; remove = no_remove; finalize = false }

delete_file-Deleted_example :
    MayDelete ask (some 1) a_file
    × Deleted 3 hub (delete_file no_delete_faults ask (some 1) 3 hub).1 a_file
unfolding delete_file check_delete delete_checked after_begin after_unlink after_finalize
    check_found check_user check_allowed file_by_id first_active is_active begin_file_delete
    finalize_file_delete changed_one mark_deleting drop_deleting is_pair remove_object lookup erase
delete_file-Deleted_example =
    delete_file-Deleted no_delete_faults ask (some 1) 3 hub a_file refl refl
