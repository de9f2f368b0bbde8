-- ===== src/Published/RenameTests.antt =====
-- A file is renamed to a free path, and to the path of a directory.
use safe_file_hub.Base.{
  refl, ◌&&◌, ◌==◌, false, some, [], ◌∷◌, Bytes, codes, bytes_eq, has_prefix, split, contains_byte,
  join,
}
use safe_file_hub.Base.Utf8.{valid_string, runes}
use safe_file_hub.PathPolicy.{NamePolicy, parse_decoded_path}
use safe_file_hub.Published.Data.{active, FileRow, Hub, Authorizer, ok}
use safe_file_hub.Published.Rows.{
  is_active, first_active, first_at, file_by_id, file_by_root_and_path,
}
use safe_file_hub.Published.Handlers.{
  parent_of, check_user, check_allowed, check_found, check_free, check_canonical, check_parent,
}
use safe_file_hub.Published.Rename.{
  move_rows, moved_one, rename_row, taken_by_other, RenameFaults, check_body, check_destination,
  check_rename, after_rename, rename_checked, rename_file,
}
use safe_file_hub.Published.Renamed.{Moved, rename_file-Moved}

abbrev identity : Bytes → Bytes
identity s = s

abbrev any_name : NamePolicy
any_name = record {
  reject_leading_dot = false;
  reject_leading_tilde = false;
  reject_leading_dollar = false;
  reject_leading_hash = false;
}

abbrev file_at : Bytes → FileRow
file_at path = record {
  id = 3;
  root_id = 1;
  logical_path = path;
  object_key = "k";
  size = 0;
  created_by_user_id = 1;
  delete_state = active;
}

abbrev hub_with : Bytes → Hub
hub_with path = record {
  files = file_at path ∷ [];
  directories = (1, codes "/d") ∷ [];
  roots = 1 ∷ [];
  cleanup_jobs = [];
  objects = [];
  next_file_id = 4;
}

abbrev no_rename_faults : RenameFaults
no_rename_faults = record { file = false; destination = false; parent = false; rename = false }

-- The user may write everywhere in the root.
abbrev ask : Authorizer
ask user root path action = ok (user == 1 && root == 1)

rename_file-Moved_example :
    (file : FileRow) × (path : Bytes) × Moved identity any_name ask
      (some (codes "d"))
      (some 1)
      3
      (hub_with (codes "/a"))
      file
      path
      (hub_with (codes "/d"))
unfolding rename_file rename_checked after_rename rename_row move_rows moved_one taken_by_other
    check_rename check_found check_user check_allowed check_body check_canonical check_destination
    check_free check_parent parent_of file_by_id first_active first_at file_by_root_and_path
    is_active parse_decoded_path bytes_eq has_prefix valid_string split contains_byte runes join
rename_file-Moved_example =
    rename_file-Moved identity any_name no_rename_faults ask (some (codes "d")) (some 1) 3
      (hub_with (codes "/a")) {h' = hub_with (codes "/d")} refl
