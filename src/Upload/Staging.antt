-- ===== src/Upload/Staging.antt =====
-- The staging files and objects of internal/storage/objects_unix.go, as tables from names to
-- contents.
use safe_file_hub.Base.{ℕ, zero, suc, String, Bool, none, some, [], ◌∷◌, Bytes, if◌then◌else◌}
use safe_file_hub.Base.Store.{lookup, insert, erase}
use safe_file_hub.Upload.Data.{World, ok, err, failed, Outcome}

-- `ftruncate`: cuts the file off, or fills it up with zero bytes.
unfoldable pub resize : ℕ → Bytes → Bytes
resize zero s = []
resize (suc n) [] = 0 ∷ resize n []
resize (suc n) (c ∷ s) = c ∷ resize n s

unfoldable pub take : ℕ → Bytes → Bytes
take zero s = []
take (suc n) [] = []
take (suc n) (c ∷ s) = c ∷ take n s

-- `RemoveStaging`: a file that is not there is no error.
unfoldable pub remove_staging : Bool → String → World → Outcome Unit
remove_staging fails name w =
    if fails then (err failed, w) else (ok tt, record w { staging = erase name w.staging })

-- The failures of `PublishStaging`: before the rename, and in the two fsyncs behind it.
pub record PublishFaults : Type 0 where
  pub rename : Bool
  pub sync : Bool

-- `renameat`, with the content that is moved
unfoldable pub move_to_objects : String → String → Bytes → World → World
move_to_objects name key content w = record w {
  staging = erase name w.staging;
  objects = insert key content w.objects;
}

-- `PublishStaging` with the random key that it draws.
unfoldable pub publish_staging : PublishFaults → String → String → World → Outcome Unit
unfolding move_to_objects
publish_staging faults name key w =
    if faults.rename then (err failed, w) else (elim (lookup name w.staging) [
      | none ↦ (err failed, w)
      | some content ↦
          let moved = move_to_objects name key content w in
          (if faults.sync then err failed else ok tt, moved)
    ])

unfoldable pub move_to_staging : String → String → Bytes → World → World
move_to_staging key name content w = record w {
  objects = erase key w.objects;
  staging = insert name content w.staging;
}

-- `RestorePublished`; its failures are those of the rename and of the fsync.
unfoldable pub restore_published : PublishFaults → String → String → World → Outcome Unit
unfolding move_to_staging
restore_published faults key name w =
    if faults.rename then (err failed, w) else (elim (lookup key w.objects) [
      | none ↦ (err failed, w)
      | some content ↦
          let moved = move_to_staging key name content w in
          (if faults.sync then err failed else ok tt, moved)
    ])
