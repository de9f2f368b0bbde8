-- ===== src/Upload/Survives.antt =====
-- A session that can go on survives `Recover`.
use safe_file_hub.Base.{Bytes}
use safe_file_hub.Upload.Data.{UploadSession, World}
use safe_file_hub.Upload.Recovered.{Stands}
use safe_file_hub.Upload.Recover.{RecoveryReport, Recovered}

module _ (s : UploadSession) (content : Bytes) where
  -- What comes behind a step on the world, whatever report it gets.
  Continues : (RecoveryReport → World → Recovered) → Type 0
  Continues rest =
      (rep : RecoveryReport) (w : World) → Stands s content w → Stands s content (rest rep w).1.1
