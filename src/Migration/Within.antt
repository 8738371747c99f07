-- ===== src/Migration/Within.antt =====
-- A migration of a target to itself.
use dbmanager.Base.{ℕ, String, ◌≡◌, true, none, some, arith}
use dbmanager.Storage.{Bytes}
use dbmanager.Storage.Targets.{Targets, IsTargets}
use dbmanager.Migration.{Progress, after_upload, migrate_file}

module _ (t : Targets) (lawful : IsTargets t) (i : ℕ) where
  -- Where both targets are the same and the old files are to be deleted, the file is uploaded over
  -- itself and then deleted: after a move that meets no error it is in no target any more.
  pub migrate_file_self :
      (k : String) (b : Bytes) (p : Progress t)
      → t.download i k p.world ≡ some (some b)
      → (t.upload i b k p.world).0 ≡ some true
      → (t.delete i k (t.upload i b k p.world).1).0 ≡ some true
      → t.download i k (migrate_file t i i true k p).world ≡ some none
  unfolding migrate_file after_upload
  migrate_file_self k b p h u d =
      ground (arith, lawful.download-delete i k (t.upload i b k p.world).1 d)
