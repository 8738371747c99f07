-- ===== src/Backups/Tests.antt =====
-- Retention on a directory of two archives.
use dbmanager.Base.{
  ℕ, ◌≤◌, String, ◌≡◌, refl, Bool, true, false, none, some, List, [], ◌∷◌, ◌&&◌, ◌||◌, not, any,
  All, take, drop,
}
use dbmanager.Base.Text.{ends_with}
use dbmanager.Files.{LocalFile, binary, has_file}
use dbmanager.Backups.{list_backups, enforce_retention}
use dbmanager.Backups.Retention.{path_is, enforce_retention-leaves}
use dbmanager.Config.{Config, Manager}
use dbmanager.Config.Settings.{set_backup_metadata}
use dbmanager.Backups.Starred.{MetadataUpdate, update_all, starred_in, starred_backup-stays}
use dbmanager.Backups.Archives.{retention_of_one-deletes_archive}

abbrev archive : String → ℕ → LocalFile
archive n date = record { name = n; mtime = date; size = 10; content = binary [] }

abbrev two_archives : List LocalFile
two_archives = archive "old.tar.gz" 1 ∷ archive "new.tar.gz" 2 ∷ []

abbrev none_starred : String → Bool
none_starred _ = false

no_sum : ends_with ".sha256" "new.tar.gz" ≡ false
unfolding ends_with
no_sum = refl

is_archive : ends_with ".tar.gz" "new.tar.gz" ≡ true
unfolding ends_with
is_archive = refl

enforce_retention-leaves_example :
    (has_file "new.tar.gz" (enforce_retention none_starred 2 [] two_archives) ≡ (
      has_file "new.tar.gz" two_archives
      && (none_starred "new.tar.gz"
          || not (any (λ b. path_is "new.tar.gz" b.path) (drop 2 (list_backups two_archives []))))))
    × All
        (λ x. All (λ y. y.date ≤ x.date) (drop 2 (list_backups two_archives [])))
        (take 2 (list_backups two_archives []))
enforce_retention-leaves_example =
    enforce_retention-leaves none_starred 2 [] two_archives "new.tar.gz" no_sum

retention_of_one-deletes_archive_example :
    has_file "new.tar.gz" (enforce_retention none_starred 1 [] two_archives) ≡ false
retention_of_one-deletes_archive_example =
    retention_of_one-deletes_archive none_starred [] two_archives "new.tar.gz" is_archive no_sum
      refl

abbrev config : Config
config = record {
  databases = [];
  storage_targets = [];
  s3_buckets = none;
  config_sync_bucket_id = none;
  schedules = [];
  global_settings = none;
  backup_metadata = λ f. none;
  ping_settings = none;
}

abbrev manager : Manager
manager = record { config = config; disk = config }

-- The star is kept by a note on the backup, and by taking the star off another one.
abbrev updates : List MetadataUpdate
updates =
    record { now = 6; filename = "new.tar.gz"; notes = some "before the upgrade"; starred = none }
    ∷ record { now = 7; filename = "old.tar.gz"; notes = none; starred = some false }
    ∷ []

starred_backup-stays_example :
    let m' = update_all updates (set_backup_metadata 5 "new.tar.gz" none (some true) manager) in
    has_file "new.tar.gz" (enforce_retention (starred_in m') 1 [] two_archives)
    ≡ has_file "new.tar.gz" two_archives
starred_backup-stays_example =
    starred_backup-stays "new.tar.gz" 5 none updates manager 1 [] two_archives no_sum
      (refl, (refl, tt))
