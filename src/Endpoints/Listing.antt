-- ===== src/Endpoints/Listing.antt =====
-- The handlers of backend/api/routers/backups.py that list backups and keep their notes and stars.
use dbmanager.Base.{
  ℕ, String, Bool, Option, none, some, List, map, ◌||◌, not, str_eq, is_some, keep, text_is_empty,
  if◌then◌else◌,
}
use dbmanager.Base.Outcome.{Reply, ok, http}
use dbmanager.Config.{Manager, Metadata, get_database}
use dbmanager.Config.Settings.{get_backup_metadata, set_backup_metadata}
use dbmanager.Storage.{Object}
use dbmanager.Files.{LocalFile}
use dbmanager.Backups.{BackupPath, Location, Backup, list_backups}

pub record BackupInfo : Type 0 where
  pub path : BackupPath
  pub filename : String
  pub size : ℕ
  pub date : ℕ
  pub database_id : ℕ
  pub has_checksum : Bool
  pub location : Location
  pub notes : Option String
  pub starred : Bool
  pub date_starred : Option ℕ

abbrev pub location_name : Location → String
location_name Location.local = "local"
location_name Location.s3 = "s3"

-- `meta.get("notes") or None`
unfoldable pub backup_info : ℕ → Manager → Backup → BackupInfo
backup_info db m b =
    let meta = get_backup_metadata b.filename m in
    record {
      path = b.path;
      filename = b.filename;
      size = b.size;
      date = b.date;
      database_id = db;
      has_checksum = b.has_checksum;
      location = b.location;
      notes = if text_is_empty meta.notes then none else some meta.notes;
      starred = meta.starred;
      date_starred = meta.date_starred;
    }

-- An empty `location` counts as none.
abbrev pub wanted : Option String → Option String
wanted none = none
wanted (some l) = if text_is_empty l then none else some l

-- `dir` and `objects` are what `DBManager.list_backups` finds.
unfoldable pub list_database_backups :
    ℕ → Option String → List LocalFile → List Object → Manager → Reply (List BackupInfo)
list_database_backups db location dir objects m =
    if not (is_some (get_database db m)) then http 404 else elim (wanted location) [
      | none ↦ ok (map (backup_info db m) (list_backups dir objects))
      | some l ↦
          if not (str_eq l "local" || str_eq l "s3")
          then http 400
          else ok (
              map (backup_info db m)
                (keep (λ b. str_eq (location_name b.location) l) (list_backups dir objects)))
    ]

pub record BackupMetadataUpdate : Type 0 where
  pub filename : String
  pub notes : Option String
  pub starred : Option Bool

unfoldable pub update_backup_metadata : ℕ → BackupMetadataUpdate → Manager → Metadata × Manager
update_backup_metadata now body m =
    let m' = set_backup_metadata now body.filename body.notes body.starred m in
    (get_backup_metadata body.filename m', m')
