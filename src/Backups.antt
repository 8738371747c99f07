-- ===== src/Backups.antt =====
-- The backups of one database in backend/core/manager.py: `list_backups`, `_enforce_retention` and
-- `_enforce_s3_retention`. Sizes are in bytes and times are numbers. The local directory of the
-- database is a list of files; a path is a file of that directory or an S3 key.
pub mod Retention
pub mod Archives
pub mod Starred
mod Tests
use dbmanager.Base.{
  ℕ, ◌+◌, String, Bool, true, false, Option, none, some, List, [], ◌∷◌, ◌++◌, map, ◌&&◌, ◌||◌, not,
  ltb, str_eq, keep, any, length, drop, if◌then◌else◌,
}
use dbmanager.Base.Text.{ends_with, basename, add}
use dbmanager.Base.Sort.{sort_desc}
use dbmanager.Files.{LocalFile, has_file, unlink}
use dbmanager.Storage.{Provider, Object}

pub data BackupPath : Type 0 where
  file : String → BackupPath
  key : String → BackupPath

pub data Location : Type 0 where
  local s3 : Location

pub record Backup : Type 0 where
  pub filename : String
  pub path : BackupPath
  pub date : ℕ
  pub size : ℕ
  pub location : Location
  pub has_checksum : Bool

-- The glob patterns, each `*` and a suffix.
abbrev pub patterns : List String
patterns = ".sql" ∷ ".dump" ∷ ".bak" ∷ ".tar.gz" ∷ ".gz" ∷ ".enc" ∷ ".zst" ∷ ".lz4" ∷ []

-- `f"{name}.sha256"`
abbrev pub sha256 : String → String
sha256 name = add name ".sha256"

unfoldable pub local_backup : List LocalFile → LocalFile → Backup
unfolding has_file
local_backup dir f = record {
  filename = f.name;
  path = file f.name;
  date = f.mtime;
  size = f.size;
  location = local;
  has_checksum = has_file (sha256 f.name) dir;
}

-- `backup_dir.glob(pattern)` without the checksum files
unfoldable pub globbed : String → List LocalFile → List LocalFile
globbed suffix dir = keep (λ f. ends_with suffix f.name && not (ends_with ".sha256" f.name)) dir

-- The local part: one pass over the directory for each pattern, in the order of the patterns.
unfoldable pub local_backups : List String → List LocalFile → List Backup
unfolding globbed
local_backups [] dir = []
local_backups (p ∷ ps) dir = map (local_backup dir) (globbed p dir) ++ local_backups ps dir

unfoldable pub s3_backup : List Object → Object → Backup
s3_backup os o = record {
  filename = basename o.key;
  path = key o.key;
  date = o.last_modified;
  size = o.size;
  location = s3;
  has_checksum = any (λ f. str_eq f.key (sha256 o.key)) os;
}

unfoldable pub s3_backups : List Object → List Backup
s3_backups os = map (s3_backup os) (keep (λ o. not (ends_with ".sha256" o.key)) os)

-- `list_backups`, given what the S3 part lists: nothing where no bucket is configured or an
-- exception was swallowed.
unfoldable pub list_backups : List LocalFile → List Object → List Backup
list_backups dir os = sort_desc (λ b. b.date) (local_backups patterns dir ++ s3_backups os)

-- The `try` block of the retention loop. Where there is no such file `unlink` raises, the exception
-- is swallowed, and the checksum file is left; an S3 key names no file of the working directory.
unfoldable pub delete_path : BackupPath → List LocalFile → List LocalFile
unfolding unlink has_file
delete_path (key k) dir = dir
delete_path (file n) dir = if has_file n dir then unlink (sha256 n) (unlink n dir) else dir

-- The body of the retention loop.
unfoldable pub delete_backup : (String → Bool) → Backup → List LocalFile → List LocalFile
delete_backup starred b dir = if starred b.filename then dir else delete_path b.path dir

unfoldable pub delete_backups : (String → Bool) → List Backup → List LocalFile → List LocalFile
unfolding delete_backup delete_path
delete_backups starred [] dir = dir
delete_backups starred (b ∷ bs) dir = delete_backups starred bs (delete_backup starred b dir)

-- `_enforce_retention`: `backups[keep_last:]` is empty unless there are more than `keep_last`
unfoldable pub enforce_retention :
    (String → Bool) → ℕ → List Object → List LocalFile → List LocalFile
enforce_retention starred keep_last os dir =
    delete_backups starred (drop keep_last (list_backups dir os)) dir

-- `_enforce_s3_retention`
module _ (p : Provider) where
  -- An exception of the first deletion skips the second one.
  unfoldable pub delete_object : (String → Bool) → Object → p.Store → p.Store
  delete_object starred o s =
      if starred (basename o.key)
      then s
      else let (done, s') = p.delete_file o.key s in
        elim done [ none ↦ s' | some _ ↦ (p.delete_file (sha256 o.key) s').1 ]

  unfoldable pub delete_objects : (String → Bool) → List Object → p.Store → p.Store
  unfolding delete_object
  delete_objects starred [] s = s
  delete_objects starred (o ∷ os) s = delete_objects starred os (delete_object starred o s)

  unfoldable pub enforce_s3_retention : (String → Bool) → String → ℕ → p.Store → p.Store
  unfolding delete_objects
  enforce_s3_retention starred prefix keep_last s = elim (p.list_files prefix s) [
    | none ↦ s
    | some os ↦ delete_objects starred (drop keep_last (sort_desc (λ o. o.last_modified) os)) s
  ]
