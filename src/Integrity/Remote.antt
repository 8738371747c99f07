-- ===== src/Integrity/Remote.antt =====
-- The check of a backup on a storage target: the branch for `s3` of `verify_backup_integrity` of
-- backend/core/manager.py. `none` is an exception; `decode` is the split of a line into words.
use dbmanager.Base.{
  ℕ, String, Bool, Option, none, some, List, [], ◌∷◌, ◌==◌, text_is_empty, str_eq, if◌then◌else◌,
}
use dbmanager.Base.Text.{basename}
use dbmanager.Config.{Manager, get_database, truthy_id}
use dbmanager.Storage.{Bytes}
use dbmanager.Storage.Targets.{Targets}
use dbmanager.Files.{Content, LocalFile, Dir, binary, words}
use dbmanager.Backups.{sha256}
use dbmanager.Protect.{Tools}
use dbmanager.Integrity.{verify_backup}

abbrev pub temp_file : String → Content → LocalFile
temp_file n c = record { name = n; mtime = 0; size = 0; content = c }

module _ (t : Tools) (s : Targets) (decode : Bytes → List String) where
  -- The temporary directory: a checksum that could not be downloaded is not there.
  abbrev pub temp_dir : String → Bytes → Option Bytes → Dir
  temp_dir n b sum =
      temp_file n (binary b)
      ∷ elim sum [ none ↦ [] | some c ↦ temp_file (sha256 n) (words (decode c)) ∷ [] ]

  -- The file is downloaded, and `hash` is the one in its metadata.
  unfoldable pub verify_download : ℕ → String → Option String → Bytes → s.World → Option Bool
  verify_download i key hash b world = elim (s.get_file_info i (sha256 key) world) [
    | none ↦ none
    | some info ↦ elim info [
      | some _ ↦ elim (s.download i (sha256 key) world) [
        | none ↦ none
        | some sum ↦ some (verify_backup t (basename key) (temp_dir (basename key) b sum)).valid
      ]
      | none ↦ elim hash [
        | none ↦ none
        | some h ↦ if text_is_empty h then none else some (str_eq (t.hash b) h)
      ]
    ]
  ]

  unfoldable pub verify_object : ℕ → String → s.World → Option Bool
  verify_object i key world = elim (s.get_file_info i key world) [
    | none ↦ none
    | some info ↦ elim info [
      | none ↦ none
      | some hash ↦ elim (s.download i key world) [
        | none ↦ none
        | some got ↦ elim got [ none ↦ none | some b ↦ verify_download i key hash b world ]
      ]
    ]
  ]

  -- The target of the database, with the guards before it.
  unfoldable pub bucket_of : Option ℕ → Manager → s.World → Option ℕ
  bucket_of db_id m world = elim db_id [
    | none ↦ none
    | some d ↦ if d == 0 then none else elim (get_database d m) [
      | none ↦ none
      | some cfg ↦
          if truthy_id cfg.s3_bucket_id
          then elim cfg.s3_bucket_id [
            | none ↦ none
            | some i ↦ if s.exists i world then some i else none
          ]
          else none
    ]
  ]

  unfoldable pub verify_s3 : Option ℕ → Manager → String → s.World → Option Bool
  verify_s3 db_id m key world = elim (bucket_of db_id m world) [
    | none ↦ none
    | some i ↦ verify_object i key world
  ]
