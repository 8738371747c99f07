-- ===== src/Upload.antt =====
-- The whole of `backup_database` of backend/core/manager.py: after the stages of Protect the file and
-- its checksum go to the storage targets of the database, and then the retentions delete old backups.
pub mod Kept
pub mod Retained
mod Tests
use dbmanager.Base.{
  ℕ, String, Bool, true, false, Option, none, some, List, [], ◌∷◌, ◌&&◌, ltb, if◌then◌else◌,
}
use dbmanager.Base.Text.{add, basename}
use dbmanager.Config.{DbConfig, truthy_id}
use dbmanager.Storage.{Bytes, Object}
use dbmanager.Storage.Targets.{Targets, provider_of}
use dbmanager.Files.{Content, binary, words, Dir, read}
use dbmanager.Backups.{sha256, enforce_retention, enforce_s3_retention}
use dbmanager.Protect.{Tools, Settings, Work, write, tag_stage, protect}

-- The targets of a database: the list, or the one of the older field.
unfoldable pub upload_ids : DbConfig → List ℕ
upload_ids cfg = elim cfg.storage_target_ids [
  | [] ↦
      if cfg.s3_enabled && truthy_id cfg.s3_bucket_id
      then elim cfg.s3_bucket_id [ none ↦ [] | some i ↦ i ∷ [] ]
      else []
  | i ∷ is ↦ i ∷ is
]

-- `encode` is the text of a checksum file in bytes.
module _ (s : Targets) (encode : List String → Bytes) where
  abbrev pub raw : Content → Bytes
  raw (binary b) = b
  raw (words ws) = encode ws

  abbrev pub backup_dir : ℕ → String
  backup_dir db = add "backups/" (add (s.str db) "/")

  unfoldable pub remote_key : ℕ → String → String
  remote_key db path = add (backup_dir db) (basename path)

  -- The checksum goes along, if there is one.
  unfoldable pub upload_sum : ℕ → Work → ℕ → s.World → s.World
  upload_sum db w i world = elim (if w.has_sum then read (sha256 w.path) w.dir else none) [
    | none ↦ world
    | some c ↦ (s.upload i (raw c) (sha256 (remote_key db w.path)) world).1
  ]

  -- The body of the loop over the targets; an exception is swallowed.
  unfoldable pub upload_to : ℕ → Work → ℕ → s.World → s.World
  upload_to db w i world =
      if s.exists i world
      then elim (read w.path w.dir) [
        | none ↦ world
        | some c ↦
            let (sent, world') = s.upload i (raw c) (remote_key db w.path) world in
            elim sent [ none ↦ world' | some ok ↦ if ok then upload_sum db w i world' else world' ]
      ]
      else world

  unfoldable pub upload_all : ℕ → Work → List ℕ → s.World → s.World
  upload_all db w [] world = world
  upload_all db w (i ∷ is) world = upload_all db w is (upload_to db w i world)

  -- `_enforce_s3_retention` with its look-up of the target
  unfoldable pub retain_on : (String → Bool) → ℕ → ℕ → ℕ → s.World → s.World
  retain_on starred keep_last db i world =
      if s.exists i world
      then enforce_s3_retention (provider_of s i) starred (backup_dir db) keep_last world
      else world

  unfoldable pub retain_all : (String → Bool) → ℕ → ℕ → List ℕ → s.World → s.World
  retain_all starred keep_last db [] world = world
  retain_all starred keep_last db (i ∷ is) world =
      retain_all starred keep_last db is (retain_on starred keep_last db i world)

  -- What the S3 part of `list_backups` has to list.
  unfoldable pub listed_objects : ℕ → DbConfig → s.World → List Object
  listed_objects db cfg world =
      if cfg.s3_enabled && truthy_id cfg.s3_bucket_id
      then elim cfg.s3_bucket_id [
        | none ↦ []
        | some i ↦
            if s.exists i world
            then elim (s.list_files i (backup_dir db) world) [ none ↦ [] | some os ↦ os ]
            else []
      ]
      else []

  module _ (t : Tools) (now : ℕ) where
    -- What the local retention leaves.
    unfoldable pub retain_local : Settings → (String → Bool) → List Object → Dir → Dir
    retain_local settings starred objects dir =
        if ltb 0 settings.retention
        then enforce_retention starred settings.retention objects dir
        else dir

    -- `none` is the exception of the provider.
    unfoldable pub backup_and_upload :
        Settings
        → (String → Bool)
        → DbConfig
        → Option String
        → t.Db
        → Dir
        → s.World
        → Option (String × Dir × s.World)
    backup_and_upload settings starred cfg tag db dir world = elim (t.dump db) [
      | none ↦ none
      | some (name, b) ↦
          let w = protect t now settings (
            tag_stage t now tag
              (record { path = name; has_sum = false; dir = write t now name (binary b) dir })) in
          let ids = upload_ids cfg in
          let sent = upload_all cfg.id w ids world in
          some (
            w.path,
            retain_local settings starred (listed_objects cfg.id cfg sent) w.dir,
            if ltb 0 cfg.s3_retention
                then retain_all starred cfg.s3_retention cfg.id ids sent
                else sent,
          )
    ]
