-- ===== src/Protect.antt =====
-- The stages of `backup_database` in backend/core/manager.py on the local file: tag, checksum,
-- compression, encryption and retention, with `save_checksum` of backend/core/backup_utils.py,
-- `compress_file` and `decompress_file` of backend/core/compression.py, and `encrypt_file` and
-- `decrypt_file` of backend/core/encryption.py. The database, the hash and the codecs are parameters.
-- An exception of a codec leaves no partial file.
pub mod Names
pub mod Compression
pub mod Sealed
use dbmanager.Base.{
  ℕ, String, Bool, true, false, Option, none, some, List, [], ◌∷◌, ◌&&◌, ◌||◌, not, str_eq, any,
  ltb, or_else, if◌then◌else◌, text_is_empty,
}
use dbmanager.Base.Text.{add, ends_with, contains}
use dbmanager.Base.Suffix.{suffix, stem}
use dbmanager.Storage.{Bytes, Object}
use dbmanager.Files.{Content, binary, words, LocalFile, Dir, read, unlink, put_file, rename}
use dbmanager.Encryption.{Aead, seal, unseal}
use dbmanager.Backups.{sha256, enforce_retention}

-- `dump` is `provider.backup`, the name and bytes of the file that it writes; `load` is
-- `provider.restore`; `none` is an exception. `deflate` and `inflate` are the codec libraries, with
-- the exception for one that is not installed.
pub record Tools : Type 1 where
  pub Db : Type 0
  pub dump : Db → Option (String × Bytes)
  pub load : String → Bytes → Db → Option Bool × Db
  pub hash : Bytes → String
  pub lower : String → String
  pub deflate : String → ℕ → Bytes → Option Bytes
  pub inflate : String → Bytes → Option Bytes
  pub aead : Aead

pub record Settings : Type 0 where
  pub compression_enabled : Bool
  pub algorithm : String
  pub level : ℕ
  pub encryption_enabled : Bool
  pub password : Option String
  pub retention : ℕ

-- The backup on its way: its file, whether there is a checksum file, and the directory.
pub record Work : Type 0 where
  pub path : String
  pub has_sum : Bool
  pub dir : Dir

-- The bytes of a file, with the exception for one that is not there.
unfoldable pub read_bytes : String → Dir → Option Bytes
read_bytes n dir = elim (read n dir) [
  | none ↦ none
  | some c ↦ elim c [ binary b ↦ some b | words ws ↦ none ]
]

-- `password` where it is a text and not empty
unfoldable pub usable_password : Settings → Option String
usable_password s = elim s.password [
  | none ↦ none
  | some p ↦ if text_is_empty p then none else some p
]

module _ (t : Tools) (now : ℕ) where
  abbrev pub write : String → Content → Dir → Dir
  write n c dir = put_file (record { name = n; mtime = now; size = 0; content = c }) dir

  -- `save_checksum`: the line `<hash>  <name>` beside the file
  unfoldable pub save_checksum : String → Dir → Option Dir
  save_checksum path dir = elim (read_bytes path dir) [
    | none ↦ none
    | some b ↦ some (write (sha256 path) (words (t.hash b ∷ path ∷ [])) dir)
  ]

  -- the extension that `compress_file` adds; another algorithm is a `ValueError`
  unfoldable pub codec_suffix : String → Option String
  codec_suffix algorithm =
      if str_eq algorithm "gzip"
      then some ".gz"
      else if str_eq algorithm "zstd"
      then some ".zst"
      else if str_eq algorithm "lz4"
      then some ".lz4"
      else none

  -- with `remove_original=True`
  unfoldable pub compress_file : String → String → ℕ → Dir → Option (String × Dir)
  compress_file path algorithm level dir =
      let alg = t.lower algorithm in
      elim (read_bytes path dir) [
        | none ↦ none
        | some b ↦ elim (codec_suffix alg) [
          | none ↦ none
          | some e ↦ elim (t.deflate alg level b) [
            | none ↦ none
            | some z ↦ some (add path e, unlink path (write (add path e) (binary z) dir))
          ]
        ]
      ]

  -- with `remove_original=True`
  unfoldable pub encrypt_file : String → String → Dir → Option (String × Dir)
  encrypt_file path password dir = elim (read_bytes path dir) [
    | none ↦ none
    | some b ↦ elim (seal t.aead password b) [
      | none ↦ none
      | some f ↦ some (add path ".enc", unlink path (write (add path ".enc") (binary f) dir))
    ]
  ]

  -- the new name of a tagged backup: the tag goes before the extension
  unfoldable pub tagged : String → String → String
  tagged tag filename =
      let inner = stem filename in
      if ends_with ".tar.gz" filename
      then add (stem inner) (add "_" (add tag ".tar.gz"))
      else if ends_with ".gz" filename
      then add (stem inner) (add "_" (add tag (add (suffix inner) ".gz")))
      else add inner (add "_" (add tag (suffix filename)))

  unfoldable pub tag_stage : Option String → Work → Work
  tag_stage none w = w
  tag_stage (some tag) w =
      if text_is_empty tag then w else elim (rename w.path (tagged tag w.path) w.dir) [
        | none ↦ w
        | some d ↦ record w { path = tagged tag w.path; dir = d }
      ]

  unfoldable pub checksum_stage : Work → Work
  checksum_stage w = elim (save_checksum w.path w.dir) [
    | none ↦ record w { has_sum = false }
    | some d ↦ record w { has_sum = true; dir = d }
  ]

  -- The old checksum file goes, and the compressed file gets one. An exception of `save_checksum`
  -- comes after `path` is set, so the compressed file stays in use.
  renew_checksum : String → String → Bool → Dir → Work
  renew_checksum old path has_sum dir =
      let d = unlink (sha256 old) dir in
      if has_sum
      then elim (save_checksum path d) [
        | none ↦ record { path = path; has_sum = true; dir = d }
        | some d' ↦ record { path = path; has_sum = true; dir = d' }
      ]
      else record { path = path; has_sum = false; dir = dir }

  unfoldable pub compress_stage : Settings → Work → Work
  unfolding renew_checksum
  compress_stage s w =
      if s.compression_enabled
      then elim (compress_file w.path s.algorithm s.level w.dir) [
        | none ↦ w
        | some (path, dir) ↦ renew_checksum w.path path w.has_sum dir
      ]
      else w

  -- The checksum of the unencrypted file is renamed; only if that fails it is computed anew.
  move_checksum : String → String → Bool → Dir → Work
  move_checksum old path has_sum dir =
      if has_sum
      then elim (rename (sha256 old) (sha256 path) dir) [
        | some d ↦ record { path = path; has_sum = true; dir = d }
        | none ↦ elim (save_checksum path dir) [
          | none ↦ record { path = path; has_sum = true; dir = dir }
          | some d ↦ record { path = path; has_sum = true; dir = d }
        ]
      ]
      else record { path = path; has_sum = false; dir = dir }

  unfoldable pub encrypt_stage : Settings → Work → Work
  unfolding move_checksum
  encrypt_stage s w =
      if s.encryption_enabled
      then elim (usable_password s) [
        | none ↦ w
        | some password ↦ elim (encrypt_file w.path password w.dir) [
          | none ↦ w
          | some (path, dir) ↦ move_checksum w.path path w.has_sum dir
        ]
      ]
      else w

  -- Checksum, compression and encryption, in this order.
  unfoldable pub protect : Settings → Work → Work
  protect s w = encrypt_stage s (compress_stage s (checksum_stage w))

  -- `backup_database` up to the uploads, and the local retention after them. `objects` is what
  -- `list_backups` then finds in the bucket. `none` is the exception of the provider.
  unfoldable pub backup_database :
      Settings → (String → Bool) → List Object → Option String → t.Db → Dir → Option (String × Dir)
  backup_database s starred objects tag db dir = elim (t.dump db) [
    | none ↦ none
    | some (name, b) ↦
        let w = protect s (
          tag_stage tag
            (record { path = name; has_sum = false; dir = write name (binary b) dir })) in
        some (
          w.path,
          if ltb 0 s.retention then enforce_retention starred s.retention objects w.dir else w.dir,
        )
  ]
