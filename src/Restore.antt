-- ===== src/Restore.antt =====
-- `restore_database` of backend/core/manager.py: what is read before, the safety snapshot, the
-- preparation of the file in a temporary directory, the restore and the rollback. The progress
-- reports are left out.
pub mod Prepare
pub mod Branches
pub mod Roundtrip
pub mod Tests
use dbmanager.Base.{
  ℕ, String, Bool, true, false, Option, none, some, List, [], ◌∷◌, ◌&&◌, ◌||◌, not, str_eq, any,
  is_some, if◌then◌else◌,
}
use dbmanager.Base.Text.{add, ends_with, contains}
use dbmanager.Base.Suffix.{suffix, stem}
use dbmanager.Storage.{Bytes, Object}
use dbmanager.Files.{Content, binary, words, LocalFile, Dir, read, has_file}
use dbmanager.Encryption.{unseal}
use dbmanager.Backups.{sha256}
use dbmanager.Protect.{Tools, Settings, read_bytes, usable_password, backup_database}

-- The first word of the checksum line, if it has two words or more.
unfoldable pub expected_hash : Option Content → Option String
expected_hash (some (words (h ∷ _ ∷ _))) = some h
expected_hash _ = none

-- `line.split()[0]`: an `IndexError` on an empty line
unfoldable pub first_word : Option Content → Option String
first_word (some (words (h ∷ _))) = some h
first_word _ = none

abbrev pub compressed_exts : List String
compressed_exts = ".gz" ∷ ".zst" ∷ ".lz4" ∷ []

-- the test for work in a temporary directory
unfoldable pub needs_copy : String → Bool
needs_copy n =
    ends_with ".enc" n
    || (contains ".gz" n || contains ".zst" n || contains ".lz4" n) && not (ends_with ".enc" n)
    || contains ".enc" n
    || contains ".gz" n

-- The file as `provider.restore` gets it, or an exception.
module _ (t : Tools) where
  -- `decrypt_file`
  unfoldable pub decrypted_name : String → String
  decrypted_name n = if str_eq (suffix n) ".enc" then stem n else add n ".dec"

  -- `decompress_file`, on a name that ends with one of the three extensions
  unfoldable pub decompress : String → Bytes → Option Bytes
  decompress ext b =
      if str_eq ext ".gz"
      then t.inflate "gzip" b
      else if str_eq ext ".zst"
      then t.inflate "zstd" b
      else if str_eq ext ".lz4"
      then t.inflate "lz4" b
      else none

  unfoldable pub decompress_step : String → Bytes → Option (String × Bytes)
  decompress_step n b =
      if any (λ e. ends_with e n) compressed_exts
      then elim (decompress (suffix n) b) [ none ↦ none | some d ↦ some (stem n, d) ]
      else some (n, b)

  -- `has_checksum and expected_hash and decrypted_file`, and then the comparison of the hashes
  unfoldable pub matches : Bool → Option String → Option Bytes → Bool
  matches true (some h) (some d) = str_eq (t.hash d) h
  matches _ _ _ = true

  -- The work file with its bytes, and the bytes of `decrypted_file`, which is `None` where nothing was
  -- decrypted.
  unfoldable pub decrypt_step : Settings → String → Bytes → Option (String × Bytes × Option Bytes)
  decrypt_step s n b =
      if ends_with ".enc" n
      then elim (usable_password s) [
        | none ↦ none
        | some password ↦ elim (unseal t.aead password b) [
          | none ↦ none
          | some d ↦ some (decrypted_name n, d, some d)
        ]
      ]
      else some (n, b, none)

  unfoldable pub prepare_copy :
      Settings → Bool → Option String → String → Bytes → Option (String × Bytes)
  prepare_copy s has_sum expected n b = elim (decrypt_step s n b) [
    | none ↦ none
    | some (m, d, decrypted) ↦
        if matches has_sum expected decrypted then decompress_step m d else none
  ]

  -- `verify_checksum(backup_file)`, which reads the checksum file again
  unfoldable pub verify_checksum : String → Dir → Option Bool
  verify_checksum n dir = elim (read_bytes n dir) [
    | none ↦ none
    | some b ↦ elim (first_word (read (sha256 n) dir)) [
      | none ↦ none
      | some h ↦ some (str_eq (t.hash b) h)
    ]
  ]

  -- The plain branch hands the file over where it lies.
  unfoldable pub prepare_plain : Bool → String → Dir → Option (String × Bytes)
  prepare_plain has_sum n dir =
      let file : Option (String × Bytes) = elim (read_bytes n dir) [
        | none ↦ none
        | some b ↦ some (n, b)
      ] in
      if has_sum
      then elim (verify_checksum n dir) [ none ↦ none | some valid ↦ if valid then file else none ]
      else file

  -- `has_sum` and `expected` were read before the snapshot, `dir` is the directory after it.
  unfoldable pub prepare : Settings → Bool → Option String → String → Dir → Option (String × Bytes)
  prepare s has_sum expected n dir =
      if needs_copy n
      then elim (read_bytes n dir) [ none ↦ none | some b ↦ prepare_copy s has_sum expected n b ]
      else prepare_plain has_sum n dir

-- The message of the last has the one of the failed rollback in it.
pub data Failure : Type 0 where
  not_found snapshot_failed prepare_failed no_snapshot rolled_back : Failure
  critical : Failure → Failure

pub data Result (A : Type 0) : Type 0 where
  ok : A → Result A
  raised : Failure → Result A

pub record World (t : Tools) : Type 0 where
  pub db : t.Db
  pub dir : Dir

module _ (t : Tools) where
  -- `except Exception as rollback_error`, around the rollback and its `raise`
  unfoldable pub catch_rollback : Result Bool → Result Bool
  catch_rollback (ok b) = ok b
  catch_rollback (raised e) = raised (critical e)

  -- The rollback: the recursive call, then the `raise` that reports it, both inside the `try`.
  unfoldable pub report_rollback : Result Bool → Result Bool
  report_rollback (ok b) = raised rolled_back
  report_rollback (raised e) = raised e

  -- The restore of a prepared file. `rollback` is the recursive call, where there is a snapshot file.
  unfoldable pub perform :
      Option (World t → Result Bool × World t) → String → Bytes → World t → Result Bool × World t
  perform rollback n b w =
      let (r, db) = t.load n b w.db in
      let w' : World t = record w { db = db } in
      elim r [
        | some done ↦ (ok done, w')
        | none ↦ elim rollback [
          | none ↦ (raised no_snapshot, w')
          | some again ↦ let (r', w'') = again w' in (catch_rollback (report_rollback r'), w'')
        ]
      ]

  -- After the snapshot: `before` is the directory as it was when the checksum was read.
  unfoldable pub prepare_and_perform :
      Settings
      → String
      → Dir
      → Option (World t → Result Bool × World t)
      → World t
      → Result Bool × World t
  prepare_and_perform s n before rollback w =
      let sum = read (sha256 n) before in
      elim (prepare t s (is_some sum) (expected_hash sum) n w.dir) [
        | none ↦ (raised prepare_failed, w)
        | some (m, b) ↦ perform rollback m b w
      ]

  -- `create_safety_snapshot=False`
  unfoldable pub restore_unsafe : Settings → String → World t → Result Bool × World t
  restore_unsafe s n w =
      if has_file n w.dir then prepare_and_perform s n w.dir none w else (raised not_found, w)

  -- `create_safety_snapshot=True`; the rollback is tried only if the snapshot file exists
  unfoldable pub restore_database :
      Settings → (String → Bool) → List Object → ℕ → String → World t → Result Bool × World t
  restore_database s starred objects now n w =
      if has_file n w.dir
      then elim (backup_database t now s starred objects (some "safety_snapshot") w.db w.dir) [
        | none ↦ (raised snapshot_failed, w)
        | some (snapshot, dir) ↦
            let rollback =
              if has_file snapshot dir then some (restore_unsafe s snapshot) else none in
            prepare_and_perform s n w.dir rollback (record w { dir = dir })
      ]
      else (raised not_found, w)
