-- ===== src/Integrity.antt =====
-- The check of a backup without a restore: `verify_backup` of backend/core/backup_utils.py and the
-- local branch of `verify_backup_integrity` of backend/core/manager.py. `none` is an exception.
pub mod Protected
pub mod Remote
pub mod Sealed
pub mod Damaged
mod Tests
use dbmanager.Base.{
  ℕ, String, Bool, true, false, Option, none, some, List, [], ◌∷◌, ◌&&◌, ◌==◌, length, str_eq,
  is_some, if◌then◌else◌,
}
use dbmanager.Base.Text.{ends_with}
use dbmanager.Files.{Dir, read}
use dbmanager.Encryption.{unseal}
use dbmanager.Backups.{sha256}
use dbmanager.Protect.{Tools, Settings, read_bytes, usable_password}
use dbmanager.Restore.{expected_hash, verify_checksum}

pub record Verification : Type 0 where
  pub valid : Bool
  pub file_exists : Bool
  pub file_size : ℕ
  pub checksum_valid : Option Bool

module _ (t : Tools) where
  -- The checksum part; an exception of `verify_checksum` counts as a mismatch.
  unfoldable pub check_checksum : String → Dir → Option Bool
  check_checksum n dir =
      if is_some (read (sha256 n) dir)
      then elim (verify_checksum t n dir) [ none ↦ some false | some b ↦ some b ]
      else none

  unfoldable pub verify_backup : String → Dir → Verification
  verify_backup n dir =
      let checked = check_checksum n dir in
      elim (read_bytes n dir) [
        | none ↦ record { valid = false; file_exists = false; file_size = 0; checksum_valid = none }
        | some b ↦ record {
          valid =
              (if length b == 0 then false else true) && elim checked [ none ↦ true | some c ↦ c ];
          file_exists = true;
          file_size = length b;
          checksum_valid = checked;
        }
      ]

  -- An encrypted file carries the checksum of the bytes before the encryption.
  unfoldable pub verify_encrypted : Settings → String → Dir → Option Bool
  verify_encrypted s n dir = elim (expected_hash (read (sha256 n) dir)) [
    | none ↦ none
    | some h ↦ elim (usable_password s) [
      | none ↦ none
      | some password ↦ elim (read_bytes n dir) [
        | none ↦ none
        | some b ↦ elim (unseal t.aead password b) [
          | none ↦ none
          | some d ↦ if str_eq (t.hash d) h then some true else none
        ]
      ]
    ]
  ]

  unfoldable pub verify_backup_integrity : Settings → String → Dir → Option Bool
  verify_backup_integrity s n dir =
      if ends_with ".enc" n then verify_encrypted s n dir else some (verify_backup n dir).valid
