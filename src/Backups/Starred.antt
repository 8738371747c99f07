-- ===== src/Backups/Starred.antt =====
-- A backup that a user has starred and the retention of local backups.
use dbmanager.Base.{
  ℕ, String, ◌≡◌, Bool, true, false, Option, some, or_else, List, [], ◌∷◌, ◌&&◌, not, arith, str_eq,
  eq_iff, All, if◌then◌else◌,
}
use text.Mathlib.TextPositions.{eq_refl}
use dbmanager.Base.Text.{ends_with}
use dbmanager.Files.{LocalFile, has_file}
use dbmanager.Storage.{Object}
use dbmanager.Config.{Manager}
use dbmanager.Config.Settings.{get_backup_metadata, set_backup_metadata}
use dbmanager.Backups.{enforce_retention}
use dbmanager.Backups.Retention.{enforce_retention-leaves}

-- One call of `set_backup_metadata`.
pub record MetadataUpdate : Type 0 where
  pub now : ℕ
  pub filename : String
  pub notes : Option String
  pub starred : Option Bool

abbrev pub update_all : List MetadataUpdate → Manager → Manager
update_all [] m = m
update_all (u ∷ us) m = update_all us (set_backup_metadata u.now u.filename u.notes u.starred m)

-- The update takes the star off the backup.
abbrev pub unstars : String → MetadataUpdate → Bool
unstars f u = str_eq u.filename f && not (or_else u.starred true)

abbrev pub starred_in : Manager → String → Bool
starred_in m f = (get_backup_metadata f m).starred

starred-set_backup_metadata :
    (f : String) (u : MetadataUpdate) (m : Manager)
    → starred_in (set_backup_metadata u.now u.filename u.notes u.starred m) f
      ≡ (if str_eq u.filename f then or_else u.starred (starred_in m f) else starred_in m f)
unfolding set_backup_metadata get_backup_metadata
starred-set_backup_metadata f u m = ground (arith, eq_iff u.filename f)

starred-update_all :
    (f : String) (us : List MetadataUpdate) (m : Manager)
    → All (λ u. unstars f u ≡ false) us
    → starred_in m f ≡ true
    → starred_in (update_all us m) f ≡ true
starred-update_all f [] m h s = s
starred-update_all f (u ∷ us) m h s =
    starred-update_all f us (set_backup_metadata u.now u.filename u.notes u.starred m) h.1
      (ground (arith, starred-set_backup_metadata f u m))

-- A backup that was starred, and whose star no later update has taken off, is left by every local
-- retention, whatever number of backups it keeps. The file is not a checksum file.
pub starred_backup-stays :
    (f : String) (now : ℕ) (notes : Option String) (us : List MetadataUpdate) (m : Manager)
    (keep_last : ℕ) (os : List Object) (dir : List LocalFile)
    → ends_with ".sha256" f ≡ false
    → All (λ u. unstars f u ≡ false) us
    → let m' = update_all us (set_backup_metadata now f notes (some true) m) in
      has_file f (enforce_retention (starred_in m') keep_last os dir) ≡ has_file f dir
starred_backup-stays f now notes us m keep_last os dir plain h =
    let m' = update_all us (set_backup_metadata now f notes (some true) m) in
    ground (
      arith,
      (enforce_retention-leaves (starred_in m') keep_last os dir f plain).0,
      starred-update_all f us (set_backup_metadata now f notes (some true) m) h,
      starred-set_backup_metadata f
          (record { now = now; filename = f; notes = notes; starred = some true }) m,
      eq_refl f,
    )
