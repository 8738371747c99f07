-- ===== src/Migration.antt =====
-- The move of backups between storage targets: `migrate_database_backups` and
-- `estimate_migration_size` of backend/core/storage_migrator.py. The targets are a parameter: what is
-- stored under the keys of each of them.
pub mod Kept
pub mod Within
pub mod Tests
use dbmanager.Base.{
  ℕ, zero, suc, ◌+◌, String, ◌≡◌, Bool, true, false, Option, none, some, List, [], ◌∷◌, ◌++◌, map,
  ◌==◌, str_eq, length, if◌then◌else◌,
}
use dbmanager.Base.Text.{add, basename}
use dbmanager.Storage.{Object}
use dbmanager.Storage.Targets.{Targets}

-- The progress of the loop: the count and the names of failed files.
pub record Progress (t : Targets) : Type 0 where
  pub success_count : ℕ
  pub failed_files : List String
  pub world : t.World

module _ (t : Targets) (old new : ℕ) (delete_old : Bool) where
  abbrev pub failed : String → Progress t → Progress t
  failed key p = record p { failed_files = p.failed_files ++ basename key ∷ [] }

  -- After the upload: an exception of the deletion notes the file as failed, though it is counted.
  unfoldable pub after_upload : String → Progress t → Progress t
  after_upload key p =
      let counted : Progress t = record p { success_count = suc p.success_count } in
      let (deleted, w) = t.delete old key p.world in
      let gone : Progress t = record counted { world = w } in
      if delete_old then elim deleted [ none ↦ failed key gone | some _ ↦ gone ] else counted

  -- The body of the loop.
  unfoldable pub migrate_file : String → Progress t → Progress t
  migrate_file key p = elim (t.download old key p.world) [
    | none ↦ failed key p
    | some o ↦ elim o [
      | none ↦ failed key p
      | some b ↦
          let (sent, w) = t.upload new b key p.world in
          let p' : Progress t = record p { world = w } in
          elim sent [
            | none ↦ failed key p'
            | some ok ↦ if ok then after_upload key p' else failed key p'
          ]
    ]
  ]

  unfoldable pub migrate_files : List String → Progress t → Progress t
  migrate_files [] p = p
  migrate_files (k ∷ ks) p = migrate_files ks (migrate_file k p)

  abbrev pub nothing_failed : List String → Bool
  nothing_failed [] = true
  nothing_failed _ = false

  abbrev pub backup_prefix : ℕ → String
  backup_prefix db = add "backups/" (add (t.str db) "/")

  unfoldable pub migrate_database_backups : ℕ → t.World → Bool × t.World
  migrate_database_backups db w =
      if t.exists old w
      then (if t.exists new w
          then elim (t.list_files old (backup_prefix db) w) [
            | none ↦ (false, w)
            | some os ↦
                let p =
                  migrate_files (map (λ (o : Object). o.key) os)
                    (record { success_count = 0; failed_files = []; world = w }) in
                (nothing_failed p.failed_files, p.world)
          ]
          else (false, w))
      else (false, w)

-- The number of the backups and their size in bytes.
abbrev pub total_size : List Object → ℕ
total_size [] = 0
total_size (o ∷ os) = o.size + total_size os

unfoldable pub estimate_migration_size : (t : Targets) → ℕ → ℕ → t.World → ℕ × ℕ
estimate_migration_size t db storage w =
    if t.exists storage w
    then elim (t.list_files storage (add "backups/" (add (t.str db) "/")) w) [
      | none ↦ (0, 0)
      | some os ↦ (length os, total_size os)
    ]
    else (0, 0)
