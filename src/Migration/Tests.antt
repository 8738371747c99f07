-- ===== src/Migration/Tests.antt =====
-- Targets that hold their files in a function of the target and the key.
use dbmanager.Base.{
  ℕ, String, ◌≡◌, refl, true, false, Option, none, some, List, [], ◌∷◌, ◌==◌, ==_iff, ◌⊎◌, arith,
  str_eq, if◌then◌else◌,
}
use text.Mathlib.TextPositions.{eq_refl}
use dbmanager.Storage.{Bytes, Object}
use dbmanager.Storage.Targets.{Targets, IsTargets}
use dbmanager.Migration.{Progress, migrate_file, migrate_database_backups}
use dbmanager.Migration.Kept.{migrate_database_backups-kept}
use dbmanager.Migration.Within.{migrate_file_self}

abbrev pub put : ℕ → String → Option Bytes → (ℕ → String → Option Bytes) → ℕ → String → Option Bytes
put i k o w j l = if (if i == j then str_eq k l else false) then o else w j l

abbrev dump : Object
dump = record { key = "backups/1/a.sql"; size = 3; last_modified = 5 }

-- The targets list the given objects.
abbrev pub holding : List Object → Targets
holding os = record {
  World = ℕ → String → Option Bytes;
  exists = λ i w. true;
  list_files = λ i p w. some os;
  download = λ i k w. some (w i k);
  upload = λ i b k w. (some true, put i k (some b) w);
  get_file_info = λ i k w. some (some none);
  delete = λ i k w. (some true, put i k none w);
  str = λ n. "1";
}

pub holding-IsTargets : (os : List Object) → IsTargets (holding os)
holding-IsTargets os = record {
  download-upload = λ i b k w h. ground (arith, eq_refl k, ==_iff i i);
  upload-other = λ i j b k l w h. ground arith;
  download-delete = λ i k w h. ground (arith, eq_refl k, ==_iff i i);
  delete-other = λ i j k l w h. ground arith;
}

abbrev targets : Targets
targets = holding (dump ∷ [])

abbrev first_target : ℕ → String → Option Bytes
first_target = put 1 "backups/1/a.sql" (some (7 ∷ [])) (λ i k. none)

migrate_database_backups-kept_example :
    let w' = (migrate_database_backups targets 1 2 true 1 first_target).1 in
    (targets.download 1 "backups/1/a.sql" w' ≡ some (some (7 ∷ [])))
    ⊎ (targets.download 2 "backups/1/a.sql" w' ≡ some (some (7 ∷ [])))
migrate_database_backups-kept_example =
    migrate_database_backups-kept targets (holding-IsTargets (dump ∷ [])) 1 2 true refl 1
      "backups/1/a.sql" (7 ∷ []) first_target (dump ∷ []) refl (tt, tt) refl

-- Moved to itself, the file is gone.
abbrev before : Progress targets
before = record { success_count = 0; failed_files = []; world = first_target }

gone :
    targets.download 1 "backups/1/a.sql"
      (migrate_file targets 1 1 true "backups/1/a.sql" before).world
    ≡ some none
gone =
    migrate_file_self targets (holding-IsTargets (dump ∷ [])) 1 "backups/1/a.sql" (7 ∷ []) before
      refl refl refl
