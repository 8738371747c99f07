-- ===== src/Config/Targets.antt =====
-- Storage targets: what a deletion refuses, and what it does not look at.
use dbmanager.Base.{
  ℕ, ◌≡◌, refl, true, false, none, some, List, [], ◌∷◌, not, ◌&&◌, any, find, keep, arith, ◌==◌,
  ltb, length, length-keep-le, if◌then◌else◌,
}
use dbmanager.Config.{Target, Manager, is_id, in_use, get_storage_config, delete_storage}

pub find_target-keep :
    (i j : ℕ) (ss : List Target)
    → find (λ s. s.id == j) (keep (λ s. not (s.id == i)) ss)
      ≡ (if i == j then none else find (λ s. s.id == j) ss)
find_target-keep i j [] = ground arith
find_target-keep i j (s ∷ ss) = ground (arith, find_target-keep i j ss)

keep_shorter :
    (i : ℕ) (ss : List Target)
    → ltb (length (keep (λ (s : Target). not (s.id == i)) ss)) (length ss)
      ≡ elim (find (λ s. s.id == i) ss) [ none ↦ false | some _ ↦ true ]
keep_shorter i [] = refl
keep_shorter i (s ∷ ss) =
    ground (arith, keep_shorter i ss, length-keep-le {0} (λ (s : Target). not (s.id == i)) ss)

-- A deletion answers `True` exactly when the target is there, no database has it as its S3 bucket
-- and the configuration is not synchronised to it. Then it is not found any more; every other
-- look-up is as before in any case, and a target in use stays.
pub delete_storage-guarded :
    (i j : ℕ) (m : Manager)
    → let (done, m') = delete_storage i m in
      (done ≡ (
        not (in_use i m.config) && elim (get_storage_config i m) [ none ↦ false | some _ ↦ true ]))
      × (get_storage_config j m' ≡ (if i == j && done then none else get_storage_config j m))
      × (m'.config.databases ≡ m.config.databases)
unfolding delete_storage get_storage_config in_use
delete_storage-guarded i j m =
    ground (
      arith,
      keep_shorter i m.config.storage_targets,
      find_target-keep i j m.config.storage_targets,
    )

-- A target that is there, that no database has as its S3 bucket and that the configuration is not
-- synchronised to is deleted, whatever `storage_target_ids` the databases have.
pub delete_storage-ignores_target_ids :
    (i : ℕ) (m : Manager) (s : Target)
    → any (λ d. is_id i d.s3_bucket_id) m.config.databases ≡ false
    → is_id i m.config.config_sync_bucket_id ≡ false
    → get_storage_config i m ≡ some s
    → ((delete_storage i m).0 ≡ true) × (get_storage_config i (delete_storage i m).1 ≡ none)
unfolding delete_storage get_storage_config in_use
delete_storage-ignores_target_ids i m s a b e =
    ground (
      arith,
      keep_shorter i m.config.storage_targets,
      find_target-keep i i m.config.storage_targets,
    )
