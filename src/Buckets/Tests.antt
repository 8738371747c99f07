-- ===== src/Buckets/Tests.antt =====
-- A target that is the bucket of the database of Config/Tests.
use dbmanager.Base.{◌≡◌, refl, true, false, none, is_some}
use dbmanager.Base.Outcome.{ok}
use dbmanager.Config.{in_use, get_storage_config, delete_storage as delete_unused}
use dbmanager.Config.Tests.{manager}
use dbmanager.Buckets.{delete_storage}
use dbmanager.Buckets.Unguarded.{delete_storage-unguarded}

bucket_there : is_some (get_storage_config 1 manager) ≡ true
unfolding get_storage_config
bucket_there = refl

bucket_used : in_use 1 manager.config ≡ true
unfolding in_use
bucket_used = refl

delete_storage-unguarded_example :
    ((delete_storage 1 manager).0 ≡ ok tt)
    × (get_storage_config 1 (delete_storage 1 manager).1 ≡ none)
    × ((delete_storage 1 manager).1.disk ≡ (delete_storage 1 manager).1.config)
    × (in_use 1 (delete_storage 1 manager).1.config ≡ true)
    × (delete_unused 1 manager ≡ (false, manager))
delete_storage-unguarded_example = delete_storage-unguarded 1 manager bucket_there bucket_used
