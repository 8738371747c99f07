-- ===== src/Config/Tests.antt =====
-- A configuration with one database and two targets.
use dbmanager.Base.{ℕ, ◌≡◌, true, false, none, some, List, [], ◌∷◌, not, ◌&&◌, ◌==◌, if◌then◌else◌}
use dbmanager.Json.{null}
use dbmanager.Config.{DbConfig, Target, Manager, Config, in_use, get_storage_config, delete_storage}
use dbmanager.Config.Dict.{Op, adding, changing, removing, apply_all, view, Steps, apply_all-Steps}
use dbmanager.Config.Targets.{delete_storage-guarded}

abbrev pub shop : DbConfig
shop = record {
  id = 4;
  name = "shop";
  provider = "postgres";
  params = null;
  retention = 3;
  s3_enabled = true;
  s3_bucket_id = some 1;
  s3_retention = 0;
  storage_target_ids = 2 ∷ [];
}

abbrev pub bucket : ℕ → Target
bucket i = record { id = i; name = "bucket"; provider = "s3"; params = null }

abbrev pub config : Config
config = record {
  databases = shop ∷ [];
  storage_targets = bucket 1 ∷ bucket 2 ∷ [];
  s3_buckets = none;
  config_sync_bucket_id = none;
  schedules = [];
  global_settings = none;
  backup_metadata = λ f. none;
  ping_settings = none;
}

abbrev pub manager : Manager
manager = record { config = config; disk = config }

delete_storage-guarded_example :
    let (done, m') = delete_storage 1 manager in
    (done ≡ (
      not (in_use 1 config)
      && elim (get_storage_config 1 manager) [ none ↦ false | some _ ↦ true ]))
    × (get_storage_config 1 m' ≡ (if 1 == 1 && done then none else get_storage_config 1 manager))
    × (m'.config.databases ≡ shop ∷ [])
delete_storage-guarded_example = delete_storage-guarded 1 1 manager

abbrev calls : List Op
calls = adding shop ∷ changing 4 (record shop { name = "store" }) ∷ removing 9 ∷ []

apply_all-Steps_example : Steps calls (view manager) (view (apply_all calls manager))
apply_all-Steps_example = apply_all-Steps calls manager
