-- ===== src/ConfigSync/Tests.antt =====
-- A configuration that is sent to a target and comes back on another host.
use dbmanager.Base.{◌≡◌, refl, true, false, some, none, [], ◌∷◌}
use dbmanager.Json.{Json, num, dict, end, field}
use dbmanager.Config.Secrets.{Fernet}
use dbmanager.Migration.Tests.{holding, holding-IsTargets}
use dbmanager.Databases.{dict_get}
use dbmanager.ConfigSync.{
  Copy, State, Platform, target_value, config_target, upload_rest, upload_config, sync_to_storage,
  sync_from_storage, auto_sync_on_startup,
}
use dbmanager.ConfigSync.Kept.{IsSafe, IsWanted, IsOutdated, sync_from-IsSafe}
use dbmanager.ConfigSync.Restored.{IsBack, sync_from-sync_to}

abbrev fernet : Fernet
fernet = record { encrypt = λ t. t; decrypt = λ t. none }

abbrev settings : Json
settings = dict (field "config_sync_bucket_id" (num 1) end)

abbrev platform : Platform (holding [])
platform = record {
  parse = λ b. some settings;
  describe = λ now. 1 ∷ [];
  local_time = λ t. t;
  remote_time = λ t. t;
  modified = λ i k w. some (some 9);
}

abbrev file : Copy
file = record { bytes = 7 ∷ 8 ∷ []; mtime = 5 }

abbrev sender : State (holding [])
sender = record {
  config = settings;
  file = some file;
  kept = λ n. none;
  proxy = some (4 ∷ []);
  world = λ i k. none;
}

abbrev receiver : State (holding [])
receiver = record sender {
  file = some (record { bytes = 3 ∷ []; mtime = 20 });
  proxy = none;
  world = (sync_to_storage fernet (holding []) platform 9 sender).1;
}

target_there : config_target settings ≡ some 1
unfolding config_target target_value dict_get
target_there = refl

sent : (sync_to_storage fernet (holding []) platform 9 sender).0 ≡ true
unfolding sync_to_storage config_target target_value dict_get upload_config upload_rest
sent = refl

sync_from-sync_to_example :
    IsBack fernet
      (holding [])
      (holding-IsTargets [])
      platform
      30
      (7 ∷ 8 ∷ [])
      settings
      (sync_from_storage fernet (holding []) platform 30 true false false receiver)
sync_from-sync_to_example =
    sync_from-sync_to fernet (holding []) (holding-IsTargets []) platform 9 30 1 9 file settings
      false false sender receiver target_there refl sent target_there refl refl refl refl

abbrev outdated : State (holding [])
outdated = record receiver { file = some file }

sync_from-IsSafe_example :
    IsSafe fernet
      (holding [])
      platform
      file
      30
      (IsWanted fernet (holding []) platform file 30 false true true outdated)
      outdated
      (sync_from_storage fernet (holding []) platform 30 false true true outdated).1
    × IsSafe fernet
        (holding [])
        platform
        file
        30
        (IsOutdated fernet (holding []) platform file 30 outdated)
        outdated
        (auto_sync_on_startup fernet (holding []) platform 30 outdated)
sync_from-IsSafe_example =
    sync_from-IsSafe fernet (holding []) platform file 30 false true true outdated refl
