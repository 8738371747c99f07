-- ===== src/Settings.antt =====
-- The handlers of backend/api/routers/settings.py on the settings of the configuration. Which algorithms
-- and whether encryption can be used depends on the packages that are installed, and is an argument.
pub mod Encrypted
mod Tests
use dbmanager.Base.{
  ℕ, String, Bool, false, Option, none, some, List, ◌&&◌, not, any, is_some, or_else, str_eq,
  text_is_empty, if◌then◌else◌,
}
use dbmanager.Base.Outcome.{Reply, ok, http}
use dbmanager.Config.{
  Compression, Manager, set_config, get_storage_config, get_storage_name, truthy_id,
}
use dbmanager.Config.Settings.{
  get_global_settings, get_compression_settings as stored_compression,
  update_compression_settings as put_compression, get_encryption_settings as stored_encryption,
  update_encryption_settings as put_encryption, default_compression,
}

-- The settings as they are shown: without the password.
pub record GlobalSettings : Type 0 where
  pub compression : Compression
  pub encryption_enabled : Bool

unfoldable pub get_settings : Manager → GlobalSettings
get_settings m =
    let settings = get_global_settings m in
    record {
      compression = or_else settings.compression default_compression;
      encryption_enabled = elim settings.encryption [ none ↦ false | some e ↦ e.enabled ];
    }

unfoldable pub get_compression_settings : Manager → Compression
get_compression_settings m = stored_compression m

unfoldable pub update_compression_settings :
    List String → Compression → Manager → Reply Compression × Manager
update_compression_settings available settings m =
    if settings.enabled && not (any (str_eq settings.algorithm) available) then (http 400, m) else (
      ok settings,
      put_compression (some settings.enabled) (some settings.algorithm) (some settings.level) m,
    )

unfoldable pub get_encryption_settings : Manager → Bool
get_encryption_settings m = (stored_encryption m).enabled

pub record EncryptionUpdate : Type 0 where
  pub enabled : Bool
  pub password : Option String

-- A text that is there and not empty.
unfoldable pub filled : Option String → Bool
filled none = false
filled (some s) = not (text_is_empty s)

unfoldable pub update_encryption_settings : Bool → EncryptionUpdate → Manager → Reply Bool × Manager
update_encryption_settings available settings m =
    if settings.enabled && not available
    then (http 400, m)
    else if settings.enabled
        && not (filled (stored_encryption m).password)
        && not (filled settings.password)
    then (http 400, m)
    else (
      ok settings.enabled,
      put_encryption (some settings.enabled)
          (if filled settings.password then settings.password else none) m,
    )

pub record ConfigSyncStatus : Type 0 where
  pub enabled : Bool
  pub bucket_id : Option ℕ
  pub bucket_name : Option String

-- An id of 0 is no target.
unfoldable pub sync_status : Option ℕ → Manager → ConfigSyncStatus
sync_status target m = record {
  enabled = truthy_id target;
  bucket_id = target;
  bucket_name = elim (if truthy_id target then target else none) [
    | none ↦ none
    | some i ↦ get_storage_name i m
  ];
}

unfoldable pub get_config_sync_status : Manager → ConfigSyncStatus
get_config_sync_status m = sync_status m.config.config_sync_bucket_id m

-- `ConfigSync.set_config_target`
unfoldable pub set_config_target : Option ℕ → Manager → Manager
set_config_target target m = set_config m (record m.config { config_sync_bucket_id = target })

unfoldable pub update_config_sync : Option ℕ → Manager → Reply ConfigSyncStatus × Manager
update_config_sync bucket_id m =
    if elim bucket_id [ none ↦ false | some i ↦ not (is_some (get_storage_config i m)) ]
    then (http 404, m)
    else let m' = set_config_target bucket_id m in (ok (sync_status bucket_id m'), m')
