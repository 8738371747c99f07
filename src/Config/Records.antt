-- ===== src/Config/Records.antt =====
-- The parts of config.json: backend/config.py and the models of the entries.
use dbmanager.Base.{ℕ, String, Bool, Option, List}
use dbmanager.Json.{Json}

pub record DbConfig : Type 0 where
  pub id : ℕ
  pub name : String
  pub provider : String
  pub params : Json
  pub retention : ℕ
  pub s3_enabled : Bool
  pub s3_bucket_id : Option ℕ
  pub s3_retention : ℕ
  pub storage_target_ids : List ℕ

pub record Target : Type 0 where
  pub id : ℕ
  pub name : String
  pub provider : String
  pub params : Json

-- An entry of `schedules`; `none` is null.
pub record Schedule : Type 0 where
  pub id : ℕ
  pub database_id : ℕ
  pub cron_expression : Option String
  pub enabled : Option Bool
  pub next_run : Option String
  pub last_run : Option String

pub record Compression : Type 0 where
  pub enabled : Bool
  pub algorithm : String
  pub level : ℕ

pub record EncryptionSettings : Type 0 where
  pub enabled : Bool
  pub password : Option String

-- `none` where the key is missing
pub record GlobalSettings : Type 0 where
  pub compression : Option Compression
  pub encryption : Option EncryptionSettings

pub record Metadata : Type 0 where
  pub notes : String
  pub starred : Bool
  pub date_starred : Option ℕ

pub record PingSettings : Type 0 where
  pub enabled : Bool
  pub interval_minutes : ℕ

-- `backup_metadata` is a dict by file name.
pub record Config : Type 0 where
  pub databases : List DbConfig
  pub storage_targets : List Target
  pub s3_buckets : Option (List Target)
  pub config_sync_bucket_id : Option ℕ
  pub schedules : List Schedule
  pub global_settings : Option GlobalSettings
  pub backup_metadata : String → Option Metadata
  pub ping_settings : Option PingSettings

pub record Manager : Type 0 where
  pub config : Config
  pub disk : Config
