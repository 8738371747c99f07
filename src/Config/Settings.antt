-- ===== src/Config/Settings.antt =====
-- The settings and the backup metadata of `ConfigManager` in backend/config.py. A keyword that is
-- `None` leaves its value.
use dbmanager.Base.{
  ℕ, String, ◌≡◌, Bool, true, false, Option, none, some, or_else, str_eq, arith, if◌then◌else◌,
}
use dbmanager.Config.{
  Compression, EncryptionSettings, GlobalSettings, Metadata, PingSettings, Manager, set_config,
  save_config,
}

abbrev pub default_compression : Compression
default_compression = record { enabled = false; algorithm = "gzip"; level = 6 }

unfoldable pub get_global_settings : Manager → GlobalSettings
get_global_settings m =
    or_else m.config.global_settings
      (record { compression = some default_compression; encryption = none })

-- `update`: the keys of `settings` replace those of the configuration
unfoldable pub update_global_settings : GlobalSettings → Manager → Manager
unfolding save_config
update_global_settings settings m =
    let old : GlobalSettings =
      or_else m.config.global_settings (record { compression = none; encryption = none }) in
    let new : GlobalSettings = record {
      compression = elim settings.compression [ none ↦ old.compression | some c ↦ some c ];
      encryption = elim settings.encryption [ none ↦ old.encryption | some e ↦ some e ];
    } in
    set_config m (record m.config { global_settings = some new })

unfoldable pub get_compression_settings : Manager → Compression
unfolding get_global_settings
get_compression_settings m = or_else (get_global_settings m).compression default_compression

unfoldable pub update_compression_settings :
    Option Bool → Option String → Option ℕ → Manager → Manager
unfolding get_global_settings get_compression_settings update_global_settings
update_compression_settings enabled algorithm level m =
    let old = get_compression_settings m in
    let settings : Compression = record {
      enabled = or_else enabled old.enabled;
      algorithm = or_else algorithm old.algorithm;
      level = or_else level old.level;
    } in
    update_global_settings (record (get_global_settings m) { compression = some settings }) m

unfoldable pub get_encryption_settings : Manager → EncryptionSettings
unfolding get_global_settings
get_encryption_settings m =
    or_else (get_global_settings m).encryption (record { enabled = false; password = none })

unfoldable pub update_encryption_settings : Option Bool → Option String → Manager → Manager
unfolding get_global_settings get_encryption_settings update_global_settings
update_encryption_settings enabled password m =
    let old = get_encryption_settings m in
    let settings : EncryptionSettings = record {
      enabled = or_else enabled old.enabled;
      password = elim password [ none ↦ old.password | some p ↦ some p ];
    } in
    update_global_settings (record (get_global_settings m) { encryption = some settings }) m

abbrev pub no_metadata : Metadata
no_metadata = record { notes = ""; starred = false; date_starred = none }

unfoldable pub get_backup_metadata : String → Manager → Metadata
get_backup_metadata f m = or_else (m.config.backup_metadata f) no_metadata

-- `now` is the clock for `date_starred`.
unfoldable pub set_backup_metadata : ℕ → String → Option String → Option Bool → Manager → Manager
unfolding save_config
set_backup_metadata now f notes starred m =
    let old = or_else (m.config.backup_metadata f) no_metadata in
    let entry : Metadata = record {
      notes = or_else notes old.notes;
      starred = or_else starred old.starred;
      date_starred = elim starred [
        | none ↦ old.date_starred
        | some s ↦ if s then some now else none
      ];
    } in
    set_config m (record m.config {
      backup_metadata = λ g. if str_eq f g then some entry else m.config.backup_metadata g;
    })

unfoldable pub get_ping_settings : Manager → PingSettings
get_ping_settings m =
    or_else m.config.ping_settings (record { enabled = true; interval_minutes = 5 })

unfoldable pub update_ping_settings : Bool → ℕ → Manager → Manager
unfolding save_config
update_ping_settings enabled interval_minutes m = set_config m (record m.config {
  ping_settings = some (record { enabled = enabled; interval_minutes = interval_minutes });
})

-- An update of one of the two settings is what the next read of it gives, keyword by keyword, and
-- leaves the other one; the file has what the memory has.
pub update_settings-get :
    (enabled : Option Bool) (algorithm : Option String) (level : Option ℕ)
    (password : Option String) (m : Manager)
    → let mc = update_compression_settings enabled algorithm level m in
      let me = update_encryption_settings enabled password m in
      ((get_compression_settings mc).enabled ≡ or_else enabled (get_compression_settings m).enabled)
      × ((get_compression_settings mc).algorithm
          ≡ or_else algorithm (get_compression_settings m).algorithm)
      × ((get_compression_settings mc).level ≡ or_else level (get_compression_settings m).level)
      × (get_encryption_settings mc ≡ get_encryption_settings m)
      × ((get_encryption_settings me).enabled ≡ or_else enabled (get_encryption_settings m).enabled)
      × ((get_encryption_settings me).password
          ≡ elim password [ none ↦ (get_encryption_settings m).password | some p ↦ some p ])
      × (get_compression_settings me ≡ get_compression_settings m)
      × (mc.disk ≡ mc.config)
      × (me.disk ≡ me.config)
unfolding update_compression_settings update_encryption_settings get_compression_settings
    get_encryption_settings
update_settings-get enabled algorithm level password m = ground arith
