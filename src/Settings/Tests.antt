-- ===== src/Settings/Tests.antt =====
-- Encryption is switched on for the configuration of Config/Tests.
use dbmanager.Base.{◌≡◌, refl, true, some, if◌then◌else◌}
use dbmanager.Base.Outcome.{ok}
use dbmanager.Config.Settings.{
  get_compression_settings, get_encryption_settings as stored_encryption, get_global_settings,
}
use dbmanager.Config.Tests.{manager}
use dbmanager.Settings.{EncryptionUpdate, filled, update_encryption_settings}
use dbmanager.Settings.Encrypted.{update_encryption_settings-filled}

abbrev switch_on : EncryptionUpdate
switch_on = record { enabled = true; password = some "pw" }

switched_on : (update_encryption_settings true switch_on manager).0 ≡ ok true
unfolding update_encryption_settings filled stored_encryption get_global_settings
switched_on = refl

update_encryption_settings-filled_example :
    let m' = (update_encryption_settings true switch_on manager).1 in
    ((stored_encryption m').enabled ≡ true)
    × (filled (stored_encryption m').password ≡ true)
    × ((stored_encryption m').password
        ≡ (if filled (some "pw") then some "pw" else (stored_encryption manager).password))
    × (get_compression_settings m' ≡ get_compression_settings manager)
update_encryption_settings-filled_example =
    update_encryption_settings-filled true switch_on manager switched_on
