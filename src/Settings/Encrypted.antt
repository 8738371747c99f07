-- ===== src/Settings/Encrypted.antt =====
-- Encryption is switched on with a password only.
use dbmanager.Base.{
  String, ◌≡◌, refl, Bool, true, Option, none, some, arith, ◌⊎◌, ◌∙◌, if◌then◌else◌,
}
use dbmanager.Base.Outcome.{ok}
use dbmanager.Config.{Manager}
use dbmanager.Config.Settings.{
  get_compression_settings, get_encryption_settings as stored_encryption,
  update_encryption_settings as put_encryption, update_settings-get,
}
use dbmanager.Settings.{EncryptionUpdate, filled, update_encryption_settings}

put_encryption-get :
    (enabled : Bool) (password : Option String) (m : Manager)
    → ((stored_encryption (put_encryption (some enabled) password m)).enabled ≡ enabled)
      × ((stored_encryption (put_encryption (some enabled) password m)).password
          ≡ elim password [ none ↦ (stored_encryption m).password | some p ↦ some p ])
      × (get_compression_settings (put_encryption (some enabled) password m)
          ≡ get_compression_settings m)
put_encryption-get enabled password m =
    let (a, b, c, d, e, f, g, h, k) = update_settings-get (some enabled) none none password m in
    (e, f, g)

-- The password that an update takes.
chosen :
    (new old : Option String)
    → elim (if filled new then new else none) [ none ↦ old | some p ↦ some p ]
      ≡ (if filled new then new else old)
unfolding filled
chosen none old = refl
chosen (some p) old = ground arith

-- Where a request that switches encryption on is answered with success, encryption is on in the
-- configuration, with a password that is not empty: the one of the request, or else the one that was
-- there. The compression is as before.
pub update_encryption_settings-filled :
    (available : Bool) (settings : EncryptionUpdate) (m : Manager)
    → (update_encryption_settings available settings m).0 ≡ ok true
    → let m' = (update_encryption_settings available settings m).1 in
      ((stored_encryption m').enabled ≡ true)
      × (filled (stored_encryption m').password ≡ true)
      × ((stored_encryption m').password ≡ (
          if filled settings.password then settings.password else (stored_encryption m).password))
      × (get_compression_settings m' ≡ get_compression_settings m)
unfolding update_encryption_settings
update_encryption_settings-filled available settings m h =
    let pw : Option String = if filled settings.password then settings.password else none in
    let m' : Manager = put_encryption (some true) pw m in
    let same : (update_encryption_settings available settings m).1 ≡ m' = ground arith in
    let some_password : (filled settings.password ≡ true)
        ⊎ (filled (stored_encryption m).password ≡ true) =
      ground arith in
    let (on, word, other) = put_encryption-get true pw m in
    let kept : (stored_encryption m').password
        ≡ (if filled settings.password then settings.password else (stored_encryption m).password) =
      word ∙ chosen settings.password (stored_encryption m).password in
    let full : filled (stored_encryption m').password ≡ true = ground arith in
    rw same (on, full, kept, other)
