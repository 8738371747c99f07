-- ===== src/Config/Secrets.antt =====
-- The secrets of config.json: `SecurityManager` of backend/core/security.py and `_process_config` of
-- backend/config.py. Fernet is a parameter; `decrypt` answers `none` for the exception on a text that
-- is no token of the key.
pub mod Roundtrip
mod Tests
use dbmanager.Base.{
  String, ◌≡◌, refl, ap, Bool, true, false, Option, none, some, List, [], ◌∷◌, ◌&&◌, not, any,
  str_eq, arith, is_some, Bool-cases, Option-cases, inl, inr, text_is_empty, if◌then◌else◌,
}
use dbmanager.Base.Text.{begins_with}
use dbmanager.Json.{
  Json, Items, Fields, null, bool, num, str, list, tuple, dict, nil, cons, end, field,
}

pub record Fernet : Type 0 where
  pub encrypt : String → String
  pub decrypt : String → Option String

-- A token decrypts to its text and is not empty.
pub record IsFernet (f : Fernet) : Type 0 where
  pub decrypts : (s : String) → f.decrypt (f.encrypt s) ≡ some s
  pub full : (s : String) → text_is_empty (f.encrypt s) ≡ false

abbrev pub sensitive_fields : List String
sensitive_fields =
    "password" ∷ "smtp_password" ∷ "aws_secret_access_key" ∷ "access_key" ∷ "secret_key"
    ∷ "webhook_url" ∷ "connection_string" ∷ "uri" ∷ "smb_password" ∷ "jwt_secret" ∷ []

pub is_sensitive : String → Bool
is_sensitive k = any (str_eq k) sensitive_fields

module _ (f : Fernet) where
  -- The text is a token already.
  abbrev pub is_token : String → Bool
  is_token s = begins_with "gAAAA" s && is_some (f.decrypt s)

  unfoldable pub encrypt : String → String
  encrypt s = if text_is_empty s then s else if is_token s then s else f.encrypt s

  unfoldable pub decrypt : String → String
  decrypt s = if text_is_empty s then s else elim (f.decrypt s) [ none ↦ s | some t ↦ t ]

  -- The branch of a sensitive key for a `str` that is not empty.
  unfoldable pub process_text : Bool → String → String
  process_text to_disk s = if to_disk then encrypt s else decrypt s

  unfoldable pub process_field : Bool → String → Json → Json → Json
  process_field to_disk k (str s) other =
      if is_sensitive k && not (text_is_empty s) then str (process_text to_disk s) else other
  process_field to_disk k v other = other

  unfoldable mutual
    pub process_config : Bool → Json → Json
    process_config to_disk (list xs) = list (process_items to_disk xs)
    process_config to_disk (dict fs) = dict (process_fields to_disk fs)
    process_config to_disk null = null
    process_config to_disk (bool b) = bool b
    process_config to_disk (num n) = num n
    process_config to_disk (str s) = str s
    process_config to_disk (tuple xs) = tuple xs

    pub process_items : Bool → Items → Items
    process_items to_disk nil = nil
    process_items to_disk (cons v xs) = cons (process_config to_disk v) (process_items to_disk xs)

    pub process_fields : Bool → Fields → Fields
    process_fields to_disk end = end
    process_fields to_disk (field k v fs) =
        field k (process_field to_disk k v (process_config to_disk v)) (process_fields to_disk fs)

  -- The configuration as `save_config` writes it and as `_load_config` reads it.
  abbrev pub saved : Json → Json
  saved v = process_config true v

  abbrev pub loaded : Json → Json
  loaded v = process_config false v

  -- A text under a sensitive key satisfies `P`, at every depth.
  abbrev pub Secret : (String → Type 0) → String → Json → Type 0
  Secret P k (str s) = if is_sensitive k && not (text_is_empty s) then P s else Unit
  Secret P k v = Unit

  abbrev mutual
    pub AllSecrets : (String → Type 0) → Json → Type 0
    AllSecrets P null = Unit
    AllSecrets P (bool b) = Unit
    AllSecrets P (num n) = Unit
    AllSecrets P (str s) = Unit
    AllSecrets P (tuple xs) = Unit
    AllSecrets P (list xs) = AllSecretItems P xs
    AllSecrets P (dict fs) = AllSecretFields P fs

    pub AllSecretItems : (String → Type 0) → Items → Type 0
    AllSecretItems P nil = Unit
    AllSecretItems P (cons v xs) = AllSecrets P v × AllSecretItems P xs

    pub AllSecretFields : (String → Type 0) → Fields → Type 0
    AllSecretFields P end = Unit
    AllSecretFields P (field k v fs) = Secret P k v × AllSecrets P v × AllSecretFields P fs
