-- ===== src/Config/Secrets/Roundtrip.antt =====
-- A configuration that was saved is loaded as it was, and its secrets are not on the disk.
use dbmanager.Base.{
  String, ◌≡◌, refl, ap, true, false, ◌&&◌, not, arith, is_some, Bool-cases, inl, inr,
  text_is_empty,
}
use dbmanager.Json.{
  Json, Items, Fields, null, bool, num, str, list, tuple, dict, nil, cons, end, field,
}
use dbmanager.Config.Secrets.{
  Fernet, IsFernet, is_sensitive, is_token, encrypt, decrypt, process_text, process_field,
  process_config, process_items, process_fields, saved, loaded, Secret, AllSecrets, AllSecretItems,
  AllSecretFields,
}

module _ (f : Fernet) (lawful : IsFernet f) where
  -- A plain text does not decrypt as it stands.
  abbrev pub IsPlaintext : String → Type 0
  IsPlaintext s = is_token f s ≡ false

  abbrev pub IsCiphertext : String → Type 0
  IsCiphertext s = is_some (f.decrypt s) ≡ true

  decrypt-encrypt : (s : String) → IsPlaintext s → decrypt f (encrypt f s) ≡ s
  unfolding decrypt encrypt
  decrypt-encrypt s h = ground (arith, lawful.decrypts s, lawful.full s)

  encrypt-IsCiphertext : (s : String) → text_is_empty s ≡ false → IsCiphertext (encrypt f s)
  unfolding encrypt
  encrypt-IsCiphertext s h = ground (arith, lawful.decrypts s)

  encrypt-full : (s : String) → text_is_empty s ≡ false → text_is_empty (encrypt f s) ≡ false
  unfolding encrypt
  encrypt-full s h = ground (arith, lawful.full s)

  text_again :
      (k s : String)
      → Secret f IsPlaintext k (str s)
      → process_field f false k
          (process_field f true k (str s) (str s))
          (loaded f (process_field f true k (str s) (str s)))
        ≡ str s
  unfolding process_field process_text process_config
  text_again k s h = elim (Bool-cases (is_sensitive k && not (text_is_empty s))) [
    | inl e ↦ ground (arith, decrypt-encrypt s (rw e at h), encrypt-full s)
    | inr e ↦ ground arith
  ]

  mutual
    unfolding process_config process_items process_fields process_field

    loaded-saved : (v : Json) → AllSecrets f IsPlaintext v → loaded f (saved f v) ≡ v
    loaded-saved null h = refl
    loaded-saved (bool b) h = refl
    loaded-saved (num n) h = refl
    loaded-saved (str s) h = refl
    loaded-saved (tuple xs) h = refl
    loaded-saved (list xs) h = ap list (items_again xs h)
    loaded-saved (dict fs) h = ap dict (fields_again fs h)

    items_again :
        (xs : Items)
        → AllSecretItems f IsPlaintext xs
        → process_items f false (process_items f true xs) ≡ xs
    items_again nil h = refl
    items_again (cons v xs) h = cc (loaded-saved v h.0, items_again xs h.1)

    fields_again :
        (fs : Fields)
        → AllSecretFields f IsPlaintext fs
        → process_fields f false (process_fields f true fs) ≡ fs
    fields_again end h = refl
    fields_again (field k (str s) fs) h = cc (text_again k s h.0, fields_again fs h.2)
    fields_again (field k null fs) h = cc (fields_again fs h.2)
    fields_again (field k (bool b) fs) h = cc (fields_again fs h.2)
    fields_again (field k (num n) fs) h = cc (fields_again fs h.2)
    fields_again (field k (tuple xs) fs) h = cc (fields_again fs h.2)
    fields_again (field k (list xs) fs) h = cc (items_again xs h.1, fields_again fs h.2)
    fields_again (field k (dict gs) fs) h = cc (fields_again gs h.1, fields_again fs h.2)

  sealed_text : (k s : String) → Secret f IsCiphertext k (process_field f true k (str s) (str s))
  unfolding process_field process_text
  sealed_text k s = elim (Bool-cases (is_sensitive k && not (text_is_empty s))) [
    | inl e ↦ ground (arith, encrypt-IsCiphertext s, encrypt-full s)
    | inr e ↦ ground arith
  ]

  text-AllSecrets :
      (k s : String) → AllSecrets f IsCiphertext (process_field f true k (str s) (str s))
  unfolding process_field
  text-AllSecrets k s = elim (Bool-cases (is_sensitive k && not (text_is_empty s))) [
    | inl e ↦ rw e tt
    | inr e ↦ rw e tt
  ]

  mutual
    unfolding process_config process_items process_fields process_field

    saved-AllSecrets : (v : Json) → AllSecrets f IsCiphertext (saved f v)
    saved-AllSecrets null = tt
    saved-AllSecrets (bool b) = tt
    saved-AllSecrets (num n) = tt
    saved-AllSecrets (str s) = tt
    saved-AllSecrets (tuple xs) = tt
    saved-AllSecrets (list xs) = sealed_items xs
    saved-AllSecrets (dict fs) = sealed_fields fs

    sealed_items : (xs : Items) → AllSecretItems f IsCiphertext (process_items f true xs)
    sealed_items nil = tt
    sealed_items (cons v xs) = (saved-AllSecrets v, sealed_items xs)

    sealed_fields : (fs : Fields) → AllSecretFields f IsCiphertext (process_fields f true fs)
    sealed_fields end = tt
    sealed_fields (field k (str s) fs) = (sealed_text k s, text-AllSecrets k s, sealed_fields fs)
    sealed_fields (field k null fs) = (tt, tt, sealed_fields fs)
    sealed_fields (field k (bool b) fs) = (tt, tt, sealed_fields fs)
    sealed_fields (field k (num n) fs) = (tt, tt, sealed_fields fs)
    sealed_fields (field k (tuple xs) fs) = (tt, tt, sealed_fields fs)
    sealed_fields (field k (list xs) fs) = (tt, sealed_items xs, sealed_fields fs)
    sealed_fields (field k (dict gs) fs) = (tt, sealed_fields gs, sealed_fields fs)

  -- A configuration in which no secret is a token of the key already is loaded as it was saved, and
  -- every secret of it that is not empty stands in the file as a token of the key, at every depth. A
  -- secret is a text under one of the sensitive fields.
  pub save-load :
      (v : Json)
      → AllSecrets f IsPlaintext v
      → (loaded f (saved f v) ≡ v) × AllSecrets f IsCiphertext (saved f v)
  save-load v h = (loaded-saved v h, saved-AllSecrets v)
