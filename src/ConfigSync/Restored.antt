-- ===== src/ConfigSync/Restored.antt =====
-- A configuration that went to a storage target comes back from it.
use dbmanager.Base.{
  ℕ, String, ◌≡◌, refl, sym, ap, ◌∙◌, Bool, true, false, Option, some, arith, Option-cases,
  Bool-cases, inl, inr, str_eq, ◌==◌, if◌then◌else◌,
}
use mathlib.Core.Path.{subst}
use dbmanager.Json.{Json}
use dbmanager.Config.Secrets.{Fernet, loaded}
use dbmanager.Storage.{Bytes}
use dbmanager.Storage.Targets.{Targets, IsTargets}
use dbmanager.ConfigSync.{
  config_backup_key, config_metadata_key, proxy_backup_key, Copy, State, Platform, config_target,
  upload_rest, upload_config, sync_to_storage, keep_copy, fetch_proxy, replace_config,
  download_config, sync_from_storage,
}

module _ (f : Fernet) (s : Targets) (lawful : IsTargets s) (p : Platform s) where
  apart :
      (i : ℕ) (k : String)
      → str_eq k config_backup_key ≡ false
      → (if i == i then str_eq k config_backup_key else false) ≡ false
  apart i k h = ground arith

  upload_rest-other :
      (now i : ℕ) (proxy : Option Bytes) (w : s.World)
      → s.download i config_backup_key (upload_rest f s p now i proxy w).1
        ≡ s.download i config_backup_key w
  unfolding upload_rest
  upload_rest-other now i proxy w =
      let (sent, w') = s.upload i (p.describe now) config_metadata_key w in
      let first : s.download i config_backup_key w' ≡ s.download i config_backup_key w =
        lawful.upload-other i i (p.describe now) config_metadata_key config_backup_key w
          (apart i config_metadata_key refl) in
      elim (Option-cases sent) [
        | inl e ↦ ground (arith, first)
        | inr (x, e) ↦ elim (Option-cases proxy) [
          | inl g ↦ ground (arith, first)
          | inr (b, g) ↦
              let second =
                lawful.upload-other i i b proxy_backup_key config_backup_key w'
                  (apart i proxy_backup_key refl) in
              ground (arith, first, second)
        ]
      ]

  upload_config-there :
      (now i : ℕ) (b : Bytes) (proxy : Option Bytes) (w : s.World)
      → (upload_config f s p now i b proxy w).0 ≡ true
      → s.download i config_backup_key (upload_config f s p now i b proxy w).1 ≡ some (some b)
  unfolding upload_config
  upload_config-there now i b proxy w h =
      let (sent, w') = s.upload i b config_backup_key w in
      elim (Option-cases sent) [
        | inl e ↦ absurd (ground arith)
        | inr (done, e) ↦ elim (Bool-cases done) [
          | inr g ↦ absurd (ground arith)
          | inl g ↦
              let there : s.download i config_backup_key w' ≡ some (some b) =
                lawful.download-upload i b config_backup_key w (e ∙ ap (λ x. some x) g) in
              ground (arith, there, upload_rest-other now i proxy w')
        ]
      ]

  fetch_proxy-config :
      (i : ℕ) (st : State s)
      → ((fetch_proxy f s p i st).config ≡ st.config) × ((fetch_proxy f s p i st).file ≡ st.file)
  unfolding fetch_proxy
  fetch_proxy-config i st = ground arith

  -- It went through, the file has these bytes, and the configuration is what they say.
  abbrev pub IsBack : ℕ → Bytes → Json → Bool × State s → Type 0
  IsBack now b v x =
      (x.0 ≡ true)
      × (x.1.file ≡ some (record { bytes = b; mtime = now }))
      × (x.1.config ≡ loaded f v)

  IsBack-as :
      (now : ℕ) (b : Bytes) (v : Json) (x y : Bool × State s)
      → x ≡ y
      → IsBack now b v y
      → IsBack now b v x
  IsBack-as now b v x y e h = subst (IsBack now b v) (sym e) h

  download_config-IsBack :
      (now i : ℕ) (b : Bytes) (v : Json) (st : State s)
      → s.download i config_backup_key st.world ≡ some (some b)
      → p.parse b ≡ some v
      → IsBack now b v (download_config f s p now i st)
  unfolding download_config replace_config
  download_config-IsBack now i b v st e g =
      let written : State s = record st {
        file = some (record { bytes = b; mtime = now });
        config = loaded f v;
      } in
      let (c, k) = fetch_proxy-config i written in
      IsBack-as now b v (download_config f s p now i st) (true, fetch_proxy f s p i written)
        (ground arith) (refl, k, c)

  keep_copy-world : (now : ℕ) (st : State s) → (keep_copy f s p now st).world ≡ st.world
  unfolding keep_copy
  keep_copy-world now st = ground arith

  sync_to_storage-there :
      (now i : ℕ) (c : Copy) (st : State s)
      → config_target st.config ≡ some i
      → st.file ≡ some c
      → (sync_to_storage f s p now st).0 ≡ true
      → s.download i config_backup_key (sync_to_storage f s p now st).1 ≡ some (some c.bytes)
  unfolding sync_to_storage
  sync_to_storage-there now i c st e g h = elim (Bool-cases (s.exists i st.world)) [
    | inr k ↦ absurd (ground arith)
    | inl k ↦ ground (arith, upload_config-there now i c.bytes st.proxy st.world)
  ]

  -- A configuration that was sent to its target successfully is what a forced synchronisation from the
  -- same target puts in place of the file, on whatever host, and its contents with the secrets
  -- decrypted are the configuration in memory then. The target lists the file, which is JSON.
  pub sync_from-sync_to :
      (now now' i t : ℕ) (c : Copy) (v : Json) (interactive answer : Bool) (st st' : State s)
      → config_target st.config ≡ some i
      → st.file ≡ some c
      → (sync_to_storage f s p now st).0 ≡ true
      → config_target st'.config ≡ some i
      → st'.world ≡ (sync_to_storage f s p now st).1
      → s.exists i st'.world ≡ true
      → p.modified i config_backup_key st'.world ≡ some (some t)
      → p.parse c.bytes ≡ some v
      → IsBack now' c.bytes v (sync_from_storage f s p now' true interactive answer st')
  unfolding sync_from_storage
  sync_from-sync_to now now' i t c v interactive answer st st' e g sent e' same ex m parsed =
      let at : State s = keep_copy f s p now' st' in
      let there : s.download i config_backup_key at.world ≡ some (some c.bytes) =
        ap (s.download i config_backup_key) (keep_copy-world now' st' ∙ same)
        ∙ sync_to_storage-there now i c st e g sent in
      IsBack-as now' c.bytes v (sync_from_storage f s p now' true interactive answer st')
        (download_config f s p now' i at) (ground arith)
        (download_config-IsBack now' i c.bytes v at there parsed)
