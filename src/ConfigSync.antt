-- ===== src/ConfigSync.antt =====
-- `ConfigSync` of backend/core/config_sync.py: config.json and proxy.json go to the storage target that
-- the configuration names, and come back from it. The configuration in memory is the untyped dict that
-- `_load_config` of backend/config.py makes of the file. Failures of the local file system are left out.
pub mod Kept
pub mod Restored
mod Tests
use dbmanager.Base.{
  ℕ, String, Bool, true, false, Option, none, some, ◌&&◌, not, ltb, ◌==◌, if◌then◌else◌,
}
use dbmanager.Json.{Json, null, num, dict}
use dbmanager.Config.Secrets.{Fernet, loaded}
use dbmanager.Storage.{Bytes}
use dbmanager.Storage.Targets.{Targets}
use dbmanager.Databases.{dict_get}

abbrev pub config_backup_key : String
config_backup_key = "config/config.json"

abbrev pub config_metadata_key : String
config_metadata_key = "config/metadata.json"

abbrev pub proxy_backup_key : String
proxy_backup_key = "config/proxy.json"

pub record Copy : Type 0 where
  pub bytes : Bytes
  pub mtime : ℕ

-- `file` is config.json, and `kept` has its copies by the second in their names.
pub record State (s : Targets) : Type 0 where
  pub config : Json
  pub file : Option Copy
  pub kept : ℕ → Option Bytes
  pub proxy : Option Bytes
  pub world : s.World

-- What the standard library does: the parser of JSON, the text of the metadata at a time, and the
-- naive times of a local and of a remote modification. `modified` is `get_file_info` of the provider,
-- as far as the time: `none` is an exception.
pub record Platform (s : Targets) : Type 0 where
  pub parse : Bytes → Option Json
  pub describe : ℕ → Bytes
  pub local_time : ℕ → ℕ
  pub remote_time : ℕ → ℕ
  pub modified : ℕ → String → s.World → Option (Option ℕ)

unfoldable pub target_value : Json → Option Json
target_value (dict fs) = dict_get "config_sync_bucket_id" fs
target_value other = none

-- An id of 0 counts as none.
unfoldable pub config_target : Json → Option ℕ
config_target v = elim (target_value v) [
  | some (num n) ↦ if n == 0 then none else some n
  | _ ↦ none
]

unfoldable pub is_enabled : Json → Bool
is_enabled v = elim (target_value v) [ none ↦ false | some null ↦ false | some _ ↦ true ]

module _ (f : Fernet) (s : Targets) (p : Platform s) where
  -- The uploads after that of config.json. An exception of the first one ends the synchronisation, one
  -- of the second is passed over.
  unfoldable pub upload_rest : ℕ → ℕ → Option Bytes → s.World → Bool × s.World
  upload_rest now i proxy w =
      let (told, w') = s.upload i (p.describe now) config_metadata_key w in
      elim told [
        | none ↦ (false, w')
        | some _ ↦ (true, elim proxy [ none ↦ w' | some b ↦ (s.upload i b proxy_backup_key w').1 ])
      ]

  unfoldable pub upload_config : ℕ → ℕ → Bytes → Option Bytes → s.World → Bool × s.World
  upload_config now i b proxy w =
      let (sent, w') = s.upload i b config_backup_key w in
      elim sent [
        | none ↦ (false, w')
        | some ok ↦ if ok then upload_rest now i proxy w' else (false, w')
      ]

  unfoldable pub sync_to_storage : ℕ → State s → Bool × s.World
  sync_to_storage now st = elim (config_target st.config) [
    | none ↦ (false, st.world)
    | some i ↦ if not (s.exists i st.world) then (false, st.world) else elim st.file [
      | none ↦ (false, st.world)
      | some c ↦ upload_config now i c.bytes st.proxy st.world
    ]
  ]

  -- The local file is newer than the remote one.
  unfoldable pub is_newer : ℕ → State s → Bool
  is_newer t st = elim st.file [
    | none ↦ false
    | some c ↦ ltb (p.remote_time t) (p.local_time c.mtime)
  ]

  -- The copy of the local file.
  unfoldable pub keep_copy : ℕ → State s → State s
  keep_copy now st = elim st.file [
    | none ↦ st
    | some c ↦ record st { kept = λ n. if n == now then some c.bytes else st.kept n }
  ]

  -- An exception is passed over.
  unfoldable pub fetch_proxy : ℕ → State s → State s
  fetch_proxy i st = elim (p.modified i proxy_backup_key st.world) [
    | some (some t) ↦ elim (s.download i proxy_backup_key st.world) [
      | some (some b) ↦ record st { proxy = some b }
      | _ ↦ st
    ]
    | _ ↦ st
  ]

  -- The file is written before it is read; a text that is no JSON raises an exception.
  unfoldable pub replace_config : ℕ → ℕ → Bytes → State s → Bool × State s
  replace_config now i b st =
      let written : State s = record st { file = some (record { bytes = b; mtime = now }) } in
      elim (p.parse b) [
        | none ↦ (false, written)
        | some v ↦ (true, fetch_proxy i (record written { config = loaded f v }))
      ]

  unfoldable pub download_config : ℕ → ℕ → State s → Bool × State s
  download_config now i st = elim (s.download i config_backup_key st.world) [
    | some (some b) ↦ replace_config now i b st
    | _ ↦ (false, st)
  ]

  -- `answer` is the user's, which is asked for only where the local file is newer.
  unfoldable pub sync_from_storage : ℕ → Bool → Bool → Bool → State s → Bool × State s
  sync_from_storage now force interactive answer st = elim (config_target st.config) [
    | none ↦ (false, st)
    | some i ↦
        if not (s.exists i st.world)
        then (false, st)
        else elim (p.modified i config_backup_key st.world) [
          | none ↦ (false, st)
          | some none ↦ (false, st)
          | some (some t) ↦
              if not force && is_newer t st && not (interactive && answer)
              then (false, st)
              else download_config now i (keep_copy now st)
        ]
  ]

  unfoldable pub get_storage_config_info : State s → Option ℕ
  get_storage_config_info st = elim (config_target st.config) [
    | none ↦ none
    | some i ↦
        if not (s.exists i st.world)
        then none
        else elim (p.modified i config_backup_key st.world) [ none ↦ none | some info ↦ info ]
  ]

  unfoldable pub auto_sync_on_startup : ℕ → State s → State s
  auto_sync_on_startup now st =
      if not (is_enabled st.config) then st else elim (get_storage_config_info st) [
        | none ↦ st
        | some t ↦ elim st.file [
          | none ↦ (sync_from_storage now true true false st).1
          | some c ↦
              if ltb (p.local_time c.mtime) (p.remote_time t)
              then (sync_from_storage now true true false st).1
              else st
        ]
      ]
